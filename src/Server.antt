-- ===== src/Server.antt =====
-- internal/dhcp/server.go: the daemon as a state, and each handler as a step on it. The datagrams
-- that leave are kept in order; `send_faults` says of the writes to come, in order, which fail, and
-- of those after its end that they succeed. A step is `none` while `AllocateIP` still runs.
pub mod Request
pub mod Safety
pub mod Sends
pub mod Branches
pub mod Handled
pub mod Runs
pub mod Progress
pub mod Routes
use go_dhcpd.Base.{
  ℕ, ◌+◌, ◌/◌, ◌%◌, Bool, true, false, not, ◌&&◌, List, [], ◌∷◌, ◌++◌, Option, none, some, ◌==◌,
  if◌then◌else◌, length, Bytes, Text, text_eq, Result, ok, err,
}
use go_dhcpd.Net.{
  Ip, IpNet, ipv4_zero, ipv4_broadcast, to4, equal, is_unspecified, mask_ip, contains,
}
use go_dhcpd.Net.Print.{parse_ip}
use go_dhcpd.Config.{GlobalConfig, SubnetConfig, StaticHost, normalize_mac}
use go_dhcpd.Options.{lookup}
use go_dhcpd.Packet.{Packet, Outcome, returned, failed, panicked, parse_packet, to_bytes}
use go_dhcpd.Packet.Build.{
  get_message_type, get_requested_ip, get_server_identifier, mac_address_string,
}
use go_dhcpd.Packet.Build.Code
use go_dhcpd.Allocator.{
  Env, Allocator, Answer, static_ip_for_mac, allocate_ip, create_lease, release_lease,
}
use go_dhcpd.Replies.{create_offer, create_ack, create_nak, create_boot_reply}

-- The counters of `Stats`; `uint64` wraps.
pub record Stats : Type 0 where
  pub discover_count : ℕ
  pub offer_count : ℕ
  pub request_count : ℕ
  pub ack_count : ℕ
  pub nak_count : ℕ
  pub release_count : ℕ
  pub inform_count : ℕ
  pub decline_count : ℕ
  pub boot_reply_count : ℕ
  pub packets_received : ℕ
  pub packets_sent : ℕ
  pub errors : ℕ

unfoldable pub next_count : ℕ → ℕ
next_count n = (n + 1) % 18446744073709551616

pub record Datagram : Type 0 where
  pub payload : Bytes
  pub ip : Ip
  pub port : ℕ

pub record Server : Type 0 where
  pub config : GlobalConfig
  pub allocator : Allocator
  pub server_ip : Ip
  pub stats : Stats
  pub sent : List Datagram
  pub send_faults : List Bool

-- `destAddr` of `sendPacket`
unfoldable pub destination : Packet → Ip × ℕ
destination p =
    if is_unspecified p.gi_addr
    then if (p.flags / 32768 % 2 == 0) && not (is_unspecified p.ci_addr)
      then (p.ci_addr, 68)
      else (ipv4_broadcast, 68)
    else (p.gi_addr, 67)

abbrev pub datagram : Packet → Datagram
datagram p = record { payload = to_bytes p; ip = (destination p).0; port = (destination p).1 }

abbrev pub count_error : Server → Server
count_error s = record s { stats = record s.stats { errors = next_count s.stats.errors } }

abbrev pub write_to_udp : Datagram → Server → Server
write_to_udp d s = record s {
  sent = s.sent ++ (d ∷ []);
  stats = record s.stats { packets_sent = next_count s.stats.packets_sent };
}

abbrev pub write_with : List Bool → Datagram → Server → Server
write_with [] d s = write_to_udp d s
write_with (true ∷ rest) d s = count_error (record s { send_faults = rest })
write_with (false ∷ rest) d s = write_to_udp d (record s { send_faults = rest })

-- `sendPacket`
unfoldable pub send_packet : Packet → Server → Server
send_packet p s = write_with s.send_faults (datagram p) s

abbrev pub subnet_contains : Option Ip → Option Ip → Ip → Bool
subnet_contains none netmask ip = false
subnet_contains (some network) none ip = false
subnet_contains (some network) (some netmask) ip =
    (length (to4 netmask) == 4)
    && contains (record { ip = mask_ip network (to4 netmask); mask = to4 netmask }) ip

-- `findSubnetForIP`
unfoldable pub find_subnet_for_ip : List SubnetConfig → Ip → Option SubnetConfig
find_subnet_for_ip [] ip = none
find_subnet_for_ip (s ∷ ss) ip =
    if subnet_contains (parse_ip s.network) (parse_ip s.netmask) ip
    then some s
    else find_subnet_for_ip ss ip

abbrev pub or_empty : Option Bytes → Text
or_empty none = []
or_empty (some name) = name

-- `getHostname`
unfoldable pub get_hostname : Packet → Text
get_hostname p = or_empty (lookup Code.hostname p.options)

-- `isStaticLease`; the first argument is normalized.
unfoldable pub is_static_mac : Text → List StaticHost → Bool
is_static_mac mac [] = false
is_static_mac mac (h ∷ hs) =
    if text_eq (normalize_mac h.mac_address) mac then true else is_static_mac mac hs

abbrev pub is_static_lease : Server → Text → Bool
is_static_lease s mac = is_static_mac (normalize_mac mac) s.allocator.static

abbrev pub with_allocator : Allocator → Server → Server
with_allocator a s = record s { allocator = a }

-- `sendNak`
unfoldable pub send_nak : Packet → Server → Server
send_nak p s =
    let s' = send_packet (create_nak s.config s.server_ip p) s in
    record s' { stats = record s'.stats { nak_count = next_count s'.stats.nak_count } }

abbrev pub send_offer : Packet → Ip → Option SubnetConfig → Server → Server
send_offer p ip none s = s
send_offer p ip (some subnet) s =
    let s' = send_packet (create_offer s.config s.server_ip p ip subnet) s in
    record s' { stats = record s'.stats { offer_count = next_count s'.stats.offer_count } }

abbrev pub after_discover : Packet → Server → Answer → Option Server
after_discover p s none = none
after_discover p s (some (err e, a)) = some (with_allocator a s)
after_discover p s (some (ok ip, a)) =
    some (send_offer p ip (find_subnet_for_ip a.subnets ip) (with_allocator a s))

abbrev pub send_ack : Packet → Ip → SubnetConfig → Server → Server
send_ack p ip subnet s =
    let s' = send_packet (create_ack s.config s.server_ip p ip subnet) s in
    record s' { stats = record s'.stats { ack_count = next_count s'.stats.ack_count } }

abbrev pub after_create :
    Packet → Ip → SubnetConfig → Server → Result (Unit {0}) × Allocator → Server
after_create p ip subnet s (err e, a) = send_nak p (with_allocator a s)
after_create p ip subnet s (ok u, a) = send_ack p ip subnet (with_allocator a s)

abbrev pub ci_wanted : Packet → Option Ip
ci_wanted p = if is_unspecified p.ci_addr then none else some p.ci_addr

-- The address of a REQUEST: the option, or else `ciaddr`, unless it is unspecified.
unfoldable pub wanted : Packet → Option Ip → Option Ip
wanted p none = ci_wanted p
wanted p (some ip) = if is_unspecified ip then ci_wanted p else some ip

-- `serverID != nil && !serverID.Equal(s.serverIP)`
unfoldable pub is_foreign : Ip → Option Ip → Bool
is_foreign server_ip none = false
is_foreign server_ip (some id) = not (equal id server_ip)

module _ (env : Env) where
  abbrev pub record_lease : Packet → Ip → Option SubnetConfig → Server → Server
  record_lease p ip none s = send_nak p s
  record_lease p ip (some subnet) s = after_create p ip subnet s (
      create_lease env (mac_address_string p) ip (get_hostname p)
        (is_static_lease s (mac_address_string p)) s.allocator)

  abbrev pub after_allocate : Packet → Ip → Server → Answer → Option Server
  after_allocate p ip s none = none
  after_allocate p ip s (some (err e, a)) = some (send_nak p (with_allocator a s))
  after_allocate p ip s (some (ok allocated, a)) =
      if equal allocated ip
      then some (record_lease p ip (find_subnet_for_ip a.subnets ip) (with_allocator a s))
      else some (send_nak p (with_allocator a s))

  abbrev pub answer_request : ℕ → Packet → Option Ip → Server → Option Server
  answer_request fuel p none s = some (send_nak p s)
  answer_request fuel p (some ip) s =
      after_allocate p ip s (allocate_ip env fuel (mac_address_string p) (some ip) s.allocator)

  -- `handleDiscover`
  unfoldable pub handle_discover : ℕ → Packet → Server → Option Server
  handle_discover fuel p s =
      after_discover p s
        (allocate_ip env fuel (mac_address_string p) (get_requested_ip p) s.allocator)

  -- `handleRequest`
  unfoldable pub handle_request : ℕ → Packet → Server → Option Server
  handle_request fuel p s =
      if is_foreign s.server_ip (get_server_identifier p)
      then some s
      else answer_request fuel p (wanted p (get_requested_ip p)) s

  -- `handleRelease`
  unfoldable pub handle_release : Packet → Server → Server
  handle_release p s = with_allocator (release_lease env (mac_address_string p) s.allocator).1 s

  abbrev pub after_boot_lease :
      Packet → Ip → SubnetConfig → Server → Result (Unit {0}) × Allocator → Server
  after_boot_lease p ip subnet s (err e, a) = with_allocator a s
  after_boot_lease p ip subnet s (ok u, a) =
      let s' =
        send_packet (create_boot_reply s.config s.server_ip p ip subnet) (with_allocator a s) in
      record s' {
        stats = record s'.stats { boot_reply_count = next_count s'.stats.boot_reply_count };
      }

  abbrev pub boot_on : Packet → Ip → Option SubnetConfig → Server → Server
  boot_on p ip none s = s
  boot_on p ip (some subnet) s =
      if subnet.enable_bootp
      then after_boot_lease p ip subnet s
          (create_lease env (mac_address_string p) ip (get_hostname p) true s.allocator)
      else s

  abbrev pub boot_at : Packet → Option Ip → Server → Server
  boot_at p none s = s
  boot_at p (some ip) s = boot_on p ip (find_subnet_for_ip s.allocator.subnets ip) s

  -- `handleBootP`
  unfoldable pub handle_bootp : Packet → Server → Server
  handle_bootp p s = boot_at p (static_ip_for_mac env (mac_address_string p) s.allocator) s

-- `handleDecline` only writes to the log.
unfoldable pub handle_decline : Packet → Server → Server
handle_decline p s = s

abbrev pub inform_on : Packet → Option SubnetConfig → Server → Server
inform_on p none s = s
inform_on p (some subnet) s =
    send_packet
      (record (create_ack s.config s.server_ip p p.ci_addr subnet) { yi_addr = ipv4_zero }) s

-- `handleInform`
unfoldable pub handle_inform : Packet → Server → Server
handle_inform p s = inform_on p (find_subnet_for_ip s.allocator.subnets p.ci_addr) s

module _ (env : Env) where
  abbrev pub untyped : Packet → Option Bytes → Server → Server
  untyped p (some v) s = count_error s
  untyped p none s = if p.op_code == Code.boot_request then handle_bootp env p s else count_error s

  -- The `switch` of `handlePacket`.
  abbrev pub dispatch : ℕ → ℕ → Packet → Server → Option Server
  dispatch fuel msg_type p s =
      if msg_type == Code.dhcp_discover
      then handle_discover env fuel p (record s {
        stats = record s.stats { discover_count = next_count s.stats.discover_count };
      })
      else if msg_type == Code.dhcp_request
      then handle_request env fuel p
          (record s { stats = record s.stats { request_count = next_count s.stats.request_count } })
      else if msg_type == Code.dhcp_release
      then some (
          handle_release env p (record s {
            stats = record s.stats { release_count = next_count s.stats.release_count };
          }))
      else if msg_type == Code.dhcp_decline
      then some (
          handle_decline p (record s {
            stats = record s.stats { decline_count = next_count s.stats.decline_count };
          }))
      else if msg_type == Code.dhcp_inform
      then some (
          handle_inform p (record s {
            stats = record s.stats { inform_count = next_count s.stats.inform_count };
          }))
      else some s

  abbrev pub on_type : ℕ → Packet → Option ℕ → Server → Option Server
  on_type fuel p none s = some (untyped p (lookup Code.message_type p.options) s)
  on_type fuel p (some msg_type) s = dispatch fuel msg_type p s

  -- `handlePacket`
  unfoldable pub handle_packet : ℕ → Packet → Server → Option Server
  handle_packet fuel p s = on_type fuel p (get_message_type p) s

  abbrev pub on_parsed : ℕ → Outcome Packet → Server → Outcome (Option Server)
  on_parsed fuel (returned p) s = returned (handle_packet fuel p s)
  on_parsed fuel failed s = returned (some (count_error s))
  on_parsed fuel panicked s = panicked

  -- A turn of the loop of `handleConnection`, on a datagram that was read. A panic ends the daemon.
  unfoldable pub receive : ℕ → Bytes → Bytes → Server → Outcome (Option Server)
  receive fuel b spare s = on_parsed fuel (parse_packet b spare) (record s {
    stats = record s.stats { packets_received = next_count s.stats.packets_received };
  })

-- A step, and then another one.
abbrev pub then_step : Option Server → (Server → Option Server) → Option Server
then_step none k = none
then_step (some s) k = k s

-- The packets in the order in which they are handled, each with the clock and the network of its
-- time.
unfoldable pub run_packets : ℕ → List (Env × Packet) → Server → Option Server
run_packets fuel [] s = some s
run_packets fuel ((env, p) ∷ ps) s = then_step (handle_packet env fuel p s) (run_packets fuel ps)
