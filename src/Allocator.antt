-- ===== src/Allocator.antt =====
-- internal/allocator/allocator.go: the allocator over the lease database. What lies outside is the
-- argument `Env`: the clock (read once for each request), the answers to `ping`, the output of
-- `arp` and the name service.
pub mod Scan
pub mod Grants
pub mod Pool
pub mod Leases
pub mod Ends
pub mod Free
pub mod Recorded
use go_dhcpd.Base.{
  ℕ, zero, suc, ◌+◌, ◌-◌, ◌*◌, ◌/◌, ◌%◌, Bool, true, false, not, ◌&&◌, ◌||◌, List, [], ◌∷◌, ◌++◌,
  Option, none, some, ltb, leb, ◌==◌, if◌then◌else◌, length, get_or, take, drop, Bytes, Text,
  text_eq, codes, ℤ, seconds, pos_part, neg_part, Error, no_address, in_use, bad_range, no_lease,
  unresolved, Result, ok, err, Exec, pure, raise, and_then, ◌>>=◌, ◌>>◌,
}
use go_dhcpd.Net.{Ip, ipv4, to4, is_unspecified}
use go_dhcpd.Net.Print.{ip_string, parse_ip}
use go_dhcpd.Config.{GlobalConfig, SubnetConfig, StaticHost, DynamicRange, normalize_mac}
use go_dhcpd.Db.{
  Lease, active, expired, DenyAddress, Database, Query, add_lease, update_lease, get_lease_by_mac,
  get_lease_by_ip, add_deny_address, is_deny_address,
}
use go_dhcpd.Arp.{mac_from_arp}

pub record Env : Type 0 where
  pub now : ℕ
  -- `now.AddDate(100, 0, 0)`
  pub century : ℕ
  -- whether the address answers the i-th ping
  pub answers : Text → ℕ → Bool
  pub arp : Text → Option Text
  pub lookup_ip : Text → Option (List Ip)

pub record Allocator : Type 0 where
  pub config : GlobalConfig
  pub db : Database
  pub subnets : List SubnetConfig
  pub static : List StaticHost

-- Runs a statement on the database of the allocator.
abbrev pub query : {A : Type 0} → Query A → Exec Allocator A
query q a = let (r, d) = q a.db in (r, record a { db = d })

-- `Refresh`, on the answers of the plugin to the two requests.
unfoldable pub refresh :
    Result (List SubnetConfig) → Result (List StaticHost) → Exec Allocator (Unit {0})
refresh (err e) hosts a = (err e, a)
refresh (ok subnets) (err e) a = (err e, a)
refresh (ok subnets) (ok hosts) a = (ok tt, record a { subnets = subnets; static = hosts })

-- `nil` where there is no address.
abbrev pub or_nil : Option Ip → Ip
or_nil none = []
or_nil (some ip) = ip

abbrev pub or_else {ℓ} : {A : Type ℓ} → Option A → Option A → Option A
or_else none o = o
or_else (some a) o = some a

abbrev pub first_ip : Option (List Ip) → Option Ip
first_ip none = none
first_ip (some []) = none
first_ip (some (ip ∷ ips)) = some ip

module _ (env : Env) where
  -- The address of one static host: a literal, or else the first that its name resolves to.
  unfoldable pub host_ip : StaticHost → Option Ip
  host_ip host = or_else (parse_ip host.ip_address) (first_ip (env.lookup_ip host.ip_address))

  -- `getStaticIP`; the first argument is normalized.
  unfoldable pub static_ip : Text → List StaticHost → Option Ip
  unfolding host_ip
  static_ip mac [] = none
  static_ip mac (h ∷ hs) =
      if text_eq (normalize_mac h.mac_address) mac
      then or_else (host_ip h) (static_ip mac hs)
      else static_ip mac hs

  -- `StaticIPForMAC`
  unfoldable pub static_ip_for_mac : Text → Allocator → Option Ip
  static_ip_for_mac mac a = static_ip (normalize_mac mac) a.static

  -- The last test of `isIPAvailable`, on the row with the address.
  unfoldable pub row_available : Text → Option Lease → Bool
  row_available mac none = true
  row_available mac (some l) =
      if text_eq (normalize_mac l.mac_address) mac then true else ltb l.lease_end env.now

  lease_allows : Text → Result (Option Lease) × Allocator → Bool × Allocator
  lease_allows mac (err e, a) = (false, a)
  lease_allows mac (ok o, a) = (row_available mac o, a)

  deny_allows : Text → Text → Result Bool × Allocator → Bool × Allocator
  deny_allows ip mac (err e, a) = (false, a)
  deny_allows ip mac (ok true, a) = (false, a)
  deny_allows ip mac (ok false, a) = lease_allows mac (query (get_lease_by_ip ip) a)

  -- `isIPAvailable`
  unfoldable pub is_ip_available : Ip → Text → Allocator → Bool × Allocator
  unfolding lease_allows deny_allows
  is_ip_available ip mac a =
      deny_allows (ip_string ip) (normalize_mac mac) (query (is_deny_address (ip_string ip)) a)

  -- The loop of `pingCheck`: whether each of the tries from `i` on is answered.
  unfoldable pub all_answered : Text → ℕ → ℕ → Bool
  all_answered ip zero i = true
  all_answered ip (suc tries) i = if env.answers ip i then all_answered ip tries (i + 1) else false

  unfoldable pub squatter : Ip → DenyAddress
  squatter ip =
      let mac = mac_from_arp (ip_string ip) (env.arp (ip_string ip)) in
      record {
        id = 0;
        ip_address = ip_string ip;
        mac_address = mac;
        reason = codes "Responded to ping check, possible squatter. Detected MAC: " ++ mac;
        detected_at = env.now;
      }

  -- `pingCheck`: whether the address is free. A negative number of retries makes no try.
  unfoldable pub ping_check : Ip → Allocator → Bool × Allocator
  ping_check ip a =
      if all_answered (ip_string ip) (pos_part a.config.ping_retries) 0
      then (false, (query (add_deny_address (squatter ip)) a).1)
      else (true, a)

  then_ping : Ip → Bool × Allocator → Bool × Allocator
  then_ping ip (false, a) = (false, a)
  then_ping ip (true, a) = ping_check ip a

  -- The two tests that an address passes before it is handed out.
  unfoldable pub try_address : Ip → Text → Allocator → Bool × Allocator
  unfolding then_ping
  try_address ip mac a = then_ping ip (is_ip_available ip mac a)

abbrev pub u32 : ℕ
u32 = 4294967296

abbrev pub to_uint32 : Bytes → ℕ
to_uint32 b = get_or b 0 0 * 16777216 + get_or b 1 0 * 65536 + get_or b 2 0 * 256 + get_or b 3 0

abbrev pub of_uint32 : ℕ → Ip
of_uint32 n = ipv4 (n / 16777216 % 256) (n / 65536 % 256) (n / 256 % 256) (n % 256)

-- `now.Add(time.Duration(v) * time.Second)`. A time is in nanoseconds since the year 1; a duration has
-- less than 293 years, so the difference does not stop at 0.
unfoldable pub add_seconds : ℕ → ℤ → ℕ
unfolding seconds
add_seconds t v = t + pos_part (seconds v) - neg_part (seconds v)

-- An update of the row with the address, or else a new row.
unfoldable pub save_lease : Lease → Exec Allocator (Unit {0})
save_lease lease = do
  existing ← query (get_lease_by_ip lease.ip_address)
  elim existing [
    | none ↦ (do _ ← query (add_lease lease); pure tt)
    | some e ↦ query (update_lease (record lease { id = e.id }))
  ]

-- An answer, or none while the loop still runs.
abbrev pub Answer : Type 0
Answer = Option (Result Ip × Allocator)

-- An address ends the search; an error or `nil` goes on to the next range.
abbrev pub or_next : Answer → (Allocator → Answer) → Answer
or_next none next = none
or_next (some (err e, a)) next = next a
or_next (some (ok [], a)) next = next a
or_next (some (ok (b ∷ ip), a)) next = some (ok (b ∷ ip), a)

module _ (env : Env) where
  -- `for currentInt <= endInt { ...; currentInt++ }` on 32-bit words, with fuel.
  unfoldable pub scan_range : ℕ → ℕ → ℕ → Text → Allocator → Answer
  scan_range zero cur last mac a = none
  scan_range (suc fuel) cur last mac a =
      let (free, a') = try_address env (of_uint32 cur) mac a in
      elim (ltb last cur) [
        | true ↦ some (err no_address, a)
        | false ↦ elim free [
          | true ↦ some (ok (of_uint32 cur), a')
          | false ↦ scan_range fuel ((cur + 1) % u32) last mac a'
        ]
      ]

  -- The body of `findAvailableIPInRange`, on the two parsed addresses.
  unfoldable pub find_between : ℕ → Option Ip → Option Ip → Text → Allocator → Answer
  find_between fuel none last mac a = some (err bad_range, a)
  find_between fuel (some first) none mac a = some (err bad_range, a)
  find_between fuel (some first) (some last) mac a =
      if (length (to4 first) == 4) && (length (to4 last) == 4)
      then if ltb (to_uint32 (to4 last)) (to_uint32 (to4 first))
        then some (err bad_range, a)
        else scan_range fuel (to_uint32 (to4 first)) (to_uint32 (to4 last)) mac a
      else some (err bad_range, a)

  unfoldable pub find_available : ℕ → DynamicRange → Text → Allocator → Answer
  find_available fuel r mac a =
      find_between fuel (parse_ip r.start_address) (parse_ip r.end_address) mac a

  unfoldable pub in_ranges : ℕ → List DynamicRange → Text → Allocator → Answer
  in_ranges fuel [] mac a = some (err no_address, a)
  in_ranges fuel (r ∷ rs) mac a = or_next (find_available fuel r mac a) (in_ranges fuel rs mac)

  unfoldable pub in_subnets : ℕ → List SubnetConfig → Text → Allocator → Answer
  in_subnets fuel [] mac a = some (err no_address, a)
  in_subnets fuel (s ∷ ss) mac a =
      or_next (in_ranges fuel s.dynamic_ranges mac a) (in_subnets fuel ss mac)

  after_request : ℕ → Ip → Text → Bool × Allocator → Answer
  after_request fuel ip mac (true, a) = some (ok ip, a)
  after_request fuel ip mac (false, a) = in_subnets fuel a.subnets mac a

  -- The requested address, if it is one, and then the dynamic ranges.
  unfoldable pub allocate_new : ℕ → Text → Option Ip → Allocator → Answer
  unfolding after_request
  allocate_new fuel mac none a = in_subnets fuel a.subnets mac a
  allocate_new fuel mac (some ip) a =
      if is_unspecified ip
      then in_subnets fuel a.subnets mac a
      else after_request fuel ip mac (try_address env ip mac a)

  after_lease : ℕ → Text → Option Ip → Result (Option Lease) × Allocator → Answer
  after_lease fuel mac requested (err e, a) = some (err e, a)
  after_lease fuel mac requested (ok none, a) = allocate_new fuel mac requested a
  after_lease fuel mac requested (ok (some l), a) =
      if ltb env.now l.lease_end
      then some (ok (or_nil (parse_ip l.ip_address)), a)
      else allocate_new fuel mac requested a

  after_static : ℕ → Text → Option Ip → Option Ip → Allocator → Answer
  unfolding after_lease
  after_static fuel mac requested (some ip) a = some (ok ip, a)
  after_static fuel mac requested none a =
      after_lease fuel mac requested (query (get_lease_by_mac mac) a)

  -- `AllocateIP`; a `nil` address is the empty one.
  unfoldable pub allocate_ip : ℕ → Text → Option Ip → Allocator → Answer
  unfolding after_static
  allocate_ip fuel mac requested a =
      after_static fuel (normalize_mac mac) requested (static_ip env (normalize_mac mac) a.static) a

  unfoldable pub new_lease : Text → Ip → Text → Bool → Allocator → Lease
  new_lease mac ip hostname is_static a = record {
    id = 0;
    mac_address = normalize_mac mac;
    ip_address = ip_string ip;
    hostname = hostname;
    lease_start = env.now;
    lease_end = add_seconds env.now a.config.lease_time;
    state = active;
    is_static = is_static;
  }

  -- `CreateLease`
  unfoldable pub create_lease : Text → Ip → Text → Bool → Exec Allocator (Unit {0})
  create_lease mac ip hostname is_static a = save_lease (new_lease mac ip hostname is_static a) a

  abbrev pub ended : Lease → Lease
  ended l = record l { state = expired; lease_end = env.now }

  -- `ReleaseLease`
  unfoldable pub release_lease : Text → Exec Allocator (Unit {0})
  release_lease mac = do
    lease ← query (get_lease_by_mac (normalize_mac mac))
    elim lease [ none ↦ raise no_lease | some l ↦ query (update_lease (ended l)) ]

  -- `RevokeStaticLease`
  unfoldable pub revoke_static_lease : Text → Exec Allocator (Unit {0})
  revoke_static_lease mac = do
    lease ← query (get_lease_by_mac (normalize_mac mac))
    elim lease [ none ↦ pure tt | some l ↦ query (update_lease (ended l)) ]

  first_v4 : List Ip → Result Text
  first_v4 [] = err unresolved
  first_v4 (ip ∷ ips) = if length (to4 ip) == 4 then ok (ip_string (to4 ip)) else first_v4 ips

  -- `resolveStaticAddress`
  unfoldable pub resolve_static_address : Text → Result Text
  unfolding first_v4
  resolve_static_address addr = elim (parse_ip addr) [
    | some ip ↦ ok (ip_string ip)
    | none ↦ elim (env.lookup_ip addr) [ none ↦ err unresolved | some ips ↦ first_v4 ips ]
  ]

  -- `SeedStaticLease`
  unfoldable pub seed_static_lease : StaticHost → Exec Allocator (Unit {0})
  seed_static_lease host = do
    ip ← λ a. (resolve_static_address host.ip_address, a)
    save_lease (record {
      id = 0;
      mac_address = normalize_mac host.mac_address;
      ip_address = ip;
      hostname = host.hostname;
      lease_start = env.now;
      lease_end = env.century;
      state = active;
      is_static = true;
    })
