-- ===== src/Server/Progress.antt =====
-- `handleRequest` of internal/dhcp/server.go where neither SQLite nor the socket fails.
use go_dhcpd.Base.{
  ℕ, ◌+◌, ◌*◌, ◌<◌, ◌≤◌, pos, ◌≡◌, refl, ap, ◌∙◌, inl, inr, Bool, true, false, List, [], ◌∷◌, ◌++◌,
  Option, none, some, ==_refl, if◌then◌else◌, keep, Bool-cases, text_eq_refl, Result, ok,
}
use go_dhcpd.Net.{Ip, equal, is_unspecified}
use go_dhcpd.Net.Print.{ip_string, parse_ip}
use go_dhcpd.Config.{SubnetConfig, normalize_mac}
use go_dhcpd.Db.{Lease, active, holds, latest}
use go_dhcpd.Db.Rows.{row, UniqueIps}
use go_dhcpd.Packet.{Packet}
use go_dhcpd.Packet.Build.{get_requested_ip, get_server_identifier, mac_address_string}
use go_dhcpd.Allocator.{
  Env, Allocator, or_nil, static_ip, allocate_ip, add_seconds, new_lease, create_lease,
}
use go_dhcpd.Allocator.Grants.{Passed}
use go_dhcpd.Allocator.Leases.{
  Saves, refused, written, save_lease-Saves, saved, saved_rows, row-saved_rows, add_seconds-pos,
}
use go_dhcpd.Allocator.Free.{allocate_ip-free, allocate_ip-renewal, save_lease-ok}
use go_dhcpd.Replies.{create_ack}
use go_dhcpd.Server.{
  Server, datagram, write_with, send_packet, send_ack, find_subnet_for_ip, with_allocator, wanted,
  is_foreign, after_create, handle_request, get_hostname, is_static_lease,
}
use go_dhcpd.Server.Request.{request_lease}
use go_dhcpd.Server.Sends.{send_ack-Transmits}

given_only :
    (j ip : Ip) (b : Bool)
    → is_unspecified j ≡ b
    → (if b then none else some j) ≡ some ip
    → is_unspecified ip ≡ false
given_only j ip true e h = cc
given_only j ip false e h = cc (e, h)

wanted-specified :
    (p : Packet) (o : Option Ip) (ip : Ip) → wanted p o ≡ some ip → is_unspecified ip ≡ false
unfolding wanted
wanted-specified p none ip h = given_only p.ci_addr ip (is_unspecified p.ci_addr) refl h
wanted-specified p (some j) ip h = elim (Bool-cases (is_unspecified j)) [
  | inl zero_ ↦ given_only p.ci_addr ip (is_unspecified p.ci_addr) refl (rw zero_ at h)
  | inr given ↦ given_only j ip false given (rw given at h)
]

equal_refl : (ip : Ip) → equal ip ip ≡ true
unfolding equal
equal_refl ip = rw (==_refl, text_eq_refl ip) refl

-- An ACK with the lease: the reply goes out, and the row of the address is the client's, active,
-- until so many seconds from now.
pub record Acknowledged (env : Env) (n : ℕ) (p : Packet) (ip : Ip) (subnet : SubnetConfig)
    (s s' : Server) : Type 0 where
  pub sent : s'.sent ≡ s.sent ++ ((datagram (create_ack s.config s.server_ip p ip subnet)) ∷ [])
  pub lease : Lease
  pub recorded : row (ip_string ip) s'.allocator.db.leases ≡ some lease
  pub mac : lease.mac_address ≡ normalize_mac (mac_address_string p)
  pub state : lease.state ≡ active
  pub lease_end : lease.lease_end ≡ env.now + n * 1000000000

send_ack-sent :
    (p : Packet) (ip : Ip) (subnet : SubnetConfig) (s : Server)
    → s.send_faults ≡ []
    → (send_ack p ip subnet s).sent
      ≡ s.sent ++ ((datagram (create_ack s.config s.server_ip p ip subnet)) ∷ [])
unfolding send_packet
send_ack-sent p ip subnet s h =
    ap (λ fs. (write_with fs (datagram (create_ack s.config s.server_ip p ip subnet)) s).sent) h

module _ (env : Env) (p : Packet) (ip : Ip) (subnet : SubnetConfig) (s : Server)
    (u : UniqueIps s.allocator.db.leases) (running : s.allocator.db.faults ≡ [])
    (sending : s.send_faults ≡ []) (seconds : ℕ)
    (configured : s.allocator.config.lease_time ≡ pos seconds) (short : seconds ≤ 9223372036) where
  saved_until : add_seconds env.now s.allocator.config.lease_time ≡ env.now + seconds * 1000000000
  saved_until = ap (add_seconds env.now) configured ∙ add_seconds-pos env.now seconds short

  saved-row :
      (l : Lease) (n : ℕ) (ls : List Lease)
      → row l.ip_address (saved_rows l n (row l.ip_address ls) ls)
        ≡ some (saved l n (row l.ip_address ls))
  saved-row l n ls = row-saved_rows l n ls l.ip_address ∙ (rw (text_eq_refl l.ip_address) refl)

  saved-fields :
      (o : Option Lease) (n : ℕ) (b : Allocator)
      → row (ip_string ip) b.db.leases ≡ some (saved (request_lease env p ip s) n o)
      → Acknowledged env seconds p ip subnet s (send_ack p ip subnet (with_allocator b s))
  unfolding new_lease
  saved-fields none n b e = record {
    sent = send_ack-sent p ip subnet (with_allocator b s) sending;
    lease = saved (request_lease env p ip s) n none;
    recorded =
        ap (λ (x : Allocator). row (ip_string ip) x.db.leases)
          (send_ack-Transmits p ip subnet (with_allocator b s)).allocator
        ∙ e;
    mac = refl;
    state = refl;
    lease_end = saved_until;
  }
  saved-fields (some m) n b e = record {
    sent = send_ack-sent p ip subnet (with_allocator b s) sending;
    lease = saved (request_lease env p ip s) n (some m);
    recorded =
        ap (λ (x : Allocator). row (ip_string ip) x.db.leases)
          (send_ack-Transmits p ip subnet (with_allocator b s)).allocator
        ∙ e;
    mac = refl;
    state = refl;
    lease_end = saved_until;
  }

  Saves-Acknowledged :
      (r : Result (Unit {0}) × Allocator)
      → Saves (request_lease env p ip s) s.allocator r
      → r.0 ≡ ok tt
      → Acknowledged env seconds p ip subnet s (after_create p ip subnet s r)
  unfolding new_lease
  Saves-Acknowledged _ (refused e b h) k = cc
  Saves-Acknowledged _ (written b c w) k =
      saved-fields (row (request_lease env p ip s).ip_address s.allocator.db.leases)
        s.allocator.db.next_lease b
        (ap (row (ip_string ip)) w
          ∙ saved-row (request_lease env p ip s) s.allocator.db.next_lease s.allocator.db.leases)

  created-Acknowledged : Acknowledged env seconds p ip subnet s (
      after_create p ip subnet s (
        create_lease env
          (mac_address_string p)
          ip
          (get_hostname p)
          (is_static_lease s (mac_address_string p))
          s.allocator))
  unfolding create_lease
  created-Acknowledged =
      Saves-Acknowledged _ (save_lease-Saves (request_lease env p ip s) s.allocator u)
        (save_lease-ok (request_lease env p ip s) s.allocator u running)

  granted-Acknowledged :
      (fuel : ℕ) (granted : Ip)
      → is_foreign s.server_ip (get_server_identifier p) ≡ false
      → wanted p (get_requested_ip p) ≡ some ip
      → allocate_ip env fuel (mac_address_string p) (some ip) s.allocator
        ≡ some (ok granted, s.allocator)
      → equal granted ip ≡ true
      → find_subnet_for_ip s.allocator.subnets ip ≡ some subnet
      → (s' : Server) × (handle_request env fuel p s ≡ some s')
        × Acknowledged env seconds p ip subnet s s'
  unfolding handle_request
  granted-Acknowledged fuel granted own w g same f =
      (_, (rw (own, w, g, same, f) refl), created-Acknowledged)

-- A REQUEST for an address that the client may have is granted: with unique addresses, and where
-- neither SQLite nor the socket fails, a client without a lease or a static address that asks this
-- server, or any, for an address on a configured subnet that is not denied, not leased to another
-- client and leaves a ping unanswered gets its ACK, and the lease of the address is its own, active,
-- until the configured number of seconds, at most 9223372036, from now.
pub handle_request-Acknowledged :
    (env : Env) (fuel : ℕ) (p : Packet) (ip : Ip) (subnet : SubnetConfig) (s : Server) (seconds : ℕ)
    → UniqueIps s.allocator.db.leases
    → s.allocator.db.faults ≡ []
    → s.send_faults ≡ []
    → s.allocator.config.lease_time ≡ pos seconds
    → seconds ≤ 9223372036
    → is_foreign s.server_ip (get_server_identifier p) ≡ false
    → wanted p (get_requested_ip p) ≡ some ip
    → static_ip env (normalize_mac (mac_address_string p)) s.allocator.static ≡ none
    → latest (keep (holds (normalize_mac (mac_address_string p))) s.allocator.db.leases) ≡ none
    → Passed env ip (normalize_mac (mac_address_string p)) s.allocator
    → find_subnet_for_ip s.allocator.subnets ip ≡ some subnet
    → (s' : Server) × (handle_request env fuel p s ≡ some s')
      × Acknowledged env seconds p ip subnet s s'
handle_request-Acknowledged env fuel p ip subnet s seconds u running sending configured short own w
      dynamic unleased passed f =
    granted-Acknowledged env p ip subnet s u running sending seconds configured short fuel ip own w
      (allocate_ip-free env fuel (mac_address_string p) ip s.allocator u running dynamic unleased
        (wanted-specified p (get_requested_ip p) ip w) passed)
      (equal_refl ip) f

-- A lease is renewed: with unique addresses, and where neither SQLite nor the socket fails, a
-- client without a static address whose newest lease has not ended, and that asks for its address,
-- on a configured subnet, gets its ACK, and the lease then runs until the configured number of
-- seconds, at most 9223372036, from now. No ping and no deny list is asked.
pub handle_request-renewal :
    (env : Env) (fuel : ℕ) (p : Packet) (ip : Ip) (subnet : SubnetConfig) (s : Server) (l : Lease)
    (seconds : ℕ)
    → UniqueIps s.allocator.db.leases
    → s.allocator.db.faults ≡ []
    → s.send_faults ≡ []
    → s.allocator.config.lease_time ≡ pos seconds
    → seconds ≤ 9223372036
    → is_foreign s.server_ip (get_server_identifier p) ≡ false
    → wanted p (get_requested_ip p) ≡ some ip
    → static_ip env (normalize_mac (mac_address_string p)) s.allocator.static ≡ none
    → latest (keep (holds (normalize_mac (mac_address_string p))) s.allocator.db.leases) ≡ some l
    → env.now < l.lease_end
    → equal (or_nil (parse_ip l.ip_address)) ip ≡ true
    → find_subnet_for_ip s.allocator.subnets ip ≡ some subnet
    → (s' : Server) × (handle_request env fuel p s ≡ some s')
      × Acknowledged env seconds p ip subnet s s'
handle_request-renewal env fuel p ip subnet s l seconds u running sending configured short own w
      dynamic held live same f =
    granted-Acknowledged env p ip subnet s u running sending seconds configured short fuel
      (or_nil (parse_ip l.ip_address)) own w
      (allocate_ip-renewal env fuel (mac_address_string p) (some ip) s.allocator l running dynamic
        held live)
      same f
