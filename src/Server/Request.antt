-- ===== src/Server/Request.antt =====
-- `handleRequest` of internal/dhcp/server.go, branch by branch.
use go_dhcpd.Base.{
  ℕ, ◌<◌, ◌≡◌, refl, sym, ap, subst, ◌∙◌, inl, inr, true, false, List, Option, none, some,
  Bool-cases, All, Result, ok, err,
}
use go_dhcpd.Net.{Ip, equal}
use go_dhcpd.Config.{SubnetConfig, normalize_mac}
use go_dhcpd.Db.{Lease}
use go_dhcpd.Db.Rows.{row, UniqueIps}
use go_dhcpd.Packet.{Packet}
use go_dhcpd.Packet.Build.{get_requested_ip, get_server_identifier, mac_address_string}
use go_dhcpd.Allocator.{Env, Allocator, Answer, u32, new_lease, create_lease}
use go_dhcpd.Allocator.Grants.{SameState, SameState-refl, SameState-trans}
use go_dhcpd.Allocator.Leases.{
  SameConfig, Saves, refused, written, save_lease-Saves, saved_rows, new_lease-config,
}
use go_dhcpd.Allocator.Pool.{BelowTop, Granted, Served, served, allocate_ip-Served}
use go_dhcpd.Server.{
  Server, find_subnet_for_ip, get_hostname, is_static_mac, is_static_lease, with_allocator,
  send_nak, send_ack, wanted, is_foreign, after_create, record_lease, after_allocate,
  answer_request, handle_request,
}

-- The lease that an ACK records.
abbrev pub request_lease : Env → Packet → Ip → Server → Lease
request_lease env p ip s =
    new_lease env (mac_address_string p) ip (get_hostname p)
      (is_static_lease s (mac_address_string p)) s.allocator

pub data Requested (env : Env) (p : Packet) (s : Server) : Server → Type 0 where
  -- The client chose another server.
  ignored : is_foreign s.server_ip (get_server_identifier p) ≡ true → Requested env p s s
  -- A NAK: no lease is changed.
  refusal :
      (a : Allocator)
      → is_foreign s.server_ip (get_server_identifier p) ≡ false
      → SameState s.allocator a
      → Requested env p s (send_nak p (with_allocator a s))
  -- An ACK: the address was granted, and its lease alone is written.
  grant :
      (ip granted : Ip) (subnet : SubnetConfig) (b : Allocator)
      → is_foreign s.server_ip (get_server_identifier p) ≡ false
      → wanted p (get_requested_ip p) ≡ some ip
      → Granted env (normalize_mac (mac_address_string p)) (some ip) s.allocator granted
      → equal granted ip ≡ true
      → find_subnet_for_ip s.allocator.subnets ip ≡ some subnet
      → SameConfig s.allocator b
      → b.db.leases
        ≡ saved_rows
            (request_lease env p ip s)
            s.allocator.db.next_lease
            (row (request_lease env p ip s).ip_address s.allocator.db.leases)
            s.allocator.db.leases
      → Requested env p s (send_ack p ip subnet (with_allocator b s))

saved_rows-same :
    (l m : Lease) {n k : ℕ} {ls ms : List Lease}
    → m ≡ l
    → k ≡ n
    → ms ≡ ls
    → saved_rows m k (row m.ip_address ms) ms ≡ saved_rows l n (row l.ip_address ls) ls
saved_rows-same l m {n = n} {k = k} {ls = ls} {ms = ms} e f g =
    ap (λ (x : Lease). saved_rows x k (row x.ip_address ms) ms) e
    ∙ ap (λ j. saved_rows l j (row l.ip_address ms) ms) f
    ∙ ap (λ rows. saved_rows l n (row l.ip_address rows) rows) g

request_lease-same :
    (env : Env) (p : Packet) (ip : Ip) (s : Server) (b : Allocator)
    → SameState s.allocator b
    → request_lease env p ip (with_allocator b s) ≡ request_lease env p ip s
request_lease-same env p ip s b h =
    ap
      (λ hs.
        new_lease env (mac_address_string p) ip (get_hostname p)
          (is_static_mac (normalize_mac (mac_address_string p)) hs) b)
      h.static
    ∙ new_lease-config env (mac_address_string p) ip (get_hostname p) _ s.allocator b h.config

module _ (env : Env) (p : Packet) (s : Server)
    (own : is_foreign s.server_ip (get_server_identifier p) ≡ false) where
  -- A step that comes to an end, at a state as it should be.
  Answered : Option Server → Type 0
  Answered o = (s' : Server) × (o ≡ some s') × Requested env p s s'

  module _ (ip granted : Ip) (w : wanted p (get_requested_ip p) ≡ some ip)
      (g : Granted env (normalize_mac (mac_address_string p)) (some ip) s.allocator granted)
      (same : equal granted ip ≡ true) where
    after_create-Requested :
        (subnet : SubnetConfig) (b : Allocator)
        → SameState s.allocator b
        → find_subnet_for_ip s.allocator.subnets ip ≡ some subnet
        → (r : Result (Unit {0}) × Allocator)
        → Saves (request_lease env p ip (with_allocator b s)) b r
        → Requested env p s (after_create p ip subnet (with_allocator b s) r)
    after_create-Requested subnet b h f _ (refused e c k) = refusal c own (SameState-trans h k)
    after_create-Requested subnet b h f _ (written c k e) =
        grant ip granted subnet c own w g same f
          (record {
            config = k.config ∙ h.config;
            subnets = k.subnets ∙ h.subnets;
            static = k.static ∙ h.static;
          })
          (e
            ∙ saved_rows-same (request_lease env p ip s)
                (request_lease env p ip (with_allocator b s)) (request_lease-same env p ip s b h)
                h.rows.next_lease h.rows.leases)

    record_lease-Requested :
        (b : Allocator)
        → SameState s.allocator b
        → UniqueIps s.allocator.db.leases
        → (o : Option SubnetConfig) → find_subnet_for_ip s.allocator.subnets ip ≡ o
        → Requested env p s (record_lease env p ip o (with_allocator b s))
    record_lease-Requested b h u none f = refusal b own h
    record_lease-Requested b h u (some subnet) f =
        let ub : UniqueIps b.db.leases = rw h.rows.leases u in
        after_create-Requested subnet b h f _ (created b ub)
      where
        created :
            (b : Allocator)
            → UniqueIps b.db.leases
            → Saves (request_lease env p ip (with_allocator b s)) b (
                create_lease env
                  (mac_address_string p)
                  ip
                  (get_hostname p)
                  (is_static_lease (with_allocator b s) (mac_address_string p))
                  b)
        created b u =
            unfold create_lease in
            save_lease-Saves (request_lease env p ip (with_allocator b s)) b u

  after_allocate-Requested :
      (ip : Ip)
      → wanted p (get_requested_ip p) ≡ some ip
      → UniqueIps s.allocator.db.leases
      → (o : Answer)
      → Served
          (Granted env (normalize_mac (mac_address_string p)) (some ip) s.allocator)
          s.allocator
          o
      → Answered (after_allocate env p ip s o)
  unfolding Answered
  after_allocate-Requested ip w u _ (served (err e) b h k) = (_, refl, refusal b own h)
  after_allocate-Requested ip w u _ (served (ok granted) b h k) =
      elim (Bool-cases (equal granted ip)) [
        | inr differ ↦ rw differ (_, refl, refusal b own h)
        | inl same ↦ rw same (
          _,
          refl,
          subst
              (λ ss.
                Requested env p s
                  (record_lease env p ip (find_subnet_for_ip ss ip) (with_allocator b s)))
              (sym h.subnets)
              (record_lease-Requested ip granted w (k granted refl) same b h u
                (find_subnet_for_ip s.allocator.subnets ip) refl),
        )
      ]

  answer_request-Requested :
      (fuel : ℕ)
      → UniqueIps s.allocator.db.leases
      → All (λ (t : SubnetConfig). All BelowTop t.dynamic_ranges) s.allocator.subnets
      → u32 < fuel
      → (o : Option Ip) → wanted p (get_requested_ip p) ≡ o
      → Answered (answer_request env fuel p o s)
  unfolding Answered
  answer_request-Requested fuel u top f none w =
      (_, refl, refusal s.allocator own (SameState-refl s.allocator))
  answer_request-Requested fuel u top f (some ip) w =
      after_allocate-Requested ip w u _
        (allocate_ip-Served env (mac_address_string p) (some ip) s.allocator fuel u top f)

-- With unique addresses, and no dynamic range that ends at 255.255.255.255, `handleRequest` always
-- comes to an end, and in one of three ways: it ignores a request for
-- another server, it sends a NAK and changes no lease, or it sends an ACK for an address that was
-- granted, and writes the lease of that address alone.
pub handle_request-Requested :
    (env : Env) (fuel : ℕ) (p : Packet) (s : Server)
    → UniqueIps s.allocator.db.leases
    → All (λ (t : SubnetConfig). All BelowTop t.dynamic_ranges) s.allocator.subnets
    → u32 < fuel
    → (s' : Server) × (handle_request env fuel p s ≡ some s') × Requested env p s s'
unfolding handle_request Answered
handle_request-Requested env fuel p s u top f =
    elim (Bool-cases (is_foreign s.server_ip (get_server_identifier p))) [
      | inl foreign ↦ rw foreign (s, refl, ignored foreign)
      | inr own ↦
          rw own
            (answer_request-Requested env p s own fuel u top f (wanted p (get_requested_ip p)) refl)
    ]
