-- ===== src/Server/Safety.antt =====
-- `handleRequest` of internal/dhcp/server.go and the leases of other clients.
use go_dhcpd.Base.{
  ℕ, ◌≤◌, ◌<◌, ◌≡◌, ◌≢◌, refl, sym, ap, subst, ◌∙◌, inl, inr, true, false, List, Option, none, some,
  arith, keep, Bool-cases, All, Text, text_eq, text_eq_iff, text_eq_refl, text_eq_ne,
}
use go_dhcpd.Net.{Ip}
use go_dhcpd.Net.Print.{ip_string, parse_ip}
use go_dhcpd.Net.Equal.{equal-ip_string}
use go_dhcpd.Config.{SubnetConfig, normalize_mac, normalize_mac_idem}
use go_dhcpd.Db.{Lease, holds, latest}
use go_dhcpd.Db.Rows.{row, UniqueIps}
use go_dhcpd.Db.Queries.{Newest, found, latest-Newest}
use go_dhcpd.Packet.{Packet}
use go_dhcpd.Packet.Build.{mac_address_string}
use go_dhcpd.Allocator.{Env, Allocator, u32, or_nil, static_ip, row_available, of_uint32, new_lease}
use go_dhcpd.Allocator.Grants.{SameState, Passed}
use go_dhcpd.Allocator.Leases.{row-saved_rows, saved_rows}
use go_dhcpd.Allocator.Pool.{
  BelowTop, Granted, static_grant, lease_grant, request_grant, pool_grant,
}
use go_dhcpd.Server.{Server, handle_request, with_allocator}
use go_dhcpd.Server.Sends.{send_nak-Transmits, send_ack-Transmits}
use go_dhcpd.Server.Request.{
  Requested, ignored, refusal, grant, request_lease, handle_request-Requested,
}

-- The address of the client's own lease is written as `String` writes it.
abbrev pub Canonical : Text → Allocator → Type 0
Canonical mac a =
    (l : Lease)
    → latest (keep (holds mac) a.db.leases) ≡ some l
    → ip_string (or_nil (parse_ip l.ip_address)) ≡ l.ip_address

-- The lease is another client's and has not ended.
pub record Protected (env : Env) (mac : Text) (l : Lease) : Type 0 where
  pub other : normalize_mac l.mac_address ≢ mac
  pub live : env.now ≤ l.lease_end

own-available :
    (env : Env) (mac : Text) (l : Lease)
    → normalize_mac mac ≡ mac
    → holds mac l ≡ true
    → row_available env mac (some l) ≡ true
unfolding row_available
own-available env mac l n h =
    let e : l.mac_address ≡ mac = (text_eq_iff l.mac_address mac).0 (ground arith) in
    rw (ap (λ t. text_eq t mac) (ap normalize_mac e ∙ n) ∙ text_eq_refl mac) refl

module _ (env : Env) (mac : Text) (a : Allocator) (n : normalize_mac mac ≡ mac) where
  Passed-available :
      (ip : Ip) (b : Allocator)
      → SameState a b
      → Passed env ip mac b
      → row_available env mac (row (ip_string ip) a.db.leases) ≡ true
  Passed-available ip b s p =
      ap (λ m. row_available env m (row (ip_string ip) a.db.leases)) (sym n)
      ∙ ap (λ ls. row_available env (normalize_mac mac) (row (ip_string ip) ls)) (sym s.rows.leases)
      ∙ p.free

  Newest-available :
      (l : Lease)
      → Newest mac a.db.leases (some l)
      → row_available env mac (row l.ip_address a.db.leases) ≡ true
  Newest-available l (found _ r h m) = rw r (own-available env mac l n h)

  -- An address that is granted to a client without a static one is free, its own, or run out.
  pub Granted-available :
      (requested : Option Ip) (ip : Ip)
      → UniqueIps a.db.leases
      → static_ip env mac a.static ≡ none
      → Canonical mac a
      → Granted env mac requested a ip
      → row_available env mac (row (ip_string ip) a.db.leases) ≡ true
  Granted-available requested _ u s c (static_grant ip e) = cc
  Granted-available requested _ u s c (lease_grant l e live) =
      ap (λ t. row_available env mac (row t a.db.leases)) (c l e)
      ∙ Newest-available l (subst (Newest mac a.db.leases) e (latest-Newest mac a.db.leases u))
  Granted-available requested _ u s c (request_grant ip b e given same p) =
      Passed-available ip b same p
  Granted-available requested _ u s c (pool_grant k b i same p) =
      Passed-available (of_uint32 k) b same p

Protected-taken :
    (env : Env) (mac : Text) (l : Lease)
    → Protected env mac l
    → row_available env mac (some l) ≡ false
unfolding row_available
Protected-taken env mac l p =
    rw (text_eq_ne (normalize_mac l.mac_address) mac p.other) (ground (arith, p.live))

-- The lease of another client that has not ended stays in its row.
abbrev pub Undisturbed : Env → Packet → Server → Server → Type 0
Undisturbed env p s s' =
    (t : Text) (l : Lease)
    → row t s.allocator.db.leases ≡ some l
    → Protected env (normalize_mac (mac_address_string p)) l
    → row t s'.allocator.db.leases ≡ some l

module _ (env : Env) (p : Packet) (s : Server) (u : UniqueIps s.allocator.db.leases) where
  abbrev client : Text
  client = normalize_mac (mac_address_string p)

  -- The save of a lease at an address that is not another client's.
  pub saved-Undisturbed :
      (ip : Ip) (ls : List Lease)
      → ls
        ≡ saved_rows
            (request_lease env p ip s)
            s.allocator.db.next_lease
            (row (request_lease env p ip s).ip_address s.allocator.db.leases)
            s.allocator.db.leases
      → row_available env client (row (ip_string ip) s.allocator.db.leases) ≡ true
      → (t : Text) (l : Lease) → row t s.allocator.db.leases ≡ some l
      → Protected env client l
      → row t ls ≡ some l
  saved-Undisturbed ip ls e free t l there p' =
      elim (Bool-cases (text_eq (request_lease env p ip s).ip_address t)) [
        | inr other ↦
            ap (row t) e
            ∙ row-saved_rows (request_lease env p ip s) s.allocator.db.next_lease
                s.allocator.db.leases t
            ∙ (rw other there)
        | inl same ↦
            let q : ip_string ip ≡ t =
              (text_eq_iff (ip_string ip) t).0 (unfold new_lease in same) in
            absurd (
              cc (
                Protected-taken env client l p',
                ap (λ x. row_available env client (row x s.allocator.db.leases)) q,
                ap (row_available env client) there,
                free,
              ))
      ]

  Requested-Undisturbed :
      (s' : Server)
      → static_ip env client s.allocator.static ≡ none
      → Canonical client s.allocator
      → Requested env p s s'
      → Undisturbed env p s s'
  Requested-Undisturbed _ none_ c (ignored f) t l there k = there
  Requested-Undisturbed _ none_ c (refusal a f h) t l there k =
      ap (λ (b : Allocator). row t b.db.leases)
        (send_nak-Transmits p (with_allocator a s)).allocator
      ∙ ap (row t) h.rows.leases
      ∙ there
  Requested-Undisturbed _ none_ c (grant ip granted subnet b f w g same fs cfg e) t l there k =
      ap (λ (b : Allocator). row t b.db.leases)
        (send_ack-Transmits p ip subnet (with_allocator b s)).allocator
      ∙ saved-Undisturbed ip b.db.leases e
          (ap (λ x. row_available env client (row x s.allocator.db.leases))
              (sym (equal-ip_string granted ip same))
            ∙ Granted-available env client s.allocator (normalize_mac_idem (mac_address_string p))
                (some ip) granted u none_ c g)
          t l there k

-- A REQUEST of a client without a static address does not touch the lease of another client that
-- has not ended, whatever address it names. The addresses of the table are unique, the client's own
-- newest lease is written as `String` writes it, no dynamic range ends at 255.255.255.255.
pub handle_request-Protected :
    (env : Env) (fuel : ℕ) (p : Packet) (s : Server)
    → UniqueIps s.allocator.db.leases
    → All (λ (t : SubnetConfig). All BelowTop t.dynamic_ranges) s.allocator.subnets
    → u32 < fuel
    → static_ip env (normalize_mac (mac_address_string p)) s.allocator.static ≡ none
    → Canonical (normalize_mac (mac_address_string p)) s.allocator
    → (t : Text) (l : Lease) → row t s.allocator.db.leases ≡ some l
    → Protected env (normalize_mac (mac_address_string p)) l
    → (s' : Server) × (handle_request env fuel p s ≡ some s')
      × (row t s'.allocator.db.leases ≡ some l)
handle_request-Protected env fuel p s u top f none_ c t l there k =
    let (s', e, r) = handle_request-Requested env fuel p s u top f in
    (s', e, Requested-Undisturbed env p s u s' none_ c r t l there k)
