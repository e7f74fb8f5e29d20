-- ===== src/Api/Spelling.antt =====
-- internal/api/api.go over cmd/plugins/sqlite3-config/main.go: the spelling of a static host's MAC
-- address in the store and in the lease that is seeded for it.
use go_dhcpd.Base.{
  ℕ, zero, suc, Bool, true, false, [], ◌∷◌, some, get_or, length, Bytes, Text, text_eq_refl, lower,
  to_lower, Result, ok, err, ◌≡◌, ◌≢◌, refl, sym, ap, subst, ◌∙◌, arith,
}
use go_dhcpd.Config.{StaticHost, normalize_mac}
use go_dhcpd.Net.Print.{mac_string, hex_pair}
use go_dhcpd.Validate.Canonical.{validate_static_host-IsCanonical}
use go_dhcpd.Db.{Lease}
use go_dhcpd.Db.Rows.{row, UniqueIps}
use go_dhcpd.Allocator.{Env, Allocator, resolve_static_address}
use go_dhcpd.Allocator.Recorded.{Puts, Recorded, not_saved, added, rewritten}
use go_dhcpd.Server.{Stats}
use go_dhcpd.Plugin.{Codec, Process, Manager}
use go_dhcpd.Plugin.Kept.{write_add_static_host, send}
use go_dhcpd.Plugin.Sqlite.{check_host}
use go_dhcpd.Api.Effects.{
  Seeded, unresolved, seeded, static_lease, Reloaded, no_subnets, no_hosts, reloaded,
}
use go_dhcpd.Api.Written.{Reports, error_status, post_static, handle-Reports}
use go_dhcpd.Api

get_or-to_lower : (s : Text) (i : ℕ) → get_or (to_lower s) i 0 ≡ lower (get_or s i 0)
unfolding to_lower lower
get_or-to_lower [] i = refl
get_or-to_lower (c ∷ s) zero = refl
get_or-to_lower (c ∷ s) (suc i) = get_or-to_lower s i

third_of-mac_string : (hw : Bytes) → length hw ≡ 6 → get_or (mac_string hw) 2 0 ≡ b':'
unfolding mac_string hex_pair
third_of-mac_string [] e = absurd (omega arith)
third_of-mac_string (a ∷ []) e = absurd (omega arith)
third_of-mac_string (a ∷ b ∷ hw) e = refl

-- The spelling that the handler gives the lease.
kept_hyphen :
    (mac : Text) → get_or mac 2 0 ≡ b'-' → get_or (normalize_mac (normalize_mac mac)) 2 0 ≡ b'-'
unfolding normalize_mac
kept_hyphen mac hyphen =
    get_or-to_lower (to_lower mac) 2
    ∙ ap lower (get_or-to_lower mac 2)
    ∙ ap (λ x. lower (lower x)) hyphen
    ∙ unfold lower in refl

third_of-check_host : (h h' : StaticHost) → check_host h ≡ ok h' → get_or h'.mac_address 2 0 ≡ b':'
third_of-check_host h h' accepted =
    let c = validate_static_host-IsCanonical _ h' accepted in
    (λ i. get_or (c.spelled i).mac_address 2 0) ∙ third_of-mac_string c.octets c.six

-- The table holds at the address a lease of that MAC address.
abbrev pub LeasedTo : Text → Text → Allocator → Type 0
LeasedTo ip mac a = (l : Lease) × (row ip a.db.leases ≡ some l) × (l.mac_address ≡ mac)

Puts-own : (l : Lease) (a b : Allocator) → Puts l a b → row l.ip_address b.db.leases ≡ some l
Puts-own l a b puts = puts l.ip_address ∙ rw (text_eq_refl l.ip_address) refl

Recorded-LeasedTo :
    (lease : Lease) (a : Allocator) (r : Result (Unit {0}) × Allocator)
    → a.db.faults ≡ []
    → Recorded lease a r
    → LeasedTo lease.ip_address lease.mac_address r.1
Recorded-LeasedTo lease a _ runs (not_saved e b n s) = absurd (n runs)
Recorded-LeasedTo lease a _ runs (added b e s u puts) = (_, Puts-own _ a b puts, refl)
Recorded-LeasedTo lease a _ runs (rewritten old b e s u puts) = (_, Puts-own _ a b puts, refl)

Seeded-LeasedTo :
    (env : Env) (h : StaticHost) (ip : Text) (a b : Allocator)
    → a.db.faults ≡ []
    → resolve_static_address env h.ip_address ≡ ok ip
    → Seeded env h a b
    → LeasedTo ip (normalize_mac h.mac_address) b
Seeded-LeasedTo env h ip a _ runs found (unresolved e k) = absurd (cc (found, k))
Seeded-LeasedTo env h ip a _ runs found (seeded ip' r b k rec) =
    subst (λ t. LeasedTo t (normalize_mac h.mac_address) b)
      (let e : ok ip' ≡ ok ip = sym k ∙ found in cc e)
      (Recorded-LeasedTo (static_lease env h ip') a (r, b) runs rec)

error_status-ne : (bad writable : Bool) → error_status bad writable ≢ 201
error_status-ne true writable e = absurd (omega arith)
error_status-ne false true e = absurd (omega arith)
error_status-ne false false e = absurd (omega arith)

module _ {D : Type 0} (env : Env) (stats : Stats) (json : Codec) (run : Process D)
    (m : Manager) where
  Reloaded-faults :
      (a : Allocator) (p : D) (d : Api.Daemon D)
      → a.db.faults ≡ []
      → Reloaded env stats json run m a p d
      → d.alloc.db.faults ≡ []
  Reloaded-faults a p _ runs (no_subnets e q k) = runs
  Reloaded-faults a p _ runs (no_hosts ss e q q' k h) = runs
  Reloaded-faults a p _ runs (reloaded ss hs q q' k h) = runs

  created-LeasedTo :
      (h : StaticHost) (ip : Text) (s : Api.Daemon D) (o : Result (Unit {0}) × D)
      (r : Api.Reply × Api.Daemon D)
      → s.alloc.db.faults ≡ []
      → resolve_static_address env h.ip_address ≡ ok ip
      → Reports env stats json run m (write_add_static_host h) s o r
      → r.0.status ≡ 201
      → LeasedTo ip (normalize_mac h.mac_address) r.1.alloc
  created-LeasedTo h ip s (ok u, p) r runs found (e, (d, load, same, follows)) good =
      Seeded-LeasedTo env h ip d.alloc r.1.alloc (Reloaded-faults s.alloc p d runs load) found
        follows
  created-LeasedTo h ip s (err x, p) r runs found (e, same) good = absurd (
      error_status-ne (Api.is_validation_error x) m.caps.writable
        (sym (ap (λ (q : Api.Reply). q.status) e) ∙ good))

  -- A static host whose MAC address is written with hyphens is added through the interface, whatever
  -- process the provider is, and the reply is 201. The addresses of the leases are unique, no
  -- statement fails, the address of the host resolves, and the SQLite plugin's check accepts the host
  -- in the form in which the handler sends it. Then the handler has recorded a lease at that address,
  -- under another spelling of the MAC address than the one that the plugin's check returns.
  pub add_static_host_handler-ne-check_host :
      (h h' : StaticHost) (ip : Text) (s : Api.Daemon D)
      → UniqueIps s.alloc.db.leases
      → s.alloc.db.faults ≡ []
      → resolve_static_address env h.ip_address ≡ ok ip
      → get_or h.mac_address 2 0 ≡ b'-'
      → check_host (record h { mac_address = normalize_mac h.mac_address }) ≡ ok h'
      → (Api.add_static_host_handler env stats json run m (some h) s).0.status ≡ 201
      → (l : Lease) × (row ip
            (Api.add_static_host_handler env stats json run m (some h) s).1.alloc.db.leases
          ≡ some l)
        × (l.mac_address ≢ h'.mac_address)
  unfolding Api.handle
  add_static_host_handler-ne-check_host h h' ip s u runs found hyphen accepted good =
      let w = record h { mac_address = normalize_mac h.mac_address } in
      let r = Api.add_static_host_handler env stats json run m (some h) s in
      let reports =
        handle-Reports env stats json run m (Api.post_static (some h))
          (some (write_add_static_host w)) s u (post_static h) in
      let leased =
        created-LeasedTo w ip s (send json run m (write_add_static_host w) s.provider) r runs found
          reports good in
      (
        leased.0,
        leased.1,
        λ same.
            let colon = third_of-check_host w h' accepted in
            let kept = kept_hyphen h.mac_address hyphen in
            let clash : get_or (normalize_mac (normalize_mac h.mac_address)) 2 0
                ≡ get_or h'.mac_address 2 0 =
              ap (λ (t : Text). get_or t 2 0) (sym leased.2 ∙ same) in
            absurd (omega arith),
      )
