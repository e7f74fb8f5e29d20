-- ===== src/Allocator/Free.antt =====
-- `AllocateIP` and the save of a lease, of internal/allocator/allocator.go, where no statement
-- fails.
use go_dhcpd.Base.{
  ℕ, ◌<◌, ◌≡◌, refl, ap, ◌∙◌, true, false, [], Option, none, some, ltb, lt→ltb, keep, length, Text,
  Result, ok, and_then, pure, ◌>>=◌,
}
use go_dhcpd.Net.{Ip, is_unspecified}
use go_dhcpd.Net.Print.{ip_string, parse_ip}
use go_dhcpd.Config.{normalize_mac}
use go_dhcpd.Db.{
  Lease, Database, holds, denies_ip, latest, statement, gate, insert_lease, add_lease, update_lease,
  update_rows, get_lease_by_ip, get_lease_by_mac, is_deny_address,
}
use go_dhcpd.Db.Rows.{row, UniqueIps, row-any}
use go_dhcpd.Db.Queries.{statement_runs, get_lease_by_ip-row}
use go_dhcpd.Allocator.{
  Env, Allocator, query, or_nil, static_ip, lease_allows, deny_allows, is_ip_available, ping_check,
  then_ping, try_address, allocate_new, after_request, after_lease, after_static, allocate_ip,
  save_lease,
}
use go_dhcpd.Allocator.Grants.{Passed}

query_runs :
    {A : Type 0} (f : Database → A) (a : Allocator)
    → a.db.faults ≡ []
    → query (statement (λ d. (ok (f d), d))) a ≡ (ok (f a.db), a)
query_runs f a h = ap (λ r. (r.0, record a { db = r.1 })) (statement_runs f a.db h)

by_mac_runs :
    (mac : Text) (a : Allocator)
    → a.db.faults ≡ []
    → query (get_lease_by_mac mac) a ≡ (ok (latest (keep (holds mac) a.db.leases)), a)
unfolding get_lease_by_mac
by_mac_runs mac a h = query_runs (λ d. latest (keep (holds mac) d.leases)) a h

by_ip_runs :
    (ip : Text) (a : Allocator)
    → UniqueIps a.db.leases
    → a.db.faults ≡ []
    → query (get_lease_by_ip ip) a ≡ (ok (row ip a.db.leases), a)
by_ip_runs ip a u h = ap (λ r. (r.0, record a { db = r.1 })) (get_lease_by_ip-row ip a.db u h)

deny_runs :
    (ip : Text) (a : Allocator)
    → a.db.faults ≡ []
    → query (is_deny_address ip) a ≡ (ok (ltb 0 (length (keep (denies_ip ip) a.db.denies))), a)
unfolding is_deny_address
deny_runs ip a h = query_runs (λ d. ltb 0 (length (keep (denies_ip ip) d.denies))) a h

-- An address that may be had passes the tests.
Passed-try :
    (env : Env) (ip : Ip) (mac : Text) (a : Allocator)
    → UniqueIps a.db.leases
    → a.db.faults ≡ []
    → Passed env ip mac a
    → try_address env ip mac a ≡ (true, a)
unfolding try_address then_ping is_ip_available deny_allows lease_allows ping_check
Passed-try env ip mac a u h p =
    rw (deny_runs (ip_string ip) a h, p.allowed, by_ip_runs (ip_string ip) a u h, p.free, p.silent)
      refl

-- `AllocateIP` hands out the requested address to a client that has no lease and no static address.
pub allocate_ip-free :
    (env : Env) (fuel : ℕ) (mac : Text) (ip : Ip) (a : Allocator)
    → UniqueIps a.db.leases
    → a.db.faults ≡ []
    → static_ip env (normalize_mac mac) a.static ≡ none
    → latest (keep (holds (normalize_mac mac)) a.db.leases) ≡ none
    → is_unspecified ip ≡ false
    → Passed env ip (normalize_mac mac) a
    → allocate_ip env fuel mac (some ip) a ≡ some (ok ip, a)
unfolding allocate_ip after_static after_lease allocate_new after_request
allocate_ip-free env fuel mac ip a u h s l z p =
    rw (s, by_mac_runs (normalize_mac mac) a h, l, z, Passed-try env ip (normalize_mac mac) a u h p)
      refl

-- `AllocateIP` gives a client with a lease that has not ended the address of that lease.
pub allocate_ip-renewal :
    (env : Env) (fuel : ℕ) (mac : Text) (requested : Option Ip) (a : Allocator) (l : Lease)
    → a.db.faults ≡ []
    → static_ip env (normalize_mac mac) a.static ≡ none
    → latest (keep (holds (normalize_mac mac)) a.db.leases) ≡ some l
    → env.now < l.lease_end
    → allocate_ip env fuel mac requested a ≡ some (ok (or_nil (parse_ip l.ip_address)), a)
unfolding allocate_ip after_static after_lease
allocate_ip-renewal env fuel mac requested a l h s e live =
    rw (s, by_mac_runs (normalize_mac mac) a h, e, lt→ltb env.now l.lease_end live) refl

add_ok :
    (lease : Lease) (a : Allocator)
    → a.db.faults ≡ []
    → row lease.ip_address a.db.leases ≡ none
    → (and_then (λ _. pure tt) (query (add_lease lease) a)).0 ≡ ok tt
unfolding add_lease statement gate insert_lease
add_ok lease a h e =
    ap (λ fs. (and_then (λ _. pure tt) (query (gate fs (insert_lease lease)) a)).0) h
    ∙ (rw (row-any lease.ip_address a.db.leases e) refl)

update_ok :
    (lease : Lease) (a : Allocator) → a.db.faults ≡ [] → (query (update_lease lease) a).0 ≡ ok tt
unfolding update_lease statement gate
update_ok lease a h =
    ap
      (λ fs.
        (query (gate fs (λ db. (ok tt, record db { leases = update_rows lease db.leases }))) a).0)
      h

-- A save does not fail.
pub save_lease-ok :
    (lease : Lease) (a : Allocator)
    → UniqueIps a.db.leases
    → a.db.faults ≡ []
    → (save_lease lease a).0 ≡ ok tt
unfolding save_lease
save_lease-ok lease a u h =
    ap (λ r. (and_then store r).0) (by_ip_runs lease.ip_address a u h)
    ∙ go (row lease.ip_address a.db.leases) refl
  where
    store : Option Lease → Allocator → Result (Unit {0}) × Allocator
    store = λ existing. elim existing [
      | none ↦ (do _ ← query (add_lease lease); pure tt)
      | some e ↦ query (update_lease (record lease { id = e.id }))
    ]

    go : (o : Option Lease) → row lease.ip_address a.db.leases ≡ o → (store o a).0 ≡ ok tt
    go none e = add_ok lease a h e
    go (some m) e = update_ok (record lease { id = m.id }) a h
