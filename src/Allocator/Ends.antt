-- ===== src/Allocator/Ends.antt =====
-- `ReleaseLease` and `RevokeStaticLease` of internal/allocator/allocator.go: the table before and
-- after, with any faults to come.
use go_dhcpd.Base.{
  ◌≡◌, ◌≢◌, refl, sym, ap, Error, Bool, true, false, List, [], ◌∷◌, Option, none, some, keep, Text,
  Result, ok, err, no_lease, and_then,
}
use go_dhcpd.Config.{normalize_mac}
use go_dhcpd.Db.{Lease, holds, latest, gate, statement, update_rows, update_lease, get_lease_by_mac}
use go_dhcpd.Db.Reads.{get_lease_by_mac-Reads}
use go_dhcpd.Allocator.{Env, Allocator, query, release_lease, revoke_static_lease, ended}
use go_dhcpd.Allocator.Grants.{SameState, query-SameState}
use go_dhcpd.Allocator.Leases.{SameConfig}

-- What the end of a lease comes to: a statement fails, the client has none, or its row is rewritten.
pub data Ends (env : Env) (mac : Text) (missing : Result (Unit {0})) (a : Allocator)
    : Result (Unit {0}) × Allocator → Type 0 where
  failed :
      (e : Error) (b : Allocator)
      → a.db.faults ≢ []
      → SameState a b
      → Ends env mac missing a (err e, b)
  without :
      (b : Allocator)
      → latest (keep (holds mac) a.db.leases) ≡ none
      → SameState a b
      → Ends env mac missing a (missing, b)
  ended_lease :
      (l : Lease) (b : Allocator)
      → latest (keep (holds mac) a.db.leases) ≡ some l
      → SameConfig a b
      → b.db.leases ≡ update_rows (ended env l) a.db.leases
      → Ends env mac missing a (ok tt, b)

module _ (env : Env) (mac : Text) (missing : Result (Unit {0})) (a : Allocator) where
  -- An error is a fault that was to come, and no fault comes up later.
  abbrev Faulted : Result (Option Lease) × Allocator → Type 0
  Faulted (err e, b) = a.db.faults ≢ []
  Faulted (ok o, b) = b.db.faults ≢ [] → a.db.faults ≢ []

  get_lease_by_mac-Faulted : Faulted (query (get_lease_by_mac mac) a)
  unfolding get_lease_by_mac statement
  get_lease_by_mac-Faulted = go a.db.faults refl
    where
      go :
          (fs : List Bool)
          → a.db.faults ≡ fs
          → Faulted (query (gate fs (λ db. (ok (latest (keep (holds mac) db.leases)), db))) a)
      go [] e = unfold gate in λ n. n
      go (true ∷ rest) e = unfold gate in λ z. cc
      go (false ∷ rest) e = unfold gate in λ n z. cc

  end_run :
      (b : Allocator) (l : Lease)
      → SameState a b
      → latest (keep (holds mac) a.db.leases) ≡ some l
      → (fs : List Bool) → (fs ≢ [] → a.db.faults ≢ [])
      → Ends env mac missing a (
          query
            (gate fs (λ db. (ok tt, record db { leases = update_rows (ended env l) db.leases })))
            b)
  unfolding gate
  end_run b l s e [] n =
      ended_lease l _ e (record { config = s.config; subnets = s.subnets; static = s.static })
        (ap (update_rows (ended env l)) s.rows.leases)
  end_run b l s e (true ∷ rest) n = failed _ _ (n (λ z. cc)) (record {
    rows = record { leases = s.rows.leases; next_lease = s.rows.next_lease };
    config = s.config;
    subnets = s.subnets;
    static = s.static;
  })
  end_run b l s e (false ∷ rest) n =
      ended_lease l _ e (record { config = s.config; subnets = s.subnets; static = s.static })
        (ap (update_rows (ended env l)) s.rows.leases)

  update_Ends :
      (b : Allocator) (l : Lease)
      → SameState a b
      → latest (keep (holds mac) a.db.leases) ≡ some l
      → (b.db.faults ≢ [] → a.db.faults ≢ [])
      → Ends env mac missing a (query (update_lease (ended env l)) b)
  unfolding update_lease statement
  update_Ends b l s e n = end_run b l s e b.db.faults n

  found_Ends :
      (r : Result (Option Lease) × Allocator)
      → Faulted r
      → SameState a r.1
      → ((o : Option Lease) → r.0 ≡ ok o → o ≡ latest (keep (holds mac) a.db.leases))
      → Ends env mac missing a (
          and_then
            (λ (lease : Option Lease). elim lease [
              | none ↦ (λ b. (missing, b))
              | some l ↦ query (update_lease (ended env l))
            ])
            r)
  found_Ends (err e, b) n s k = failed e b n s
  found_Ends (ok none, b) n s k = without b (sym (k none refl)) s
  found_Ends (ok (some l), b) n s k = update_Ends b l s (sym (k (some l) refl)) n

  looked_up-Ends : Ends env mac missing a (
      and_then
        (λ (lease : Option Lease). elim lease [
          | none ↦ (λ b. (missing, b))
          | some l ↦ query (update_lease (ended env l))
        ])
        (query (get_lease_by_mac mac) a))
  looked_up-Ends =
      let reads = get_lease_by_mac-Reads mac a.db in
      found_Ends (query (get_lease_by_mac mac) a) get_lease_by_mac-Faulted
        (query-SameState (get_lease_by_mac mac) a reads.same) reads.answer

-- `ReleaseLease`, as rows are rewritten.
pub release_lease-Ends :
    (env : Env) (mac : Text) (a : Allocator)
    → Ends env (normalize_mac mac) (err no_lease) a (release_lease env mac a)
unfolding release_lease
release_lease-Ends env mac a = looked_up-Ends env (normalize_mac mac) (err no_lease) a

-- `RevokeStaticLease` does the same, and finds no fault with a client without a lease.
pub revoke_static_lease-Ends :
    (env : Env) (mac : Text) (a : Allocator)
    → Ends env (normalize_mac mac) (ok tt) a (revoke_static_lease env mac a)
unfolding revoke_static_lease
revoke_static_lease-Ends env mac a = looked_up-Ends env (normalize_mac mac) (ok tt) a
