-- ===== src/Allocator/Recorded.antt =====
-- Saves and ends of leases, of internal/allocator/allocator.go, on the table as a map from addresses to
-- rows.
use go_dhcpd.Base.{
  ◌≡◌, ◌≢◌, refl, sym, ap, subst, ◌∙◌, inl, inr, ◌⊎◌, true, false, List, [], Option, none, some,
  if◌then◌else◌, Bool-cases, Text, text_eq, text_eq_iff, Result, ok, err, Error, no_lease,
}
use go_dhcpd.Config.{normalize_mac}
use go_dhcpd.Db.{Lease, expired}
use go_dhcpd.Db.Rows.{row, UniqueIps, row-ip, update_row, row-update_rows, update_rows-UniqueIps}
use go_dhcpd.Db.Queries.{Newest, found, latest-Newest}
use go_dhcpd.Allocator.{Env, Allocator, save_lease, release_lease, revoke_static_lease, ended}
use go_dhcpd.Allocator.Grants.{SameState}
use go_dhcpd.Allocator.Leases.{
  SameConfig, Saves, refused, written, saved, row-saved_rows, saved_rows-UniqueIps,
  save_lease-Saves,
}
use go_dhcpd.Allocator.Free.{save_lease-ok}
use go_dhcpd.Allocator.Ends.{
  Ends, failed, without, ended_lease, release_lease-Ends, revoke_static_lease-Ends,
}

-- The table holds `l` at its address, and at every other address what it held.
abbrev pub Puts : Lease → Allocator → Allocator → Type 0
Puts l a b =
    (ip : Text)
    → row ip b.db.leases ≡ (if text_eq l.ip_address ip then some l else row ip a.db.leases)

-- What a save comes to.
pub data Recorded (lease : Lease) (a : Allocator) : Result (Unit {0}) × Allocator → Type 0 where
  not_saved :
      (e : Error) (b : Allocator) → a.db.faults ≢ [] → SameState a b → Recorded lease a (err e, b)
  added :
      (b : Allocator)
      → row lease.ip_address a.db.leases ≡ none
      → SameConfig a b
      → UniqueIps b.db.leases
      → Puts (record lease { id = a.db.next_lease }) a b
      → Recorded lease a (ok tt, b)
  rewritten :
      (old : Lease) (b : Allocator)
      → row lease.ip_address a.db.leases ≡ some old
      → SameConfig a b
      → UniqueIps b.db.leases
      → Puts (record lease { id = old.id; is_static = old.is_static }) a b
      → Recorded lease a (ok tt, b)

Saves-Recorded :
    (lease : Lease) (a : Allocator) (u : UniqueIps a.db.leases)
    → (r : Result (Unit {0}) × Allocator) → (a.db.faults ≡ [] → r.0 ≡ ok tt)
    → Saves lease a r
    → Recorded lease a r
Saves-Recorded lease a u _ runs (refused e b s) =
    not_saved e b (λ z. absurd (let h : err e ≡ ok tt = runs z in cc)) s
Saves-Recorded lease a u _ runs (written b s w) = by_row (row lease.ip_address a.db.leases) refl
  where
    unique : UniqueIps b.db.leases
    unique = subst UniqueIps (sym w) (saved_rows-UniqueIps lease a.db.next_lease a.db.leases u)

    puts :
        (l : Lease)
        → l.ip_address ≡ lease.ip_address
        → saved lease a.db.next_lease (row lease.ip_address a.db.leases) ≡ l
        → Puts l a b
    puts l same e ip = ap (row ip) w ∙ row-saved_rows lease a.db.next_lease a.db.leases ip ∙ λ i.
        if text_eq (sym same i) ip then some (e i) else row ip a.db.leases

    by_row : (o : Option Lease) → row lease.ip_address a.db.leases ≡ o → Recorded lease a (ok tt, b)
    by_row none e =
        added b e s unique
          (puts (record lease { id = a.db.next_lease }) refl (ap (saved lease a.db.next_lease) e))
    by_row (some old) e =
        let same = row-ip lease.ip_address a.db.leases old e in
        rewritten old b e s unique (
          puts (record lease { id = old.id; is_static = old.is_static }) refl
            (ap (saved lease a.db.next_lease) e ∙ λ i. record lease {
              id = old.id;
              is_static = old.is_static;
              ip_address = same i;
            }))

-- With unique addresses, a save of a lease either fails, and then a statement was to fail and the
-- leases are as they were; or the table holds at the address of the lease what it says, and at every
-- other address what it held. Where the address had no row, the lease has the next id of the
-- sequence; where it had one, the row keeps its id and its `is_static`. The addresses stay unique and
-- the configuration as it is.
pub save_lease-Recorded :
    (lease : Lease) (a : Allocator) → UniqueIps a.db.leases → Recorded lease a (save_lease lease a)
save_lease-Recorded lease a u =
    Saves-Recorded lease a u (save_lease lease a) (save_lease-ok lease a u)
      (save_lease-Saves lease a u)

-- What the end of the lease of a client comes to; `missing` is the answer where it has none.
pub data Released (env : Env) (mac : Text) (missing : Result (Unit {0})) (a : Allocator)
    : Result (Unit {0}) × Allocator → Type 0 where
  not_released :
      (e : Error) (b : Allocator)
      → a.db.faults ≢ []
      → SameState a b
      → Released env mac missing a (err e, b)
  without_lease :
      (b : Allocator)
      → Newest mac a.db.leases none
      → SameState a b
      → Released env mac missing a (missing, b)
  released :
      (l : Lease) (b : Allocator)
      → Newest mac a.db.leases (some l)
      → SameConfig a b
      → UniqueIps b.db.leases
      → Puts (record l { state = expired; lease_end = env.now }) a b
      → Released env mac missing a (ok tt, b)

own_row :
    (mac : Text) (ls : List Lease) (l : Lease)
    → Newest mac ls (some l)
    → row l.ip_address ls ≡ some l
own_row mac ls _ (found l r h m) = r

Ends-Released :
    (env : Env) (mac : Text) (missing : Result (Unit {0})) (a : Allocator)
    (r : Result (Unit {0}) × Allocator)
    → UniqueIps a.db.leases
    → Ends env mac missing a r
    → Released env mac missing a r
Ends-Released env mac missing a _ u (failed e b n s) = not_released e b n s
Ends-Released env mac missing a _ u (without b none_held s) =
    without_lease b (subst (Newest mac a.db.leases) none_held (latest-Newest mac a.db.leases u)) s
Ends-Released env mac missing a _ u (ended_lease l b held s w) =
    released l b newest s
      (subst UniqueIps (sym w) (update_rows-UniqueIps (ended env l) a.db.leases u)) puts
  where
    newest : Newest mac a.db.leases (some l)
    newest = subst (Newest mac a.db.leases) held (latest-Newest mac a.db.leases u)

    puts : Puts (record l { state = expired; lease_end = env.now }) a b
    puts ip =
        ap (row ip) w
        ∙ row-update_rows (ended env l) ip a.db.leases
        ∙ at (Bool-cases (text_eq l.ip_address ip))
      where
        at :
            (text_eq l.ip_address ip ≡ true) ⊎ (text_eq l.ip_address ip ≡ false)
            → (if text_eq l.ip_address ip
                then update_row (ended env l) (row ip a.db.leases)
                else row ip a.db.leases)
              ≡ (if text_eq l.ip_address ip
                  then some (record l { state = expired; lease_end = env.now })
                  else row ip a.db.leases)
        at (inl same) =
            let e : l.ip_address ≡ ip = (text_eq_iff l.ip_address ip).0 same in
            rw same (
              ap (λ t. update_row (ended env l) (row t a.db.leases)) (sym e)
              ∙ ap (update_row (ended env l)) (own_row mac a.db.leases l newest))
        at (inr other) = rw other refl

-- With unique addresses, `ReleaseLease` fails for a statement that was to fail, or for a client
-- without an active lease, and then the leases are as they were; or the table holds, at the address
-- of the client's active lease that ends last, that lease as expired and ended now, and at every
-- other address what it held. The addresses stay unique and the configuration as it is.
pub release_lease-Released :
    (env : Env) (mac : Text) (a : Allocator)
    → UniqueIps a.db.leases
    → Released env (normalize_mac mac) (err no_lease) a (release_lease env mac a)
release_lease-Released env mac a u =
    Ends-Released env (normalize_mac mac) (err no_lease) a _ u (release_lease-Ends env mac a)

-- `RevokeStaticLease` does the same, and succeeds for a client without a lease.
pub revoke_static_lease-Released :
    (env : Env) (mac : Text) (a : Allocator)
    → UniqueIps a.db.leases
    → Released env (normalize_mac mac) (ok tt) a (revoke_static_lease env mac a)
revoke_static_lease-Released env mac a u =
    Ends-Released env (normalize_mac mac) (ok tt) a _ u (revoke_static_lease-Ends env mac a)
