-- ===== src/Allocator/Leases.antt =====
-- The save of a lease, of internal/allocator/allocator.go: the table before and after, with any
-- faults to come.
use go_dhcpd.Base.{
  ℕ, ◌+◌, ◌*◌, ◌≤◌, pos, seconds-pos, arith, ◌≡◌, refl, sym, ap, ◌∙◌, inl, inr, Bool, true, false,
  List, [], ◌∷◌, ◌++◌, Option, none, some, if◌then◌else◌, Bool-cases, Option-cases, Text, text_eq,
  text_eq_iff, Result, ok, err, and_then, ◌>>=◌, pure, Error,
}
use go_dhcpd.Net.{Ip}
use go_dhcpd.Db.{
  Lease, gate, statement, insert_lease, add_lease, update_rows, update_lease, get_lease_by_ip,
}
use go_dhcpd.Db.Rows.{
  row, UniqueIps, row-any, row-append, row-append_old, row-update_rows, UniqueIps-append,
  update_rows-UniqueIps,
}
use go_dhcpd.Db.Reads.{get_lease_by_ip-Reads}
use go_dhcpd.Allocator.{Env, Allocator, query, add_seconds, save_lease, new_lease}
use go_dhcpd.Allocator.Grants.{SameState, query-SameState}

-- The row that a save leaves at the address of the lease: the old row rewritten, with its id and
-- its `is_static`, or a new row.
abbrev pub saved : Lease → ℕ → Option Lease → Lease
saved lease next none = record lease { id = next }
saved lease next (some m) = record {
  id = m.id;
  mac_address = lease.mac_address;
  ip_address = m.ip_address;
  hostname = lease.hostname;
  lease_start = lease.lease_start;
  lease_end = lease.lease_end;
  state = lease.state;
  is_static = m.is_static;
}

-- The table after a save.
abbrev pub saved_rows : Lease → ℕ → Option Lease → List Lease → List Lease
saved_rows lease next none ls = ls ++ ((record lease { id = next }) ∷ [])
saved_rows lease next (some m) ls = update_rows (record lease { id = m.id }) ls

append_other :
    (lease : Lease) (ls : List Lease) (ip : Text)
    → text_eq lease.ip_address ip ≡ false
    → row ip (ls ++ (lease ∷ [])) ≡ row ip ls
append_other lease ls ip other = elim (Option-cases (row ip ls)) [
  | inl gone ↦ rw (row-append ip ls lease gone, gone) (rw other refl)
  | inr (m, there) ↦ row-append_old ip ls lease m there ∙ sym there
]

pub row-saved_rows :
    (lease : Lease) (next : ℕ) (ls : List Lease) (ip : Text)
    → row ip (saved_rows lease next (row lease.ip_address ls) ls) ≡ (
        if text_eq lease.ip_address ip
        then some (saved lease next (row lease.ip_address ls))
        else row ip ls)
row-saved_rows lease next ls ip = go (row lease.ip_address ls) refl
  where
    go :
        (o : Option Lease)
        → row lease.ip_address ls ≡ o
        → row ip (saved_rows lease next o ls)
          ≡ (if text_eq lease.ip_address ip then some (saved lease next o) else row ip ls)
    go none e = elim (Bool-cases (text_eq lease.ip_address ip)) [
      | inl same ↦
          let p : lease.ip_address ≡ ip = (text_eq_iff lease.ip_address ip).0 same in
          rw same (
            row-append ip ls (record lease { id = next }) (ap (λ t. row t ls) (sym p) ∙ e)
            ∙ (rw same refl))
      | inr other ↦ rw other (append_other (record lease { id = next }) ls ip other)
    ]
    go (some m) e = elim (Bool-cases (text_eq lease.ip_address ip)) [
      | inl same ↦
          let p : lease.ip_address ≡ ip = (text_eq_iff lease.ip_address ip).0 same in
          let there : row ip ls ≡ some m = ap (λ t. row t ls) (sym p) ∙ e in
          rw same (row-update_rows (record lease { id = m.id }) ip ls ∙ (rw (same, there) refl))
      | inr other ↦ rw other (row-update_rows (record lease { id = m.id }) ip ls ∙ (rw other refl))
    ]

-- The configuration part of `SameState`.
pub record SameConfig (a b : Allocator) : Type 0 where
  pub config : b.config ≡ a.config
  pub subnets : b.subnets ≡ a.subnets
  pub static : b.static ≡ a.static

-- What a save comes to: an error that leaves the leases alone, or the row of the lease written and
-- no other changed.
pub data Saves (lease : Lease) (a : Allocator) : Result (Unit {0}) × Allocator → Type 0 where
  refused : (e : Error) (b : Allocator) → SameState a b → Saves lease a (err e, b)
  written :
      (b : Allocator)
      → SameConfig a b
      → b.db.leases
        ≡ saved_rows lease a.db.next_lease (row lease.ip_address a.db.leases) a.db.leases
      → Saves lease a (ok tt, b)

append_saved :
    (lease : Lease) {ls ms : List Lease} {n m : ℕ}
    → row lease.ip_address ls ≡ none
    → ms ≡ ls
    → m ≡ n
    → ms ++ ((record lease { id = m }) ∷ []) ≡ saved_rows lease n (row lease.ip_address ls) ls
append_saved lease e p q = rw (p, q, e) refl

update_saved :
    (lease m : Lease) (n : ℕ) {ls ms : List Lease}
    → row lease.ip_address ls ≡ some m
    → ms ≡ ls
    → update_rows (record lease { id = m.id }) ms ≡ saved_rows lease n (row lease.ip_address ls) ls
update_saved lease m n e p = rw (p, e) refl

module _ (lease : Lease) (a : Allocator) where
  add_run :
      (b : Allocator)
      → SameState a b
      → row lease.ip_address a.db.leases ≡ none
      → (fs : List Bool)
      → Saves lease a (and_then (λ _. pure tt) (query (gate fs (insert_lease lease)) b))
  unfolding gate insert_lease
  add_run b s e [] = rw (row-any lease.ip_address b.db.leases (rw s.rows.leases e)) (
      written _ (record { config = s.config; subnets = s.subnets; static = s.static })
        (append_saved lease e s.rows.leases s.rows.next_lease))
  add_run b s e (true ∷ rest) = refused _ _ (record {
    rows = record { leases = s.rows.leases; next_lease = s.rows.next_lease };
    config = s.config;
    subnets = s.subnets;
    static = s.static;
  })
  add_run b s e (false ∷ rest) = rw (row-any lease.ip_address b.db.leases (rw s.rows.leases e)) (
      written _ (record { config = s.config; subnets = s.subnets; static = s.static })
        (append_saved lease e s.rows.leases s.rows.next_lease))

  add_Saves :
      (b : Allocator)
      → SameState a b
      → row lease.ip_address a.db.leases ≡ none
      → Saves lease a (and_then (λ _. pure tt) (query (add_lease lease) b))
  unfolding add_lease statement
  add_Saves b s e = add_run b s e b.db.faults

  update_run :
      (b : Allocator) (m : Lease)
      → SameState a b
      → row lease.ip_address a.db.leases ≡ some m
      → (fs : List Bool)
      → Saves lease a (
          query
            (gate fs (λ db.
              (ok tt, record db { leases = update_rows (record lease { id = m.id }) db.leases })))
            b)
  unfolding gate
  update_run b m s e [] =
      written _ (record { config = s.config; subnets = s.subnets; static = s.static })
        (update_saved lease m a.db.next_lease e s.rows.leases)
  update_run b m s e (true ∷ rest) = refused _ _ (record {
    rows = record { leases = s.rows.leases; next_lease = s.rows.next_lease };
    config = s.config;
    subnets = s.subnets;
    static = s.static;
  })
  update_run b m s e (false ∷ rest) =
      written _ (record { config = s.config; subnets = s.subnets; static = s.static })
        (update_saved lease m a.db.next_lease e s.rows.leases)

  update_Saves :
      (b : Allocator) (m : Lease)
      → SameState a b
      → row lease.ip_address a.db.leases ≡ some m
      → Saves lease a (query (update_lease (record lease { id = m.id })) b)
  unfolding update_lease statement
  update_Saves b m s e = update_run b m s e b.db.faults

  save_Saves :
      (r : Result (Option Lease) × Allocator)
      → SameState a r.1
      → ((o : Option Lease) → r.0 ≡ ok o → o ≡ row lease.ip_address a.db.leases)
      → Saves lease a (
          and_then
            (λ (existing : Option Lease). elim existing [
              | none ↦ (do _ ← query (add_lease lease); pure tt)
              | some e ↦ query (update_lease (record lease { id = e.id }))
            ])
            r)
  save_Saves (err e, b) s k = refused e b s
  save_Saves (ok none, b) s k = add_Saves b s (sym (k none refl))
  save_Saves (ok (some m), b) s k = update_Saves b m s (sym (k (some m) refl))

-- With unique addresses, a save of a lease (an update of the row with its address, or else an
-- insert) writes that row and no other and keeps its id and its `is_static`, or it fails and leaves
-- the leases alone.
pub save_lease-Saves :
    (lease : Lease) (a : Allocator) → UniqueIps a.db.leases → Saves lease a (save_lease lease a)
unfolding save_lease
save_lease-Saves lease a u =
    let reads = get_lease_by_ip-Reads lease.ip_address a.db u in
    save_Saves lease a (query (get_lease_by_ip lease.ip_address) a)
      (query-SameState (get_lease_by_ip lease.ip_address) a reads.same) reads.answer

-- A save keeps the addresses unique.
pub saved_rows-UniqueIps :
    (lease : Lease) (next : ℕ) (ls : List Lease)
    → UniqueIps ls
    → UniqueIps (saved_rows lease next (row lease.ip_address ls) ls)
saved_rows-UniqueIps lease next ls u = go (row lease.ip_address ls) refl
  where
    go : (o : Option Lease) → row lease.ip_address ls ≡ o → UniqueIps (saved_rows lease next o ls)
    go none e = UniqueIps-append ls (record lease { id = next }) u e
    go (some m) e = update_rows-UniqueIps (record lease { id = m.id }) ls u

-- A new lease depends on the allocator through the configuration alone.
pub new_lease-config :
    (env : Env) (mac : Text) (ip : Ip) (hostname : Text) (is_static : Bool) (a b : Allocator)
    → b.config ≡ a.config
    → new_lease env mac ip hostname is_static b ≡ new_lease env mac ip hostname is_static a
unfolding new_lease
new_lease-config env mac ip hostname is_static a b e =
    ap (λ c. new_lease env mac ip hostname is_static (record a { config = c })) e

-- Within the range of `time.Duration` a lease ends so many seconds later.
pub add_seconds-pos : (t n : ℕ) → n ≤ 9223372036 → add_seconds t (pos n) ≡ t + n * 1000000000
unfolding add_seconds
add_seconds-pos t n h = rw (seconds-pos n h) (omega arith)
