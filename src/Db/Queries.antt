-- ===== src/Db/Queries.antt =====
-- What the queries of internal/db/db.go return.
use go_dhcpd.Base.{
  ◌≤◌, ◌≡◌, refl, ap, ◌∙◌, ◌⊎◌, inl, inr, Bool, true, false, List, [], ◌∷◌, Option, none, some,
  arith, ltb, keep, Bool-cases, Option-cases, Text, text_eq_iff, ok,
}
use go_dhcpd.Db.{
  Lease, Database, has_ip, holds, latest, get_lease_by_ip, get_lease_by_mac, statement, gate,
}
use go_dhcpd.Db.Rows.{row, UniqueIps, latest-keep_ip}

pub statement_runs :
    {A : Type 0} (q : Database → A) (db : Database)
    → db.faults ≡ []
    → statement (λ d. (ok (q d), d)) db ≡ (ok (q db), db)
unfolding statement
statement_runs q db h = ap (λ f. gate f (λ d. (ok (q d), d)) db) h

pub get_lease_by_ip-row :
    (ip : Text) (db : Database)
    → UniqueIps db.leases
    → db.faults ≡ []
    → get_lease_by_ip ip db ≡ (ok (row ip db.leases), db)
get_lease_by_ip-row ip db u h =
    by_ip ip db
    ∙ statement_runs (λ d. latest (keep (has_ip ip) d.leases)) db h
    ∙ ap (λ (o : Option Lease). (ok o, db)) (latest-keep_ip ip db.leases u)
  where
    by_ip :
        (ip : Text) (db : Database)
        → get_lease_by_ip ip db ≡ statement (λ d. (ok (latest (keep (has_ip ip) d.leases)), d)) db
    by_ip ip db = unfold get_lease_by_ip in refl

-- `m` is a row of the table.
abbrev pub MemRow : Lease → List Lease → Type 0
MemRow m [] = ⊥
MemRow m (l ∷ ls) = (m ≡ l) ⊎ MemRow m ls

latest-none : (ls : List Lease) → latest ls ≡ none → (m : Lease) → ¬ MemRow m ls
unfolding latest
latest-none [] h m k = k
latest-none (l ∷ ls) h m k = ground arith

latest-mem : (ls : List Lease) (l : Lease) → latest ls ≡ some l → MemRow l ls
unfolding latest
latest-mem [] l h = cc
latest-mem (n ∷ ls) l h = elim (Option-cases (latest ls)) [
  | inl empty ↦ inl (ground arith)
  | inr (m, found) ↦ elim (Bool-cases (ltb n.lease_end m.lease_end)) [
    | inl later ↦ inr (latest-mem ls l (ground arith))
    | inr sooner ↦ inl (ground arith)
  ]
]

latest-max :
    (ls : List Lease) (l m : Lease) → latest ls ≡ some l → MemRow m ls → m.lease_end ≤ l.lease_end
unfolding latest
latest-max [] l m h k = elim k [ ]
latest-max (n ∷ ls) l m h k = elim (Option-cases (latest ls)) [
  | inl empty ↦ elim k [
    | inl here ↦ ground arith
    | inr there ↦ absurd (latest-none ls empty m there)
  ]
  | inr (o, found) ↦ elim k [
    | inl here ↦ ground arith
    | inr there ↦ ground (arith, latest-max ls o m found there)
  ]
]

mem-keep :
    (p : Lease → Bool) (ls : List Lease) (m : Lease)
    → MemRow m (keep p ls)
    → MemRow m ls × (p m ≡ true)
mem-keep p [] m k = elim k [ ]
mem-keep p (l ∷ ls) m k = elim (Bool-cases (p l)) [
  | inl yes_ ↦ elim (rw yes_ at k) [
    | inl here ↦ (inl here, ap p here ∙ yes_)
    | inr there ↦ let r = mem-keep p ls m there in (inr r.0, r.1)
  ]
  | inr no_ ↦ let r = mem-keep p ls m (rw no_ at k) in (inr r.0, r.1)
]

keep-mem :
    (p : Lease → Bool) (ls : List Lease) (m : Lease)
    → MemRow m ls
    → p m ≡ true
    → MemRow m (keep p ls)
keep-mem p [] m k h = k
keep-mem p (l ∷ ls) m k h = elim (Bool-cases (p l)) [
  | inl yes_ ↦ rw yes_ (elim k [ inl here ↦ inl here | inr there ↦ inr (keep-mem p ls m there h) ])
  | inr no_ ↦
      rw no_ (elim k [ inl here ↦ absurd (cc (ap p here)) | inr there ↦ keep-mem p ls m there h ])
]

-- A row of a table with unique addresses is the row with its address.
mem-row : (ls : List Lease) (m : Lease) → UniqueIps ls → MemRow m ls → row m.ip_address ls ≡ some m
unfolding row
mem-row [] m u k = elim k [ ]
mem-row (l ∷ ls) m u (inl here) =
    ground (arith, text_eq_iff l.ip_address m.ip_address, ap (λ (x : Lease). x.ip_address) here)
mem-row (l ∷ ls) m u (inr there) = elim (Bool-cases (has_ip m.ip_address l)) [
  | inl same ↦
      let e = (text_eq_iff l.ip_address m.ip_address).0 same in
      absurd (cc (rw e at u.0, mem-row ls m u.1 there))
  | inr other ↦ rw other (mem-row ls m u.1 there)
]

row-mem : (ip : Text) (ls : List Lease) (m : Lease) → row ip ls ≡ some m → MemRow m ls
unfolding row
row-mem ip [] m h = absurd (cc)
row-mem ip (l ∷ ls) m h = elim (Bool-cases (has_ip ip l)) [
  | inl same ↦ inl (ground arith)
  | inr other ↦ inr (row-mem ip ls m (ground arith))
]

-- What `GetLeaseByMAC` promises of its result: an active row of that client which ends last, or
-- nothing if the client has no active row.
pub data Newest (mac : Text) (ls : List Lease) : Option Lease → Type 0 where
  absent : ((m : Lease) → MemRow m ls → holds mac m ≡ false) → Newest mac ls none
  found :
      (l : Lease)
      → row l.ip_address ls ≡ some l
      → holds mac l ≡ true
      → ((m : Lease) → MemRow m ls → holds mac m ≡ true → m.lease_end ≤ l.lease_end)
      → Newest mac ls (some l)

pub latest-Newest :
    (mac : Text) (ls : List Lease) → UniqueIps ls → Newest mac ls (latest (keep (holds mac) ls))
latest-Newest mac ls u = go (latest (keep (holds mac) ls)) refl
  where
    go : (o : Option Lease) → latest (keep (holds mac) ls) ≡ o → Newest mac ls o
    go none e = absent λ m k. elim (Bool-cases (holds mac m)) [
      | inl h ↦ absurd (latest-none _ e m (keep-mem (holds mac) ls m k h))
      | inr h ↦ h
    ]
    go (some l) e =
        let (k, h) = mem-keep (holds mac) ls l (latest-mem _ l e) in
        found l (mem-row ls l u k) h (λ m n g. latest-max _ l m e (keep-mem (holds mac) ls m n g))

get_lease_by_mac-Newest :
    (mac : Text) (db : Database)
    → UniqueIps db.leases
    → db.faults ≡ []
    → (o : Option Lease) × (get_lease_by_mac mac db ≡ (ok o, db)) × Newest mac db.leases o
get_lease_by_mac-Newest mac db u h = (
  latest (keep (holds mac) db.leases),
  by_mac mac db ∙ statement_runs (λ d. latest (keep (holds mac) d.leases)) db h,
  latest-Newest mac db.leases u,
)
  where
    by_mac :
        (mac : Text) (db : Database)
        → get_lease_by_mac mac db ≡ statement (λ d. (ok (latest (keep (holds mac) d.leases)), d)) db
    by_mac mac db = unfold get_lease_by_mac in refl

-- With unique addresses, and if SQLite runs the statements, `GetLeaseByIP` returns the one row with the
-- address, or nothing if there is none, and `GetLeaseByMAC` the active lease of the client that ends
-- last, or nothing if it has none; neither changes anything.
pub lookups_run :
    (ip mac : Text) (db : Database)
    → UniqueIps db.leases
    → db.faults ≡ []
    → (get_lease_by_ip ip db ≡ (ok (row ip db.leases), db))
      × ((o : Option Lease) × (get_lease_by_mac mac db ≡ (ok o, db)) × Newest mac db.leases o)
lookups_run ip mac db u h = (get_lease_by_ip-row ip db u h, get_lease_by_mac-Newest mac db u h)
