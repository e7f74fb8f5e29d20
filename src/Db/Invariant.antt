-- ===== src/Db/Invariant.antt =====
-- The statements of internal/db/db.go that write: a well-formed pair of tables.
use go_dhcpd.Base.{
  ℕ, ◌+◌, ◌<◌, ◌≡◌, refl, inl, inr, Bool, true, false, List, [], ◌∷◌, ◌++◌, map, arith, any, All,
  Bool-cases,
}
use go_dhcpd.Db.{
  Lease, DenyAddress, Database, Query, gate, statement, has_ip, denies_ip, update_rows,
  insert_lease, add_lease, update_lease, is_due, upsert_deny, add_deny_address, expire_leases,
  expire_rows,
}
use go_dhcpd.Db.Rows.{UniqueIps, any-row, UniqueIps-map, UniqueIps-append}

pub record IsValid (db : Database) : Type 0 where
  pub unique : UniqueIps db.leases
  pub ids : All (λ (l : Lease). l.id < db.next_lease) db.leases

-- A failing statement leaves the tables as they are, so it keeps the invariant.
statement-IsValid :
    {A : Type 0} (q : Query A)
    → ((db : Database) → IsValid db → IsValid (q db).1)
    → (db : Database) → IsValid db
    → IsValid (statement q db).1
unfolding statement
statement-IsValid q keeps db v = go db.faults
  where
    go : (f : List Bool) → IsValid (gate f q db).1
    go [] = keeps db v
    go (true ∷ rest) = record { unique = v.unique; ids = v.ids }
    go (false ∷ rest) =
        keeps (record db { faults = rest }) (record { unique = v.unique; ids = v.ids })

All-map :
    (n : ℕ) (f : Lease → Lease) (ls : List Lease)
    → ((l : Lease) → (f l).id ≡ l.id)
    → All (λ (l : Lease). l.id < n) ls
    → All (λ (l : Lease). l.id < n) (map f ls)
All-map n f [] k a = tt
All-map n f (l ∷ ls) k a = (rw (k l) a.0, All-map n f ls k a.1)

All-append :
    (n : ℕ) (ls : List Lease) (l : Lease)
    → All (λ (l : Lease). l.id < n) ls
    → l.id ≡ n
    → All (λ (l : Lease). l.id < n + 1) (ls ++ (l ∷ []))
All-append n [] l a h = (omega arith, tt)
All-append n (m ∷ ls) l a h = (omega arith, All-append n ls l a.1 h)

pub map-IsValid :
    (f : Lease → Lease) (db : Database)
    → ((l : Lease) → ((f l).ip_address ≡ l.ip_address) × ((f l).id ≡ l.id))
    → IsValid db
    → IsValid (record db { leases = map f db.leases })
map-IsValid f db k v = record {
  unique = UniqueIps-map f db.leases (λ l. (k l).0) v.unique;
  ids = All-map db.next_lease f db.leases (λ l. (k l).1) v.ids;
}

insert_lease-IsValid : (l : Lease) (db : Database) → IsValid db → IsValid (insert_lease l db).1
unfolding insert_lease
insert_lease-IsValid l db v = elim (Bool-cases (any (has_ip l.ip_address) db.leases)) [
  | inl taken ↦ rw taken v
  | inr free ↦ rw free (record {
    unique =
        UniqueIps-append db.leases (record l { id = db.next_lease }) v.unique
          (any-row l.ip_address db.leases free);
    ids = All-append db.next_lease db.leases (record l { id = db.next_lease }) v.ids refl;
  })
]

add_lease-IsValid : (l : Lease) (db : Database) → IsValid db → IsValid (add_lease l db).1
unfolding add_lease
add_lease-IsValid l = statement-IsValid (insert_lease l) (insert_lease-IsValid l)

update_lease-IsValid : (l : Lease) (db : Database) → IsValid db → IsValid (update_lease l db).1
unfolding update_lease update_rows
update_lease-IsValid l = statement-IsValid _ λ db v.
    map-IsValid _ db
      (λ row. elim (Bool-cases (has_ip l.ip_address row)) [
        | inl e ↦ rw e (refl, refl)
        | inr e ↦ rw e (refl, refl)
      ])
      v

expire_leases-IsValid : (now : ℕ) (db : Database) → IsValid db → IsValid (expire_leases now db).1
unfolding expire_leases expire_rows
expire_leases-IsValid now = statement-IsValid _ λ db v.
    map-IsValid _ db
      (λ row. elim (Bool-cases (is_due now row)) [
        | inl e ↦ rw e (refl, refl)
        | inr e ↦ rw e (refl, refl)
      ])
      v

add_deny_address-IsValid :
    (d : DenyAddress) (db : Database) → IsValid db → IsValid (add_deny_address d db).1
unfolding add_deny_address upsert_deny
add_deny_address-IsValid d = statement-IsValid _ λ db v.
    elim (Bool-cases (any (denies_ip d.ip_address) db.denies)) [
      | inl e ↦ rw e (record { unique = v.unique; ids = v.ids })
      | inr e ↦ rw e (record { unique = v.unique; ids = v.ids })
    ]

-- The statements that write.
pub data Write : Type 0 where
  add : Lease → Write
  update : Lease → Write
  expire : ℕ → Write
  deny : DenyAddress → Write

unfoldable pub run_writes : List Write → Database → Database
run_writes [] db = db
run_writes (add l ∷ ws) db = run_writes ws (add_lease l db).1
run_writes (update l ∷ ws) db = run_writes ws (update_lease l db).1
run_writes (expire now ∷ ws) db = run_writes ws (expire_leases now db).1
run_writes (deny d ∷ ws) db = run_writes ws (add_deny_address d db).1

-- Whatever statements are run, in any order and with any of them failing, no two leases have the
-- same address and every id is below the next one of the sequence.
pub run_writes-IsValid : (ws : List Write) (db : Database) → IsValid db → IsValid (run_writes ws db)
unfolding run_writes
run_writes-IsValid [] db v = v
run_writes-IsValid (add l ∷ ws) db v = run_writes-IsValid ws _ (add_lease-IsValid l db v)
run_writes-IsValid (update l ∷ ws) db v = run_writes-IsValid ws _ (update_lease-IsValid l db v)
run_writes-IsValid (expire now ∷ ws) db v = run_writes-IsValid ws _ (expire_leases-IsValid now db v)
run_writes-IsValid (deny d ∷ ws) db v = run_writes-IsValid ws _ (add_deny_address-IsValid d db v)
