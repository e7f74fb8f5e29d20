-- ===== src/Migration/Carried.antt =====
-- cmd/go-dhcpd-migration-tool/main.go over internal/sqlite3store/store.go: the subnets that a migration
-- carries over.
use mathlib.Core.List.{append-nil, append_assoc}
use go_dhcpd.Base.{
  ℕ, suc, ◌+◌, ◌≤◌, Bool, true, false, not, ◌||◌, ◌&&◌, List, [], ◌∷◌, ◌++◌, ◌==◌, if◌then◌else◌,
  any, sort_rows, length, Bool-cases, inl, inr, Text, is_empty, Result, ok, err, and_then, pure,
  ◌≡◌, ◌↔◌, refl, sym, ap, ◌∙◌, subst, arith,
}
use go_dhcpd.Config.{SubnetConfig}
use go_dhcpd.Validate.{validate_subnet}
use go_dhcpd.Store.Rows.{SqlDb}
use go_dhcpd.Store.Subnets.{insert_subnet, get_subnets}
use go_dhcpd.Store.Directory.{named, view, IsValid}
use go_dhcpd.Store.Insert.{Inserted, insert_subnet-Inserted}
use go_dhcpd.Store.Reads.{by_network, get_subnets-sorted}
use go_dhcpd.Plugin.Sqlite.{Disk, check_subnet}
use go_dhcpd.Plugin.Stored.{IsSound, opened, open_path-opened}
use go_dhcpd.Plugin.{lift}
use go_dhcpd.Migration.{
  Count, tally, migrate_one, migrate_loop, migrate_open, if_opened, migrate, migrate_subnets,
}

abbrev is_err : Result (Unit {0}) → Bool
is_err (ok u) = false
is_err (err e) = true

-- A subnet that is invalid, or whose network is taken.
abbrev refused : List SubnetConfig → SubnetConfig → Bool
refused before s = is_err (validate_subnet s) || any (named s.network) before

abbrev pub invalid_subnet : SubnetConfig → Bool
invalid_subnet s = is_err (validate_subnet s)

-- Those of a list that are valid and the first with their network, the networks of `before` taken.
unfoldable pub carried : List SubnetConfig → List SubnetConfig → List SubnetConfig
carried before [] = []
carried before (s ∷ ss) =
    if refused before s then carried before ss else (s ∷ carried (before ++ (s ∷ [])) ss)

length-carried : (before ss : List SubnetConfig) → length (carried before ss) ≤ length ss
unfolding carried
length-carried before [] = omega arith
length-carried before (s ∷ ss) =
    let out = length-carried before ss in
    let taken = length-carried (before ++ (s ∷ [])) ss in
    elim (Bool-cases (refused before s)) [ inl e ↦ rw e (omega arith) | inr e ↦ rw e (omega arith) ]

carried_all :
    (before ss : List SubnetConfig)
    → length (carried before ss) ≡ length ss
    → carried before ss ≡ ss
unfolding carried
carried_all before [] h = refl
carried_all before (s ∷ ss) h = elim (Bool-cases (refused before s)) [
  | inl e ↦
      let short = length-carried before ss in
      let long : length (carried before ss) ≡ suc (length ss) = rw e at h in absurd (omega arith)
  | inr e ↦
      let long : suc (length (carried (before ++ (s ∷ [])) ss)) ≡ suc (length ss) = rw e at h in
      rw e (ap (λ rest. s ∷ rest) (carried_all (before ++ (s ∷ [])) ss (omega arith)))
]

migrate_one-Inserted :
    (s : SubnetConfig) (db : SqlDb)
    → IsValid db.content
    → db.faults ≡ []
    → Inserted s
        (view db.content)
        (refused (view db.content) s)
        (migrate_one check_subnet insert_subnet false s db)
unfolding migrate_one
migrate_one-Inserted s db v healthy = either (validate_subnet s)
  where
    either :
        (verdict : Result (Unit {0}))
        → Inserted s
            (view db.content)
            (is_err verdict || any (named s.network) (view db.content))
            (and_then insert_subnet (lift (elim verdict [ ok u ↦ ok s | err e ↦ err e ]) db))
    either (err e) = (refl, healthy, v)
    either (ok u) = insert_subnet-Inserted s db v healthy

-- What a run of the loop makes of `before`, with `kept` carried over of `total` subnets.
abbrev Ran : List SubnetConfig → List SubnetConfig → Count → ℕ → Count × SqlDb → Type 0
Ran before kept n total (m, db) =
    (view db.content ≡ before ++ kept)
    × (db.faults ≡ [])
    × IsValid db.content
    × (m.failed + length kept ≡ n.failed + total)

-- One turn of the loop, before the others.
one_more-Ran :
    (s : SubnetConfig) (ss before : List SubnetConfig) (n : Count)
    → ((m : Count) (e : SqlDb)
        → IsValid e.content
        → e.faults ≡ []
        → Ran
            (view e.content)
            (carried (view e.content) ss)
            m
            (length ss)
            (migrate_loop check_subnet insert_subnet false ss m e))
    → (out : Bool) (r : Result (Unit {0}) × SqlDb) → Inserted s before out r
    → Ran before
        (if out then carried before ss else (s ∷ carried (before ++ (s ∷ [])) ss))
        n
        (suc (length ss))
        (migrate_loop check_subnet insert_subnet false ss (tally r.0 n) r.1)
one_more-Ran s ss before n rest_runs true (ok u, db) i = absurd i
one_more-Ran s ss before n rest_runs true (err e, db) i =
    let rest = rest_runs (tally (err e) n) db i.2 i.1 in
    let same = ap (λ b. length (carried b ss)) i.0 in
    (rest.0 ∙ ap (λ b. b ++ carried b ss) i.0, rest.1, rest.2, omega arith)
one_more-Ran s ss before n rest_runs false (ok u, db) i =
    let rest = rest_runs (tally (ok u) n) db i.2 i.1 in
    let same = ap (λ b. length (carried b ss)) i.0 in
    (
      rest.0
          ∙ ap (λ b. b ++ carried b ss) i.0
          ∙ append_assoc before (s ∷ []) (carried (before ++ (s ∷ [])) ss),
      rest.1,
      rest.2,
      omega arith,
    )
one_more-Ran s ss before n rest_runs false (err e, db) i = absurd i

migrate_loop-Ran :
    (ss : List SubnetConfig) (n : Count) (db : SqlDb)
    → IsValid db.content
    → db.faults ≡ []
    → Ran
        (view db.content)
        (carried (view db.content) ss)
        n
        (length ss)
        (migrate_loop check_subnet insert_subnet false ss n db)
unfolding migrate_loop carried
migrate_loop-Ran [] n db v healthy = (sym (append-nil (view db.content)), healthy, v, refl)
migrate_loop-Ran (s ∷ ss) n db v healthy =
    one_more-Ran s ss (view db.content) n (migrate_loop-Ran ss) (refused (view db.content) s)
      (migrate_one check_subnet insert_subnet false s db) (migrate_one-Inserted s db v healthy)

-- The tables, and whether every subnet was carried over.
abbrev pub Copied : List SubnetConfig → List SubnetConfig → List SubnetConfig → Bool × Disk → Type 0
Copied before kept ss (complete, d) =
    ((get_subnets d.tables).0 ≡ ok (sort_rows by_network (before ++ kept)))
    × ((complete ≡ true) ↔ (kept ≡ ss))

migrate_open-Copied :
    (ss : List SubnetConfig) (d : Disk)
    → IsValid d.tables.content
    → d.tables.faults ≡ []
    → Copied
        (view d.tables.content)
        (carried (view d.tables.content) ss)
        ss
        (migrate_open check_subnet insert_subnet false ss d)
unfolding migrate_open
migrate_open-Copied ss d v healthy =
    let n : Count = record { succeeded = 0; failed = 0 } in
    let ran = migrate_loop-Ran ss n d.tables v healthy in
    let r = migrate_loop check_subnet insert_subnet false ss n d.tables in
    let before = view d.tables.content in
    (
      ap (λ q. q.0) (get_subnets-sorted r.1 ran.1) ∙ ap (λ b. ok (sort_rows by_network b)) ran.0,
      (
        λ none_failed. carried_all before ss (ground arith),
        λ all_kept. let same = ap (λ (b : List SubnetConfig). length b) all_kept in ground arith,
      ),
    )

-- A dry run: the counter of failures stays at 0 if every subnet is valid.
abbrev Looked : Bool → SqlDb → Count × SqlDb → Type 0
Looked clean db (m, db') = (db' ≡ db) × ((m.failed == 0) ≡ clean)

migrate_loop-Looked :
    (ss : List SubnetConfig) (n : Count) (db : SqlDb)
    → Looked
        (n.failed == 0 && not (any invalid_subnet ss))
        db
        (migrate_loop check_subnet insert_subnet true ss n db)
unfolding migrate_loop migrate_one
migrate_loop-Looked [] n db = (refl, ground arith)
migrate_loop-Looked (s ∷ ss) n db = either (validate_subnet s) (λ m. migrate_loop-Looked ss m db)
  where
    either :
        (verdict : Result (Unit {0}))
        → ((m : Count)
            → Looked
                (m.failed == 0 && not (any invalid_subnet ss))
                db
                (migrate_loop check_subnet insert_subnet true ss m db))
        → let r =
            and_then
              (λ (checked : SubnetConfig). pure tt)
              (lift (elim verdict [ ok u ↦ ok s | err e ↦ err e ]) db) in
          Looked
            (n.failed == 0 && not (if is_err verdict then true else any invalid_subnet ss))
            db
            (migrate_loop check_subnet insert_subnet true ss (tally r.0 n) r.1)
    either (ok u) rest = rest (tally (ok u) n)
    either (err e) rest = let r = rest (tally (err e) n) in (r.0, r.1 ∙ ground arith)

migrate_open-dry :
    (ss : List SubnetConfig) (d : Disk)
    → migrate_open check_subnet insert_subnet true ss d ≡ (not (any invalid_subnet ss), d)
unfolding migrate_open
migrate_open-dry ss d =
    let looked = migrate_loop-Looked ss (record { succeeded = 0; failed = 0 }) d.tables in
    λ i. (looked.1 i, record d { tables = looked.0 i })

-- With a database file that is sound, a migration of subnets leaves in the tables the subnets that
-- were there and, after them, in the order of the configuration, those that are valid and the first
-- with their network, so that `GetSubnets` returns all of these, sorted by network. It reports
-- success exactly if it carried every subnet over. A dry run reports success exactly if every subnet
-- is valid, and leaves the file as it is.
pub migrate_subnets-Copied :
    (path : Text) (ss : List SubnetConfig) (d : Disk)
    → is_empty path ≡ false
    → IsSound d
    → Copied
        (view d.tables.content)
        (carried (view d.tables.content) ss)
        ss
        (migrate_subnets false path ss d)
      × (migrate_subnets true path ss d ≡ (not (any invalid_subnet ss), d))
unfolding migrate_subnets migrate
migrate_subnets-Copied path [] d filled v = (
  (
    ap (λ q. q.0) (get_subnets-sorted d.tables v.tables_run)
        ∙ unfold carried in
          ap (λ b. ok (sort_rows by_network b)) (sym (append-nil (view d.tables.content))),
    (λ done. unfold carried in refl, λ same. refl),
  ),
  refl,
)
migrate_subnets-Copied path (s ∷ ss) d filled v = (
  subst
      (λ o.
        Copied (view d.tables.content) (carried (view d.tables.content) (s ∷ ss)) (s ∷ ss)
          (if_opened check_subnet insert_subnet false (s ∷ ss) o))
      (sym (open_path-opened path d filled v))
      (unfold opened in migrate_open-Copied (s ∷ ss) (opened d) v.valid v.tables_run),
  migrate_open-dry (s ∷ ss) d,
)
