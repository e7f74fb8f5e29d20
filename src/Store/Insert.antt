-- ===== src/Store/Insert.antt =====
-- internal/sqlite3store/store.go: `InsertSubnet` against the list of subnets that the tables stand for.
use mathlib.Core.List.{map-append}
use go_dhcpd.Base.{
  Bool, true, false, List, [], ◌∷◌, ◌++◌, map, none, some, ==_refl, any, any-append, any-map,
  map-eq, All-implies, Bool-cases, inl, inr, Text, Result, ok, err, ◌<◌, ◌≡◌, refl, sym, ap, ◌∙◌,
  arith, if◌then◌else◌, constraint,
}
use go_dhcpd.Config.{SubnetConfig}
use go_dhcpd.Store.Rows.{SubnetRow, Content, SqlDb, statement}
use go_dhcpd.Store.Children.{has_id, write_children}
use go_dhcpd.Store.Subnets.{has_network, new_row, insert_row_of, insert_subnet}
use go_dhcpd.Store.Lists.{wrote, write_children-Yields}
use go_dhcpd.Store.Directory.{Change, apply, named, view, loaded, IsValid}
use go_dhcpd.Store.Effects.{
  >>=-Yields, statement-Yields, transaction-Changes, >>=-Fails, statement-Fails,
  transaction-Refused,
}
use go_dhcpd.Store.Outcome.{Outcome, Changes-Outcome, Refused-Outcome}
use go_dhcpd.Store.Wrote.{Childless, loaded-wrote, loaded-wrote_other, wrote-rest}
use go_dhcpd.Store.Valid.{next_free, with_row, with_row-IsValid, wrote-IsValid, Childless-next}

-- A network is known to the list when a row has it.
pub any-view :
    (network : Text) (c : Content)
    → any (named network) (view c) ≡ any (has_network network) c.subnets
unfolding loaded
any-view network c = any-map (named network) (loaded c) c.subnets

inserted : SubnetConfig → Content → Content
unfolding with_row
inserted s c = wrote c.next_subnet s (with_row s c)

module _ (s : SubnetConfig) (c : Content) (v : IsValid c) where
  has_new : any (has_id c.next_subnet) (with_row s c).subnets ≡ true
  unfolding with_row
  has_new =
      let tail : any (has_id c.next_subnet) (new_row c.next_subnet s ∷ []) ≡ true =
        rw (==_refl c.next_subnet) in
      ground (arith, any-append (has_id c.next_subnet) c.subnets (new_row c.next_subnet s ∷ []))

  fresh : Childless c.next_subnet (with_row s c)
  unfolding with_row
  fresh =
      let alone = Childless-next c.next_subnet c v (next_free c.next_subnet c.subnets v.ids) in
      record { no_ranges = alone.no_ranges; no_values = alone.no_values }

  row_only : (r : SubnetRow) → loaded (with_row s c) r ≡ loaded c r
  unfolding loaded with_row
  row_only r = refl

  -- The rows that were there are read as before.
  others : map (loaded (inserted s c)) c.subnets ≡ map (loaded c) c.subnets
  unfolding inserted
  others = map-eq _ _ c.subnets (
      All-implies (λ (r : SubnetRow). r.id < c.next_subnet) _ c.subnets
        (λ r (lt : r.id < c.next_subnet).
          loaded-wrote_other c.next_subnet s (with_row s c) r (ground arith) ∙ row_only r)
        v.ids)

  view-inserted : view (inserted s c) ≡ view c ++ (s ∷ [])
  unfolding inserted
  view-inserted =
      ap (map (loaded (inserted s c))) rows
      ∙ map-append (loaded (inserted s c)) c.subnets (row ∷ [])
      ∙ λ i. others i ++ (new i ∷ [])
    where
      row : SubnetRow
      row = new_row c.next_subnet s

      rows : (inserted s c).subnets ≡ c.subnets ++ (row ∷ [])
      rows = (wrote-rest c.next_subnet s (with_row s c)).1 ∙ unfold with_row in refl

      new : loaded (inserted s c) row ≡ s
      new = loaded-wrote row s (with_row s c) refl fresh

-- With any of its statements failing, `InsertSubnet` either appends the subnet to the list, which
-- then did not have its network, or changes nothing.
pub insert_subnet-Outcome :
    (s : SubnetConfig) (db : SqlDb)
    → IsValid db.content
    → Outcome
        (db.faults ≡ [])
        (apply (Change.insert s) (view db.content))
        db.content
        (insert_subnet s db)
unfolding insert_subnet apply
insert_subnet-Outcome s db v = elim (Bool-cases (any (has_network s.network) c.subnets)) [
  | inl known ↦ Refused-Outcome H _ c v (insert_subnet s db) (rw (any-view s.network c, known)) (
      transaction-Refused H _ db (λ h. h)
        λ db' e h.
          >>=-Fails H (statement (insert_row_of s)) (λ id. write_children id s) db'
            (statement-Fails H constraint c c (insert_row_of s) db' e h
              (unfold insert_row_of in rw known)))
  | inr new ↦
      Changes-Outcome H _ c v (inserted s c) (insert_subnet s db)
        (rw (any-view s.network c, new) (ap some (sym (view-inserted s c v))))
        (unfold inserted in
          wrote-IsValid c.next_subnet s (with_row s c) (with_row-IsValid s c v new) (has_new s c v))
        (transaction-Changes H (inserted s c) _ db (λ h. h)
          λ db' e h.
            >>=-Yields H c.next_subnet tt (with_row s c) _ (statement (insert_row_of s))
              (λ id. write_children id s) db'
              (statement-Yields H c.next_subnet c (with_row s c) (insert_row_of s) db' e h
                (unfold insert_row_of with_row in rw new))
              (unfold inserted in
                λ db'' f k.
                  write_children-Yields H c.next_subnet s (with_row s c) db'' (has_new s c v) f k))
]
  where
    H : Type 0
    H = db.faults ≡ []

    c : Content
    c = db.content

-- The insertion with every statement run.
abbrev pub Inserted : SubnetConfig → List SubnetConfig → Bool → Result (Unit {0}) × SqlDb → Type 0
Inserted s before true (ok u, db) = ⊥
Inserted s before true (err e, db) =
    (view db.content ≡ before) × (db.faults ≡ []) × IsValid db.content
Inserted s before false (ok u, db) =
    (view db.content ≡ before ++ (s ∷ [])) × (db.faults ≡ []) × IsValid db.content
Inserted s before false (err e, db) = ⊥

pub insert_subnet-Inserted :
    (s : SubnetConfig) (db : SqlDb)
    → IsValid db.content
    → db.faults ≡ []
    → Inserted s (view db.content) (any (named s.network) (view db.content)) (insert_subnet s db)
unfolding apply
insert_subnet-Inserted s db v healthy =
    go (any (named s.network) d) (insert_subnet s db) (insert_subnet-Outcome s db v)
  where
    d : List SubnetConfig
    d = view db.content

    go :
        (known : Bool) (r : Result (Unit {0}) × SqlDb)
        → Outcome (db.faults ≡ []) (if known then none else some (d ++ (s ∷ []))) db.content r
        → Inserted s d known r
    go true (ok u, db') o = absurd (let e : none ≡ some (view db'.content) = o.0.0 in cc)
    go true (err e, db') o = (o.0.0, o.0.2 healthy, o.1)
    go false (ok u, db') o =
        let e : some (d ++ (s ∷ [])) ≡ some (view db'.content) = o.0.0 in (cc e, o.0.1 healthy, o.1)
    go false (err e, db') o = absurd (let e : some (d ++ (s ∷ [])) ≡ none = o.0.1 healthy in cc)
