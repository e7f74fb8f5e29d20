-- ===== src/Store/Update.antt =====
-- internal/sqlite3store/store.go: `UpdateSubnet` against the list of subnets that the tables stand for.
use go_dhcpd.Base.{
  ℕ, true, false, List, [], ◌∷◌, map, none, some, ◌==◌, ==_refl, ==_iff, any, All, not_any, map-eq,
  All-implies, Bool-cases, Option-cases, inl, inr, Text, text_eq, text_eq_iff, ◌>>◌, ◌≡◌, refl, sym,
  ap, ◌∙◌, subst, arith, if◌then◌else◌,
}
use go_dhcpd.Config.{SubnetConfig}
use go_dhcpd.Store.Rows.{SubnetRow, Content, SqlDb, statement}
use go_dhcpd.Store.Children.{has_id, write_children, clear_children}
use go_dhcpd.Store.Subnets.{
  has_network, set_columns, first_id, find_id, update_row_of, update_found, update_subnet,
}
use go_dhcpd.Store.Lists.{wrote, emptied, write_children-Yields, clear_children-Yields}
use go_dhcpd.Store.Directory.{Change, apply, named, view, loaded, Differs, Apart, IsValid}
use go_dhcpd.Store.Effects.{
  Yields, >>=-Yields, statement-Yields, transaction-Changes, >>=-Fails_later, transaction-Refused,
}
use go_dhcpd.Store.Outcome.{Outcome, Changes-Outcome, Refused-Outcome}
use go_dhcpd.Store.Wrote.{
  Childless, loaded-wrote, loaded-wrote_other, loaded-emptied_other, wrote-rest, emptied-rest,
  emptied-Childless,
}
use go_dhcpd.Store.Valid.{any_id-map, map-IsValid, wrote-IsValid, emptied-IsValid}
use go_dhcpd.Store.Insert.{any-view}

first_id-any :
    (network : Text) (rows : List SubnetRow)
    → first_id network rows ≡ none
    → any (has_network network) rows ≡ false
unfolding first_id
first_id-any network [] h = refl
first_id-any network (r ∷ rows) h = ground (arith, first_id-any network rows)

first_id-known :
    (network : Text) (rows : List SubnetRow) (id : ℕ)
    → first_id network rows ≡ some id
    → (any (has_network network) rows ≡ true) × (any (has_id id) rows ≡ true)
unfolding first_id
first_id-known network [] id h = cc
first_id-known network (r ∷ rows) id h = elim (Bool-cases (has_network network r)) [
  | inl here ↦
      let same : r.id ≡ id = ground arith in
      (rw here, ap (λ n. if n == id then true else any (has_id id) rows) same ∙ rw (==_refl id))
  | inr later ↦
      let known = first_id-known network rows id (rw later at h) in
      (rw later known.0, ground (arith, known.1))
]

-- The row with the id that was found is the row with the network.
same_row :
    (network : Text) (rows : List SubnetRow) (id : ℕ)
    → Apart rows
    → first_id network rows ≡ some id
    → All (λ r. has_network network r ≡ has_id id r) rows
unfolding first_id
same_row network [] id a h = tt
same_row network (r ∷ rows) id a h = elim (Bool-cases (has_network network r)) [
  | inl here ↦
      let same : r.id ≡ id = ground arith in
      let network_eq : r.network ≡ network = (text_eq_iff r.network network).0 here in
      (
        here ∙ sym (ap (λ n. n == id) same ∙ ==_refl id),
        All-implies (Differs r) _ rows
            (λ q (d : Differs r q).
              ap (text_eq q.network) (sym network_eq)
              ∙ d.1
              ∙ sym (ap (λ n. q.id == n) (sym same) ∙ d.0))
            a.0,
      )
  | inr later ↦
      let rest : first_id network rows ≡ some id = rw later at h in
      let known = (first_id-known network rows id rest).1 in
      (later ∙ sym (other known), same_row network rows id a.1 rest)
]
  where
    other : any (has_id id) rows ≡ true → has_id id r ≡ false
    other known = elim (Bool-cases (has_id id r)) [
      | inl e ↦
          let same : r.id ≡ id = (==_iff r.id id).0 e in
          let absent : any (has_id r.id) rows ≡ false =
            not_any (has_id r.id) rows
              (All-implies (Differs r) _ rows (λ q (d : Differs r q). d.0) a.0) in
          let gone : any (has_id id) rows ≡ false =
            subst (λ n. any (has_id n) rows ≡ false) same absent in
          cc
      | inr e ↦ e
    ]

abbrev rewritten : ℕ → SubnetConfig → SubnetRow → SubnetRow
rewritten id s row = if has_id id row then set_columns s row else row

rewritten-same :
    (id : ℕ) (s : SubnetConfig) (r : SubnetRow)
    → ((rewritten id s r).id ≡ r.id) × ((rewritten id s r).network ≡ r.network)
rewritten-same id s r = elim (Bool-cases (has_id id r)) [
  | inl e ↦ rw e (refl, refl)
  | inr e ↦ rw e (refl, refl)
]

-- The tables after the UPDATE of the row.
unfoldable pub with_columns : ℕ → SubnetConfig → Content → Content
with_columns id s c = record c { subnets = map (rewritten id s) c.subnets }

updated : ℕ → SubnetConfig → Content → Content
updated id s c = wrote id s (emptied id (with_columns id s c))

map-map :
    {A B C : Type 0} (f : B → C) (g : A → B) (xs : List A)
    → map f (map g xs) ≡ map (λ x. f (g x)) xs
map-map f g [] = refl
map-map f g (x ∷ xs) = ap (◌∷◌ (f (g x))) (map-map f g xs)

module _ (id : ℕ) (s : SubnetConfig) (c : Content) (v : IsValid c)
    (found : first_id s.network c.subnets ≡ some id) where
  abbrev unlisted : Content
  unlisted = emptied id (with_columns id s c)

  row_only : (r : SubnetRow) → loaded (with_columns id s c) r ≡ loaded c r
  unfolding loaded with_columns
  row_only r = refl

  read_new :
      (r : SubnetRow)
      → r.id ≡ id
      → r.network ≡ s.network
      → loaded (updated id s c) (set_columns s r) ≡ s
  unfolding updated
  read_new r same network_eq =
      subst (λ n. loaded (wrote n s unlisted) (set_columns s r) ≡ s) same
        (loaded-wrote r s unlisted network_eq (
          subst (λ n. Childless n unlisted) (sym same)
            (emptied-Childless id (with_columns id s c))))

  read_old : (r : SubnetRow) → (id == r.id) ≡ false → loaded (updated id s c) r ≡ loaded c r
  unfolding updated
  read_old r other =
      loaded-wrote_other id s unlisted r other
      ∙ loaded-emptied_other id (with_columns id s c) r other
      ∙ row_only r

  read_row :
      (r : SubnetRow)
      → has_network s.network r ≡ has_id id r
      → loaded (updated id s c) (rewritten id s r)
        ≡ (if has_network s.network r then s else loaded c r)
  read_row r agree = elim (Bool-cases (has_id id r)) [
    | inl e ↦
        rw (agree, e)
          (read_new r ((==_iff r.id id).0 e) ((text_eq_iff r.network s.network).0 (agree ∙ e)))
    | inr e ↦ rw (agree, e) (read_old r (ground arith))
  ]

  view-updated :
      view (updated id s c) ≡ map (λ old. if named s.network old then s else old) (view c)
  unfolding updated loaded
  view-updated =
      ap (map (loaded (updated id s c))) rows
      ∙ map-map (loaded (updated id s c)) (rewritten id s) c.subnets
      ∙ map-eq _ _ c.subnets (
          All-implies (λ (r : SubnetRow). has_network s.network r ≡ has_id id r) _ c.subnets
            (λ r (agree : has_network s.network r ≡ has_id id r). read_row r agree)
            (same_row s.network c.subnets id v.apart found))
      ∙ sym (map-map (λ old. if named s.network old then s else old) (loaded c) c.subnets)
    where
      rows : (updated id s c).subnets ≡ map (rewritten id s) c.subnets
      rows =
          (wrote-rest id s unlisted).1
          ∙ (emptied-rest id (with_columns id s c)).1
          ∙ unfold with_columns in refl

  has_found : any (has_id id) unlisted.subnets ≡ true
  unfolding with_columns
  has_found =
      ap (any (has_id id)) (emptied-rest id (with_columns id s c)).1
      ∙ any_id-map (rewritten id s) (rewritten-same id s) id c.subnets
      ∙ (first_id-known s.network c.subnets id found).1

  with_columns-IsValid : IsValid (with_columns id s c)
  unfolding with_columns
  with_columns-IsValid = map-IsValid (rewritten id s) (rewritten-same id s) c v

  updated-IsValid : IsValid (updated id s c)
  unfolding updated
  updated-IsValid =
      wrote-IsValid id s unlisted (emptied-IsValid id (with_columns id s c) with_columns-IsValid)
        has_found

  update_found-Yields :
      (H : Type 0) (db : SqlDb)
      → db.content ≡ c
      → (H → db.faults ≡ [])
      → Yields H tt (updated id s c) (update_found s (some id) db)
  unfolding update_found updated
  update_found-Yields H db e h =
      >>=-Yields H tt tt (with_columns id s c) _ (statement (update_row_of id s))
        (λ _. clear_children id >> write_children id s) db
        (statement-Yields H tt c (with_columns id s c) (update_row_of id s) db e h
          (unfold update_row_of with_columns in refl))
        λ db' f k.
          >>=-Yields H tt tt unlisted _ (clear_children id) (λ _. write_children id s) db'
            (clear_children-Yields H id (with_columns id s c) db' f k)
            (λ db'' g l. write_children-Yields H id s unlisted db'' has_found g l)

pub update_subnet-Outcome :
    (s : SubnetConfig) (db : SqlDb)
    → IsValid db.content
    → Outcome
        (db.faults ≡ [])
        (apply (Change.update s) (view db.content))
        db.content
        (update_subnet s db)
unfolding update_subnet apply
update_subnet-Outcome s db v = elim (Option-cases (first_id s.network c.subnets)) [
  | inl unknown ↦
      Refused-Outcome H _ c v (update_subnet s db)
        (rw (any-view s.network c, first_id-any s.network c.subnets unknown))
        (transaction-Refused H _ db (λ h. h)
          λ db' e h.
            >>=-Fails_later H none c (statement (find_id s.network)) (update_found s) db'
              (statement-Yields H none c c (find_id s.network) db' e h
                (unfold find_id in rw unknown))
              (λ db'' f k. unfold update_found in k))
  | inr (id, found) ↦
      Changes-Outcome H _ c v (updated id s c) (update_subnet s db)
        (rw (any-view s.network c, (first_id-known s.network c.subnets id found).0)
          (ap some (sym (view-updated id s c v found))))
        (updated-IsValid id s c v found)
        (transaction-Changes H (updated id s c) _ db (λ h. h)
          λ db' e h.
            >>=-Yields H (some id) tt c _ (statement (find_id s.network)) (update_found s) db'
              (statement-Yields H (some id) c c (find_id s.network) db' e h
                (unfold find_id in rw found))
              (update_found-Yields id s c v found H))
]
  where
    H : Type 0
    H = db.faults ≡ []

    c : Content
    c = db.content
