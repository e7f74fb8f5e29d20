-- ===== src/Store/Reads.antt =====
-- internal/sqlite3store/store.go: what `GetSubnets` returns.
use go_dhcpd.Base.{
  List, [], ◌∷◌, map, sort_rows, insert_row, text_le, Result, ok, err, pure, ◌>>=◌, Bool,
  Bool-cases, inl, inr, ◌≡◌, refl, sym, ap, ◌∙◌, subst,
}
use go_dhcpd.Config.{SubnetConfig}
use go_dhcpd.Store.Rows.{Binding, string_list_bindings, SubnetRow, Content, SqlDb, statement}
use go_dhcpd.Store.Children.{ordered, select_children, get_dynamic_ranges, get_string_list}
use go_dhcpd.Store.Subnets.{scan, get_lists, load_subnet, load_subnets, network_le, get_subnets}
use go_dhcpd.Store.Directory.{loaded, view}
use go_dhcpd.Store.Effects.{Yields, pure-Yields, >>=-Yields, statement-Yields}

abbrev with_lists : List Binding → SubnetRow → Content → SubnetConfig → SubnetConfig
with_lists [] row c s = s
with_lists (b ∷ bs) row c s = with_lists bs row c (b.set s (ordered row.id (c.values b.table)))

-- The order of the subnets that `GetSubnets` returns.
abbrev pub by_network : SubnetConfig → SubnetConfig → Bool
by_network s t = text_le s.network t.network

module _ (H : Type 0) (c : Content) where
  get_lists-Yields :
      (bs : List Binding) (row : SubnetRow) (s : SubnetConfig) (db : SqlDb)
      → db.content ≡ c
      → (H → db.faults ≡ [])
      → Yields H (with_lists bs row c s) c (get_lists bs row.id s db)
  unfolding get_lists get_string_list select_children
  get_lists-Yields [] row s db e h = pure-Yields H s c db e h
  get_lists-Yields (b ∷ bs) row s db e h =
      let vs = ordered row.id (c.values b.table) in
      >>=-Yields H vs (with_lists bs row c (b.set s vs)) c c (get_string_list b.table row.id)
        (λ values. get_lists bs row.id (b.set s values)) db
        (statement-Yields H vs c c _ db e h refl) (get_lists-Yields bs row (b.set s vs))

  load_subnet-Yields :
      (row : SubnetRow) (db : SqlDb)
      → db.content ≡ c
      → (H → db.faults ≡ [])
      → Yields H (loaded c row) c (load_subnet row db)
  unfolding load_subnet get_dynamic_ranges select_children loaded
  load_subnet-Yields row db e h =
      let rs = ordered row.id c.ranges in
      >>=-Yields H rs (loaded c row) c c (get_dynamic_ranges row.id)
        (λ ranges.
          get_lists string_list_bindings row.id (record (scan row) { dynamic_ranges = ranges }))
        db (statement-Yields H rs c c _ db e h refl)
        (get_lists-Yields string_list_bindings row (record (scan row) { dynamic_ranges = rs }))

  load_subnets-Yields :
      (rows : List SubnetRow) (db : SqlDb)
      → db.content ≡ c
      → (H → db.faults ≡ [])
      → Yields H (map (loaded c) rows) c (load_subnets rows db)
  unfolding load_subnets
  load_subnets-Yields [] db e h = pure-Yields H [] c db e h
  load_subnets-Yields (row ∷ rows) db e h =
      let more =
        λ (s : SubnetConfig). load_subnets rows >>= λ (rest : List SubnetConfig). pure (s ∷ rest) in
      >>=-Yields H (loaded c row) (map (loaded c) (row ∷ rows)) c c (load_subnet row) more db
        (load_subnet-Yields row db e h)
        λ db' f k.
          >>=-Yields H (map (loaded c) rows) (map (loaded c) (row ∷ rows)) c c (load_subnets rows)
            (λ rest. pure (loaded c row ∷ rest)) db' (load_subnets-Yields rows db' f k)
            (λ db'' g l. pure-Yields H (map (loaded c) (row ∷ rows)) c db'' g l)

module _ (c : Content) where
  insert_row-loaded :
      (r : SubnetRow) (rows : List SubnetRow)
      → map (loaded c) (insert_row network_le r rows)
        ≡ insert_row by_network (loaded c r) (map (loaded c) rows)
  unfolding insert_row loaded
  insert_row-loaded r [] = refl
  insert_row-loaded r (s ∷ rows) = elim (Bool-cases (network_le r s)) [
    | inl e ↦ rw e refl
    | inr e ↦ rw e (ap (◌∷◌ (loaded c s)) (insert_row-loaded r rows))
  ]

  sort_rows-loaded :
      (rows : List SubnetRow)
      → map (loaded c) (sort_rows network_le rows) ≡ sort_rows by_network (map (loaded c) rows)
  unfolding sort_rows
  sort_rows-loaded [] = refl
  sort_rows-loaded (r ∷ rows) =
      insert_row-loaded r (sort_rows network_le rows)
      ∙ ap (insert_row by_network (loaded c r)) (sort_rows-loaded rows)

-- Where `GetSubnets` succeeds it returns the subnets that the tables stand for, sorted by network, each
-- with every field and the order of its lists; and it succeeds when every statement runs. The tables
-- stay as they are.
pub get_subnets-Yields :
    (db : SqlDb)
    → Yields (db.faults ≡ []) (sort_rows by_network (view db.content)) db.content (get_subnets db)
unfolding get_subnets
get_subnets-Yields db =
    let H : Type 0 = db.faults ≡ [] in
    let c : Content = db.content in
    let rows : List SubnetRow = sort_rows network_le c.subnets in
    >>=-Yields H rows (sort_rows by_network (view c)) c c
      (statement (λ d. (ok (sort_rows network_le d.subnets), d))) load_subnets db
      (statement-Yields H rows c c _ db refl (λ h. h) refl)
      (λ db' e h.
        subst (λ ss. Yields H ss c (load_subnets rows db')) (sort_rows-loaded c c.subnets)
          (load_subnets-Yields H c rows db' e h))

pub get_subnets-sorted :
    (db : SqlDb)
    → db.faults ≡ []
    → get_subnets db ≡ (ok (sort_rows by_network (view db.content)), db)
get_subnets-sorted db healthy = go (get_subnets db) (get_subnets-Yields db)
  where
    go :
        (r : Result (List SubnetConfig) × SqlDb)
        → Yields (db.faults ≡ []) (sort_rows by_network (view db.content)) db.content r
        → r ≡ (ok (sort_rows by_network (view db.content)), db)
    go (ok ss, db') y =
        λ i. (ok (y.0 i), record { content = y.1 i; faults = (y.2 healthy ∙ sym healthy) i })
    go (err e, db') y = absurd (y healthy)
