-- ===== src/Store/Upgrade.antt =====
-- internal/sqlite3store/store.go: the schema that `OpenDB` leaves.
use mathlib.Core.List.{append-nil, append_assoc}
use go_dhcpd.Base.{
  true, false, not, List, [], ◌∷◌, ◌++◌, All, All-implies, keep-none, Bool-cases, inl, inr, Text,
  text_eq, is_empty, Result, ok, err, ◌>>◌, ◌≡◌, refl, sym, ap, ◌∙◌, subst,
}
use go_dhcpd.Store.Rows.{Faulty, string_list_bindings, statement}
use go_dhcpd.Store.Effects.{Yields, pure-Yields, >>=-Yields, statement-Yields, statement_runs}
use go_dhcpd.Store.Names.{
  plus, with_names, missing, Distinct, agree-append, has_name-with_names, with_names-has,
  with_names_all, missing-has,
}
use go_dhcpd.Store.Schema.{
  Catalog, has_name, subnets_table, bootp_subnet_columns, create_subnets, create, create_all,
  add_column, add_missing, migrate_subnets_table, base_objects, list_objects, ensure_schema,
  open_db,
}

created : List Text → Catalog → Catalog
unfolding with_names
created names c = record c { objects = with_names c.objects names }

module _ (H : Type 0) where
  create_all-Yields :
      (names : List Text) (c : Catalog) (db : Faulty Catalog)
      → db.content ≡ c
      → (H → db.faults ≡ [])
      → Yields H tt (created names c) (create_all names db)
  unfolding create_all created with_names
  create_all-Yields [] c db e h = pure-Yields H tt c db e h
  create_all-Yields (n ∷ names) c db e h =
      let d : Catalog = record c { objects = plus c.objects n } in
      >>=-Yields H tt tt d _ (statement (create n)) (λ _. create_all names) db
        (statement-Yields H tt c d (create n) db e h (create_lem n c)) (create_all-Yields names d)
    where
      create_lem :
          (n : Text) (c : Catalog) → create n c ≡ (ok tt, record c { objects = plus c.objects n })
      create_lem n c =
          unfold create in
          elim (Bool-cases (has_name c.objects n)) [ inl e ↦ rw e refl | inr e ↦ rw e refl ]

  add_missing-Yields :
      (existing names : List Text) (c : Catalog) (db : Faulty Catalog)
      → has_name c.objects subnets_table ≡ true
      → All (λ n. has_name c.columns n ≡ has_name existing n) names
      → Distinct names
      → db.content ≡ c
      → (H → db.faults ≡ [])
      → Yields H tt
          (record c { columns = c.columns ++ missing existing names })
          (add_missing existing names db)
  unfolding add_missing
  add_missing-Yields existing [] c db table agree apart e h =
      pure-Yields H tt _ db (e ∙ λ i. record c { columns = sym (append-nil c.columns) i }) h
  add_missing-Yields existing (n ∷ names) c db table agree apart e h =
      elim (Bool-cases (has_name existing n)) [
        | inl there ↦ rw there (add_missing-Yields existing names c db table agree.1 apart.1 e h)
        | inr not_there ↦
            let d : Catalog = record c { columns = c.columns ++ (n ∷ []) } in
            rw not_there (
              subst
                (λ cols.
                  Yields H tt (record c { columns = cols })
                    ((statement (add_column n) >> add_missing existing names) db))
                (append_assoc c.columns (n ∷ []) (missing existing names))
                (>>=-Yields H tt tt d _ (statement (add_column n)) (λ _. add_missing existing names)
                  db
                  (statement-Yields H tt c d (add_column n) db e h
                    (unfold add_column in rw (table, agree.0 ∙ not_there) refl))
                  (λ db'.
                    add_missing-Yields existing names d db' table
                      (agree-append existing c.columns n names apart.0 agree.1) apart.1)))
      ]

  migrate-Yields :
      (c : Catalog) (db : Faulty Catalog)
      → has_name c.objects subnets_table ≡ true
      → db.content ≡ c
      → (H → db.faults ≡ [])
      → Yields H tt
          (record c { columns = c.columns ++ missing c.columns bootp_subnet_columns })
          (migrate_subnets_table db)
  unfolding migrate_subnets_table
  migrate-Yields c db table e h =
      >>=-Yields H c.columns tt c _ (statement (λ d. (ok d.columns, d)))
        (λ existing. add_missing existing bootp_subnet_columns) db
        (statement-Yields H c.columns c c _ db e h refl)
        (λ db'.
          add_missing-Yields c.columns bootp_subnet_columns c db' table (refl, (refl, (refl, tt)))
            (unfold text_eq in (refl, (refl, (refl, tt)))))

-- The schema after `EnsureSchema`, for a database that has the table.
upgraded : Catalog → Catalog
upgraded c = record c {
  objects = with_names (with_names c.objects base_objects) (list_objects string_list_bindings);
  columns = c.columns ++ missing c.columns bootp_subnet_columns;
}

ensure_schema-Yields :
    (H : Type 0) (c : Catalog) (db : Faulty Catalog)
    → has_name c.objects subnets_table ≡ true
    → db.content ≡ c
    → (H → db.faults ≡ [])
    → Yields H tt (upgraded c) (ensure_schema db)
unfolding ensure_schema upgraded created
ensure_schema-Yields H c db table e h =
    >>=-Yields H tt tt migrated _
      (statement create_subnets >> create_all base_objects >> migrate_subnets_table)
      (λ _. create_all (list_objects string_list_bindings)) db
      (>>=-Yields H tt tt based migrated (statement create_subnets >> create_all base_objects)
        (λ _. migrate_subnets_table) db
        (>>=-Yields H tt tt c based (statement create_subnets) (λ _. create_all base_objects) db
          (statement-Yields H tt c c create_subnets db e h (unfold create_subnets in rw table))
          (create_all-Yields H base_objects c))
        (λ db' f k.
          migrate-Yields H based db'
            (has_name-with_names base_objects c.objects subnets_table table) f k))
      (create_all-Yields H (list_objects string_list_bindings) migrated)
  where
    based : Catalog
    based = created base_objects c

    migrated : Catalog
    migrated = record based { columns = c.columns ++ missing c.columns bootp_subnet_columns }

-- Every table and index is there, and so are the columns that an old `subnets` table has not.
pub record IsReady (c : Catalog) : Type 0 where
  pub table : has_name c.objects subnets_table ≡ true
  pub base : All (λ n. has_name c.objects n ≡ true) base_objects
  pub lists : All (λ n. has_name c.objects n ≡ true) (list_objects string_list_bindings)
  pub columns : All (λ n. has_name c.columns n ≡ true) bootp_subnet_columns

upgraded-IsReady : (c : Catalog) → has_name c.objects subnets_table ≡ true → IsReady (upgraded c)
unfolding upgraded
upgraded-IsReady c table = record {
  table =
      has_name-with_names lists _ subnets_table
        (has_name-with_names base_objects c.objects subnets_table table);
  base =
      All-implies (λ n. has_name (with_names c.objects base_objects) n ≡ true) _ base_objects
        (λ n (h : has_name (with_names c.objects base_objects) n ≡ true).
          has_name-with_names lists _ n h)
        (with_names-has base_objects c.objects);
  lists = with_names-has lists (with_names c.objects base_objects);
  columns = missing-has c.columns bootp_subnet_columns;
}
  where
    lists : List Text
    lists = list_objects string_list_bindings

upgraded_ready : (c : Catalog) → IsReady c → upgraded c ≡ c
unfolding upgraded
upgraded_ready c r = λ i. record c {
  objects =
      (ap (λ names. with_names names lists) (with_names_all base_objects c.objects r.base)
          ∙ with_names_all lists c.objects r.lists)
        i;
  columns = (ap (λ (more : List Text). c.columns ++ more) nothing ∙ append-nil c.columns) i;
}
  where
    lists : List Text
    lists = list_objects string_list_bindings

    nothing : missing c.columns bootp_subnet_columns ≡ []
    nothing =
        keep-none (λ name. not (has_name c.columns name)) bootp_subnet_columns
          (All-implies (λ n. has_name c.columns n ≡ true) _ bootp_subnet_columns
            (λ n (h : has_name c.columns n ≡ true). ap not h) r.columns)

settles :
    (db : Faulty Catalog) (c : Catalog) (r : Result (Unit {0}) × Faulty Catalog)
    → db.faults ≡ []
    → Yields (db.faults ≡ []) tt c r
    → r ≡ (ok tt, record db { content = c })
settles db c (ok u, db') healthy y =
    λ i. (ok (y.0 i), record { content = y.1 i; faults = (y.2 healthy ∙ sym healthy) i })
settles db c (err e, db') healthy y = absurd (y healthy)

-- A database that is ready stays as it is.
pub ensure_schema-ready :
    (db : Faulty Catalog) → IsReady db.content → db.faults ≡ [] → ensure_schema db ≡ (ok tt, db)
ensure_schema-ready db ready healthy =
    settles db (upgraded db.content) (ensure_schema db) healthy
      (ensure_schema-Yields (db.faults ≡ []) db.content db ready.table refl (λ h. h))
    ∙ λ i. (ok tt, record db { content = upgraded_ready db.content ready i })

pub open_db-ready :
    (path : Text) (db : Faulty Catalog)
    → is_empty path ≡ false
    → IsReady db.content
    → db.faults ≡ []
    → open_db path true db
      ≡ (ok tt, record db { content = record db.content { foreign_keys = true } })
unfolding open_db
open_db-ready path db filled ready healthy =
    rw
      (
        filled,
        statement_runs (λ (c : Catalog). (ok tt, record c { foreign_keys = true })) db (ok tt) _
            healthy refl,
      )
      (ensure_schema-ready _
        (record {
          table = ready.table;
          base = ready.base;
          lists = ready.lists;
          columns = ready.columns;
        })
        healthy)

-- On a database that has a `subnets` table, from whatever version, and with every statement run,
-- `EnsureSchema` succeeds. Afterwards the columns of `subnets` are those that were there, in their
-- order, and then the BootP columns that were not; every table and index of the store and all BootP
-- columns exist; and running it once more succeeds and changes nothing.
pub ensure_schema-Upgraded :
    (db : Faulty Catalog)
    → has_name db.content.objects subnets_table ≡ true
    → db.faults ≡ []
    → let (r, db') = ensure_schema db in
      (r ≡ ok tt)
      × (db'.content.columns
          ≡ db.content.columns ++ missing db.content.columns bootp_subnet_columns)
      × IsReady db'.content
      × (ensure_schema db' ≡ (ok tt, db'))
ensure_schema-Upgraded db table healthy =
    rw once (refl, unfold upgraded in refl, upgraded-IsReady db.content table, twice)
  where
    first : Faulty Catalog
    first = record db { content = upgraded db.content }

    once : ensure_schema db ≡ (ok tt, first)
    once =
        settles db (upgraded db.content) (ensure_schema db) healthy
          (ensure_schema-Yields (db.faults ≡ []) db.content db table refl (λ h. h))

    twice : ensure_schema first ≡ (ok tt, first)
    twice = ensure_schema-ready first (upgraded-IsReady db.content table) healthy
