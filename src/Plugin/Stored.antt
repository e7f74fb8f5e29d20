-- ===== src/Plugin/Stored.antt =====
-- internal/plugin/manager.go over cmd/plugins/sqlite3-config/main.go over
-- internal/sqlite3store/store.go: a subnet that the daemon adds, and the list that it then reads.
use go_dhcpd.Base.{
  Bool, true, false, List, [], ◌∷◌, ◌++◌, some, any, sort_rows, Text, codes, is_empty, invalid,
  plugin_failed, Result, ok, err, and_then, pure, ◌≡◌, refl, sym, ap, ◌∙◌, subst,
}
use go_dhcpd.Config.{SubnetConfig}
use go_dhcpd.Validate.{validate_subnet}
use go_dhcpd.Store.Rows.{SqlDb}
use go_dhcpd.Store.Subnets
use go_dhcpd.Store.Directory.{named, view, IsValid}
use go_dhcpd.Store.Insert.{Inserted, insert_subnet-Inserted}
use go_dhcpd.Store.Reads.{by_network, get_subnets-sorted}
use go_dhcpd.Store.Schema.{open_db}
use go_dhcpd.Store.Upgrade.{IsReady, open_db-ready}
use go_dhcpd.Plugin.{
  Codec, Manager, Response, action_add_subnet, status_success, add_subnet, get_subnets, call, write,
  or_nil_list, after_run, lift,
}
use go_dhcpd.Plugin.Sqlite.{
  Disk, reply, written, with_tables, checked, connected, open_path, on_tables, answer, handle_get,
  handle_write, subnet_of, dispatch, sqlite3_config, check_subnet,
}

-- A database file that opens, of the current schema and well-formed, on which every statement runs.
pub record IsSound (d : Disk) : Type 0 where
  pub opens : d.opens ≡ true
  pub ready : IsReady d.schema.content
  pub schema_runs : d.schema.faults ≡ []
  pub tables_run : d.tables.faults ≡ []
  pub valid : IsValid d.tables.content

unfoldable pub opened : Disk → Disk
opened d = record d {
  schema = record d.schema { content = record d.schema.content { foreign_keys = true } };
}

pub with_tables-IsSound :
    (d : Disk) (db : SqlDb)
    → IsSound d
    → db.faults ≡ []
    → IsValid db.content
    → IsSound (record (opened d) { tables = db })
unfolding opened
with_tables-IsSound d db v runs valid = record {
  opens = v.opens;
  ready = record {
    table = v.ready.table;
    base = v.ready.base;
    lists = v.ready.lists;
    columns = v.ready.columns;
  };
  schema_runs = v.schema_runs;
  tables_run = runs;
  valid = valid;
}

-- Opening such a file changes nothing but the setting of the connection.
pub open_path-opened :
    (path : Text) (d : Disk)
    → is_empty path ≡ false
    → IsSound d
    → open_path (some path) d ≡ (ok tt, opened d)
unfolding open_path opened
open_path-opened path d filled v =
    ap (λ o. connected d (open_db path o d.schema)) v.opens
    ∙ ap (connected d) (open_db-ready path d.schema filled v.ready v.schema_runs)
    ∙ λ i. (
      ok tt,
      record d {
        schema = record d.schema { content = record d.schema.content { foreign_keys = true } };
        tables = record d.tables {
          content = record d.tables.content { foreign_keys = sym v.valid.enforced i };
        };
      },
    )

-- The list after the addition: it changes if the subnet is valid and its network is new.
abbrev pub after_add :
    SubnetConfig → Result (Unit {0}) → Bool → List SubnetConfig → List SubnetConfig
after_add s (err e) known d = d
after_add s (ok u) true d = d
after_add s (ok u) false d = d ++ (s ∷ [])

-- What the daemon is told.
abbrev pub verdict_of : Result (Unit {0}) → Bool → Result (Unit {0})
verdict_of (err e) known = err invalid
verdict_of (ok u) true = err plugin_failed
verdict_of (ok u) false = ok tt

abbrev Added :
    SubnetConfig → List SubnetConfig → Result (Unit {0}) → Bool → Result (Unit {0}) × Disk → Type 0
Added s before v known (r, d) =
    (r ≡ verdict_of v known) × IsSound d × (view d.tables.content ≡ after_add s v known before)

abbrev forget : {S A : Type 0} → Result A × S → Result (Unit {0}) × S
forget = and_then (λ _. pure tt)

module _ (json : Codec) (s : SubnetConfig) (d : Disk) (v : IsSound d) where
  after_tables : Result (Unit {0}) × SqlDb → Result SubnetConfig × Disk
  after_tables r = and_then (λ _. pure s) (with_tables (opened d) r)

  added :
      (known : Bool) (r : Result (Unit {0}) × SqlDb)
      → Inserted s (view d.tables.content) known r
      → Added s
          (view d.tables.content)
          (ok tt)
          known
          (forget (after_run (written (answer json.encode_subnet (after_tables r)))))
  unfolding after_tables opened
  added true (ok u, db) i = elim i [ ]
  added true (err e, db) i = (refl, with_tables-IsSound d db v i.1 i.2, i.0)
  added false (ok u, db) i = (refl, with_tables-IsSound d db v i.1 i.2, i.0)
  added false (err e, db) i = elim i [ ]

  handle_write-Added :
      (path : Text) (verdict : Result (Unit {0}))
      → is_empty path ≡ false
      → Added s (view d.tables.content) verdict (any (named s.network) (view d.tables.content)) (
          forget (
            after_run (
              written (
                handle_write
                  (some path)
                  (elim verdict [ ok u ↦ ok s | err e ↦ err e ])
                  Subnets.insert_subnet
                  json.encode_subnet
                  d))))
  unfolding handle_write
  handle_write-Added path (err e) filled = (refl, v, refl)
  handle_write-Added path (ok u) filled =
      subst
        (λ o.
          Added s (view d.tables.content) (ok tt) (any (named s.network) (view d.tables.content)) (
            forget (
              after_run (
                written (
                  answer json.encode_subnet (
                    and_then (λ _. pure s)
                      (and_then (λ _. on_tables (Subnets.insert_subnet s)) o)))))))
        (sym (open_path-opened path d filled v))
        (unfold after_tables opened in
          added (any (named s.network) (view d.tables.content)) (Subnets.insert_subnet s d.tables)
            (insert_subnet-Inserted s d.tables v.valid v.tables_run))

handle_get-listed :
    (json : Codec) (path : Text) (e : Disk)
    → is_empty path ≡ false
    → IsSound e
    → handle_get (some path) Subnets.get_subnets json.encode_subnets e ≡ (
      reply status_success (json.encode_subnets (sort_rows by_network (view e.tables.content))),
      opened e,
    )
unfolding handle_get
handle_get-listed json path e filled v =
    ap (λ o. answer json.encode_subnets (and_then (λ _. on_tables Subnets.get_subnets) o))
      (open_path-opened path e filled v)
    ∙ unfold opened in
      ap (λ r. answer json.encode_subnets (with_tables (opened e) r))
        (get_subnets-sorted e.tables v.tables_run)

module _ (json : Codec) (m : Manager) (path : Text) (filled : is_empty path ≡ false)
    (configured : m.settings (codes "db_path") ≡ some path) where
  -- `GetSubnets` through the manager.
  read_back :
      (e : Disk)
      → IsSound e
      → json.decode_subnets (json.encode_subnets (sort_rows by_network (view e.tables.content)))
        ≡ some (sort_rows by_network (view e.tables.content))
      → is_empty (json.encode_subnets (sort_rows by_network (view e.tables.content))) ≡ false
      → (get_subnets json (sqlite3_config json) m e).0
        ≡ ok (sort_rows by_network (view e.tables.content))
  unfolding get_subnets call sqlite3_config dispatch
  read_back e v listed long =
      ap (λ p. received (handle_get p Subnets.get_subnets json.encode_subnets e)) configured
      ∙ ap received (handle_get-listed json path e filled v)
      ∙ rw (long, listed) refl
    where
      received : Response × Disk → Result (List SubnetConfig)
      received r =
          (and_then (λ (resp : Response). lift (or_nil_list json.decode_subnets resp.payload))
            (after_run (written r))).0

  write_runs :
      (s : SubnetConfig) (d : Disk)
      → m.caps.writable ≡ true
      → add_subnet json (sqlite3_config json) m s d
        ≡ forget
            (call json (sqlite3_config json) m action_add_subnet (some (json.encode_subnet s)) d)
  unfolding add_subnet write
  write_runs s d writes = rw writes refl

  add_subnet-Added :
      (s : SubnetConfig) (d : Disk)
      → IsSound d
      → m.caps.writable ≡ true
      → json.decode_subnet (json.encode_subnet s) ≡ some s
      → Added s
          (view d.tables.content)
          (validate_subnet s)
          (any (named s.network) (view d.tables.content))
          (add_subnet json (sqlite3_config json) m s d)
  unfolding call sqlite3_config dispatch subnet_of
  add_subnet-Added s d v writes sent =
      subst
        (Added s (view d.tables.content) (validate_subnet s)
          (any (named s.network) (view d.tables.content)))
        (sym (
          write_runs s d writes ∙ λ i. forget (
            after_run (
              written (
                handle_write (configured i) (checked check_subnet (sent i)) Subnets.insert_subnet
                  json.encode_subnet d)))))
        (handle_write-Added json s d v path (validate_subnet s) filled)

  -- The manager is connected to the SQLite provider, which has granted writes, with a database file
  -- that is sound; JSON reads the subnet and the list back as they were written. Then adding a subnet
  -- through the manager is told to be invalid exactly as validation judges it, fails if the network
  -- is known, and else succeeds; and the list of subnets read afterwards through the manager is,
  -- sorted by network, the list before, with the subnet appended in the last case only.
  pub add_subnet-get_subnets :
      (s : SubnetConfig) (d : Disk)
      → IsSound d
      → m.caps.writable ≡ true
      → json.decode_subnet (json.encode_subnet s) ≡ some s
      → let before = view d.tables.content in
        let known = any (named s.network) before in
        let after = sort_rows by_network (after_add s (validate_subnet s) known before) in
        json.decode_subnets (json.encode_subnets after) ≡ some after
        → is_empty (json.encode_subnets after) ≡ false
        → let (r, d') = add_subnet json (sqlite3_config json) m s d in
          (r ≡ verdict_of (validate_subnet s) known)
          × ((get_subnets json (sqlite3_config json) m d').0 ≡ ok after)
  add_subnet-get_subnets s d v writes sent listed long =
      let d' : Disk = (add_subnet json (sqlite3_config json) m s d).1 in
      let a = add_subnet-Added s d v writes sent in
      let e : sort_rows by_network (view d'.tables.content)
          ≡ sort_rows by_network (
              after_add s (validate_subnet s) (any (named s.network) (view d.tables.content))
                (view d.tables.content)) =
        ap (sort_rows by_network) a.2 in
      (
        a.0,
        read_back d' a.1
              (subst
                (λ (ss : List SubnetConfig). json.decode_subnets (json.encode_subnets ss) ≡ some ss)
                (sym e) listed)
              (subst (λ (ss : List SubnetConfig). is_empty (json.encode_subnets ss) ≡ false) (sym e)
                long)
            ∙ ap ok e,
      )
