-- ===== src/Store/Lists.antt =====
-- internal/sqlite3store/store.go: what the statements on the child rows leave in the tables.
use mathlib.Core.List.{append_assoc, append-nil}
use mathlib.Core.Path.{fun_ext}
use go_dhcpd.Base.{
  ℕ, suc, true, not, List, [], ◌∷◌, ◌++◌, if◌then◌else◌, keep, any, Text, ok, ◌==◌, ==_iff, ==_refl,
  Bool-cases, inl, inr, ◌≡◌, refl, sym, ap, ◌∙◌, arith,
}
use go_dhcpd.Config.{SubnetConfig}
use go_dhcpd.Store.Rows.{
  ListTable, subnet_domain_name_servers, subnet_domain_search, subnet_ntp_servers,
  subnet_time_servers, subnet_smtp_servers, subnet_lpr_servers, subnet_netbios_name_servers,
  subnet_netbios_dd_servers, subnet_routers, number, same_table, Binding, string_list_bindings,
  Child, Content, SqlDb, statement,
}
use go_dhcpd.Store.Children.{
  Table, range_table, list_table, replace, has_id, child_of, insert_child, insert_children,
  delete_children, write_lists, write_children, clear_lists, clear_children,
}
use go_dhcpd.Store.Effects.{Yields, pure-Yields, >>=-Yields, statement-Yields}

-- A table is read back as it was written, and a write changes neither the subnets nor, when it writes
-- what is there, anything.
pub record IsTable {A : Type 0} (t : Table A) : Type 0 where
  pub rows-put : (c : Content) (rs : List (Child A)) → t.rows (t.put c rs) ≡ rs
  pub put-put : (c : Content) (rs ss : List (Child A)) → t.put (t.put c rs) ss ≡ t.put c ss
  pub put-rows : (c : Content) → t.put c (t.rows c) ≡ c
  pub subnets-put : (c : Content) (rs : List (Child A)) → (t.put c rs).subnets ≡ c.subnets

pub range_table-IsTable : IsTable range_table
range_table-IsTable = record {
  rows-put = λ c rs. refl;
  put-put = λ c rs ss. refl;
  put-rows = λ c. refl;
  subnets-put = λ c rs. refl;
}

same_table_refl : (t : ListTable) → same_table t t ≡ true
same_table_refl t = ==_refl _

abbrev named : ℕ → ListTable
named n =
    if n == 0
    then subnet_domain_name_servers
    else if n == 1
    then subnet_domain_search
    else if n == 2
    then subnet_ntp_servers
    else if n == 3
    then subnet_time_servers
    else if n == 4
    then subnet_smtp_servers
    else if n == 5
    then subnet_lpr_servers
    else if n == 6
    then subnet_netbios_name_servers
    else if n == 7
    then subnet_netbios_dd_servers
    else subnet_routers

named-number : (t : ListTable) → named (number t) ≡ t
named-number subnet_domain_name_servers = refl
named-number subnet_domain_search = refl
named-number subnet_ntp_servers = refl
named-number subnet_time_servers = refl
named-number subnet_smtp_servers = refl
named-number subnet_lpr_servers = refl
named-number subnet_netbios_name_servers = refl
named-number subnet_netbios_dd_servers = refl
named-number subnet_routers = refl

same_table_eq : (t u : ListTable) → same_table t u ≡ true → t ≡ u
same_table_eq t u h =
    sym (named-number t) ∙ ap named ((==_iff (number t) (number u)).0 h) ∙ named-number u

replace-replace :
    (v : ListTable → List (Child Text)) (t : ListTable) (rs ss : List (Child Text))
    → replace (replace v t rs) t ss ≡ replace v t ss
replace-replace v t rs ss = fun_ext λ u. ground arith

replace_same : (v : ListTable → List (Child Text)) (t : ListTable) → replace v t (v t) ≡ v
replace_same v t = fun_ext λ u. elim (Bool-cases (same_table t u)) [
  | inl e ↦ rw e (ap v (same_table_eq t u e))
  | inr e ↦ rw e refl
]

pub list_table-IsTable : (t : ListTable) → IsTable (list_table t)
list_table-IsTable t = record {
  rows-put = λ c rs. rw (same_table_refl t);
  put-put = λ c rs ss. λ i. record c { values = replace-replace c.values t rs ss i };
  put-rows = λ c. λ i. record c { values = replace_same c.values t i };
  subnets-put = λ c rs. refl;
}

-- The rows that the loop over one list inserts.
unfoldable pub numbered : {A : Type 0} → ℕ → ℕ → List A → List (Child A)
numbered id i [] = []
numbered id i (v ∷ vs) = record { subnet_id = id; position = i; value = v } ∷ numbered id (suc i) vs

module _ {A : Type 0} (t : Table A) where
  unfoldable pub added : ℕ → ℕ → List A → Content → Content
  unfolding numbered
  added id i vs c = t.put c (t.rows c ++ numbered id i vs)

  unfoldable pub cleared : ℕ → Content → Content
  cleared id c = t.put c (keep (λ row. not (child_of id row)) (t.rows c))

subnets-added :
    {A : Type 0} (t : Table A) (laws : IsTable t) (id i : ℕ) (vs : List A) (c : Content)
    → (added t id i vs c).subnets ≡ c.subnets
unfolding added
subnets-added t laws id i vs c = laws.subnets-put c _

module _ (H : Type 0) {A : Type 0} (t : Table A) (laws : IsTable t) (id : ℕ) where
  insert_child_lem :
      (row : Child A) (c : Content)
      → any (has_id row.subnet_id) c.subnets ≡ true
      → insert_child t row c ≡ (ok tt, t.put c (t.rows c ++ (row ∷ [])))
  unfolding insert_child
  insert_child_lem row c parent = elim (Bool-cases c.foreign_keys) [
    | inl on ↦ ground arith
    | inr off ↦ ground arith
  ]

  added_nil : (i : ℕ) (c : Content) → added t id i [] c ≡ c
  unfolding added numbered
  added_nil i c = ap (t.put c) (append-nil (t.rows c)) ∙ laws.put-rows c

  added_cons :
      (i : ℕ) (v : A) (vs : List A) (c : Content)
      → added t id
          (suc i)
          vs
          (t.put c (t.rows c ++ (record { subnet_id = id; position = i; value = v } ∷ [])))
        ≡ added t id i (v ∷ vs) c
  unfolding added numbered
  added_cons i v vs c = simp (laws.rows-put, laws.put-put, append_assoc)

  pub insert_children-Yields :
      (i : ℕ) (vs : List A) (c : Content) (db : SqlDb)
      → any (has_id id) c.subnets ≡ true
      → db.content ≡ c
      → (H → db.faults ≡ [])
      → Yields H tt (added t id i vs c) (insert_children t id i vs db)
  unfolding insert_children
  insert_children-Yields i [] c db parent e h =
      pure-Yields H tt (added t id i [] c) db (e ∙ sym (added_nil i c)) h
  insert_children-Yields i (v ∷ vs) c db parent e h =
      let row : Child A = record { subnet_id = id; position = i; value = v } in
      let d : Content = t.put c (t.rows c ++ (row ∷ [])) in
      rw (← added_cons i v vs c) (
        >>=-Yields H tt tt d _ (statement (insert_child t row))
          (λ _. insert_children t id (suc i) vs) db
          (statement-Yields H tt c d (insert_child t row) db e h (insert_child_lem row c parent))
          (λ db'.
            insert_children-Yields (suc i) vs d db'
              (ap (any (has_id id)) (laws.subnets-put c (t.rows c ++ (row ∷ []))) ∙ parent)))

-- The tables after `writeChildren` and `clearChildren`.
unfoldable pub wrote_lists : List Binding → ℕ → SubnetConfig → Content → Content
unfolding added
wrote_lists [] id s c = c
wrote_lists (b ∷ bs) id s c = wrote_lists bs id s (added (list_table b.table) id 0 (b.get s) c)

unfoldable pub wrote : ℕ → SubnetConfig → Content → Content
unfolding added wrote_lists
wrote id s c = wrote_lists string_list_bindings id s (added range_table id 0 s.dynamic_ranges c)

unfoldable pub cleared_lists : List Binding → ℕ → Content → Content
unfolding cleared
cleared_lists [] id c = c
cleared_lists (b ∷ bs) id c = cleared_lists bs id (cleared (list_table b.table) id c)

unfoldable pub emptied : ℕ → Content → Content
unfolding cleared cleared_lists
emptied id c = cleared_lists string_list_bindings id (cleared range_table id c)

module _ (H : Type 0) (id : ℕ) where
  write_lists-Yields :
      (bs : List Binding) (s : SubnetConfig) (c : Content) (db : SqlDb)
      → any (has_id id) c.subnets ≡ true
      → db.content ≡ c
      → (H → db.faults ≡ [])
      → Yields H tt (wrote_lists bs id s c) (write_lists bs id s db)
  unfolding write_lists wrote_lists
  write_lists-Yields [] s c db parent e h = pure-Yields H tt c db e h
  write_lists-Yields (b ∷ bs) s c db parent e h =
      let t : Table Text = list_table b.table in
      let laws = list_table-IsTable b.table in
      let d : Content = added t id 0 (b.get s) c in
      >>=-Yields H tt tt d _ (insert_children t id 0 (b.get s)) (λ _. write_lists bs id s) db
        (insert_children-Yields H t laws id 0 (b.get s) c db parent e h)
        (λ db'.
          write_lists-Yields bs s d db'
            (ap (any (has_id id)) (subnets-added t laws id 0 (b.get s) c) ∙ parent))

  pub write_children-Yields :
      (s : SubnetConfig) (c : Content) (db : SqlDb)
      → any (has_id id) c.subnets ≡ true
      → db.content ≡ c
      → (H → db.faults ≡ [])
      → Yields H tt (wrote id s c) (write_children id s db)
  unfolding write_children wrote
  write_children-Yields s c db parent e h =
      let d : Content = added range_table id 0 s.dynamic_ranges c in
      >>=-Yields H tt tt d _ (insert_children range_table id 0 s.dynamic_ranges)
        (λ _. write_lists string_list_bindings id s) db
        (insert_children-Yields H range_table range_table-IsTable id 0 s.dynamic_ranges c db parent
          e h)
        (λ db'. write_lists-Yields string_list_bindings s d db' (
          ap (any (has_id id))
            (subnets-added range_table range_table-IsTable id 0 s.dynamic_ranges c)
          ∙ parent))

  clear_lists-Yields :
      (bs : List Binding) (c : Content) (db : SqlDb)
      → db.content ≡ c
      → (H → db.faults ≡ [])
      → Yields H tt (cleared_lists bs id c) (clear_lists bs id db)
  unfolding clear_lists cleared_lists delete_children cleared
  clear_lists-Yields [] c db e h = pure-Yields H tt c db e h
  clear_lists-Yields (b ∷ bs) c db e h =
      let t : Table Text = list_table b.table in
      >>=-Yields H tt tt (cleared t id c) _ (statement (delete_children t id))
        (λ _. clear_lists bs id) db (statement-Yields H tt c _ (delete_children t id) db e h refl)
        (clear_lists-Yields bs (cleared t id c))

  pub clear_children-Yields :
      (c : Content) (db : SqlDb)
      → db.content ≡ c
      → (H → db.faults ≡ [])
      → Yields H tt (emptied id c) (clear_children id db)
  unfolding clear_children emptied delete_children cleared
  clear_children-Yields c db e h =
      >>=-Yields H tt tt (cleared range_table id c) _ (statement (delete_children range_table id))
        (λ _. clear_lists string_list_bindings id) db
        (statement-Yields H tt c _ (delete_children range_table id) db e h refl)
        (clear_lists-Yields string_list_bindings (cleared range_table id c))
