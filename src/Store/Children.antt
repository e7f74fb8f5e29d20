-- ===== src/Store/Children.antt =====
-- internal/sqlite3store/store.go: the rows that hold the lists of a subnet, which `writeChildren`
-- writes, `clearChildren` deletes, and `getDynamicRanges` and `getStringList` read in order.
use go_dhcpd.Base.{
  ℕ, suc, Bool, not, ◌&&◌, List, [], ◌∷◌, ◌++◌, map, leb, ◌==◌, if◌then◌else◌, keep, any, sort_rows,
  Text, constraint, ok, err, pure, ◌>>◌,
}
use go_dhcpd.Config.{SubnetConfig, DynamicRange}
use go_dhcpd.Store.Rows.{
  ListTable, same_table, Binding, string_list_bindings, SubnetRow, Child, Content, Query, Statement,
  statement,
}

-- A table of child rows.
pub record Table (A : Type 0) : Type 0 where
  pub rows : Content → List (Child A)
  pub put : Content → List (Child A) → Content

abbrev pub range_table : Table DynamicRange
range_table = record { rows = λ c. c.ranges; put = λ c rs. record c { ranges = rs } }

abbrev pub replace :
    (ListTable → List (Child Text)) → ListTable → List (Child Text) → ListTable → List (Child Text)
replace v t rs u = if same_table t u then rs else v u

abbrev pub list_table : ListTable → Table Text
list_table t = record {
  rows = λ c. c.values t;
  put = λ c rs. record c { values = replace c.values t rs };
}

abbrev pub has_id : ℕ → SubnetRow → Bool
has_id n row = row.id == n

abbrev pub child_of : {A : Type 0} → ℕ → Child A → Bool
child_of n row = row.subnet_id == n

abbrev pub position_le : {A : Type 0} → Child A → Child A → Bool
position_le r s = leb r.position s.position

abbrev pub values_in : {A : Type 0} → List (Child A) → List A
values_in = map (λ row. row.value)

-- `ORDER BY position`, of the rows of one subnet.
unfoldable pub ordered : {A : Type 0} → ℕ → List (Child A) → List A
ordered id rows = values_in (sort_rows position_le (keep (child_of id) rows))

module _ {A : Type 0} (t : Table A) where
  -- `INSERT`, with the check of the foreign key.
  unfoldable pub insert_child : Child A → Statement (Unit {0})
  insert_child row c =
      if c.foreign_keys && not (any (has_id row.subnet_id) c.subnets)
      then (err constraint, c)
      else (ok tt, t.put c (t.rows c ++ (row ∷ [])))

  -- The loop over one list; `i` is its index.
  unfoldable pub insert_children : ℕ → ℕ → List A → Query (Unit {0})
  unfolding insert_child statement
  insert_children id i [] = pure tt
  insert_children id i (v ∷ vs) =
      statement (insert_child (record { subnet_id = id; position = i; value = v }))
      >> insert_children id (suc i) vs

  -- `DELETE FROM ... WHERE subnet_id = ?`
  unfoldable pub delete_children : ℕ → Statement (Unit {0})
  delete_children id c = (ok tt, t.put c (keep (λ row. not (child_of id row)) (t.rows c)))

  -- `SELECT ... WHERE subnet_id = ? ORDER BY position`
  unfoldable pub select_children : ℕ → Query (List A)
  unfolding ordered statement
  select_children id = statement (λ c. (ok (ordered id (t.rows c)), c))

-- `getDynamicRanges`
unfoldable pub get_dynamic_ranges : ℕ → Query (List DynamicRange)
unfolding select_children
get_dynamic_ranges = select_children range_table

-- `getStringList`
unfoldable pub get_string_list : ListTable → ℕ → Query (List Text)
unfolding select_children
get_string_list t = select_children (list_table t)

unfoldable pub write_lists : List Binding → ℕ → SubnetConfig → Query (Unit {0})
unfolding insert_children
write_lists [] id s = pure tt
write_lists (b ∷ bs) id s =
    insert_children (list_table b.table) id 0 (b.get s) >> write_lists bs id s

-- `writeChildren`
unfoldable pub write_children : ℕ → SubnetConfig → Query (Unit {0})
unfolding insert_children write_lists
write_children id s =
    insert_children range_table id 0 s.dynamic_ranges >> write_lists string_list_bindings id s

unfoldable pub clear_lists : List Binding → ℕ → Query (Unit {0})
unfolding delete_children statement
clear_lists [] id = pure tt
clear_lists (b ∷ bs) id = statement (delete_children (list_table b.table) id) >> clear_lists bs id

-- `clearChildren`
unfoldable pub clear_children : ℕ → Query (Unit {0})
unfolding delete_children clear_lists statement
clear_children id =
    statement (delete_children range_table id) >> clear_lists string_list_bindings id
