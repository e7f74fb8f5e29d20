-- ===== src/Store/Wrote.antt =====
-- internal/sqlite3store/store.go: which subnets the tables stand for after `writeChildren` and
-- `clearChildren`.
use mathlib.Core.Path.{fun_ext}
use go_dhcpd.Base.{
  ℕ, Bool, true, false, not, [], ◌∷◌, ◌++◌, Option, none, some, ◌==◌, keep, Text, ℤ, ◌≡◌, refl, ap,
  ◌∙◌,
}
use go_dhcpd.Config.{SubnetConfig}
use go_dhcpd.Store.Rows.{
  ListTable, subnet_domain_name_servers, subnet_domain_search, subnet_ntp_servers,
  subnet_time_servers, subnet_smtp_servers, subnet_lpr_servers, subnet_netbios_name_servers,
  subnet_netbios_dd_servers, subnet_routers, SubnetRow, Content,
}
use go_dhcpd.Store.Children.{child_of, ordered}
use go_dhcpd.Store.Subnets.{
  bool_to_int, is_nonzero, nullable_string, string_or_empty, nullable_int, set_columns,
}
use go_dhcpd.Store.Lists.{numbered, wrote, emptied}
use go_dhcpd.Store.Directory.{list_of, assembled, loaded}
use go_dhcpd.Store.Ordered.{
  ordered-numbered, ordered-eq, ordered-append_other, keep-delete_other, keep-delete_own,
}

module _ (id : ℕ) (s : SubnetConfig) (c : Content) where
  -- `writeChildren` appends to each table the list that belongs there, and touches nothing else.
  pub wrote-values :
      (t : ListTable) → (wrote id s c).values t ≡ c.values t ++ numbered id 0 (list_of s t)
  unfolding wrote
  wrote-values subnet_domain_name_servers = refl
  wrote-values subnet_domain_search = refl
  wrote-values subnet_ntp_servers = refl
  wrote-values subnet_time_servers = refl
  wrote-values subnet_smtp_servers = refl
  wrote-values subnet_lpr_servers = refl
  wrote-values subnet_netbios_name_servers = refl
  wrote-values subnet_netbios_dd_servers = refl
  wrote-values subnet_routers = refl

  pub wrote-rest :
      ((wrote id s c).ranges ≡ c.ranges ++ numbered id 0 s.dynamic_ranges)
      × ((wrote id s c).subnets ≡ c.subnets)
      × ((wrote id s c).next_subnet ≡ c.next_subnet)
      × ((wrote id s c).foreign_keys ≡ c.foreign_keys)
  unfolding wrote
  wrote-rest = (refl, refl, refl, refl)

module _ (id : ℕ) (c : Content) where
  -- `clearChildren` deletes the rows of the subnet from each table.
  pub emptied-values :
      (t : ListTable) → (emptied id c).values t ≡ keep (λ row. not (child_of id row)) (c.values t)
  unfolding emptied
  emptied-values subnet_domain_name_servers = refl
  emptied-values subnet_domain_search = refl
  emptied-values subnet_ntp_servers = refl
  emptied-values subnet_time_servers = refl
  emptied-values subnet_smtp_servers = refl
  emptied-values subnet_lpr_servers = refl
  emptied-values subnet_netbios_name_servers = refl
  emptied-values subnet_netbios_dd_servers = refl
  emptied-values subnet_routers = refl

  pub emptied-rest :
      ((emptied id c).ranges ≡ keep (λ row. not (child_of id row)) c.ranges)
      × ((emptied id c).subnets ≡ c.subnets)
      × ((emptied id c).next_subnet ≡ c.next_subnet)
      × ((emptied id c).foreign_keys ≡ c.foreign_keys)
  unfolding emptied
  emptied-rest = (refl, refl, refl, refl)

-- No child row belongs to the subnet.
pub record Childless (id : ℕ) (c : Content) : Type 0 where
  pub no_ranges : keep (child_of id) c.ranges ≡ []
  pub no_values : (t : ListTable) → keep (child_of id) (c.values t) ≡ []

pub emptied-Childless : (id : ℕ) (c : Content) → Childless id (emptied id c)
emptied-Childless id c = record {
  no_ranges = ap (keep (child_of id)) (emptied-rest id c).0 ∙ keep-delete_own id c.ranges;
  no_values =
      λ t. ap (keep (child_of id)) (emptied-values id c t) ∙ keep-delete_own id (c.values t);
}

is_nonzero-bool_to_int : (b : Bool) → is_nonzero (bool_to_int b) ≡ b
is_nonzero-bool_to_int true = refl
is_nonzero-bool_to_int false = refl

pub string_or_empty-nullable_string : (s : Text) → string_or_empty (nullable_string s) ≡ s
string_or_empty-nullable_string [] = refl
string_or_empty-nullable_string (x ∷ s) = refl

nullable_int_lem : (n : Option ℤ) → nullable_int n ≡ n
nullable_int_lem none = refl
nullable_int_lem (some n) = refl

-- The columns of a row, and the lists, are the subnet that was stored.
assembled_stored :
    (row : SubnetRow) (s : SubnetConfig)
    → row.network ≡ s.network
    → assembled (set_columns s row) s.dynamic_ranges (list_of s) ≡ s
assembled_stored row s h i = record s {
  network = h i;
  enable_bootp = is_nonzero-bool_to_int s.enable_bootp i;
  next_server = string_or_empty-nullable_string s.next_server i;
  server_hostname = string_or_empty-nullable_string s.server_hostname i;
  boot_filename = string_or_empty-nullable_string s.boot_filename i;
  netbios_node_type = nullable_int_lem s.netbios_node_type i;
  domain_name = string_or_empty-nullable_string s.domain_name i;
  interface_mtu = nullable_int_lem s.interface_mtu i;
}

loaded-eq :
    (c d : Content) (row : SubnetRow)
    → ordered row.id c.ranges ≡ ordered row.id d.ranges
    → ((t : ListTable) → ordered row.id (c.values t) ≡ ordered row.id (d.values t))
    → loaded c row ≡ loaded d row
unfolding loaded
loaded-eq c d row h k = λ i. assembled row (h i) (fun_ext k i)

-- The subnet that was written is read back, every field and every list of it.
pub loaded-wrote :
    (row : SubnetRow) (s : SubnetConfig) (c : Content)
    → row.network ≡ s.network
    → Childless row.id c
    → loaded (wrote row.id s c) (set_columns s row) ≡ s
unfolding loaded
loaded-wrote row s c h alone =
    (λ i. assembled (set_columns s row) (ranges i) (fun_ext lists i)) ∙ assembled_stored row s h
  where
    ranges : ordered row.id (wrote row.id s c).ranges ≡ s.dynamic_ranges
    ranges =
        ap (ordered row.id) (wrote-rest row.id s c).0
        ∙ ordered-numbered row.id c.ranges s.dynamic_ranges alone.no_ranges

    lists : (t : ListTable) → ordered row.id ((wrote row.id s c).values t) ≡ list_of s t
    lists t =
        ap (ordered row.id) (wrote-values row.id s c t)
        ∙ ordered-numbered row.id (c.values t) (list_of s t) (alone.no_values t)

-- Another subnet is read as before.
pub loaded-wrote_other :
    (id : ℕ) (s : SubnetConfig) (c : Content) (row : SubnetRow)
    → (id == row.id) ≡ false
    → loaded (wrote id s c) row ≡ loaded c row
loaded-wrote_other id s c row h =
    loaded-eq (wrote id s c) c row
      (ap (ordered row.id) (wrote-rest id s c).0
        ∙ ordered-append_other row.id id c.ranges s.dynamic_ranges h)
      (λ t.
        ap (ordered row.id) (wrote-values id s c t)
        ∙ ordered-append_other row.id id (c.values t) (list_of s t) h)

pub loaded-emptied_other :
    (id : ℕ) (c : Content) (row : SubnetRow)
    → (id == row.id) ≡ false
    → loaded (emptied id c) row ≡ loaded c row
loaded-emptied_other id c row h =
    loaded-eq (emptied id c) c row
      (ap (ordered row.id) (emptied-rest id c).0
        ∙ ordered-eq row.id _ _ (keep-delete_other row.id id c.ranges h))
      (λ t.
        ap (ordered row.id) (emptied-values id c t)
        ∙ ordered-eq row.id _ _ (keep-delete_other row.id id (c.values t) h))

-- Tables that differ in the rows of subnets only, or in rows that `keep` drops for other subnets.
pub loaded-keep :
    (c d : Content) (row : SubnetRow)
    → keep (child_of row.id) c.ranges ≡ keep (child_of row.id) d.ranges
    → ((t : ListTable) → keep (child_of row.id) (c.values t) ≡ keep (child_of row.id) (d.values t))
    → loaded c row ≡ loaded d row
loaded-keep c d row h k =
    loaded-eq c d row (ordered-eq row.id _ _ h) (λ t. ordered-eq row.id _ _ (k t))
