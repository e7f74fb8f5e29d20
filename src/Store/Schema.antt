-- ===== src/Store/Schema.antt =====
-- internal/sqlite3store/store.go: `OpenDB`, `EnsureSchema` and `migrateSubnetsTable`, on the names of
-- the tables and indexes and of the columns of `subnets`.
use go_dhcpd.Base.{
  Bool, true, not, List, [], ◌∷◌, ◌++◌, if◌then◌else◌, any, Text, codes, text_eq, is_empty,
  constraint, invalid, Result, ok, err, Exec, pure, raise, ◌>>=◌, ◌>>◌,
}
use go_dhcpd.Store.Rows.{
  ListTable, subnet_domain_name_servers, subnet_domain_search, subnet_ntp_servers,
  subnet_time_servers, subnet_smtp_servers, subnet_lpr_servers, subnet_netbios_name_servers,
  subnet_netbios_dd_servers, subnet_routers, Binding, string_list_bindings, Faulty, statement,
}

-- `objects` are the tables and indexes that exist, `columns` the columns of `subnets`.
pub record Catalog : Type 0 where
  pub foreign_keys : Bool
  pub objects : List Text
  pub columns : List Text

abbrev pub Setup : Type 0 → Type 0
Setup = Exec (Faulty Catalog)

abbrev pub has_name : List Text → Text → Bool
has_name names name = any (λ n. text_eq n name) names

abbrev pub subnets_table : Text
subnets_table = codes "subnets"

-- The columns of a `subnets` table that is created now.
abbrev pub subnet_columns : List Text
subnet_columns =
    codes "id"
    ∷ codes "network"
    ∷ codes "netmask"
    ∷ codes "enable_bootp"
    ∷ codes "next_server"
    ∷ codes "server_hostname"
    ∷ codes "boot_filename"
    ∷ codes "netbios_node_type"
    ∷ codes "domain_name"
    ∷ codes "interface_mtu"
    ∷ codes "created_at"
    ∷ codes "updated_at"
    ∷ []

-- `bootpSubnetColumns`
abbrev pub bootp_subnet_columns : List Text
bootp_subnet_columns = codes "next_server" ∷ codes "server_hostname" ∷ codes "boot_filename" ∷ []

-- `CREATE TABLE IF NOT EXISTS subnets`
unfoldable pub create_subnets : Catalog → Result (Unit {0}) × Catalog
create_subnets c =
    if has_name c.objects subnets_table
    then (ok tt, c)
    else (ok tt, record c { objects = c.objects ++ (subnets_table ∷ []); columns = subnet_columns })

-- `CREATE ... IF NOT EXISTS` of another table, or of an index.
unfoldable pub create : Text → Catalog → Result (Unit {0}) × Catalog
create name c =
    if has_name c.objects name
    then (ok tt, c)
    else (ok tt, record c { objects = c.objects ++ (name ∷ []) })

unfoldable pub create_all : List Text → Setup (Unit {0})
unfolding create statement
create_all [] = pure tt
create_all (name ∷ names) = statement (create name) >> create_all names

-- `ALTER TABLE subnets ADD COLUMN`
unfoldable pub add_column : Text → Catalog → Result (Unit {0}) × Catalog
add_column name c =
    if not (has_name c.objects subnets_table)
    then (err constraint, c)
    else if has_name c.columns name
    then (err constraint, c)
    else (ok tt, record c { columns = c.columns ++ (name ∷ []) })

-- The loop over the columns; `existing` are those that were there when it began.
unfoldable pub add_missing : List Text → List Text → Setup (Unit {0})
unfolding add_column statement
add_missing existing [] = pure tt
add_missing existing (name ∷ names) =
    if has_name existing name
    then add_missing existing names
    else (statement (add_column name) >> add_missing existing names)

-- `migrateSubnetsTable`: `PRAGMA table_info(subnets)` lists the columns.
unfoldable pub migrate_subnets_table : Setup (Unit {0})
unfolding add_missing statement
migrate_subnets_table =
    statement (λ c. (ok c.columns, c)) >>= λ existing. add_missing existing bootp_subnet_columns

abbrev pub table_name : ListTable → Text
table_name subnet_domain_name_servers = codes "subnet_domain_name_servers"
table_name subnet_domain_search = codes "subnet_domain_search"
table_name subnet_ntp_servers = codes "subnet_ntp_servers"
table_name subnet_time_servers = codes "subnet_time_servers"
table_name subnet_smtp_servers = codes "subnet_smtp_servers"
table_name subnet_lpr_servers = codes "subnet_lpr_servers"
table_name subnet_netbios_name_servers = codes "subnet_netbios_name_servers"
table_name subnet_netbios_dd_servers = codes "subnet_netbios_dd_servers"
table_name subnet_routers = codes "subnet_routers"

-- The tables and indexes of the first statements.
abbrev pub base_objects : List Text
base_objects =
    codes "subnet_dynamic_ranges"
    ∷ codes "idx_subnet_dynamic_ranges_subnet"
    ∷ codes "static_hosts"
    ∷ []

-- A table with its index, for each list.
abbrev pub list_objects : List Binding → List Text
list_objects [] = []
list_objects (b ∷ bs) =
    table_name b.table ∷ (codes "idx_" ++ table_name b.table ++ codes "_subnet") ∷ list_objects bs

-- `EnsureSchema`
unfoldable pub ensure_schema : Setup (Unit {0})
unfolding create_subnets create_all migrate_subnets_table statement
ensure_schema =
    statement create_subnets
    >> create_all base_objects
    >> migrate_subnets_table
    >> create_all (list_objects string_list_bindings)

-- `OpenDB`; whether SQLite can open the file is up to the file.
unfoldable pub open_db : Text → Bool → Setup (Unit {0})
unfolding ensure_schema statement
open_db path opens =
    if is_empty path
    then raise invalid
    else if not opens
    then raise invalid
    else (statement (λ c. (ok tt, record c { foreign_keys = true })) >> ensure_schema)
