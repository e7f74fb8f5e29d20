-- ===== src/Store/Subnets.antt =====
-- internal/sqlite3store/store.go: `InsertSubnet`, `UpdateSubnet`, `DeleteSubnet` and `GetSubnets`.
use go_dhcpd.Base.{
  ℕ, ◌+◌, Bool, true, false, not, ◌&&◌, List, [], ◌∷◌, ◌++◌, map, Option, none, some, ◌==◌,
  if◌then◌else◌, length, keep, any, sort_rows, Text, text_eq, text_le, ℤ, pos, negsuc, constraint,
  not_found, ok, err, pure, raise, ◌>>=◌, ◌>>◌,
}
use go_dhcpd.Config.{SubnetConfig}
use go_dhcpd.Store.Rows.{
  Binding, string_list_bindings, SubnetRow, Child, Content, Query, Statement, statement,
  transaction,
}
use go_dhcpd.Store.Children.{
  has_id, get_dynamic_ranges, get_string_list, write_children, clear_children,
}

-- `boolToInt`, and the test for zero that reads it back.
abbrev pub bool_to_int : Bool → ℤ
bool_to_int true = pos 1
bool_to_int false = pos 0

abbrev pub is_nonzero : ℤ → Bool
is_nonzero (pos n) = not (n == 0)
is_nonzero (negsuc n) = true

-- `nullableString`, and the test of `Valid` that reads it back.
abbrev pub nullable_string : Text → Option Text
nullable_string [] = none
nullable_string (c ∷ s) = some (c ∷ s)

abbrev pub string_or_empty : Option Text → Text
string_or_empty none = []
string_or_empty (some s) = s

-- `nullableInt`: nil and NULL are both `none`.
abbrev pub nullable_int : Option ℤ → Option ℤ
nullable_int none = none
nullable_int (some n) = some n

abbrev pub has_network : Text → SubnetRow → Bool
has_network network row = text_eq row.network network

-- The columns that INSERT and UPDATE write.
abbrev pub set_columns : SubnetConfig → SubnetRow → SubnetRow
set_columns s row = record row {
  netmask = s.netmask;
  enable_bootp = bool_to_int s.enable_bootp;
  next_server = nullable_string s.next_server;
  server_hostname = nullable_string s.server_hostname;
  boot_filename = nullable_string s.boot_filename;
  netbios_node_type = nullable_int s.netbios_node_type;
  domain_name = nullable_string s.domain_name;
  interface_mtu = nullable_int s.interface_mtu;
}

abbrev pub new_row : ℕ → SubnetConfig → SubnetRow
new_row id s = record {
  id = id;
  network = s.network;
  netmask = s.netmask;
  enable_bootp = bool_to_int s.enable_bootp;
  next_server = nullable_string s.next_server;
  server_hostname = nullable_string s.server_hostname;
  boot_filename = nullable_string s.boot_filename;
  netbios_node_type = nullable_int s.netbios_node_type;
  domain_name = nullable_string s.domain_name;
  interface_mtu = nullable_int s.interface_mtu;
}

-- `INSERT INTO subnets`, with `LastInsertId`: the network is UNIQUE.
unfoldable pub insert_row_of : SubnetConfig → Statement ℕ
insert_row_of s c = if any (has_network s.network) c.subnets then (err constraint, c) else (
  ok c.next_subnet,
  record c {
    subnets = c.subnets ++ (new_row c.next_subnet s ∷ []);
    next_subnet = c.next_subnet + 1;
  },
)

-- `InsertSubnet`
unfoldable pub insert_subnet : SubnetConfig → Query (Unit {0})
unfolding insert_row_of write_children statement transaction
insert_subnet s = transaction do subnet_id ← statement (insert_row_of s); write_children subnet_id s

unfoldable pub first_id : Text → List SubnetRow → Option ℕ
first_id network [] = none
first_id network (row ∷ rows) =
    if has_network network row then some row.id else first_id network rows

-- `SELECT id FROM subnets WHERE network = ?`; no row is `ok none`.
unfoldable pub find_id : Text → Statement (Option ℕ)
unfolding first_id
find_id network c = (ok (first_id network c.subnets), c)

-- `UPDATE subnets SET ... WHERE id = ?`
unfoldable pub update_row_of : ℕ → SubnetConfig → Statement (Unit {0})
update_row_of id s c = (
  ok tt,
  record c { subnets = map (λ row. if has_id id row then set_columns s row else row) c.subnets },
)

-- What follows the SELECT of `UpdateSubnet`.
unfoldable pub update_found : SubnetConfig → Option ℕ → Query (Unit {0})
unfolding update_row_of write_children clear_children statement
update_found s none = raise not_found
update_found s (some id) = do statement (update_row_of id s); clear_children id; write_children id s

-- `UpdateSubnet`
unfoldable pub update_subnet : SubnetConfig → Query (Unit {0})
unfolding find_id update_found statement transaction
update_subnet s = transaction do found ← statement (find_id s.network); update_found s found

-- A child row of a deleted subnet: ON DELETE CASCADE.
unfoldable pub stays : {A : Type 0} → Text → Content → Child A → Bool
stays network c row =
    not (c.foreign_keys && any (λ r. has_network network r && has_id row.subnet_id r) c.subnets)

-- `DELETE FROM subnets WHERE network = ?`: the number of rows deleted.
unfoldable pub delete_rows : Text → Statement ℕ
unfolding stays
delete_rows network c = (
  ok (length (keep (has_network network) c.subnets)),
  record c {
    subnets = keep (λ r. not (has_network network r)) c.subnets;
    ranges = keep (stays network c) c.ranges;
    values = λ t. keep (stays network c) (c.values t);
  },
)

unfoldable pub require_rows : ℕ → Query (Unit {0})
require_rows n = if n == 0 then raise not_found else pure tt

-- `DeleteSubnet`
unfoldable pub delete_subnet : Text → Query (Unit {0})
unfolding delete_rows require_rows statement
delete_subnet network = statement (delete_rows network) >>= require_rows

-- `rows.Scan`, into a `SubnetConfig` whose slices are still nil.
abbrev pub scan : SubnetRow → SubnetConfig
scan row = record {
  network = row.network;
  netmask = row.netmask;
  dynamic_ranges = [];
  enable_bootp = is_nonzero row.enable_bootp;
  next_server = string_or_empty row.next_server;
  server_hostname = string_or_empty row.server_hostname;
  boot_filename = string_or_empty row.boot_filename;
  netbios_node_type = row.netbios_node_type;
  domain_name_servers = [];
  domain_name = string_or_empty row.domain_name;
  domain_search = [];
  interface_mtu = row.interface_mtu;
  ntp_servers = [];
  time_servers = [];
  smtp_servers = [];
  lpr_servers = [];
  netbios_name_servers = [];
  netbios_dd_servers = [];
  routers = [];
}

-- The loop over the bindings.
unfoldable pub get_lists : List Binding → ℕ → SubnetConfig → Query SubnetConfig
unfolding get_string_list
get_lists [] id s = pure s
get_lists (b ∷ bs) id s = do values ← get_string_list b.table id; get_lists bs id (b.set s values)

unfoldable pub load_subnet : SubnetRow → Query SubnetConfig
unfolding get_dynamic_ranges get_lists
load_subnet row = do
  ranges ← get_dynamic_ranges row.id
  get_lists string_list_bindings row.id (record (scan row) { dynamic_ranges = ranges })

unfoldable pub load_subnets : List SubnetRow → Query (List SubnetConfig)
unfolding load_subnet
load_subnets [] = pure []
load_subnets (row ∷ rows) = do s ← load_subnet row; rest ← load_subnets rows; pure (s ∷ rest)

abbrev pub network_le : SubnetRow → SubnetRow → Bool
network_le r s = text_le r.network s.network

-- `GetSubnets`: the rows are ordered by network.
unfoldable pub get_subnets : Query (List SubnetConfig)
unfolding load_subnets statement
get_subnets = statement (λ c. (ok (sort_rows network_le c.subnets), c)) >>= load_subnets
