-- ===== src/Store/Directory.antt =====
-- internal/sqlite3store/store.go: the subnets that the tables stand for, the changes of that list that
-- the three operations are meant to make, and when the tables are well-formed.
use go_dhcpd.Base.{
  Bool, true, false, not, List, [], ◌∷◌, ◌++◌, map, Option, none, some, if◌then◌else◌, keep, any,
  All, Text, text_eq, Result, ok, err, ◌≡◌, ◌<◌,
}
use go_dhcpd.Config.{SubnetConfig, DynamicRange}
use go_dhcpd.Store.Rows.{
  ListTable, subnet_domain_name_servers, subnet_domain_search, subnet_ntp_servers,
  subnet_time_servers, subnet_smtp_servers, subnet_lpr_servers, subnet_netbios_name_servers,
  subnet_netbios_dd_servers, subnet_routers, SubnetRow, Child, Content, SqlDb, Query,
}
use go_dhcpd.Store.Children.{has_id, ordered}
use go_dhcpd.Store.Subnets.{
  is_nonzero, string_or_empty, has_network, insert_subnet, update_subnet, delete_subnet,
}

-- The list of a subnet that a table holds.
abbrev pub list_of : SubnetConfig → ListTable → List Text
list_of s subnet_domain_name_servers = s.domain_name_servers
list_of s subnet_domain_search = s.domain_search
list_of s subnet_ntp_servers = s.ntp_servers
list_of s subnet_time_servers = s.time_servers
list_of s subnet_smtp_servers = s.smtp_servers
list_of s subnet_lpr_servers = s.lpr_servers
list_of s subnet_netbios_name_servers = s.netbios_name_servers
list_of s subnet_netbios_dd_servers = s.netbios_dd_servers
list_of s subnet_routers = s.routers

abbrev pub assembled : SubnetRow → List DynamicRange → (ListTable → List Text) → SubnetConfig
assembled row ranges lists = record {
  network = row.network;
  netmask = row.netmask;
  dynamic_ranges = ranges;
  enable_bootp = is_nonzero row.enable_bootp;
  next_server = string_or_empty row.next_server;
  server_hostname = string_or_empty row.server_hostname;
  boot_filename = string_or_empty row.boot_filename;
  netbios_node_type = row.netbios_node_type;
  domain_name_servers = lists subnet_domain_name_servers;
  domain_name = string_or_empty row.domain_name;
  domain_search = lists subnet_domain_search;
  interface_mtu = row.interface_mtu;
  ntp_servers = lists subnet_ntp_servers;
  time_servers = lists subnet_time_servers;
  smtp_servers = lists subnet_smtp_servers;
  lpr_servers = lists subnet_lpr_servers;
  netbios_name_servers = lists subnet_netbios_name_servers;
  netbios_dd_servers = lists subnet_netbios_dd_servers;
  routers = lists subnet_routers;
}

unfoldable pub loaded : Content → SubnetRow → SubnetConfig
loaded c row = assembled row (ordered row.id c.ranges) (λ t. ordered row.id (c.values t))

-- The subnets that the tables stand for, in the order of their insertion.
abbrev pub view : Content → List SubnetConfig
view c = map (loaded c) c.subnets

abbrev pub named : Text → SubnetConfig → Bool
named network s = text_eq s.network network

pub data Change : Type 0 where
  insert : SubnetConfig → Change
  update : SubnetConfig → Change
  delete : Text → Change

-- What a change is meant to do; `none` is a refusal.
unfoldable pub apply : Change → List SubnetConfig → Option (List SubnetConfig)
apply (insert s) d = if any (named s.network) d then none else some (d ++ (s ∷ []))
apply (update s) d =
    if any (named s.network) d
    then some (map (λ old. if named s.network old then s else old) d)
    else none
apply (delete network) d =
    if any (named network) d then some (keep (λ s. not (named network s)) d) else none

unfoldable pub perform : Change → Query (Unit {0})
unfolding insert_subnet update_subnet delete_subnet
perform (insert s) = insert_subnet s
perform (update s) = update_subnet s
perform (delete network) = delete_subnet network

abbrev pub Differs : SubnetRow → SubnetRow → Type 0
Differs r s = (has_id r.id s ≡ false) × (has_network r.network s ≡ false)

-- No two rows share an id or a network.
abbrev pub Apart : List SubnetRow → Type 0
Apart [] = Unit {0}
Apart (r ∷ rows) = All (Differs r) rows × Apart rows

-- The subnet of a child row is there.
abbrev pub Owned : {A : Type 0} → List SubnetRow → Child A → Type 0
Owned rows child = any (has_id child.subnet_id) rows ≡ true

-- With the foreign keys on: UNIQUE keys, ids that the sequence has passed, and no child row whose
-- subnet is gone.
pub record IsValid (c : Content) : Type 0 where
  pub enforced : c.foreign_keys ≡ true
  pub apart : Apart c.subnets
  pub ids : All (λ r. r.id < c.next_subnet) c.subnets
  pub ranges_owned : All (Owned c.subnets) c.ranges
  pub values_owned : (t : ListTable) → All (Owned c.subnets) (c.values t)

abbrev pub Conforms :
    Type 0 → Option (List SubnetConfig) → Content → Result (Unit {0}) × SqlDb → Type 0
Conforms H spec before (ok u, db) = (spec ≡ some (view db.content)) × (H → db.faults ≡ [])
Conforms H spec before (err e, db) =
    (view db.content ≡ view before) × (H → spec ≡ none) × (H → db.faults ≡ [])
