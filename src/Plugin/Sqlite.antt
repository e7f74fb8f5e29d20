-- ===== src/Plugin/Sqlite.antt =====
-- cmd/plugins/sqlite3-config/main.go: the provider that keeps the configuration in SQLite. Its state
-- is the database file.
use go_dhcpd.Base.{
  Bool, true, [], Option, none, some, if◌then◌else◌, Bytes, Text, codes, is_empty, invalid, Result,
  ok, err, Exec, pure, ◌>>◌,
}
use go_dhcpd.Config.{SubnetConfig, StaticHost, normalize_mac}
use go_dhcpd.Validate.{validate_subnet}
use go_dhcpd.Validate.Mac.{validate_static_host}
use go_dhcpd.Store.Rows.{SqlDb, Query, Faulty}
use go_dhcpd.Store.Schema.{Catalog, open_db}
use go_dhcpd.Store.Subnets.{get_subnets, insert_subnet, update_subnet, delete_subnet}
use go_dhcpd.Store.Hosts.{
  get_static_hosts, insert_static_host, update_static_host, delete_static_host,
}
use go_dhcpd.Plugin.{
  Action, action_capabilities, action_get_subnets, action_get_static_hosts, action_add_subnet,
  action_update_subnet, action_delete_subnet, action_add_static_host, action_update_static_host,
  action_delete_static_host, action_other, Status, status_success, status_error,
  status_validation_error, Request, Response, Capabilities, Codec, Process,
}

-- `opens` says whether SQLite can open the file.
pub record Disk : Type 0 where
  pub opens : Bool
  pub schema : Faulty Catalog
  pub tables : SqlDb

abbrev pub reply : Status → Bytes → Response
reply status payload = record { status = status; payload = payload }

-- The foreign keys are those of the connection.
abbrev pub connected : Disk → Result (Unit {0}) × Faulty Catalog → Result (Unit {0}) × Disk
connected d (ok u, schema) = (
  ok tt,
  record d {
    schema = schema;
    tables = record d.tables {
      content = record d.tables.content { foreign_keys = schema.content.foreign_keys };
    };
  },
)
connected d (err e, schema) = (err e, record d { schema = schema })

-- `openDB`, on the setting `db_path`.
unfoldable pub open_path : Option Text → Exec Disk (Unit {0})
unfolding open_db
open_path none d = (err invalid, d)
open_path (some path) d = connected d (open_db path d.opens d.schema)

abbrev pub with_tables : {A : Type 0} → Disk → Result A × SqlDb → Result A × Disk
with_tables d (r, tables) = (r, record d { tables = tables })

abbrev pub on_tables : {A : Type 0} → Query A → Exec Disk A
on_tables q d = with_tables d (q d.tables)

-- `WriteSuccess` or `WriteError`
abbrev pub answer : {A : Type 0} → (A → Bytes) → Result A × Disk → Response × Disk
answer encode (ok a, d) = (reply status_success (encode a), d)
answer encode (err e, d) = (reply status_error [], d)

-- A handler that reads.
unfoldable pub handle_get :
    {A : Type 0} → Option Text → Query A → (A → Bytes) → Disk → Response × Disk
unfolding open_path
handle_get path q encode d = answer encode ((open_path path >> on_tables q) d)

-- A handler that writes what it decoded and validated, or refuses before it opens the database.
unfoldable pub handle_write :
    {A : Type 0}
    → Option Text
    → Result A
    → (A → Query (Unit {0}))
    → (A → Bytes)
    → Disk
    → Response × Disk
unfolding open_path
handle_write path (err e) q encode d = (reply status_validation_error [], d)
handle_write path (ok a) q encode d =
    answer encode ((open_path path >> on_tables (q a) >> pure a) d)

abbrev pub decoded : {A : Type 0} → (Bytes → Option A) → Option Bytes → Option A
decoded decode none = none
decoded decode (some bytes) = decode bytes

abbrev pub checked : {A B : Type 0} → (A → Result B) → Option A → Result B
checked check none = err invalid
checked check (some a) = check a

abbrev pub check_subnet : SubnetConfig → Result SubnetConfig
check_subnet s = elim (validate_subnet s) [ ok u ↦ ok s | err e ↦ err e ]

abbrev pub check_host : StaticHost → Result StaticHost
check_host h = validate_static_host (record h { mac_address = normalize_mac h.mac_address })

abbrev pub non_empty : Text → Result Text
non_empty t = if is_empty t then err invalid else ok t

abbrev non_empty_mac : Text → Result Text
non_empty_mac t = if is_empty t then err invalid else ok (normalize_mac t)

abbrev pub plugin_name : Text
plugin_name = codes "sqlite3-config"

abbrev pub plugin_version : Text
plugin_version = codes "0.9.0"

abbrev pub own_capabilities : Capabilities
own_capabilities = record { name = plugin_name; version = plugin_version; writable = true }

abbrev pub written : Response × Disk → Option Response × Disk
written (r, d) = (some r, d)

module _ (json : Codec) where
  -- `decodeSubnet`
  unfoldable pub subnet_of : Request → Result SubnetConfig
  subnet_of req = checked check_subnet (decoded json.decode_subnet req.payload)

  -- `decodeStaticHost`
  unfoldable pub host_of : Request → Result StaticHost
  host_of req = checked check_host (decoded json.decode_host req.payload)

  unfoldable pub network_of : Request → Result Text
  network_of req = checked non_empty (decoded json.decode_network req.payload)

  unfoldable pub mac_of : Request → Result Text
  mac_of req = checked non_empty_mac (decoded json.decode_mac req.payload)

  abbrev db_path : Request → Option Text
  db_path req = req.settings (codes "db_path")

  -- The handlers, under their names.
  abbrev handle_capabilities : Request → Disk → Response × Disk
  handle_capabilities req d = (reply status_success (json.encode_capabilities own_capabilities), d)

  abbrev handle_get_subnets : Request → Disk → Response × Disk
  handle_get_subnets req = handle_get (db_path req) get_subnets json.encode_subnets

  abbrev handle_get_static_hosts : Request → Disk → Response × Disk
  handle_get_static_hosts req = handle_get (db_path req) get_static_hosts json.encode_hosts

  abbrev handle_add_subnet : Request → Disk → Response × Disk
  handle_add_subnet req =
      handle_write (db_path req) (subnet_of req) insert_subnet json.encode_subnet

  abbrev handle_update_subnet : Request → Disk → Response × Disk
  handle_update_subnet req =
      handle_write (db_path req) (subnet_of req) update_subnet json.encode_subnet

  abbrev handle_delete_subnet : Request → Disk → Response × Disk
  handle_delete_subnet req =
      handle_write (db_path req) (network_of req) delete_subnet json.encode_network

  abbrev handle_add_static_host : Request → Disk → Response × Disk
  handle_add_static_host req =
      handle_write (db_path req) (host_of req) insert_static_host json.encode_host

  abbrev handle_update_static_host : Request → Disk → Response × Disk
  handle_update_static_host req =
      handle_write (db_path req) (host_of req) update_static_host json.encode_host

  abbrev handle_delete_static_host : Request → Disk → Response × Disk
  handle_delete_static_host req =
      handle_write (db_path req) (mac_of req) delete_static_host json.encode_mac

  -- `main`, on the action of the request.
  unfoldable pub dispatch : Action → Request → Disk → Response × Disk
  unfolding handle_get handle_write subnet_of host_of network_of mac_of
  dispatch action_capabilities req d = handle_capabilities req d
  dispatch action_get_subnets req d = handle_get_subnets req d
  dispatch action_get_static_hosts req d = handle_get_static_hosts req d
  dispatch action_add_subnet req d = handle_add_subnet req d
  dispatch action_update_subnet req d = handle_update_subnet req d
  dispatch action_delete_subnet req d = handle_delete_subnet req d
  dispatch action_add_static_host req d = handle_add_static_host req d
  dispatch action_update_static_host req d = handle_update_static_host req d
  dispatch action_delete_static_host req d = handle_delete_static_host req d
  dispatch (action_other name) req d = (reply status_error [], d)

  unfoldable pub sqlite3_config : Process Disk
  unfolding dispatch
  sqlite3_config req d = written (dispatch req.action req d)
