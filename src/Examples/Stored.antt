-- ===== src/Examples/Stored.antt =====
-- Examples of the configuration in SQLite and of its provider.
use go_dhcpd.Base.{
  ◌≡◌, refl, sym, ap, true, false, not, any, List, [], ◌∷◌, ◌++◌, Option, none, some, sort_rows,
  Text, text_eq, if◌then◌else◌, codes, ok,
}
use go_dhcpd.Net.{to4}
use go_dhcpd.Net.Print.{parse_ip}
use go_dhcpd.Config.{SubnetConfig, StaticHost}
use go_dhcpd.Validate.{is_ipv4, validate_ipv4_list, validate_ranges, validate_subnet}
use go_dhcpd.Validate.Mac.{validate_static_host}
use go_dhcpd.Validate.Canonical.{IsCanonical, validate_static_host-IsCanonical}
use go_dhcpd.Store.Rows.{Content, SqlDb, Faulty}
use go_dhcpd.Store.Directory.{Change, apply, perform, view, IsValid}
use go_dhcpd.Store.Changes.{
  AllOrNothing, perform-AllOrNothing, perform_all, apply_all, get_subnets-perform_all,
}
use go_dhcpd.Store.Subnets
use go_dhcpd.Store.Reads.{by_network}
use go_dhcpd.Store.Book.{HostChange, perform_host, Entered, perform_host-Entered}
use go_dhcpd.Store.Schema.{Catalog, has_name, subnets_table, bootp_subnet_columns, ensure_schema}
use go_dhcpd.Store.Names.{missing}
use go_dhcpd.Store.Upgrade.{IsReady, ensure_schema-Upgraded}
use go_dhcpd.Plugin
use go_dhcpd.Plugin.{Codec, Manager, FileInfo, Capabilities}
use go_dhcpd.Plugin.Sqlite.{Disk, sqlite3_config, own_capabilities}
use go_dhcpd.Plugin.Stored.{IsSound, after_add, verdict_of, add_subnet-get_subnets}
use go_dhcpd.Migration.{migrate_subnets}
use go_dhcpd.Migration.Carried.{carried, invalid_subnet, Copied, migrate_subnets-Copied}
use go_dhcpd.Examples.{office, printer}

abbrev nothing_stored : Content
nothing_stored = record {
  foreign_keys = true;
  subnets = [];
  next_subnet = 1;
  ranges = [];
  values = λ t. [];
  hosts = [];
  next_host = 1;
}

nothing_stored-IsValid : IsValid nothing_stored
nothing_stored-IsValid = record {
  enforced = refl;
  apart = tt;
  ids = tt;
  ranges_owned = tt;
  values_owned = λ t. tt;
}

abbrev new_db : SqlDb
new_db = record { content = nothing_stored; faults = [] }

-- The third statement of the transaction fails.
abbrev failing_db : SqlDb
failing_db = record { content = nothing_stored; faults = false ∷ false ∷ true ∷ [] }

perform-AllOrNothing_example :
    AllOrNothing
      (apply (Change.insert office) (view nothing_stored))
      nothing_stored
      (perform (Change.insert office) failing_db)
    × IsValid (perform (Change.insert office) failing_db).1.content
perform-AllOrNothing_example =
    perform-AllOrNothing (Change.insert office) failing_db nothing_stored-IsValid

abbrev moved : SubnetConfig
moved = record office { netmask = codes "255.255.0.0" }

abbrev changes : List Change
changes = Change.insert office ∷ Change.update moved ∷ Change.delete (codes "10.9.0.0") ∷ []

get_subnets-perform_all_example : Subnets.get_subnets (perform_all changes new_db) ≡ (
  ok (sort_rows by_network (apply_all changes (view nothing_stored))),
  perform_all changes new_db,
)
get_subnets-perform_all_example = get_subnets-perform_all changes new_db nothing_stored-IsValid refl

-- The refused deletion changes nothing, and the update is seen.
listed_changes : sort_rows by_network (apply_all changes []) ≡ moved ∷ []
unfolding apply_all text_eq sort_rows
listed_changes = refl

abbrev shouted : StaticHost
shouted = record printer { mac_address = codes "02:00:00:00:00:AA" }

perform_host-Entered_example :
    Entered (HostChange.add shouted) [] (perform_host (HostChange.add shouted) new_db)
perform_host-Entered_example = perform_host-Entered (HostChange.add shouted) new_db

-- A database from before BootP.
abbrev old_schema : Faulty Catalog
old_schema = record {
  content = record {
    foreign_keys = false;
    objects = codes "subnets" ∷ codes "static_hosts" ∷ [];
    columns = codes "id" ∷ codes "network" ∷ codes "netmask" ∷ [];
  };
  faults = [];
}

has_subnets : has_name old_schema.content.objects subnets_table ≡ true
unfolding text_eq
has_subnets = refl

ensure_schema-Upgraded_example :
    let (r, db') = ensure_schema old_schema in
    (r ≡ ok tt)
    × (db'.content.columns
        ≡ old_schema.content.columns ++ missing old_schema.content.columns bootp_subnet_columns)
    × IsReady db'.content
    × (ensure_schema db' ≡ (ok tt, db'))
ensure_schema-Upgraded_example = ensure_schema-Upgraded old_schema has_subnets refl

abbrev pub hyphened : StaticHost
hyphened = record printer { mac_address = codes "02-00-00-00-00-AA" }

abbrev pub canonical : StaticHost
canonical = record printer { mac_address = codes "02:00:00:00:00:aa" }

hyphened_passes : validate_static_host hyphened ≡ ok canonical
unfolding validate_static_host
hyphened_passes = refl

validate_static_host-IsCanonical_example : IsCanonical hyphened canonical
validate_static_host-IsCanonical_example =
    validate_static_host-IsCanonical hyphened canonical hyphened_passes

-- JSON that knows the values of the example.
abbrev pub json : Codec
json = record {
  encode_subnet = λ s. b'{' ∷ [];
  decode_subnet = λ data_. some office;
  encode_subnets = λ ss. b'[' ∷ [];
  decode_subnets = λ data_. some (office ∷ []);
  encode_host = λ h. b'{' ∷ [];
  decode_host = λ data_. some printer;
  encode_hosts = λ hs. b'[' ∷ [];
  decode_hosts = λ data_. some (printer ∷ []);
  encode_network = λ n. b'{' ∷ n;
  decode_network = λ data_. some (codes "10.0.0.0");
  encode_mac = λ n. b'{' ∷ n;
  decode_mac = λ data_. some (codes "02:00:00:00:00:99");
  encode_capabilities = λ c. b'{' ∷ [];
  decode_capabilities = λ data_. some own_capabilities;
}

abbrev pub settings : Text → Option Text
settings name = if text_eq name (codes "db_path") then some (codes "/var/lib/dhcp.db") else none

abbrev pub manager : Manager
manager = record {
  name = codes "sqlite3-config";
  path = codes "/usr/lib/sqlite3-config.plugin";
  settings = settings;
  caps = own_capabilities;
}

abbrev pub disk : Disk
disk = record {
  opens = true;
  schema = record { content = (ensure_schema old_schema).1.content; faults = [] };
  tables = new_db;
}

disk-IsSound : IsSound disk
disk-IsSound = record {
  opens = refl;
  ready = (ensure_schema-Upgraded old_schema has_subnets refl).2;
  schema_runs = refl;
  tables_run = refl;
  valid = nothing_stored-IsValid;
}

configured : settings (codes "db_path") ≡ some (codes "/var/lib/dhcp.db")
unfolding text_eq
configured = refl

office_listed :
    sort_rows by_network (after_add office (validate_subnet office) false []) ≡ office ∷ []
unfolding sort_rows validate_subnet validate_ipv4_list validate_ranges is_ipv4 parse_ip to4 text_eq
office_listed = refl

add_subnet-get_subnets_example :
    let (r, d') = Plugin.add_subnet json (sqlite3_config json) manager office disk in
    (r ≡ verdict_of (validate_subnet office) false)
    × ((Plugin.get_subnets json (sqlite3_config json) manager d').0
        ≡ ok (sort_rows by_network (after_add office (validate_subnet office) false [])))
add_subnet-get_subnets_example =
    add_subnet-get_subnets json manager (codes "/var/lib/dhcp.db") refl configured office disk
      disk-IsSound refl refl (ap some (sym office_listed)) refl

-- A configuration that names one network twice.
abbrev doubled : List SubnetConfig
doubled = office ∷ moved ∷ []

migrate_subnets-Copied_example :
    Copied []
      (carried [] doubled)
      doubled
      (migrate_subnets false (codes "/var/lib/dhcp.db") doubled disk)
    × (migrate_subnets true (codes "/var/lib/dhcp.db") doubled disk
        ≡ (not (any invalid_subnet doubled), disk))
migrate_subnets-Copied_example =
    migrate_subnets-Copied (codes "/var/lib/dhcp.db") doubled disk refl disk-IsSound

-- The second is left behind.
one_carried : carried [] doubled ≡ office ∷ []
unfolding carried validate_subnet validate_ipv4_list validate_ranges is_ipv4 parse_ip to4 text_eq
one_carried = refl
