-- ===== src/Examples/Interface.antt =====
-- Examples of the manager and of the interface over the configuration in SQLite.
use go_dhcpd.Base.{
  ◌≡◌, ◌≢◌, refl, ◌⊎◌, true, false, [], ◌∷◌, Option, none, some, Text, text_eq, to_lower, codes, ok,
}
use go_dhcpd.Net.Print.{parse_ip, ip_string}
use go_dhcpd.Net.Quad.{print_quad, decimal}
use go_dhcpd.Config.{normalize_mac}
use go_dhcpd.Validate.Mac.{validate_static_host}
use go_dhcpd.Db.{Lease}
use go_dhcpd.Db.Rows.{row}
use go_dhcpd.Allocator.{resolve_static_address}
use go_dhcpd.Api.Spelling.{add_static_host_handler-ne-check_host}
use go_dhcpd.Examples.Tables.{table-UniqueIps}
use go_dhcpd.Plugin
use go_dhcpd.Plugin.{Codec, Manager, FileInfo, Capabilities, Process, status_success}
use go_dhcpd.Plugin.Sqlite.{Disk, sqlite3_config, own_capabilities, check_host, reply}
use go_dhcpd.Plugin.Kept
use go_dhcpd.Plugin.Kept.{Loaded, new_manager-Loaded}
use go_dhcpd.Auth.{status, Users, auth_middleware}
use go_dhcpd.Api
use go_dhcpd.Api.Guarded.{Unchanged, serve-Unchanged}
use go_dhcpd.Api.Written
use go_dhcpd.Api.Written.{ReportsOn, handle-Reports}
use go_dhcpd.Examples.{office, quiet, idle, allocator}
use go_dhcpd.Examples.Stored.{hyphened, canonical, json, settings, manager, disk}

abbrev pub installed : Text → Option FileInfo
installed path = some (record { regular = true; perm = 493 })

-- A provider that says that it takes no writes.
abbrev reader : Codec
reader = record json {
  decode_capabilities = λ data_. some (record own_capabilities { writable = false });
}

abbrev read_only_manager : Manager
read_only_manager = record manager { caps = record own_capabilities { writable = false } }

loads :
    (Plugin.new_manager reader
      (sqlite3_config reader)
      installed
      (codes "sqlite3-config")
      (codes "/usr/lib/sqlite3-config.plugin")
      settings
      disk).0
    ≡ ok read_only_manager
unfolding Plugin.new_manager sqlite3_config
loads = refl

new_manager-Loaded_example :
    Loaded reader
      (sqlite3_config reader)
      installed
      (codes "sqlite3-config")
      (codes "/usr/lib/sqlite3-config.plugin")
      settings
      disk
      read_only_manager
new_manager-Loaded_example =
    new_manager-Loaded reader (sqlite3_config reader) installed (codes "sqlite3-config")
      (codes "/usr/lib/sqlite3-config.plugin") settings disk read_only_manager loads

abbrev running : Api.Daemon Disk
running = record { alloc = allocator; provider = disk }

handle-Reports_example :
    ReportsOn quiet idle json
      (sqlite3_config json)
      manager
      running
      (some (Kept.write_add_subnet office))
      (Api.handle quiet idle json
        (sqlite3_config json)
        manager
        (Api.post_subnet (some office))
        running)
handle-Reports_example =
    handle-Reports quiet idle json (sqlite3_config json) manager (Api.post_subnet (some office))
      (some (Kept.write_add_subnet office)) running table-UniqueIps (Written.post_subnet office)

-- The host of the example, written with hyphens, is added.
abbrev provider : Process (Unit {0})
provider req u = (some (reply status_success (b'[' ∷ [])), u)

abbrev serving : Api.Daemon (Unit {0})
serving = record { alloc = allocator; provider = tt }

hyphened_accepted :
    check_host (record hyphened { mac_address = normalize_mac hyphened.mac_address }) ≡ ok canonical
unfolding validate_static_host normalize_mac to_lower
hyphened_accepted = refl

printer_found : resolve_static_address quiet hyphened.ip_address ≡ ok (codes "10.0.0.5")
unfolding resolve_static_address ip_string parse_ip text_eq print_quad decimal
printer_found = refl

is_created :
    (Api.add_static_host_handler quiet idle json provider manager (some hyphened) serving).0.status
    ≡ 201
unfolding Api.add_static_host_handler Plugin.add_static_host
is_created = refl

add_static_host_handler-ne-check_host_example :
    (l : Lease) × (row
        (codes "10.0.0.5")
        (Api.add_static_host_handler quiet idle json provider manager
          (some hyphened)
          serving).1.alloc.db.leases
      ≡ some l)
    × (l.mac_address ≢ codes "02:00:00:00:00:aa")
add_static_host_handler-ne-check_host_example =
    add_static_host_handler-ne-check_host quiet idle json provider manager hyphened canonical
      (codes "10.0.0.5") serving table-UniqueIps refl printer_found refl hyphened_accepted
      is_created

abbrev nobody : Users
nobody = record { group_ids = λ name. none; group_name = λ gid. none }

unauthenticated : auth_middleware nobody (λ name password. true) [] [] none ≡ status 401
unfolding auth_middleware
unauthenticated = refl

serve-Unchanged_example :
    let (reply, t) =
      Api.serve quiet idle json
        (sqlite3_config json)
        manager
        nobody
        (λ name password. true)
        []
        []
        none
        (Api.remove_subnet (codes "10.0.0.0"))
        running in
    Unchanged running t
    × ((reply ≡ Api.problem 401)
        ⊎ (Api.is_protected (Api.remove_subnet (codes "10.0.0.0")) ≡ false))
serve-Unchanged_example =
    serve-Unchanged quiet idle json (sqlite3_config json) manager nobody (λ name password. true) []
      [] none (Api.remove_subnet (codes "10.0.0.0")) running 401 unauthenticated
