-- ===== src/Examples/Starting.antt =====
-- Examples of the start of the daemon.
use go_dhcpd.Base.{◌≡◌, refl, sym, [], ◌∷◌, none, some, All, arith, codes, text_eq, subst, ok}
use go_dhcpd.Net.Print.{parse_ip}
use go_dhcpd.Config.{SubnetConfig}
use go_dhcpd.Allocator.{or_nil, refresh}
use go_dhcpd.Allocator.Pool.{BelowTop}
use go_dhcpd.Server.{Server, run_packets}
use go_dhcpd.Server.Runs.{Ran}
use go_dhcpd.Plugin
use go_dhcpd.Plugin.{Codec, Process, Manager, status_success, Response}
use go_dhcpd.Plugin.Sqlite.{own_capabilities, reply}
use go_dhcpd.Startup.{Config, Machine, zero_stats, seed_static_leases, start_up}
use go_dhcpd.Startup.Serves.{loading, Answered, seed_static_leases-Keeps, start_up-Ran}
use go_dhcpd.Examples.{printer, quiet, crowded, table, allocator, global, request}
use go_dhcpd.Examples.Tables.{table-UniqueIps, subnets-BelowTop}
use go_dhcpd.Examples.Stored.{json}
use go_dhcpd.Examples.Interface.{installed}

-- A provider that always succeeds.
abbrev willing : Process (Unit {0})
willing req u = (some (reply status_success (b'[' ∷ [])), u)

abbrev config : Config
config = record {
  global = global;
  plugin_name = codes "file-config";
  plugin_path = codes "/usr/lib/file-config.plugin";
  plugin_settings = λ name. none;
}

abbrev machine : Machine
machine = record {
  config = some config;
  database = some table;
  stat = installed;
  interfaces = none;
}

abbrev loaded : Manager
loaded = record {
  name = config.plugin_name;
  path = config.plugin_path;
  settings = config.plugin_settings;
  caps = own_capabilities;
}

abbrev begun : Server
begun = record {
  config = global;
  allocator = seed_static_leases quiet (printer ∷ []) allocator;
  server_ip = or_nil (parse_ip (codes "10.0.0.1"));
  stats = zero_stats;
  sent = [];
  send_faults = [];
}

comes_up : start_up json willing quiet machine tt ≡ (ok (loaded, begun), tt)
unfolding start_up text_eq Plugin.new_manager Plugin.get_subnets Plugin.get_static_hosts refresh
comes_up = refl

begun-BelowTop : All (λ (s : SubnetConfig). All BelowTop s.dynamic_ranges) begun.allocator.subnets
begun-BelowTop =
    subst (All (λ (s : SubnetConfig). All BelowTop s.dynamic_ranges))
      (sym (seed_static_leases-Keeps quiet (printer ∷ []) allocator table-UniqueIps).same.subnets)
      subnets-BelowTop

start_up-Ran_example :
    ((loading json willing quiet machine config table tt).0 ≡ ok loaded)
    × Answered json willing loaded
        (loading json willing quiet machine config table tt).1
        begun.allocator
    × ((s' : Server) × (run_packets 4294967297 ((quiet, request) ∷ (crowded, request) ∷ []) begun
          ≡ some s')
        × Ran 2 begun s')
start_up-Ran_example =
    start_up-Ran json willing quiet machine config table tt loaded begun tt 4294967297
      ((quiet, request) ∷ (crowded, request) ∷ []) refl refl table-UniqueIps comes_up begun-BelowTop
      (omega arith)
