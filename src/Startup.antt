-- ===== src/Startup.antt =====
-- cmd/dhcpd/main.go up to the two servers, with `NewAllocator` of internal/allocator/allocator.go and
-- `NewServer` and `getServerIP` of internal/dhcp/server.go. An error ends the process with status 1.
pub mod Serves
use go_dhcpd.Base.{
  ℕ, Bool, not, ◌&&◌, List, [], ◌∷◌, Option, none, some, ◌==◌, if◌then◌else◌, length, get_or, Text,
  is_empty, text_eq, codes, invalid, Result, ok, err, Exec, pure, ◌>>=◌,
}
use go_dhcpd.Net.{Ip, to4, equal}
use go_dhcpd.Net.Print.{parse_ip}
use go_dhcpd.Config.{GlobalConfig, SubnetConfig, StaticHost}
use go_dhcpd.Db.{Database}
use go_dhcpd.Allocator.{Env, Allocator, or_nil, refresh, seed_static_lease}
use go_dhcpd.Server.{Stats, Server}
use go_dhcpd.Plugin.{
  Codec, Process, Manager, FileInfo, lift, new_manager, get_subnets, get_static_hosts,
}

-- The part of `Config` that start-up reads.
pub record Config : Type 0 where
  pub global : GlobalConfig
  pub plugin_name : Text
  pub plugin_path : Text
  pub plugin_settings : Text → Option Text

-- What start-up finds: `LoadConfig` on the file of the command line, `NewDatabase`, `os.Stat`, and the
-- addresses of the interfaces.
pub record Machine : Type 0 where
  pub config : Option Config
  pub database : Option Database
  pub stat : Text → Option FileInfo
  pub interfaces : Option (List Ip)

-- `IsLoopback`
abbrev pub is_loopback : Ip → Bool
is_loopback ip =
    if length (to4 ip) == 4
    then get_or (to4 ip) 0 0 == 127
    else equal ip (0 ∷ 0 ∷ 0 ∷ 0 ∷ 0 ∷ 0 ∷ 0 ∷ 0 ∷ 0 ∷ 0 ∷ 0 ∷ 0 ∷ 0 ∷ 0 ∷ 0 ∷ 1 ∷ [])

unfoldable pub first_address : List Ip → Result Ip
first_address [] = err invalid
first_address (ip ∷ ips) =
    if not (is_loopback ip) && (length (to4 ip) == 4) then ok ip else first_address ips

abbrev pub of_interfaces : Option (List Ip) → Result Ip
of_interfaces none = err invalid
of_interfaces (some ips) = first_address ips

-- `getServerIP`: an address that does not parse is nil, without an error.
unfoldable pub get_server_ip : Option (List Ip) → Text → Result Ip
unfolding first_address
get_server_ip interfaces listen_address =
    if not (text_eq listen_address (codes "0.0.0.0")) && not (is_empty listen_address)
    then ok (or_nil (parse_ip listen_address))
    else of_interfaces interfaces

abbrev pub zero_stats : Stats
zero_stats = record {
  discover_count = 0;
  offer_count = 0;
  request_count = 0;
  ack_count = 0;
  nak_count = 0;
  release_count = 0;
  inform_count = 0;
  decline_count = 0;
  boot_reply_count = 0;
  packets_received = 0;
  packets_sent = 0;
  errors = 0;
}

abbrev pub serving : GlobalConfig → Allocator → Result Ip → Result Server
serving g alloc (err e) = err e
serving g alloc (ok ip) = ok (record {
  config = g;
  allocator = alloc;
  server_ip = ip;
  stats = zero_stats;
  sent = [];
  send_faults = [];
})

-- `NewServer`
unfoldable pub new_server : Option (List Ip) → GlobalConfig → Allocator → Result Server
unfolding get_server_ip
new_server interfaces g alloc = serving g alloc (get_server_ip interfaces g.listen_address)

-- `seedStaticLeases`: an error is only logged.
unfoldable pub seed_static_leases : Env → List StaticHost → Allocator → Allocator
seed_static_leases env [] a = a
seed_static_leases env (h ∷ hosts) a = seed_static_leases env hosts (seed_static_lease env h a).1

abbrev pub required : {A : Type 0} → Option A → Result A
required none = err invalid
required (some a) = ok a

module _ {S : Type 0} (json : Codec) (run : Process S) where
  -- `NewAllocator`
  unfoldable pub new_allocator : GlobalConfig → Database → Manager → Exec S Allocator
  new_allocator g db m = do
    subnets ← get_subnets json run m
    hosts ← get_static_hosts json run m
    pure
        (refresh (ok subnets) (ok hosts)
          (record { config = g; db = db; subnets = []; static = [] })).1

  -- `main`
  unfoldable pub start_up : Env → Machine → Exec S (Manager × Server)
  unfolding new_allocator seed_static_leases new_server
  start_up env machine = do
    cfg ← lift (required machine.config)
    db ← lift (required machine.database)
    m ← new_manager json run machine.stat cfg.plugin_name cfg.plugin_path cfg.plugin_settings
    alloc ← new_allocator cfg.global db m
    server ←
        lift (new_server machine.interfaces cfg.global (seed_static_leases env alloc.static alloc))
    pure (m, server)
