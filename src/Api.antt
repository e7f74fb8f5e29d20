-- ===== src/Api.antt =====
-- internal/api/api.go: the handlers of the REST interface, the middleware in front of them and the
-- routes. The body of a request is what gin's binding makes of it, `none` where it fails; a reply is
-- its status with the data that it carries.
pub mod Guarded
pub mod Effects
pub mod Written
pub mod Spelling
use go_dhcpd.Base.{
  ℕ, Bool, true, false, List, [], ◌∷◌, Option, none, some, ltb, not, if◌then◌else◌, keep, Text,
  invalid, Error, Result, ok, err,
}
use go_dhcpd.Config.{GlobalConfig, SubnetConfig, StaticHost, normalize_mac}
use go_dhcpd.Db.{
  Lease, DenyAddress, Database, Query, DbStats, get_all_leases, get_lease_by_mac,
  get_deny_addresses, get_stats,
}
use go_dhcpd.Allocator.{Env, Allocator, query, refresh, seed_static_lease, revoke_static_lease}
use go_dhcpd.Auth.{Verdict, passed, status, Users, auth_middleware}
use go_dhcpd.Server.{Stats}
use go_dhcpd.Plugin.{
  Codec, Process, Manager, get_subnets, get_static_hosts, add_subnet, update_subnet, delete_subnet,
  add_static_host, update_static_host, delete_static_host,
}

-- `count` of the replies that are lists is the length of the list. The settings of the plugins, which
-- the configuration shows too, are left out.
pub data Body : Type 0 where
  message : Body
  health : ℕ → Body
  version_info : Body
  metrics : Stats → DbStats → Body
  dhcp_stats : Stats → Body
  database_stats : DbStats → Body
  configuration : GlobalConfig → List SubnetConfig → List StaticHost → Body
  subnet : SubnetConfig → Body
  subnets : List SubnetConfig → Body
  host : StaticHost → Body
  hosts : List StaticHost → Body
  lease : Lease → Body
  leases : List Lease → Body
  denies : List DenyAddress → Body
  deleted : Text → Body

pub record Reply : Type 0 where
  pub status : ℕ
  pub body : Body

-- The state that the handlers share: the allocator with the lease database, and the provider's.
pub record Daemon (D : Type 0) : Type 0 where
  pub alloc : Allocator
  pub provider : D

abbrev pub problem : ℕ → Reply
problem n = record { status = n; body = message }

abbrev pub fine : Body → Reply
fine b = record { status = 200; body = b }

pub data Route : Type 0 where
  get_health get_metrics get_dhcp_metrics get_database_metrics get_version : Route
  get_config list_subnets list_static list_leases list_active_leases list_deny : Route
  post_subnet : Option SubnetConfig → Route
  put_subnet : Text → Option SubnetConfig → Route
  remove_subnet : Text → Route
  post_static : Option StaticHost → Route
  put_static : Text → Option StaticHost → Route
  remove_static : Text → Route
  get_lease : Text → Route

-- The groups of `setupRoutes`.
abbrev pub is_protected : Route → Bool
is_protected get_health = false
is_protected get_metrics = false
is_protected get_dhcp_metrics = false
is_protected get_database_metrics = false
is_protected get_version = false
is_protected _ = true

abbrev pub with_daemon : {D A : Type 0} → Daemon D → Result A × Allocator → Result A × Daemon D
with_daemon s (r, a) = (r, record s { alloc = a })

-- A reply that reads the database, or reports the error with status 500.
abbrev pub reported : {D A : Type 0} → (A → Reply) → Result A × Daemon D → Reply × Daemon D
reported reply (ok a, s) = (reply a, s)
reported reply (err e, s) = (problem 500, s)

abbrev pub from_db : {D A : Type 0} → Query A → (A → Reply) → Daemon D → Reply × Daemon D
from_db q reply s = reported reply (with_daemon s (query q s.alloc))

abbrev pub found_lease : Option Lease → Reply
found_lease none = problem 404
found_lease (some l) = fine (lease l)

-- `errors.As` of a `*ValidationError`
abbrev pub is_validation_error : Error → Bool
is_validation_error invalid = true
is_validation_error _ = false

abbrev pub keep_provider : {D A : Type 0} → Daemon D → Result A × D → Result A × Daemon D
keep_provider s (r, p) = (r, record s { provider = p })

module _ {D : Type 0} (env : Env) (stats : Stats) (json : Codec) (run : Process D)
    (m : Manager) where
  -- `metricsHandler`, `dhcpStatsHandler`, `databaseStatsHandler`
  unfoldable pub metrics_handler : Daemon D → Reply × Daemon D
  metrics_handler = from_db get_stats (λ db_stats. fine (metrics stats db_stats))

  unfoldable pub dhcp_stats_handler : Daemon D → Reply × Daemon D
  dhcp_stats_handler s = (fine (dhcp_stats stats), s)

  unfoldable pub database_stats_handler : Daemon D → Reply × Daemon D
  database_stats_handler = from_db get_stats (λ db_stats. fine (database_stats db_stats))

  -- `subnetsHandler`, `staticHostsHandler`
  unfoldable pub subnets_handler : Daemon D → Reply × Daemon D
  subnets_handler s =
      reported (λ ss. fine (subnets ss)) (keep_provider s (get_subnets json run m s.provider))

  unfoldable pub static_hosts_handler : Daemon D → Reply × Daemon D
  static_hosts_handler s =
      reported (λ hs. fine (hosts hs)) (keep_provider s (get_static_hosts json run m s.provider))

  abbrev with_subnets : Result (List SubnetConfig) × Daemon D → Reply × Daemon D
  with_subnets (err e, s) = (problem 500, s)
  with_subnets (ok ss, s) =
      reported (λ hs. fine (configuration s.alloc.config ss hs))
        (keep_provider s (get_static_hosts json run m s.provider))

  -- `configHandler`
  unfoldable pub config_handler : Daemon D → Reply × Daemon D
  config_handler s = with_subnets (keep_provider s (get_subnets json run m s.provider))

  -- `leasesHandler`, `activeLeasesHandler`, `leaseByMACHandler`, `denyAddressesHandler`
  unfoldable pub leases_handler : Daemon D → Reply × Daemon D
  leases_handler = from_db get_all_leases (λ ls. fine (leases ls))

  unfoldable pub active_leases_handler : Daemon D → Reply × Daemon D
  active_leases_handler =
      from_db get_all_leases
        (λ ls. fine (leases (keep (λ (l : Lease). ltb env.now l.lease_end) ls)))

  unfoldable pub lease_by_mac_handler : Text → Daemon D → Reply × Daemon D
  lease_by_mac_handler mac = from_db (get_lease_by_mac mac) found_lease

  unfoldable pub deny_addresses_handler : Daemon D → Reply × Daemon D
  deny_addresses_handler = from_db get_deny_addresses (λ ds. fine (denies ds))

  -- `writePluginError`
  unfoldable pub write_plugin_error : Error → Reply
  write_plugin_error e =
      if is_validation_error e
      then problem 400
      else if not m.caps.writable
      then problem 403
      else problem 500

  abbrev loaded_hosts :
      Result (List SubnetConfig) → Result (List StaticHost) × D → Daemon D → Daemon D
  loaded_hosts ss (hs, p) s = record s { alloc = (refresh ss hs s.alloc).1; provider = p }

  abbrev loaded_subnets : Result (List SubnetConfig) × D → Daemon D → Daemon D
  loaded_subnets (err e, p) s = record s { provider = p }
  loaded_subnets (ok ss, p) s = loaded_hosts (ok ss) (get_static_hosts json run m p) s

  -- `refreshAllocator`, with the two requests of `Refresh`: an error is only logged.
  unfoldable pub refresh_allocator : Daemon D → Daemon D
  refresh_allocator s = loaded_subnets (get_subnets json run m s.provider) s

  unfoldable pub seed : StaticHost → Daemon D → Daemon D
  seed h s = record s { alloc = (seed_static_lease env h s.alloc).1 }

  unfoldable pub revoke : Text → Daemon D → Daemon D
  revoke mac s = record s { alloc = (revoke_static_lease env mac s.alloc).1 }

  -- What follows a write of the provider: its error, or the reply and the effects of success.
  unfoldable pub after_write :
      Reply → (Daemon D → Daemon D) → Daemon D → Result (Unit {0}) × D → Reply × Daemon D
  after_write reply effects s (ok u, p) = (reply, effects (record s { provider = p }))
  after_write reply effects s (err e, p) = (write_plugin_error e, record s { provider = p })

  -- `addSubnetHandler`
  unfoldable pub add_subnet_handler : Option SubnetConfig → Daemon D → Reply × Daemon D
  unfolding write_plugin_error refresh_allocator after_write
  add_subnet_handler none s = (problem 400, s)
  add_subnet_handler (some c) s =
      after_write (record { status = 201; body = subnet c }) refresh_allocator s
        (add_subnet json run m c s.provider)

  -- `updateSubnetHandler`: the network is that of the path.
  unfoldable pub update_subnet_handler : Text → Option SubnetConfig → Daemon D → Reply × Daemon D
  unfolding write_plugin_error refresh_allocator after_write
  update_subnet_handler network none s = (problem 400, s)
  update_subnet_handler network (some c) s =
      let c' = record c { network = network } in
      after_write (fine (subnet c')) refresh_allocator s (update_subnet json run m c' s.provider)

  -- `deleteSubnetHandler`
  unfoldable pub delete_subnet_handler : Text → Daemon D → Reply × Daemon D
  unfolding write_plugin_error refresh_allocator after_write
  delete_subnet_handler network s =
      after_write (fine (deleted network)) refresh_allocator s
        (delete_subnet json run m network s.provider)

  -- `addStaticHostHandler`
  unfoldable pub add_static_host_handler : Option StaticHost → Daemon D → Reply × Daemon D
  unfolding write_plugin_error refresh_allocator seed after_write
  add_static_host_handler none s = (problem 400, s)
  add_static_host_handler (some h) s =
      let h' = record h { mac_address = normalize_mac h.mac_address } in
      after_write (record { status = 201; body = host h' }) (λ t. seed h' (refresh_allocator t)) s
        (add_static_host json run m h' s.provider)

  -- `updateStaticHostHandler`: the address is that of the path.
  unfoldable pub update_static_host_handler : Text → Option StaticHost → Daemon D → Reply × Daemon D
  unfolding write_plugin_error refresh_allocator seed revoke after_write
  update_static_host_handler mac none s = (problem 400, s)
  update_static_host_handler mac (some h) s =
      let h' = record h { mac_address = normalize_mac mac } in
      after_write (fine (host h')) (λ t. seed h' (revoke h'.mac_address (refresh_allocator t))) s
        (update_static_host json run m h' s.provider)

  -- `deleteStaticHostHandler`
  unfoldable pub delete_static_host_handler : Text → Daemon D → Reply × Daemon D
  unfolding write_plugin_error refresh_allocator revoke after_write
  delete_static_host_handler mac s =
      after_write (fine (deleted (normalize_mac mac)))
        (λ t. revoke (normalize_mac mac) (refresh_allocator t)) s
        (delete_static_host json run m (normalize_mac mac) s.provider)

  -- The handler of each route of `setupRoutes`.
  unfoldable pub handle : Route → Daemon D → Reply × Daemon D
  unfolding metrics_handler dhcp_stats_handler database_stats_handler subnets_handler
      static_hosts_handler config_handler leases_handler active_leases_handler lease_by_mac_handler
      deny_addresses_handler add_subnet_handler update_subnet_handler delete_subnet_handler
      add_static_host_handler update_static_host_handler delete_static_host_handler
  handle get_health s = (fine (health env.now), s)
  handle get_metrics s = metrics_handler s
  handle get_dhcp_metrics s = dhcp_stats_handler s
  handle get_database_metrics s = database_stats_handler s
  handle get_version s = (fine version_info, s)
  handle get_config s = config_handler s
  handle list_subnets s = subnets_handler s
  handle list_static s = static_hosts_handler s
  handle list_leases s = leases_handler s
  handle list_active_leases s = active_leases_handler s
  handle list_deny s = deny_addresses_handler s
  handle (post_subnet body) s = add_subnet_handler body s
  handle (put_subnet network body) s = update_subnet_handler network body s
  handle (remove_subnet network) s = delete_subnet_handler network s
  handle (post_static body) s = add_static_host_handler body s
  handle (put_static mac body) s = update_static_host_handler mac body s
  handle (remove_static mac) s = delete_static_host_handler mac s
  handle (get_lease mac) s = lease_by_mac_handler mac s

  abbrev admitted : Verdict → Route → Daemon D → Reply × Daemon D
  admitted (passed user) route s = handle route s
  admitted (status n) route s = (problem n, s)

  -- A request with its credentials, on the PAM answers `authenticate`: the middleware stands before
  -- the protected routes.
  unfoldable pub serve :
      Users
      → (Text → Text → Bool)
      → List Text
      → List Text
      → Option (Text × Text)
      → Route
      → Daemon D
      → Reply × Daemon D
  unfolding handle
  serve users authenticate allowed_users allowed_groups credentials route s =
      if is_protected route
      then admitted (auth_middleware users authenticate allowed_users allowed_groups credentials)
          route s
      else handle route s
