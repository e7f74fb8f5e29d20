-- ===== src/Migration.antt =====
-- cmd/go-dhcpd-migration-tool/main.go: the tool that copies the subnets and the static hosts of a
-- configuration file to a database file. What it prints is left out.
pub mod Carried
use go_dhcpd.Base.{
  ℕ, ◌+◌, Bool, true, false, not, ◌||◌, List, [], ◌∷◌, Option, none, some, ◌==◌, if◌then◌else◌,
  Text, is_empty, Result, ok, err, pure, ◌>>=◌,
}
use go_dhcpd.Config.{SubnetConfig, StaticHost}
use go_dhcpd.Validate.Mac.{validate_static_host}
use go_dhcpd.Store.Rows.{SqlDb, Query}
use go_dhcpd.Store.Subnets.{insert_subnet}
use go_dhcpd.Store.Hosts.{insert_static_host}
use go_dhcpd.Plugin.{lift}
use go_dhcpd.Plugin.Sqlite.{Disk, open_path, check_subnet}
use go_dhcpd.Plugin.File.{ConfigFile, Files}

-- The counters of a loop.
pub record Count : Type 0 where
  pub succeeded : ℕ
  pub failed : ℕ

abbrev pub tally : Result (Unit {0}) → Count → Count
tally (ok u) n = record n { succeeded = n.succeeded + 1 }
tally (err e) n = record n { failed = n.failed + 1 }

-- The options of the command line.
pub record Flags : Type 0 where
  pub config_path : Text
  pub db_path : Text
  pub dry_run : Bool
  pub show_help : Bool
  pub show_version : Bool

abbrev pub counted : Disk → Count × SqlDb → Bool × Disk
counted d (n, db) = (n.failed == 0, record d { tables = db })

-- What `migrateSubnets` and `migrateStaticHosts` share: `check` validates an entry, `insert` writes it.
module _ {A : Type 0} (check : A → Result A) (insert : A → Query (Unit {0})) (dry_run : Bool) where
  -- One entry; an error is counted and the loop goes on.
  unfoldable pub migrate_one : A → Query (Unit {0})
  migrate_one a = lift (check a) >>= λ checked. if dry_run then pure tt else insert checked

  unfoldable pub migrate_loop : List A → Count → SqlDb → Count × SqlDb
  unfolding migrate_one
  migrate_loop [] n db = (n, db)
  migrate_loop (a ∷ rest) n db =
      let (r, db') = migrate_one a db in migrate_loop rest (tally r n) db'

  unfoldable pub migrate_open : List A → Disk → Bool × Disk
  unfolding migrate_loop
  migrate_open entries d =
      counted d (migrate_loop entries (record { succeeded = 0; failed = 0 }) d.tables)

  abbrev pub if_opened : List A → Result (Unit {0}) × Disk → Bool × Disk
  if_opened entries (err e, d) = (false, d)
  if_opened entries (ok u, d) = migrate_open entries d

  unfoldable pub migrate : Text → List A → Disk → Bool × Disk
  unfolding migrate_open open_path
  migrate path [] d = (true, d)
  migrate path (a ∷ rest) d =
      if dry_run then migrate_open (a ∷ rest) d else if_opened (a ∷ rest) (open_path (some path) d)

-- `migrateSubnets`
unfoldable pub migrate_subnets : Bool → Text → List SubnetConfig → Disk → Bool × Disk
unfolding migrate
migrate_subnets = migrate check_subnet insert_subnet

-- `migrateStaticHosts`
unfoldable pub migrate_static_hosts : Bool → Text → List StaticHost → Disk → Bool × Disk
unfolding migrate
migrate_static_hosts = migrate validate_static_host insert_static_host

abbrev pub migrate_both : Flags → Option ConfigFile → Disk → ℕ × Disk
migrate_both flags none d = (1, d)
migrate_both flags (some cfg) d =
    let (subnets_ok, d') = migrate_subnets flags.dry_run flags.db_path cfg.subnets d in
    let (static_hosts_ok, d'') = migrate_static_hosts flags.dry_run flags.db_path cfg.static d' in
    (if not subnets_ok || not static_hosts_ok then 1 else 0, d'')

-- `main`: the exit status.
unfoldable pub run_tool : Flags → Files → Disk → ℕ × Disk
unfolding migrate_subnets migrate_static_hosts
run_tool flags files d =
    if flags.show_help
    then (0, d)
    else if flags.show_version
    then (0, d)
    else if is_empty flags.config_path || is_empty flags.db_path
    then (2, d)
    else migrate_both flags (files flags.config_path) d
