-- ===== src/Startup/Serves.antt =====
-- cmd/dhcpd/main.go: the state in which the daemon begins to serve, and what follows from it.
use go_dhcpd.Base.{
  ℕ, ◌<◌, true, List, [], ◌∷◌, some, length, All, Text, Result, ok, err, Exec, and_then, pure,
  ◌>>=◌, ◌≡◌, refl, sym, ap, ◌∙◌, subst,
}
use go_dhcpd.Net.{Ip}
use go_dhcpd.Config.{GlobalConfig, SubnetConfig, StaticHost, normalize_mac}
use go_dhcpd.Db.{Lease, Database, active}
use go_dhcpd.Db.Rows.{UniqueIps}
use go_dhcpd.Packet.{Packet}
use go_dhcpd.Allocator.{
  Env, Allocator, u32, refresh, save_lease, resolve_static_address, seed_static_lease,
}
use go_dhcpd.Allocator.Pool.{BelowTop}
use go_dhcpd.Allocator.Leases.{
  SameConfig, Saves, refused, written, save_lease-Saves, saved_rows-UniqueIps,
}
use go_dhcpd.Server.{Server, run_packets}
use go_dhcpd.Server.Runs.{Ran, run_packets-Ran}
use go_dhcpd.Plugin.{lift, Codec, Process, Manager, new_manager, get_subnets, get_static_hosts}
use go_dhcpd.Startup.{
  Config, Machine, serving, new_server, get_server_ip, seed_static_leases, new_allocator, start_up,
}

-- The configuration stays, and so does the uniqueness of the addresses.
pub record Keeps (a b : Allocator) : Type 0 where
  pub same : SameConfig a b
  pub unique : UniqueIps b.db.leases

Saves-Keeps :
    (lease : Lease) (a : Allocator) (r : Result (Unit {0}) × Allocator)
    → UniqueIps a.db.leases
    → Saves lease a r
    → Keeps a r.1
Saves-Keeps lease a _ u (refused e b s) = record {
  same = record { config = s.config; subnets = s.subnets; static = s.static };
  unique = subst UniqueIps (sym s.rows.leases) u;
}
Saves-Keeps lease a _ u (written b s e) = record {
  same = s;
  unique = subst UniqueIps (sym e) (saved_rows-UniqueIps lease a.db.next_lease a.db.leases u);
}

seed_static_lease-Keeps :
    (env : Env) (h : StaticHost) (a : Allocator)
    → UniqueIps a.db.leases
    → Keeps a (seed_static_lease env h a).1
unfolding seed_static_lease
seed_static_lease-Keeps env h a u = by_ip (resolve_static_address env h.ip_address)
  where
    lease : Text → Lease
    lease ip = record {
      id = 0;
      mac_address = normalize_mac h.mac_address;
      ip_address = ip;
      hostname = h.hostname;
      lease_start = env.now;
      lease_end = env.century;
      state = active;
      is_static = true;
    }

    by_ip : (found : Result Text) → Keeps a (and_then (λ ip. save_lease (lease ip)) (found, a)).1
    by_ip (err e) = record {
      same = record { config = refl; subnets = refl; static = refl };
      unique = u;
    }
    by_ip (ok ip) = Saves-Keeps (lease ip) a _ u (save_lease-Saves (lease ip) a u)

pub seed_static_leases-Keeps :
    (env : Env) (hosts : List StaticHost) (a : Allocator)
    → UniqueIps a.db.leases
    → Keeps a (seed_static_leases env hosts a)
unfolding seed_static_leases
seed_static_leases-Keeps env [] a u = record {
  same = record { config = refl; subnets = refl; static = refl };
  unique = u;
}
seed_static_leases-Keeps env (h ∷ hosts) a u =
    let one = seed_static_lease-Keeps env h a u in
    let rest = seed_static_leases-Keeps env hosts (seed_static_lease env h a).1 one.unique in
    record {
      same = record {
        config = rest.same.config ∙ one.same.config;
        subnets = rest.same.subnets ∙ one.same.subnets;
        static = rest.same.static ∙ one.same.static;
      };
      unique = rest.unique;
    }

-- A chain of calls that succeeds: so did its first call.
and_then_ok :
    {S A B : Type 0} (k : A → Exec S B) (r : Result A × S) (b : B) (s : S)
    → and_then k r ≡ (ok b, s)
    → (a : A) × (r.0 ≡ ok a) × (k a r.1 ≡ (ok b, s))
and_then_ok k (ok a, t) b s h = (a, refl, h)
and_then_ok k (err e, t) b s h = absurd (let g = ap (λ q. q.0) h in cc)

ok_inj : {A : Type 0} (a b : A) → ok a ≡ ok b → a ≡ b
ok_inj a b h = cc

serving_ok :
    (g : GlobalConfig) (a : Allocator) (ip : Result Ip) (s : Server)
    → serving g a ip ≡ ok s
    → a ≡ s.allocator
serving_ok g a (ok ip) s h = ap (λ (r : Server). r.allocator) (ok_inj _ s h)
serving_ok g a (err e) s h = absurd (cc)

module _ {S : Type 0} (json : Codec) (run : Process S) where
  -- The allocator has what the provider, in the state `q`, answered to two requests.
  pub record Answered (m : Manager) (q : S) (a : Allocator) : Type 0 where
    pub subnets : (get_subnets json run m q).0 ≡ ok a.subnets
    pub static : (get_static_hosts json run m (get_subnets json run m q).1).0 ≡ ok a.static

  new_allocator-Answered :
      (g : GlobalConfig) (db : Database) (m : Manager) (q : S) (a : Allocator)
      → (new_allocator json run g db m q).0 ≡ ok a
      → Answered m q a × (db ≡ a.db)
  unfolding new_allocator refresh
  new_allocator-Answered g db m q a h =
      let r = new_allocator json run g db m q in
      let listed = and_then_ok _ (get_subnets json run m q) a r.1 (λ i. (h i, r.1)) in
      let hosts =
        and_then_ok _ (get_static_hosts json run m (get_subnets json run m q).1) a r.1 listed.2 in
      let built : record { config = g; db = db; subnets = listed.0; static = hosts.0 } ≡ a =
        ok_inj _ a (ap (λ o. o.0) hosts.2) in
      (
        record {
          subnets = listed.1 ∙ ap (λ (b : Allocator). ok b.subnets) built;
          static = hosts.1 ∙ ap (λ (b : Allocator). ok b.static) built;
        },
        ap (λ (b : Allocator). b.db) built,
      )

  Answered-seeded :
      (env : Env) (m : Manager) (q : S) (a : Allocator)
      → UniqueIps a.db.leases
      → Answered m q a
      → Answered m q (seed_static_leases env a.static a)
  Answered-seeded env m q a u answered =
      let same = (seed_static_leases-Keeps env a.static a u).same in
      record {
        subnets = answered.subnets ∙ ap ok (sym same.subnets);
        static = answered.static ∙ ap ok (sym same.static);
      }

  module _ (env : Env) (machine : Machine) (g : GlobalConfig) (db : Database) (m : Manager)
      (s : Server) (p' : S) where
    created :
        (m1 : Manager) (a : Allocator) (t : S)
        → and_then
            (λ (server : Server). pure {S = S} {A = Manager × Server} (m1, server))
            (lift (new_server machine.interfaces g (seed_static_leases env a.static a)) t)
          ≡ (ok (m, s), p')
        → (m1 ≡ m) × (seed_static_leases env a.static a ≡ s.allocator)
    unfolding new_server
    created m1 a t h =
        let r = new_server machine.interfaces g (seed_static_leases env a.static a) in
        let made =
          and_then_ok (λ (server : Server). pure {S = S} {A = Manager × Server} (m1, server)) (r, t)
            (m, s) p' h in
        let pair : (m1, made.0) ≡ (m, s) = ok_inj _ (m, s) (ap (λ o. o.0) made.2) in
        (
          ap (λ o. o.0) pair,
          serving_ok g _ (get_server_ip machine.interfaces g.listen_address) made.0 made.1
              ∙ ap (λ o. o.1.allocator) pair,
        )

    allocated :
        (m1 : Manager) (q : S)
        → UniqueIps db.leases
        → and_then
            (λ (a : Allocator).
              lift (new_server machine.interfaces g (seed_static_leases env a.static a))
              >>= λ (server : Server). pure {S = S} {A = Manager × Server} (m1, server))
            (new_allocator json run g db m1 q)
          ≡ (ok (m, s), p')
        → (m1 ≡ m) × Answered m1 q s.allocator × UniqueIps s.allocator.db.leases
    allocated m1 q u h =
        let made = and_then_ok _ (new_allocator json run g db m1 q) (m, s) p' h in
        let from = new_allocator-Answered g db m1 q made.0 made.1 in
        let unique = subst (λ (d : Database). UniqueIps d.leases) from.1 u in
        let last = created m1 made.0 (new_allocator json run g db m1 q).1 made.2 in
        (
          last.0,
          subst (Answered m1 q) last.1 (Answered-seeded env m1 q made.0 unique from.0),
          subst (λ (b : Allocator). UniqueIps b.db.leases) last.1
              (seed_static_leases-Keeps env made.0.static made.0 unique).unique,
        )

  module _ (env : Env) (machine : Machine) (cfg : Config) (db : Database) (p : S) where
    -- The manager, as start-up loads it.
    abbrev pub loading : Result Manager × S
    loading =
        new_manager json run machine.stat cfg.plugin_name cfg.plugin_path cfg.plugin_settings p

    started :
        machine.config ≡ some cfg
        → machine.database ≡ some db
        → start_up json run env machine p
          ≡ and_then
              (λ (m : Manager). new_allocator json run cfg.global db m >>= λ a.
                lift (new_server machine.interfaces cfg.global (seed_static_leases env a.static a))
                >>= λ (server : Server). pure {S = S} {A = Manager × Server} (m, server))
              loading
    unfolding start_up
    started loaded opened = rw (loaded, opened) refl

    -- If start-up on a database with unique addresses comes to the point where the daemon serves, then
    -- the manager is the one that `NewManager` loaded, and the subnets and static hosts in memory are
    -- what the provider answered to the two requests that followed. From there, if no dynamic range
    -- ends at 255.255.255.255, the daemon handles any sequence of packets to its end, sends at most
    -- one datagram for each, and keeps the addresses of the leases unique and the configuration as
    -- it is.
    pub start_up-Ran :
        (m : Manager) (s : Server) (p' : S) (fuel : ℕ) (ps : List (Env × Packet))
        → machine.config ≡ some cfg
        → machine.database ≡ some db
        → UniqueIps db.leases
        → start_up json run env machine p ≡ (ok (m, s), p')
        → All (λ (t : SubnetConfig). All BelowTop t.dynamic_ranges) s.allocator.subnets
        → u32 < fuel
        → (loading.0 ≡ ok m)
          × Answered m loading.1 s.allocator
          × ((s' : Server) × (run_packets fuel ps s ≡ some s') × Ran (length ps) s s')
    start_up-Ran m s p' fuel ps loaded opened u up top enough =
        let first = and_then_ok _ loading (m, s) p' (sym (started loaded opened) ∙ up) in
        let rest = allocated env machine cfg.global db m s p' first.0 loading.1 u first.2 in
        (
          first.1 ∙ ap ok rest.0,
          subst (λ n. Answered n loading.1 s.allocator) rest.0 rest.1,
          run_packets-Ran fuel ps s rest.2 top enough,
        )
