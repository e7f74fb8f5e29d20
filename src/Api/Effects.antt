-- ===== src/Api/Effects.antt =====
-- internal/api/api.go with internal/allocator/allocator.go: what the handlers that write do to the
-- allocator after a write.
use go_dhcpd.Base.{true, List, Text, Error, Result, ok, err, and_then, ◌≡◌, refl, sym, subst}
use go_dhcpd.Config.{SubnetConfig, StaticHost, normalize_mac}
use go_dhcpd.Db.{Lease, active}
use go_dhcpd.Db.Rows.{UniqueIps}
use go_dhcpd.Allocator.{
  Env, Allocator, refresh, resolve_static_address, save_lease, seed_static_lease,
}
use go_dhcpd.Allocator.Recorded.{
  Recorded, save_lease-Recorded, Released, not_released, without_lease, released,
}
use go_dhcpd.Server.{Stats}
use go_dhcpd.Plugin.{Codec, Process, Manager, get_subnets, get_static_hosts}
use go_dhcpd.Plugin.Kept.{
  Write, write_add_subnet, write_update_subnet, write_delete_subnet, write_add_static_host,
  write_update_static_host, write_delete_static_host,
}
use go_dhcpd.Api

module _ (env : Env) where
  -- The lease of a static host for an address.
  abbrev pub static_lease : StaticHost → Text → Lease
  static_lease h ip = record {
    id = 0;
    mac_address = normalize_mac h.mac_address;
    ip_address = ip;
    hostname = h.hostname;
    lease_start = env.now;
    lease_end = env.century;
    state = active;
    is_static = true;
  }

  -- The lease of a static host is recorded, unless its address does not resolve.
  pub data Seeded (h : StaticHost) (a : Allocator) : Allocator → Type 0 where
    unresolved : (e : Error) → resolve_static_address env h.ip_address ≡ err e → Seeded h a a
    seeded :
        (ip : Text) (r : Result (Unit {0})) (b : Allocator)
        → resolve_static_address env h.ip_address ≡ ok ip
        → Recorded (static_lease h ip) a (r, b)
        → Seeded h a b

  pub seed_static_lease-Seeded :
      (h : StaticHost) (a : Allocator)
      → UniqueIps a.db.leases
      → Seeded h a (seed_static_lease env h a).1
  unfolding seed_static_lease
  seed_static_lease-Seeded h a u = by_ip (resolve_static_address env h.ip_address) refl
    where
      by_ip :
          (o : Result Text)
          → resolve_static_address env h.ip_address ≡ o
          → Seeded h a (and_then (λ ip. save_lease (static_lease h ip)) (o, a)).1
      by_ip (err e) k = unresolved e k
      by_ip (ok ip) k =
          let r = save_lease (static_lease h ip) a in
          seeded ip r.0 r.1 k (save_lease-Recorded (static_lease h ip) a u)

  -- What a write does to the leases.
  abbrev pub Follows : Write → Allocator → Allocator → Type 0
  Follows (write_add_subnet c) a b = b ≡ a
  Follows (write_update_subnet c) a b = b ≡ a
  Follows (write_delete_subnet network) a b = b ≡ a
  Follows (write_add_static_host h) a b = Seeded h a b
  Follows (write_update_static_host h) a b =
      (r : Result (Unit {0})) × (c : Allocator) × Released env (normalize_mac h.mac_address) (ok tt)
        a (r, c)
      × Seeded h c b
  Follows (write_delete_static_host mac) a b =
      (r : Result (Unit {0})) × Released env (normalize_mac mac) (ok tt) a (r, b)

  pub Released-UniqueIps :
      (mac : Text) (a : Allocator) (r : Result (Unit {0}) × Allocator)
      → UniqueIps a.db.leases
      → Released env mac (ok tt) a r
      → UniqueIps r.1.db.leases
  Released-UniqueIps mac a _ u (not_released e b n s) = subst UniqueIps (sym s.rows.leases) u
  Released-UniqueIps mac a _ u (without_lease b n s) = subst UniqueIps (sym s.rows.leases) u
  Released-UniqueIps mac a _ u (released l b n s v k) = v

module _ {D : Type 0} (env : Env) (stats : Stats) (json : Codec) (run : Process D)
    (m : Manager) where
  -- The allocator after the two requests for the provider's data, in the state `p`: it has the new
  -- subnets and static hosts if both succeed, and else it is as it was.
  pub data Reloaded (a : Allocator) (p : D) : Api.Daemon D → Type 0 where
    no_subnets :
        (e : Error) (q : D)
        → get_subnets json run m p ≡ (err e, q)
        → Reloaded a p (record { alloc = a; provider = q })
    no_hosts :
        (ss : List SubnetConfig) (e : Error) (q q' : D)
        → get_subnets json run m p ≡ (ok ss, q)
        → get_static_hosts json run m q ≡ (err e, q')
        → Reloaded a p (record { alloc = a; provider = q' })
    reloaded :
        (ss : List SubnetConfig) (hs : List StaticHost) (q q' : D)
        → get_subnets json run m p ≡ (ok ss, q)
        → get_static_hosts json run m q ≡ (ok hs, q')
        → Reloaded a p (record { alloc = record a { subnets = ss; static = hs }; provider = q' })

  pub refresh_allocator-Reloaded :
      (s : Api.Daemon D)
      → Reloaded s.alloc s.provider (Api.refresh_allocator env stats json run m s)
  unfolding Api.refresh_allocator refresh
  refresh_allocator-Reloaded s = by_subnets (get_subnets json run m s.provider) refl
    where
      by_hosts :
          (ss : List SubnetConfig) (q : D)
          → get_subnets json run m s.provider ≡ (ok ss, q)
          → (r : Result (List StaticHost) × D) → get_static_hosts json run m q ≡ r
          → Reloaded s.alloc s.provider (Api.loaded_hosts env stats json run m (ok ss) r s)
      by_hosts ss q e (err x, q') k = no_hosts ss x q q' e k
      by_hosts ss q e (ok hs, q') k = reloaded ss hs q q' e k

      by_subnets :
          (r : Result (List SubnetConfig) × D)
          → get_subnets json run m s.provider ≡ r
          → Reloaded s.alloc s.provider (Api.loaded_subnets env stats json run m r s)
      by_subnets (err e, q) k = no_subnets e q k
      by_subnets (ok ss, q) k = by_hosts ss q k (get_static_hosts json run m q) refl

  pub Reloaded-UniqueIps :
      (a : Allocator) (p : D) (d : Api.Daemon D)
      → UniqueIps a.db.leases
      → Reloaded a p d
      → UniqueIps d.alloc.db.leases
  Reloaded-UniqueIps a p _ u (no_subnets e q k) = u
  Reloaded-UniqueIps a p _ u (no_hosts ss e q q' k h) = u
  Reloaded-UniqueIps a p _ u (reloaded ss hs q q' k h) = u
