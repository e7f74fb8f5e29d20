-- ===== src/Api/Guarded.antt =====
-- internal/api/api.go: what a request can do that the middleware does not let in.
use go_dhcpd.Base.{
  ℕ, Bool, false, List, Option, Text, Result, ok, err, ◌≡◌, refl, ◌⊎◌, inl, inr, Bool-cases,
}
use go_dhcpd.Db.{get_stats}
use go_dhcpd.Db.Reads.{SameTables-refl, get_stats-IsRead}
use go_dhcpd.Allocator.{Env, query}
use go_dhcpd.Allocator.Grants.{SameState, SameState-refl}
use go_dhcpd.Auth.{status, Users, auth_middleware}
use go_dhcpd.Server.{Stats}
use go_dhcpd.Plugin.{Codec, Process, Manager}
use go_dhcpd.Api

-- The leases, the deny list, the configuration in memory and the provider are as they were.
pub record Unchanged {D : Type 0} (s t : Api.Daemon D) : Type 0 where
  pub state : SameState s.alloc t.alloc
  pub denies : t.alloc.db.denies ≡ s.alloc.db.denies
  pub provider : t.provider ≡ s.provider

module _ {D : Type 0} where
  Unchanged-refl : (s : Api.Daemon D) → Unchanged s s
  Unchanged-refl s = record { state = SameState-refl s.alloc; denies = refl; provider = refl }

  reads_stats : (s : Api.Daemon D) → Unchanged s (record s { alloc = (query get_stats s.alloc).1 })
  reads_stats s =
      let same = get_stats-IsRead.keeps s.alloc.db s.alloc.db (SameTables-refl s.alloc.db) in
      record {
        state = record { rows = same.rows; config = refl; subnets = refl; static = refl };
        denies = same.denies;
        provider = refl;
      }

  reported-same :
      {A : Type 0} (reply : A → Api.Reply) (r : Result A × Api.Daemon D) (s : Api.Daemon D)
      → Unchanged s r.1
      → Unchanged s (Api.reported reply r).1
  reported-same reply (ok a, t) s u = u
  reported-same reply (err e, t) s u = u

module _ {D : Type 0} (env : Env) (stats : Stats) (json : Codec) (run : Process D)
    (m : Manager) where
  open_route :
      (route : Api.Route) (s : Api.Daemon D)
      → Api.is_protected route ≡ false
      → Unchanged s (Api.handle env stats json run m route s).1
  unfolding Api.handle
  open_route Api.get_health s h = Unchanged-refl s
  open_route Api.get_metrics s h =
      reported-same _ (Api.with_daemon s (query get_stats s.alloc)) s (reads_stats s)
  open_route Api.get_dhcp_metrics s h = Unchanged-refl s
  open_route Api.get_database_metrics s h =
      reported-same _ (Api.with_daemon s (query get_stats s.alloc)) s (reads_stats s)
  open_route Api.get_version s h = Unchanged-refl s
  open_route Api.get_config s h = absurd (cc)
  open_route Api.list_subnets s h = absurd (cc)
  open_route Api.list_static s h = absurd (cc)
  open_route Api.list_leases s h = absurd (cc)
  open_route Api.list_active_leases s h = absurd (cc)
  open_route Api.list_deny s h = absurd (cc)
  open_route (Api.post_subnet b) s h = absurd (cc)
  open_route (Api.put_subnet n b) s h = absurd (cc)
  open_route (Api.remove_subnet n) s h = absurd (cc)
  open_route (Api.post_static b) s h = absurd (cc)
  open_route (Api.put_static n b) s h = absurd (cc)
  open_route (Api.remove_static n) s h = absurd (cc)
  open_route (Api.get_lease n) s h = absurd (cc)

  -- A request whose credentials the middleware answers with a status, because they are missing,
  -- rejected or not authorized, changes neither the leases, nor the deny list, nor the subnets and
  -- static hosts in memory, nor the provider; and it is answered with that status unless its route is
  -- one of the public ones.
  pub serve-Unchanged :
      (users : Users) (authenticate : Text → Text → Bool) (allowed_users allowed_groups : List Text)
      (credentials : Option (Text × Text)) (route : Api.Route) (s : Api.Daemon D) (n : ℕ)
      → auth_middleware users authenticate allowed_users allowed_groups credentials ≡ status n
      → let (reply, t) =
          Api.serve env stats json run m users authenticate allowed_users allowed_groups credentials
            route s in
        Unchanged s t × ((reply ≡ Api.problem n) ⊎ (Api.is_protected route ≡ false))
  unfolding Api.serve
  serve-Unchanged users authenticate allowed_users allowed_groups credentials route s n stopped =
      elim (Bool-cases (Api.is_protected route)) [
        | inl guarded ↦ rw (guarded, stopped) (Unchanged-refl s, inl refl)
        | inr open_ ↦ rw open_ (open_route route s open_, inr refl)
      ]
