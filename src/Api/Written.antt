-- ===== src/Api/Written.antt =====
-- internal/api/api.go: how the handlers that write report the outcome, and what they leave.
use go_dhcpd.Base.{
  ℕ, Bool, true, false, Option, none, some, Text, Error, Result, ok, err, ◌≡◌, refl, inl, inr,
  Bool-cases,
}
use go_dhcpd.Config.{SubnetConfig, StaticHost, normalize_mac}
use go_dhcpd.Db.Rows.{UniqueIps}
use go_dhcpd.Allocator.{Env, revoke_static_lease}
use go_dhcpd.Allocator.Recorded.{revoke_static_lease-Released}
use go_dhcpd.Server.{Stats}
use go_dhcpd.Plugin.{Codec, Process, Manager}
use go_dhcpd.Plugin.Kept.{
  Write, send, write_add_subnet, write_update_subnet, write_delete_subnet, write_add_static_host,
  write_update_static_host, write_delete_static_host,
}
use go_dhcpd.Api.Effects.{
  seed_static_lease-Seeded, Follows, Released-UniqueIps, Reloaded, refresh_allocator-Reloaded,
  Reloaded-UniqueIps,
}
use go_dhcpd.Api

-- The write that a route asks of the provider: `none` where the body is malformed.
pub data Asks : Api.Route → Option Write → Type 0 where
  post_subnet : (c : SubnetConfig) → Asks (Api.post_subnet (some c)) (some (write_add_subnet c))
  put_subnet :
      (network : Text) (c : SubnetConfig)
      → Asks
          (Api.put_subnet network (some c))
          (some (write_update_subnet (record c { network = network })))
  remove_subnet :
      (network : Text) → Asks (Api.remove_subnet network) (some (write_delete_subnet network))
  post_static :
      (h : StaticHost)
      → Asks
          (Api.post_static (some h))
          (some (write_add_static_host (record h { mac_address = normalize_mac h.mac_address })))
  put_static :
      (mac : Text) (h : StaticHost)
      → Asks
          (Api.put_static mac (some h))
          (some (write_update_static_host (record h { mac_address = normalize_mac mac })))
  remove_static :
      (mac : Text)
      → Asks (Api.remove_static mac) (some (write_delete_static_host (normalize_mac mac)))
  malformed_subnet : Asks (Api.post_subnet none) none
  malformed_update : (network : Text) → Asks (Api.put_subnet network none) none
  malformed_static : Asks (Api.post_static none) none
  malformed_host : (mac : Text) → Asks (Api.put_static mac none) none

-- The status that an error of the provider is reported with.
abbrev pub error_status : Bool → Bool → ℕ
error_status true writable = 400
error_status false true = 500
error_status false false = 403

-- The reply to a write that succeeds.
abbrev pub answered : Write → Api.Reply
answered (write_add_subnet c) = record { status = 201; body = Api.subnet c }
answered (write_update_subnet c) = record { status = 200; body = Api.subnet c }
answered (write_delete_subnet network) = record { status = 200; body = Api.deleted network }
answered (write_add_static_host h) = record { status = 201; body = Api.host h }
answered (write_update_static_host h) = record { status = 200; body = Api.host h }
answered (write_delete_static_host mac) = record { status = 200; body = Api.deleted mac }

module _ {D : Type 0} (env : Env) (stats : Stats) (json : Codec) (run : Process D)
    (m : Manager) where
  aftermath : Write → Api.Daemon D → Api.Daemon D
  aftermath (write_add_subnet c) t = Api.refresh_allocator env stats json run m t
  aftermath (write_update_subnet c) t = Api.refresh_allocator env stats json run m t
  aftermath (write_delete_subnet network) t = Api.refresh_allocator env stats json run m t
  aftermath (write_add_static_host h) t =
      Api.seed env stats json run m h (Api.refresh_allocator env stats json run m t)
  aftermath (write_update_static_host h) t =
      Api.seed env stats json run m h (
        Api.revoke env stats json run m h.mac_address
          (Api.refresh_allocator env stats json run m t))
  aftermath (write_delete_static_host mac) t =
      Api.revoke env stats json run m mac (Api.refresh_allocator env stats json run m t)

  -- The reply and the state, for the outcome of the write.
  abbrev pub Reports :
      Write → Api.Daemon D → Result (Unit {0}) × D → Api.Reply × Api.Daemon D → Type 0
  Reports w s (ok u, p) (reply, t) =
      (reply ≡ answered w)
      × ((d : Api.Daemon D) × Reloaded env stats json run m s.alloc p d
          × (t.provider ≡ d.provider)
          × Follows env w d.alloc t.alloc)
  Reports w s (err e, p) (reply, t) =
      (reply ≡ Api.problem (error_status (Api.is_validation_error e) m.caps.writable))
      × (t ≡ record s { provider = p })

  abbrev pub ReportsOn : Api.Daemon D → Option Write → Api.Reply × Api.Daemon D → Type 0
  ReportsOn s none r = r ≡ (Api.problem 400, s)
  ReportsOn s (some w) r = Reports w s (send json run m w s.provider) r

  plugin_error :
      (e : Error)
      → Api.write_plugin_error env stats json run m e
        ≡ Api.problem (error_status (Api.is_validation_error e) m.caps.writable)
  unfolding Api.write_plugin_error
  plugin_error e = elim (Bool-cases (Api.is_validation_error e)) [
    | inl bad ↦ rw bad refl
    | inr other ↦ rw other (elim (Bool-cases m.caps.writable) [
      | inl writes ↦ rw writes refl
      | inr reads ↦ rw reads refl
    ])
  ]

  abbrev refreshed : Api.Daemon D → Api.Daemon D
  refreshed = Api.refresh_allocator env stats json run m

  aftermath-Follows :
      (w : Write) (s : Api.Daemon D)
      → UniqueIps (refreshed s).alloc.db.leases
      → ((aftermath w s).provider ≡ (refreshed s).provider)
        × Follows env w (refreshed s).alloc (aftermath w s).alloc
  unfolding aftermath Api.seed Api.revoke
  aftermath-Follows (write_add_subnet c) s u = (refl, refl)
  aftermath-Follows (write_update_subnet c) s u = (refl, refl)
  aftermath-Follows (write_delete_subnet network) s u = (refl, refl)
  aftermath-Follows (write_add_static_host h) s u =
      (refl, seed_static_lease-Seeded env h (refreshed s).alloc u)
  aftermath-Follows (write_update_static_host h) s u =
      let a = (refreshed s).alloc in
      let r = revoke_static_lease env h.mac_address a in
      let k = revoke_static_lease-Released env h.mac_address a u in
      (
        refl,
        (
          r.0,
          r.1,
          k,
          seed_static_lease-Seeded env h r.1
              (Released-UniqueIps env (normalize_mac h.mac_address) a r u k),
        ),
      )
  aftermath-Follows (write_delete_static_host mac) s u =
      let a = (refreshed s).alloc in
      (refl, ((revoke_static_lease env mac a).0, revoke_static_lease-Released env mac a u))

  after_write-Reports :
      (w : Write) (s : Api.Daemon D) (r : Result (Unit {0}) × D)
      → UniqueIps s.alloc.db.leases
      → Reports w s r (Api.after_write env stats json run m (answered w) (aftermath w) s r)
  unfolding Api.after_write
  after_write-Reports w s (ok u, p) unique =
      let t : Api.Daemon D = record s { provider = p } in
      let d = Api.refresh_allocator env stats json run m t in
      let load = refresh_allocator-Reloaded env stats json run m t in
      let follow =
        aftermath-Follows w t (Reloaded-UniqueIps env stats json run m s.alloc p d unique load) in
      (refl, (d, load, follow.0, follow.1))
  after_write-Reports w s (err e, p) unique = (plugin_error e, refl)

  -- The addresses of the leases are unique. A request whose body cannot be bound is answered with
  -- status 400 and does nothing. Any other request that writes sends the provider its one write, with
  -- the network or the normalized MAC address of the path where the path has one. If the provider
  -- succeeds, it is answered with status 201 for an addition and 200 otherwise, and with what was
  -- written or the key of what was deleted; the allocator has asked the provider for its data again,
  -- and has taken it if both answers came; and the lease of a static host that was added is recorded
  -- (unless its address does not resolve, or a statement was to fail), that of a deleted one released,
  -- that of an updated one released and then recorded. If the provider does not succeed, the status
  -- is 400 when it found the input invalid, else 403 when it takes no writes and 500 when it does,
  -- and the allocator, its leases included, is as it was.
  pub handle-Reports :
      (route : Api.Route) (w : Option Write) (s : Api.Daemon D)
      → UniqueIps s.alloc.db.leases
      → Asks route w
      → ReportsOn s w (Api.handle env stats json run m route s)
  unfolding Api.handle send aftermath
  handle-Reports _ _ s u (post_subnet c) =
      let w : Write = write_add_subnet c in after_write-Reports w s (send json run m w s.provider) u
  handle-Reports _ _ s u (put_subnet network c) =
      let w : Write = write_update_subnet (record c { network = network }) in
      after_write-Reports w s (send json run m w s.provider) u
  handle-Reports _ _ s u (remove_subnet network) =
      let w : Write = write_delete_subnet network in
      after_write-Reports w s (send json run m w s.provider) u
  handle-Reports _ _ s u (post_static h) =
      let w : Write =
        write_add_static_host (record h { mac_address = normalize_mac h.mac_address }) in
      after_write-Reports w s (send json run m w s.provider) u
  handle-Reports _ _ s u (put_static mac h) =
      let w : Write = write_update_static_host (record h { mac_address = normalize_mac mac }) in
      after_write-Reports w s (send json run m w s.provider) u
  handle-Reports _ _ s u (remove_static mac) =
      let w : Write = write_delete_static_host (normalize_mac mac) in
      after_write-Reports w s (send json run m w s.provider) u
  handle-Reports _ _ s u malformed_subnet = refl
  handle-Reports _ _ s u (malformed_update network) = refl
  handle-Reports _ _ s u malformed_static = refl
  handle-Reports _ _ s u (malformed_host mac) = refl
