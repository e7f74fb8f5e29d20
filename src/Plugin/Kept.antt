-- ===== src/Plugin/Kept.antt =====
-- internal/plugin/manager.go: what a loaded manager has checked, and the writes that it refuses.
use go_dhcpd.Base.{
  true, false, Option, none, some, Bool-cases, ◌⊎◌, inl, inr, Text, is_empty, read_only, Result, ok,
  err, and_then, ◌≡◌, refl, ◌∙◌, arith, Exec, ◌>>=◌, pure,
}
use go_dhcpd.Config.{SubnetConfig, StaticHost}
use go_dhcpd.Plugin.{
  Codec, Process, Manager, FileInfo, Response, Capabilities, Request, call, fetch_capabilities,
  unqueried, new_manager, validate_plugin_path, add_subnet, update_subnet, delete_subnet,
  add_static_host, update_static_host, delete_static_host, write, action_capabilities,
  protocol_version, Status, status_success, status_error, status_validation_error, status_other,
  lift, or_failed, after_run, reading,
}

-- The six writes.
pub data Write : Type 0 where
  write_add_subnet write_update_subnet : SubnetConfig → Write
  write_delete_subnet : Text → Write
  write_add_static_host write_update_static_host : StaticHost → Write
  write_delete_static_host : Text → Write

module _ {S : Type 0} (json : Codec) (run : Process S) where
  unfoldable pub send : Manager → Write → Exec S (Unit {0})
  unfolding add_subnet update_subnet delete_subnet add_static_host update_static_host
      delete_static_host
  send m (write_add_subnet s) = add_subnet json run m s
  send m (write_update_subnet s) = update_subnet json run m s
  send m (write_delete_subnet network) = delete_subnet json run m network
  send m (write_add_static_host h) = add_static_host json run m h
  send m (write_update_static_host h) = update_static_host json run m h
  send m (write_delete_static_host mac) = delete_static_host json run m mac

  pub send-read_only :
      (m : Manager) (w : Write) (s : S) → m.caps.writable ≡ false → send m w s ≡ (err read_only, s)
  unfolding send write
  send-read_only m (write_add_subnet c) s h = rw h refl
  send-read_only m (write_update_subnet c) s h = rw h refl
  send-read_only m (write_delete_subnet n) s h = rw h refl
  send-read_only m (write_add_static_host c) s h = rw h refl
  send-read_only m (write_update_static_host c) s h = rw h refl
  send-read_only m (write_delete_static_host n) s h = rw h refl

  -- The first request that a provider is sent.
  abbrev pub asked : (Text → Option Text) → Request
  asked settings = record {
    version = protocol_version;
    action = action_capabilities;
    settings = settings;
    payload = none;
  }

  -- The provider granted writes: it ran, reported success, and its response says so.
  abbrev pub Grants : (Text → Option Text) → S → Type 0
  Grants settings s =
      (resp : Response) × (caps : Capabilities) × ((run (asked settings) s).0 ≡ some resp)
      × (resp.status ≡ status_success)
      × (json.decode_capabilities resp.payload ≡ some caps)
      × (caps.writable ≡ true)

  -- Every write is refused, and does not run the provider.
  abbrev pub Refuses : Manager → Type 0
  Refuses m = (w : Write) (t : S) → send m w t ≡ (err read_only, t)

  module _ (stat : Text → Option FileInfo) (name path : Text) (settings : Text → Option Text)
      (s : S) (m : Manager) where
    abbrev with_caps : Capabilities → Manager
    with_caps caps = record (unqueried json run name path settings) { caps = caps }

    abbrev pub Loaded : Type 0
    Loaded = (validate_plugin_path stat path ≡ ok tt) × (Grants settings s ⊎ Refuses m)

    by_caps :
        (resp : Response) (caps : Capabilities)
        → (run (asked settings) s).0 ≡ some resp
        → resp.status ≡ status_success
        → json.decode_capabilities resp.payload ≡ some caps
        → m ≡ with_caps caps
        → Grants settings s ⊎ Refuses m
    by_caps resp caps ran success told is = elim (Bool-cases caps.writable) [
      | inl writes ↦ inl (resp, caps, ran, success, told, writes)
      | inr reads ↦ inr λ w t. send-read_only m w t ((λ i. (is i).caps.writable) ∙ reads)
    ]

    -- What `NewManager` makes of the response.
    abbrev finished : Result Response × S → Result Manager
    finished r =
        (and_then (λ (caps : Capabilities). pure (with_caps caps))
          (and_then (λ (resp : Response). lift (or_failed (json.decode_capabilities resp.payload)))
            r)).0

    by_decoded :
        (resp : Response) (t : S) (o : Option Capabilities)
        → json.decode_capabilities resp.payload ≡ o
        → run (asked settings) s ≡ (some resp, t)
        → resp.status ≡ status_success
        → (and_then (λ (caps : Capabilities). pure (with_caps caps)) (or_failed o, t)).0 ≡ ok m
        → Grants settings s ⊎ Refuses m
    by_decoded resp t none told ran success h = absurd (cc)
    by_decoded resp t (some caps) told ran success h =
        by_caps resp caps (λ i. (ran i).0) success told (ground arith)

    by_status :
        (resp : Response) (t : S) (st : Status)
        → resp.status ≡ st
        → run (asked settings) s ≡ (some resp, t)
        → finished (reading resp st, t) ≡ ok m
        → Grants settings s ⊎ Refuses m
    by_status resp t status_success is ran h =
        by_decoded resp t (json.decode_capabilities resp.payload) refl ran is h
    by_status resp t status_error is ran h = absurd (cc)
    by_status resp t status_validation_error is ran h = absurd (cc)
    by_status resp t (status_other word) is ran h = absurd (cc)

    by_response :
        (o : Option Response × S)
        → run (asked settings) s ≡ o
        → finished (after_run o) ≡ ok m
        → Grants settings s ⊎ Refuses m
    by_response (none, t) ran h = absurd (cc)
    by_response (some resp, t) ran h = by_status resp t resp.status refl ran h

    by_path :
        (v : Result (Unit {0}))
        → validate_plugin_path stat path ≡ v
        → (and_then
            (λ (u : Unit {0}).
              fetch_capabilities json run (unqueried json run name path settings)
              >>= λ (caps : Capabilities). pure (with_caps caps))
            (v, s)).0
          ≡ ok m
        → Loaded
    unfolding fetch_capabilities call
    by_path (err e) valid h = absurd (cc)
    by_path (ok u) valid h = (valid, by_response (run (asked settings) s) refl h)

    -- If `NewManager` loads a provider, its path has passed validation, and either the provider was
    -- run with the request for its capabilities and answered with success that it takes writes, or
    -- every write through the manager, at any later time, is refused without running the provider.
    pub new_manager-Loaded : (new_manager json run stat name path settings s).0 ≡ ok m → Loaded
    unfolding new_manager
    new_manager-Loaded h = elim (Bool-cases (is_empty name)) [
      | inl unnamed ↦ absurd (let g = rw unnamed at h in cc)
      | inr named ↦ by_path (validate_plugin_path stat path) refl (rw named at h)
    ]
