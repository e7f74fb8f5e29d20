-- ===== src/Plugin.antt =====
-- internal/pluginapi/protocol.go and internal/plugin/manager.go: the requests that the daemon sends to
-- its configuration provider, and what it makes of the responses. The provider is a process with a
-- state of its own; JSON is the argument `Codec`.
pub mod Sqlite
pub mod File
pub mod Kept
pub mod Stored
use go_dhcpd.Base.{
  ℕ, ◌/◌, ◌%◌, ◌^◌, Bool, true, false, not, ◌||◌, List, [], ◌∷◌, Option, none, some, ◌==◌,
  if◌then◌else◌, Bytes, Text, is_empty, invalid, read_only, plugin_failed, Result, ok, err, Exec,
  pure, raise, ◌>>=◌, ◌>>◌,
}
use go_dhcpd.Config.{SubnetConfig, StaticHost}

-- `protocol_version`
abbrev pub protocol_version : ℕ
protocol_version = 1

pub data Action : Type 0 where
  action_capabilities action_get_subnets action_get_static_hosts : Action
  action_add_subnet action_update_subnet action_delete_subnet : Action
  action_add_static_host action_update_static_host action_delete_static_host : Action
  action_other : Text → Action

pub data Status : Type 0 where
  status_success status_error status_validation_error : Status
  status_other : Text → Status

-- `settings` are the settings whose value is a string.
pub record Request : Type 0 where
  pub version : ℕ
  pub action : Action
  pub settings : Text → Option Text
  pub payload : Option Bytes

pub record Response : Type 0 where
  pub status : Status
  pub payload : Bytes

pub record Capabilities : Type 0 where
  pub name : Text
  pub version : Text
  pub writable : Bool

-- `encoding/json` on the types that are exchanged. Deletions send an object with one field.
pub record Codec : Type 0 where
  pub encode_subnet : SubnetConfig → Bytes
  pub decode_subnet : Bytes → Option SubnetConfig
  pub encode_subnets : List SubnetConfig → Bytes
  pub decode_subnets : Bytes → Option (List SubnetConfig)
  pub encode_host : StaticHost → Bytes
  pub decode_host : Bytes → Option StaticHost
  pub encode_hosts : List StaticHost → Bytes
  pub decode_hosts : Bytes → Option (List StaticHost)
  pub encode_network : Text → Bytes
  pub decode_network : Bytes → Option Text
  pub encode_mac : Text → Bytes
  pub decode_mac : Bytes → Option Text
  pub encode_capabilities : Capabilities → Bytes
  pub decode_capabilities : Bytes → Option Capabilities

-- A provider: `none` is a process that could not be run or that wrote no response.
abbrev pub Process : Type 0 → Type 0
Process S = Request → S → Option Response × S

pub record Manager : Type 0 where
  pub name : Text
  pub path : Text
  pub settings : Text → Option Text
  pub caps : Capabilities

-- What `os.Stat` tells of a file; `perm` are the nine permission bits.
pub record FileInfo : Type 0 where
  pub regular : Bool
  pub perm : ℕ

abbrev pub bit_set : ℕ → ℕ → Bool
bit_set perm k = (perm / 2 ^ k) % 2 == 1

-- `filepath.IsAbs`
abbrev pub is_abs : Text → Bool
is_abs [] = false
is_abs (c ∷ s) = c == b'/'

-- The tests of the mode: 0111 and 0022.
abbrev pub check_info : Option FileInfo → Result (Unit {0})
check_info none = err invalid
check_info (some info) =
    if not info.regular
    then err invalid
    else if not (bit_set info.perm 0 || bit_set info.perm 3 || bit_set info.perm 6)
    then err invalid
    else if bit_set info.perm 1 || bit_set info.perm 4
    then err invalid
    else ok tt

-- `validatePluginPath`
unfoldable pub validate_plugin_path : (Text → Option FileInfo) → Text → Result (Unit {0})
validate_plugin_path stat path =
    if is_empty path
    then err invalid
    else if not (is_abs path)
    then err invalid
    else check_info (stat path)

-- What `call` makes of a response.
abbrev pub reading : Response → Status → Result Response
reading r status_success = ok r
reading r status_validation_error = err invalid
reading r _ = err plugin_failed

abbrev pub after_run : {S : Type 0} → Option Response × S → Result Response × S
after_run (none, s) = (err plugin_failed, s)
after_run (some r, s) = (reading r r.status, s)

-- `json.Unmarshal`
abbrev pub or_failed : {A : Type 0} → Option A → Result A
or_failed none = err plugin_failed
or_failed (some a) = ok a

-- Data that is absent leaves a nil slice.
abbrev pub or_nil_list : {A : Type 0} → (Bytes → Option (List A)) → Bytes → Result (List A)
or_nil_list decode payload = if is_empty payload then ok [] else or_failed (decode payload)

abbrev pub lift : {S A : Type 0} → Result A → Exec S A
lift r s = (r, s)

module _ {S : Type 0} (json : Codec) (run : Process S) where
  -- `call`
  unfoldable pub call : Manager → Action → Option Bytes → Exec S Response
  call m action data_ s = after_run (
      run
        (record {
          version = protocol_version;
          action = action;
          settings = m.settings;
          payload = data_;
        })
        s)

  -- `fetchCapabilities`
  unfoldable pub fetch_capabilities : Manager → Exec S Capabilities
  unfolding call
  fetch_capabilities m = call m action_capabilities none >>= λ (resp : Response).
      lift (or_failed (json.decode_capabilities resp.payload))

  -- What `NewManager` holds before it knows the capabilities: the zero value denies writes.
  abbrev pub unqueried : Text → Text → (Text → Option Text) → Manager
  unqueried name path settings = record {
    name = name;
    path = path;
    settings = settings;
    caps = record { name = []; version = []; writable = false };
  }

  -- `NewManager`
  unfoldable pub new_manager :
      (Text → Option FileInfo) → Text → Text → (Text → Option Text) → Exec S Manager
  unfolding validate_plugin_path fetch_capabilities
  new_manager stat name path settings = if is_empty name then raise invalid else (do
    lift (validate_plugin_path stat path)
    caps ← fetch_capabilities (unqueried name path settings)
    pure (record (unqueried name path settings) { caps = caps }))

  -- `GetSubnets`
  unfoldable pub get_subnets : Manager → Exec S (List SubnetConfig)
  unfolding call
  get_subnets m = call m action_get_subnets none >>= λ (resp : Response).
      lift (or_nil_list json.decode_subnets resp.payload)

  -- `GetStaticHosts`
  unfoldable pub get_static_hosts : Manager → Exec S (List StaticHost)
  unfolding call
  get_static_hosts m = call m action_get_static_hosts none >>= λ (resp : Response).
      lift (or_nil_list json.decode_hosts resp.payload)

  -- `requireWritable`
  abbrev pub require_writable : Manager → Result (Unit {0})
  require_writable m = if m.caps.writable then ok tt else err read_only

  -- A write, on the encoded data.
  unfoldable pub write : Manager → Action → Bytes → Exec S (Unit {0})
  unfolding call
  write m action data_ = do lift (require_writable m); call m action (some data_); pure tt

  -- `writeSubnet` and `writeStaticHost`
  abbrev write_subnet : Manager → Action → SubnetConfig → Exec S (Unit {0})
  write_subnet m action s = write m action (json.encode_subnet s)

  abbrev write_static_host : Manager → Action → StaticHost → Exec S (Unit {0})
  write_static_host m action h = write m action (json.encode_host h)

  unfoldable pub add_subnet : Manager → SubnetConfig → Exec S (Unit {0})
  unfolding write
  add_subnet m s = write_subnet m action_add_subnet s

  unfoldable pub update_subnet : Manager → SubnetConfig → Exec S (Unit {0})
  unfolding write
  update_subnet m s = write_subnet m action_update_subnet s

  unfoldable pub delete_subnet : Manager → Text → Exec S (Unit {0})
  unfolding write
  delete_subnet m network = write m action_delete_subnet (json.encode_network network)

  unfoldable pub add_static_host : Manager → StaticHost → Exec S (Unit {0})
  unfolding write
  add_static_host m h = write_static_host m action_add_static_host h

  unfoldable pub update_static_host : Manager → StaticHost → Exec S (Unit {0})
  unfolding write
  update_static_host m h = write_static_host m action_update_static_host h

  unfoldable pub delete_static_host : Manager → Text → Exec S (Unit {0})
  unfolding write
  delete_static_host m mac = write m action_delete_static_host (json.encode_mac mac)
