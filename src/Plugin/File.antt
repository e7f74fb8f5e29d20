-- ===== src/Plugin/File.antt =====
-- cmd/plugins/file-config/main.go: the provider that reads the daemon's own configuration file, and
-- takes no writes. Its state is the file, as `LoadConfig` reads it: `none` where it cannot.
use go_dhcpd.Base.{false, List, [], map, Option, none, some, if◌then◌else◌, Text, codes, is_empty}
use go_dhcpd.Config.{SubnetConfig, StaticHost, normalize_mac}
use go_dhcpd.Plugin.{
  Action, action_capabilities, action_get_subnets, action_get_static_hosts, action_add_subnet,
  action_update_subnet, action_delete_subnet, action_add_static_host, action_update_static_host,
  action_delete_static_host, action_other, status_success, status_error, Request, Response,
  Capabilities, Codec, Process,
}
use go_dhcpd.Plugin.Sqlite.{reply}

pub record ConfigFile : Type 0 where
  pub subnets : List SubnetConfig
  pub static : List StaticHost

abbrev pub Files : Type 0
Files = Text → Option ConfigFile

-- `loadConfig`, on the setting `config_path`.
unfoldable pub load_config : Option Text → Files → Option ConfigFile
load_config none files = none
load_config (some path) files = if is_empty path then none else files path

abbrev pub normalized : StaticHost → StaticHost
normalized h = record h { mac_address = normalize_mac h.mac_address }

abbrev pub file_capabilities : Capabilities
file_capabilities = record { name = codes "file-config"; version = codes "1.0.0"; writable = false }

module _ (json : Codec) where
  -- `handleGetSubnets` and `handleGetStaticHosts`, on the configuration.
  abbrev send_subnets : Option ConfigFile → Response
  send_subnets none = reply status_error []
  send_subnets (some cfg) = reply status_success (json.encode_subnets cfg.subnets)

  abbrev send_hosts : Option ConfigFile → Response
  send_hosts none = reply status_error []
  send_hosts (some cfg) = reply status_success (json.encode_hosts (map normalized cfg.static))

  -- `main`, on the action of the request.
  unfoldable pub respond : Action → Request → Files → Response
  unfolding load_config
  respond action_capabilities req files =
      reply status_success (json.encode_capabilities file_capabilities)
  respond action_get_subnets req files =
      send_subnets (load_config (req.settings (codes "config_path")) files)
  respond action_get_static_hosts req files =
      send_hosts (load_config (req.settings (codes "config_path")) files)
  respond action_add_subnet req files = reply status_error []
  respond action_update_subnet req files = reply status_error []
  respond action_delete_subnet req files = reply status_error []
  respond action_add_static_host req files = reply status_error []
  respond action_update_static_host req files = reply status_error []
  respond action_delete_static_host req files = reply status_error []
  respond (action_other name) req files = reply status_error []

  unfoldable pub file_config : Process Files
  unfolding respond
  file_config req files = (some (respond req.action req files), files)
