-- ===== src/Config.antt =====
-- internal/config/config.go: the parts of the configuration that the daemon acts on. An `int` is an
-- integer, `*int` an optional one.
use go_dhcpd.Base.{
  ℕ, zero, suc, Bool, List, [], ◌∷◌, Option, Text, codes, ℤ, pos, negsuc, to_lower, ◌≡◌, refl,
  to_lower_idem,
}

pub record GlobalConfig : Type 0 where
  pub lease_time : ℤ
  pub netbios_node_type : ℤ
  pub ping_timeout : ℤ
  pub ping_retries : ℤ
  pub database_path : Text
  pub listen_address : Text
  pub listen_interface : Text
  pub api_port : ℤ

pub record DynamicRange : Type 0 where
  pub start_address : Text
  pub end_address : Text

pub record SubnetConfig : Type 0 where
  pub network : Text
  pub netmask : Text
  pub dynamic_ranges : List DynamicRange
  pub enable_bootp : Bool
  pub next_server : Text
  pub server_hostname : Text
  pub boot_filename : Text
  pub netbios_node_type : Option ℤ
  pub domain_name_servers : List Text
  pub domain_name : Text
  pub domain_search : List Text
  pub interface_mtu : Option ℤ
  pub ntp_servers : List Text
  pub time_servers : List Text
  pub smtp_servers : List Text
  pub lpr_servers : List Text
  pub netbios_name_servers : List Text
  pub netbios_dd_servers : List Text
  pub routers : List Text

pub record StaticHost : Type 0 where
  pub mac_address : Text
  pub ip_address : Text
  pub hostname : Text

-- `NormalizeMAC`, on ASCII text.
unfoldable pub normalize_mac : Text → Text
normalize_mac mac = to_lower mac

pub normalize_mac_idem : (mac : Text) → normalize_mac (normalize_mac mac) ≡ normalize_mac mac
unfolding normalize_mac
normalize_mac_idem mac = to_lower_idem mac

abbrev default_int : ℤ → ℕ → ℤ
default_int (pos zero) d = pos d
default_int (pos (suc n)) d = pos (suc n)
default_int (negsuc n) d = negsuc n

abbrev default_text : Text → Text → Text
default_text [] d = d
default_text (c ∷ s) d = c ∷ s

-- What `LoadConfig` fills in for the global settings that a file leaves out.
unfoldable pub with_defaults : GlobalConfig → GlobalConfig
with_defaults g = record g {
  lease_time = default_int g.lease_time 86400;
  netbios_node_type = default_int g.netbios_node_type 8;
  ping_timeout = default_int g.ping_timeout 1000;
  ping_retries = default_int g.ping_retries 2;
  database_path = default_text g.database_path (codes "/var/lib/go-dhcpd/dhcpd.db");
  listen_address = default_text g.listen_address (codes "0.0.0.0");
  api_port = default_int g.api_port 18467;
}

default_int_idem : (n : ℤ) (d : ℕ) → default_int (default_int n d) d ≡ default_int n d
default_int_idem (pos zero) zero = refl
default_int_idem (pos zero) (suc d) = refl
default_int_idem (pos (suc n)) d = refl
default_int_idem (negsuc n) d = refl

default_text_idem : (t d : Text) → default_text (default_text t d) d ≡ default_text t d
default_text_idem [] [] = refl
default_text_idem [] (c ∷ d) = refl
default_text_idem (c ∷ s) d = refl

-- A configuration that is saved and loaded again is filled in the same way.
pub with_defaults_idem : (g : GlobalConfig) → with_defaults (with_defaults g) ≡ with_defaults g
unfolding with_defaults
with_defaults_idem g = λ i. record g {
  lease_time = default_int_idem g.lease_time 86400 i;
  netbios_node_type = default_int_idem g.netbios_node_type 8 i;
  ping_timeout = default_int_idem g.ping_timeout 1000 i;
  ping_retries = default_int_idem g.ping_retries 2 i;
  database_path = default_text_idem g.database_path (codes "/var/lib/go-dhcpd/dhcpd.db") i;
  listen_address = default_text_idem g.listen_address (codes "0.0.0.0") i;
  api_port = default_int_idem g.api_port 18467 i;
}
