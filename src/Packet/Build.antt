-- ===== src/Packet/Build.antt =====
-- The setters and getters of internal/dhcp/packet.go.
pub mod Code
use go_dhcpd.Base.{
  ℕ, ◌+◌, ◌%◌, Bool, true, false, List, [], ◌∷◌, ◌++◌, Option, none, some, ◌==◌, if◌then◌else◌,
  length, get_or, take, fit, Bytes, Text,
}
use go_dhcpd.Net.{Ip, to4}
use go_dhcpd.Net.Print.{mac_string}
use go_dhcpd.Options.{Options, lookup, insert}
use go_dhcpd.Domain.{encode_domain_name}
use go_dhcpd.Packet.{Packet, put_uint16, put_uint32}

-- `p.Options[k] = v`
abbrev pub set_option : ℕ → Bytes → Packet → Packet
set_option k v p = record p { options = insert k v p.options }

-- The loops that append `To4()` of each address.
unfoldable pub address_list : List Ip → Bytes
address_list [] = []
address_list (ip ∷ ips) = to4 ip ++ address_list ips

unfoldable pub domain_list : List Text → Bytes
domain_list [] = []
domain_list (d ∷ ds) = encode_domain_name d ++ domain_list ds

module _ (p : Packet) where
  unfoldable pub set_message_type : ℕ → Packet
  set_message_type msg_type = set_option Code.message_type (msg_type ∷ []) p

  unfoldable pub set_lease_time : ℕ → Packet
  set_lease_time seconds = set_option Code.lease_time (put_uint32 seconds) p

  unfoldable pub set_server_identifier : Ip → Packet
  set_server_identifier ip = set_option Code.server_identifier (to4 ip) p

  unfoldable pub set_subnet_mask : Bytes → Packet
  set_subnet_mask mask = set_option Code.subnet_mask mask p

  unfoldable pub set_router : List Ip → Packet
  set_router routers = set_option Code.router (address_list routers) p

  unfoldable pub set_dns : List Ip → Packet
  set_dns servers = set_option Code.dns (address_list servers) p

  unfoldable pub set_domain_name : Text → Packet
  set_domain_name domain = set_option Code.domain_name domain p

  unfoldable pub set_domain_search : List Text → Packet
  set_domain_search domains = set_option Code.domain_search (domain_list domains) p

  unfoldable pub set_ntp_servers : List Ip → Packet
  set_ntp_servers servers = set_option Code.ntp_servers (address_list servers) p

  unfoldable pub set_time_servers : List Ip → Packet
  set_time_servers servers = set_option Code.time_server (address_list servers) p

  unfoldable pub set_smtp_servers : List Ip → Packet
  set_smtp_servers servers = set_option Code.smtp_server (address_list servers) p

  unfoldable pub set_lpr_servers : List Ip → Packet
  set_lpr_servers servers = set_option Code.lpr_server (address_list servers) p

  unfoldable pub set_server_hostname : Text → Packet
  set_server_hostname name = record p { s_name = fit 64 0 (take 63 name) }

  unfoldable pub set_boot_filename : Text → Packet
  set_boot_filename name = record p { file = fit 128 0 (take 127 name) }

  unfoldable pub set_netbios_name_servers : List Ip → Packet
  set_netbios_name_servers servers = set_option Code.netbios_name_servers (address_list servers) p

  unfoldable pub set_netbios_dd_servers : List Ip → Packet
  set_netbios_dd_servers servers = set_option Code.netbios_dd_server (address_list servers) p

  unfoldable pub set_netbios_node_type : ℕ → Packet
  set_netbios_node_type node_type = set_option Code.netbios_node_type (node_type ∷ []) p

  unfoldable pub set_interface_mtu : ℕ → Packet
  set_interface_mtu mtu = set_option Code.interface_mtu (put_uint16 mtu) p

  unfoldable pub get_message_type : Option ℕ
  get_message_type = elim (lookup Code.message_type p.options) [
    | none ↦ none
    | some v ↦ if length v == 1 then some (get_or v 0 0) else none
  ]

  address_option : ℕ → Option Ip
  address_option k = elim (lookup k p.options) [
    | none ↦ none
    | some v ↦ if length v == 4 then some v else none
  ]

  -- `nil` is `none`.
  unfoldable pub get_requested_ip : Option Ip
  unfolding address_option
  get_requested_ip = address_option Code.requested_ip_address

  unfoldable pub get_server_identifier : Option Ip
  unfolding address_option
  get_server_identifier = address_option Code.server_identifier

  unfoldable pub mac_address_string : Text
  mac_address_string = mac_string p.ch_addr
