-- ===== src/Packet/Build/Code.antt =====
-- The option codes, operation codes and message types of internal/dhcp/packet.go.
use go_dhcpd.Base.{ℕ}

abbrev pub subnet_mask : ℕ
subnet_mask = 1

abbrev pub time_server : ℕ
time_server = 4

abbrev pub router : ℕ
router = 3

abbrev pub dns : ℕ
dns = 6

abbrev pub lpr_server : ℕ
lpr_server = 9

abbrev pub hostname : ℕ
hostname = 12

abbrev pub domain_name : ℕ
domain_name = 15

abbrev pub interface_mtu : ℕ
interface_mtu = 26

abbrev pub ntp_servers : ℕ
ntp_servers = 42

abbrev pub netbios_name_servers : ℕ
netbios_name_servers = 44

abbrev pub netbios_dd_server : ℕ
netbios_dd_server = 45

abbrev pub netbios_node_type : ℕ
netbios_node_type = 46

abbrev pub requested_ip_address : ℕ
requested_ip_address = 50

abbrev pub lease_time : ℕ
lease_time = 51

abbrev pub message_type : ℕ
message_type = 53

abbrev pub server_identifier : ℕ
server_identifier = 54

abbrev pub smtp_server : ℕ
smtp_server = 69

abbrev pub domain_search : ℕ
domain_search = 119

-- The operation codes and the message types.
abbrev pub boot_request : ℕ
boot_request = 1

abbrev pub boot_reply : ℕ
boot_reply = 2

abbrev pub dhcp_discover : ℕ
dhcp_discover = 1

abbrev pub dhcp_offer : ℕ
dhcp_offer = 2

abbrev pub dhcp_request : ℕ
dhcp_request = 3

abbrev pub dhcp_decline : ℕ
dhcp_decline = 4

abbrev pub dhcp_ack : ℕ
dhcp_ack = 5

abbrev pub dhcp_nak : ℕ
dhcp_nak = 6

abbrev pub dhcp_release : ℕ
dhcp_release = 7

abbrev pub dhcp_inform : ℕ
dhcp_inform = 8
