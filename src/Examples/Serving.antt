-- ===== src/Examples/Serving.antt =====
-- Examples of the daemon.
use go_dhcpd.Base.{
  length, ◌≡◌, refl, ap, [], ◌∷◌, none, some, arith, keep, Text, text_eq, to_lower, codes, uint32,
}
use go_dhcpd.Net.Print.{mac_string}
use go_dhcpd.Config.{normalize_mac}
use go_dhcpd.Db.{holds, latest}
use go_dhcpd.Db.Rows.{row}
use go_dhcpd.Packet.{Packet}
use go_dhcpd.Packet.Build.{mac_address_string}
use go_dhcpd.Allocator.{static_ip}
use go_dhcpd.Replies.{create_boot_reply}
use go_dhcpd.Replies.Kinds.{Boots, create_boot_reply-Boots}
use go_dhcpd.Packet.Build.Code
use go_dhcpd.Server.{
  Server, handle_request, handle_packet, handle_discover, handle_bootp, run_packets,
}
use go_dhcpd.Server.Request.{Requested, handle_request-Requested}
use go_dhcpd.Server.Safety.{Canonical, Protected, handle_request-Protected}
use go_dhcpd.Server.Branches.{Discovered, handle_discover-Discovered, Booted, handle_bootp-Booted}
use go_dhcpd.Server.Handled.{Handled, handle_packet-Handled}
use go_dhcpd.Server.Runs.{Ran, run_packets-Ran}
use go_dhcpd.Net.{Ip, to4}
use go_dhcpd.Domain.{encode_domain_name, encode_labels, split_dots, trim_dot}
use go_dhcpd.Packet.{to_bytes, parse_packet, returned}
use go_dhcpd.Packet.Build.{domain_list}
use go_dhcpd.Packet.Wire.{wire_form}
use go_dhcpd.Packet.Build.Code
use go_dhcpd.Replies.{create_offer, create_ack, create_nak}
use go_dhcpd.Replies.Kinds.{Answers, Gives}
use go_dhcpd.Replies.Sizes.{Fits}
use go_dhcpd.Replies.Parsed.{IsRequest, create_ack-parsed}
use go_dhcpd.Server.{destination}
use go_dhcpd.Server.Routes.{relay_or_broadcast, destination-dhcp_reply}
use go_dhcpd.Examples.{quiet, crowded, global, office, others, daemon, request}
use go_dhcpd.Examples.Tables.{table-UniqueIps, subnets-BelowTop}

abbrev me : Text
me = codes "02:00:00:00:00:11"

client_mac : normalize_mac (mac_address_string request) ≡ me
unfolding normalize_mac mac_address_string mac_string to_lower
client_mac = refl

no_static :
    static_ip quiet (normalize_mac (mac_address_string request)) daemon.allocator.static ≡ none
unfolding static_ip normalize_mac mac_address_string mac_string to_lower text_eq
no_static = refl

no_lease :
    latest (keep (holds (normalize_mac (mac_address_string request))) daemon.allocator.db.leases)
    ≡ none
unfolding latest normalize_mac mac_address_string mac_string to_lower text_eq
no_lease = refl

client-Canonical : Canonical (normalize_mac (mac_address_string request)) daemon.allocator
client-Canonical l e = absurd (cc (no_lease))

others-Protected : Protected quiet (normalize_mac (mac_address_string request)) others
unfolding normalize_mac mac_address_string mac_string to_lower text_eq
others-Protected = record {
  other = λ e. absurd (cc (ap (text_eq (normalize_mac others.mac_address)) e));
  live = omega arith;
}

others-row : row (codes "10.0.0.10") daemon.allocator.db.leases ≡ some others
unfolding row text_eq
others-row = refl

handle_request-Protected_example :
    (s' : Server) × (handle_request quiet 4294967297 request daemon ≡ some s')
    × (row (codes "10.0.0.10") s'.allocator.db.leases ≡ some others)
handle_request-Protected_example =
    handle_request-Protected quiet 4294967297 request daemon table-UniqueIps subnets-BelowTop
      (omega arith) no_static client-Canonical (codes "10.0.0.10") others others-row
      others-Protected

handle_request-Requested_example :
    (s' : Server) × (handle_request quiet 4294967297 request daemon ≡ some s')
    × Requested quiet request daemon s'
handle_request-Requested_example =
    handle_request-Requested quiet 4294967297 request daemon table-UniqueIps subnets-BelowTop
      (omega arith)

handle_packet-Handled_example :
    (s' : Server) × (handle_packet quiet 4294967297 request daemon ≡ some s')
    × Handled request daemon s'
handle_packet-Handled_example =
    handle_packet-Handled quiet 4294967297 request daemon table-UniqueIps subnets-BelowTop
      (omega arith)

handle_discover-Discovered_example :
    (s' : Server) × (handle_discover quiet 4294967297 request daemon ≡ some s')
    × Discovered quiet request daemon s'
handle_discover-Discovered_example =
    handle_discover-Discovered quiet 4294967297 request daemon table-UniqueIps subnets-BelowTop
      (omega arith)

-- The printer boots.
abbrev boot : Packet
boot = record request { ch_addr = 2 ∷ 0 ∷ 0 ∷ 0 ∷ 0 ∷ 153 ∷ []; options = [] }

handle_bootp-Booted_example : Booted quiet boot daemon (handle_bootp quiet boot daemon)
handle_bootp-Booted_example = handle_bootp-Booted quiet boot daemon table-UniqueIps

run_packets-Ran_example :
    (s' : Server) × (run_packets 4294967297 ((quiet, request) ∷ (crowded, boot) ∷ []) daemon
      ≡ some s')
    × Ran 2 daemon s'
run_packets-Ran_example =
    run_packets-Ran 4294967297 ((quiet, request) ∷ (crowded, boot) ∷ []) daemon table-UniqueIps
      subnets-BelowTop (omega arith)

abbrev server_address : Ip
server_address = 10 ∷ 0 ∷ 0 ∷ 1 ∷ []

abbrev given_address : Ip
given_address = 10 ∷ 0 ∷ 0 ∷ 11 ∷ []

request-IsRequest : IsRequest request
unfolding to4
request-IsRequest = record {
  xid = omega arith;
  flags = omega arith;
  gi_addr = refl;
  ch_addr = refl;
  hw_len = omega arith;
}

given_v4 : length (to4 given_address) ≡ 4
unfolding to4
given_v4 = refl

server_v4 : length (to4 server_address) ≡ 4
unfolding to4
server_v4 = refl

office-Fits : Fits office
unfolding domain_list encode_domain_name encode_labels split_dots trim_dot
office-Fits = record {
  routers = omega arith;
  domain_name_servers = omega arith;
  domain_name = omega arith;
  domain_search = omega arith;
  ntp_servers = omega arith;
  time_servers = omega arith;
  smtp_servers = omega arith;
  lpr_servers = omega arith;
  netbios_name_servers = omega arith;
  netbios_dd_servers = omega arith;
}

create_ack-parsed_example :
    (parse_packet (to_bytes (create_ack global server_address request given_address office)) []
      ≡ returned (wire_form (create_ack global server_address request given_address office)))
    × Answers request (create_ack global server_address request given_address office)
    × Gives Code.dhcp_ack server_address given_address
        (uint32 global.lease_time)
        (create_ack global server_address request given_address office)
create_ack-parsed_example =
    create_ack-parsed global server_address request given_address office [] request-IsRequest
      given_v4 server_v4 office-Fits

destination-dhcp_reply_example :
    (destination (create_offer global server_address request given_address office)
      ≡ relay_or_broadcast request)
    × (destination (create_ack global server_address request given_address office)
        ≡ relay_or_broadcast request)
    × (destination (create_nak global server_address request) ≡ relay_or_broadcast request)
destination-dhcp_reply_example =
    destination-dhcp_reply global server_address request given_address office

create_boot_reply-Boots_example :
    Boots global
      (10 ∷ 0 ∷ 0 ∷ 1 ∷ [])
      boot
      (10 ∷ 0 ∷ 0 ∷ 5 ∷ [])
      office
      (create_boot_reply global (10 ∷ 0 ∷ 0 ∷ 1 ∷ []) boot (10 ∷ 0 ∷ 0 ∷ 5 ∷ []) office)
create_boot_reply-Boots_example =
    create_boot_reply-Boots global (10 ∷ 0 ∷ 0 ∷ 1 ∷ []) boot (10 ∷ 0 ∷ 0 ∷ 5 ∷ []) office
