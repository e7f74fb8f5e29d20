-- ===== src/Examples/Granting.antt =====
-- Examples of a granted REQUEST and of the frames that carry one.
use go_dhcpd.Base.{
  ◌≡◌, refl, true, false, List, [], ◌∷◌, ◌++◌, some, none, ok, any, not, ltb, All, ◌<◌, arith, keep,
  drop, replicate, Bytes, text_eq, to_lower,
}
use go_dhcpd.Net.{Ip, equal, to4, contains, mask_ip, is_unspecified}
use go_dhcpd.Net.Print.{ip_string, parse_ip, mac_string}
use go_dhcpd.Net.Quad.{print_quad, decimal}
use go_dhcpd.Config.{normalize_mac}
use go_dhcpd.Db.{holds, latest}
use go_dhcpd.Db.Rows.{row}
use go_dhcpd.Options.{lookup}
use go_dhcpd.Packet.{Packet}
use go_dhcpd.Packet.Build.{mac_address_string, get_requested_ip, get_server_identifier}
use go_dhcpd.Allocator.{static_ip, row_available, all_answered, or_nil}
use go_dhcpd.Allocator.Grants.{Passed}
use go_dhcpd.Server.{Server, handle_request, is_foreign, wanted, find_subnet_for_ip}
use go_dhcpd.Server.Progress.{Acknowledged, handle_request-Acknowledged, handle_request-renewal}
use go_dhcpd.RawSocket.{Received, again, frame, read_dhcp_packet}
use go_dhcpd.RawSocket.Frames.{
  udp_frame, read_dhcp_packet-udp_frame, first_datagram, read_dhcp_packet-first_datagram,
}
use go_dhcpd.Examples.{quiet, office, others, daemon, request}
use go_dhcpd.Examples.Tables.{table-UniqueIps}

-- The new client asks for the next address.
abbrev polite : Packet
polite = record request { options = (53, 3 ∷ []) ∷ (50, 10 ∷ 0 ∷ 0 ∷ 11 ∷ []) ∷ [] }

abbrev next_ip : Ip
next_ip = 10 ∷ 0 ∷ 0 ∷ 11 ∷ []

polite_own : is_foreign daemon.server_ip (get_server_identifier polite) ≡ false
unfolding is_foreign get_server_identifier lookup
polite_own = refl

polite-wanted : wanted polite (get_requested_ip polite) ≡ some next_ip
unfolding wanted get_requested_ip lookup is_unspecified text_eq
polite-wanted = refl

polite_dynamic :
    static_ip quiet (normalize_mac (mac_address_string polite)) daemon.allocator.static ≡ none
unfolding static_ip normalize_mac mac_address_string mac_string to_lower text_eq
polite_dynamic = refl

polite_unleased :
    latest (keep (holds (normalize_mac (mac_address_string polite))) daemon.allocator.db.leases)
    ≡ none
unfolding latest normalize_mac mac_address_string mac_string to_lower text_eq
polite_unleased = refl

polite-Passed : Passed quiet next_ip (normalize_mac (mac_address_string polite)) daemon.allocator
unfolding row row_available all_answered ip_string text_eq print_quad decimal
polite-Passed = record { allowed = refl; free = refl; silent = refl }

next_ip-office : find_subnet_for_ip daemon.allocator.subnets next_ip ≡ some office
unfolding find_subnet_for_ip parse_ip to4 contains mask_ip text_eq
next_ip-office = refl

handle_request-Acknowledged_example :
    (s' : Server) × (handle_request quiet 0 polite daemon ≡ some s')
    × Acknowledged quiet 3600 polite next_ip office daemon s'
handle_request-Acknowledged_example =
    handle_request-Acknowledged quiet 0 polite next_ip office daemon 3600 table-UniqueIps refl refl
      refl (omega arith) polite_own polite-wanted polite_dynamic polite_unleased polite-Passed
      next_ip-office

-- The other client renews its lease.
abbrev renewing : Packet
renewing = record request {
  ci_addr = 10 ∷ 0 ∷ 0 ∷ 10 ∷ [];
  ch_addr = 2 ∷ 0 ∷ 0 ∷ 0 ∷ 0 ∷ 34 ∷ [];
  options = (53, 3 ∷ []) ∷ [];
}

abbrev held_ip : Ip
held_ip = 10 ∷ 0 ∷ 0 ∷ 10 ∷ []

renewing-wanted : wanted renewing (get_requested_ip renewing) ≡ some held_ip
unfolding wanted get_requested_ip lookup is_unspecified text_eq
renewing-wanted = refl

renewing_own : is_foreign daemon.server_ip (get_server_identifier renewing) ≡ false
unfolding is_foreign get_server_identifier lookup
renewing_own = refl

renewing_dynamic :
    static_ip quiet (normalize_mac (mac_address_string renewing)) daemon.allocator.static ≡ none
unfolding static_ip normalize_mac mac_address_string mac_string to_lower text_eq
renewing_dynamic = refl

renewing_held :
    latest (keep (holds (normalize_mac (mac_address_string renewing))) daemon.allocator.db.leases)
    ≡ some others
unfolding latest normalize_mac mac_address_string mac_string to_lower text_eq
renewing_held = refl

held_same : equal (or_nil (parse_ip others.ip_address)) held_ip ≡ true
unfolding equal parse_ip text_eq
held_same = refl

held_ip-office : find_subnet_for_ip daemon.allocator.subnets held_ip ≡ some office
unfolding find_subnet_for_ip parse_ip to4 contains mask_ip text_eq
held_ip-office = refl

handle_request-renewal_example :
    (s' : Server) × (handle_request quiet 0 renewing daemon ≡ some s')
    × Acknowledged quiet 3600 renewing held_ip office daemon s'
handle_request-renewal_example =
    handle_request-renewal quiet 0 renewing held_ip office daemon others 3600 table-UniqueIps refl
      refl refl (omega arith) renewing_own renewing-wanted renewing_dynamic renewing_held
      (omega arith) held_same held_ip-office

abbrev macs : Bytes
macs = replicate 6 255 ++ (2 ∷ 0 ∷ 0 ∷ 0 ∷ 0 ∷ 17 ∷ [])

-- Version 4, five words, protocol 17.
abbrev ip_header : Bytes
ip_header = 69 ∷ 0 ∷ 1 ∷ 72 ∷ 0 ∷ 0 ∷ 0 ∷ 0 ∷ 64 ∷ 17 ∷ replicate 10 0

-- The test decides whether all are bytes.
all_below : (bs : Bytes) → any (λ b. not (ltb b 256)) bs ≡ false → All (λ b. b < 256) bs
all_below [] h = tt
all_below (b ∷ bs) h = (ground arith, all_below bs (ground arith))

abbrev carrier : Bytes
carrier = udp_frame macs ip_header 0 68 0 0 (1 ∷ 2 ∷ 3 ∷ [])

read_dhcp_packet-udp_frame_example :
    read_dhcp_packet (frame carrier ∷ []) (replicate 1500 7)
    ≡ some (ok (1 ∷ 2 ∷ 3 ∷ [], drop 6 macs), [])
read_dhcp_packet-udp_frame_example =
    read_dhcp_packet-udp_frame macs ip_header 0 68 0 0 (1 ∷ 2 ∷ 3 ∷ []) [] (replicate 1500 7) refl
      (record { version = refl; ihl = refl; size = omega arith; protocol = refl }) (omega arith)
      (all_below carrier refl)

abbrev arrivals : List Received
arrivals = again ∷ frame (replicate 60 7) ∷ frame carrier ∷ []

read_dhcp_packet-first_datagram_example :
    read_dhcp_packet arrivals (replicate 1500 0) ≡ first_datagram arrivals
read_dhcp_packet-first_datagram_example =
    read_dhcp_packet-first_datagram arrivals (replicate 1500 0)
