-- ===== src/Server/Routes.antt =====
-- `sendPacket` of internal/dhcp/server.go: the destinations of the replies.
use go_dhcpd.Base.{
  ℕ, ◌≡◌, refl, ap, ◌∙◌, Bool, true, false, not, ◌&&◌, ◌/◌, ◌%◌, ◌==◌, if◌then◌else◌, text_eq,
}
use go_dhcpd.Net.{Ip, ipv4_zero, ipv4_broadcast, is_unspecified}
use go_dhcpd.Config.{GlobalConfig, SubnetConfig}
use go_dhcpd.Packet.{Packet}
use go_dhcpd.Replies.{create_offer, create_ack, create_nak}
use go_dhcpd.Replies.Kinds.{create_offer-Gives, create_ack-Gives, create_nak-Refuses}
use go_dhcpd.Server.{destination}

-- The relay's server port, or else everybody's client port.
abbrev pub relay_or_broadcast : Packet → Ip × ℕ
relay_or_broadcast request =
    if is_unspecified request.gi_addr then (ipv4_broadcast, 68) else (request.gi_addr, 67)

zero-unspecified : is_unspecified ipv4_zero ≡ true
unfolding is_unspecified text_eq
zero-unspecified = refl

abbrev to_client : Bool → Ip → Ip × ℕ
to_client b ci_addr =
    if b && not (is_unspecified ci_addr) then (ci_addr, 68) else (ipv4_broadcast, 68)

to_client_zero : (b : Bool) → to_client b ipv4_zero ≡ (ipv4_broadcast, 68)
to_client_zero true = rw zero-unspecified refl
to_client_zero false = refl

abbrev route : Bool → Ip → Ip → Ip × ℕ
route b gi_addr ci_addr = if is_unspecified gi_addr then to_client b ci_addr else (gi_addr, 67)

destination-no_client :
    (request q : Packet)
    → q.gi_addr ≡ request.gi_addr
    → q.ci_addr ≡ ipv4_zero
    → destination q ≡ relay_or_broadcast request
unfolding destination
destination-no_client request q g c =
    ap (λ gi. route (q.flags / 32768 % 2 == 0) gi q.ci_addr) g
    ∙ ap (route (q.flags / 32768 % 2 == 0) request.gi_addr) c
    ∙ ap (λ d. if is_unspecified request.gi_addr then d else (request.gi_addr, 67))
        (to_client_zero (q.flags / 32768 % 2 == 0))

-- An OFFER, an ACK and a NAK go to the relay that the request names, or else to everybody: never to
-- the client's own address, even if the request gives it and the broadcast flag is not set.
pub destination-dhcp_reply :
    (global : GlobalConfig) (server_ip : Ip) (request : Packet) (ip : Ip) (subnet : SubnetConfig)
    → (destination (create_offer global server_ip request ip subnet) ≡ relay_or_broadcast request)
      × (destination (create_ack global server_ip request ip subnet) ≡ relay_or_broadcast request)
      × (destination (create_nak global server_ip request) ≡ relay_or_broadcast request)
destination-dhcp_reply global server_ip request ip subnet =
    let offer = create_offer-Gives global server_ip request ip subnet in
    let ack = create_ack-Gives global server_ip request ip subnet in
    let nak = create_nak-Refuses global server_ip request in
    (
      destination-no_client request _ offer.0.gi_addr offer.1.ci_addr,
      destination-no_client request _ ack.0.gi_addr ack.1.ci_addr,
      destination-no_client request _ nak.answers.gi_addr nak.ci_addr,
    )
