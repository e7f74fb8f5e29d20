-- ===== src/Replies.antt =====
-- The methods of internal/dhcp/server.go that make a reply. They read two fields of the server, its
-- own address and the global configuration, which are arguments here.
pub mod Echo
pub mod Kinds
pub mod Sizes
pub mod Parsed
use go_dhcpd.Base.{
  ℕ, Bool, true, false, List, [], ◌∷◌, Option, none, some, if◌then◌else◌, length, ◌==◌, replicate,
  Bytes, Text, is_empty, ℤ, uint8, uint16, uint32,
}
use go_dhcpd.Net.{Ip, ipv4_zero, to4}
use go_dhcpd.Net.Print.{parse_ip}
use go_dhcpd.Config.{GlobalConfig, SubnetConfig}
use go_dhcpd.Packet.{Packet}
use go_dhcpd.Packet.Build.{
  set_message_type, set_lease_time, set_server_identifier, set_subnet_mask, set_router, set_dns,
  set_domain_name, set_domain_search, set_ntp_servers, set_time_servers, set_smtp_servers,
  set_lpr_servers, set_netbios_name_servers, set_netbios_dd_servers, set_netbios_node_type,
  set_interface_mtu, set_server_hostname, set_boot_filename,
}
use go_dhcpd.Packet.Build.Code

-- `parseIPs`: what does not parse is left out.
unfoldable pub parse_ips : List Text → List Ip
parse_ips [] = []
parse_ips (t ∷ ts) = elim (parse_ip t) [ none ↦ parse_ips ts | some ip ↦ ip ∷ parse_ips ts ]

-- `if len(xs) > 0 { packet.Set...(xs) }`
unfoldable pub if_any {ℓ} : {A : Type ℓ} → List A → (List A → Packet → Packet) → Packet → Packet
if_any [] set p = p
if_any (x ∷ xs) set p = set (x ∷ xs) p

unfoldable pub if_ips : List Text → (Packet → List Ip → Packet) → Packet → Packet
unfolding if_any
if_ips ts set = if_any ts (λ us p. set p (parse_ips us))

-- A mask that is not IPv4 is `nil`.
unfoldable pub mask_option : Option Ip → Packet → Packet
mask_option none p = p
mask_option (some netmask) p =
    if length (to4 netmask) == 4 then set_subnet_mask p (to4 netmask) else p

abbrev pub or_default : Option ℤ → ℤ → ℤ
or_default none d = d
or_default (some n) d = n

unfoldable pub mtu_option : Option ℤ → Packet → Packet
mtu_option none p = p
mtu_option (some n) p = set_interface_mtu p (uint16 n)

unfoldable pub node_type_option : ℕ → Packet → Packet
node_type_option n p = set_netbios_node_type p n

infixl 4 ◌|>◌
abbrev pub ◌|>◌ : Packet → (Packet → Packet) → Packet
p |> f = f p

module _ (global : GlobalConfig) where
  -- `addSubnetOptions`
  unfoldable pub add_subnet_options : SubnetConfig → Packet → Packet
  add_subnet_options subnet p =
      p
      |> mask_option (parse_ip subnet.netmask)
      |> if_ips subnet.routers set_router
      |> if_ips subnet.domain_name_servers set_dns
      |> if_any subnet.domain_name (λ name q. set_domain_name q name)
      |> if_any subnet.domain_search (λ ds q. set_domain_search q ds)
      |> if_ips subnet.ntp_servers set_ntp_servers
      |> if_ips subnet.time_servers set_time_servers
      |> if_ips subnet.smtp_servers set_smtp_servers
      |> if_ips subnet.lpr_servers set_lpr_servers
      |> if_ips subnet.netbios_name_servers set_netbios_name_servers
      |> if_ips subnet.netbios_dd_servers set_netbios_dd_servers
      |> node_type_option (uint8 (or_default subnet.netbios_node_type global.netbios_node_type))
      |> mtu_option subnet.interface_mtu

  -- The struct literal that each reply starts from.
  abbrev pub blank : Packet → Ip → Ip → Ip → Packet
  blank request ci_addr yi_addr si_addr = record {
    op_code = Code.boot_reply;
    hw_type = request.hw_type;
    hw_len = request.hw_len;
    hops = 0;
    xid = request.xid;
    secs = 0;
    flags = request.flags;
    ci_addr = ci_addr;
    yi_addr = yi_addr;
    si_addr = si_addr;
    gi_addr = request.gi_addr;
    ch_addr = request.ch_addr;
    s_name = replicate 64 0;
    file = replicate 128 0;
    options = [];
  }

  -- `createOffer` and `createAck`, which differ in the message type.
  abbrev pub create_typed : ℕ → Ip → Packet → Ip → SubnetConfig → Packet
  create_typed msg_type server_ip request ip subnet =
      blank request ipv4_zero (to4 ip) (to4 server_ip)
      |> (λ q. set_message_type q msg_type)
      |> (λ q. set_server_identifier q server_ip)
      |> (λ q. set_lease_time q (uint32 global.lease_time))
      |> add_subnet_options subnet

  unfoldable pub create_offer : Ip → Packet → Ip → SubnetConfig → Packet
  create_offer = create_typed Code.dhcp_offer

  unfoldable pub create_ack : Ip → Packet → Ip → SubnetConfig → Packet
  create_ack = create_typed Code.dhcp_ack

  -- The packet of `sendNak`.
  unfoldable pub create_nak : Ip → Packet → Packet
  create_nak server_ip request =
      set_server_identifier
        (set_message_type (blank request ipv4_zero ipv4_zero (to4 server_ip)) Code.dhcp_nak)
        server_ip

  abbrev pub parsed_or_zero : Option Ip → Ip
  parsed_or_zero none = ipv4_zero
  parsed_or_zero (some ip) = to4 ip

  -- The `siaddr` of a BootP reply.
  unfoldable pub boot_server : Ip → SubnetConfig → Ip
  boot_server server_ip subnet =
      if is_empty subnet.next_server
      then if is_empty subnet.boot_filename then ipv4_zero else to4 server_ip
      else parsed_or_zero (parse_ip subnet.next_server)

  -- `createBootReply`
  unfoldable pub create_boot_reply : Ip → Packet → Ip → SubnetConfig → Packet
  create_boot_reply server_ip request ip subnet =
      blank request request.ci_addr (to4 ip) (boot_server server_ip subnet)
      |> if_any subnet.server_hostname (λ name q. set_server_hostname q name)
      |> if_any subnet.boot_filename (λ name q. set_boot_filename q name)
      |> add_subnet_options subnet
