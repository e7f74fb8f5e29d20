-- ===== src/Replies/Parsed.antt =====
-- `createAck` of internal/dhcp/server.go through `ToBytes` and `ParsePacket`.
use go_dhcpd.Base.{◌≤◌, ◌<◌, ◌≡◌, refl, sym, ap, subst, ◌∙◌, arith, length, text_eq, Bytes, uint32}
use go_dhcpd.Net.{Ip, to4, ipv4_zero}
use go_dhcpd.Config.{GlobalConfig, SubnetConfig}
use go_dhcpd.Options.{lookup, insert}
use go_dhcpd.Packet.{Packet, to_bytes, parse_packet, returned}
use go_dhcpd.Packet.Wire.{IsWire, wire_form, parse_packet-to_bytes}
use go_dhcpd.Packet.Build.{set_message_type, set_lease_time, set_server_identifier}
use go_dhcpd.Packet.Build.Code
use go_dhcpd.Replies.{◌|>◌, blank, create_ack}
use go_dhcpd.Replies.Echo.{Kept, add_subnet_options-IsStep}
use go_dhcpd.Replies.Kinds.{Answers, Gives, create_ack-Gives}
use go_dhcpd.Replies.Sizes.{Writable, Fits, add_subnet_options-Writable}

-- A request with fields as `ParsePacket` reads them, whose hardware address has at most 16 bytes.
pub record IsRequest (p : Packet) : Type 0 where
  pub xid : p.xid < 4294967296
  pub flags : p.flags < 65536
  pub gi_addr : length (to4 p.gi_addr) ≡ 4
  pub ch_addr : length p.ch_addr ≡ p.hw_len
  pub hw_len : p.hw_len ≤ 16

zero_four : length (to4 ipv4_zero) ≡ 4
unfolding to4 text_eq
zero_four = refl

to4-to4 : (ip : Ip) → length (to4 ip) ≡ 4 → to4 (to4 ip) ≡ to4 ip
to4-to4 ip h = exact (to4 ip) h
  where
    exact : (x : Ip) → length x ≡ 4 → to4 x ≡ x
    exact x h = unfold to4 in ground arith

module _ (global : GlobalConfig) (server_ip : Ip) (request : Packet) (ip : Ip)
    (subnet : SubnetConfig) where
  before : Packet
  before =
      blank global request ipv4_zero (to4 ip) (to4 server_ip)
      |> (λ q. set_message_type q Code.dhcp_ack)
      |> (λ q. set_server_identifier q server_ip)
      |> (λ q. set_lease_time q (uint32 global.lease_time))

  module _ (r : IsRequest request) (v4 : length (to4 ip) ≡ 4)
      (sv4 : length (to4 server_ip) ≡ 4) where
    before-Writable : Writable before
    unfolding before set_message_type set_server_identifier set_lease_time lookup insert
    before-Writable = record {
      distinct = (refl, (refl, (refl, tt)));
      writable = (
        (omega arith, omega arith, omega arith),
        ((omega arith, omega arith, omega arith), ((omega arith, omega arith, omega arith), tt)),
      );
    }

    before-IsWire : IsWire before
    unfolding before set_message_type set_server_identifier set_lease_time
    before-IsWire = record {
      op_code = omega arith;
      xid = r.xid;
      secs = omega arith;
      flags = r.flags;
      ci_addr = zero_four;
      yi_addr = ap length (to4-to4 ip v4) ∙ v4;
      si_addr = ap length (to4-to4 server_ip sv4) ∙ sv4;
      gi_addr = r.gi_addr;
      ch_addr = r.ch_addr;
      hw_len = r.hw_len;
      s_name = refl;
      file = refl;
      distinct = before-Writable.distinct;
      writable = before-Writable.writable;
    }

-- The header of a packet with the fields of one that can be written.
Kept-IsWire : (p q : Packet) → IsWire p → Kept p q → Writable q → IsWire q
Kept-IsWire p q w k g =
    let h = k.0 in
    record {
      op_code = subst (λ n. n < 256) (sym h.op_code) w.op_code;
      xid = subst (λ n. n < 4294967296) (sym h.xid) w.xid;
      secs = subst (λ n. n < 65536) (sym h.secs) w.secs;
      flags = subst (λ n. n < 65536) (sym h.flags) w.flags;
      ci_addr = ap (λ x. length (to4 x)) h.ci_addr ∙ w.ci_addr;
      yi_addr = ap (λ x. length (to4 x)) h.yi_addr ∙ w.yi_addr;
      si_addr = ap (λ x. length (to4 x)) h.si_addr ∙ w.si_addr;
      gi_addr = ap (λ x. length (to4 x)) h.gi_addr ∙ w.gi_addr;
      ch_addr = ap length h.ch_addr ∙ w.ch_addr ∙ sym h.hw_len;
      hw_len = subst (λ n. n ≤ 16) (sym h.hw_len) w.hw_len;
      s_name = ap length h.s_name ∙ w.s_name;
      file = ap length h.file ∙ w.file;
      distinct = g.distinct;
      writable = g.writable;
    }

-- The bytes of an ACK are parsed as the ACK that was made, with its addresses in the 4-byte form, so
-- the client reads the type, the server, the lease time and the address that it was given: the
-- request has fields of their widths and a hardware address of at most 16 bytes, the addresses are
-- IPv4, each configured list of addresses has at most 63 of them, and the names fit a byte length.
pub create_ack-parsed :
    (global : GlobalConfig) (server_ip : Ip) (request : Packet) (ip : Ip) (subnet : SubnetConfig)
    (spare : Bytes)
    → IsRequest request
    → length (to4 ip) ≡ 4
    → length (to4 server_ip) ≡ 4
    → Fits subnet
    → (parse_packet (to_bytes (create_ack global server_ip request ip subnet)) spare
        ≡ returned (wire_form (create_ack global server_ip request ip subnet)))
      × Answers request (create_ack global server_ip request ip subnet)
      × Gives Code.dhcp_ack server_ip ip
          (uint32 global.lease_time)
          (create_ack global server_ip request ip subnet)
create_ack-parsed global server_ip request ip subnet spare r v4 sv4 fits =
    let said = create_ack-Gives global server_ip request ip subnet in
    (
      parse_packet-to_bytes (create_ack global server_ip request ip subnet) spare
          (ack-IsWire global server_ip request ip subnet r v4 sv4 fits),
      said.0,
      said.1,
    )
  where
    ack-IsWire :
        (global : GlobalConfig) (server_ip : Ip) (request : Packet) (ip : Ip)
        (subnet : SubnetConfig)
        → IsRequest request
        → length (to4 ip) ≡ 4
        → length (to4 server_ip) ≡ 4
        → Fits subnet
        → IsWire (create_ack global server_ip request ip subnet)
    ack-IsWire global server_ip request ip subnet r v4 sv4 fits =
        unfold create_ack before in
        Kept-IsWire (before global server_ip request ip subnet) _
          (before-IsWire global server_ip request ip subnet r v4 sv4)
          (add_subnet_options-IsStep global subnet (before global server_ip request ip subnet))
          (add_subnet_options-Writable subnet fits global
            (before global server_ip request ip subnet)
            (before-Writable global server_ip request ip subnet r v4 sv4))
