-- ===== src/Server/Sends.antt =====
-- `sendPacket` of internal/dhcp/server.go and the methods that end in it.
use go_dhcpd.Base.{◌≡◌, refl, ◌⊎◌, inl, inr, Bool, true, false, List, [], ◌∷◌, ◌++◌}
use go_dhcpd.Net.{Ip}
use go_dhcpd.Config.{SubnetConfig}
use go_dhcpd.Packet.{Packet}
use go_dhcpd.Replies.{create_nak, create_ack}
use go_dhcpd.Server.{Server, datagram, write_with, send_packet, send_nak, send_ack}

-- At most the packet is sent, and only counters change besides.
pub record Transmits (q : Packet) (s s' : Server) : Type 0 where
  pub sent : (s'.sent ≡ s.sent) ⊎ (s'.sent ≡ s.sent ++ ((datagram q) ∷ []))
  pub allocator : s'.allocator ≡ s.allocator
  pub config : s'.config ≡ s.config
  pub server_ip : s'.server_ip ≡ s.server_ip

pub send_packet-Transmits : (q : Packet) (s : Server) → Transmits q s (send_packet q s)
unfolding send_packet
send_packet-Transmits q s = go s.send_faults
  where
    go : (fs : List Bool) → Transmits q s (write_with fs (datagram q) s)
    go [] = record { sent = inr refl; allocator = refl; config = refl; server_ip = refl }
    go (true ∷ rest) = record { sent = inl refl; allocator = refl; config = refl; server_ip = refl }
    go (false ∷ rest) = record {
      sent = inr refl;
      allocator = refl;
      config = refl;
      server_ip = refl;
    }

pub send_nak-Transmits :
    (p : Packet) (s : Server) → Transmits (create_nak s.config s.server_ip p) s (send_nak p s)
unfolding send_nak
send_nak-Transmits p s =
    let t = send_packet-Transmits (create_nak s.config s.server_ip p) s in
    record { sent = t.sent; allocator = t.allocator; config = t.config; server_ip = t.server_ip }

pub send_ack-Transmits :
    (p : Packet) (ip : Ip) (subnet : SubnetConfig) (s : Server)
    → Transmits (create_ack s.config s.server_ip p ip subnet) s (send_ack p ip subnet s)
send_ack-Transmits p ip subnet s =
    let t = send_packet-Transmits (create_ack s.config s.server_ip p ip subnet) s in
    record { sent = t.sent; allocator = t.allocator; config = t.config; server_ip = t.server_ip }
