-- ===== src/RawSocket.antt =====
-- internal/dhcp/rawsocket.go: how the raw socket finds a DHCP datagram in an Ethernet frame.
pub mod Frames
use go_dhcpd.Base.{
  ℕ, ◌+◌, ◌-◌, ◌*◌, ◌/◌, ◌%◌, Bool, true, false, not, List, [], ◌∷◌, ◌++◌, Option, none, some, ltb,
  ◌==◌, length, get_or, take, drop, Bytes, Error, storage, Result, ok, err,
}
use go_dhcpd.Packet.{slice, uint16_of}

-- `if ... { continue }`; `none` goes on to the next frame.
abbrev pub skip {ℓ} : {A : Type ℓ} → Bool → Option A → Option A
skip true o = none
skip false o = o

-- The payload and the hardware address of the sender.
abbrev pub Datagram : Type 0
Datagram = Bytes × Bytes

-- The arguments `n` and `buffer` are those of the source: the frame is the first `n` bytes.
module _ (n : ℕ) (buffer : Bytes) where
  -- From the length of the UDP datagram on.
  unfoldable pub read_payload : ℕ → ℕ → Option Datagram
  read_payload start udp_length = skip (ltb udp_length 8) (
      skip (ltb n (start + 8 + (udp_length - 8)))
        (some (slice buffer (start + 8) (start + 8 + (udp_length - 8)), slice buffer 6 12)))

  -- From the destination port on.
  unfoldable pub read_udp : ℕ → Option Datagram
  read_udp start =
      skip (not (uint16_of (slice buffer (start + 2) (start + 4)) == 67))
        (read_payload start (uint16_of (slice buffer (start + 4) (start + 6))))

  -- From the length of the IP header on.
  unfoldable pub read_ip : ℕ → Option Datagram
  read_ip ihl =
      skip (ltb n (14 + ihl + 8)) (skip (not (get_or buffer 23 0 == 17)) (read_udp (14 + ihl)))

  -- One turn of the loop of `ReadDHCPPacket`, on a frame that was received.
  unfoldable pub read_frame : Option Datagram
  read_frame = skip (ltb n 14) (
      skip (not (uint16_of (slice buffer 12 14) == 2048)) (
        skip (ltb n 34)
          (skip (not (get_or buffer 14 0 / 16 == 4)) (read_ip (get_or buffer 14 0 % 16 * 4)))))

-- What `Recvfrom` comes to: no data yet, an error, or a frame.
pub data Received : Type 0 where
  again : Received
  broken : Received
  frame : Bytes → Received

abbrev pub or_wait :
    Option Datagram
    → List Received
    → Option (Result Datagram × List Received)
    → Option (Result Datagram × List Received)
or_wait none rs o = o
or_wait (some d) rs o = some (ok d, rs)

-- `ReadDHCPPacket` on what arrives, and what is left of it; `none` while it waits. The buffer of
-- 1500 bytes is used again for each frame, which overwrites only its own length of it.
unfoldable pub read_dhcp_packet : List Received → Bytes → Option (Result Datagram × List Received)
read_dhcp_packet [] buffer = none
read_dhcp_packet (again ∷ rs) buffer = read_dhcp_packet rs buffer
read_dhcp_packet (broken ∷ rs) buffer = some (err storage, rs)
read_dhcp_packet (frame f ∷ rs) buffer =
    let got = take 1500 f in
    let buffer' = got ++ drop (length got) buffer in
    or_wait (read_frame (length got) buffer') rs (read_dhcp_packet rs buffer')
