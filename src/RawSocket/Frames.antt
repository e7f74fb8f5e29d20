-- ===== src/RawSocket/Frames.antt =====
-- `ReadDHCPPacket` of internal/dhcp/rawsocket.go, on frames with and without a datagram.
use go_dhcpd.Base.{
  ℕ, zero, suc, ◌+◌, ◌-◌, ◌*◌, ◌/◌, ◌%◌, ◌≤◌, ◌<◌, ◌≡◌, refl, sym, ap, ◌∙◌, Bool, true, false, not,
  List, [], ◌∷◌, ◌++◌, Option, none, some, arith, ltb, ◌==◌, le→ltb, length, get_or, take, drop,
  length-append, length-drop, take-append, drop-append, take-take_append, drop-le_append, drop-drop,
  Bytes, All, Result, ok, err, storage,
}
use go_dhcpd.Packet.{slice, uint16_of}
use go_dhcpd.RawSocket.{
  skip, Datagram, read_payload, read_udp, read_ip, read_frame, Received, again, broken, frame,
  or_wait, read_dhcp_packet,
}

skip-cong :
    {A : Type 0} (b c : Bool) (o p : Option A) → b ≡ c → (c ≡ false → o ≡ p) → skip b o ≡ skip c p
skip-cong b true o p e h = ap (λ x. skip x o) e
skip-cong b false o p e h = ap (λ x. skip x o) e ∙ h refl

get_or-append : (xs ys : Bytes) (i : ℕ) → i < length xs → get_or (xs ++ ys) i 0 ≡ get_or xs i 0
get_or-append [] ys i h = absurd (omega arith)
get_or-append (x ∷ xs) ys zero h = refl
get_or-append (x ∷ xs) ys (suc i) h = get_or-append xs ys i (omega arith)

slice-append :
    (xs ys : Bytes) (lo hi : ℕ) → lo ≤ hi → hi ≤ length xs → slice (xs ++ ys) lo hi ≡ slice xs lo hi
slice-append xs ys lo hi h k =
    ap (take (hi - lo)) (drop-le_append lo xs ys (omega arith))
    ∙ take-take_append (hi - lo) (length (drop lo xs)) (drop lo xs) ys refl
        (omega (arith, length-drop lo xs))

module _ (f stale : Bytes) where
  payload-stale :
      (start udp_length : ℕ)
      → start + 8 ≤ length f
      → 14 ≤ length f
      → read_payload (length f) (f ++ stale) start udp_length
        ≡ read_payload (length f) f start udp_length
  unfolding read_payload
  payload-stale start u h k = skip-cong _ _ _ _ refl λ (long : ltb u 8 ≡ false).
      skip-cong _ _ _ _ refl λ (whole : ltb (length f) (start + 8 + (u - 8)) ≡ false). ap some (λ i.
        (
          slice-append f stale (start + 8) (start + 8 + (u - 8)) (omega arith) (ground arith) i,
          slice-append f stale 6 12 (omega arith) (omega arith) i,
        ))

  udp-stale :
      (start : ℕ)
      → start + 8 ≤ length f
      → 14 ≤ length f
      → read_udp (length f) (f ++ stale) start ≡ read_udp (length f) f start
  unfolding read_udp
  udp-stale start h k =
      skip-cong _ _ _ _
        (ap (λ b. not (uint16_of b == 67))
          (slice-append f stale (start + 2) (start + 4) (omega arith) (omega arith)))
        λ port.
          ap (λ b. read_payload (length f) (f ++ stale) start (uint16_of b))
            (slice-append f stale (start + 4) (start + 6) (omega arith) (omega arith))
          ∙ payload-stale start _ h k

  ip-stale :
      (ihl : ℕ) → 34 ≤ length f → read_ip (length f) (f ++ stale) ihl ≡ read_ip (length f) f ihl
  unfolding read_ip
  ip-stale ihl h = skip-cong _ _ _ _ refl λ (room : ltb (length f) (14 + ihl + 8) ≡ false).
      skip-cong _ _ _ _ (ap (λ b. not (b == 17)) (get_or-append f stale 23 (omega arith)))
        λ udp. udp-stale (14 + ihl) (ground arith) (omega arith)

  frame-stale : read_frame (length f) (f ++ stale) ≡ read_frame (length f) f
  unfolding read_frame
  frame-stale = skip-cong _ _ _ _ refl λ (ether : ltb (length f) 14 ≡ false).
      skip-cong _ _ _ _
        (ap (λ b. not (uint16_of b == 2048))
          (slice-append f stale 12 14 (omega arith) (ground arith)))
        λ ip. skip-cong _ _ _ _ refl λ (long : ltb (length f) 34 ≡ false).
          skip-cong _ _ _ _ (ap (λ b. not (b / 16 == 4)) (get_or-append f stale 14 (ground arith)))
            λ version.
              ap (λ b. read_ip (length f) (f ++ stale) (b % 16 * 4))
                (get_or-append f stale 14 (ground arith))
              ∙ ip-stale _ (ground arith)

-- What the loop should do: read each frame by itself, and leave at the first datagram or error.
unfoldable pub first_datagram : List Received → Option (Result Datagram × List Received)
first_datagram [] = none
first_datagram (again ∷ rs) = first_datagram rs
first_datagram (broken ∷ rs) = some (err storage, rs)
first_datagram (frame f ∷ rs) =
    or_wait (read_frame (length (take 1500 f)) (take 1500 f)) rs (first_datagram rs)

-- `ReadDHCPPacket` reads each frame as if the buffer were fresh: what an earlier frame has left in
-- the buffer never gets into a datagram, nor decides whether there is one.
pub read_dhcp_packet-first_datagram :
    (rs : List Received) (buffer : Bytes) → read_dhcp_packet rs buffer ≡ first_datagram rs
unfolding read_dhcp_packet first_datagram
read_dhcp_packet-first_datagram [] buffer = refl
read_dhcp_packet-first_datagram (again ∷ rs) buffer = read_dhcp_packet-first_datagram rs buffer
read_dhcp_packet-first_datagram (broken ∷ rs) buffer = refl
read_dhcp_packet-first_datagram (frame f ∷ rs) buffer =
    let got = take 1500 f in
    let rest = drop (length got) buffer in
    ap (λ d. or_wait d rs (read_dhcp_packet rs (got ++ rest))) (frame-stale got rest)
    ∙ ap (or_wait (read_frame (length got) got) rs)
        (read_dhcp_packet-first_datagram rs (got ++ rest))

-- The frame of a UDP datagram to port 67: the two hardware addresses, an IP header, the UDP header.
abbrev pub udp_frame : Bytes → Bytes → ℕ → ℕ → ℕ → ℕ → Bytes → Bytes
udp_frame macs ip port_high port_low sum_high sum_low payload =
    macs
    ++ (8
        ∷ 0
        ∷ (ip
            ++ (port_high
                ∷ port_low
                ∷ 0
                ∷ 67
                ∷ ((length payload + 8) / 256)
                ∷ ((length payload + 8) % 256)
                ∷ sum_high
                ∷ sum_low
                ∷ payload)))

-- A header of IPv4 that carries UDP, with any options.
pub record IsIpHeader (ip : Bytes) : Type 0 where
  pub version : get_or ip 0 0 / 16 ≡ 4
  pub ihl : get_or ip 0 0 % 16 * 4 ≡ length ip
  pub size : 20 ≤ length ip
  pub protocol : get_or ip 9 0 ≡ 17

get_or-drop : (n i : ℕ) (xs : Bytes) → get_or (drop n xs) i 0 ≡ get_or xs (n + i) 0
get_or-drop zero i xs = let e : zero + i ≡ i = omega arith in rw e
get_or-drop (suc n) i [] = refl
get_or-drop (suc n) i (x ∷ xs) =
    let e : suc n + i ≡ suc (n + i) = omega arith in rw e (get_or-drop n i xs)

-- What a frame must have for each test to pass.
record Passes (n : ℕ) (f : Bytes) (k u : ℕ) (payload mac : Bytes) : Type 0 where
  size : 34 ≤ n
  ether_type : slice f 12 14 ≡ 8 ∷ 0 ∷ []
  version : get_or f 14 0 / 16 ≡ 4
  ihl : get_or f 14 0 % 16 * 4 ≡ k
  room : 14 + k + 8 ≤ n
  protocol : get_or f 23 0 ≡ 17
  port : slice f (14 + k + 2) (14 + k + 4) ≡ 0 ∷ 67 ∷ []
  udp_length : uint16_of (slice f (14 + k + 4) (14 + k + 6)) ≡ u
  header : 8 ≤ u
  whole : 14 + k + 8 + (u - 8) ≤ n
  body : slice f (14 + k + 8) (14 + k + 8 + (u - 8)) ≡ payload
  source : slice f 6 12 ≡ mac

module _ (n : ℕ) (f : Bytes) (k u : ℕ) (payload mac : Bytes) (p : Passes n f k u payload mac) where
  Passes-payload : read_payload n f (14 + k) u ≡ some (payload, mac)
  unfolding read_payload
  Passes-payload =
      rw (le→ltb u 8 p.header, le→ltb n (14 + k + 8 + (u - 8)) p.whole, p.body, p.source) refl

  Passes-udp : read_udp n f (14 + k) ≡ some (payload, mac)
  unfolding read_udp
  Passes-udp = rw (p.port, p.udp_length) Passes-payload

  Passes-ip : read_ip n f k ≡ some (payload, mac)
  unfolding read_ip
  Passes-ip = rw (le→ltb n (14 + k + 8) p.room, p.protocol) Passes-udp

  Passes-frame : read_frame n f ≡ some (payload, mac)
  unfolding read_frame
  Passes-frame =
      rw (le→ltb n 14 (omega (arith, p.size)), p.ether_type, le→ltb n 34 p.size, p.version, p.ihl)
        Passes-ip

take_all : (xs : Bytes) → take (length xs) xs ≡ xs
take_all [] = refl
take_all (x ∷ xs) = ap (◌∷◌ x) (take_all xs)

slice-drop : (f ys : Bytes) (lo hi n : ℕ) → drop lo f ≡ ys → hi - lo ≡ n → slice f lo hi ≡ take n ys
slice-drop f ys lo hi n e d = ap (λ j. take j (drop lo f)) d ∙ ap (take n) e

read_frame-udp_frame :
    (macs ip : Bytes) (ph pl sh sl : ℕ) (payload : Bytes)
    → length macs ≡ 12
    → IsIpHeader ip
    → read_frame
        (length (udp_frame macs ip ph pl sh sl payload))
        (udp_frame macs ip ph pl sh sl payload)
      ≡ some (payload, drop 6 macs)
read_frame-udp_frame macs ip ph pl sh sl payload m h =
    let f = udp_frame macs ip ph pl sh sl payload in
    let udp =
      ph
      ∷ pl
      ∷ 0
      ∷ 67
      ∷ ((length payload + 8) / 256)
      ∷ ((length payload + 8) % 256)
      ∷ sh
      ∷ sl
      ∷ payload in
    let k = length ip in
    let size : length f ≡ 22 + k + length payload =
      omega (arith, m, length-append macs (8 ∷ 0 ∷ (ip ++ udp)), length-append ip udp) in
    let d12 : drop 12 f ≡ 8 ∷ 0 ∷ (ip ++ udp) = drop-append 12 macs (8 ∷ 0 ∷ (ip ++ udp)) m in
    let d14 : drop 14 f ≡ ip ++ udp = sym (drop-drop 12 2 f) ∙ ap (drop 2) d12 in
    let at : (i : ℕ) → i < k → get_or f (14 + i) 0 ≡ get_or ip i 0 =
      λ i lt. sym (get_or-drop 14 i f) ∙ ap (λ b. get_or b i 0) d14 ∙ get_or-append ip udp i lt in
    let du : (j : ℕ) → drop (14 + k + j) f ≡ drop j udp = λ j.
      sym (drop-drop (14 + k) j f)
      ∙ ap (drop j) (sym (drop-drop 14 k f) ∙ ap (drop k) d14 ∙ drop-append k ip udp refl) in
    Passes-frame (length f) f k (length payload + 8) payload (drop 6 macs) (record {
      size = omega (arith, size, h.size);
      ether_type = ap (take 2) d12;
      version = ap (λ b. b / 16) (at 0 (omega (arith, h.size))) ∙ h.version;
      ihl = ap (λ b. b % 16 * 4) (at 0 (omega (arith, h.size))) ∙ h.ihl;
      room = omega (arith, size);
      protocol = at 9 (omega (arith, h.size)) ∙ h.protocol;
      port = slice-drop f (drop 2 udp) (14 + k + 2) (14 + k + 4) 2 (du 2) (omega arith);
      udp_length =
          ap uint16_of (slice-drop f (drop 4 udp) (14 + k + 4) (14 + k + 6) 2 (du 4) (omega arith))
          ∙ (omega arith);
      header = omega arith;
      whole = omega (arith, size);
      body =
          slice-drop f payload (14 + k + 8) (14 + k + 8 + (length payload + 8 - 8)) (length payload)
            (du 8) (omega arith)
          ∙ take_all payload;
      source =
          ap (take 6) (drop-le_append 6 macs (8 ∷ 0 ∷ (ip ++ udp)) (omega arith))
          ∙ take-append 6 (drop 6 macs) _ (omega (arith, length-drop 6 macs));
    })

take_short : (n : ℕ) (xs : Bytes) → length xs ≤ n → take n xs ≡ xs
take_short zero [] h = refl
take_short (suc n) [] h = refl
take_short zero (x ∷ xs) h = absurd (omega arith)
take_short (suc n) (x ∷ xs) h = ap (◌∷◌ x) (take_short n xs (omega arith))

-- When a frame of at most 1500 bytes arrives that carries a whole datagram for port 67 (an IPv4
-- header of any length with the protocol UDP, any source port and any checksum), `ReadDHCPPacket`
-- returns at this frame, with the payload and the sender of the datagram, whatever the buffer holds.
pub read_dhcp_packet-udp_frame :
    (macs ip : Bytes) (ph pl sh sl : ℕ) (payload : Bytes) (rs : List Received) (buffer : Bytes)
    → length macs ≡ 12
    → IsIpHeader ip
    → length (udp_frame macs ip ph pl sh sl payload) ≤ 1500
    → All (λ b. b < 256) (udp_frame macs ip ph pl sh sl payload)
    → read_dhcp_packet (frame (udp_frame macs ip ph pl sh sl payload) ∷ rs) buffer
      ≡ some (ok (payload, drop 6 macs), rs)
read_dhcp_packet-udp_frame macs ip ph pl sh sl payload rs buffer m h short bytes =
    let f = udp_frame macs ip ph pl sh sl payload in
    read_dhcp_packet-first_datagram (frame f ∷ rs) buffer
    ∙ unfold first_datagram in
      ap (λ g. or_wait (read_frame (length g) g) rs (first_datagram rs)) (take_short 1500 f short)
      ∙ ap (λ o. or_wait o rs (first_datagram rs))
          (read_frame-udp_frame macs ip ph pl sh sl payload m h)
