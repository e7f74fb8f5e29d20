-- ===== src/Packet/Bounds.antt =====
-- The outcomes of `ParsePacket` of internal/dhcp/packet.go.
use go_dhcpd.Base.{
  ℕ, ◌+◌, ◌%◌, ◌≤◌, ◌<◌, ◌≡◌, ◌↔◌, ◌⊎◌, ◌++◌, ◌&&◌, arith, ltb, leb, if◌then◌else◌, length, get_or,
  lt→ltb, le→ltb, le→leb, length-append, Bytes,
}
use go_dhcpd.Packet.{
  Packet, Outcome, returned, failed, panicked, chaddr_end, fields_of, parse_packet,
}

pub parse_packet-returned :
    (b spare : Bytes)
    → 236 ≤ length b
    → 28 ≤ chaddr_end (get_or b 2 0)
    → chaddr_end (get_or b 2 0) ≤ length (b ++ spare)
    → parse_packet b spare ≡ returned (fields_of b (b ++ spare))
unfolding parse_packet
parse_packet-returned b spare h lo hi = rw (
  le→ltb (length b) 236 h,
  le→leb 28 (chaddr_end (get_or b 2 0)) lo,
  le→leb (chaddr_end (get_or b 2 0)) (length (b ++ spare)) hi,
)

-- The tests of `ParsePacket`, over the numbers that they compare.
abbrev outcome : ℕ → ℕ → ℕ → Packet → Outcome Packet
outcome n hi m p =
    if ltb n 236 then failed else if leb 28 hi && leb hi m then returned p else panicked

outcome-failed_iff : (n hi m : ℕ) (p : Packet) → (outcome n hi m p ≡ failed) ↔ (n < 236)
outcome-failed_iff n hi m p = (λ e. ground arith, λ h. rw (lt→ltb n 236 h))

outcome-panicked_iff :
    (n hi m : ℕ) (p : Packet) → (outcome n hi m p ≡ panicked) ↔ ((236 ≤ n) × ((hi < 28) ⊎ (m < hi)))
outcome-panicked_iff n hi m p = (λ e. ground arith, λ h. ground arith)

parse_packet-failed_iff : (b spare : Bytes) → (parse_packet b spare ≡ failed) ↔ (length b < 236)
unfolding parse_packet
parse_packet-failed_iff b spare =
    outcome-failed_iff (length b) (chaddr_end (get_or b 2 0)) (length (b ++ spare))
      (fields_of b (b ++ spare))

wraps :
    (k n m : ℕ)
    → k < 256
    → (((28 + k) % 256 < 28) ⊎ (n + m < (28 + k) % 256)) ↔ ((228 ≤ k) ⊎ (n + m < 28 + k))
wraps k n m h = (λ e. ground arith, λ p. ground arith)

parse_packet-panicked_iff :
    (b spare : Bytes)
    → get_or b 2 0 < 256
    → (parse_packet b spare ≡ panicked)
      ↔ ((236 ≤ length b) × ((228 ≤ get_or b 2 0) ⊎ (length b + length spare < 28 + get_or b 2 0)))
unfolding parse_packet chaddr_end
parse_packet-panicked_iff b spare h =
    let k = get_or b 2 0 in
    let iff =
      outcome-panicked_iff (length b) (chaddr_end k) (length (b ++ spare))
        (fields_of b (b ++ spare)) in
    let both = wraps k (length b) (length spare) h in
    let e = length-append {0} b spare in
    (λ p. let q = iff.0 p in (q.0, both.0 (rw e at q.1)), λ q. iff.1 (q.0, rw e (both.1 q.1)))

-- Where the third byte is a byte, `ParsePacket` fails exactly on data of fewer than 236 bytes, and it
-- panics exactly when the data has 236 bytes or more and the stated length of the hardware address
-- is 228 or more, so that `28 + data[2]` wraps below 28, or reaches past the capacity of the slice.
pub parse_packet-refused_iff :
    (b spare : Bytes)
    → get_or b 2 0 < 256
    → ((parse_packet b spare ≡ failed) ↔ (length b < 236))
      × ((parse_packet b spare ≡ panicked) ↔ (
          (236 ≤ length b)
          × ((228 ≤ get_or b 2 0) ⊎ (length b + length spare < 28 + get_or b 2 0))))
parse_packet-refused_iff b spare h =
    (parse_packet-failed_iff b spare, parse_packet-panicked_iff b spare h)
