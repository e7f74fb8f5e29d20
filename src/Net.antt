-- ===== src/Net.antt =====
-- What the daemon uses of Go's `net.IP`: a slice of 4 or 16 bytes, `nil` being the empty slice.
pub mod Quad
pub mod V6
pub mod Print
pub mod RoundTrip
pub mod Equal
use Prim.Native.Nat.{bit_and}
use go_dhcpd.Base.{
  ℕ, zero, suc, Bool, true, false, List, [], ◌∷◌, ◌++◌, ◌&&◌, ◌||◌, ◌==◌, if◌then◌else◌, length,
  take, drop, replicate, Bytes, text_eq,
}

abbrev pub Ip : Type 0
Ip = Bytes

-- The first twelve bytes of an IPv4 address in its 16-byte form.
abbrev pub v4_prefix : Bytes
v4_prefix = 0 ∷ 0 ∷ 0 ∷ 0 ∷ 0 ∷ 0 ∷ 0 ∷ 0 ∷ 0 ∷ 0 ∷ 255 ∷ 255 ∷ []

-- `net.IPv4(a, b, c, d)`
abbrev pub ipv4 : ℕ → ℕ → ℕ → ℕ → Ip
ipv4 a b c d = v4_prefix ++ (a ∷ b ∷ c ∷ d ∷ [])

abbrev pub ipv4_zero : Ip
ipv4_zero = ipv4 0 0 0 0

abbrev pub ipv4_broadcast : Ip
ipv4_broadcast = ipv4 255 255 255 255

is_v4_in_v6 : Ip → Bool
is_v4_in_v6 ip = (length ip == 16) && text_eq (take 12 ip) v4_prefix

-- `ip.To4()`
unfoldable pub to4 : Ip → Ip
unfolding is_v4_in_v6
to4 ip = if length ip == 4 then ip else if is_v4_in_v6 ip then drop 12 ip else []

-- `ip.Equal(x)`
unfoldable pub equal : Ip → Ip → Bool
equal ip x =
    if length ip == length x
    then text_eq ip x
    else if (length ip == 4) && (length x == 16)
    then text_eq (take 12 x) v4_prefix && text_eq ip (drop 12 x)
    else if (length ip == 16) && (length x == 4)
    then text_eq (take 12 ip) v4_prefix && text_eq (drop 12 ip) x
    else false

-- `ip.IsUnspecified()`
unfoldable pub is_unspecified : Ip → Bool
unfolding equal
is_unspecified ip = equal ip ipv4_zero || equal ip (replicate 16 0)

and_bytes : Bytes → Bytes → Bytes
and_bytes (x ∷ xs) (y ∷ ys) = bit_and x y ∷ and_bytes xs ys
and_bytes _ _ = []

-- `ip.Mask(mask)`
unfoldable pub mask_ip : Ip → Bytes → Ip
unfolding and_bytes is_v4_in_v6
mask_ip ip mask =
    let mask' =
      if (length mask == 16) && (length ip == 4) && text_eq (take 12 mask) (replicate 12 255)
      then drop 12 mask
      else mask in
    let ip' = if (length mask' == 4) && is_v4_in_v6 ip then drop 12 ip else ip in
    if length ip' == length mask' then and_bytes ip' mask' else []

pub record IpNet : Type 0 where
  pub ip : Ip
  pub mask : Bytes

-- `networkNumberAndMask`; two empty slices stand for `nil, nil`.
network_number : IpNet → Ip × Bytes
unfolding to4
network_number n =
    let four = to4 n.ip in
    if length four == 4
    then if length n.mask == 4
      then (four, n.mask)
      else if length n.mask == 16
      then (four, drop 12 n.mask)
      else ([], [])
    else if (length n.ip == 16) && (length n.mask == 16)
    then (n.ip, n.mask)
    else ([], [])

-- `n.Contains(ip)`
unfoldable pub contains : IpNet → Ip → Bool
unfolding network_number and_bytes
contains n ip =
    let (nn, m) = network_number n in
    let four = to4 ip in
    let x = if length four == 4 then four else ip in
    if length x == length nn then text_eq (and_bytes nn m) (and_bytes x m) else false
