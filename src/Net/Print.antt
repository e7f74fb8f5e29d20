-- ===== src/Net/Print.antt =====
-- `IP.String`, `HardwareAddr.String` and `net.ParseIP`: addresses as text.
use Prim.Native.Nat.{ℕ}
use go_dhcpd.Base.{
  ◌≡◌, refl, zero, suc, ◌+◌, ◌*◌, ◌/◌, ◌%◌, List, [], ◌∷◌, ◌++◌, Option, none, some, ltb, ◌==◌,
  if◌then◌else◌, length, get_or, drop, Bytes, Text, codes,
}
use go_dhcpd.Net.{Ip, v4_prefix, to4}
use go_dhcpd.Net.Quad.{print_quad, parse_quad}
use go_dhcpd.Net.V6.{parse_v6}

unfoldable pub hex_digit : ℕ → ℕ
hex_digit d = if ltb d 10 then 48 + d else 87 + d

unfoldable pub hex_pair : ℕ → Text
unfolding hex_digit
hex_pair b = hex_digit (b / 16) ∷ hex_digit (b % 16) ∷ []

hex_string : Bytes → Text
hex_string [] = []
hex_string (b ∷ bs) = hex_pair b ++ hex_string bs

-- `HardwareAddr.String`
unfoldable pub mac_string : Bytes → Text
unfolding hex_pair
mac_string [] = []
mac_string (b ∷ []) = hex_pair b
mac_string (b ∷ c ∷ bs) = hex_pair b ++ (b':' ∷ mac_string (c ∷ bs))

-- A 16-bit group in hexadecimal, with no leading zero.
hex_group : ℕ → Text
hex_group g =
    if ltb g 16
    then hex_digit g ∷ []
    else if ltb g 256
    then hex_pair g
    else if ltb g 4096
    then hex_digit (g / 256) ∷ hex_pair (g % 256)
    else hex_pair (g / 256) ++ hex_pair (g % 256)

group_list : Bytes → List ℕ
group_list (hi ∷ lo ∷ bs) = (hi * 256 + lo) ∷ group_list bs
group_list _ = []

zeros : List ℕ → ℕ
zeros [] = 0
zeros (g ∷ gs) = if g == 0 then suc (zeros gs) else 0

-- The first longest run of zero groups: where it starts and how long it is.
longest : ℕ → ℕ → ℕ → List ℕ → ℕ × ℕ
longest i start best [] = (start, best)
longest i start best (g ∷ gs) =
    let n = zeros (g ∷ gs) in
    longest (i + 1) (if ltb best n then i else start) (if ltb best n then n else best) gs

print_groups : List ℕ → Text
print_groups [] = []
print_groups (g ∷ []) = hex_group g
print_groups (g ∷ h ∷ gs) = hex_group g ++ (b':' ∷ print_groups (h ∷ gs))

first_groups : ℕ → List ℕ → List ℕ
first_groups zero gs = []
first_groups (suc n) [] = []
first_groups (suc n) (g ∷ gs) = g ∷ first_groups n gs

-- RFC 5952: the longest run of two or more zero groups is written `::`.
print_v6 : Bytes → Text
print_v6 ip =
    let gs = group_list ip in
    let (start, run) = longest 0 0 0 gs in
    if ltb run 2
    then print_groups gs
    else print_groups (first_groups start gs)
      ++ (b':' ∷ b':' ∷ print_groups (drop (start + run) gs))

unfoldable pub print_ip : Ip → Bytes → Text
unfolding hex_digit hex_pair hex_string hex_group group_list zeros longest print_groups first_groups
    print_v6
print_ip ip four =
    if length ip == 0
    then codes "<nil>"
    else if length four == 4
    then print_quad (get_or four 0 0) (get_or four 1 0) (get_or four 2 0) (get_or four 3 0)
    else if length ip == 16
    then print_v6 ip
    else b'?' ∷ hex_string ip

-- `ip.String()`
unfoldable pub ip_string : Ip → Text
unfolding print_ip to4
ip_string ip = print_ip ip (to4 ip)

unfoldable pub dotted : Option Bytes → Option Ip
dotted none = none
dotted (some q) = some (v4_prefix ++ q)

-- The first of `.`, `:` and `%` decides how the text is read.
unfoldable pub parse_kind : Text → Text → Option Ip
parse_kind s [] = none
parse_kind s (c ∷ r) =
    if c == b'.'
    then dotted (parse_quad s)
    else if c == b':'
    then parse_v6 s
    else if c == b'%'
    then none
    else parse_kind s r

-- `net.ParseIP(s)`, always in the 16-byte form.
unfoldable pub parse_ip : Text → Option Ip
unfolding parse_kind dotted parse_quad parse_v6
parse_ip s = parse_kind s s

pub parse_ip_lem : (s : Text) → parse_ip s ≡ parse_kind s s
unfolding parse_ip
parse_ip_lem s = refl

pub ip_string_lem : (ip : Ip) → ip_string ip ≡ print_ip ip (to4 ip)
unfolding ip_string
ip_string_lem ip = refl
