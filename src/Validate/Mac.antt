-- ===== src/Validate/Mac.antt =====
-- `ValidateStaticHost` of internal/sqlite3store/validate.go, with `net.ParseMAC`.
use go_dhcpd.Base.{
  ℕ, zero, suc, ◌+◌, ◌*◌, ◌/◌, ◌%◌, Bool, ◌&&◌, ◌||◌, [], ◌∷◌, Option, none, some, ltb, ◌==◌,
  if◌then◌else◌, length, get_or, drop, Bytes, Text, is_empty, Result, ok, err, invalid,
}
use go_dhcpd.Net.V6.{hex_value}
use go_dhcpd.Net.Print.{mac_string}
use go_dhcpd.Config.{StaticHost}

abbrev pub digits : Option ℕ → Option ℕ → Option ℕ
digits none l = none
digits (some h) none = none
digits (some h) (some l) = some (h * 16 + l)

-- `xtoi2`: two hexadecimal digits, at the end of the text or before the separator.
unfoldable pub xtoi2 : Text → ℕ → Option ℕ
unfolding hex_value
xtoi2 [] e = none
xtoi2 (a ∷ []) e = none
xtoi2 (a ∷ b ∷ []) e = digits (hex_value a) (hex_value b)
xtoi2 (a ∷ b ∷ c ∷ s) e = if c == e then digits (hex_value a) (hex_value b) else none

abbrev pub cons_byte : Option ℕ → Option Bytes → Option Bytes
cons_byte none bs = none
cons_byte (some b) none = none
cons_byte (some b) (some bs) = some (b ∷ bs)

-- The loop over `aa:bb:...`.
unfoldable pub mac_bytes : ℕ → ℕ → Text → Option Bytes
unfolding xtoi2
mac_bytes zero e s = some []
mac_bytes (suc n) e s = cons_byte (xtoi2 s e) (mac_bytes n e (drop 3 s))

abbrev pub pair_of : Text → Text
pair_of s = get_or s 0 0 ∷ get_or s 1 0 ∷ []

-- The loop over `aabb.ccdd...`, two bytes a round.
unfoldable pub mac_words : ℕ → Text → Option Bytes
unfolding xtoi2
mac_words zero s = some []
mac_words (suc n) s =
    cons_byte (xtoi2 (pair_of s) 0) (cons_byte (xtoi2 (drop 2 s) b'.') (mac_words n (drop 5 s)))

abbrev pub is_mac_length : ℕ → Bool
is_mac_length n = n == 6 || n == 8 || n == 20

abbrev pub fills : ℕ → ℕ → Text → Bool
fills width n s = (length s + 1) % width == 0 && is_mac_length n

unfoldable pub mac_in_bytes : Text → Option Bytes
unfolding mac_bytes
mac_in_bytes s =
    let n = (length s + 1) / 3 in if fills 3 n s then mac_bytes n (get_or s 2 0) s else none

unfoldable pub mac_in_words : Text → Option Bytes
unfolding mac_words
mac_in_words s =
    if fills 5 (2 * (length s + 1) / 5) s then mac_words ((length s + 1) / 5) s else none

-- `net.ParseMAC`
unfoldable pub parse_mac : Text → Option Bytes
unfolding mac_in_bytes mac_in_words
parse_mac s =
    if ltb (length s) 14
    then none
    else if get_or s 2 0 == b':' || get_or s 2 0 == b'-'
    then mac_in_bytes s
    else if get_or s 4 0 == b'.'
    then mac_in_words s
    else none

-- The checks that follow `ParseMAC`.
abbrev pub with_hardware : StaticHost → Option Bytes → Result StaticHost
with_hardware h none = err invalid
with_hardware h (some hw) =
    if length hw == 6
    then if is_empty h.ip_address
      then err invalid
      else ok (record h { mac_address = mac_string hw })
    else err invalid

-- `ValidateStaticHost`, with the host as it leaves it.
unfoldable pub validate_static_host : StaticHost → Result StaticHost
unfolding parse_mac mac_string
validate_static_host h =
    if is_empty h.mac_address then err invalid else with_hardware h (parse_mac h.mac_address)
