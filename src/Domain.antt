-- ===== src/Domain.antt =====
-- `encodeDomainName` of internal/dhcp/packet.go: a dotted name as DNS wire-format labels.
pub mod Decode
use go_dhcpd.Base.{
  ℕ, zero, suc, ◌%◌, Bool, true, false, List, [], ◌∷◌, ◌++◌, Option, none, some, ◌==◌,
  if◌then◌else◌, length, Bytes, Text, is_empty,
}

abbrev cons_first : ℕ → List Text → List Text
cons_first c [] = (c ∷ []) ∷ []
cons_first c (l ∷ ls) = (c ∷ l) ∷ ls

-- `strings.Split(name, ".")`
unfoldable pub split_dots : Text → List Text
split_dots [] = [] ∷ []
split_dots (c ∷ s) = let rest = split_dots s in if c == b'.' then [] ∷ rest else cons_first c rest

-- `strings.TrimSuffix(name, ".")`
unfoldable pub trim_dot : Text → Text
trim_dot [] = []
trim_dot (c ∷ []) = if c == b'.' then [] else c ∷ []
trim_dot (c ∷ d ∷ s) = c ∷ trim_dot (d ∷ s)

-- The loop over the labels and the byte that ends the name. `byte(len(label))` keeps eight bits.
unfoldable pub encode_labels : List Text → Bytes
encode_labels [] = 0 ∷ []
encode_labels (label ∷ ls) =
    let rest = encode_labels ls in
    if is_empty label then rest else (length label % 256) ∷ (label ++ rest)

unfoldable pub encode_domain_name : Text → Bytes
encode_domain_name name = encode_labels (split_dots (trim_dot name))
