-- ===== src/Domain/Decode.antt =====
-- A reader of DNS wire-format names, to compare `encodeDomainName` of internal/dhcp/packet.go
-- with.
use mathlib.Core.List.{append_assoc}
use go_dhcpd.Base.{
  ℕ, zero, suc, ◌+◌, ◌-◌, ◌%◌, ◌≤◌, ◌<◌, ◌≡◌, refl, ap, ◌∙◌, not, List, [], ◌∷◌, ◌++◌, Option, none,
  some, arith, ==_ne, ltb, ◌==◌, if◌then◌else◌, length, take, drop, keep, All, take-append,
  drop-append, length-append, le→ltb, lt→ltb, leb, le→leb, Bytes, Text, is_empty,
}
use go_dhcpd.Domain.{split_dots, trim_dot, encode_labels, encode_domain_name}

abbrev label_then : Text → Option (List Text × Bytes) → Option (List Text × Bytes)
label_then l none = none
label_then l (some (ls, r)) = some (l ∷ ls, r)

-- The labels of a name, and what follows it; `none` if a length byte is 64 or more, which DNS keeps
-- for pointers and reserves, if the data ends inside the name, or if the fuel runs out.
unfoldable pub read_name : ℕ → Bytes → Option (List Text × Bytes)
read_name zero b = none
read_name (suc fuel) [] = none
read_name (suc fuel) (n ∷ b) =
    let rest = label_then (take n b) (read_name fuel (drop n b)) in
    if n == 0
    then some ([], b)
    else if not (ltb n 64)
    then none
    else if ltb (length b) n
    then none
    else rest

abbrev bounded : Bytes → Option (List Text × Bytes) → Option (List Text × Bytes)
bounded b none = none
bounded b (some (ls, r)) = if leb (length b - length r) 255 then some (ls, r) else none

-- A name of RFC 1035: at most 255 bytes with its length bytes.
unfoldable pub read_domain : ℕ → Bytes → Option (List Text × Bytes)
unfolding read_name
read_domain fuel b = bounded b (read_name fuel b)

abbrev pub written : List Text → List Text
written = keep (λ l. not (is_empty l))

abbrev pub Short : Text → Type 0
Short l = length l < 64

label_step :
    (fuel : ℕ) (c : ℕ) (l b : Bytes)
    → Short (c ∷ l)
    → read_name (suc fuel) ((length (c ∷ l) % 256) ∷ ((c ∷ l) ++ b))
      ≡ label_then (c ∷ l) (read_name fuel b)
unfolding read_name
label_step fuel c l b h =
    let e : length (c ∷ l) % 256 ≡ length (c ∷ l) = omega arith in
    rw (
      e,
      ==_ne (length (c ∷ l)) 0 (λ p. absurd (omega arith)),
      lt→ltb (length (c ∷ l)) 64 h,
      length-append (c ∷ l) b,
      le→ltb (length (c ∷ l) + length b) (length (c ∷ l)) (omega arith),
      take-append (length (c ∷ l)) (c ∷ l) b refl,
      drop-append (length (c ∷ l)) (c ∷ l) b refl,
    )

read_labels :
    (fuel : ℕ) (ls : List Text) (rest : Bytes)
    → length ls < fuel
    → All Short ls
    → read_name fuel (encode_labels ls ++ rest) ≡ some (written ls, rest)
unfolding encode_labels
read_labels zero ls rest h s = elim h [ ]
read_labels (suc fuel) [] rest h s = unfold read_name in refl
read_labels (suc fuel) ([] ∷ ls) rest h s = read_labels (suc fuel) ls rest (omega arith) s.1
read_labels (suc fuel) ((c ∷ l) ∷ ls) rest h s =
    ap (λ (b : Bytes). read_name (suc fuel) ((length (c ∷ l) % 256) ∷ b))
      (append_assoc (c ∷ l) (encode_labels ls) rest)
    ∙ label_step fuel c l (encode_labels ls ++ rest) s.0
    ∙ ap (label_then (c ∷ l)) (read_labels fuel ls rest (omega arith) s.1)

-- An encoded name of at most 255 bytes, all of whose labels have at most 63, is read back as its
-- labels, by a reader of DNS names with fuel for each label, the empty ones left out, with nothing
-- consumed of what follows.
pub read_domain-encode_domain_name :
    (fuel : ℕ) (name : Text) (rest : Bytes)
    → length (split_dots (trim_dot name)) < fuel
    → All Short (split_dots (trim_dot name))
    → length (encode_domain_name name) ≤ 255
    → read_domain fuel (encode_domain_name name ++ rest)
      ≡ some (written (split_dots (trim_dot name)), rest)
unfolding encode_domain_name read_domain
read_domain-encode_domain_name fuel name rest h s short =
    let labels = split_dots (trim_dot name) in
    let whole = length-append (encode_labels labels) rest in
    ap (bounded (encode_labels labels ++ rest)) (read_labels fuel labels rest h s)
    ∙ rw (le→leb (length (encode_labels labels ++ rest) - length rest) 255 (omega arith)) refl
