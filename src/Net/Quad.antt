-- ===== src/Net/Quad.antt =====
-- Dotted-decimal IPv4 text, as `netip.ParseAddr` reads it and `IP.String` prints it.
use mathlib.Core.List.{append-nil}
use go_dhcpd.Base.{
  ℕ, ◌+◌, ◌-◌, ◌*◌, ◌/◌, ◌%◌, ◌≤◌, ◌<◌, ◌≡◌, refl, sym, ap, ◌∙◌, ◌&&◌, ◌||◌, [], ◌∷◌, ◌++◌, Option,
  none, some, arith, inl, inr, ltb, leb, Bool-cases, ◌==◌, if◌then◌else◌, length, Bytes, Text,
  is_empty,
}

-- A byte in decimal, with no leading zero.
unfoldable pub decimal : ℕ → Text
decimal b =
    if ltb b 10
    then (48 + b) ∷ []
    else if ltb b 100
    then (48 + b / 10) ∷ (48 + b % 10) ∷ []
    else (48 + b / 100) ∷ (48 + b / 10 % 10) ∷ (48 + b % 10) ∷ []

unfoldable pub print_quad : ℕ → ℕ → ℕ → ℕ → Text
print_quad a b c d = decimal a ++ (b'.' ∷ (decimal b ++ (b'.' ∷ (decimal c ++ (b'.' ∷ decimal d)))))

-- The loop over the text: the value and the digit count of the current field, and the fields read.
parse_fields : ℕ → ℕ → Bytes → Text → Option Bytes
parse_fields val digits fields [] =
    if ltb (length fields) 3 then none else some (fields ++ (val ∷ []))
parse_fields val digits fields (c ∷ s) =
    let next_digit = parse_fields (val * 10 + (c - 48)) (digits + 1) fields s in
    let next_field = parse_fields 0 0 (fields ++ (val ∷ [])) s in
    if leb 48 c && leb c 57
    then if (digits == 1) && (val == 0)
      then none
      else if ltb 255 (val * 10 + (c - 48))
      then none
      else next_digit
    else if c == b'.'
    then if (digits == 0) || is_empty s || (length fields == 3) then none else next_field
    else none

unfoldable pub parse_quad : Text → Option Bytes
unfolding parse_fields
parse_quad s = parse_fields 0 0 [] s

digit_step :
    (val digits : ℕ) (fields : Bytes) (d : ℕ) (s : Text) (v n : ℕ)
    → d < 10
    → v < 256
    → v ≡ val * 10 + d
    → n ≡ digits + 1
    → (digits ≡ 1 → 0 < val)
    → parse_fields val digits fields ((48 + d) ∷ s) ≡ parse_fields v n fields s
unfolding parse_fields
digit_step val digits fields d s v n h k e f nz =
    let g : 48 + d - 48 ≡ d = omega arith in ground (arith, g)

dot_step :
    (val digits : ℕ) (fields : Bytes) (c : ℕ) (s : Text)
    → 0 < digits
    → length fields < 3
    → parse_fields val digits fields (b'.' ∷ c ∷ s)
      ≡ parse_fields 0 0 (fields ++ (val ∷ [])) (c ∷ s)
unfolding parse_fields
dot_step val digits fields c s h k = ground arith

first_digit :
    (d : ℕ) (fields : Bytes) (s : Text)
    → d < 10
    → parse_fields 0 0 fields ((48 + d) ∷ s) ≡ parse_fields d 1 fields s
first_digit d fields s h =
    digit_step 0 0 fields d s d 1 h (omega arith) (omega arith) (omega arith)
      (λ p. absurd (omega arith))

two_digits :
    (b : ℕ) (fields : Bytes) (s : Text)
    → 10 ≤ b
    → b < 100
    → parse_fields 0 0 fields ((48 + b / 10) ∷ (48 + b % 10) ∷ s) ≡ parse_fields b 2 fields s
two_digits b fields s h k =
    first_digit (b / 10) fields ((48 + b % 10) ∷ s) (omega arith)
    ∙ digit_step (b / 10) 1 fields (b % 10) s b 2 (omega arith) (omega arith) (omega arith)
        (omega arith) (λ p. omega arith)

three_digits :
    (b : ℕ) (fields : Bytes) (s : Text)
    → 100 ≤ b
    → b < 256
    → parse_fields 0 0 fields ((48 + b / 100) ∷ (48 + b / 10 % 10) ∷ (48 + b % 10) ∷ s)
      ≡ parse_fields b 3 fields s
three_digits b fields s h k =
    first_digit (b / 100) fields _ (omega arith)
    ∙ digit_step (b / 100) 1 fields (b / 10 % 10) ((48 + b % 10) ∷ s) (b / 10) 2 (omega arith)
        (omega arith) (omega arith) (omega arith) (λ p. omega arith)
    ∙ digit_step (b / 10) 2 fields (b % 10) s b 3 (omega arith) (omega arith) (omega arith)
        (omega arith) (λ p. absurd (omega arith))

-- The digits of a byte are read back, whatever follows.
decimal_step :
    (b : ℕ) (fields : Bytes) (s : Text)
    → b < 256
    → (n : ℕ) × (0 < n) × (parse_fields 0 0 fields (decimal b ++ s) ≡ parse_fields b n fields s)
unfolding decimal
decimal_step b fields s h = elim (Bool-cases (ltb b 10)) [
  | inl small ↦ (1, omega arith, rw small (first_digit b fields s (ground arith)))
  | inr big ↦ elim (Bool-cases (ltb b 100)) [
    | inl two ↦
        (2, omega arith, rw (big, two) (two_digits b fields s (ground arith) (ground arith)))
    | inr three ↦ (3, omega arith, rw (big, three) (three_digits b fields s (ground arith) h))
  ]
]

field_step :
    (b : ℕ) (fields : Bytes) (c : ℕ) (s : Text)
    → b < 256
    → length fields < 3
    → parse_fields 0 0 fields (decimal b ++ (b'.' ∷ c ∷ s))
      ≡ parse_fields 0 0 (fields ++ (b ∷ [])) (c ∷ s)
field_step b fields c s h k =
    let (n, pos, e) = decimal_step b fields (b'.' ∷ c ∷ s) h in e ∙ dot_step b n fields c s pos k

-- A printed byte is not empty.
decimal_cons : (b : ℕ) → (c : ℕ) × (s : Text) × (decimal b ≡ c ∷ s)
unfolding decimal
decimal_cons b = elim (Bool-cases (ltb b 10)) [
  | inl small ↦ (48 + b, [], rw small)
  | inr big ↦ elim (Bool-cases (ltb b 100)) [
    | inl two ↦ (48 + b / 10, (48 + b % 10) ∷ [], rw (big, two))
    | inr three ↦ (48 + b / 100, (48 + b / 10 % 10) ∷ (48 + b % 10) ∷ [], rw (big, three))
  ]
]

field_decimal :
    (a b : ℕ) (fields : Bytes) (s : Text)
    → a < 256
    → length fields < 3
    → parse_fields 0 0 fields (decimal a ++ (b'.' ∷ (decimal b ++ s)))
      ≡ parse_fields 0 0 (fields ++ (a ∷ [])) (decimal b ++ s)
field_decimal a b fields s h k =
    let (c, t, e) = decimal_cons b in rw e (field_step a fields c (t ++ s) h k)

last_field :
    (d : ℕ) (fields : Bytes)
    → d < 256
    → length fields ≡ 3
    → parse_fields 0 0 fields (decimal d) ≡ some (fields ++ (d ∷ []))
last_field d fields h k =
    let (n, _, e) = decimal_step d fields [] h in rw append-nil at e ∙ at_end n
  where
    at_end : (n : ℕ) → parse_fields d n fields [] ≡ some (fields ++ (d ∷ []))
    at_end n = unfold parse_fields in ground arith

-- The dotted quad of four bytes parses to these bytes.
pub parse_quad-print_quad :
    (a b c d : ℕ)
    → a < 256
    → b < 256
    → c < 256
    → d < 256
    → parse_quad (print_quad a b c d) ≡ some (a ∷ b ∷ c ∷ d ∷ [])
unfolding parse_quad print_quad
parse_quad-print_quad a b c d ha hb hc hd =
    field_decimal a b [] _ ha (omega arith)
    ∙ field_decimal b c (a ∷ []) _ hb (omega arith)
    ∙ ap (λ s. parse_fields 0 0 (a ∷ b ∷ []) (decimal c ++ (b'.' ∷ s)))
        (sym (append-nil (decimal d)))
    ∙ field_decimal c d (a ∷ b ∷ []) [] hc (omega arith)
    ∙ rw append-nil (last_field d (a ∷ b ∷ c ∷ []) hd refl)
