-- ===== src/Net/V6.antt =====
-- IPv6 text, as `netip.ParseAddr` reads it, and `net.ParseIP`.
use go_dhcpd.Base.{
  ℕ, zero, suc, ◌+◌, ◌-◌, ◌*◌, ◌/◌, ◌%◌, Bool, true, false, ◌&&◌, ◌||◌, not, [], ◌∷◌, ◌++◌, Option,
  none, some, ltb, leb, ◌==◌, if◌then◌else◌, length, take, drop, replicate, any, Bytes, Text,
  is_empty,
}
use go_dhcpd.Net.Quad.{parse_quad}

unfoldable pub hex_value : ℕ → Option ℕ
hex_value c =
    if leb b'0' c && leb c b'9'
    then some (c - 48)
    else if leb b'a' c && leb c b'f'
    then some (c - 87)
    else if leb b'A' c && leb c b'F'
    then some (c - 55)
    else none

-- At most four hexadecimal digits: their number, their value and what follows them.
hex_group : ℕ → ℕ → Text → Option (ℕ × ℕ × Text)
hex_group off acc [] = some (off, acc, [])
hex_group off acc (c ∷ s) = elim (hex_value c) [
  | none ↦ some (off, acc, c ∷ s)
  | some v ↦ if ltb 3 off then none else hex_group (off + 1) (acc * 16 + v) s
]

is_some {ℓ} : {A : Type ℓ} → Option A → Bool
is_some none = false
is_some (some a) = true

-- What a group leads to: an error, the end of the loop, or the next group. `ellipsis` is where the
-- bytes that `::` leaves out belong.
pub data V6Step : Type 0 where
  fail : V6Step
  stop : Bytes → Option ℕ → Text → V6Step
  more : Bytes → Option ℕ → Text → V6Step

after_group : Option ℕ → Bytes → Text → ℕ → ℕ → Text → V6Step
after_group ellipsis out s off acc rest = if off == 0 then fail else go rest
  where
    grown : Bytes
    grown = out ++ ((acc / 256) ∷ (acc % 256) ∷ [])

    colon : Text → V6Step
    colon [] = fail
    colon (c ∷ r) =
        if c == b':'
        then if is_some ellipsis
          then fail
          else if is_empty r
          then stop grown (some (length grown)) []
          else more grown (some (length grown)) r
        else more grown ellipsis (c ∷ r)

    go : Text → V6Step
    go [] = stop grown ellipsis []
    go (c ∷ r) =
        if c == b'.'
        then if (not (is_some ellipsis) && not (length out == 12)) || ltb 12 (length out)
          then fail
          else elim (parse_quad s) [ none ↦ fail | some f ↦ stop (out ++ f) ellipsis [] ]
        else if c == b':'
        then colon r
        else fail

-- The loop runs at most eight rounds, since each writes two bytes of sixteen.
groups : ℕ → Bytes → Option ℕ → Text → Option (Bytes × Option ℕ × Text)
groups zero out ellipsis s = some (out, ellipsis, s)
groups (suc n) out ellipsis s = elim (hex_group 0 0 s) [
  | none ↦ none
  | some (off, acc, rest) ↦ elim (after_group ellipsis out s off acc rest) [
    | fail ↦ none
    | stop o e r ↦ some (o, e, r)
    | more o e r ↦ groups n o e r
  ]
]

finish : Option (Bytes × Option ℕ × Text) → Option Bytes
finish none = none
finish (some (out, ellipsis, c ∷ s)) = none
finish (some (out, none, [])) = if length out == 16 then some out else none
finish (some (out, some k, [])) =
    if ltb (length out) 16
    then some (take k out ++ (replicate (16 - length out) 0 ++ drop k out))
    else none

unfoldable pub parse_v6 : Text → Option Bytes
unfolding hex_value hex_group is_some after_group groups finish parse_quad
parse_v6 s = if any (λ c. c == b'%') s then none else double_colon s
  where
    double_colon : Text → Option Bytes
    double_colon (c ∷ d ∷ r) =
        if (c == b':') && (d == b':')
        then if is_empty r then some (replicate 16 0) else finish (groups 8 [] (some 0) r)
        else finish (groups 8 [] none (c ∷ d ∷ r))
    double_colon t = finish (groups 8 [] none t)
