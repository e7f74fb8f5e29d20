-- ===== src/Arp.antt =====
-- `getMACFromARP` of internal/allocator/allocator.go: the hardware address in the output of `arp`.
use go_dhcpd.Base.{
  ℕ, suc, Bool, true, false, ◌&&◌, ◌||◌, List, [], ◌∷◌, Option, none, some, leb, ◌==◌,
  if◌then◌else◌, keep, Text, codes, is_empty,
}

abbrev cons_first : ℕ → List Text → List Text
cons_first c [] = (c ∷ []) ∷ []
cons_first c (l ∷ ls) = (c ∷ l) ∷ ls

-- Cuts the text at each byte that satisfies the test.
split_at : (ℕ → Bool) → Text → List Text
split_at p [] = [] ∷ []
split_at p (c ∷ s) = let rest = split_at p s in if p c then [] ∷ rest else cons_first c rest

is_space : ℕ → Bool
is_space c = leb 9 c && leb c 13 || c == 32

-- `strings.Fields`, on ASCII
fields : Text → List Text
unfolding split_at is_space
fields s = keep (λ f. elim f [ [] ↦ false | c ∷ r ↦ true ]) (split_at is_space s)

starts_with : Text → Text → Bool
starts_with s [] = true
starts_with [] (d ∷ t) = false
starts_with (c ∷ s) (d ∷ t) = if c == d then starts_with s t else false

-- `strings.Contains(s, t)`
contains_text : Text → Text → Bool
unfolding starts_with
contains_text [] t = is_empty t
contains_text (c ∷ s) t = if starts_with (c ∷ s) t then true else contains_text s t

count_byte : ℕ → Text → ℕ
count_byte b [] = 0
count_byte b (c ∷ s) = if c == b then suc (count_byte b s) else count_byte b s

first_mac : List Text → Option Text
first_mac [] = none
first_mac (f ∷ fs) = if count_byte b':' f == 5 then some f else first_mac fs

scan_lines : Text → List Text → Text
scan_lines ip [] = codes "unknown"
scan_lines ip (line ∷ lines) =
    if contains_text line ip
    then elim (first_mac (fields line)) [ none ↦ scan_lines ip lines | some f ↦ f ]
    else scan_lines ip lines

-- The argument is the output of the command, or nothing if it failed.
unfoldable pub mac_from_arp : Text → Option Text → Text
unfolding split_at is_space fields starts_with contains_text count_byte first_mac scan_lines
mac_from_arp ip none = codes "unknown"
mac_from_arp ip (some output) = scan_lines ip (split_at (λ c. c == 10) output)
