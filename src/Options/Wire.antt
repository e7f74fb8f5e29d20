-- ===== src/Options/Wire.antt =====
-- `parseOptions` and the option loop of `ToBytes` of internal/dhcp/packet.go together.
use mathlib.Core.List.{append_assoc, append-nil}
use go_dhcpd.Base.{
  ℕ, zero, suc, ◌+◌, ◌%◌, ◌≤◌, ◌<◌, ◌≡◌, refl, sym, ◌≢◌, ap, ◌∙◌, [], ◌∷◌, ◌++◌, none, some, arith,
  ==_ne, le→ltb, inl, inr, ltb, ◌==◌, length, take, drop, length-append, take-append, drop-append,
  length-drop, take-take_append, drop-le_append, Bool-cases, Bytes, All,
}
use go_dhcpd.Options.{
  Options, lookup, insert, Turn, leave, continue, store, turn, turn_value, parse_loop,
  parse_options, write_options, option_end, read_map,
}
use go_dhcpd.Options.Laws.{Distinct}

-- How much data a turn leaves.
abbrev Shrinks : ℕ → Turn → Type 0
Shrinks n leave = Unit
Shrinks n (continue rest) = length rest < n
Shrinks n (store option v rest) = length rest < n

turn_value-Shrinks :
    (option : ℕ) (rest : Bytes) → Shrinks (suc (length rest)) (turn_value option rest)
unfolding turn_value
turn_value-Shrinks option [] = tt
turn_value-Shrinks option (n ∷ rest) = elim (Bool-cases (ltb (length rest) n)) [
  | inl short ↦ rw short tt
  | inr long ↦ rw long (omega (arith, length-drop n rest))
]

turn-Shrinks : (bytes : Bytes) → Shrinks (length bytes) (turn bytes)
unfolding turn
turn-Shrinks [] = tt
turn-Shrinks (option ∷ rest) = elim (Bool-cases (option == option_end)) [
  | inl last ↦ rw last tt
  | inr more ↦ elim (Bool-cases (option == 0)) [
    | inl pad ↦ rw (more, pad) (omega arith)
    | inr code ↦ rw (more, code) (turn_value-Shrinks option rest)
  ]
]

-- The loop over the options ends within one turn for each byte and one more, whatever the data.
pub parse_loop_total :
    (fuel : ℕ) (bytes : Bytes) (opts : Options)
    → length bytes < fuel
    → (r : Options) × (parse_loop fuel bytes opts ≡ some r)
unfolding parse_loop
parse_loop_total zero bytes opts h = elim h [ ]
parse_loop_total (suc fuel) bytes opts h =
    go (turn bytes) refl (turn-Shrinks bytes) (parse_loop_total fuel)
  where
    Ends : ℕ → Bytes → Options → Type 0
    Ends n b o = (r : Options) × (parse_loop n b o ≡ some r)

    go :
        (t : Turn)
        → turn bytes ≡ t
        → Shrinks (length bytes) t
        → ((b : Bytes) (o : Options) → length b < fuel → Ends fuel b o)
        → Ends (suc fuel) bytes opts
    go leave e s ih = (opts, rw (e, parse_loop))
    go (continue rest) e s ih = let (r, p) = ih rest opts (omega arith) in (r, rw (e, parse_loop) p)
    go (store k v rest) e s ih =
        let (r, p) = ih rest (insert k v opts) (omega arith) in (r, rw (e, parse_loop) p)

-- An option that the wire format can hold: a code that is neither padding nor the end marker, and a
-- length that fits a byte.
abbrev pub IsWritable : ℕ × Bytes → Type 0
IsWritable o = (0 < o.0) × (o.0 < option_end) × (length o.1 < 256)

abbrev insert_all : Options → Options → Options
insert_all acc [] = acc
insert_all acc ((k, v) ∷ m) = insert_all (insert k v acc) m

turn_written :
    (k : ℕ) (v rest : Bytes)
    → IsWritable (k, v)
    → turn (k ∷ (length v % 256) ∷ (v ++ rest)) ≡ store k v rest
unfolding turn
turn_written k v rest h =
    let e : length v % 256 ≡ length v = omega arith in
    rw (
      ==_ne k option_end (λ p. absurd (omega arith)),
      ==_ne k 0 (λ p. absurd (omega arith)),
      e,
      length-append v rest,
      le→ltb (length v + length rest) (length v) (omega arith),
      take-append (length v) v rest refl,
      drop-append (length v) v rest refl,
    )

parse_loop_store :
    (fuel k : ℕ) (v bytes rest : Bytes) (acc : Options)
    → turn bytes ≡ store k v rest
    → parse_loop (suc fuel) bytes acc ≡ parse_loop fuel rest (insert k v acc)
unfolding parse_loop
parse_loop_store fuel k v bytes rest acc e = rw (e, parse_loop)

parse_options_of :
    (bytes : Bytes) (m : Options)
    → parse_loop (length bytes + 1) bytes [] ≡ some m
    → parse_options bytes ≡ m
unfolding parse_options
parse_options_of bytes m e = ap read_map e

lookup_head :
    (k j : ℕ) (w : Bytes) (m : Options)
    → lookup k ((j, w) ∷ m) ≡ none
    → (k ≢ j) × (lookup k m ≡ none)
unfolding lookup
lookup_head k j w m h = ground arith

parse-write-All :
    (m : Options) (fuel : ℕ) (acc : Options) (rest : Bytes)
    → length m < fuel
    → All IsWritable m
    → parse_loop fuel (write_options m ++ (option_end ∷ rest)) acc ≡ some (insert_all acc m)
unfolding parse_loop write_options
parse-write-All m zero acc rest h w = elim h [ ]
parse-write-All [] (suc fuel) acc rest h w = unfold turn in refl
parse-write-All ((k, v) ∷ m) (suc fuel) acc rest h w =
    let tail = write_options m ++ (option_end ∷ rest) in
    ap (λ (b : Bytes). parse_loop (suc fuel) (k ∷ (length v % 256) ∷ b) acc)
      (append_assoc v (write_options m) (option_end ∷ rest))
    ∙ parse_loop_store fuel k v _ tail acc (turn_written k v tail w.0)
    ∙ parse-write-All m fuel (insert k v acc) rest (omega arith) w.1

-- The keys of `m` are not in `acc`.
abbrev Fresh : Options → Options → Type 0
Fresh acc [] = Unit
Fresh acc ((k, v) ∷ m) = (lookup k acc ≡ none) × Fresh acc m

insert_fresh :
    (k : ℕ) (v : Bytes) (acc : Options)
    → lookup k acc ≡ none
    → insert k v acc ≡ acc ++ ((k, v) ∷ [])
unfolding lookup insert
insert_fresh k v [] h = refl
insert_fresh k v ((j, w) ∷ acc) h = ground (arith, insert_fresh k v acc)

lookup-append_ne :
    (k j : ℕ) (v : Bytes) (acc : Options)
    → lookup j acc ≡ none
    → k ≢ j
    → lookup j (acc ++ ((k, v) ∷ [])) ≡ none
unfolding lookup
lookup-append_ne k j v [] h n = ground arith
lookup-append_ne k j v ((i, w) ∷ acc) h n = ground (arith, lookup-append_ne k j v acc)

Fresh-append :
    (k : ℕ) (v : Bytes) (acc m : Options)
    → lookup k m ≡ none
    → Fresh acc m
    → Fresh (acc ++ ((k, v) ∷ [])) m
Fresh-append k v acc [] h f = tt
Fresh-append k v acc ((j, w) ∷ m) h f =
    let split = lookup_head k j w m h in
    (lookup-append_ne k j v acc f.0 split.0, Fresh-append k v acc m split.1 f.1)

insert_all-Fresh : (acc m : Options) → Distinct m → Fresh acc m → insert_all acc m ≡ acc ++ m
insert_all-Fresh acc [] d f = sym (append-nil acc)
insert_all-Fresh acc ((k, v) ∷ m) d f =
    ap (λ (a : Options). insert_all a m) (insert_fresh k v acc f.0)
    ∙ insert_all-Fresh (acc ++ ((k, v) ∷ [])) m d.1 (Fresh-append k v acc m d.0 f.1)
    ∙ append_assoc acc ((k, v) ∷ []) m

Fresh-nil : (m : Options) → Fresh [] m
unfolding lookup
Fresh-nil [] = tt
Fresh-nil ((k, v) ∷ m) = (refl, Fresh-nil m)

length-write_options : (m : Options) → length m ≤ length (write_options m)
unfolding write_options
length-write_options [] = omega arith
length-write_options ((k, v) ∷ m) =
    omega (arith, length-append v (write_options m), length-write_options m)

-- What `ToBytes` writes of a map, in whatever order, is read back as that map, if every code is
-- neither padding nor the end marker and every value has at most 255 bytes.
pub parse_options-write_options :
    (m : Options) (rest : Bytes)
    → Distinct m
    → All IsWritable m
    → parse_options (write_options m ++ (option_end ∷ rest)) ≡ m
parse_options-write_options m rest d w =
    let bytes = write_options m ++ (option_end ∷ rest) in
    parse_options_of bytes m (
      parse-write-All m (length bytes + 1) [] rest
        (omega
          (arith, length-write_options m, length-append {0} (write_options m) (option_end ∷ rest)))
        w
      ∙ ap some (insert_all-Fresh [] m d (Fresh-nil m)))

-- An option that `ToBytes` has written, under a code that is neither padding nor the end marker, is
-- read back wrong from 256 bytes on: whatever the length of the value, the reader takes the first `length % 256` bytes of it for the
-- value and goes on to read options in what is left of it.
pub turn_oversized :
    (k : ℕ) (v rest : Bytes)
    → 0 < k
    → k < option_end
    → turn (write_options ((k, v) ∷ []) ++ rest)
      ≡ store k (take (length v % 256) v) (drop (length v % 256) v ++ rest)
unfolding write_options turn
turn_oversized k v rest lo hi = rw (
  ==_ne k option_end (λ p. absurd (omega arith)),
  ==_ne k 0 (λ p. absurd (omega arith)),
  append-nil v,
  length-append v rest,
  le→ltb (length v + length rest) (length v % 256) (omega arith),
  take-take_append (length v % 256) (length v) v rest refl (omega arith),
  drop-le_append (length v % 256) v rest (omega arith),
)
