-- ===== src/Options/Laws.antt =====
-- The option map of internal/dhcp/packet.go: lookups and writes.
use go_dhcpd.Base.{
  ℕ, ◌≡◌, refl, ◌≢◌, [], ◌∷◌, none, some, arith, ◌==◌, ==_refl, ==_ne, Bool-cases, inl, inr, ◌∙◌,
  if◌then◌else◌, Bytes,
}
use go_dhcpd.Options.{Options, lookup, insert}

pub lookup-insert :
    (opt code : ℕ) (val : Bytes) (opts : Options)
    → lookup code (insert opt val opts) ≡ (if opt == code then some val else lookup code opts)
unfolding lookup insert
lookup-insert opt code val [] = refl
lookup-insert opt code val ((first, old) ∷ opts) = ground (arith, lookup-insert opt code val opts)

pub lookup-insert_self : (k : ℕ) (v : Bytes) (m : Options) → lookup k (insert k v m) ≡ some v
lookup-insert_self k v m = rw (lookup-insert, ==_refl)

pub lookup-insert_ne :
    (k j : ℕ) (v : Bytes) (m : Options) → k ≢ j → lookup j (insert k v m) ≡ lookup j m
lookup-insert_ne k j v m h = rw (lookup-insert, ==_ne k j h)

-- A map that holds no key twice.
abbrev pub Distinct : Options → Type 0
Distinct [] = Unit
Distinct ((k, v) ∷ m) = (lookup k m ≡ none) × Distinct m

pub insert-Distinct : (k : ℕ) (v : Bytes) (m : Options) → Distinct m → Distinct (insert k v m)
unfolding insert
insert-Distinct k v [] d = (unfold lookup in refl, tt)
insert-Distinct k v ((j, w) ∷ m) d = elim (Bool-cases (j == k)) [
  | inl same ↦ rw same (let e : j ≡ k = ground arith in (rw (← e) d.0, d.1))
  | inr other ↦ rw other (lookup-insert k j v m ∙ ground (arith, d.0), insert-Distinct k v m d.1)
]
