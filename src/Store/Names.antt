-- ===== src/Store/Names.antt =====
-- internal/sqlite3store/store.go: lists of names, as `EnsureSchema` extends them.
use go_dhcpd.Base.{
  Bool, true, false, not, ◌||◌, List, [], ◌∷◌, ◌++◌, if◌then◌else◌, keep, All, All-implies,
  any-append, Bool-cases, inl, inr, Text, text_eq, text_eq_iff, text_eq_refl, ◌≡◌, refl, sym, ◌∙◌,
  subst, arith,
}
use go_dhcpd.Store.Schema.{has_name}

-- The names with another one, if it is not among them.
abbrev pub plus : List Text → Text → List Text
plus have name = if has_name have name then have else have ++ (name ∷ [])

-- The names with those of a list that are not among them.
unfoldable pub with_names : List Text → List Text → List Text
with_names have [] = have
with_names have (name ∷ names) = with_names (plus have name) names

abbrev pub missing : List Text → List Text → List Text
missing have = keep (λ name. not (has_name have name))

has_name_more :
    (have more : List Text) (name : Text)
    → has_name have name ≡ true
    → has_name (have ++ more) name ≡ true
has_name_more have more name h = any-append (λ m. text_eq m name) have more ∙ rw h refl

or_true : (b : Bool) → (b || true) ≡ true
or_true true = refl
or_true false = refl

has_name_self : (have : List Text) (name : Text) → has_name (have ++ (name ∷ [])) name ≡ true
has_name_self have name =
    any-append (λ m. text_eq m name) have (name ∷ [])
    ∙ rw (text_eq_refl name) (or_true (has_name have name))

plus-has : (have : List Text) (name : Text) → has_name (plus have name) name ≡ true
plus-has have name = elim (Bool-cases (has_name have name)) [
  | inl e ↦ rw e e
  | inr e ↦ rw e (has_name_self have name)
]

has_name-plus :
    (have : List Text) (n name : Text)
    → has_name have name ≡ true
    → has_name (plus have n) name ≡ true
has_name-plus have n name h = elim (Bool-cases (has_name have n)) [
  | inl e ↦ rw e h
  | inr e ↦ rw e (has_name_more have (n ∷ []) name h)
]

pub has_name-with_names :
    (names have : List Text) (name : Text)
    → has_name have name ≡ true
    → has_name (with_names have names) name ≡ true
unfolding with_names
has_name-with_names [] have name h = h
has_name-with_names (n ∷ names) have name h =
    has_name-with_names names (plus have n) name (has_name-plus have n name h)

pub with_names-has :
    (names have : List Text) → All (λ n. has_name (with_names have names) n ≡ true) names
unfolding with_names
with_names-has [] have = tt
with_names-has (n ∷ names) have = (
  has_name-with_names names (plus have n) n (plus-has have n),
  with_names-has names (plus have n),
)

pub with_names_all :
    (names have : List Text)
    → All (λ n. has_name have n ≡ true) names
    → with_names have names ≡ have
unfolding with_names
with_names_all [] have h = refl
with_names_all (n ∷ names) have h = rw h.0 (with_names_all names have h.1)

-- Distinct names.
abbrev pub Distinct : List Text → Type 0
Distinct [] = Unit {0}
Distinct (n ∷ names) = (has_name names n ≡ false) × Distinct names

-- A column that is added is none of those still to come.
pub agree-append :
    (existing columns : List Text) (n : Text) (names : List Text)
    → has_name names n ≡ false
    → All (λ m. has_name columns m ≡ has_name existing m) names
    → All (λ m. has_name (columns ++ (n ∷ [])) m ≡ has_name existing m) names
agree-append existing columns n [] h a = tt
agree-append existing columns n (m ∷ names) h a = (
  any-append (λ k. text_eq k m) columns (n ∷ [])
      ∙ ground (arith, text_eq_iff m n, text_eq_iff n m, a.0),
  agree-append existing columns n names (ground arith) a.1,
)

pub missing-has :
    (have names : List Text) → All (λ n. has_name (have ++ missing have names) n ≡ true) names
missing-has have [] = tt
missing-has have (n ∷ names) = elim (Bool-cases (has_name have n)) [
  | inl e ↦
      present (missing have names) (rw e refl)
        (has_name_more have (missing have names) n e, missing-has have names)
  | inr e ↦ present (n ∷ missing have names) (rw e refl) (
    any-append (λ m. text_eq m n) have (n ∷ missing have names)
        ∙ rw (text_eq_refl n) (or_true (has_name have n)),
    All-implies (λ m. has_name (have ++ missing have names) m ≡ true) _ names
        (λ m (h : has_name (have ++ missing have names) m ≡ true). one_more m h)
        (missing-has have names),
  )
]
  where
    present :
        (more : List Text)
        → missing have (n ∷ names) ≡ more
        → All (λ m. has_name (have ++ more) m ≡ true) (n ∷ names)
        → All (λ m. has_name (have ++ missing have (n ∷ names)) m ≡ true) (n ∷ names)
    present more e = subst (λ ys. All (λ m. has_name (have ++ ys) m ≡ true) (n ∷ names)) (sym e)

    one_more :
        (m : Text)
        → has_name (have ++ missing have names) m ≡ true
        → has_name (have ++ (n ∷ missing have names)) m ≡ true
    one_more m h = ground (
      arith,
      any-append (λ k. text_eq k m) have (missing have names),
      any-append (λ k. text_eq k m) have (n ∷ missing have names),
    )
