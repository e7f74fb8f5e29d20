-- ===== src/Base/Lists.antt =====
-- Lists measured and indexed by native numbers, under the library's names, and Go's `copy` into a
-- zeroed array.
use Prim.Native.Nat.{ℕ, zero, suc, ◌+◌, ◌-◌, ◌≤◌, min}
use mathlib.Core.Path.{◌≡◌, refl, ap}
use mathlib.Core.Bool.{Bool, true, false, ◌||◌}
use mathlib.Core.Logic.{inl, inr}
use mathlib.Core.List.{List, [], ◌∷◌, ◌++◌, map}
use native.Mathlib.Omega.{arith}
use go_dhcpd.Base.Tests.{if◌then◌else◌, Bool-cases}

module _ {ℓ} {A : Type ℓ} where
  abbrev pub length : List A → ℕ
  length [] = 0
  length (x ∷ xs) = suc (length xs)

  abbrev pub get_or : List A → ℕ → A → A
  get_or [] i d = d
  get_or (x ∷ xs) zero d = x
  get_or (x ∷ xs) (suc i) d = get_or xs i d

  abbrev pub take : ℕ → List A → List A
  take zero xs = []
  take (suc n) [] = []
  take (suc n) (x ∷ xs) = x ∷ take n xs

  abbrev pub drop : ℕ → List A → List A
  drop zero xs = xs
  drop (suc n) [] = []
  drop (suc n) (x ∷ xs) = drop n xs

  abbrev pub replicate : ℕ → A → List A
  replicate zero a = []
  replicate (suc n) a = a ∷ replicate n a

  -- Loops that keep or test the elements of a slice.
  abbrev pub keep : (A → Bool) → List A → List A
  keep p [] = []
  keep p (x ∷ xs) = if p x then x ∷ keep p xs else keep p xs

  abbrev pub any : (A → Bool) → List A → Bool
  any p [] = false
  any p (x ∷ xs) = if p x then true else any p xs

  abbrev pub All {κ} : (A → Type κ) → List A → Type κ
  All P [] = Unit
  All P (x ∷ xs) = P x × All P xs

module _ {ℓ} {A : Type ℓ} where
  pub length-append : (xs ys : List A) → length (xs ++ ys) ≡ length xs + length ys
  length-append [] ys = omega arith
  length-append (x ∷ xs) ys = omega (arith, length-append xs ys)

  pub length-replicate : (n : ℕ) (a : A) → length (replicate n a) ≡ n
  length-replicate zero a = refl
  length-replicate (suc n) a = ap suc (length-replicate n a)

  pub length-take : (n : ℕ) (xs : List A) → length (take n xs) ≡ min n (length xs)
  length-take zero xs = omega arith
  length-take (suc n) [] = omega arith
  length-take (suc n) (x ∷ xs) = omega (arith, length-take n xs)

  pub length-drop : (n : ℕ) (xs : List A) → length (drop n xs) ≡ length xs - n
  length-drop zero xs = omega arith
  length-drop (suc n) [] = omega arith
  length-drop (suc n) (x ∷ xs) = omega (arith, length-drop n xs)

  pub take-append : (n : ℕ) (xs ys : List A) → length xs ≡ n → take n (xs ++ ys) ≡ xs
  take-append zero [] ys h = refl
  take-append zero (x ∷ xs) ys h = absurd (omega arith)
  take-append (suc n) [] ys h = absurd (omega arith)
  take-append (suc n) (x ∷ xs) ys h = ap (◌∷◌ x) (take-append n xs ys (omega arith))

  pub drop-append : (n : ℕ) (xs ys : List A) → length xs ≡ n → drop n (xs ++ ys) ≡ ys
  drop-append zero [] ys h = refl
  drop-append zero (x ∷ xs) ys h = absurd (omega arith)
  drop-append (suc n) [] ys h = absurd (omega arith)
  drop-append (suc n) (x ∷ xs) ys h = drop-append n xs ys (omega arith)

  pub drop-append_more :
      (n m : ℕ) (xs ys : List A) → length xs ≡ n → drop (n + m) (xs ++ ys) ≡ drop m ys
  drop-append_more n m [] ys h = let e : n + m ≡ m = omega arith in ap (λ (k : ℕ). drop k ys) e
  drop-append_more zero m (x ∷ xs) ys h = absurd (omega arith)
  drop-append_more (suc n) m (x ∷ xs) ys h =
      let e : suc n + m ≡ suc (n + m) = omega arith in
      subst_drop e (drop-append_more n m xs ys (omega arith))
    where
      subst_drop :
          {k : ℕ}
          → k ≡ suc (n + m)
          → drop (n + m) (xs ++ ys) ≡ drop m ys
          → drop k (x ∷ (xs ++ ys)) ≡ drop m ys
      subst_drop e h = cc (ap (λ (k : ℕ). drop k (x ∷ (xs ++ ys))) e)

  -- `copy` of `xs` into an array of `n` elements that hold `z`.
  abbrev pub fit : ℕ → A → List A → List A
  fit zero z xs = []
  fit (suc n) z [] = z ∷ fit n z []
  fit (suc n) z (x ∷ xs) = x ∷ fit n z xs

  pub length-fit : (n : ℕ) (z : A) (xs : List A) → length (fit n z xs) ≡ n
  length-fit zero z xs = refl
  length-fit (suc n) z [] = ap suc (length-fit n z [])
  length-fit (suc n) z (x ∷ xs) = ap suc (length-fit n z xs)

  pub fit_exact : (n : ℕ) (z : A) (xs : List A) → length xs ≡ n → fit n z xs ≡ xs
  fit_exact zero z [] h = refl
  fit_exact zero z (x ∷ xs) h = absurd (omega arith)
  fit_exact (suc n) z [] h = absurd (omega arith)
  fit_exact (suc n) z (x ∷ xs) h = ap (◌∷◌ x) (fit_exact n z xs (omega arith))

  pub take-fit : (k n : ℕ) (z : A) (xs : List A) → length xs ≡ k → k ≤ n → take k (fit n z xs) ≡ xs
  take-fit zero n z [] h le = refl
  take-fit zero n z (x ∷ xs) h le = absurd (omega arith)
  take-fit (suc k) n z [] h le = absurd (omega arith)
  take-fit (suc k) zero z (x ∷ xs) h le = absurd (omega arith)
  take-fit (suc k) (suc n) z (x ∷ xs) h le =
      ap (◌∷◌ x) (take-fit k n z xs (omega arith) (omega arith))

  pub take-take_append :
      (k n : ℕ) (xs ys : List A) → length xs ≡ n → k ≤ n → take k (xs ++ ys) ≡ take k xs
  take-take_append zero n xs ys h le = refl
  take-take_append (suc k) n [] ys h le = absurd (omega arith)
  take-take_append (suc k) zero (x ∷ xs) ys h le = absurd (omega arith)
  take-take_append (suc k) (suc n) (x ∷ xs) ys h le =
      ap (◌∷◌ x) (take-take_append k n xs ys (omega arith) (omega arith))

  pub drop-le_append :
      (k : ℕ) (xs ys : List A) → k ≤ length xs → drop k (xs ++ ys) ≡ drop k xs ++ ys
  drop-le_append zero xs ys le = refl
  drop-le_append (suc k) [] ys le = absurd (omega arith)
  drop-le_append (suc k) (x ∷ xs) ys le = drop-le_append k xs ys (omega arith)

  pub drop-drop : (n m : ℕ) (xs : List A) → drop m (drop n xs) ≡ drop (n + m) xs
  drop-drop zero m xs = let e : zero + m ≡ m = omega arith in rw e
  drop-drop (suc n) zero [] = let e : suc n + zero ≡ suc n = omega arith in rw e
  drop-drop (suc n) (suc m) [] = let e : suc n + suc m ≡ suc (n + suc m) = omega arith in rw e
  drop-drop (suc n) m (x ∷ xs) =
      let e : suc n + m ≡ suc (n + m) = omega arith in rw e (drop-drop n m xs)

module _ {ℓ κ} {A : Type ℓ} (P : A → Type κ) where
  pub All-append : (xs ys : List A) → All P xs → All P ys → All P (xs ++ ys)
  All-append [] ys p q = q
  All-append (x ∷ xs) ys p q = (p.0, All-append xs ys p.1 q)

  pub All-keep : (p : A → Bool) (xs : List A) → All P xs → All P (keep p xs)
  All-keep p [] h = h
  All-keep p (x ∷ xs) h = elim (Bool-cases (p x)) [
    | inl e ↦ rw e (h.0, All-keep p xs h.1)
    | inr e ↦ rw e (All-keep p xs h.1)
  ]

  pub All-keep_when {μ} :
      (Q : A → Type μ) (p : A → Bool) (xs : List A)
      → ((x : A) → P x → p x ≡ true → Q x)
      → All P xs
      → All Q (keep p xs)
  All-keep_when Q p [] f h = tt
  All-keep_when Q p (x ∷ xs) f h = elim (Bool-cases (p x)) [
    | inl e ↦ rw e (f x h.0 e, All-keep_when Q p xs f h.1)
    | inr e ↦ rw e (All-keep_when Q p xs f h.1)
  ]

  pub All-implies {μ} : (Q : A → Type μ) (xs : List A) → ((x : A) → P x → Q x) → All P xs → All Q xs
  All-implies Q [] f h = tt
  All-implies Q (x ∷ xs) f h = (f x h.0, All-implies Q xs f h.1)

module _ {ℓ} {A : Type ℓ} where
  pub any-append : (p : A → Bool) (xs ys : List A) → any p (xs ++ ys) ≡ (any p xs || any p ys)
  any-append p [] ys = refl
  any-append p (x ∷ xs) ys = ground (arith, any-append p xs ys)

  pub keep-append : (p : A → Bool) (xs ys : List A) → keep p (xs ++ ys) ≡ keep p xs ++ keep p ys
  keep-append p [] ys = refl
  keep-append p (x ∷ xs) ys = elim (Bool-cases (p x)) [
    | inl e ↦ rw e (ap (◌∷◌ x) (keep-append p xs ys))
    | inr e ↦ rw e (keep-append p xs ys)
  ]

  -- Tests that agree on every element keep the same elements.
  pub keep-eq : (p q : A → Bool) (xs : List A) → All (λ x. p x ≡ q x) xs → keep p xs ≡ keep q xs
  keep-eq p q [] h = refl
  keep-eq p q (x ∷ xs) h = rw (h.0, keep-eq p q xs h.1) refl

  pub keep-none : (p : A → Bool) (xs : List A) → All (λ x. p x ≡ false) xs → keep p xs ≡ []
  keep-none p [] h = refl
  keep-none p (x ∷ xs) h = rw h.0 (keep-none p xs h.1)

  pub keep-all : (p : A → Bool) (xs : List A) → All (λ x. p x ≡ true) xs → keep p xs ≡ xs
  keep-all p [] h = refl
  keep-all p (x ∷ xs) h = rw h.0 (ap (◌∷◌ x) (keep-all p xs h.1))

  -- What the inner test drops, the outer would drop too.
  pub keep-keep :
      (p q : A → Bool) (xs : List A)
      → ((x : A) → p x ≡ true → q x ≡ true)
      → keep p (keep q xs) ≡ keep p xs
  keep-keep p q [] h = refl
  keep-keep p q (x ∷ xs) h = elim (Bool-cases (p x)) [
    | inl e ↦ rw (h x e, e) (ap (◌∷◌ x) (keep-keep p q xs h))
    | inr e ↦ elim (Bool-cases (q x)) [
      | inl f ↦ rw (f, e) (keep-keep p q xs h)
      | inr f ↦ rw (f, e) (keep-keep p q xs h)
    ]
  ]

  pub any_none : (p : A → Bool) (xs : List A) → any p xs ≡ false → All (λ x. p x ≡ false) xs
  any_none p [] h = tt
  any_none p (x ∷ xs) h = elim (Bool-cases (p x)) [
    | inl e ↦ cc (rw e at h)
    | inr e ↦ (e, any_none p xs (rw e at h))
  ]

  pub not_any : (p : A → Bool) (xs : List A) → All (λ x. p x ≡ false) xs → any p xs ≡ false
  not_any p [] h = refl
  not_any p (x ∷ xs) h = rw h.0 (not_any p xs h.1)

module _ {ℓ κ} {A : Type ℓ} {B : Type κ} where
  pub map-eq : (f g : A → B) (xs : List A) → All (λ x. f x ≡ g x) xs → map f xs ≡ map g xs
  map-eq f g [] h = refl
  map-eq f g (x ∷ xs) h = rw (h.0, map-eq f g xs h.1) refl

  pub any-map : (p : B → Bool) (f : A → B) (xs : List A) → any p (map f xs) ≡ any (λ x. p (f x)) xs
  any-map p f [] = refl
  any-map p f (x ∷ xs) = ground (arith, any-map p f xs)

  pub keep-map :
      (p : B → Bool) (f : A → B) (xs : List A) → keep p (map f xs) ≡ map f (keep (λ x. p (f x)) xs)
  keep-map p f [] = refl
  keep-map p f (x ∷ xs) = elim (Bool-cases (p (f x))) [
    | inl e ↦ rw e (ap (◌∷◌ (f x)) (keep-map p f xs))
    | inr e ↦ rw e (keep-map p f xs)
  ]
