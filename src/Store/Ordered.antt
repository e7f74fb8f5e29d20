-- ===== src/Store/Ordered.antt =====
-- internal/sqlite3store/store.go: a list that is written row by row is read back in its order.
use mathlib.Core.List.{append-nil}
use go_dhcpd.Base.{
  ℕ, suc, ◌≤◌, false, not, List, [], ◌∷◌, ◌++◌, ◌==◌, ==_refl, keep, sort_rows, insert_row,
  keep-append, keep-keep, ◌≡◌, refl, ap, ◌∙◌, arith, Bool-cases, inl, inr,
}
use go_dhcpd.Store.Rows.{Child}
use go_dhcpd.Store.Children.{child_of, position_le, values_in, ordered}
use go_dhcpd.Store.Lists.{numbered}

module _ {A : Type 0} where
  keep_own : (id i : ℕ) (vs : List A) → keep (child_of id) (numbered id i vs) ≡ numbered id i vs
  unfolding numbered
  keep_own id i [] = refl
  keep_own id i (v ∷ vs) =
      rw (==_refl id)
        (ap (◌∷◌ (record { subnet_id = id; position = i; value = v })) (keep_own id (suc i) vs))

  keep_other :
      (id n i : ℕ) (vs : List A) → (n == id) ≡ false → keep (child_of id) (numbered n i vs) ≡ []
  unfolding numbered
  keep_other id n i [] h = refl
  keep_other id n i (v ∷ vs) h = rw h (keep_other id n (suc i) vs h)

  insert_first :
      (id i j : ℕ) (v : A) (vs : List A)
      → i ≤ j
      → insert_row
          (position_le {A = A})
          (record { subnet_id = id; position = i; value = v })
          (numbered id j vs)
        ≡ record { subnet_id = id; position = i; value = v } ∷ numbered id j vs
  unfolding insert_row numbered
  insert_first id i j v [] h = refl
  insert_first id i j v (w ∷ vs) h = ground arith

  sort_numbered :
      (id i : ℕ) (vs : List A)
      → sort_rows (position_le {A = A}) (numbered id i vs) ≡ numbered id i vs
  unfolding sort_rows numbered
  sort_numbered id i [] = refl
  sort_numbered id i (v ∷ vs) =
      ap (insert_row position_le (record { subnet_id = id; position = i; value = v }))
        (sort_numbered id (suc i) vs)
      ∙ insert_first id i (suc i) v vs (omega arith)

  map_numbered : (id i : ℕ) (vs : List A) → values_in (numbered id i vs) ≡ vs
  unfolding numbered
  map_numbered id i [] = refl
  map_numbered id i (v ∷ vs) = ap (◌∷◌ v) (map_numbered id (suc i) vs)

  -- Rows appended for a subnet that has none are what is read for it.
  pub ordered-numbered :
      (id : ℕ) (rows : List (Child A)) (vs : List A)
      → keep (child_of id) rows ≡ []
      → ordered id (rows ++ numbered id 0 vs) ≡ vs
  unfolding ordered
  ordered-numbered id rows vs none =
      ap (λ (kept : List (Child A)). values_in (sort_rows position_le kept))
        (keep-append (child_of id) rows (numbered id 0 vs)
          ∙ ap (λ (old : List (Child A)). old ++ keep (child_of id) (numbered id 0 vs)) none
          ∙ keep_own id 0 vs)
      ∙ ap (values_in) (sort_numbered id 0 vs)
      ∙ map_numbered id 0 vs

  -- What is read depends only on the rows of the subnet.
  pub ordered-eq :
      (id : ℕ) (rows rows' : List (Child A))
      → keep (child_of id) rows ≡ keep (child_of id) rows'
      → ordered id rows ≡ ordered id rows'
  unfolding ordered
  ordered-eq id rows rows' h =
      ap (λ (kept : List (Child A)). values_in (sort_rows position_le kept)) h

  -- Rows of another subnet, appended or deleted, are not read.
  pub ordered-append_other :
      (id n : ℕ) (rows : List (Child A)) (vs : List A)
      → (n == id) ≡ false
      → ordered id (rows ++ numbered n 0 vs) ≡ ordered id rows
  ordered-append_other id n rows vs h = ordered-eq id _ _ (
      keep-append (child_of id) rows (numbered n 0 vs)
      ∙ ap (λ (new : List (Child A)). keep (child_of id) rows ++ new) (keep_other id n 0 vs h)
      ∙ append-nil (keep (child_of id) rows))

  pub keep-delete_other :
      (id n : ℕ) (rows : List (Child A))
      → (n == id) ≡ false
      → keep (child_of id) (keep (λ row. not (child_of n row)) rows) ≡ keep (child_of id) rows
  keep-delete_other id n rows h = keep-keep (child_of id) _ rows λ row e. ground arith

  pub keep-delete_own :
      (id : ℕ) (rows : List (Child A))
      → keep (child_of id) (keep (λ row. not (child_of id row)) rows) ≡ []
  keep-delete_own id [] = refl
  keep-delete_own id (r ∷ rows) = elim (Bool-cases (child_of id r)) [
    | inl e ↦ rw e (keep-delete_own id rows)
    | inr e ↦ rw e (rw e (keep-delete_own id rows))
  ]
