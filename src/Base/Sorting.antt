-- ===== src/Base/Sorting.antt =====
-- `ORDER BY`: a stable sort of the rows.
use mathlib.Core.Bool.{Bool}
use mathlib.Core.List.{List, [], ◌∷◌}
use go_dhcpd.Base.Tests.{if◌then◌else◌}

module _ {A : Type 0} (before : A → A → Bool) where
  unfoldable pub insert_row : A → List A → List A
  insert_row r [] = r ∷ []
  insert_row r (s ∷ rows) = if before r s then r ∷ s ∷ rows else s ∷ insert_row r rows

  unfoldable pub sort_rows : List A → List A
  unfolding insert_row
  sort_rows [] = []
  sort_rows (r ∷ rows) = insert_row r (sort_rows rows)
