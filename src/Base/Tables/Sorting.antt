-- ===== src/Base/Tables/Sorting.antt =====
-- ORDER BY, as an insertion sort by what comes before what.
use blog_post.Base.Tests.{if◌then◌else◌}
use mathlib.Core.Bool.{Bool}
use mathlib.Core.List.{List, [], ◌∷◌}

module _ {ℓ} {A : Type ℓ} (before : A → A → Bool) where
  -- Among rows that the order leaves open, the one at the back of the table comes first.
  unfoldable pub insert_row : A → List A → List A
  insert_row e [] = e ∷ []
  insert_row e (x ∷ xs) = let rest = insert_row e xs in if before e x then e ∷ x ∷ xs else x ∷ rest

  unfoldable pub sort_rows : List A → List A
  unfolding insert_row
  sort_rows [] = []
  sort_rows (x ∷ xs) = insert_row x (sort_rows xs)
