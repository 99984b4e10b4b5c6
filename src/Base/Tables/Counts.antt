-- ===== src/Base/Tables/Counts.antt =====
-- Row counts under an UPDATE and under an INSERT.
use Prim.Native.Nat.{◌+◌, ◌≤◌}
use mathlib.Core.Path.{◌≡◌}
use mathlib.Core.Bool.{Bool, true, false}
use mathlib.Core.List.{List, [], ◌∷◌}
use native.Mathlib.Omega.{arith}
use blog_post.Base.Tables.Laws.{All, update_where, affected}

module _ {A : Type 0} where
  -- An update that brings no row into a selection does not make it larger.
  pub affected-update_where-le :
      (p q : A → Bool) (f : A → A) (xs : List A)
      → ((x : A) → p (f x) ≡ true → p x ≡ true)
      → affected p (update_where q f xs) ≤ affected p xs
  unfolding affected update_where
  affected-update_where-le p q f [] h = omega arith
  affected-update_where-le p q f (x ∷ xs) h =
      ground (arith, h x, affected-update_where-le p q f xs h)

  -- An update that takes rows out of a selection makes it smaller by as many.
  pub affected-update_where-out :
      (p q : A → Bool) (f : A → A) (xs : List A)
      → ((x : A) → p (f x) ≡ false)
      → All (λ x. q x ≡ true → p x ≡ true) xs
      → affected p (update_where q f xs) + affected q xs ≡ affected p xs
  unfolding affected update_where
  affected-update_where-out p q f [] h k = omega arith
  affected-update_where-out p q f (x ∷ xs) h k =
      ground (arith, h x, k.0, affected-update_where-out p q f xs h k.1)
