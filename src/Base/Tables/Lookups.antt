-- ===== src/Base/Tables/Lookups.antt =====
-- What EXISTS says of the other statements with the same condition.
use mathlib.Core.Path.{◌≡◌, refl}
use mathlib.Core.Bool.{Bool, true, false}
use mathlib.Core.Option.{none, some}
use mathlib.Core.List.{List, [], ◌∷◌, map}
use native.Mathlib.Omega.{arith}
use blog_post.Base.Tests.{if◌then◌else◌}
use blog_post.Base.Tables.Laws.{
  All, find_first, exists, update_where, affected, update_where-unmatched,
}

module _ {A : Type 0} where
  pub find_first-exists :
      (p : A → Bool) (xs : List A) (a : A) → find_first p xs ≡ some a → exists p xs ≡ true
  unfolding find_first exists
  find_first-exists p [] a h = cc
  find_first-exists p (x ∷ xs) a h = ground (arith, h, find_first-exists p xs a)

  pub exists-find_first :
      (p : A → Bool) (xs : List A) → exists p xs ≡ false → find_first p xs ≡ none
  unfolding find_first exists
  exists-find_first p [] h = refl
  exists-find_first p (x ∷ xs) h = ground (arith, h, exists-find_first p xs)

  pub exists-affected : (p : A → Bool) (xs : List A) → exists p xs ≡ false → affected p xs ≡ 0
  unfolding affected exists
  exists-affected p [] h = refl
  exists-affected p (x ∷ xs) h = ground (arith, h, exists-affected p xs)

  pub affected-exists : (p : A → Bool) (xs : List A) → affected p xs ≡ 0 → exists p xs ≡ false
  unfolding affected exists
  affected-exists p [] h = refl
  affected-exists p (x ∷ xs) h = ground (arith, h, affected-exists p xs)

  pub update_where-unmet :
      (p : A → Bool) (f : A → A) (xs : List A) → exists p xs ≡ false → update_where p f xs ≡ xs
  update_where-unmet p f xs h = update_where-unmatched p f xs (exists-affected p xs h)

  -- What an update leaves in a selection is there afterwards.
  pub exists-update_where_keeps :
      (p q : A → Bool) (f : A → A) (xs : List A)
      → ((x : A) → q x ≡ true → p x ≡ true → p (f x) ≡ true)
      → exists p xs ≡ true
      → exists p (update_where q f xs) ≡ true
  unfolding exists update_where
  exists-update_where_keeps p q f [] keep h = h
  exists-update_where_keeps p q f (x ∷ xs) keep h =
      ground (arith, keep x, h, exists-update_where_keeps p q f xs keep)

  -- An update, described row by row.
  pub update_where-map :
      (p : A → Bool) (f g : A → A) (xs : List A)
      → ((x : A) → (if p x then f x else x) ≡ g x)
      → update_where p f xs ≡ map g xs
  unfolding update_where
  update_where-map p f g [] same = refl
  update_where-map p f g (x ∷ xs) same = rw (same x, update_where-map p f g xs same) refl

  pub update_where-All :
      (p : A → Bool) (f g : A → A) (xs : List A)
      → All (λ x. p x ≡ true → f x ≡ g x) xs
      → update_where p f xs ≡ update_where p g xs
  unfolding update_where
  update_where-All p f g [] same = refl
  update_where-All p f g (x ∷ xs) same = ground (arith, same.0, update_where-All p f g xs same.1)
