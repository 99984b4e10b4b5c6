-- ===== src/Base/Tables/Laws.antt =====
-- The statements on a table of rows, and their laws.
use Prim.Native.Nat.{ℕ, zero, suc, ◌+◌}
use mathlib.Core.Path.{◌≡◌, refl, ap, subst}
use mathlib.Core.Logic.{inl, inr}
use mathlib.Core.Bool.{Bool, true, false}
use mathlib.Core.Option.{Option, none, some, some-injective}
use mathlib.Core.Option
use mathlib.Core.List.{List, [], ◌∷◌}
use native.Mathlib.Omega.{arith}
use blog_post.Base.Tests.{leb, if◌then◌else◌, Bool-cases}

abbrev pub length {ℓ} : {A : Type ℓ} → List A → ℕ
length [] = 0
length (x ∷ xs) = suc (length xs)

-- A property of every row.
abbrev pub All {ℓ κ} : {A : Type ℓ} → (A → Type κ) → List A → Type κ
All P [] = Unit
All P (x ∷ xs) = P x × All P xs

module _ {ℓ} {A : Type ℓ} where
  -- SELECT ... WHERE, of which the first row is fetched.
  unfoldable pub find_first : (A → Bool) → List A → Option A
  find_first p [] = none
  find_first p (x ∷ xs) = if p x then some x else find_first p xs

  -- A row that meets the condition is there.
  unfoldable pub exists : (A → Bool) → List A → Bool
  exists p [] = false
  exists p (x ∷ xs) = if p x then true else exists p xs

  -- UPDATE ... SET ... WHERE.
  unfoldable pub update_where : (A → Bool) → (A → A) → List A → List A
  update_where p f [] = []
  update_where p f (x ∷ xs) = (if p x then f x else x) ∷ update_where p f xs

  -- The row count of such an UPDATE, or of a SELECT count(*).
  unfoldable pub affected : (A → Bool) → List A → ℕ
  affected p [] = 0
  affected p (x ∷ xs) = (if p x then 1 else 0) + affected p xs

  -- DELETE ... WHERE.
  unfoldable pub delete_where : (A → Bool) → List A → List A
  delete_where p [] = []
  delete_where p (x ∷ xs) = let rest = delete_where p xs in if p x then rest else x ∷ rest

  -- The rows of a SELECT.
  unfoldable pub filter_rows : (A → Bool) → List A → List A
  filter_rows p [] = []
  filter_rows p (x ∷ xs) = let rest = filter_rows p xs in if p x then x ∷ rest else rest

  -- LIMIT n, and a slice `[:n]`.
  unfoldable pub take : ℕ → List A → List A
  take zero xs = []
  take (suc n) [] = []
  take (suc n) (x ∷ xs) = x ∷ take n xs

  abbrev pub later_of : (A → ℕ) → A → Option A → Option A
  later_of key x none = some x
  later_of key x (some y) = if leb (key y) (key x) then some x else some y

  -- ORDER BY key DESC LIMIT 1; among equal keys the row nearest the front of the table.
  unfoldable pub newest : (A → Bool) → (A → ℕ) → List A → Option A
  newest p key [] = none
  newest p key (x ∷ xs) = if p x then later_of key x (newest p key xs) else newest p key xs

module _ {ℓ} {A : Type ℓ} where
  pub find_first-some : (p : A → Bool) (xs : List A) (a : A) → find_first p xs ≡ some a → p a ≡ true
  unfolding find_first
  find_first-some p [] a h = cc
  find_first-some p (x ∷ xs) a h = ground (arith, find_first-some p xs a)

  pub find_first-none : (p : A → Bool) (xs : List A) → find_first p xs ≡ none → exists p xs ≡ false
  unfolding find_first exists
  find_first-none p [] h = refl
  find_first-none p (x ∷ xs) h = ground (arith, find_first-none p xs)

  pub length-update_where :
      (p : A → Bool) (f : A → A) (xs : List A) → length (update_where p f xs) ≡ length xs
  unfolding update_where
  length-update_where p f [] = refl
  length-update_where p f (x ∷ xs) = ap suc (length-update_where p f xs)

  -- An UPDATE that matches no row changes nothing.
  pub update_where-unmatched :
      (p : A → Bool) (f : A → A) (xs : List A) → affected p xs ≡ 0 → update_where p f xs ≡ xs
  unfolding update_where affected
  update_where-unmatched p f [] h = refl
  update_where-unmatched p f (x ∷ xs) h = ground (arith, update_where-unmatched p f xs)

module _ {ℓ} {A : Type ℓ} where
  -- A lookup by what the update leaves alone finds the same row, updated.
  pub find_first-update_where :
      (p q : A → Bool) (f : A → A) (xs : List A)
      → ((x : A) → p (f x) ≡ p x)
      → find_first p (update_where q f xs)
        ≡ Option.map (λ x. if q x then f x else x) (find_first p xs)
  unfolding find_first update_where
  find_first-update_where p q f [] keep = refl
  find_first-update_where p q f (x ∷ xs) keep =
      ground (arith, keep x, find_first-update_where p q f xs keep)

module _ {ℓ κ} {A : Type ℓ} (P : A → Type κ) where
  pub All-find_first :
      (p : A → Bool) (xs : List A) (a : A) → All P xs → find_first p xs ≡ some a → P a
  unfolding find_first
  All-find_first p [] a h e = cc
  All-find_first p (x ∷ xs) a h e = elim (Bool-cases (p x)) [
    | inl hit ↦ subst P (some-injective _ _ (rw hit at e)) h.0
    | inr miss ↦ All-find_first p xs a h.1 (rw miss at e)
  ]

  pub All-update_where :
      (p : A → Bool) (f : A → A) (xs : List A)
      → ((x : A) → p x ≡ true → P x → P (f x))
      → All P xs
      → All P (update_where p f xs)
  unfolding update_where
  All-update_where p f [] keep h = tt
  All-update_where p f (x ∷ xs) keep h = elim (Bool-cases (p x)) [
    | inl hit ↦ (rw hit (keep x hit h.0), All-update_where p f xs keep h.1)
    | inr miss ↦ (rw miss h.0, All-update_where p f xs keep h.1)
  ]

  -- What the rows have, and those that were updated have by the update alone.
  pub All-update_where_new :
      (p : A → Bool) (f : A → A) (xs : List A)
      → ((x : A) → p x ≡ true → P (f x))
      → ((x : A) → p x ≡ false → P x)
      → All P (update_where p f xs)
  unfolding update_where
  All-update_where_new p f [] new old = tt
  All-update_where_new p f (x ∷ xs) new old = elim (Bool-cases (p x)) [
    | inl hit ↦ (rw hit (new x hit), All-update_where_new p f xs new old)
    | inr miss ↦ (rw miss (old x miss), All-update_where_new p f xs new old)
  ]
