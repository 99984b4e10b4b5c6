-- ===== src/Base/Tables/Indexes.antt =====
-- Unique indexes: at most one row of a table for each value of an index.
use Prim.Native.Nat.{◌≤◌}
use mathlib.Core.Path.{◌≡◌}
use mathlib.Core.Logic.{inl, inr}
use mathlib.Core.Bool.{Bool, true, false}
use mathlib.Core.List.{List, [], ◌∷◌}
use native.Mathlib.Omega.{arith}
use blog_post.Base.Tests.{Bool-cases}
use blog_post.Base.Tables.Laws.{All, exists, update_where, delete_where, affected}
use blog_post.Base.Tables.Keys.{All-map, exists-false, affected-none}
use blog_post.Base.Tables.Counts.{affected-update_where-le}

module _ {I A : Type 0} (p : I → A → Bool) where
  abbrev pub Single : List A → Type 0
  Single rows = (i : I) → affected (p i) rows ≤ 1

  affected-unmet : (i : I) (rows : List A) → exists (p i) rows ≡ false → affected (p i) rows ≡ 0
  affected-unmet i rows h =
      affected-none (p i) rows
        (All-map rows (λ x miss hit. cc (miss, hit)) (exists-false (p i) rows h))

  pub Single-insert :
      (new : A) (rows : List A)
      → ((i : I) → p i new ≡ true → exists (p i) rows ≡ false)
      → Single rows
      → Single (new ∷ rows)
  unfolding affected
  Single-insert new rows fresh s i = elim (Bool-cases (p i new)) [
    | inl hit ↦ rw (hit, affected-unmet i rows (fresh i hit)) (omega arith)
    | inr miss ↦ rw miss (omega (arith, s i))
  ]

  pub Single-update :
      (q : A → Bool) (g : A → A) (rows : List A)
      → ((i : I) (x : A) → p i (g x) ≡ true → p i x ≡ true)
      → Single rows
      → Single (update_where q g rows)
  Single-update q g rows h s i = omega (arith, affected-update_where-le (p i) q g rows (h i), s i)

  affected-delete_where-le :
      (q : A → Bool) (i : I) (rows : List A)
      → affected (p i) (delete_where q rows) ≤ affected (p i) rows
  unfolding affected delete_where
  affected-delete_where-le q i [] = omega arith
  affected-delete_where-le q i (x ∷ xs) = ground (arith, affected-delete_where-le q i xs)

  pub Single-delete : (q : A → Bool) (rows : List A) → Single rows → Single (delete_where q rows)
  Single-delete q rows s i = omega (arith, affected-delete_where-le q i rows, s i)

module _ {A : Type 0} (P : A → Type 0) where
  pub All-delete_where : (q : A → Bool) (rows : List A) → All P rows → All P (delete_where q rows)
  unfolding delete_where
  All-delete_where q [] h = tt
  All-delete_where q (x ∷ xs) h = elim (Bool-cases (q x)) [
    | inl hit ↦ rw hit (All-delete_where q xs h.1)
    | inr miss ↦ rw miss (h.0, All-delete_where q xs h.1)
  ]
