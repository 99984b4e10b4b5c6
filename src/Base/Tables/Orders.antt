-- ===== src/Base/Tables/Orders.antt =====
-- Sorting by a strict order: the result is in order, and a selection may be made before or after.
use Prim.Native.Nat.{ℕ, ◌+◌, ◌≤◌}
use mathlib.Core.Path.{◌≡◌, refl, ◌∙◌}
use mathlib.Core.Logic.{inl, inr}
use mathlib.Core.Bool.{Bool, true, false, ◌&&◌}
use mathlib.Core.List.{List, [], ◌∷◌, ◌++◌}
use native.Mathlib.Omega.{arith}
use blog_post.Base.Tests.{Bool-cases, if◌then◌else◌}
use blog_post.Base.Tables.Laws.{All, length, filter_rows}
use blog_post.Base.Tables.Keys.{All-map, Unique}
use blog_post.Base.Tables.Sorting.{insert_row, sort_rows}

module _ {A : Type 0} where
  pub All-filter_rows :
      (P : A → Type 0) (p : A → Bool) (xs : List A) → All P xs → All P (filter_rows p xs)
  unfolding filter_rows
  All-filter_rows P p [] h = tt
  All-filter_rows P p (x ∷ xs) h = elim (Bool-cases (p x)) [
    | inl hit ↦ rw hit (h.0, All-filter_rows P p xs h.1)
    | inr miss ↦ rw miss (All-filter_rows P p xs h.1)
  ]

  pub Unique-filter_rows :
      (key : A → ℕ) (p : A → Bool) (xs : List A) → Unique key xs → Unique key (filter_rows p xs)
  unfolding filter_rows
  Unique-filter_rows key p [] u = tt
  Unique-filter_rows key p (x ∷ xs) u = elim (Bool-cases (p x)) [
    | inl hit ↦ rw hit (All-filter_rows _ p xs u.0, Unique-filter_rows key p xs u.1)
    | inr miss ↦ rw miss (Unique-filter_rows key p xs u.1)
  ]

  -- Two conditions, one after the other.
  pub filter_rows-both :
      (p q : A → Bool) (xs : List A)
      → filter_rows (λ x. p x && q x) xs ≡ filter_rows q (filter_rows p xs)
  unfolding filter_rows
  filter_rows-both p q [] = refl
  filter_rows-both p q (x ∷ xs) = ground (arith, filter_rows-both p q xs)

  pub filter_rows-All :
      (p : A → Bool) (xs : List A) → All (λ x. p x ≡ true) xs → filter_rows p xs ≡ xs
  unfolding filter_rows
  filter_rows-All p [] h = refl
  filter_rows-All p (x ∷ xs) h = rw (h.0, filter_rows-All p xs h.1) refl

  pub filter_rows-none :
      (p : A → Bool) (xs : List A) → All (λ x. p x ≡ false) xs → filter_rows p xs ≡ []
  unfolding filter_rows
  filter_rows-none p [] h = refl
  filter_rows-none p (x ∷ xs) h = rw (h.0, filter_rows-none p xs h.1) refl

  pub filter_rows-append :
      (p : A → Bool) (xs ys : List A)
      → filter_rows p (xs ++ ys) ≡ filter_rows p xs ++ filter_rows p ys
  unfolding filter_rows
  filter_rows-append p [] ys = refl
  filter_rows-append p (x ∷ xs) ys = ground (arith, filter_rows-append p xs ys)

  pub All-mid :
      (P : A → Type 0) (prior : List A) (x : A) (rest : List A) → All P (prior ++ x ∷ rest) → P x
  All-mid P [] x rest h = h.0
  All-mid P (y ∷ prior) x rest h = All-mid P prior x rest h.1

module _ {A : Type 0} (before : A → A → Bool)
    (trans : (x y z : A) → before x y ≡ true → before y z ≡ true → before x z ≡ true) where
  -- Each row comes before all that follow it.
  abbrev pub Sorted : List A → Type 0
  Sorted [] = Unit
  Sorted (x ∷ xs) = All (λ y. before x y ≡ true) xs × Sorted xs

  -- Any two rows are in an order.
  abbrev pub Comparable : List A → Type 0
  Comparable [] = Unit
  Comparable (x ∷ xs) = All (λ y. before x y ≡ false → before y x ≡ true) xs × Comparable xs

  pub Comparable-filter_rows :
      (p : A → Bool) (xs : List A) → Comparable xs → Comparable (filter_rows p xs)
  unfolding filter_rows
  Comparable-filter_rows p [] c = tt
  Comparable-filter_rows p (x ∷ xs) c = elim (Bool-cases (p x)) [
    | inl hit ↦ rw hit (All-filter_rows _ p xs c.0, Comparable-filter_rows p xs c.1)
    | inr miss ↦ rw miss (Comparable-filter_rows p xs c.1)
  ]

  All-insert_row :
      (P : A → Type 0) (e : A) (xs : List A) → P e → All P xs → All P (insert_row before e xs)
  unfolding insert_row
  All-insert_row P e [] pe h = (pe, tt)
  All-insert_row P e (x ∷ xs) pe h = elim (Bool-cases (before e x)) [
    | inl first ↦ rw first (pe, h)
    | inr later ↦ rw later (h.0, All-insert_row P e xs pe h.1)
  ]

  pub All-sort_rows : (P : A → Type 0) (xs : List A) → All P xs → All P (sort_rows before xs)
  unfolding sort_rows
  All-sort_rows P [] h = tt
  All-sort_rows P (x ∷ xs) h = All-insert_row P x (sort_rows before xs) h.0 (All-sort_rows P xs h.1)

  insert_row-Sorted :
      (e : A) (xs : List A)
      → All (λ y. before e y ≡ false → before y e ≡ true) xs
      → Sorted xs
      → Sorted (insert_row before e xs)
  unfolding insert_row
  insert_row-Sorted e [] c s = (tt, tt)
  insert_row-Sorted e (x ∷ xs) c s = elim (Bool-cases (before e x)) [
    | inl first ↦ rw first ((first, All-map xs (λ y h. trans e x y first h) s.0), s)
    | inr later ↦ rw later (
      All-insert_row (λ y. before x y ≡ true) e xs (c.0 later) s.0,
      insert_row-Sorted e xs c.1 s.1,
    )
  ]

  pub sort_rows-Sorted : (xs : List A) → Comparable xs → Sorted (sort_rows before xs)
  unfolding sort_rows
  sort_rows-Sorted [] c = tt
  sort_rows-Sorted (x ∷ xs) c =
      insert_row-Sorted x (sort_rows before xs) (All-sort_rows _ xs c.0) (sort_rows-Sorted xs c.1)

  insert_row-front :
      (e : A) (xs : List A) → All (λ y. before e y ≡ true) xs → insert_row before e xs ≡ e ∷ xs
  unfolding insert_row
  insert_row-front e [] h = refl
  insert_row-front e (x ∷ xs) h = rw h.0 refl

  filter_rows-insert_row :
      (p : A → Bool) (e : A) (xs : List A)
      → Sorted xs
      → filter_rows p (insert_row before e xs)
        ≡ (if p e then insert_row before e (filter_rows p xs) else filter_rows p xs)
  unfolding filter_rows insert_row
  filter_rows-insert_row p e [] s = refl
  filter_rows-insert_row p e (x ∷ xs) s = elim (Bool-cases (before e x)) [
    | inl first ↦ ground (
      arith,
      first,
      insert_row-front e (filter_rows p xs)
          (All-filter_rows _ p xs (All-map xs (λ y h. trans e x y first h) s.0)),
    )
    | inr later ↦ ground (arith, later, filter_rows-insert_row p e xs s.1)
  ]

  -- A selection of sorted rows is the selected rows, sorted.
  pub filter_rows-sort_rows :
      (p : A → Bool) (xs : List A)
      → Comparable xs
      → filter_rows p (sort_rows before xs) ≡ sort_rows before (filter_rows p xs)
  unfolding sort_rows filter_rows
  filter_rows-sort_rows p [] c = refl
  filter_rows-sort_rows p (x ∷ xs) c =
      filter_rows-insert_row p x (sort_rows before xs) (sort_rows-Sorted xs c.1)
      ∙ ground (arith, filter_rows-sort_rows p xs c.1)

  module _ (irreflexive : (x : A) → before x x ≡ false)
      (asymmetric : (x y : A) → before x y ≡ true → before y x ≡ false) where
    -- The rows after one of a sorted list are those that it comes before.
    pub filter_rows-after :
        (prior : List A) (x : A) (rest : List A)
        → Sorted (prior ++ x ∷ rest)
        → filter_rows (before x) (prior ++ x ∷ rest) ≡ rest
    unfolding filter_rows
    filter_rows-after [] x rest s = rw (irreflexive x, filter_rows-All (before x) rest s.0) refl
    filter_rows-after (y ∷ prior) x rest s =
        rw
          (
            asymmetric y x (All-mid (λ z. before y z ≡ true) prior x rest s.0),
            filter_rows-after prior x rest s.1,
          )
          refl

module _ {A : Type 0} where
  length-insert_row :
      (before : A → A → Bool) (e : A) (xs : List A)
      → length (insert_row before e xs) ≡ length xs + 1
  unfolding insert_row
  length-insert_row before e [] = omega arith
  length-insert_row before e (x ∷ xs) = ground (arith, length-insert_row before e xs)

  -- A listing has no more rows than its table.
  pub length-listing :
      (before : A → A → Bool) (p : A → Bool) (xs : List A)
      → length (sort_rows before (filter_rows p xs)) ≤ length xs
  unfolding sort_rows filter_rows
  length-listing before p [] = omega arith
  length-listing before p (x ∷ xs) = ground (
    arith,
    length-listing before p xs,
    length-insert_row before x (sort_rows before (filter_rows p xs)),
  )
