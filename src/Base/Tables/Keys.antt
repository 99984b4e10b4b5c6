-- ===== src/Base/Tables/Keys.antt =====
-- Rows of a table whose key is unique: an UPDATE by key meets one row, and the newest row of a
-- selection stays the newest under an update that keeps the selection and the order.
use mathlib.Core.Path.{◌≡◌, refl, sym, ap, subst, ◌∙◌}
use mathlib.Core.Logic.{◌≢◌, ◌⊎◌, inl, inr}
use mathlib.Core.Bool.{Bool, true, false}
use mathlib.Core.Option.{Option, none, some, some-injective}
use mathlib.Core.List.{List, [], ◌∷◌}
use native.Mathlib.Omega.{arith}
use Prim.Native.Nat.{ℕ}
use mathlib.Core.Option
use blog_post.Base.Tests.{==→eq, ◌==◌, if◌then◌else◌, Bool-cases, leb}
use blog_post.Base.Tables.Laws.{
  All, All-update_where, exists, find_first, update_where, affected, newest, later_of,
}

-- The row is in the table.
abbrev pub In : {A : Type 0} → A → List A → Type 0
In a [] = ⊥
In a (x ∷ xs) = (x ≡ a) ⊎ In a xs

module _ {A : Type 0} where
  -- No two rows agree in the key.
  abbrev pub Unique : (A → ℕ) → List A → Type 0
  Unique key [] = Unit
  Unique key (x ∷ xs) = All (λ y. key y ≢ key x) xs × Unique key xs

  pub find_first-In : (p : A → Bool) (xs : List A) (a : A) → find_first p xs ≡ some a → In a xs
  unfolding find_first
  find_first-In p [] a h = cc
  find_first-In p (x ∷ xs) a h = elim (Bool-cases (p x)) [
    | inl hit ↦ inl (some-injective _ _ (rw hit at h))
    | inr miss ↦ inr (find_first-In p xs a (rw miss at h))
  ]

  pub newest-In :
      (p : A → Bool) (key : A → ℕ) (xs : List A) (a : A) → newest p key xs ≡ some a → In a xs
  unfolding newest
  newest-In p key [] a h = cc
  newest-In p key (x ∷ xs) a h = elim (Bool-cases (p x)) [
    | inl hit ↦ pick (newest-In p key xs a) (newest p key xs) refl (rw hit at h)
    | inr miss ↦ inr (newest-In p key xs a (rw miss at h))
  ]
    where
      pick :
          (newest p key xs ≡ some a → In a xs)
          → (o : Option A) → newest p key xs ≡ o
          → later_of key x o ≡ some a
          → In a (x ∷ xs)
      pick ih none e g = inl (some-injective _ _ g)
      pick ih (some y) e g = elim (Bool-cases (leb (key y) (key x))) [
        | inl front ↦ inl (some-injective _ _ (rw front at g))
        | inr back ↦ inr (ih (e ∙ (rw back at g)))
      ]

  pub All-In {κ} : (P : A → Type κ) (xs : List A) {a : A} → All P xs → In a xs → P a
  All-In P [] h i = absurd i
  All-In P (x ∷ xs) h (inl e) = subst P e h.0
  All-In P (x ∷ xs) h (inr i) = All-In P xs h.1 i

  pub All-map {κ μ} :
      {P : A → Type κ} {Q : A → Type μ} (xs : List A) → ((x : A) → P x → Q x) → All P xs → All Q xs
  All-map [] f h = tt
  All-map (x ∷ xs) f h = (f x h.0, All-map xs f h.1)

  -- A row with the key of a row of the table is that row.
  pub Unique-All :
      (key : A → ℕ) (xs : List A) (a : A)
      → Unique key xs
      → In a xs
      → All (λ x. (key x == key a) ≡ true → x ≡ a) xs
  Unique-All key [] a u i = tt
  Unique-All key (x ∷ xs) a u (inl e) =
      (λ h. e, All-map xs (λ y ne h. absurd (ne (==→eq (key y) (key a) h ∙ sym (ap key e)))) u.0)
  Unique-All key (x ∷ xs) a u (inr i) = (
    λ h. absurd (All-In (λ y. key y ≢ key x) xs u.0 i (sym (==→eq (key x) (key a) h))),
    Unique-All key xs a u.1 i,
  )

  -- No row but those with another key: nothing is met.
  pub affected-none :
      (p : A → Bool) (xs : List A) → All (λ x. p x ≡ true → ⊥) xs → affected p xs ≡ 0
  unfolding affected
  affected-none p [] h = refl
  affected-none p (x ∷ xs) h = elim (Bool-cases (p x)) [
    | inl hit ↦ absurd (h.0 hit)
    | inr miss ↦ rw (miss, affected-none p xs h.1) refl
  ]

  -- A condition that asks for the key of a row of the table meets that row or none.
  pub affected-Unique :
      (key : A → ℕ) (p : A → Bool) (xs : List A) (a : A)
      → Unique key xs
      → In a xs
      → ((x : A) → p x ≡ true → key x ≡ key a)
      → affected p xs ≡ (if p a then 1 else 0)
  unfolding affected
  affected-Unique key p [] a u i only = absurd i
  affected-Unique key p (x ∷ xs) a u (inl e) only =
      rw (e, affected-none p xs (All-map xs (λ y ne h. ne (only y h ∙ sym (ap key e))) u.0))
        (omega arith)
  affected-Unique key p (x ∷ xs) a u (inr i) only =
      rw (affected-Unique key p xs a u.1 i only) (elim (Bool-cases (p x)) [
        | inl hit ↦ absurd (All-In (λ y. key y ≢ key x) xs u.0 i (sym (only x hit)))
        | inr miss ↦ rw miss (omega arith)
      ])

  later_of-map :
      (key : A → ℕ) (g : A → A) (x : A) (o : Option A)
      → key (g x) ≡ key x
      → ((y : A) → o ≡ some y → key (g y) ≡ key y)
      → later_of key (g x) (Option.map g o) ≡ Option.map g (later_of key x o)
  later_of-map key g x none kx ky = refl
  later_of-map key g x (some y) kx ky = ground (arith, ky y refl)

  -- The newest row of a selection, after an update that keeps each row's place in it.
  pub newest-update_where :
      (p : A → Bool) (key : A → ℕ) (q : A → Bool) (f : A → A) (xs : List A)
      → All (λ x. (p (if q x then f x else x) ≡ p x) × (key (if q x then f x else x) ≡ key x)) xs
      → newest p key (update_where q f xs)
        ≡ Option.map (λ x. if q x then f x else x) (newest p key xs)
  unfolding newest update_where
  newest-update_where p key q f [] h = refl
  newest-update_where p key q f (x ∷ xs) h =
      rw (newest-update_where p key q f xs h.1, h.0.0)
        (elim (Bool-cases (p x)) [
          | inl hit ↦ rw hit (
              later_of-map key (λ y. if q y then f y else y) x (newest p key xs) h.0.1
                (λ y e. (All-In _ xs h.1 (newest-In p key xs y e)).1))
          | inr miss ↦ rw miss refl
        ])

  -- An update that keeps the key keeps it unique.
  pub Unique-update_where :
      (key : A → ℕ) (q : A → Bool) (f : A → A) (xs : List A)
      → ((x : A) → key (f x) ≡ key x)
      → Unique key xs
      → Unique key (update_where q f xs)
  unfolding update_where
  Unique-update_where key q f [] keep u = tt
  Unique-update_where key q f (x ∷ xs) keep u = (
    rw (key-if (q x) x)
        (All-update_where (λ y. key y ≢ key x) q f xs (λ y _ ne e. ne (sym (keep y) ∙ e)) u.0),
    Unique-update_where key q f xs keep u.1,
  )
    where
      key-if : (b : Bool) (x : A) → key (if b then f x else x) ≡ key x
      key-if true x = keep x
      key-if false x = refl

  -- What such an update keeps of a row is found as before.
  pub exists-update_where :
      (p q : A → Bool) (f : A → A) (xs : List A)
      → ((x : A) → p (f x) ≡ p x)
      → exists p (update_where q f xs) ≡ exists p xs
  unfolding exists update_where
  exists-update_where p q f [] keep = refl
  exists-update_where p q f (x ∷ xs) keep =
      ground (arith, keep x, exists-update_where p q f xs keep)

  pub exists-false : (p : A → Bool) (xs : List A) → exists p xs ≡ false → All (λ x. p x ≡ false) xs
  unfolding exists
  exists-false p [] h = tt
  exists-false p (x ∷ xs) h = elim (Bool-cases (p x)) [
    | inl hit ↦ cc (rw hit at h)
    | inr miss ↦ (miss, exists-false p xs (rw miss at h))
  ]

  pub exists-In : (p : A → Bool) (xs : List A) (a : A) → In a xs → p a ≡ true → exists p xs ≡ true
  unfolding exists
  exists-In p [] a i h = absurd i
  exists-In p (x ∷ xs) a (inl e) h = rw (e, h) refl
  exists-In p (x ∷ xs) a (inr i) h = ground (arith, exists-In p xs a i h)

  pub exists-cons :
      (p : A → Bool) (x : A) (xs : List A) → exists p xs ≡ true → exists p (x ∷ xs) ≡ true
  unfolding exists
  exists-cons p x xs h = ground arith

  later_of-some :
      (p : A → Bool) (key : A → ℕ) (x : A) (o : Option A) (a : A)
      → p x ≡ true
      → ((y : A) → o ≡ some y → p y ≡ true)
      → later_of key x o ≡ some a
      → p a ≡ true
  later_of-some p key x none a h k e = ap p (some-injective _ _ (sym e)) ∙ h
  later_of-some p key x (some y) a h k e = elim (Bool-cases (leb (key y) (key x))) [
    | inl front ↦ ap p (some-injective _ _ (sym (rw front at e))) ∙ h
    | inr back ↦ ap p (some-injective _ _ (sym (rw back at e))) ∙ k y refl
  ]

  -- The newest row of a selection is in the selection.
  pub newest-some :
      (p : A → Bool) (key : A → ℕ) (xs : List A) (a : A) → newest p key xs ≡ some a → p a ≡ true
  unfolding newest
  newest-some p key [] a e = cc
  newest-some p key (x ∷ xs) a e = elim (Bool-cases (p x)) [
    | inl hit ↦ later_of-some p key x (newest p key xs) a hit (newest-some p key xs) (rw hit at e)
    | inr miss ↦ newest-some p key xs a (rw miss at e)
  ]
