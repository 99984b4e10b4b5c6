-- ===== src/Repository/Keyset/Order.antt =====
-- The order of a listing, and the rows after a cursor.
use blog_post.Base.{
  ℕ, ◌≡◌, ◌≢◌, refl, sym, ap, subst, ◌∙◌, Bool, true, false, Option, none, some, List, [], ◌∷◌,
  ◌++◌, ◌&&◌, arith,
}
use blog_post.Base.Tables.{
  All-map, Unique, filter_rows, sort_rows, Sorted, Comparable, filter_rows-sort_rows,
  filter_rows-after, filter_rows-both, sort_rows-Sorted,
}
use blog_post.Repository.Keyset.{comes_first, row_below, is_beyond, order_by}

comes_first_trans :
    (a : Option ℕ) (i : ℕ) (b : Option ℕ) (j : ℕ) (c : Option ℕ) (k : ℕ)
    → comes_first a i b j ≡ true
    → comes_first b j c k ≡ true
    → comes_first a i c k ≡ true
comes_first_trans none i none j none k h g = ground (arith, h, g)
comes_first_trans none i none j (some v) k h g = refl
comes_first_trans none i (some u) j none k h g = cc
comes_first_trans none i (some u) j (some v) k h g = refl
comes_first_trans (some t) i none j c k h g = cc
comes_first_trans (some t) i (some u) j none k h g = cc
comes_first_trans (some t) i (some u) j (some v) k h g = ground (arith, h, g)

comes_first_irrefl : (a : Option ℕ) (i : ℕ) → comes_first a i a i ≡ false
comes_first_irrefl none i = ground arith
comes_first_irrefl (some t) i = ground arith

comes_first-asym :
    (a : Option ℕ) (i : ℕ) (b : Option ℕ) (j : ℕ)
    → comes_first a i b j ≡ true
    → comes_first b j a i ≡ false
comes_first-asym none i none j h = ground (arith, h)
comes_first-asym none i (some u) j h = refl
comes_first-asym (some t) i none j h = cc
comes_first-asym (some t) i (some u) j h = ground (arith, h)

comes_first-total :
    (a : Option ℕ) (i : ℕ) (b : Option ℕ) (j : ℕ)
    → j ≢ i
    → comes_first a i b j ≡ false
    → comes_first b j a i ≡ true
comes_first-total none i none j ne h = ground (arith, h, ne)
comes_first-total none i (some u) j ne h = cc
comes_first-total (some t) i none j ne h = refl
comes_first-total (some t) i (some u) j ne h = ground (arith, h, ne)

-- A row is below the cursor of a row that has a time exactly if it comes after that row.
below-first :
    (t i : ℕ) (b : Option ℕ) (j : ℕ)
    → row_below b j (record { at = some t; id = some i }) ≡ comes_first (some t) i b j
below-first t i none j = refl
below-first t i (some u) j = ground arith

pub filter_rows-cong :
    {A : Type 0} (p q : A → Bool) (xs : List A)
    → ((x : A) → p x ≡ q x)
    → filter_rows p xs ≡ filter_rows q xs
unfolding filter_rows
filter_rows-cong p q [] h = refl
filter_rows-cong p q (x ∷ xs) h = rw (h x, filter_rows-cong p q xs h) refl

module _ {A : Type 0} (at : A → Option ℕ) (id : A → ℕ) where
  abbrev pub before : A → A → Bool
  before x y = comes_first (at x) (id x) (at y) (id y)

  pub before-trans : (x y z : A) → before x y ≡ true → before y z ≡ true → before x z ≡ true
  before-trans x y z = comes_first_trans (at x) (id x) (at y) (id y) (at z) (id z)

  Unique-Comparable : (rows : List A) → Unique id rows → Comparable before before-trans rows
  Unique-Comparable [] u = tt
  Unique-Comparable (x ∷ xs) u = (
    All-map xs (λ y ne h. comes_first-total (at x) (id x) (at y) (id y) ne h) u.0,
    Unique-Comparable xs u.1,
  )

  module _ (matches : A → Bool) (rows : List A)
      (unique : Unique id (filter_rows matches rows)) where
    -- All that the listing shows, in order.
    abbrev pub listing : List A
    listing = order_by at id (filter_rows matches rows)

    -- From the cursor of a row on, the listing is what stands behind that row.
    pub listing-after :
        (prior : List A) (x : A) (rest : List A) (t : ℕ)
        → at x ≡ some t
        → listing ≡ prior ++ x ∷ rest
        → order_by at id (
            filter_rows
              (λ r.
                matches r
                && is_beyond (some (record { at = some t; id = some (id x) })) (at r) (id r))
              rows)
          ≡ rest
    unfolding order_by
    listing-after prior x rest t timed whole =
        let c = Unique-Comparable (filter_rows matches rows) unique in
        let after : A → Bool =
          λ r. row_below (at r) (id r) (record { at = some t; id = some (id x) }) in
        let same : (r : A) → after r ≡ before x r = λ r.
          below-first t (id x) (at r) (id r)
          ∙ ap (λ a. comes_first a (id x) (at r) (id r)) (sym timed) in
        ap (sort_rows before) (
          filter_rows-both matches after rows
          ∙ filter_rows-cong after (before x) (filter_rows matches rows) same)
        ∙ sym (filter_rows-sort_rows before before-trans (before x) (filter_rows matches rows) c)
        ∙ ap (filter_rows (before x)) whole
        ∙ filter_rows-after before before-trans (λ y. comes_first_irrefl (at y) (id y))
            (λ y z. comes_first-asym (at y) (id y) (at z) (id z)) prior x rest
            (subst (Sorted before before-trans) whole
              (sort_rows-Sorted before before-trans (filter_rows matches rows) c))
