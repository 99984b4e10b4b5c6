-- ===== src/Repository/Keyset/Cuts.antt =====
-- A page of a list of rows, and what follows it.
use blog_post.Base.{
  ℕ, zero, suc, ◌+◌, ◌≤◌, ◌<◌, ◌≡◌, refl, sym, ap, subst, true, false, none, some, List, [], ◌∷◌,
  ◌++◌, ltb, arith, lt→ltb, le→ltb, min,
}
use blog_post.Base.Tables.{take, length}
use blog_post.Repository.Keyset.{slice, last_of}

module _ {A : Type 0} where
  -- The rows that a page takes where more follow: they end in a row, and the others come after.
  pub record Cut (n : ℕ) (xs : List A) : Type 0 where
    pub prior : List A
    pub last : A
    pub rest : List A
    pub page : take n xs ≡ prior ++ last ∷ []
    pub named : last_of (take n xs) ≡ some last
    pub whole : xs ≡ prior ++ last ∷ rest
    pub shorter : length rest < length xs

  last_of-cons :
      (x : A) (prior : List A) (y : A)
      → last_of (prior ++ y ∷ []) ≡ some y
      → last_of (x ∷ prior ++ y ∷ []) ≡ some y
  last_of-cons x [] y h = refl
  last_of-cons x (z ∷ prior) y h = h

  pub cut : (n : ℕ) (xs : List A) → 1 ≤ n → n < length xs → Cut n xs
  unfolding take
  cut n [] some_rows more = absurd (omega (arith, more))
  cut zero (x ∷ xs) some_rows more = absurd (omega (arith, some_rows))
  cut (suc zero) (x ∷ xs) some_rows more = record {
    prior = [];
    last = x;
    rest = xs;
    page = refl;
    named = refl;
    whole = refl;
    shorter = omega arith;
  }
  cut (suc (suc n)) (x ∷ xs) some_rows more =
      let c = cut (suc n) xs (omega arith) (omega (arith, more)) in
      record {
        prior = x ∷ c.prior;
        last = c.last;
        rest = c.rest;
        page = ap (λ ys. x ∷ ys) c.page;
        named =
            subst (λ ys. last_of (x ∷ ys) ≡ some c.last) (sym c.page)
              (last_of-cons x c.prior c.last
                (subst (λ ys. last_of ys ≡ some c.last) c.page c.named));
        whole = ap (λ ys. x ∷ ys) c.whole;
        shorter = omega (arith, c.shorter);
      }

  pub take-take : (n : ℕ) (xs : List A) → take n (take (suc n) xs) ≡ take n xs
  unfolding take
  take-take zero xs = refl
  take-take (suc n) [] = refl
  take-take (suc n) (x ∷ xs) = ap (λ ys. x ∷ ys) (take-take n xs)

  pub length-take : (n : ℕ) (xs : List A) → length (take n xs) ≡ min n (length xs)
  unfolding take
  length-take zero xs = omega arith
  length-take (suc n) [] = omega arith
  length-take (suc n) (x ∷ xs) = omega (arith, length-take n xs)

  pub ltb-take : (n : ℕ) (xs : List A) → ltb n (length (take (suc n) xs)) ≡ ltb n (length xs)
  ltb-take n xs = ground (arith, length-take (suc n) xs)

  pub take-all : (n : ℕ) (xs : List A) → length xs ≤ n → take n xs ≡ xs
  unfolding take
  take-all zero [] h = refl
  take-all zero (x ∷ xs) h = absurd (omega (arith, h))
  take-all (suc n) [] h = refl
  take-all (suc n) (x ∷ xs) h = ap (λ ys. x ∷ ys) (take-all n xs (omega (arith, h)))

  pub slice-last :
      (limit : ℕ) (xs : List A)
      → length xs ≤ limit
      → slice limit (take (limit + 1) xs) ≡ record { items = xs; next = none; has_more = false }
  unfolding slice
  slice-last limit xs h =
      let plus : limit + 1 ≡ suc limit = omega arith in
      rw
        (
          plus,
          ltb-take limit xs,
          le→ltb (length xs) limit h,
          take-take limit xs,
          take-all limit xs h,
        )
        refl

  pub slice-more :
      (limit : ℕ) (xs : List A)
      → limit < length xs
      → (c : Cut limit xs)
      → slice limit (take (limit + 1) xs)
        ≡ record { items = take limit xs; next = some c.last; has_more = true }
  unfolding slice
  slice-more limit xs h c =
      let plus : limit + 1 ≡ suc limit = omega arith in
      rw (plus, ltb-take limit xs, lt→ltb limit (length xs) h, take-take limit xs, c.named) refl
