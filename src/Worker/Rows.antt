-- ===== src/Worker/Rows.antt =====
-- Two tables compared row against row.
use blog_post.Base.{Bool, List, [], ◌∷◌, if◌then◌else◌}
use blog_post.Base.Tables.{update_where}

-- Two tables, row against row.
abbrev pub Rowwise : {A : Type 0} → (A → A → Type 0) → List A → List A → Type 0
Rowwise R [] [] = Unit
Rowwise R (x ∷ xs) (y ∷ ys) = R x y × Rowwise R xs ys
Rowwise R _ _ = ⊥

module _ {A : Type 0} where
  pub Rowwise-refl : (R : A → A → Type 0) (xs : List A) → ((x : A) → R x x) → Rowwise R xs xs
  Rowwise-refl R [] h = tt
  Rowwise-refl R (x ∷ xs) h = (h x, Rowwise-refl R xs h)

  pub Rowwise-map :
      (R S : A → A → Type 0) (xs ys : List A)
      → ((x y : A) → R x y → S x y)
      → Rowwise R xs ys
      → Rowwise S xs ys
  Rowwise-map R S [] [] h r = tt
  Rowwise-map R S [] (y ∷ ys) h r = elim r [ ]
  Rowwise-map R S (x ∷ xs) [] h r = elim r [ ]
  Rowwise-map R S (x ∷ xs) (y ∷ ys) h r = (h x y r.0, Rowwise-map R S xs ys h r.1)

  -- An update before.
  pub Rowwise-before :
      (R S : A → A → Type 0) (p : A → Bool) (f : A → A) (xs ys : List A)
      → ((x y : A) → R (if p x then f x else x) y → S x y)
      → Rowwise R (update_where p f xs) ys
      → Rowwise S xs ys
  unfolding update_where
  Rowwise-before R S p f [] [] h r = tt
  Rowwise-before R S p f [] (y ∷ ys) h r = elim r [ ]
  Rowwise-before R S p f (x ∷ xs) [] h r = elim r [ ]
  Rowwise-before R S p f (x ∷ xs) (y ∷ ys) h r = (h x y r.0, Rowwise-before R S p f xs ys h r.1)

  -- An update after.
  pub Rowwise-after :
      (R S : A → A → Type 0) (p : A → Bool) (f : A → A) (xs ys : List A)
      → ((x y : A) → R x y → S x (if p y then f y else y))
      → Rowwise R xs ys
      → Rowwise S xs (update_where p f ys)
  unfolding update_where
  Rowwise-after R S p f [] [] h r = tt
  Rowwise-after R S p f [] (y ∷ ys) h r = elim r [ ]
  Rowwise-after R S p f (x ∷ xs) [] h r = elim r [ ]
  Rowwise-after R S p f (x ∷ xs) (y ∷ ys) h r = (h x y r.0, Rowwise-after R S p f xs ys h r.1)
