-- ===== src/Worker/Claims.antt =====
-- Which rows the statement of `claim` selects.
use blog_post.Base.{
  ℕ, suc, zero, ◌≤◌, ◌<◌, ◌≡◌, refl, sym, ap, subst, ◌∙◌, Bool, true, false, List, [], ◌∷◌, arith,
  Bool-cases, inl, inr,
}
use blog_post.Base.Tables.{All, All-map, In, length, filter_rows, take}
use blog_post.Database.Events.{OutboxEvent}
use blog_post.Repository.Outbox.{due, is_due, sort, insert_sorted, precedes}
use blog_post.Worker.Batch.{All-filter_rows, All-take, All-insert_sorted, All-sort}

module _ {A : Type 0} where
  All-of-In : (P : A → Type 0) (xs : List A) → ((x : A) → In x xs → P x) → All P xs
  All-of-In P [] h = tt
  All-of-In P (x ∷ xs) h = (h x (inl refl), All-of-In P xs (λ y i. h y (inr i)))

  filter_rows-true : (p : A → Bool) (xs : List A) → All (λ x. p x ≡ true) (filter_rows p xs)
  unfolding filter_rows
  filter_rows-true p [] = tt
  filter_rows-true p (x ∷ xs) = elim (Bool-cases (p x)) [
    | inl hit ↦ rw hit (hit, filter_rows-true p xs)
    | inr miss ↦ rw miss (filter_rows-true p xs)
  ]

  In-filter_rows :
      (p : A → Bool) (xs : List A) (a : A) → In a xs → p a ≡ true → In a (filter_rows p xs)
  unfolding filter_rows
  In-filter_rows p [] a i h = i
  In-filter_rows p (x ∷ xs) a (inl same) h = rw (ap p same ∙ h) (inl same)
  In-filter_rows p (x ∷ xs) a (inr i) h = elim (Bool-cases (p x)) [
    | inl hit ↦ rw hit (inr (In-filter_rows p xs a i h))
    | inr miss ↦ rw miss (In-filter_rows p xs a i h)
  ]

  length-take : (n : ℕ) (xs : List A) → length (take n xs) ≤ n
  unfolding take
  length-take zero xs = omega arith
  length-take (suc n) [] = omega arith
  length-take (suc n) (x ∷ xs) = omega (arith, length-take n xs)

  take-short : (n : ℕ) (xs : List A) → length (take n xs) < n → take n xs ≡ xs
  unfolding take
  take-short zero xs h = absurd (omega (arith, h))
  take-short (suc n) [] h = refl
  take-short (suc n) (x ∷ xs) h = ap (λ r. x ∷ r) (take-short n xs (omega (arith, h)))

In-insert_sorted :
    (x : OutboxEvent) (xs : List OutboxEvent) (a : OutboxEvent)
    → In a (x ∷ xs)
    → In a (insert_sorted x xs)
unfolding insert_sorted
In-insert_sorted x [] a i = i
In-insert_sorted x (y ∷ ys) a i = elim (Bool-cases (precedes x y)) [
  | inl front ↦ rw front i
  | inr back ↦ rw back (elim i [
    | inl same ↦ inr (In-insert_sorted x ys a (inl same))
    | inr (inl same) ↦ inl same
    | inr (inr later) ↦ inr (In-insert_sorted x ys a (inr later))
  ])
]

In-sort : (xs : List OutboxEvent) (a : OutboxEvent) → In a xs → In a (sort xs)
unfolding sort
In-sort [] a i = i
In-sort (x ∷ xs) a (inl same) = In-insert_sorted x (sort xs) a (inl same)
In-sort (x ∷ xs) a (inr i) = In-insert_sorted x (sort xs) a (inr (In-sort xs a i))

-- The longest due come first.
abbrev pub Sorted : List OutboxEvent → Type 0
Sorted [] = Unit
Sorted (x ∷ xs) = All (λ y. x.next_attempt_at ≤ y.next_attempt_at) xs × Sorted xs

precedes-le : (x y : OutboxEvent) → precedes x y ≡ true → x.next_attempt_at ≤ y.next_attempt_at
precedes-le x y h = ground arith

not_precedes-le : (x y : OutboxEvent) → precedes x y ≡ false → y.next_attempt_at ≤ x.next_attempt_at
not_precedes-le x y h = ground arith

Sorted-insert_sorted :
    (x : OutboxEvent) (xs : List OutboxEvent) → Sorted xs → Sorted (insert_sorted x xs)
unfolding insert_sorted
Sorted-insert_sorted x [] s = (tt, tt)
Sorted-insert_sorted x (y ∷ ys) s = elim (Bool-cases (precedes x y)) [
  | inl front ↦ rw front (
    (precedes-le x y front, All-map ys (λ z le. omega (arith, precedes-le x y front, le)) s.0),
    s,
  )
  | inr back ↦ rw back (
    All-insert_sorted (λ z. y.next_attempt_at ≤ z.next_attempt_at) x ys (not_precedes-le x y back)
        s.0,
    Sorted-insert_sorted x ys s.1,
  )
]

Sorted-sort : (xs : List OutboxEvent) → Sorted (sort xs)
unfolding sort
Sorted-sort [] = tt
Sorted-sort (x ∷ xs) = Sorted-insert_sorted x (sort xs) (Sorted-sort xs)

Sorted-take : (n : ℕ) (xs : List OutboxEvent) → Sorted xs → Sorted (take n xs)
unfolding take
Sorted-take zero xs s = tt
Sorted-take (suc n) [] s = tt
Sorted-take (suc n) (x ∷ xs) s = (All-take _ n xs s.0, Sorted-take n xs s.1)

-- A batch is made of rows of the table that are pending and due, at most as many as asked for, the
-- longest due first; if it is smaller than that, no row that is due was left behind.
pub due-IsBatch :
    (limit now : ℕ) (rows : List OutboxEvent)
    → let batch = due limit now rows in
      All (λ e. (is_due now e ≡ true) × In e rows) batch
      × (length batch ≤ limit)
      × Sorted batch
      × (length batch < limit → (e : OutboxEvent) → In e rows → is_due now e ≡ true → In e batch)
unfolding due
due-IsBatch limit now rows = (
  All-take _ limit _ (
      All-sort _ _ (
        both (filter_rows (is_due now) rows) (filter_rows-true (is_due now) rows)
          (All-filter_rows (λ e. In e rows) (is_due now) rows (All-of-In _ rows (λ x i. i))))),
  length-take limit (sort (filter_rows (is_due now) rows)),
  Sorted-take limit _ (Sorted-sort (filter_rows (is_due now) rows)),
  λ few e i h.
      subst (In e) (sym (take-short limit (sort (filter_rows (is_due now) rows)) few))
        (In-sort (filter_rows (is_due now) rows) e (In-filter_rows (is_due now) rows e i h)),
)
  where
    both :
        (xs : List OutboxEvent)
        → All (λ e. is_due now e ≡ true) xs
        → All (λ e. In e rows) xs
        → All (λ e. (is_due now e ≡ true) × In e rows) xs
    both [] h k = tt
    both (x ∷ xs) h k = ((h.0, k.0), both xs h.1 k.1)
