-- ===== src/Worker/Batch.antt =====
-- What a worker claims: no row twice.
use blog_post.Base.{ℕ, suc, zero, ◌≢◌, sym, Bool, List, [], ◌∷◌, Bool-cases, inl, inr}
use blog_post.Base.Tables.{All, Unique, filter_rows, take}
use blog_post.Database.Events.{OutboxEvent}
use blog_post.Repository.Outbox.{due, is_due, sort, insert_sorted, precedes}

module _ {A : Type 0} (P : A → Type 0) where
  pub All-filter_rows : (p : A → Bool) (xs : List A) → All P xs → All P (filter_rows p xs)
  unfolding filter_rows
  All-filter_rows p [] h = tt
  All-filter_rows p (x ∷ xs) h = elim (Bool-cases (p x)) [
    | inl hit ↦ rw hit (h.0, All-filter_rows p xs h.1)
    | inr miss ↦ rw miss (All-filter_rows p xs h.1)
  ]

  pub All-take : (n : ℕ) (xs : List A) → All P xs → All P (take n xs)
  unfolding take
  All-take zero xs h = tt
  All-take (suc n) [] h = tt
  All-take (suc n) (x ∷ xs) h = (h.0, All-take n xs h.1)

module _ (P : OutboxEvent → Type 0) where
  pub All-insert_sorted :
      (x : OutboxEvent) (xs : List OutboxEvent) → P x → All P xs → All P (insert_sorted x xs)
  unfolding insert_sorted
  All-insert_sorted x [] p h = (p, tt)
  All-insert_sorted x (y ∷ ys) p h = elim (Bool-cases (precedes x y)) [
    | inl front ↦ rw front (p, h)
    | inr back ↦ rw back (h.0, All-insert_sorted x ys p h.1)
  ]

  pub All-sort : (xs : List OutboxEvent) → All P xs → All P (sort xs)
  unfolding sort
  All-sort [] h = tt
  All-sort (x ∷ xs) h = All-insert_sorted x (sort xs) h.0 (All-sort xs h.1)

module _ {A : Type 0} (key : A → ℕ) where
  pub Unique-filter_rows :
      (p : A → Bool) (xs : List A) → Unique key xs → Unique key (filter_rows p xs)
  unfolding filter_rows
  Unique-filter_rows p [] h = tt
  Unique-filter_rows p (x ∷ xs) h = elim (Bool-cases (p x)) [
    | inl hit ↦ rw hit (All-filter_rows _ p xs h.0, Unique-filter_rows p xs h.1)
    | inr miss ↦ rw miss (Unique-filter_rows p xs h.1)
  ]

  pub Unique-take : (n : ℕ) (xs : List A) → Unique key xs → Unique key (take n xs)
  unfolding take
  Unique-take zero xs h = tt
  Unique-take (suc n) [] h = tt
  Unique-take (suc n) (x ∷ xs) h = (All-take _ n xs h.0, Unique-take n xs h.1)

Unique-insert_sorted :
    (x : OutboxEvent) (xs : List OutboxEvent)
    → All (λ y. y.id ≢ x.id) xs
    → Unique (λ e. e.id) xs
    → Unique (λ e. e.id) (insert_sorted x xs)
unfolding insert_sorted
Unique-insert_sorted x [] p h = (tt, tt)
Unique-insert_sorted x (y ∷ ys) p h = elim (Bool-cases (precedes x y)) [
  | inl front ↦ rw front (p, h)
  | inr back ↦ rw back (
    All-insert_sorted (λ z. z.id ≢ y.id) x ys (λ e. p.0 (sym e)) h.0,
    Unique-insert_sorted x ys p.1 h.1,
  )
]

Unique-sort : (xs : List OutboxEvent) → Unique (λ e. e.id) xs → Unique (λ e. e.id) (sort xs)
unfolding sort
Unique-sort [] h = tt
Unique-sort (x ∷ xs) h =
    Unique-insert_sorted x (sort xs) (All-sort (λ y. y.id ≢ x.id) xs h.0) (Unique-sort xs h.1)

pub Unique-due :
    (limit now : ℕ) (rows : List OutboxEvent)
    → Unique (λ e. e.id) rows
    → Unique (λ e. e.id) (due limit now rows)
unfolding due
Unique-due limit now rows h =
    Unique-take (λ e. e.id) limit _
      (Unique-sort _ (Unique-filter_rows (λ e. e.id) (is_due now) rows h))
