-- ===== src/Repository/Keyset/Walk.antt =====
-- Reading a listing page after page, each from the cursor of the one before.
use blog_post.Base.{
  ℕ, zero, suc, ◌+◌, ◌≤◌, ◌<◌, ◌≡◌, refl, sym, ap, subst, ◌∙◌, Bool, true, false, String, Option,
  none, some, List, [], ◌∷◌, ◌++◌, ◌&&◌, map, arith, ltb, ltb-false→le, Bool-cases, inl, inr,
  ltb→lt,
}
use blog_post.Base.Tables.{All, All-mid, All-sort_rows, Unique, filter_rows, take, length}
use blog_post.Database.Interaction.{Page}
use blog_post.Database.Tables.{Db}
use blog_post.Database.Exec.{World, Exec, ok, pure, ◌>>=◌}
use blog_post.Repository.Keyset.{Keys, CursorCodec, is_beyond, order_by, fetch, page_of, slice}
use blog_post.Repository.Keyset.Cuts.{Cut, cut, slice-last, slice-more}
use blog_post.Repository.Keyset.Order.{before-trans, filter_rows-cong, listing, listing-after}

-- Where a reader stands: at the beginning, or behind the row of a time and an id.
pub data Position : Type 0 where
  start : Position
  after : ℕ → ℕ → Position

abbrev pub cursor_of : CursorCodec → Position → Option String
cursor_of codec Position.start = none
cursor_of codec (Position.after t i) = some (codec.dumps t i)

abbrev pub keys_of : Position → Option Keys
keys_of Position.start = none
keys_of (Position.after t i) = some (record { at = some t; id = some i })

-- A reader who asks for page after page, `n` of them at most.
unfoldable pub read_all :
    {B : Type 0} → (Option String → Exec (Page B)) → ℕ → Option String → Exec (List B)
read_all list zero cursor = pure []
read_all list (suc n) cursor = list cursor >>= λ page. elim page.next_cursor [
  | none ↦ pure page.items
  | some c ↦ read_all list n (some c) >>= λ rest. pure (page.items ++ rest)
]

-- What a listing answers: the page of the rows of its table from the cursor on, each as it is
-- shown, with the cursor of the last of them where more follow.
pub record Paged {A B : Type 0} (codec : CursorCodec) (list : Option String → Exec (Page B))
    (at : A → Option ℕ) (id : A → ℕ) (matches : Db → A → Bool) (limit : ℕ) (table : Db → List A)
    (shown : Db → A → B) (w : World) : Type 0 where
  pub last :
      (p : Position) (rows : List A)
      → page_of at id (matches w.db) (keys_of p) limit (table w.db)
        ≡ record { items = rows; next = none; has_more = false }
      → list (cursor_of codec p) w
        ≡ (ok (record { items = map (shown w.db) rows; next_cursor = none; has_more = false }), w)
  pub more :
      (p : Position) (rows : List A) (x : A) (t : ℕ)
      → at x ≡ some t
      → page_of at id (matches w.db) (keys_of p) limit (table w.db)
        ≡ record { items = rows; next = some x; has_more = true }
      → list (cursor_of codec p) w ≡ (
        ok (record {
          items = map (shown w.db) rows;
          next_cursor = some (codec.dumps t (id x));
          has_more = true;
        }),
        w,
      )

map-append : {A B : Type 0} (f : A → B) (xs ys : List A) → map f (xs ++ ys) ≡ map f xs ++ map f ys
map-append f [] ys = refl
map-append f (x ∷ xs) ys = ap (λ zs. f x ∷ zs) (map-append f xs ys)

append_assoc : {A : Type 0} (xs ys zs : List A) → xs ++ (ys ++ zs) ≡ (xs ++ ys) ++ zs
append_assoc [] ys zs = refl
append_assoc (x ∷ xs) ys zs = ap (λ us. x ∷ us) (append_assoc xs ys zs)

module _ {A B : Type 0} (codec : CursorCodec) (list : Option String → Exec (Page B))
    (at : A → Option ℕ) (id : A → ℕ) (matches : Db → A → Bool) (limit : ℕ) (table : Db → List A)
    (shown : Db → A → B) (w : World) (paged : Paged codec list at id matches limit table shown w)
    (some_rows : 1 ≤ limit) (unique : Unique id (filter_rows (matches w.db) (table w.db)))
    (timed : All (λ r. (t : ℕ) × (at r ≡ some t)) (filter_rows (matches w.db) (table w.db))) where
  abbrev all : List A
  all = listing at id (matches w.db) (table w.db) unique

  -- What stands behind a position.
  abbrev ahead : Position → List A
  ahead p =
      order_by at id
        (filter_rows (λ r. matches w.db r && is_beyond (keys_of p) (at r) (id r)) (table w.db))

  -- The row that a page ends in has a time.
  all_timed :
      (prior : List A) (x : A) (rest : List A) → all ≡ prior ++ x ∷ rest → (t : ℕ) × (at x ≡ some t)
  unfolding order_by
  all_timed prior x rest whole =
      All-mid (λ r. (t : ℕ) × (at r ≡ some t)) prior x rest
        (subst (All (λ r. (t : ℕ) × (at r ≡ some t))) whole
          (All-sort_rows _ (before-trans at id) _ (filter_rows (matches w.db) (table w.db)) timed))

  rejoined :
      (rest : List A) (c : Cut limit rest)
      → map (shown w.db) (take limit rest) ++ map (shown w.db) c.rest ≡ map (shown w.db) rest
  rejoined rest c =
      sym (map-append (shown w.db) (take limit rest) c.rest)
      ∙ ap (map (shown w.db)) (
          ap (λ ys. ys ++ c.rest) c.page
          ∙ sym (append_assoc c.prior (c.last ∷ []) c.rest)
          ∙ sym c.whole)

  last_page :
      (n : ℕ) (p : Position) (rest : List A)
      → ahead p ≡ rest
      → length rest ≤ limit
      → read_all list (suc n) (cursor_of codec p) w ≡ (ok (map (shown w.db) rest), w)
  unfolding page_of fetch ◌>>=◌ read_all
  last_page n p rest here few =
      rw
        (paged.last p rest
          (ap (λ xs. slice limit (take (limit + 1) xs)) here ∙ slice-last limit rest few))
        refl

  read_all-ahead :
      (n : ℕ) (p : Position) (prior rest : List A)
      → all ≡ prior ++ rest
      → ahead p ≡ rest
      → length rest < n
      → read_all list n (cursor_of codec p) w ≡ (ok (map (shown w.db) rest), w)
  unfolding page_of fetch ◌>>=◌ read_all
  read_all-ahead zero p prior rest whole here fuel = absurd (omega (arith, fuel))
  read_all-ahead (suc n) p prior rest whole here fuel =
      elim (Bool-cases (ltb limit (length rest))) [
        | inr few ↦ last_page n p rest here (ltb-false→le limit (length rest) few)
        | inl many ↦
            let more = ltb→lt limit (length rest) many in
            let c = cut limit rest some_rows more in
            let split =
              whole
              ∙ ap (λ ys. prior ++ ys) c.whole
              ∙ append_assoc prior c.prior (c.last ∷ c.rest) in
            let (t, e) = all_timed (prior ++ c.prior) c.last c.rest split in
            rw
              (
                paged.more p (take limit rest) c.last t e (
                    ap (λ xs. slice limit (take (limit + 1) xs)) here
                    ∙ slice-more limit rest more c),
                read_all-ahead n (Position.after t (id c.last)) ((prior ++ c.prior) ++ c.last ∷ [])
                    c.rest (split ∙ append_assoc (prior ++ c.prior) (c.last ∷ []) c.rest)
                    (listing-after at id (matches w.db) (table w.db) unique (prior ++ c.prior)
                      c.last c.rest t e split)
                    (omega (arith, fuel, c.shorter)),
                rejoined rest c,
              )
              refl
      ]

  -- With a page for every row and one more, the reader has all of the listing, in order.
  pub read_all-listing :
      (n : ℕ) → length all < n → read_all list n none w ≡ (ok (map (shown w.db) all), w)
  unfolding order_by
  read_all-listing n fuel =
      read_all-ahead n Position.start [] all refl
        (ap (order_by at id) (
          filter_rows-cong (λ r. matches w.db r && true) (matches w.db) (table w.db)
            (λ r. ground arith)))
        fuel
