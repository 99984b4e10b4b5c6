-- ===== src/Interaction/Pages.antt =====
-- The listings `list_comments` and `list_catalog_items`, and a reader who follows their cursors.
use blog_post.Base.{
  ℕ, ◌≤◌, ◌<◌, ◌≡◌, refl, sym, ap, ◌∙◌, ==-refl, Bool, true, Option, none, some, List, [], ◌∷◌,
  ◌==◌, map, arith,
}
use blog_post.Base.Tables.{
  All, Unique, filter_rows, length, Unique-filter_rows, length-listing, find_first,
}
use blog_post.Database.Interaction.{Catalog}
use blog_post.Database.Exec.{World, ok, ◌>>=◌}
use mathlib.Core.Option.{some-injective}
use blog_post.Repository.Keyset.{
  CursorCodec, Json, decode_cursor, cursor_after, order_by, limit_or, decode_optional,
}
use blog_post.Repository.Keyset.Order.{before}
use blog_post.Repository.Keyset.Walk.{
  Position, cursor_of, keys_of, Paged, read_all, read_all-listing,
}
use blog_post.Repository.Comments
use blog_post.Repository.Comments.{thread_of, is_shown_root}
use blog_post.Repository.Catalogs
use blog_post.Policy.{Principal, can, is_user, require}
use blog_post.Interaction.{InteractionService, list_comments, allowed_user, require_to, user_of}
use blog_post.Interaction.Shelves.{list_catalog_items, owned, owned_by}

-- What is read from a cursor is what was put into it.
abbrev pub RoundTrips : CursorCodec → Type 0
RoundTrips codec =
    (t i : ℕ)
    → codec.loads (codec.dumps t i) ≡ some (Json.dict (record { at = some t; id = some i }))

map_id : {A : Type 0} (xs : List A) → map (λ x. x) xs ≡ xs
map_id [] = refl
map_id (x ∷ xs) = ap (λ ys. x ∷ ys) (map_id xs)

every_timed :
    {A : Type 0} (time : A → ℕ) (xs : List A) → All (λ x. (t : ℕ) × (some (time x) ≡ some t)) xs
every_timed time [] = tt
every_timed time (x ∷ xs) = ((time x, refl), every_timed time xs)

module _ (codec : CursorCodec) (reads : RoundTrips codec) where
  decoded :
      (p : Position) (w : World) → decode_optional codec (cursor_of codec p) w ≡ (ok (keys_of p), w)
  unfolding decode_optional decode_cursor ◌>>=◌
  decoded Position.start w = refl
  decoded (Position.after t i) w = rw (reads t i, decode_optional, decode_cursor) refl

  threads-Paged :
      (limit blog_id : ℕ) (w : World)
      → Paged codec
          (λ c. Comments.list_threads codec blog_id c limit)
          (λ c. some c.created_at)
          (λ c. c.id)
          (λ db. is_shown_root blog_id)
          limit
          (λ db. db.comments)
          (λ db. thread_of db.comments)
          w
  unfolding Comments.list_threads ◌>>=◌ cursor_after
  threads-Paged limit blog_id w = record {
    last = λ p rows e. rw (decoded p w, e) refl;
    more = λ p rows x t timed e. rw (decoded p w, e, sym (some-injective _ _ timed)) refl;
  }

module _ (self : InteractionService) (reads : RoundTrips self.cursors) (limit : Option ℕ)
    (some_rows : 1 ≤ limit_or self.default_page_size limit) (w : World) (n : ℕ) where
  abbrev size : ℕ
  size = limit_or self.default_page_size limit

  -- A reader who asks for the comments of an article page after page, each from the cursor of the
  -- page before, gets every live root with its live replies once, newest root first, and comes to
  -- the last page: as many requests as there are comments, and one more, are enough. A cursor
  -- reads back as it was written, a page holds a row or more, and the ids of comments are unique.
  pub list_comments-all :
      (blog_id : ℕ)
      → Unique (λ c. c.id) w.db.comments
      → length w.db.comments < n
      → read_all (λ cursor. list_comments self blog_id cursor limit) n none w ≡ (
        ok (
            map (thread_of w.db.comments) (
              order_by
                (λ c. some c.created_at)
                (λ c. c.id)
                (filter_rows (is_shown_root blog_id) w.db.comments))),
        w,
      )
  unfolding list_comments order_by
  list_comments-all blog_id unique fuel =
      read_all-listing self.cursors _ (λ c. some c.created_at) (λ c. c.id)
        (λ db. is_shown_root blog_id) size (λ db. db.comments) (λ db. thread_of db.comments) w
        (threads-Paged self.cursors reads size blog_id w) some_rows
        (Unique-filter_rows (λ c. c.id) (is_shown_root blog_id) w.db.comments unique)
        (every_timed (λ c. c.created_at) _) n
        (omega (
          arith,
          fuel,
          length-listing (before (λ c. some c.created_at) (λ c. c.id)) (is_shown_root blog_id)
              w.db.comments,
        ))

  module _ (actor_id user_id : ℕ) (admin : Bool) (row : Catalog)
      (found : find_first (λ c. c.id == row.id) w.db.catalogs ≡ some row)
      (own : row.user_id ≡ user_id) where
    abbrev reader : Principal
    reader = Principal.signed_in actor_id user_id admin

    own_items-Paged :
        Paged self.cursors
          (λ c. list_catalog_items self reader row.id c limit)
          (λ i. some i.added_at)
          (λ i. i.blog_id)
          (λ db i. i.catalog_id == row.id)
          size
          (λ db. db.catalog_items)
          (λ db i. i)
          w
    unfolding list_catalog_items Catalogs.list_items Catalogs.get owned owned_by allowed_user
        require_to can is_user user_of require ◌>>=◌ cursor_after
    own_items-Paged =
        let mine : (row.user_id == user_id) ≡ true = ap (λ u. u == user_id) own ∙ ==-refl user_id in
        record {
          last = λ p rows e. rw (found, mine, decoded self.cursors reads p w, e, map_id rows) refl;
          more = λ p rows x t timed e.
              rw
                (
                  found,
                  mine,
                  decoded self.cursors reads p w,
                  e,
                  map_id rows,
                  sym (some-injective _ _ timed),
                )
                refl;
        }

    -- The owner of a collection who asks for its items page after page, each from the cursor of
    -- the page before, gets every item once, the last added first, and comes to the last page: as
    -- many requests as there are items of all collections, and one more, are enough. A cursor reads
    -- back as it was written, a page holds a row or more, and the collection holds an article once.
    pub list_catalog_items-all :
        Unique (λ i. i.blog_id) (filter_rows (λ i. i.catalog_id == row.id) w.db.catalog_items)
        → length w.db.catalog_items < n
        → read_all (λ cursor. list_catalog_items self reader row.id cursor limit) n none w ≡ (
          ok (
              order_by
                (λ i. some i.added_at)
                (λ i. i.blog_id)
                (filter_rows (λ i. i.catalog_id == row.id) w.db.catalog_items)),
          w,
        )
    unfolding order_by
    list_catalog_items-all unique fuel =
        read_all-listing self.cursors _ (λ i. some i.added_at) (λ i. i.blog_id)
          (λ db i. i.catalog_id == row.id) size (λ db. db.catalog_items) (λ db i. i) w
          own_items-Paged some_rows unique (every_timed (λ i. i.added_at) _) n
          (omega (
            arith,
            fuel,
            length-listing (before (λ i. some i.added_at) (λ i. i.blog_id))
                (λ i. i.catalog_id == row.id) w.db.catalog_items,
          ))
        ∙ ap (λ xs. (ok xs, w)) (map_id _)
