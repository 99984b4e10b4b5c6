-- ===== src/Content/Pages.antt =====
-- The list of articles, and a reader who follows its cursors: services/blog_service.py `list`.
use blog_post.Base.{ℕ, ◌≤◌, ◌<◌, ◌≡◌, refl, Option, none, some, map, arith, min}
use blog_post.Base.Tables.{All, Unique, filter_rows, length, Unique-filter_rows, length-listing}
use blog_post.Database.Exec.{World, ok, ◌>>=◌, raise_if}
use blog_post.Repository.Text.{PgText}
use blog_post.Repository.Keyset.{CursorCodec, decode_cursor, cursor_after, order_by, limit_or}
use blog_post.Repository.Keyset.Order.{before}
use blog_post.Repository.Keyset.Walk.{
  Position, cursor_of, keys_of, Paged, read_all, read_all-listing,
}
use blog_post.Repository.Blogs.Listing as Listing
use blog_post.Repository.Blogs.Listing.{BlogFilter, list_keys, meets, to_summary}
use blog_post.Interaction.Pages.{RoundTrips}
use blog_post.Content.{BlogService}
use blog_post.Content.Reading.{list}

module _ (codec : CursorCodec) (reads : RoundTrips codec) where
  keyed : (p : Position) (w : World) → list_keys codec (cursor_of codec p) w ≡ (ok (keys_of p), w)
  unfolding list_keys decode_cursor ◌>>=◌ raise_if
  keyed Position.start w = refl
  keyed (Position.after t i) w = rw (reads t i, decode_cursor) refl

  blogs-Paged :
      (pg : PgText) (filter : BlogFilter) (limit : ℕ) (w : World)
      → Paged codec
          (λ c. Listing.list pg codec filter c limit)
          (λ b. b.published_at)
          (λ b. b.id)
          (λ db. meets filter db.blog_categories)
          limit
          (λ db. db.blogs)
          (λ db. to_summary pg db)
          w
  unfolding Listing.list ◌>>=◌ cursor_after
  blogs-Paged pg filter limit w = record {
    last = λ p rows e. rw (keyed p w, e) refl;
    more = λ p rows x t timed e. rw (keyed p w, e, timed) refl;
  }

module _ (self : BlogService) (reads : RoundTrips self.cursors) (filter : BlogFilter)
    (limit : Option ℕ) (w : World) (n : ℕ) where
  abbrev size : ℕ
  size = min (limit_or self.default_page_size limit) self.max_page_size

  -- A reader who asks for the articles that meet a filter page after page, each from the cursor of
  -- the page before, gets every one of them once, the last published first, and comes to the last
  -- page: as many requests as there are articles, and one more, are enough. A cursor reads back as
  -- it was written, a page holds a row or more, the ids of articles are unique, and the articles
  -- that meet the filter have a time of publication.
  pub list_every :
      1 ≤ size
      → Unique (λ b. b.id) w.db.blogs
      → All
          (λ b. (t : ℕ) × (b.published_at ≡ some t))
          (filter_rows (meets filter w.db.blog_categories) w.db.blogs)
      → length w.db.blogs < n
      → read_all (λ cursor. list self filter cursor limit) n none w ≡ (
        ok (
            map (to_summary self.text w.db) (
              order_by
                (λ b. b.published_at)
                (λ b. b.id)
                (filter_rows (meets filter w.db.blog_categories) w.db.blogs))),
        w,
      )
  unfolding list order_by
  list_every some_rows unique timed fuel =
      read_all-listing self.cursors _ (λ b. b.published_at) (λ b. b.id)
        (λ db. meets filter db.blog_categories) size (λ db. db.blogs)
        (λ db. to_summary self.text db) w (blogs-Paged self.cursors reads self.text filter size w)
        some_rows
        (Unique-filter_rows (λ b. b.id) (meets filter w.db.blog_categories) w.db.blogs unique) timed
        n
        (omega (
          arith,
          fuel,
          length-listing (before (λ b. b.published_at) (λ b. b.id))
              (meets filter w.db.blog_categories) w.db.blogs,
        ))
