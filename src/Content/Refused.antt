-- ===== src/Content/Refused.antt =====
-- An update that is refused, and what the store holds after it.
use blog_post.Base.{ℕ, ◌≡◌, refl, Bool, true, false, String, none, some, List, ◌∷◌, ◌||◌, ==-refl}
use blog_post.Base.Tables.{find_first}
use blog_post.Errors.Category.{ErrorCategory}
use blog_post.Database.Content.{BlogRow, MarkdownDocument}
use blog_post.Database.Exec.{World, ok, err, Error, ◌>>=◌, begin, raise_if, or_raise, raise, pure}
use blog_post.Policy.{Principal, can, is_admin, require}
use blog_post.Auth.Service.{Instant}
use blog_post.Repository.Blogs
use blog_post.Repository.Blogs.{has_blog_id, has_slug, to_detail, is_published}
use blog_post.Repository.Taxonomy
use blog_post.Repository.Taxonomy.{is_series}
use blog_post.Interaction.{require_to}
use blog_post.Content.{BlogService, Parsed, parsed, put, resolve_series, series_or_raise}
use blog_post.Content.Updates.{UpdateBlogPatch, revised, apply, update}
use blog_post.Content.Reading.{get_by_slug, visible_or_raise, is_visible, fetch, get_content}

abbrev pub into_series : String → UpdateBlogPatch
into_series key = record {
  title = none;
  summary = none;
  category_keys = none;
  series_key = some key;
  series_position = none;
  status = none;
}

module _ (self : BlogService) (at : Instant) (actor_id user_id : ℕ) (source : List ℕ)
    (text : String) (d : MarkdownDocument) (row : BlogRow) (key : String) (w : World)
    (reads : self.parse source ≡ Parsed.markdown d) (decoded : self.decode source ≡ some text)
    (uri : row.markdown_uri ≡ record { blog_id = row.id; content_sha256 = d.content_sha256 })
    (up : self.unavailable (record { blog_id = row.id; content_sha256 = d.content_sha256 }) ≡ false)
    (by_id : find_first (has_blog_id row.id) w.db.blogs ≡ some row)
    (by_slug : find_first (has_slug row.slug) w.db.blogs ≡ some row)
    (no_series : find_first (is_series key) w.db.series ≡ none) where
  abbrev editor : Principal
  editor = Principal.signed_in actor_id user_id true

  abbrev stored : World
  stored = record w {
    objects =
        record {
          key = record { blog_id = row.id; content_sha256 = d.content_sha256 };
          bytes = source;
        }
        ∷ w.objects;
  }

  refused :
      update self at editor row.id (into_series key) (some source) w
      ≡ (err (Error.platform ErrorCategory.series_unknown), stored)
  unfolding update require_to can is_admin require revised parsed put apply Blogs.get Blogs.one
      to_detail resolve_series series_or_raise Taxonomy.get_series_by_key ◌>>=◌ begin raise_if raise
      pure
  refused = rw (reads, up, by_id, no_series) refl

  or-true : (b : Bool) → (b || true) ≡ true
  or-true true = refl
  or-true false = refl

  served :
      (get_content self row.slug editor stored).0
      ≡ ok (record {
        blog_id = row.id;
        slug = row.slug;
        content_sha256 = row.content_sha256;
        markdown = self.strip text;
      })
  unfolding get_content get_by_slug Blogs.get_by_slug Blogs.one to_detail visible_or_raise
      is_visible can is_admin fetch find_first ◌>>=◌ raise_if or_raise
  served =
      rw
        (
          by_slug,
          or-true (is_published row.status),
          uri,
          up,
          ==-refl row.id,
          ==-refl d.content_sha256,
          decoded,
        )
        refl

  -- An update of an article into a series that does not exist is refused, and the tables are as
  -- they were. The text of the new source, stripped, is served from then on all the same, where its
  -- hash is the one of the article: the object is written before, under that hash, which is the
  -- hash of the body alone.
  pub update-refused :
      ((update self at editor row.id (into_series key) (some source) w).0
        ≡ err (Error.platform ErrorCategory.series_unknown))
      × ((update self at editor row.id (into_series key) (some source) w).1.db ≡ w.db)
      × ((get_content self row.slug editor
            (update self at editor row.id (into_series key) (some source) w).1).0
          ≡ ok (record {
            blog_id = row.id;
            slug = row.slug;
            content_sha256 = row.content_sha256;
            markdown = self.strip text;
          }))
  update-refused = rw refused (refl, refl, served)
