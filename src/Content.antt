-- ===== src/Content.antt =====
-- services/blog_service.py `BlogService`: what its methods share, and the authoring of an article.
pub mod Updates
pub mod Reading
pub mod Pages
pub mod Visible
pub mod Links
pub mod Stamps
pub mod Preserved
pub mod History
pub mod Refused
mod Tests
use blog_post.Base.{
  ℕ, zero, suc, ◌+◌, Bool, true, false, String, Option, none, some, List, [], ◌∷◌, ◌&&◌, ◌==◌,
  str_eq, if◌then◌else◌,
}
use blog_post.Errors.Category.{ErrorCategory}
use blog_post.Database.Content.{
  BlogStatus, ObjectKey, StoredObject, BlogRow, BlogSection, BlogDetail, SeriesRow, MarkdownHeading,
  MarkdownDocument,
}
use blog_post.Database.Events.{DomainEvent}
use blog_post.Database.Exec.{
  World, Error, Exec, ok, pure, raise, draw, raise_if, or_raise, begin, ◌>>=◌, ◌>>◌,
}
use blog_post.Policy.{Principal, Permission}
use blog_post.Auth.Service.{Instant}
use blog_post.Repository.Text.{PgText}
use blog_post.Repository.Keyset.{CursorCodec}
use blog_post.Repository.Blogs
use blog_post.Repository.Blogs.{is_published}
use blog_post.Repository.Blogs.Listing.{set_categories, is_empty}
use blog_post.Repository.Sections
use blog_post.Repository.Taxonomy
use blog_post.Repository.Outbox
use blog_post.Interaction.{allowed_user}

-- What the parser answers: the document, or the category of the error it raises.
pub data Parsed : Type 0 where
  markdown : MarkdownDocument → Parsed
  refused : ErrorCategory → Parsed

-- The ports and settings; the texts that are made of a title, a slug or an id; and the keys at
-- which the store answers with an error.
pub record BlogService : Type 0 where
  pub new_id : ℕ → ℕ
  pub text : PgText
  pub cursors : CursorCodec
  pub parse : List ℕ → Parsed
  -- Python's `bytes.decode("utf-8")`, which may raise, and `str.strip`.
  pub decode : List ℕ → Option String
  pub strip : String → String
  pub unavailable : ObjectKey → Bool
  pub slugify : String → String
  -- f"{base}-{suffix}"
  pub suffixed : String → ℕ → String
  -- f"post-{id[:8]}" and f"{base}-{id[:8]}"
  pub post_of : ℕ → String
  pub with_id : String → ℕ → String
  pub default_page_size : ℕ
  pub max_page_size : ℕ

pub record PublishBlogCommand : Type 0 where
  pub title : Option String
  pub summary : Option String
  pub slug : Option String
  pub category_keys : List String
  pub series_key : Option String
  pub series_position : Option ℕ
  pub status : BlogStatus

-- _MAX_SLUG_ATTEMPTS
abbrev pub max_slug_attempts : ℕ
max_slug_attempts = 50

-- Python's `a or b` on lists, on optional texts, of which the empty one counts as none, and on
-- optional numbers, of which 0 does.
abbrev pub or_text : Option String → Option String → Option String
or_text none b = b
or_text (some t) b = if str_eq t "" then b else some t

abbrev pub or_list : List String → List String → List String
or_list a b = if is_empty a then b else a

abbrev pub or_number : Option ℕ → Option ℕ → Option ℕ
or_number none b = b
or_number (some n) b = if n == 0 then b else some n

-- `enumerate(document.headings)`, from the ordinal on.
abbrev pub numbered : ℕ → List MarkdownHeading → List BlogSection
numbered ordinal [] = []
numbered ordinal (h ∷ hs) =
    record {
      anchor = h.anchor;
      ordinal = ordinal;
      level = h.level;
      title = h.title;
      char_start = h.char_start;
      char_end = h.char_end;
    }
    ∷ numbered (ordinal + 1) hs

-- `_sections_of`
unfoldable pub sections_of : MarkdownDocument → List BlogSection
sections_of document = numbered 0 document.headings

-- `_resolve_series`
unfoldable pub series_or_raise : Option SeriesRow → Exec (Option ℕ)
series_or_raise none = raise (Error.platform ErrorCategory.series_unknown)
series_or_raise (some s) = pure (some s.id)

unfoldable pub resolve_series : Option String → Exec (Option ℕ)
unfolding series_or_raise Taxonomy.get_series_by_key
resolve_series none = pure none
resolve_series (some key) = Taxonomy.get_series_by_key key >>= series_or_raise

module _ (self : BlogService) where
  unfoldable pub parsed : Parsed → Exec MarkdownDocument
  parsed (Parsed.markdown d) = pure d
  parsed (Parsed.refused c) = raise (Error.platform c)

  -- adapters/objectstore `put`; the URI of an object names its key.
  unfoldable pub put : ObjectKey → List ℕ → Exec ObjectKey
  put key bytes w =
      if self.unavailable key
      then raise (Error.platform ErrorCategory.storage_unavailable) w
      else (ok key, record w { objects = record { key = key; bytes = bytes } ∷ w.objects })

  -- The suffixes that are left to try, from one on.
  unfoldable pub try_suffixes : String → ℕ → ℕ → Exec String
  unfolding Blogs.slug_exists
  try_suffixes base suffix zero = do id ← draw self.new_id; pure (self.with_id base id)
  try_suffixes base suffix (suc left) = do
    taken ← Blogs.slug_exists (self.suffixed base suffix)
    if taken then try_suffixes base (suffix + 1) left else pure (self.suffixed base suffix)

  unfoldable pub free_slug : String → Exec String
  unfolding Blogs.slug_exists try_suffixes
  free_slug base = do
    taken ← Blogs.slug_exists base
    if taken then try_suffixes base 2 max_slug_attempts else pure base

  abbrev pub base_slug : Option String → String → String
  base_slug none title = self.slugify title
  base_slug (some requested) title = if str_eq requested "" then self.slugify title else requested

  -- `_resolve_slug`
  unfoldable pub resolve_slug : Option String → String → Exec String
  unfolding free_slug
  resolve_slug requested title =
      let base = base_slug requested title in
      if str_eq base ""
      then (draw self.new_id >>= λ id. free_slug (self.post_of id))
      else free_slug base

  module _ (at : Instant) where
    abbrev pub publication : BlogStatus → Option ℕ
    publication status = if is_published status then some at.clock else none

    abbrev pub new_blog :
        PublishBlogCommand
        → MarkdownDocument
        → ℕ
        → ℕ
        → String
        → String
        → Option ℕ
        → ObjectKey
        → BlogRow
    new_blog command document author_id blog_id slug title series_id markdown_uri = record {
      id = blog_id;
      slug = slug;
      title = title;
      summary = or_text command.summary document.summary;
      author_id = author_id;
      series_id = series_id;
      series_position = or_number command.series_position document.series_position;
      markdown_uri = markdown_uri;
      content_sha256 = document.content_sha256;
      word_count = document.word_count;
      status = command.status;
      published_at = publication command.status;
      archived_at = none;
      created_at = at.db_now;
      updated_at = at.db_now;
    }

    -- The event of an article that is published.
    unfoldable pub announce : Bool → BlogRow → List String → Exec Unit
    unfolding Outbox.add
    announce false row categories = pure tt
    announce true row categories = do
      id ← draw self.new_id
      Outbox.add at.db_now id at.clock
          (DomainEvent.blog_published row.id row.slug row.title categories row.series_id
            row.author_id at.clock)
          "blog" row.id

    -- The transaction of a publication, of the row but for its series.
    unfoldable pub store :
        BlogRow → Option String → List String → List BlogSection → Exec (Option BlogDetail)
    unfolding resolve_series Blogs.insert set_categories Sections.replace_all announce Blogs.get
    store row series_key categories sections = do
      series_id ← resolve_series series_key
      let filed : BlogRow = record row { series_id = series_id }
      inserted ← Blogs.insert self.text filed
      set_categories row.id categories
      Sections.replace_all self.text row.id sections
      announce (is_published row.status) filed categories
      Blogs.get self.text row.id

    unfoldable pub publish_from_markdown : Principal → List ℕ → PublishBlogCommand → Exec BlogDetail
    unfolding allowed_user parsed resolve_slug put store
    publish_from_markdown principal source command = do
      user_id ← allowed_user Permission.publish principal
      document ← parsed (self.parse source)
      title ←
          or_raise (or_text (or_text command.title document.title) none)
            (Error.platform ErrorCategory.markdown_invalid)
      blog_id ← draw self.new_id
      slug ← resolve_slug (or_text command.slug document.slug) title
      markdown_uri ←
          put (record { blog_id = blog_id; content_sha256 = document.content_sha256 }) source
      stored ← begin (
          store (new_blog command document user_id blog_id slug title none markdown_uri)
            (or_text command.series_key document.series_key)
            (or_list command.category_keys document.category_keys) (sections_of document))
      or_raise stored Error.assertion
