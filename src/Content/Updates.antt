-- ===== src/Content/Updates.antt =====
-- services/blog_service.py: `update` and `archive`.
use blog_post.Base.{ℕ, String, Option, none, some, List, [], ◌∷◌, ◌++◌, not, is_none}
use blog_post.Errors.Category.{ErrorCategory}
use blog_post.Database.Content.{BlogStatus, ObjectKey, BlogDetail, MarkdownDocument}
use blog_post.Database.Events.{DomainEvent}
use blog_post.Database.Exec.{Error, Exec, pure, draw, raise_if, or_raise, begin, ◌>>=◌, ◌>>◌}
use blog_post.Policy.{Principal, Permission}
use blog_post.Auth.Service.{Instant}
use blog_post.Repository.Blogs
use blog_post.Repository.Blogs.Listing.{set_categories}
use blog_post.Repository.Sections
use blog_post.Repository.Outbox
use blog_post.Interaction.{require_to}
use blog_post.Content.{BlogService, parsed, put, resolve_series, sections_of}

pub record UpdateBlogPatch : Type 0 where
  pub title : Option String
  pub summary : Option String
  pub category_keys : Option (List String)
  pub series_key : Option String
  pub series_position : Option ℕ
  pub status : Option BlogStatus

-- The new source of an article, parsed and stored.
pub record Revision : Type 0 where
  pub document : MarkdownDocument
  pub markdown_uri : ObjectKey

abbrev named : {A : Type 0} → String → Option A → List String
named field none = []
named field (some _) = field ∷ []

-- `changed`, in the order in which the fields are appended.
unfoldable pub changed_fields : UpdateBlogPatch → Option Revision → List String
changed_fields patch revision =
    named "title" patch.title
    ++ named "summary" patch.summary
    ++ named "series_position" patch.series_position
    ++ named "status" patch.status
    ++ named "series_id" patch.series_key
    ++ named "category_keys" patch.category_keys
    ++ named "content" revision

module _ (self : BlogService) (at : Instant) where
  unfoldable pub revised : ℕ → Option (List ℕ) → Exec (Option Revision)
  unfolding parsed put
  revised blog_id none = pure none
  revised blog_id (some source) = do
    document ← parsed self (self.parse source)
    uri ← put self (record { blog_id = blog_id; content_sha256 = document.content_sha256 }) source
    pure (some (record { document = document; markdown_uri = uri }))

  unfoldable pub refile : ℕ → Option (List String) → Exec Unit
  unfolding set_categories
  refile blog_id none = pure tt
  refile blog_id (some keys) = set_categories blog_id keys

  unfoldable pub replace_content : ℕ → Option Revision → Exec Unit
  unfolding Blogs.update_content Sections.replace_all sections_of
  replace_content blog_id none = pure tt
  replace_content blog_id (some r) = do
    Blogs.update_content at.db_now blog_id r.markdown_uri r.document.content_sha256
        r.document.word_count
    Sections.replace_all self.text blog_id (sections_of r.document)

  unfoldable pub announce_update : ℕ → List String → Exec Unit
  unfolding Outbox.add
  announce_update blog_id [] = pure tt
  announce_update blog_id (f ∷ fs) = do
    id ← draw self.new_id
    Outbox.add at.db_now id at.clock (DomainEvent.blog_updated blog_id (f ∷ fs) at.clock) "blog"
        blog_id

  abbrev pub metadata_of : UpdateBlogPatch → Option ℕ → Blogs.Patch
  metadata_of patch series_id = record {
    title = patch.title;
    summary = patch.summary;
    series_id = series_id;
    series_position = patch.series_position;
    status = patch.status;
    published_at = some at.clock;
  }

  unfoldable pub apply : ℕ → UpdateBlogPatch → Option Revision → Exec (Option BlogDetail)
  unfolding resolve_series Blogs.update_metadata refile replace_content announce_update
      changed_fields Blogs.get
  apply blog_id patch revision = do
    existing ← Blogs.get self.text blog_id
    raise_if (is_none existing) (Error.platform ErrorCategory.blog_not_found)
    series_id ← resolve_series patch.series_key
    kept ← Blogs.update_metadata self.text at.db_now blog_id (metadata_of patch series_id)
    refile blog_id patch.category_keys
    replace_content blog_id revision
    announce_update blog_id (changed_fields patch revision)
    Blogs.get self.text blog_id

  unfoldable pub update : Principal → ℕ → UpdateBlogPatch → Option (List ℕ) → Exec BlogDetail
  unfolding require_to revised apply
  update principal blog_id patch source = do
    require_to Permission.edit_blog principal
    revision ← revised blog_id source
    updated ← begin (apply blog_id patch revision)
    or_raise updated Error.assertion

  unfoldable pub archive : Principal → ℕ → Exec Unit
  unfolding require_to Blogs.archive Outbox.add
  archive principal blog_id = do
    require_to Permission.archive_blog principal
    begin (do
      archived ← Blogs.archive at.db_now blog_id at.clock
      raise_if (not archived) (Error.platform ErrorCategory.blog_not_found)
      id ← draw self.new_id
      Outbox.add at.db_now id at.clock (DomainEvent.blog_archived blog_id at.clock) "blog" blog_id)
