-- ===== src/Content/Reading.antt =====
-- services/blog_service.py: the list, one article, and its body.
use blog_post.Base.{ℕ, Bool, String, Option, none, some, ◌&&◌, ◌||◌, not, min, ◌==◌, if◌then◌else◌}
use blog_post.Base.Tables.{find_first}
use blog_post.Errors.Category.{ErrorCategory}
use blog_post.Database.Content.{ObjectKey, StoredObject, BlogDetail}
use blog_post.Database.Interaction.{Page}
use blog_post.Database.Exec.{Error, Exec, pure, raise, raise_if, or_raise, ◌>>=◌, ◌>>◌}
use blog_post.Policy.{Principal, Permission, can}
use blog_post.Repository.Keyset.{limit_or}
use blog_post.Repository.Blogs
use blog_post.Repository.Blogs.{is_published}
use blog_post.Repository.Blogs.Listing as Listing
use blog_post.Repository.Blogs.Listing.{BlogFilter}
use blog_post.Content.{BlogService}

-- A contract strips its texts: `str_strip_whitespace` of `ContractModel`.
pub record BlogContent : Type 0 where
  pub blog_id : ℕ
  pub slug : String
  pub content_sha256 : ℕ
  pub markdown : String

abbrev pub same_object : ObjectKey → StoredObject → Bool
same_object key o = o.key.blog_id == key.blog_id && o.key.content_sha256 == key.content_sha256

-- `_assert_visible`: drafts and archives are the admin's alone.
unfoldable pub is_visible : Principal → BlogDetail → Bool
unfolding can
is_visible principal d = is_published d.blog.status || can Permission.edit_blog principal

module _ (self : BlogService) where
  unfoldable pub list : BlogFilter → Option String → Option ℕ → Exec (Page BlogDetail)
  unfolding Listing.list limit_or
  list filter cursor limit =
      Listing.list self.text self.cursors filter cursor
        (min (limit_or self.default_page_size limit) self.max_page_size)

  unfoldable pub visible_or_raise : Principal → Option BlogDetail → Exec BlogDetail
  unfolding is_visible
  visible_or_raise principal none = raise (Error.platform ErrorCategory.blog_not_found)
  visible_or_raise principal (some d) = do
    raise_if (not (is_visible principal d)) (Error.platform ErrorCategory.blog_not_found)
    pure d

  unfoldable pub get_by_slug : String → Principal → Exec BlogDetail
  unfolding Blogs.get_by_slug visible_or_raise
  get_by_slug slug principal = Blogs.get_by_slug self.text slug >>= visible_or_raise principal

  -- adapters/objectstore `get`: the object that was last put under the key.
  unfoldable pub fetch : ObjectKey → Exec StoredObject
  fetch key w =
      if self.unavailable key
      then raise (Error.platform ErrorCategory.storage_unavailable) w
      else or_raise (find_first (same_object key) w.objects)
          (Error.platform ErrorCategory.storage_object_not_found) w

  unfoldable pub get_content : String → Principal → Exec BlogContent
  unfolding get_by_slug fetch
  get_content slug principal = do
    d ← get_by_slug slug principal
    object ← fetch d.blog.markdown_uri
    text ← or_raise (self.decode object.bytes) Error.unicode_error
    pure (record {
      blog_id = d.blog.id;
      slug = d.blog.slug;
      content_sha256 = d.blog.content_sha256;
      markdown = self.strip text;
    })
