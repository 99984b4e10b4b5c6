-- ===== src/Repository/Blogs/Listing.antt =====
-- repository/content.py: the list and the categories of `SqlBlogRepository`.
use blog_post.Base.{
  ℕ, Bool, true, false, String, Option, none, some, List, [], ◌∷◌, ◌++◌, ◌&&◌, ◌||◌, not, ltb, ◌==◌,
  str_eq, is_none, opt_eq, map, if◌then◌else◌,
}
use blog_post.Base.Tables.{exists, delete_where}
use blog_post.Errors.Category.{ErrorCategory}
use blog_post.Errors.Constraint.{Constraint}
use blog_post.Database.Content.{BlogStatus, BlogRow, FilingRow, BlogDetail}
use blog_post.Database.Interaction.{Page}
use blog_post.Database.Tables.{Db}
use blog_post.Database.Exec.{Error, Exec, pure, select, modify, raise_if, translating, ◌>>=◌, ◌>>◌}
use blog_post.Repository.Text.{PgText}
use blog_post.Repository.Keyset.{CursorCodec, Keys, decode_cursor, page_of, cursor_after}
use blog_post.Repository.Blogs.{same_status, category_keys, has_blog_id}

pub record BlogFilter : Type 0 where
  pub category_key : Option String
  pub series_id : Option ℕ
  pub status : BlogStatus
  pub published_before : Option ℕ

abbrev pub is_filing : ℕ → String → FilingRow → Bool
is_filing blog_id key f = f.blog_id == blog_id && str_eq f.category_key key

abbrev pub in_category : Option String → List FilingRow → BlogRow → Bool
in_category none filings b = true
in_category (some key) filings b = exists (is_filing b.id key) filings

abbrev pub in_series : Option ℕ → BlogRow → Bool
in_series none b = true
in_series (some series_id) b = opt_eq b.series_id series_id

abbrev pub is_before : Option ℕ → Option ℕ → Bool
is_before none at = true
is_before (some t) none = false
is_before (some t) (some at) = ltb at t

abbrev pub meets : BlogFilter → List FilingRow → BlogRow → Bool
meets filter filings b =
    same_status filter.status b.status
    && in_category filter.category_key filings b
    && in_series filter.series_id b
    && is_before filter.published_before b.published_at

-- `_to_summary`: the article without its sections.
unfoldable pub to_summary : PgText → Db → BlogRow → BlogDetail
unfolding category_keys
to_summary pg db row = record {
  blog = row;
  category_keys = category_keys pg row.id db;
  sections = [];
}

-- Both keys of a cursor have to be there.
unfoldable pub list_keys : CursorCodec → Option String → Exec (Option Keys)
list_keys codec none = pure none
list_keys codec (some cursor) = do
  keys ← decode_cursor codec cursor
  raise_if (is_none keys.at || is_none keys.id) (Error.platform ErrorCategory.request_invalid)
  pure (some keys)

unfoldable pub list : PgText → CursorCodec → BlogFilter → Option String → ℕ → Exec (Page BlogDetail)
unfolding list_keys to_summary
list pg codec filter cursor limit = do
  keys ← list_keys codec cursor
  rows ← select (λ db.
      page_of (λ b. b.published_at) (λ b. b.id) (meets filter db.blog_categories) keys limit
        db.blogs)
  next_cursor ← cursor_after (λ b. b.published_at) (λ b. b.id) codec rows.next
  items ← select (λ db. map (to_summary pg db) rows.items)
  pure (record { items = items; next_cursor = next_cursor; has_more = rows.has_more })

abbrev pub is_empty : List String → Bool
is_empty [] = true
is_empty (_ ∷ _) = false

abbrev pub repeats : List String → Bool
repeats [] = false
repeats (k ∷ ks) = let rest = repeats ks in exists (str_eq k) ks || rest

abbrev pub has_unknown : List String → Db → Bool
has_unknown keys db = exists (λ k. not (exists (λ c. str_eq c.key k) db.categories)) keys

abbrev pub filings_of : ℕ → List String → List FilingRow
filings_of blog_id keys = map (λ k. record { blog_id = blog_id; category_key = k }) keys

-- One INSERT of all the rows. No rows of the article are left that a key could repeat.
unfoldable pub insert_filings : ℕ → List String → Exec Unit
insert_filings blog_id keys = do
  raise_if (repeats keys) (Error.integrity Constraint.blog_categories_pkey)
  raise_if (← select (λ db. not (exists (has_blog_id blog_id) db.blogs)))
      (Error.integrity Constraint.blog_categories_blog_id_fkey)
  raise_if (← select (has_unknown keys))
      (Error.integrity Constraint.blog_categories_category_key_fkey)
  modify λ db. record db { blog_categories = filings_of blog_id keys ++ db.blog_categories }

unfoldable pub set_categories : ℕ → List String → Exec Unit
unfolding insert_filings
set_categories blog_id keys = do
  modify λ db. record db {
    blog_categories = delete_where (λ f. f.blog_id == blog_id) db.blog_categories;
  }
  if is_empty keys then pure tt else translating (λ _. none) (insert_filings blog_id keys)

unfoldable pub categories_for : PgText → ℕ → Exec (List String)
unfolding category_keys
categories_for pg blog_id = select (category_keys pg blog_id)
