-- ===== src/Repository/Blogs.antt =====
-- repository/content.py `SqlBlogRepository`.
pub mod Listing
use blog_post.Base.{
  ℕ, ◌+◌, ◌/◌, Bool, true, false, String, Option, none, some, List, [], ◌∷◌, ◌++◌, ◌&&◌, ◌||◌, not,
  ltb, ◌==◌, str_eq, is_none, coalesce, opt_eq, or_else, map, if◌then◌else◌, max,
}
use blog_post.Base.Tables.{
  find_first, exists, update_where, delete_where, affected, filter_rows, sort_rows,
}
use blog_post.Errors.Category.{ErrorCategory}
use blog_post.Errors.Constraint.{Constraint}
use blog_post.Database.Content.{
  BlogStatus, ObjectKey, BlogRow, BlogSection, SectionRow, FilingRow, BlogDetail,
}
use blog_post.Database.Interaction.{Page}
use blog_post.Database.Tables.{Db}
use blog_post.Database.Exec.{
  Error, Exec, pure, raise, select, modify, raise_if, translating, ◌>>=◌, ◌>>◌,
}
use blog_post.Repository.Text.{PgText, is_filled}
use blog_post.Repository.Users.{has_id}
use blog_post.Repository.Keyset.{CursorCodec, Keys, Slice, decode_cursor, page_of, cursor_after}

abbrev pub is_published : BlogStatus → Bool
is_published s = elim s [ BlogStatus.published ↦ true | _ ↦ false ]

abbrev pub is_archived : BlogStatus → Bool
is_archived s = elim s [ BlogStatus.archived ↦ true | _ ↦ false ]

abbrev pub same_status : BlogStatus → BlogStatus → Bool
same_status BlogStatus.published s = is_published s
same_status BlogStatus.archived s = is_archived s
same_status BlogStatus.draft s = not (is_published s) && not (is_archived s)

-- The generated column.
unfoldable pub reading_minutes : BlogRow → ℕ
reading_minutes b = max 1 ((b.word_count + 237) / 238)

-- array_agg(category_key ORDER BY category_key)
unfoldable pub category_keys : PgText → ℕ → Db → List String
category_keys pg blog_id db =
    sort_rows pg.precedes
      (map (λ f. f.category_key) (filter_rows (λ f. f.blog_id == blog_id) db.blog_categories))

-- The sections of an article, ORDER BY ordinal.
unfoldable pub sections_of : ℕ → Db → List BlogSection
sections_of blog_id db =
    sort_rows (λ x y. ltb x.ordinal y.ordinal)
      (map (λ s. s.section) (filter_rows (λ s. s.blog_id == blog_id) db.blog_sections))

unfoldable pub to_detail : PgText → Db → BlogRow → BlogDetail
unfolding category_keys sections_of
to_detail pg db row = record {
  blog = row;
  category_keys = category_keys pg row.id db;
  sections = sections_of row.id db;
}

abbrev pub detail_of : PgText → Db → Option BlogRow → Option BlogDetail
detail_of pg db none = none
detail_of pg db (some row) = some (to_detail pg db row)

-- `_one`
unfoldable pub one : PgText → (BlogRow → Bool) → Exec (Option BlogDetail)
unfolding to_detail
one pg chosen = select (λ db. detail_of pg db (find_first chosen db.blogs))

abbrev pub has_blog_id : ℕ → BlogRow → Bool
has_blog_id blog_id b = b.id == blog_id

abbrev pub has_slug : String → BlogRow → Bool
has_slug slug b = str_eq b.slug slug

unfoldable pub get : PgText → ℕ → Exec (Option BlogDetail)
unfolding one
get pg blog_id = one pg (has_blog_id blog_id)

unfoldable pub get_by_slug : PgText → String → Exec (Option BlogDetail)
unfolding one
get_by_slug pg slug = one pg (has_slug slug)

unfoldable pub slug_exists : String → Exec Bool
slug_exists slug = select (λ db. exists (has_slug slug) db.blogs)

-- The checks of the table, one for each constraint that a row can break.
abbrev pub lacks_published_at : BlogRow → Bool
lacks_published_at b = is_published b.status && is_none b.published_at

abbrev pub lacks_archived_at : BlogRow → Bool
lacks_archived_at b = is_archived b.status && is_none b.archived_at

abbrev pub lacks_series : BlogRow → Bool
lacks_series b = not (is_none b.series_position) && is_none b.series_id

unfoldable pub check_row : PgText → BlogRow → Exec Unit
unfolding is_filled
check_row pg b = do
  raise_if (lacks_archived_at b) (Error.integrity Constraint.blogs_archived_has_timestamp)
  raise_if (lacks_published_at b) (Error.integrity Constraint.blogs_published_has_timestamp)
  raise_if (lacks_series b) (Error.integrity Constraint.blogs_series_position_needs_series)
  raise_if (not (pg.is_key b.slug)) (Error.integrity Constraint.blogs_slug_check)
  raise_if (not (is_filled pg b.title)) (Error.integrity Constraint.blogs_title_check)

abbrev pub lacks_series_row : Option ℕ → Db → Bool
lacks_series_row none db = false
lacks_series_row (some series_id) db = not (exists (λ s. s.id == series_id) db.series)

unfoldable pub insert_row : PgText → BlogRow → Exec BlogDetail
unfolding check_row
insert_row pg row = do
  check_row pg row
  raise_if (← select (λ db. exists (has_blog_id row.id) db.blogs))
      (Error.integrity Constraint.blogs_pkey)
  raise_if (← select (λ db. exists (has_slug row.slug) db.blogs))
      (Error.integrity Constraint.blogs_slug_key)
  raise_if (← select (λ db. not (exists (has_id row.author_id) db.users)))
      (Error.integrity Constraint.blogs_author_id_fkey)
  raise_if (← select (lacks_series_row row.series_id))
      (Error.integrity Constraint.blogs_series_id_fkey)
  modify (λ db. record db { blogs = row ∷ db.blogs })
  pure (record { blog = row; category_keys = []; sections = [] })

-- `insert`, of the row that its arguments and the defaults of the table make.
unfoldable pub insert : PgText → BlogRow → Exec BlogDetail
unfolding insert_row
insert pg row = translating (λ _. none) (insert_row pg row)

pub record Patch : Type 0 where
  pub title : Option String
  pub summary : Option String
  pub series_id : Option ℕ
  pub series_position : Option ℕ
  pub status : Option BlogStatus
  pub published_at : Option ℕ

-- `%(status)s = 'published'`, which NULL is not.
abbrev pub publishes : Option BlogStatus → Bool
publishes none = false
publishes (some s) = is_published s

unfoldable pub patched : ℕ → Patch → BlogRow → BlogRow
patched db_now patch b = record b {
  title = or_else patch.title b.title;
  summary = coalesce patch.summary b.summary;
  series_id = coalesce patch.series_id b.series_id;
  series_position = coalesce patch.series_position b.series_position;
  status = or_else patch.status b.status;
  published_at =
      if publishes patch.status && is_none b.published_at
      then patch.published_at
      else b.published_at;
  updated_at = db_now;
}

-- The UPDATE of the one row of the id, and the checks of what it becomes.
unfoldable pub update_row : PgText → ℕ → ℕ → Patch → Option BlogRow → Exec Unit
unfolding check_row patched
update_row pg db_now blog_id patch none = pure tt
update_row pg db_now blog_id patch (some b) = do
  check_row pg (patched db_now patch b)
  raise_if (← select (lacks_series_row patch.series_id))
      (Error.integrity Constraint.blogs_series_id_fkey)
  modify
      λ db. record db { blogs = update_where (has_blog_id blog_id) (patched db_now patch) db.blogs }

-- The article as `get` reads it afterwards, or `none` where there is none.
unfoldable pub update_metadata : PgText → ℕ → ℕ → Patch → Exec (Option BlogDetail)
unfolding update_row get
update_metadata pg db_now blog_id patch = do
  row ← select (λ db. find_first (has_blog_id blog_id) db.blogs)
  translating (λ _. none) (update_row pg db_now blog_id patch row)
  get pg blog_id

unfoldable pub set_content : ℕ → ObjectKey → ℕ → ℕ → BlogRow → BlogRow
set_content db_now markdown_uri content_sha256 word_count b = record b {
  markdown_uri = markdown_uri;
  content_sha256 = content_sha256;
  word_count = word_count;
  updated_at = db_now;
}

unfoldable pub update_content : ℕ → ℕ → ObjectKey → ℕ → ℕ → Exec Unit
unfolding set_content
update_content db_now blog_id markdown_uri content_sha256 word_count = modify λ db. record db {
  blogs =
      update_where (has_blog_id blog_id) (set_content db_now markdown_uri content_sha256 word_count)
        db.blogs;
}

abbrev pub is_archivable : ℕ → BlogRow → Bool
is_archivable blog_id b = b.id == blog_id && not (is_archived b.status)

unfoldable pub set_archived : ℕ → ℕ → BlogRow → BlogRow
set_archived db_now now b = record b {
  status = BlogStatus.archived;
  archived_at = some now;
  updated_at = db_now;
}

unfoldable pub archive : ℕ → ℕ → ℕ → Exec Bool
unfolding set_archived
archive db_now blog_id now = do
  n ← select (λ db. affected (is_archivable blog_id) db.blogs)
  modify λ db. record db {
    blogs = update_where (is_archivable blog_id) (set_archived db_now now) db.blogs;
  }
  pure (n == 1)
