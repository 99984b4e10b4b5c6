-- ===== src/Repository/Comments.antt =====
-- repository/interaction.py `SqlCommentRepository`.
use blog_post.Base.{
  ℕ, Bool, false, String, Option, none, some, List, ◌∷◌, ◌&&◌, ◌||◌, not, ◌==◌, is_none, map,
  opt_eq, ltb,
}
use blog_post.Base.Tables.{find_first, exists, update_where, affected, filter_rows, sort_rows}
use blog_post.Database.Interaction.{Comment, CommentThread, Page}
use blog_post.Errors.Constraint.{Constraint}
use blog_post.Database.Exec.{Error, Exec, pure, select, modify, raise_if, translating, ◌>>=◌, ◌>>◌}
use blog_post.Repository.Text.{PgText, fits}
use blog_post.Repository.Users.{has_id}
use blog_post.Repository.Keyset.{CursorCodec, decode_optional, page_of, cursor_after}

unfoldable pub get : ℕ → Exec (Option Comment)
get comment_id = select (λ db. find_first (λ c. c.id == comment_id) db.comments)

-- A live root of the pair of article and reader, as in the partial unique index.
abbrev pub is_live_root : ℕ → ℕ → Comment → Bool
is_live_root blog_id user_id c =
    c.blog_id == blog_id && c.user_id == user_id && c.depth == 0 && is_none c.deleted_at

-- A row that the composite foreign key of a reply may refer to.
abbrev pub is_root_of : ℕ → ℕ → Comment → Bool
is_root_of parent blog_id c = c.id == parent && c.depth == 0 && c.blog_id == blog_id

abbrev pub lacks_parent : Option ℕ → ℕ → List Comment → Bool
lacks_parent none blog_id rows = false
lacks_parent (some parent) blog_id rows = not (exists (is_root_of parent blog_id) rows)

-- INSERT: the check, the unique indexes, and the foreign keys at the end of the statement.
unfoldable pub insert : PgText → Comment → Exec Comment
unfolding fits
insert pg row = do
  raise_if (not (fits pg 10000 row.body)) (Error.integrity Constraint.comments_body_check)
  raise_if (← select (λ db. exists (λ c. c.id == row.id) db.comments))
      (Error.integrity Constraint.comments_pkey)
  raise_if
      (← select (λ db. row.depth == 0 && exists (is_live_root row.blog_id row.user_id) db.comments))
      (Error.integrity Constraint.comments_one_root_per_user_blog)
  raise_if (← select (λ db. not (exists (λ b. b.id == row.blog_id) db.blogs)))
      (Error.integrity Constraint.comments_blog_id_fkey)
  raise_if (← select (λ db. not (exists (has_id row.user_id) db.users)))
      (Error.integrity Constraint.comments_user_id_fkey)
  raise_if (← select (λ db. lacks_parent row.parent_comment_id row.blog_id db.comments))
      (Error.integrity Constraint.comments_parent_is_root)
  modify (λ db. record db { comments = row ∷ db.comments })
  pure row

abbrev pub new_comment : ℕ → ℕ → ℕ → ℕ → Option ℕ → ℕ → String → Comment
new_comment db_now comment_id blog_id user_id parent depth body = record {
  id = comment_id;
  blog_id = blog_id;
  user_id = user_id;
  parent_comment_id = parent;
  depth = depth;
  body = body;
  created_at = db_now;
  updated_at = db_now;
  deleted_at = none;
  deleted_by = none;
}

unfoldable pub create_root : PgText → ℕ → ℕ → ℕ → ℕ → String → Exec Comment
unfolding insert
create_root pg db_now comment_id blog_id user_id body =
    translating (λ _. none) (insert pg (new_comment db_now comment_id blog_id user_id none 0 body))

unfoldable pub create_reply : PgText → ℕ → ℕ → ℕ → ℕ → ℕ → String → Exec Comment
unfolding insert
create_reply pg db_now comment_id blog_id user_id parent_comment_id body =
    translating (λ _. none)
      (insert pg (new_comment db_now comment_id blog_id user_id (some parent_comment_id) 1 body))

abbrev pub is_own : ℕ → ℕ → Comment → Bool
is_own comment_id user_id c = c.id == comment_id && c.user_id == user_id && is_none c.deleted_at

unfoldable pub set_body : ℕ → String → Comment → Comment
set_body db_now body c = record c { body = body; updated_at = db_now }

-- The check of the body is not translated here.
unfoldable pub update_body : PgText → ℕ → ℕ → ℕ → String → Exec (Option Comment)
unfolding set_body fits
update_body pg db_now comment_id user_id body = do
  raise_if
      (← select (λ db. exists (is_own comment_id user_id) db.comments && not (fits pg 10000 body)))
      (Error.integrity Constraint.comments_body_check)
  modify λ db. record db {
    comments = update_where (is_own comment_id user_id) (set_body db_now body) db.comments;
  }
  select (λ db. find_first (is_own comment_id user_id) db.comments)

abbrev pub is_deletable : ℕ → ℕ → Bool → Comment → Bool
is_deletable comment_id deleted_by as_admin c =
    c.id == comment_id && is_none c.deleted_at && (as_admin || c.user_id == deleted_by)

unfoldable pub set_deleted : ℕ → ℕ → ℕ → Comment → Comment
set_deleted db_now deleted_by now c = record c {
  deleted_at = some now;
  deleted_by = some deleted_by;
  updated_at = db_now;
}

-- Whether the UPDATE met exactly one row. The foreign key of `deleted_by` is checked for it.
unfoldable pub soft_delete : ℕ → ℕ → ℕ → ℕ → Bool → Exec Bool
unfolding set_deleted
soft_delete db_now comment_id deleted_by now as_admin = do
  n ← select (λ db. affected (is_deletable comment_id deleted_by as_admin) db.comments)
  raise_if (← select (λ db. not (n == 0) && not (exists (has_id deleted_by) db.users)))
      (Error.integrity Constraint.comments_deleted_by_fkey)
  modify λ db. record db {
    comments =
        update_where (is_deletable comment_id deleted_by as_admin)
          (set_deleted db_now deleted_by now) db.comments;
  }
  pure (n == 1)

abbrev pub is_shown_root : ℕ → Comment → Bool
is_shown_root blog_id c = c.blog_id == blog_id && c.depth == 0 && is_none c.deleted_at

abbrev pub is_shown_reply : ℕ → Comment → Bool
is_shown_reply root c = opt_eq c.parent_comment_id root && is_none c.deleted_at

-- ORDER BY created_at; among equals the row at the back of the table, the older, comes first.
unfoldable pub oldest_first : List Comment → List Comment
oldest_first rows = sort_rows (λ x y. ltb x.created_at y.created_at) rows

abbrev pub thread_of : List Comment → Comment → CommentThread
thread_of rows root = record {
  root = root;
  replies = oldest_first (filter_rows (is_shown_reply root.id) rows);
}

unfoldable pub list_threads : CursorCodec → ℕ → Option String → ℕ → Exec (Page CommentThread)
unfolding oldest_first
list_threads codec blog_id cursor limit = do
  keys ← decode_optional codec cursor
  roots ← select (λ db.
      page_of (λ c. some c.created_at) (λ c. c.id) (is_shown_root blog_id) keys limit db.comments)
  threads ← select (λ db. map (thread_of db.comments) roots.items)
  next_cursor ← cursor_after (λ c. some c.created_at) (λ c. c.id) codec roots.next
  pure (record { items = threads; next_cursor = next_cursor; has_more = roots.has_more })

unfoldable pub count_for_blog : ℕ → Exec ℕ
count_for_blog blog_id =
    select (λ db. affected (λ c. c.blog_id == blog_id && is_none c.deleted_at) db.comments)
