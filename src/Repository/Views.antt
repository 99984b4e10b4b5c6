-- ===== src/Repository/Views.antt =====
-- repository/interaction.py `SqlRecentViewRepository` but for its `attribute_to_user`.
use blog_post.Base.{
  ℕ, ◌+◌, Bool, true, false, String, Option, none, some, List, ◌∷◌, [], ◌&&◌, not, ◌==◌, coalesce,
  opt_eq, if◌then◌else◌,
}
use blog_post.Base.Tables.{find_first, exists, update_where, filter_rows, take}
use blog_post.Database.Content.{BlogStatus, BlogRow}
use blog_post.Database.Readers.{RecentViewRow}
use blog_post.Database.Tables.{Db}
use blog_post.Errors.Constraint.{Constraint}
use blog_post.Database.Exec.{Error, Exec, select, modify, raise_if, ◌>>=◌, ◌>>◌}
use blog_post.Repository.Users.{has_id}
use blog_post.Repository.Keyset.{order_by}

abbrev pub is_view : ℕ → ℕ → RecentViewRow → Bool
is_view actor_id blog_id v = v.actor_id == actor_id && v.blog_id == blog_id

unfoldable pub count_view : Option ℕ → ℕ → RecentViewRow → RecentViewRow
count_view user_id now v = record v {
  last_viewed_at = now;
  view_count = v.view_count + 1;
  user_id = coalesce user_id v.user_id;
}

unfoldable pub put_view : ℕ → Option ℕ → ℕ → ℕ → List RecentViewRow → List RecentViewRow
unfolding count_view
put_view actor_id user_id blog_id now rows =
    if exists (is_view actor_id blog_id) rows
    then update_where (is_view actor_id blog_id) (count_view user_id now) rows
    else record {
      actor_id = actor_id;
      blog_id = blog_id;
      user_id = user_id;
      first_viewed_at = now;
      last_viewed_at = now;
      view_count = 1;
    }
      ∷ rows

abbrev pub is_unknown : Option ℕ → Db → Bool
is_unknown none db = false
is_unknown (some user_id) db = not (exists (has_id user_id) db.users)

-- `record`. The foreign keys: the article's for a row that is inserted, the user's for both.
unfoldable pub record_view : ℕ → Option ℕ → ℕ → ℕ → Exec Unit
unfolding put_view
record_view actor_id user_id blog_id now = do
  raise_if
      (← select (λ db.
        not (exists (is_view actor_id blog_id) db.recent_views)
        && not (exists (λ b. b.id == blog_id) db.blogs)))
      (Error.integrity Constraint.recent_views_blog_id_fkey)
  raise_if (← select (is_unknown user_id)) (Error.integrity Constraint.recent_views_user_id_fkey)
  modify λ db. record db { recent_views = put_view actor_id user_id blog_id now db.recent_views }

pub record RecentView : Type 0 where
  pub blog_id : ℕ
  pub title : String
  pub slug : String
  pub last_viewed_at : ℕ
  pub view_count : ℕ

abbrev pub is_published : BlogRow → Bool
is_published b = elim b.status [ BlogStatus.published ↦ true | _ ↦ false ]

-- The JOIN with the published articles.
unfoldable pub joined : List BlogRow → List RecentViewRow → List RecentView
joined blogs [] = []
joined blogs (v ∷ rest) = elim (find_first (λ b. b.id == v.blog_id && is_published b) blogs) [
  | none ↦ joined blogs rest
  | some b ↦
      record {
        blog_id = v.blog_id;
        title = b.title;
        slug = b.slug;
        last_viewed_at = v.last_viewed_at;
        view_count = v.view_count;
      }
      ∷ joined blogs rest
]

-- ORDER BY last_viewed_at DESC; the order among equal times is open, here by article.
unfoldable pub list_where : (RecentViewRow → Bool) → ℕ → Exec (List RecentView)
unfolding joined
list_where chosen limit = select (λ db. take limit (
    joined db.blogs (
      order_by (λ v. some v.last_viewed_at) (λ v. v.blog_id) (filter_rows chosen db.recent_views))))

unfoldable pub list_for_actor : ℕ → ℕ → Exec (List RecentView)
unfolding list_where
list_for_actor actor_id limit = list_where (λ v. v.actor_id == actor_id) limit

unfoldable pub list_for_user : ℕ → ℕ → Exec (List RecentView)
unfolding list_where
list_for_user user_id limit = list_where (λ v. opt_eq v.user_id user_id) limit
