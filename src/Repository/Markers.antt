-- ===== src/Repository/Markers.antt =====
-- repository/interaction.py `SqlMarkerRepository`.
use blog_post.Base.{
  ℕ, Bool, true, Option, none, some, List, ◌∷◌, ◌&&◌, not, leb, ◌==◌, ◌^◌, if◌then◌else◌,
}
use blog_post.Base.Tables.{
  find_first, exists, update_where, delete_where, affected, filter_rows, take,
}
use blog_post.Database.Interaction.{Marker, MarkerAnchor}
use blog_post.Errors.Constraint.{Constraint}
use blog_post.Database.Exec.{Error, Exec, pure, select, modify, raise_if, ◌>>=◌, ◌>>◌}
use blog_post.Repository.Users.{has_id}
use blog_post.Repository.Keyset.{order_by}

abbrev pub is_at : ℕ → ℕ → Marker → Bool
is_at user_id blog_id m = m.user_id == user_id && m.blog_id == blog_id

abbrev pub is_ratio : Option ℕ → Bool
is_ratio none = true
is_ratio (some r) = leb r (2 ^ 1074)

-- The column is a real: it keeps less of a ratio than the double that is given.
abbrev pub kept_ratio : (ℕ → ℕ) → Option ℕ → Option ℕ
kept_ratio to_real none = none
kept_ratio to_real (some r) = some (to_real r)

unfoldable pub put : Marker → List Marker → List Marker
put m rows =
    if exists (is_at m.user_id m.blog_id) rows
    then update_where (is_at m.user_id m.blog_id)
        (λ x. record x {
          anchor = m.anchor;
          progress_ratio = m.progress_ratio;
          updated_at = m.updated_at;
        })
        rows
    else m ∷ rows

-- INSERT ... ON CONFLICT (user_id, blog_id) DO UPDATE: the foreign keys are checked for a row that
-- is inserted. No integrity error is translated.
unfoldable pub upsert : (ℕ → ℕ) → ℕ → ℕ → MarkerAnchor → Option ℕ → ℕ → Exec Marker
unfolding put
upsert to_real user_id blog_id anchor progress_ratio now =
    let m : Marker = record {
      user_id = user_id;
      blog_id = blog_id;
      anchor = anchor;
      progress_ratio = kept_ratio to_real progress_ratio;
      updated_at = now;
    } in
    do
      raise_if (not (is_ratio (kept_ratio to_real progress_ratio)))
          (Error.integrity Constraint.markers_progress_ratio_check)
      known ← select (λ db. exists (is_at user_id blog_id) db.markers)
      raise_if (← select (λ db. not known && not (exists (has_id user_id) db.users)))
          (Error.integrity Constraint.markers_user_id_fkey)
      raise_if (← select (λ db. not known && not (exists (λ b. b.id == blog_id) db.blogs)))
          (Error.integrity Constraint.markers_blog_id_fkey)
      modify (λ db. record db { markers = put m db.markers })
      pure m

unfoldable pub get : ℕ → ℕ → Exec (Option Marker)
get user_id blog_id = select (λ db. find_first (is_at user_id blog_id) db.markers)

unfoldable pub delete : ℕ → ℕ → Exec Bool
delete user_id blog_id = do
  n ← select (λ db. affected (is_at user_id blog_id) db.markers)
  modify (λ db. record db { markers = delete_where (is_at user_id blog_id) db.markers })
  pure (n == 1)

-- ORDER BY updated_at DESC; the order among equal times is open, here by article.
unfoldable pub list_for_user : ℕ → ℕ → Exec (List Marker)
list_for_user user_id limit = select (λ db. take limit (
    order_by (λ m. some m.updated_at) (λ m. m.blog_id)
      (filter_rows (λ m. m.user_id == user_id) db.markers)))
