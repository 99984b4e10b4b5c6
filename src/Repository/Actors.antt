-- ===== src/Repository/Actors.antt =====
-- repository/identity.py `SqlAnonymousActorRepository`, and the statements by which a sign-in
-- claims an actor's history: `attribute_to_user` of repository/engagement.py and of
-- repository/interaction.py.
use blog_post.Base.{ℕ, Bool, String, Option, none, some, ◌∷◌, ◌&&◌, not, ◌==◌, is_none}
use blog_post.Base.Tables.{find_first, exists, update_where, affected}
use blog_post.Database.Identity.{AnonymousActor}
use blog_post.Database.Readers.{EngagementRow, RecentViewRow}
use blog_post.Errors.Constraint.{Constraint}
use blog_post.Database.Exec.{Error, Exec, pure, select, modify, raise_if, ◌>>=◌, ◌>>◌}
use blog_post.Repository.Users.{has_id}

unfoldable pub create : ℕ → ℕ → Option String → Option String → Exec AnonymousActor
create db_now actor_id user_agent client_ip =
    let row : AnonymousActor = record {
      id = actor_id;
      created_at = db_now;
      last_seen_at = db_now;
      first_user_agent = user_agent;
      first_client_ip = client_ip;
      merged_into_user_id = none;
      merged_at = none;
    } in
    do
      raise_if (← select (λ db. exists (λ a. a.id == actor_id) db.anonymous_actors))
          (Error.integrity Constraint.anonymous_actors_pkey)
      modify (λ db. record db { anonymous_actors = row ∷ db.anonymous_actors })
      pure row

unfoldable pub get : ℕ → Exec (Option AnonymousActor)
get actor_id = select (λ db. find_first (λ a. a.id == actor_id) db.anonymous_actors)

unfoldable pub touch : ℕ → ℕ → Exec Unit
touch actor_id at = modify λ db. record db {
  anonymous_actors =
      update_where (λ a. a.id == actor_id) (λ a. record a { last_seen_at = at })
        db.anonymous_actors;
}

abbrev pub is_mergeable : ℕ → AnonymousActor → Bool
is_mergeable actor_id a = a.id == actor_id && is_none a.merged_into_user_id

unfoldable pub set_merged : ℕ → ℕ → AnonymousActor → AnonymousActor
set_merged user_id at a = record a { merged_into_user_id = some user_id; merged_at = some at }

-- The first merge wins. The foreign key is checked for a row that is updated.
unfoldable pub mark_merged : ℕ → ℕ → ℕ → Exec Unit
unfolding set_merged
mark_merged actor_id user_id at = do
  raise_if
      (← select (λ db.
        exists (is_mergeable actor_id) db.anonymous_actors
        && not (exists (has_id user_id) db.users)))
      (Error.integrity Constraint.anonymous_actors_merged_into_user_id_fkey)
  modify λ db. record db {
    anonymous_actors =
        update_where (is_mergeable actor_id) (set_merged user_id at) db.anonymous_actors;
  }

abbrev pub is_unclaimed : ℕ → EngagementRow → Bool
is_unclaimed actor_id e = e.actor_id == actor_id && is_none e.user_id

-- `SqlEngagementLog.attribute_to_user`
unfoldable pub attribute_engagement : ℕ → ℕ → Exec ℕ
attribute_engagement actor_id user_id = do
  n ← select (λ db. affected (is_unclaimed actor_id) db.engagement_events)
  modify λ db. record db {
    engagement_events =
        update_where (is_unclaimed actor_id) (λ e. record e { user_id = some user_id })
          db.engagement_events;
  }
  pure n

abbrev pub is_unclaimed_view : ℕ → RecentViewRow → Bool
is_unclaimed_view actor_id v = v.actor_id == actor_id && is_none v.user_id

-- `SqlRecentViewRepository.attribute_to_user`
unfoldable pub attribute_recent_views : ℕ → ℕ → Exec ℕ
attribute_recent_views actor_id user_id = do
  n ← select (λ db. affected (is_unclaimed_view actor_id) db.recent_views)
  raise_if
      (← select (λ db.
        exists (is_unclaimed_view actor_id) db.recent_views
        && not (exists (has_id user_id) db.users)))
      (Error.integrity Constraint.recent_views_user_id_fkey)
  modify λ db. record db {
    recent_views =
        update_where (is_unclaimed_view actor_id) (λ v. record v { user_id = some user_id })
          db.recent_views;
  }
  pure n
