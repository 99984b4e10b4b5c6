-- ===== src/Engagement.antt =====
-- services/engagement_service.py `EngagementService`: the write path of the log, and the recent
-- views.
pub mod Once
mod Tests
use blog_post.Base.{
  ℕ, Bool, true, false, String, Option, none, some, List, min, ◌&&◌, if◌then◌else◌,
}
use blog_post.Database.Readers.{EngagementKind, DedupeKey, EngagementRow}
use blog_post.Database.Events.{DomainEvent}
use blog_post.Database.Exec.{Exec, pure, draw, begin, ◌>>=◌, ◌>>◌}
use blog_post.Policy.{Principal, Permission}
use blog_post.Auth.Service.{Instant}
use blog_post.Repository.Engagement as Log
use blog_post.Repository.Outbox
use blog_post.Repository.Views
use blog_post.Repository.Views.{RecentView}
use blog_post.Repository.Keyset.{limit_or}
use blog_post.Interaction.{require_to}

pub record EngagementService : Type 0 where
  pub new_id : ℕ → ℕ
  pub recent_view_limit : ℕ

-- `RecordEngagementCommand`, as far as it is read here; a key that is empty is `none`.
pub record Command : Type 0 where
  pub blog_id : Option ℕ
  pub kind : EngagementKind
  pub dedupe_key : Option String

unfoldable pub actor_of : Principal → ℕ
actor_of (Principal.anonymous actor_id) = actor_id
actor_of (Principal.signed_in actor_id _ _) = actor_id

unfoldable pub user_of : Principal → Option ℕ
user_of (Principal.anonymous _) = none
user_of (Principal.signed_in _ user_id _) = some user_id

unfoldable pub key_of : ℕ → ℕ → Option String → DedupeKey
key_of actor_id event_id none = DedupeKey.of_event event_id
key_of actor_id event_id (some key) = DedupeKey.scoped actor_id key

-- _VIEW_KINDS
unfoldable pub is_view_kind : EngagementKind → Bool
is_view_kind EngagementKind.click = true
is_view_kind EngagementKind.dwell = true
is_view_kind EngagementKind.complete = true
is_view_kind _ = false

unfoldable pub event_of : Principal → ℕ → ℕ → Command → EngagementRow
unfolding actor_of user_of key_of
event_of principal event_id now command = record {
  id = event_id;
  occurred_at = now;
  actor_id = actor_of principal;
  user_id = user_of principal;
  blog_id = command.blog_id;
  kind = command.kind;
  dedupe_key = key_of (actor_of principal) event_id command.dedupe_key;
}

module _ (self : EngagementService) (at : Instant) where
  -- The recent view of an article that was looked at.
  unfoldable pub project : Principal → Command → Option ℕ → Exec Unit
  unfolding is_view_kind actor_of user_of Views.record_view
  project principal command none = pure tt
  project principal command (some blog_id) =
      if is_view_kind command.kind
      then Views.record_view (actor_of principal) (user_of principal) blog_id at.clock
      else pure tt

  unfoldable pub publish : EngagementKind → Option ℕ → Option ℕ → Exec Unit
  unfolding Outbox.add
  publish EngagementKind.complete (some user_id) (some blog_id) = do
    id ← draw self.new_id
    Outbox.add at.db_now id at.clock (DomainEvent.article_completed user_id blog_id) "blog" blog_id
  publish EngagementKind.save (some user_id) (some blog_id) = do
    id ← draw self.new_id
    Outbox.add at.db_now id at.clock (DomainEvent.article_saved user_id blog_id) "blog" blog_id
  publish _ _ _ = pure tt

  unfoldable pub follow_up : Principal → Command → Bool → Exec Bool
  unfolding project publish user_of
  follow_up principal command false = pure false
  follow_up principal command true = do
    project principal command command.blog_id
    publish command.kind (user_of principal) command.blog_id
    pure true

  unfoldable pub record_event : Principal → Command → Exec Bool
  unfolding require_to event_of Log.append follow_up
  record_event principal command = do
    require_to Permission.record_engagement principal
    event_id ← draw self.new_id
    begin (do
      appended ← Log.append (event_of principal event_id at.clock command)
      follow_up principal command appended)

  unfoldable pub views_of : Principal → ℕ → Exec (List RecentView)
  unfolding Views.list_for_user Views.list_for_actor
  views_of (Principal.signed_in _ user_id _) limit = Views.list_for_user user_id limit
  views_of (Principal.anonymous actor_id) limit = Views.list_for_actor actor_id limit

  unfoldable pub recent_views : Principal → Option ℕ → Exec (List RecentView)
  unfolding views_of limit_or
  recent_views principal limit =
      views_of principal (min (limit_or self.recent_view_limit limit) self.recent_view_limit)
