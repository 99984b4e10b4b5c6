-- ===== src/Database/Events.antt =====
-- contracts/events.py: the events that the modelled services stage, and the row of `outbox_events`.
use blog_post.Base.{ℕ, Bool, String, Option, List}
use blog_post.Database.Identity.{AuthPurpose}

-- The payload of an event; `id` and `occurred_at` of `DomainEvent` stand in the outbox row.
pub data DomainEvent : Type 0 where
  user_registered :
      (user_id : ℕ) (email : String) (is_admin : Bool) (registered_at : ℕ) → DomainEvent
  otp_requested :
      (subject_user_id : Option ℕ) (email : String) (purpose : AuthPurpose) (token_ref : ℕ)
      (expires_at requested_at : ℕ)
      → DomainEvent
  blog_published :
      (blog_id : ℕ) (slug title : String) (category_keys : List String) (series_id : Option ℕ)
      (author_id published_at : ℕ)
      → DomainEvent
  blog_updated : (blog_id : ℕ) (changed_fields : List String) (updated_at : ℕ) → DomainEvent
  blog_archived : (blog_id archived_at : ℕ) → DomainEvent
  article_saved article_completed : (user_id blog_id : ℕ) → DomainEvent
  anonymous_actor_merged : (actor_id user_id events_merged merged_at : ℕ) → DomainEvent

unfoldable pub event_name : DomainEvent → String
event_name (DomainEvent.user_registered _ _ _ _) = "UserRegistered"
event_name (DomainEvent.otp_requested _ _ _ _ _ _) = "OtpRequested"
event_name (DomainEvent.blog_published _ _ _ _ _ _ _) = "BlogPublished"
event_name (DomainEvent.blog_updated _ _ _) = "BlogUpdated"
event_name (DomainEvent.blog_archived _ _) = "BlogArchived"
event_name (DomainEvent.article_saved _ _) = "ArticleSaved"
event_name (DomainEvent.article_completed _ _) = "ArticleCompleted"
event_name (DomainEvent.anonymous_actor_merged _ _ _ _) = "AnonymousActorMerged"

pub data OutboxStatus : Type 0 where
  pending published dead : OutboxStatus

pub record OutboxEvent : Type 0 where
  pub id : ℕ
  pub name : String
  pub aggregate_type : String
  pub aggregate_id : ℕ
  pub payload : DomainEvent
  pub occurred_at : ℕ
  pub created_at : ℕ
  pub status : OutboxStatus
  pub attempts : ℕ
  pub next_attempt_at : ℕ
  -- Text as code points.
  pub last_error : Option (List ℕ)
  pub published_at : Option ℕ
