-- ===== src/Database/Readers.antt =====
-- contracts/engagement.py and the tables of migrations/004_engagement.sql and 007. What a beacon
-- measures (position, query, dwell time, depth, source) is stored as it comes and is left out.
use blog_post.Base.{ℕ, String, Option}

pub data EngagementKind : Type 0 where
  impression click dwell complete save share comment search_impression : EngagementKind

-- A client's key is scoped to the actor; without one the event's id is the key.
pub data DedupeKey : Type 0 where
  scoped : ℕ → String → DedupeKey
  of_event : ℕ → DedupeKey

pub record EngagementRow : Type 0 where
  pub id : ℕ
  pub occurred_at : ℕ
  pub actor_id : ℕ
  pub user_id : Option ℕ
  pub blog_id : Option ℕ
  pub kind : EngagementKind
  pub dedupe_key : DedupeKey

-- The row of `engagement_dedupe`.
pub record ClaimRow : Type 0 where
  pub dedupe_key : DedupeKey
  pub first_seen_at : ℕ

pub record RecentViewRow : Type 0 where
  pub actor_id : ℕ
  pub blog_id : ℕ
  pub user_id : Option ℕ
  pub first_viewed_at : ℕ
  pub last_viewed_at : ℕ
  pub view_count : ℕ
