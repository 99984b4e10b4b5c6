-- ===== src/Worker/Tests.antt =====
-- The theorems about the relay, applied.
use blog_post.Base.{◌≡◌, ◌≤◌, ◌<◌, Bool, true, false, some, none, [], ◌∷◌, ◌==◌, if◌then◌else◌}
use blog_post.Base.Tables.{All, In, length}
use blog_post.Database.Events.{DomainEvent, OutboxStatus, OutboxEvent}
use blog_post.Database.Tables.{empty}
use blog_post.Database.Exec.{World}
use blog_post.Worker.{OutboxWorker}
use blog_post.Repository.Outbox.{due, is_due}
use blog_post.Worker.Claims.{Sorted, due-IsBatch}

-- The publication of event 2 raises.
abbrev worker : OutboxWorker
worker = record {
  batch_size = 50;
  max_attempts = 8;
  publish = λ e. if e.id == 2 then some (66 ∷ []) else none;
  uniform = λ n c. c;
}

abbrev first_event : OutboxEvent
first_event = record {
  id = 1;
  name = "AnonymousActorMerged";
  aggregate_type = "user";
  aggregate_id = 5;
  payload = DomainEvent.anonymous_actor_merged 3 5 1 10;
  occurred_at = 10;
  created_at = 10;
  status = OutboxStatus.pending;
  attempts = 0;
  next_attempt_at = 10;
  last_error = none;
  published_at = none;
}

abbrev second_event : OutboxEvent
second_event = record first_event { id = 2 }

abbrev outbox : World
outbox = record {
  db = record empty { outbox_events = second_event ∷ first_event ∷ [] };
  drawn = 0;
  mail = [];
  objects = [];
}

abbrev nobody : OutboxEvent → Bool
nobody e = false

due-IsBatch_example :
    let batch = due 1 20 outbox.db.outbox_events in
    All (λ e. (is_due 20 e ≡ true) × In e outbox.db.outbox_events) batch
    × (length batch ≤ 1)
    × Sorted batch
    × (length batch < 1
        → (e : OutboxEvent) → In e outbox.db.outbox_events
        → is_due 20 e ≡ true
        → In e batch)
due-IsBatch_example = due-IsBatch 1 20 outbox.db.outbox_events
