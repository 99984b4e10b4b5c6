-- ===== src/Repository/Outbox.antt =====
-- repository/outbox.py `SqlOutboxRepository`.
use blog_post.Base.{
  ℕ, ◌+◌, Bool, true, false, String, none, some, List, [], ◌∷◌, ◌&&◌, ◌||◌, ltb, leb, ◌==◌,
  if◌then◌else◌,
}
use blog_post.Base.Tables.{exists, update_where, affected, filter_rows, take}
use blog_post.Database.Events.{DomainEvent, event_name, OutboxStatus, OutboxEvent}
use blog_post.Errors.Constraint.{Constraint}
use blog_post.Database.Exec.{Error, Exec, pure, select, modify, raise_if, ◌>>=◌, ◌>>◌}

-- The name is checked against EVENT_TYPES, which holds the names of all the event classes.
unfoldable pub add : ℕ → ℕ → ℕ → DomainEvent → String → ℕ → Exec Unit
unfolding event_name
add db_now event_id occurred_at event aggregate_type aggregate_id = do
  raise_if (← select (λ db. exists (λ e. e.id == event_id) db.outbox_events))
      (Error.integrity Constraint.outbox_events_pkey)
  modify λ db. record db {
    outbox_events =
        record {
          id = event_id;
          name = event_name event;
          aggregate_type = aggregate_type;
          aggregate_id = aggregate_id;
          payload = event;
          occurred_at = occurred_at;
          created_at = db_now;
          status = OutboxStatus.pending;
          attempts = 0;
          next_attempt_at = db_now;
          last_error = none;
          published_at = none;
        }
        ∷ db.outbox_events;
  }

abbrev pub is_pending : OutboxEvent → Bool
is_pending e = elim e.status [ OutboxStatus.pending ↦ true | _ ↦ false ]

abbrev pub is_due : ℕ → OutboxEvent → Bool
is_due now e = is_pending e && leb e.next_attempt_at now

-- ORDER BY next_attempt_at, id
abbrev pub precedes : OutboxEvent → OutboxEvent → Bool
precedes a b =
    ltb a.next_attempt_at b.next_attempt_at
    || (a.next_attempt_at == b.next_attempt_at && leb a.id b.id)

unfoldable pub insert_sorted : OutboxEvent → List OutboxEvent → List OutboxEvent
insert_sorted e [] = e ∷ []
insert_sorted e (x ∷ xs) =
    let rest = insert_sorted e xs in if precedes e x then e ∷ x ∷ xs else x ∷ rest

unfoldable pub sort : List OutboxEvent → List OutboxEvent
unfolding insert_sorted
sort [] = []
sort (x ∷ xs) = insert_sorted x (sort xs)

unfoldable pub due : ℕ → ℕ → List OutboxEvent → List OutboxEvent
unfolding sort
due limit now rows = take limit (sort (filter_rows (is_due now) rows))

-- The rows that another worker has locked, which SKIP LOCKED passes over, are a parameter.
unfoldable pub claim : (OutboxEvent → Bool) → ℕ → ℕ → Exec (List OutboxEvent)
unfolding due
claim locked limit now =
    select
      (λ db. due limit now (filter_rows (λ e. if locked e then false else true) db.outbox_events))

abbrev pub any_id : List ℕ → OutboxEvent → Bool
any_id ids e = exists (λ i. e.id == i) ids

unfoldable pub set_published : ℕ → OutboxEvent → OutboxEvent
set_published now e = record e {
  status = OutboxStatus.published;
  published_at = some now;
  last_error = none;
}

unfoldable pub mark_published : List ℕ → ℕ → Exec ℕ
unfolding set_published
mark_published [] now = pure 0
mark_published (i ∷ ids) now = do
  n ← select (λ db. affected (any_id (i ∷ ids)) db.outbox_events)
  modify λ db. record db {
    outbox_events = update_where (any_id (i ∷ ids)) (set_published now) db.outbox_events;
  }
  pure n

unfoldable pub set_failed : List ℕ → ℕ → Bool → OutboxEvent → OutboxEvent
set_failed error next_attempt_at dead e = record e {
  attempts = e.attempts + 1;
  last_error = some (take 2000 error);
  next_attempt_at = next_attempt_at;
  status = if dead then OutboxStatus.dead else OutboxStatus.pending;
}

unfoldable pub mark_failed : ℕ → List ℕ → ℕ → Bool → Exec Unit
unfolding set_failed
mark_failed event_id error next_attempt_at dead = modify λ db. record db {
  outbox_events =
      update_where (λ e. e.id == event_id) (set_failed error next_attempt_at dead) db.outbox_events;
}

unfoldable pub pending_count : Exec ℕ
pending_count = select (λ db. affected is_pending db.outbox_events)

abbrev is_dead : OutboxEvent → Bool
is_dead e = elim e.status [ OutboxStatus.dead ↦ true | _ ↦ false ]

unfoldable pub dead_count : Exec ℕ
dead_count = select (λ db. affected is_dead db.outbox_events)
