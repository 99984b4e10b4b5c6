-- ===== src/Worker.antt =====
-- workers/outbox.py `OutboxWorker`: one pass of the relay.
pub mod Batch
pub mod Claims
pub mod Rows
pub mod Loop
pub mod Drain
mod Tests
use blog_post.Base.{
  ℕ, ◌+◌, ◌*◌, ◌^◌, min, Bool, true, false, Option, none, some, List, [], ◌∷◌, leb, if◌then◌else◌,
}
use blog_post.Database.Events.{OutboxEvent}
use blog_post.Database.Exec.{Exec, pure, draw, begin, ◌>>=◌, ◌>>◌}
use blog_post.Repository.Outbox.{claim, mark_failed, mark_published}
use blog_post.Auth.Service.{seconds}

-- `publish` is what `_publish` ends with: nothing, or the text of what it raised. It logs the event,
-- and is where a subscriber will be called. `uniform` is `SystemRandom().uniform(0, ceiling)`, in
-- microseconds, by the number of the draw.
pub record OutboxWorker : Type 0 where
  pub batch_size : ℕ
  pub max_attempts : ℕ
  pub publish : OutboxEvent → Option (List ℕ)
  pub uniform : ℕ → ℕ → ℕ

-- min(_BACKOFF_CAP_S, _BACKOFF_BASE_S * 2 ** attempts), in seconds.
unfoldable pub ceiling : ℕ → ℕ
ceiling attempts = min 600 (2 * 2 ^ attempts)

module _ (self : OutboxWorker) (now : ℕ) where
  -- `_next_attempt_at`
  unfoldable pub next_attempt_at : ℕ → Exec ℕ
  unfolding ceiling
  next_attempt_at attempts = do
    offset ← draw (λ n. self.uniform n (seconds (ceiling attempts)))
    pure (now + offset)

  -- The body of the loop for one event, by how its publication ended; the answer is whether it
  -- was published.
  unfoldable pub relayed : OutboxEvent → Option (List ℕ) → Exec Bool
  unfolding next_attempt_at
  relayed event none = pure true
  relayed event (some error) = do
    next ← next_attempt_at event.attempts
    mark_failed event.id error next (leb self.max_attempts (event.attempts + 1))
    pure false

  -- The loop; the answer is `succeeded`.
  unfoldable pub relay : List OutboxEvent → Exec (List ℕ)
  unfolding relayed
  relay [] = pure []
  relay (event ∷ rest) = do
    published ← relayed event (self.publish event)
    succeeded ← relay rest
    pure (if published then event.id ∷ succeeded else succeeded)

  unfoldable pub relay_claimed : List OutboxEvent → Exec ℕ
  unfolding relay
  relay_claimed [] = pure 0
  relay_claimed (event ∷ rest) = do succeeded ← relay (event ∷ rest); mark_published succeeded now

  -- `_drain`; `locked` are the rows that another worker holds.
  unfoldable pub drain : (OutboxEvent → Bool) → Exec ℕ
  unfolding relay_claimed
  drain locked = begin (claim locked self.batch_size now >>= relay_claimed)
