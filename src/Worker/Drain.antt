-- ===== src/Worker/Drain.antt =====
-- One pass of the relay, row by row.
use blog_post.Base.{ℕ, Bool, true, false, Option, none, some, List, if◌then◌else◌, is_none}
use blog_post.Base.Tables.{filter_rows}
use blog_post.Database.Events.{OutboxEvent}
use blog_post.Database.Exec.{World}
use blog_post.Repository.Outbox.{due}
use blog_post.Worker.{OutboxWorker}

abbrev pub was_sent : OutboxWorker → Option OutboxEvent → Bool
was_sent self none = false
was_sent self (some e) = is_none (self.publish e)

-- The events that a pass claims.
abbrev pub claimed_of : OutboxWorker → ℕ → (OutboxEvent → Bool) → World → List OutboxEvent
claimed_of self now locked w =
    due self.batch_size now (filter_rows (λ e. if locked e then false else true) w.db.outbox_events)
