-- ===== src/Repository/Engagement.antt =====
-- repository/engagement.py `SqlEngagementLog.append`, the write path of the log.
use blog_post.Base.{ℕ, Bool, true, false, ◌∷◌, ◌&&◌, ◌==◌, str_eq, if◌then◌else◌}
use blog_post.Base.Tables.{exists}
use blog_post.Errors.Constraint.{Constraint}
use blog_post.Database.Readers.{DedupeKey, ClaimRow, EngagementRow}
use blog_post.Database.Exec.{Error, Exec, pure, select, modify, raise_if, ◌>>=◌, ◌>>◌}

abbrev pub same_key : DedupeKey → DedupeKey → Bool
same_key (DedupeKey.scoped a k) (DedupeKey.scoped b l) = a == b && str_eq k l
same_key (DedupeKey.of_event i) (DedupeKey.of_event j) = i == j
same_key (DedupeKey.scoped _ _) (DedupeKey.of_event _) = false
same_key (DedupeKey.of_event _) (DedupeKey.scoped _ _) = false

abbrev pub is_claimed : DedupeKey → ClaimRow → Bool
is_claimed key c = same_key c.dedupe_key key

-- INSERT ... ON CONFLICT DO NOTHING: whether a row was inserted.
unfoldable pub claim : DedupeKey → ℕ → Exec Bool
claim key now = do
  taken ← select (λ db. exists (is_claimed key) db.engagement_dedupe)
  modify λ db. record db {
    engagement_dedupe =
        if taken
        then db.engagement_dedupe
        else record { dedupe_key = key; first_seen_at = now } ∷ db.engagement_dedupe;
  }
  pure (if taken then false else true)

abbrev pub same_event : EngagementRow → EngagementRow → Bool
same_event new e = e.id == new.id && e.occurred_at == new.occurred_at

unfoldable pub insert : EngagementRow → Exec Bool
insert event = do
  raise_if (← select (λ db. exists (same_event event) db.engagement_events))
      (Error.integrity Constraint.engagement_events_pkey)
  modify (λ db. record db { engagement_events = event ∷ db.engagement_events })
  pure true

unfoldable pub append : EngagementRow → Exec Bool
unfolding claim insert
append event = do
  claimed ← claim event.dedupe_key event.occurred_at
  if claimed then insert event else pure false
