-- ===== src/Engagement/Tests.antt =====
-- The theorem on the log at a concrete database.
use blog_post.Base.{◌+◌, ◌≡◌, refl, true, false, some}
use blog_post.Base.Tables.{exists}
use blog_post.Database.Readers.{EngagementKind}
use blog_post.Database.Exec.{World, ok, ◌>>=◌, begin, raise_if, modify}
use blog_post.Policy.{Principal}
use blog_post.Auth.Tests.{noon}
use blog_post.Interaction.Tests.{readers}
use blog_post.Engagement.{EngagementService, actor_of, record_event}
use blog_post.Engagement.Once.{keyed, record_event-twice}

abbrev service : EngagementService
service = record { new_id = λ n. n + 100; recent_view_limit = 50 }

abbrev visitor : Principal
visitor = Principal.anonymous 80

abbrev counted : World
counted = (record_event service noon visitor (keyed (some 7) EngagementKind.click "k") readers).1

record_event-twice_example :
    record_event service noon
      (Principal.signed_in 80 2 false)
      (keyed (some 7) EngagementKind.dwell "k")
      counted
    ≡ (ok false, record counted { drawn = counted.drawn + 1 })
unfolding actor_of record_event ◌>>=◌ begin modify exists raise_if
record_event-twice_example =
    record_event-twice service noon noon visitor (Principal.signed_in 80 2 false) (some 7) (some 7)
      EngagementKind.click EngagementKind.dwell "k" readers true refl refl
