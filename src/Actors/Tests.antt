-- ===== src/Actors/Tests.antt =====
-- The theorem about visits, applied.
use blog_post.Base.{◌+◌, ◌≡◌, refl, false, none, some, [], ◌==◌}
use blog_post.Base.Tables.{exists, find_first}
use blog_post.Errors.Category.{ErrorCategory}
use blog_post.Database.Identity.{AnonymousActor}
use blog_post.Database.Tables.{empty}
use blog_post.Database.Exec.{World, ok}
use blog_post.Policy.{Principal}
use blog_post.Actors.{ActorService, Verdict, resolve}
use blog_post.Actors.Visits.{resolve-resolve}

-- Every actor token is accepted, for actor 100.
abbrev visits : ActorService
visits = record {
  new_id = λ n. n + 100;
  verify_access = λ t now. Verdict.rejected ErrorCategory.auth_token_invalid;
  verify_actor = λ t now. Verdict.valid 100;
  issue_actor = λ a now. "actor";
  partition_space = λ s. (s, "");
  lower = λ s. s;
  strip = λ s. s;
}

abbrev nowhere : World
nowhere = record { db = empty; drawn = 0; mail = []; objects = [] }

nobody-fresh : exists (λ a. a.id == visits.new_id nowhere.drawn) nowhere.db.anonymous_actors ≡ false
unfolding exists
nobody-fresh = refl

resolve-resolve_example :
    let first = resolve visits 5 6 6 none none nowhere in
    let second = resolve visits 9 10 10 none (some "actor") first.1 in
    (first.0
      ≡ ok (record { principal = Principal.anonymous 100; issued_actor_token = some "actor" }))
    × (second.0 ≡ ok (record { principal = Principal.anonymous 100; issued_actor_token = none }))
    × ((row : AnonymousActor) × (find_first (λ a. a.id == 100) second.1.db.anonymous_actors
          ≡ some row)
        × (row.last_seen_at ≡ 10))
resolve-resolve_example = resolve-resolve visits 5 6 6 9 10 10 nowhere none tt nobody-fresh refl
