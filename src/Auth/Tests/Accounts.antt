-- ===== src/Auth/Tests/Accounts.antt =====
-- The theorems about accounts and anonymous actors, applied.
use blog_post.Base.{◌≡◌, refl, inr, some, none, true, false, ◌==◌, ◌∷◌, [], map}
use blog_post.Base.Tables.{find_first, exists, affected, update_where}
use blog_post.Errors.Category.{ErrorCategory}
use blog_post.Database.Identity.{User, UserRow, UserStatus, OAuthProfile, OAuthProviderName}
use blog_post.Database.Exec.{World, ok, err, Error, ◌>>=◌, or_else_return, raise_if, modify, draw}
use blog_post.Repository.Actors
use blog_post.Repository.Outbox
use blog_post.Repository.Users.{has_id}
use blog_post.Repository.Actors.{is_unclaimed}
use blog_post.Auth.Service.{Instant, merge_actor}
use blog_post.Auth.Service.Merging.{given_event, given_view, merge_actor-once}
use blog_post.Auth.Providers.{complete_oauth}
use blog_post.Auth.Providers.Linked.{
  linked_to, first_token, with_token, complete_oauth-linked, complete_oauth-inactive,
}
use blog_post.Auth.Providers.Unverified.{complete_oauth-unverified}
use blog_post.Auth.Tests.{service, noon, browser, world, reader_row, visitor, spent_token}

-- A profile without a verified address.
abbrev profile : OAuthProfile
profile = record {
  provider = OAuthProviderName.github;
  subject = "subject";
  email = some "admin";
  email_verified = false;
  display_name = none;
}

-- The same at a provider where nobody is linked.
abbrev stranger : OAuthProfile
stranger = record profile { provider = OAuthProviderName.google }

stranger-unlinked : linked_to stranger world ≡ none
unfolding find_first
stranger-unlinked = refl

-- The same database before the second token was issued.
abbrev earlier : World
earlier = record world { db = record world.db { refresh_tokens = spent_token ∷ [] } }

abbrev merged : World
merged = (merge_actor service noon 30 reader_row.user earlier).1

merges : merge_actor service noon 30 reader_row.user earlier ≡ (ok 1, merged)
unfolding merge_actor Actors.get Actors.attribute_engagement Actors.attribute_recent_views
    Actors.mark_merged Outbox.add ◌>>=◌ or_else_return raise_if modify draw find_first exists
    affected update_where
merges = refl

complete_oauth-linked_example : complete_oauth service noon profile 30 browser earlier ≡ (
  ok (record {
    tokens = record {
      access_token = "access";
      refresh_token = "new";
      expires_in = 60;
      actor_token = "actor";
    };
    user = reader_row.user;
    created = false;
    merged_events = 1;
  }),
  with_token (first_token service noon reader_row.user browser merged) merged,
)
unfolding merge_actor Actors.get Actors.attribute_engagement Actors.attribute_recent_views
    Actors.mark_merged Outbox.add ◌>>=◌ or_else_return raise_if modify draw find_first exists
    affected update_where
complete_oauth-linked_example =
    complete_oauth-linked service noon profile 30 browser earlier reader_row.user 1 merged refl refl
      merges refl refl refl

-- The same database where the reader is suspended.
abbrev suspended : UserRow
suspended = record reader_row { user = record reader_row.user { status = UserStatus.suspended } }

abbrev guarded : World
guarded = record world { db = record world.db { users = suspended ∷ [] } }

suspended-linked : linked_to profile guarded ≡ some suspended.user
unfolding find_first
suspended-linked = refl

complete_oauth-inactive_example :
    complete_oauth service noon profile 30 browser guarded
    ≡ (err (Error.platform ErrorCategory.user_inactive), guarded)
complete_oauth-inactive_example =
    complete_oauth-inactive service noon profile 30 browser guarded suspended.user suspended-linked
      (λ e. cc e)

complete_oauth-unverified_example :
    complete_oauth service noon stranger 30 browser world
    ≡ (err (Error.platform ErrorCategory.oauth_email_unverified), world)
complete_oauth-unverified_example =
    complete_oauth-unverified service noon stranger 30 browser world stranger-unlinked (inr refl)

visitor-found : find_first (λ a. a.id == 30) world.db.anonymous_actors ≡ some visitor
unfolding find_first
visitor-found = refl

reader-known : exists (has_id 2) world.db.users ≡ true
unfolding exists
reader-known = refl

event-fresh : exists (λ e. e.id == service.new_id 0) world.db.outbox_events ≡ false
unfolding exists
event-fresh = refl

merge_actor-once_example :
    let after = merge_actor service noon 30 reader_row.user world in
    (after.0 ≡ ok (affected (is_unclaimed 30) world.db.engagement_events))
    × (after.1.db.engagement_events ≡ map (given_event 30 2) world.db.engagement_events)
    × (after.1.db.recent_views ≡ map (given_view 30 2) world.db.recent_views)
    × ((later : Instant) (other : User)
        → merge_actor service later 30 other after.1 ≡ (ok 0, after.1))
merge_actor-once_example =
    merge_actor-once service noon 30 reader_row.user world visitor visitor-found refl reader-known
      event-fresh
