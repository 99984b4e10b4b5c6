-- ===== src/Auth/Service/Merging.antt =====
-- The history of an anonymous actor is claimed once.
use blog_post.Base.{
  &&-false, ap, ◌∙◌, ℕ, ◌≡◌, refl, true, false, none, some, Bool-cases, Option-cases, inl, inr,
  ◌==◌, coalesce, map, if◌then◌else◌,
}
use blog_post.Base.Tables.{
  find_first, find_first-some, find_first-update_where, exists, affected, update_where,
  update_where-map,
}
use blog_post.Database.Identity.{User, AnonymousActor}
use blog_post.Database.Readers.{EngagementRow, RecentViewRow}
use blog_post.Database.Exec.{World, ok, ◌>>=◌, raise_if, modify, draw, or_else_return}
use blog_post.Repository.Actors.{
  get, is_unclaimed_view, is_unclaimed, attribute_engagement, attribute_recent_views, mark_merged,
  is_mergeable, set_merged,
}
use blog_post.Repository.Outbox
use blog_post.Repository.Users.{has_id}
use blog_post.Auth.Service.{AuthService, Instant, merge_actor}

-- A row of the actor that has no user yet is given to one; every other row is left alone.
abbrev pub given_event : ℕ → ℕ → EngagementRow → EngagementRow
given_event actor_id user_id e = record e {
  user_id = if e.actor_id == actor_id then coalesce e.user_id (some user_id) else e.user_id;
}

abbrev pub given_view : ℕ → ℕ → RecentViewRow → RecentViewRow
given_view actor_id user_id v = record v {
  user_id = if v.actor_id == actor_id then coalesce v.user_id (some user_id) else v.user_id;
}

attributed-event :
    (actor_id user_id : ℕ) (e : EngagementRow)
    → (if is_unclaimed actor_id e then record e { user_id = some user_id } else e)
      ≡ given_event actor_id user_id e
attributed-event a u e = elim (Bool-cases (e.actor_id == a)) [
  | inl same ↦ elim (Option-cases e.user_id) [
    | inl free ↦ rw (same, free) refl
    | inr (v, owned) ↦ rw (same, owned) refl
  ]
  | inr other ↦ rw other refl
]

attributed-view :
    (actor_id user_id : ℕ) (v : RecentViewRow)
    → (if is_unclaimed_view actor_id v then record v { user_id = some user_id } else v)
      ≡ given_view actor_id user_id v
attributed-view a u v = elim (Bool-cases (v.actor_id == a)) [
  | inl same ↦ elim (Option-cases v.user_id) [
    | inl free ↦ rw (same, free) refl
    | inr (x, owned) ↦ rw (same, owned) refl
  ]
  | inr other ↦ rw other refl
]

module _ (self : AuthService) (at : Instant) (actor_id : ℕ) (user : User) (w : World) where
  -- An actor that somebody has claimed already gives its history to nobody else.
  merged-stays :
      (row : AnonymousActor) (u : ℕ)
      → find_first (λ a. a.id == actor_id) w.db.anonymous_actors ≡ some row
      → row.merged_into_user_id ≡ some u
      → merge_actor self at actor_id user w ≡ (ok 0, w)
  unfolding merge_actor get ◌>>=◌ or_else_return
  merged-stays row u found gone = rw (found, gone) refl

  claimed :
      (row : AnonymousActor)
      → find_first (λ a. a.id == actor_id) w.db.anonymous_actors ≡ some row
      → row.merged_into_user_id ≡ none
      → exists (has_id user.id) w.db.users ≡ true
      → exists (λ e. e.id == self.new_id w.drawn) w.db.outbox_events ≡ false
      → let after = merge_actor self at actor_id user w in
        (after.0 ≡ ok (affected (is_unclaimed actor_id) w.db.engagement_events))
        × (after.1.db.anonymous_actors
            ≡ update_where
                (is_mergeable actor_id)
                (set_merged user.id at.clock)
                w.db.anonymous_actors)
        × (after.1.db.engagement_events ≡ map (given_event actor_id user.id) w.db.engagement_events)
        × (after.1.db.recent_views ≡ map (given_view actor_id user.id) w.db.recent_views)
  unfolding merge_actor get attribute_engagement attribute_recent_views mark_merged Outbox.add ◌>>=◌
      or_else_return raise_if modify draw
  claimed row found free known fresh =
      let events =
        update_where-map (is_unclaimed actor_id) (λ e. record e { user_id = some user.id })
          (given_event actor_id user.id) w.db.engagement_events
          (attributed-event actor_id user.id) in
      let views =
        update_where-map (is_unclaimed_view actor_id) (λ v. record v { user_id = some user.id })
          (given_view actor_id user.id) w.db.recent_views (attributed-view actor_id user.id) in
      elim (Bool-cases (affected (is_unclaimed actor_id) w.db.engagement_events == 0)) [
        | inl nothing ↦
            rw
              (
                found,
                free,
                known,
                &&-false (exists (is_unclaimed_view actor_id) w.db.recent_views),
                known,
                &&-false (exists (is_mergeable actor_id) w.db.anonymous_actors),
                nothing,
              )
              (refl, refl, events, views)
        | inr some_rows ↦
            rw
              (
                found,
                free,
                known,
                &&-false (exists (is_unclaimed_view actor_id) w.db.recent_views),
                known,
                &&-false (exists (is_mergeable actor_id) w.db.anonymous_actors),
                some_rows,
                fresh,
              )
              (refl, refl, events, views)
      ]

  set_merged-found :
      (row : AnonymousActor)
      → find_first (λ a. a.id == actor_id) w.db.anonymous_actors ≡ some row
      → row.merged_into_user_id ≡ none
      → find_first
          (λ a. a.id == actor_id)
          (update_where (is_mergeable actor_id) (set_merged user.id at.clock) w.db.anonymous_actors)
        ≡ some (set_merged user.id at.clock row)
  unfolding set_merged
  set_merged-found row found free =
      rw
        (
          find_first-update_where (λ a. a.id == actor_id) (is_mergeable actor_id)
              (set_merged user.id at.clock) w.db.anonymous_actors (λ a. refl),
          found,
          find_first-some (λ a. a.id == actor_id) w.db.anonymous_actors row found,
          free,
        )
        refl

module _ (self : AuthService) (at : Instant) (actor_id : ℕ) (user : User) (w : World)
    (row : AnonymousActor) where
  -- The first sign-in that presents an unclaimed actor gives its user all engagement events and
  -- all recent views of the actor that have no user yet, leaves those of others alone, and reports
  -- how many events these are. After it, every other sign-in with that actor, whoever's and
  -- whenever, claims nothing and changes nothing. The user is in the table, and the id drawn for
  -- the event is not in the outbox.
  pub merge_actor-once :
      find_first (λ a. a.id == actor_id) w.db.anonymous_actors ≡ some row
      → row.merged_into_user_id ≡ none
      → exists (has_id user.id) w.db.users ≡ true
      → exists (λ e. e.id == self.new_id w.drawn) w.db.outbox_events ≡ false
      → let after = merge_actor self at actor_id user w in
        (after.0 ≡ ok (affected (is_unclaimed actor_id) w.db.engagement_events))
        × (after.1.db.engagement_events ≡ map (given_event actor_id user.id) w.db.engagement_events)
        × (after.1.db.recent_views ≡ map (given_view actor_id user.id) w.db.recent_views)
        × ((later : Instant) (other : User)
            → merge_actor self later actor_id other after.1 ≡ (ok 0, after.1))
  unfolding set_merged
  merge_actor-once found free known fresh =
      let after = claimed self at actor_id user w row found free known fresh in
      (
        after.0,
        after.2,
        after.3,
        λ later other.
            merged-stays self later actor_id other (merge_actor self at actor_id user w).1
              (set_merged user.id at.clock row) user.id
              (ap (find_first (λ a. a.id == actor_id)) after.1
                ∙ set_merged-found self at actor_id user w row found free)
              refl,
      )
