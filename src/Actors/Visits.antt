-- ===== src/Actors/Visits.antt =====
-- A visitor comes back: the token that a first visit hands out names the same actor.
use blog_post.Base.{ℕ, ◌≡◌, refl, false, String, Option, none, some, ◌==◌, ==-refl}
use blog_post.Base.Tables.{exists, find_first, update_where}
use blog_post.Errors.Category.{ErrorCategory}
use blog_post.Database.Identity.{AnonymousActor}
use blog_post.Database.Exec.{World, ok, ◌>>=◌, begin, raise_if, modify, draw, or_else_return}
use blog_post.Repository.Actors
use blog_post.Policy.{Principal}
use blog_post.Actors.{ActorService, Verdict, resolve}

-- No token was presented, or one that the codec rejects.
abbrev pub NoActor : ActorService → ℕ → Option String → Type 0
NoActor self now none = Unit
NoActor self now (some t) = (c : ErrorCategory) × (self.verify_actor t now ≡ Verdict.rejected c)

module _ (self : ActorService) (now acted db_now later acted_later db_later : ℕ) (w : World) where
  -- Whoever comes with no credential, or with an actor token that is rejected, gets a new actor
  -- and a token; the visit that presents the token later, while the codec accepts it, is that
  -- actor's, hands out no other token, and moves the time of the actor's last visit. The id drawn
  -- for the actor is not in the table yet.
  pub resolve-resolve :
      (presented : Option String)
      → NoActor self now presented
      → exists (λ a. a.id == self.new_id w.drawn) w.db.anonymous_actors ≡ false
      → self.verify_actor (self.issue_actor (self.new_id w.drawn) acted) later
        ≡ Verdict.valid (self.new_id w.drawn)
      → let actor_id = self.new_id w.drawn in
        let token = self.issue_actor actor_id acted in
        let first = resolve self now acted db_now none presented w in
        let second = resolve self later acted_later db_later none (some token) first.1 in
        (first.0
          ≡ ok (record {
            principal = Principal.anonymous actor_id;
            issued_actor_token = some token;
          }))
        × (second.0
            ≡ ok (record { principal = Principal.anonymous actor_id; issued_actor_token = none }))
        × ((row : AnonymousActor) × (find_first (λ a. a.id == actor_id) second.1.db.anonymous_actors
              ≡ some row)
            × (row.last_seen_at ≡ acted_later))
  unfolding resolve Actors.create Actors.touch ◌>>=◌ begin raise_if modify draw or_else_return
      find_first update_where
  resolve-resolve none rejected fresh accepted =
      rw (fresh, accepted, ==-refl (self.new_id w.drawn), ==-refl (self.new_id w.drawn))
        (refl, refl, (_, refl, refl))
  resolve-resolve (some t) (c, bad) fresh accepted =
      rw (bad, fresh, accepted, ==-refl (self.new_id w.drawn), ==-refl (self.new_id w.drawn))
        (refl, refl, (_, refl, refl))
