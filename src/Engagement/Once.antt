-- ===== src/Engagement/Once.antt =====
-- A beacon with a key that is sent again: services/engagement_service.py `record`.
use blog_post.Base.{
  ℕ, ◌+◌, ◌≡◌, refl, sym, subst, Bool, true, false, String, Option, none, some, List, ◌∷◌, ==-refl,
  eq_iff, if◌then◌else◌,
}
use blog_post.Base.Tables.{exists}
use blog_post.Database.Readers.{DedupeKey, ClaimRow, EngagementRow, EngagementKind}
use blog_post.Database.Tables.{Db}
use blog_post.Database.Exec.{World, Result, ok, err, ◌>>=◌, begin, modify}
use blog_post.Database.Exec.Ensures.{
  Post, Ensures, Keeps, Ensures-begin, Ensures-bind, Ensures-select, Ensures-modify, Ensures-pure,
  Ensures-draw, Ensures-weaken, Keeps-bind, Keeps-pure, Keeps-if, keeps_rules,
}
use blog_post.Policy.{Principal, can, require}
use blog_post.Auth.Service.{Instant}
use blog_post.Repository.Engagement as Log
use blog_post.Repository.Engagement.{same_key, is_claimed}
use blog_post.Repository.Outbox
use blog_post.Repository.Views
use blog_post.Interaction.{require_to}
use blog_post.Engagement.{
  EngagementService, Command, actor_of, user_of, event_of, key_of, project, publish, follow_up,
  record_event,
}

abbrev Claimed : DedupeKey → Db → Type 0
Claimed key db = exists (is_claimed key) db.engagement_dedupe ≡ true

same_key_refl : (key : DedupeKey) → same_key key key ≡ true
same_key_refl (DedupeKey.scoped a k) = rw (==-refl a, (eq_iff k k).1 refl) refl
same_key_refl (DedupeKey.of_event i) = ==-refl i

claimed_by :
    (key : DedupeKey) (now : ℕ) (rows : List ClaimRow) (b : Bool)
    → exists (is_claimed key) rows ≡ b
    → exists
        (is_claimed key)
        (if b then rows else record { dedupe_key = key; first_seen_at = now } ∷ rows)
      ≡ true
unfolding exists
claimed_by key now rows true e = e
claimed_by key now rows false e = rw (same_key_refl key) refl

claim-Claimed :
    (key : DedupeKey) (now : ℕ)
    → Ensures (λ _. Unit) (Log.claim key now) (λ _. Claimed key) (λ _. Unit)
unfolding Log.claim
claim-Claimed key now =
    Ensures-bind {Q = λ b db. exists (is_claimed key) db.engagement_dedupe ≡ b}
      (Ensures-select _ (λ db p. refl))
      λ b.
        Ensures-bind {Q = λ _. Claimed key}
          (Ensures-modify _ (λ db e. claimed_by key now db.engagement_dedupe b e))
          λ _. Ensures-pure _ (λ db c. c)

insert-Claimed : (key : DedupeKey) (e : EngagementRow) → Keeps (Claimed key) (Log.insert e)
unfolding Log.insert
insert-Claimed key e = search keeps_rules depth 10

record_view-Claimed :
    (key : DedupeKey) (a : ℕ) (u : Option ℕ) (b t : ℕ)
    → Keeps (Claimed key) (Views.record_view a u b t)
unfolding Views.record_view
record_view-Claimed key a u b t = search keeps_rules depth 10

module _ (self : EngagementService) (at : Instant) (key : DedupeKey) where
  project-Claimed :
      (p : Principal) (c : Command) (o : Option ℕ) → Keeps (Claimed key) (project self at p c o)
  unfolding project
  project-Claimed p c none = Keeps-pure tt
  project-Claimed p c (some b) = search (keeps_rules, record_view-Claimed)

  stage-Claimed :
      (k : EngagementKind) (u b : Option ℕ) → Keeps (Claimed key) (publish self at k u b)
  unfolding publish Outbox.add
  stage-Claimed EngagementKind.complete none b = Keeps-pure tt
  stage-Claimed EngagementKind.complete (some u) none = Keeps-pure tt
  stage-Claimed EngagementKind.complete (some u) (some b) = search keeps_rules depth 10
  stage-Claimed EngagementKind.save none b = Keeps-pure tt
  stage-Claimed EngagementKind.save (some u) none = Keeps-pure tt
  stage-Claimed EngagementKind.save (some u) (some b) = search keeps_rules depth 10
  stage-Claimed EngagementKind.impression u b = Keeps-pure tt
  stage-Claimed EngagementKind.click u b = Keeps-pure tt
  stage-Claimed EngagementKind.dwell u b = Keeps-pure tt
  stage-Claimed EngagementKind.share u b = Keeps-pure tt
  stage-Claimed EngagementKind.comment u b = Keeps-pure tt
  stage-Claimed EngagementKind.search_impression u b = Keeps-pure tt

  follow_up-Claimed :
      (p : Principal) (c : Command) (b : Bool) → Keeps (Claimed key) (follow_up self at p c b)
  unfolding follow_up
  follow_up-Claimed p c false = Keeps-pure false
  follow_up-Claimed p c true =
      Keeps-bind _ _ (project-Claimed p c c.blog_id)
        λ _. Keeps-bind _ _ (stage-Claimed c.kind (user_of p) c.blog_id) λ _. Keeps-pure true

append-Claimed :
    (e : EngagementRow) → Ensures (λ _. Unit) (Log.append e) (λ _. Claimed e.dedupe_key) (λ _. Unit)
unfolding Log.append
append-Claimed e =
    Ensures-bind {Q = λ _. Claimed e.dedupe_key} (claim-Claimed e.dedupe_key e.occurred_at) λ b.
      Ensures-weaken (λ db c. c) (λ a db c. c) (λ db c. tt)
        (Keeps-if b _ _ (insert-Claimed e.dedupe_key e) (Keeps-pure false))

abbrev pub keyed : Option ℕ → EngagementKind → String → Command
keyed blog_id kind key = record { blog_id = blog_id; kind = kind; dedupe_key = some key }

module _ (self : EngagementService) (at : Instant) (p : Principal) (blog_id : Option ℕ)
    (kind : EngagementKind) (key : String) where
  abbrev own_key : DedupeKey
  own_key = DedupeKey.scoped (actor_of p) key

  record_event-Claimed :
      Ensures
        (λ _. Unit)
        (record_event self at p (keyed blog_id kind key))
        (λ _. Claimed own_key)
        (λ _. Unit)
  unfolding record_event require_to can require event_of key_of
  record_event-Claimed = Ensures-bind {Q = λ _ _. Unit} (Ensures-pure tt (λ db u. tt)) λ _.
      Ensures-bind {Q = λ _ _. Unit} (Ensures-draw _ (λ db a u. tt)) λ event_id. Ensures-begin (
        Ensures-bind {Q = λ _. Claimed own_key} (append-Claimed _) λ b.
          Ensures-weaken (λ db c. c) (λ a db c. c) (λ db c. tt)
            (follow_up-Claimed self at own_key p (keyed blog_id kind key) b))

  -- A key of the actor that is taken.
  record_event-taken :
      (w : World)
      → Claimed own_key w.db
      → record_event self at p (keyed blog_id kind key) w
        ≡ (ok false, record w { drawn = w.drawn + 1 })
  unfolding record_event require_to can require event_of key_of Log.append Log.claim follow_up ◌>>=◌
      begin modify
  record_event-taken w taken = rw taken refl

answered :
    {A : Type 0} (Q : Db → Type 0) (r : Result A × World) (a : A)
    → r.0 ≡ ok a
    → Post (λ _. Q) (λ _. Unit) r
    → Q r.1.db
answered Q (ok b, w) a e q = q
answered Q (err x, w) a e q = cc

module _ (self : EngagementService) (first second : Instant) (p q : Principal)
    (blog other : Option ℕ) (kind again : EngagementKind) (key : String) (w : World) where
  -- An event of an actor with a key that the actor's client sent before is answered as a
  -- duplicate, and no table of the database changes: neither the log nor the recent views nor the
  -- outbox. The first call was answered, recorded or not; the second may come at another time and
  -- say another article or kind.
  pub record_event-twice :
      (b : Bool)
      → actor_of q ≡ actor_of p
      → (record_event self first p (keyed blog kind key) w).0 ≡ ok b
      → let after = (record_event self first p (keyed blog kind key) w).1 in
        record_event self second q (keyed other again key) after
        ≡ (ok false, record after { drawn = after.drawn + 1 })
  record_event-twice b same done =
      let call = record_event self first p (keyed blog kind key) w in
      let claimed =
        answered (Claimed (DedupeKey.scoped (actor_of p) key)) call b done
          ((record_event-Claimed self first p blog kind key).at w tt) in
      record_event-taken self second q other again key call.1
        (subst (λ a. Claimed (DedupeKey.scoped a key) call.1.db) (sym same) claimed)
