-- ===== src/Auth/Untouched.antt =====
-- The calls of a sign-in that leave the table of refresh tokens alone keep every property of it.
use blog_post.Base.{ℕ, Bool, String, Option, none, some, List}
use blog_post.Errors.Category.{ErrorCategory}
use blog_post.Database.Identity.{User, UserStatus, RefreshToken, AnonymousActor}
use blog_post.Database.Events.{DomainEvent}
use blog_post.Database.Tables.{Db}
use blog_post.Database.Exec.{pure, raise, Error}
use blog_post.Database.Exec.Ensures.{Keeps, Keeps-pure, Keeps-raise, keeps_rules}
use blog_post.Repository.Users
use blog_post.Repository.Actors
use blog_post.Repository.Outbox
use blog_post.Auth.Service.{
  AuthService, Instant, assert_active, merge_actor, actor_for_user, register, claim_history,
  claim_unmerged, stage_merged,
}

module _ (P : List RefreshToken → Type 0) where
  abbrev pub On : Db → Type 0
  On db = P db.refresh_tokens

  pub users_get-Keeps : (user_id : ℕ) → Keeps On (Users.get user_id)
  unfolding Users.get
  users_get-Keeps user_id = search keeps_rules

  pub get_by_email-Keeps : (f : String → String) (e : String) → Keeps On (Users.get_by_email f e)
  unfolding Users.get_by_email
  get_by_email-Keeps f e = search keeps_rules

  pub mark_email_verified-Keeps : (n u t : ℕ) → Keeps On (Users.mark_email_verified n u t)
  unfolding Users.mark_email_verified
  mark_email_verified-Keeps n u t = search keeps_rules

  pub users_create-Keeps :
      (f : String → String) (n i : ℕ) (e : String) (d : Option String) (b : Bool) (v : Option ℕ)
      → Keeps On (Users.create f n i e d b v)
  unfolding Users.create
  users_create-Keeps f n i e d b v = search keeps_rules depth 12

  pub outbox_add-Keeps :
      (n i o : ℕ) (e : DomainEvent) (t : String) (a : ℕ) → Keeps On (Outbox.add n i o e t a)
  unfolding Outbox.add
  outbox_add-Keeps n i o e t a = search keeps_rules

  pub actors_create-Keeps : (n i : ℕ) (a b : Option String) → Keeps On (Actors.create n i a b)
  unfolding Actors.create
  actors_create-Keeps n i a b = search keeps_rules

  pub actors_get-Keeps : (i : ℕ) → Keeps On (Actors.get i)
  unfolding Actors.get
  actors_get-Keeps i = search keeps_rules

  pub mark_merged-Keeps : (a u t : ℕ) → Keeps On (Actors.mark_merged a u t)
  unfolding Actors.mark_merged
  mark_merged-Keeps a u t = search keeps_rules

  pub attribute_engagement-Keeps : (a u : ℕ) → Keeps On (Actors.attribute_engagement a u)
  unfolding Actors.attribute_engagement
  attribute_engagement-Keeps a u = search keeps_rules

  pub attribute_recent_views-Keeps : (a u : ℕ) → Keeps On (Actors.attribute_recent_views a u)
  unfolding Actors.attribute_recent_views
  attribute_recent_views-Keeps a u = search keeps_rules depth 8

  active_or_raise-Keeps :
      (s : UserStatus)
      → Keeps On (elim s [
        | UserStatus.active ↦ pure tt
        | _ ↦ raise (Error.platform ErrorCategory.user_inactive)
      ])
  active_or_raise-Keeps UserStatus.active = Keeps-pure tt
  active_or_raise-Keeps _ = Keeps-raise _

  pub assert_active-Keeps : (user : User) → Keeps On (assert_active user)
  unfolding assert_active
  assert_active-Keeps user = active_or_raise-Keeps user.status

  module _ (self : AuthService) (at : Instant) where
    pub stage_merged-Keeps : (a u m : ℕ) → Keeps On (stage_merged self at a u m)
    unfolding stage_merged
    stage_merged-Keeps a u m = search (keeps_rules, outbox_add-Keeps)

    pub claim_history-Keeps : (a u : ℕ) → Keeps On (claim_history self at a u)
    unfolding claim_history
    claim_history-Keeps a u = search (
      keeps_rules, attribute_engagement-Keeps, attribute_recent_views-Keeps, mark_merged-Keeps,
      stage_merged-Keeps,
    )

    pub claim_unmerged-Keeps :
        (a u : ℕ) (o : Option AnonymousActor) → Keeps On (claim_unmerged self at a u o)
    unfolding claim_unmerged
    claim_unmerged-Keeps a u none = search keeps_rules
    claim_unmerged-Keeps a u (some actor) = search (keeps_rules, claim_history-Keeps)

    pub merge_actor-Keeps : (a : ℕ) (user : User) → Keeps On (merge_actor self at a user)
    unfolding merge_actor
    merge_actor-Keeps a user = search (keeps_rules, actors_get-Keeps, claim_unmerged-Keeps)

    pub actor_for_user-Keeps : (user : User) → Keeps On (actor_for_user self at user)
    unfolding actor_for_user
    actor_for_user-Keeps user = search (keeps_rules, actors_create-Keeps, mark_merged-Keeps)

    pub register-Keeps : (e : String) (d : Option String) → Keeps On (register self at e d)
    unfolding register
    register-Keeps e d = search (keeps_rules, users_create-Keeps, outbox_add-Keeps)
