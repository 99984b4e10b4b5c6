-- ===== src/Auth/Service.antt =====
-- `AuthService`: its collaborators and settings, the results, and the methods under "Internals".
-- The ports of ports/services.py (hashers, codecs, the mail provider, the generator of ids) are
-- fields: a random source is a function of the number of the draw.
pub mod Merging
use blog_post.Base.{
  ℕ, ◌+◌, ◌*◌, Bool, false, String, Option, none, some, or_else, is_none, ◌==◌, if◌then◌else◌,
}
use blog_post.Errors.Category.{ErrorCategory}
use blog_post.Database.Identity.{UserStatus, User, AnonymousActor}
use blog_post.Database.Events.{DomainEvent}
use blog_post.Database.Exec.{Message, Error, Exec, pure, raise, draw, or_else_return, ◌>>=◌, ◌>>◌}
use blog_post.Repository.Users
use blog_post.Repository.Actors
use blog_post.Repository.RefreshTokens
use blog_post.Repository.Outbox

-- What the mail provider answers: an `EmailResult` with its flag `sent`, or a raised error.
pub data SendResult : Type 0 where
  sent refused : SendResult
  unavailable : ErrorCategory → SendResult

-- `OtpSettings`; an empty bypass code is `none`.
pub record OtpSettings : Type 0 where
  pub length : ℕ
  pub ttl_seconds : ℕ
  pub max_attempts : ℕ
  pub resend_cooldown_seconds : ℕ
  pub log_codes : Bool
  pub dev_bypass_code : Option String

pub record AuthService : Type 0 where
  pub lower_btrim : String → String
  pub new_id : ℕ → ℕ
  pub new_otp_code : ℕ → ℕ → String
  pub new_token_secret : ℕ → String
  pub hash_otp : String → ℕ
  pub hash_token : String → ℕ
  pub hash_password : String → ℕ → ℕ
  pub verify_password : String → Option ℕ → Bool
  pub issue_access : ℕ → ℕ → Bool → ℕ → ℕ → String
  pub issue_actor : ℕ → ℕ → String
  pub send : Message → SendResult
  pub otp : OtpSettings
  pub refresh_ttl_seconds : ℕ
  pub access_ttl_seconds : ℕ
  pub admin_max_failed_logins : ℕ
  pub admin_lockout_window_s : ℕ

-- The two clocks of a request: the injected one, and `now()` of the database.
pub record Instant : Type 0 where
  pub clock : ℕ
  pub db_now : ℕ

pub record Client : Type 0 where
  pub user_agent : Option String
  pub client_ip : Option String

-- `timedelta(seconds=n)`, in microseconds.
abbrev pub seconds : ℕ → ℕ
seconds n = n * 1000000

pub record TokenPair : Type 0 where
  pub access_token : String
  pub refresh_token : String
  pub expires_in : ℕ
  pub actor_token : String

pub record SignInResult : Type 0 where
  pub tokens : TokenPair
  pub user : User
  pub created : Bool
  pub merged_events : ℕ

-- `_assert_active`
unfoldable pub assert_active : User → Exec Unit
assert_active user = elim user.status [
  | UserStatus.active ↦ pure tt
  | _ ↦ raise (Error.platform ErrorCategory.user_inactive)
]

module _ (self : AuthService) (at : Instant) where
  unfoldable pub stage_merged : ℕ → ℕ → ℕ → Exec Unit
  stage_merged actor_id user_id merged = if merged == 0 then pure tt else do
    event_id ← draw self.new_id
    Outbox.add at.db_now event_id at.clock
        (DomainEvent.anonymous_actor_merged actor_id user_id merged at.clock) "user" user_id

  unfoldable pub claim_history : ℕ → ℕ → Exec ℕ
  unfolding stage_merged
  claim_history actor_id user_id = do
    merged ← Actors.attribute_engagement actor_id user_id
    n ← Actors.attribute_recent_views actor_id user_id
    Actors.mark_merged actor_id user_id at.clock
    stage_merged actor_id user_id merged
    pure merged

  unfoldable pub claim_unmerged : ℕ → ℕ → Option AnonymousActor → Exec ℕ
  unfolding claim_history
  claim_unmerged actor_id user_id none = pure 0
  claim_unmerged actor_id user_id (some actor) =
      if is_none actor.merged_into_user_id then claim_history actor_id user_id else pure 0

  -- `_merge_actor`
  unfoldable pub merge_actor : ℕ → User → Exec ℕ
  unfolding claim_unmerged
  merge_actor actor_id user =
      or_else_return 0 (do actor ← Actors.get actor_id; claim_unmerged actor_id user.id actor)

  -- `_actor_for_user`
  unfoldable pub actor_for_user : User → Exec ℕ
  actor_for_user user = do
    actor_id ← draw self.new_id
    actor ← Actors.create at.db_now actor_id none none
    Actors.mark_merged actor_id user.id at.clock
    pure actor_id

  -- `token_id or self._ids.new_id()`
  unfoldable pub drawn_unless : Option ℕ → Exec ℕ
  drawn_unless none = draw self.new_id
  drawn_unless (some token_id) = pure token_id

  -- `_issue_pair`
  unfoldable pub issue_pair : User → ℕ → Client → Option ℕ → Option ℕ → Exec TokenPair
  unfolding drawn_unless
  issue_pair user actor_id client token_id family_id = do
    access_token ← draw (self.issue_access user.id actor_id user.is_admin at.clock)
    secret ← draw self.new_token_secret
    resolved_id ← drawn_unless token_id
    row ←
        RefreshTokens.create at.db_now resolved_id user.id (or_else family_id resolved_id)
          (self.hash_token secret) (at.clock + seconds self.refresh_ttl_seconds) client.user_agent
          client.client_ip
    pure (record {
      access_token = access_token;
      refresh_token = secret;
      expires_in = self.access_ttl_seconds;
      actor_token = self.issue_actor actor_id at.clock;
    })

  -- What every way to sign in ends with.
  unfoldable pub open_session : User → ℕ → Client → Bool → Exec SignInResult
  unfolding merge_actor issue_pair
  open_session user actor_id client created = do
    assert_active user
    merged ← merge_actor actor_id user
    tokens ← issue_pair user actor_id client none none
    pure (record { tokens = tokens; user = user; created = created; merged_events = merged })

  -- Creation of an account that is not an admin's, with its event.
  unfoldable pub register : String → Option String → Exec User
  register email display_name = do
    user_id ← draw self.new_id
    user ← Users.create self.lower_btrim at.db_now user_id email display_name false (some at.clock)
    event_id ← draw self.new_id
    Outbox.add at.db_now event_id at.clock
        (DomainEvent.user_registered user.id user.email user.is_admin at.clock) "user" user.id
    pure user
