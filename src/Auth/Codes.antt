-- ===== src/Auth/Codes.antt =====
-- Sign-in by a one-time code: `request_otp`, `verify_otp` and what they call.
pub mod Outcomes
pub mod Refusals
pub mod Fresh
pub mod Guesses
use blog_post.Base.{
  ℕ, ◌+◌, ◌/◌, ◌%◌, max, Bool, true, false, String, Option, none, some, ◌∷◌, ◌&&◌, ltb, ◌==◌,
  str_eq, if◌then◌else◌,
}
use blog_post.Errors.Category.{ErrorCategory}
use blog_post.Database.Identity.{AuthPurpose, User, OtpChallenge}
use blog_post.Database.Events.{DomainEvent}
use blog_post.Database.Exec.{
  Message, ok, Error, Exec, pure, raise, draw, begin, raise_if, ◌>>=◌, ◌>>◌,
}
use blog_post.Repository.Users
use blog_post.Repository.Otp
use blog_post.Repository.Otp.{Outcome}
use blog_post.Repository.Outbox
use blog_post.Auth.Service.{
  SendResult, AuthService, Instant, Client, SignInResult, seconds, open_session, register,
}

pub record OtpIssued : Type 0 where
  pub token_ref : ℕ
  pub expires_at : ℕ
  pub resend_after : ℕ

abbrev pub id_of : Option User → Option ℕ
id_of none = none
id_of (some user) = some user.id

-- Python's `round` of a quotient by 60: a half goes to the even neighbour.
unfoldable pub round_minutes : ℕ → ℕ
round_minutes s =
    let q = s / 60 in
    let r = s % 60 in
    if ltb r 30 then q else if ltb 30 r then q + 1 else if q % 2 == 0 then q else q + 1

abbrev pub is_unconfigured : ErrorCategory → Bool
is_unconfigured ErrorCategory.email_not_configured = true
is_unconfigured _ = false

module _ (self : AuthService) (at : Instant) where
  -- The cooldown of a challenge that is still live.
  unfoldable pub throttle : Option OtpChallenge → Exec Unit
  throttle none = pure tt
  throttle (some existing) =
      raise_if (ltb at.clock (existing.created_at + seconds self.otp.resend_cooldown_seconds))
        (Error.platform ErrorCategory.otp_throttled)

  -- The transaction of `request_otp`, which carries the code and the challenge out.
  unfoldable pub issue_challenge :
      String → AuthPurpose → Option String → Exec (String × OtpChallenge)
  unfolding throttle
  issue_challenge email purpose client_ip = do
    existing ← Otp.latest_live self.lower_btrim email purpose
    throttle existing
    code ← draw (self.new_otp_code self.otp.length)
    challenge_id ← draw self.new_id
    challenge ←
        Otp.create self.lower_btrim at.db_now challenge_id email purpose (self.hash_otp code)
          (at.clock + seconds self.otp.ttl_seconds) self.otp.max_attempts client_ip
    existing_user ← Users.get_by_email self.lower_btrim email
    event_id ← draw self.new_id
    Outbox.add at.db_now event_id at.clock
        (DomainEvent.otp_requested (id_of existing_user) email purpose challenge.id
          (at.clock + seconds self.otp.ttl_seconds) at.clock)
        "otp_challenge" challenge.id
    pure (code, challenge)

  unfoldable pub otp_message : String → String → Message
  unfolding round_minutes
  otp_message email code = record {
    to = email;
    code = code;
    minutes = max 1 (round_minutes self.otp.ttl_seconds);
  }

  unfoldable pub accept : Message → Exec Unit
  accept m w = (ok tt, record w { mail = m ∷ w.mail })

  unfoldable pub delivered : Message → SendResult → Exec Unit
  unfolding accept
  delivered m SendResult.sent = accept m
  delivered m SendResult.refused = raise (Error.platform ErrorCategory.email_send_failed)
  delivered m (SendResult.unavailable c) =
      if is_unconfigured c && self.otp.log_codes then pure tt else raise (Error.platform c)

  -- `_deliver_otp`; the development log line is left out.
  unfoldable pub deliver_otp : String → String → Exec Unit
  unfolding delivered otp_message
  deliver_otp email code = let m = otp_message email code in delivered m (self.send m)

  unfoldable pub request_otp : String → AuthPurpose → Option String → Exec OtpIssued
  unfolding issue_challenge deliver_otp
  request_otp email purpose client_ip = do
    (code, challenge) ← begin (issue_challenge email purpose client_ip)
    deliver_otp email code
    pure (record {
      token_ref = challenge.id;
      expires_at = at.clock + seconds self.otp.ttl_seconds;
      resend_after = at.clock + seconds self.otp.resend_cooldown_seconds;
    })

  -- `_is_dev_bypass`; codes are taken as ASCII texts, of which the comparison does not raise.
  unfoldable pub is_dev_bypass : String → Bool
  is_dev_bypass code = elim self.otp.dev_bypass_code [ none ↦ false | some c ↦ str_eq code c ]

  unfoldable pub found_or_registered : String → Option User → Exec (User × Bool)
  found_or_registered email none = do user ← register self at email none; pure (user, true)
  found_or_registered email (some user) = do
    Users.mark_email_verified at.db_now user.id at.clock
    pure (user, false)

  -- `_complete_otp_sign_in`
  unfoldable pub complete_otp_sign_in : String → ℕ → Client → Exec SignInResult
  unfolding found_or_registered
  complete_otp_sign_in email actor_id client = do
    found ← Users.get_by_email self.lower_btrim email
    (user, created) ← found_or_registered email found
    open_session self at user actor_id client created

-- How the transaction of a sign-in ends when it does not raise: with a session, or with a refusal
-- that is raised after the commit.
pub data Attempt (R A : Type 0) : Type 0 where
  signed : A → Attempt R A
  rejected : R → Attempt R A

abbrev pub error_of : Outcome → Error
error_of Outcome.missing = Error.platform ErrorCategory.otp_invalid
error_of Outcome.mismatch = Error.platform ErrorCategory.otp_invalid
error_of Outcome.expired = Error.platform ErrorCategory.otp_expired
error_of Outcome.exhausted = Error.platform ErrorCategory.otp_attempts_exceeded
error_of Outcome.matched = Error.key_error

module _ (self : AuthService) (at : Instant) where
  unfoldable pub after_guess : String → ℕ → Client → Outcome → Exec (Attempt Outcome SignInResult)
  after_guess email actor_id client Outcome.matched = do
    signed_in ← complete_otp_sign_in self at email actor_id client
    pure (Attempt.signed signed_in)
  after_guess email actor_id client outcome = pure (Attempt.rejected outcome)

  -- The transaction of `verify_otp` where the code is not the bypass code.
  unfoldable pub guess_code : String → String → ℕ → Client → Exec (Attempt Outcome SignInResult)
  unfolding after_guess
  guess_code email code actor_id client = do
    (challenge, outcome) ←
        Otp.consume_if_matching self.lower_btrim email AuthPurpose.login (self.hash_otp code)
          at.clock
    after_guess email actor_id client outcome

  unfoldable pub answer : Attempt Outcome SignInResult → Exec SignInResult
  answer (Attempt.signed s) = pure s
  answer (Attempt.rejected outcome) = raise (error_of outcome)

  unfoldable pub verify_otp : String → String → ℕ → Client → Exec SignInResult
  unfolding guess_code is_dev_bypass answer
  verify_otp email code actor_id client =
      if is_dev_bypass self at code
      then begin (complete_otp_sign_in self at email actor_id client)
      else begin (guess_code email code actor_id client) >>= answer
