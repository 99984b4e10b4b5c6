-- ===== src/Auth/Console.antt =====
-- The admin console: `admin_password_login` and `set_admin_password`.
pub mod Lockout
pub mod Runs
pub mod Passwords
use blog_post.Base.{ℕ, ◌-◌, Bool, true, false, String, Option, none, some, not, leb, if◌then◌else◌}
use blog_post.Errors.Category.{ErrorCategory}
use blog_post.Database.Identity.{User, RevokedReason}
use blog_post.Database.Exec.{Error, Exec, pure, raise, draw, begin, raise_if, ◌>>=◌, ◌>>◌}
use blog_post.Repository.Users
use blog_post.Repository.AdminLogins
use blog_post.Repository.RefreshTokens
use blog_post.Auth.Service.{AuthService, Instant, Client, SignInResult, seconds, open_session}

-- How the transaction of a console sign-in ends when it does not raise.
pub data ConsoleOutcome : Type 0 where
  locked_out failed : ConsoleOutcome
  signed_in : SignInResult → ConsoleOutcome

abbrev pub may_hold_password : Option User → Bool
may_hold_password none = false
may_hold_password (some user) = user.is_admin

module _ (self : AuthService) (at : Instant) where
  -- Only a real admin's stored hash is compared.
  unfoldable pub stored_hash : Option User → Exec (Option ℕ)
  stored_hash none = pure none
  stored_hash (some user) = if user.is_admin then Users.get_password_hash user.id else pure none

  unfoldable pub log_attempt : String → Bool → Client → Exec Unit
  log_attempt email succeeded client = do
    attempt_id ← draw self.new_id
    AdminLogins.record_attempt self.lower_btrim attempt_id email succeeded at.clock client.client_ip
        client.user_agent

  -- `_complete_admin_login` for a verified password.
  unfoldable pub settle : Bool → Option User → ℕ → Client → Exec ConsoleOutcome
  settle true (some user) actor_id client = do
    session ← open_session self at user actor_id client false
    pure (ConsoleOutcome.signed_in session)
  settle _ _ actor_id client = pure ConsoleOutcome.failed

  unfoldable pub check_password : String → String → ℕ → Client → Exec ConsoleOutcome
  unfolding stored_hash log_attempt settle
  check_password email password actor_id client = do
    user ← Users.get_by_email self.lower_btrim email
    stored ← stored_hash user
    log_attempt email (self.verify_password password stored) client
    settle (self.verify_password password stored) user actor_id client

  unfoldable pub window_start : ℕ
  window_start = at.clock - seconds self.admin_lockout_window_s

  unfoldable pub gate : ℕ → String → String → ℕ → Client → Exec ConsoleOutcome
  unfolding check_password
  gate failures email password actor_id client =
      if leb self.admin_max_failed_logins failures
      then (do log_attempt email false client; pure ConsoleOutcome.locked_out)
      else check_password email password actor_id client

  -- The transaction of `admin_password_login`.
  unfoldable pub console_block : String → String → ℕ → Client → Exec ConsoleOutcome
  unfolding gate window_start
  console_block email password actor_id client = do
    failures ← AdminLogins.recent_failures self.lower_btrim email window_start
    gate failures email password actor_id client

  unfoldable pub answer : ConsoleOutcome → Exec SignInResult
  answer ConsoleOutcome.locked_out = raise (Error.platform ErrorCategory.admin_locked_out)
  answer ConsoleOutcome.failed = raise (Error.platform ErrorCategory.admin_credentials_invalid)
  answer (ConsoleOutcome.signed_in session) = pure session

  unfoldable pub admin_password_login : String → String → ℕ → Client → Exec SignInResult
  unfolding console_block answer
  admin_password_login email password actor_id client =
      begin (console_block email password actor_id client) >>= answer

  unfoldable pub set_admin_password : ℕ → String → Exec Unit
  set_admin_password user_id password = begin (do
    user ← Users.get user_id
    raise_if (not (may_hold_password user)) (Error.platform ErrorCategory.admin_required)
    password_hash ← draw (self.hash_password password)
    Users.set_password at.db_now user_id password_hash at.clock
    n ← RefreshTokens.revoke_all_for_user user_id RevokedReason.password_changed at.clock
    pure tt)
