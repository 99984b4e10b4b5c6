-- ===== src/Auth/SignIns/Passwords.antt =====
-- Each request at the console keeps the token families sound, whether it answers or raises.
use blog_post.Base.{ℕ, Bool, true, String, Option, none, some}
use blog_post.Database.Identity.{User}
use blog_post.Database.Exec.Ensures.{
  Keeps, Ensures-begin, Keeps-pure, Keeps-raise, Keeps-bind, Keeps-select, keeps_rules,
}
use blog_post.Repository.AdminLogins
use blog_post.Repository.Users
use blog_post.Repository.RefreshTokens
use blog_post.Auth.Service.{AuthService, Instant, Client}
use blog_post.Auth.Untouched.{On, users_get-Keeps, get_by_email-Keeps}
use blog_post.Auth.Console
use blog_post.Auth.Console.{ConsoleOutcome}
use blog_post.Auth.Rotation.Families.{Sound}
use blog_post.Auth.Rotation.Issued.{revoke_where-Sound}
use blog_post.Auth.SignIns.{open_session-Sound}

module _ (self : AuthService) (at : Instant) where
  log_attempt-Sound :
      (e : String) (b : Bool) (c : Client) → Keeps (On Sound) (Console.log_attempt self at e b c)
  unfolding Console.log_attempt AdminLogins.record_attempt
  log_attempt-Sound e b c = search keeps_rules depth 8

  stored_hash-Sound : (o : Option User) → Keeps (On Sound) (Console.stored_hash self at o)
  unfolding Console.stored_hash Users.get_password_hash
  stored_hash-Sound none = search keeps_rules
  stored_hash-Sound (some u) = search keeps_rules

  settle-Sound :
      (b : Bool) (o : Option User) (a : ℕ) (c : Client)
      → Keeps (On Sound) (Console.settle self at b o a c)
  unfolding Console.settle
  settle-Sound true (some u) a c = search (keeps_rules, open_session-Sound)
  settle-Sound _ _ a c = Keeps-pure _

  check_password-Sound :
      (e p : String) (a : ℕ) (c : Client)
      → Keeps (On Sound) (Console.check_password self at e p a c)
  unfolding Console.check_password
  check_password-Sound e p a c =
      search (keeps_rules, get_by_email-Keeps, stored_hash-Sound, log_attempt-Sound, settle-Sound)

  gate-Sound :
      (n : ℕ) (e p : String) (a : ℕ) (c : Client)
      → Keeps (On Sound) (Console.gate self at n e p a c)
  unfolding Console.gate
  gate-Sound n e p a c = search (keeps_rules, log_attempt-Sound, check_password-Sound)

  console_answer-Sound : (x : ConsoleOutcome) → Keeps (On Sound) (Console.answer self at x)
  unfolding Console.answer
  console_answer-Sound ConsoleOutcome.locked_out = Keeps-raise _
  console_answer-Sound ConsoleOutcome.failed = Keeps-raise _
  console_answer-Sound (ConsoleOutcome.signed_in s) = Keeps-pure s

  pub admin_password_login-Sound :
      (e p : String) (a : ℕ) (c : Client)
      → Keeps (On Sound) (Console.admin_password_login self at e p a c)
  unfolding Console.admin_password_login Console.console_block AdminLogins.recent_failures
  admin_password_login-Sound e p a c =
      Keeps-bind _ _ (Ensures-begin (Keeps-bind _ _ (Keeps-select _) λ n. gate-Sound n e p a c))
        console_answer-Sound

  pub set_admin_password-Sound :
      (u : ℕ) (p : String) → Keeps (On Sound) (Console.set_admin_password self at u p)
  unfolding Console.set_admin_password Users.set_password RefreshTokens.revoke_all_for_user
  set_admin_password-Sound u p =
      Ensures-begin {Q = λ _. On Sound} {E = On Sound}
        (search (keeps_rules, users_get-Keeps, revoke_where-Sound) depth 14)
