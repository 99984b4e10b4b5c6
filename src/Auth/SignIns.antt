-- ===== src/Auth/SignIns.antt =====
-- Each sign-in by a code or a profile keeps the token families sound, whether it answers or raises.
pub mod Passwords
use blog_post.Base.{ℕ, Bool, true, String, Option, none, some}
use blog_post.Database.Identity.{AuthPurpose, User, OAuthProfile, OtpChallenge}
use blog_post.Database.Exec.{Message}
use blog_post.Database.Exec.Ensures.{
  Keeps, Ensures-begin, Keeps-pure, Keeps-raise, Keeps-bind, Keeps-select, Keeps-if, Keeps-draw,
  keeps_rules,
}
use blog_post.Repository.Otp
use blog_post.Repository.Otp.{Outcome}
use blog_post.Repository.OAuth
use blog_post.Repository.AdminLogins
use blog_post.Repository.Users
use blog_post.Repository.RefreshTokens
use blog_post.Auth.Service.{AuthService, Instant, Client, SendResult, open_session}
use blog_post.Auth.Untouched.{
  On, users_get-Keeps, get_by_email-Keeps, mark_email_verified-Keeps, outbox_add-Keeps,
  assert_active-Keeps, merge_actor-Keeps, register-Keeps,
}
use blog_post.Auth.Codes
use blog_post.Auth.Codes.{Attempt}
use blog_post.Auth.Providers
use blog_post.Auth.Console
use blog_post.Auth.Console.{ConsoleOutcome}
use blog_post.Auth.Rotation.Families.{Sound}
use blog_post.Auth.Rotation.Issued.{issue_root-Sound, revoke_where-Sound}

module _ (self : AuthService) (at : Instant) where
  pub open_session-Sound :
      (user : User) (a : ℕ) (c : Client) (b : Bool)
      → Keeps (On Sound) (open_session self at user a c b)
  unfolding open_session
  open_session-Sound user a c b =
      search (keeps_rules, assert_active-Keeps, merge_actor-Keeps, issue_root-Sound)

  found_or_registered-Sound :
      (e : String) (o : Option User) → Keeps (On Sound) (Codes.found_or_registered self at e o)
  unfolding Codes.found_or_registered
  found_or_registered-Sound e none = search (keeps_rules, register-Keeps)
  found_or_registered-Sound e (some u) = search (keeps_rules, mark_email_verified-Keeps)

  complete_otp-Sound :
      (e : String) (a : ℕ) (c : Client)
      → Keeps (On Sound) (Codes.complete_otp_sign_in self at e a c)
  unfolding Codes.complete_otp_sign_in
  complete_otp-Sound e a c = Keeps-bind _ _ (get_by_email-Keeps Sound self.lower_btrim e) λ found.
      Keeps-bind _ _ (found_or_registered-Sound e found) λ p. open_session-Sound p.0 a c p.1

  after_guess-Sound :
      (e : String) (a : ℕ) (c : Client) (o : Outcome)
      → Keeps (On Sound) (Codes.after_guess self at e a c o)
  unfolding Codes.after_guess
  after_guess-Sound e a c Outcome.matched = search (keeps_rules, complete_otp-Sound)
  after_guess-Sound e a c _ = Keeps-pure _

  consume_target-Sound :
      (h n : ℕ) (o : Option OtpChallenge) → Keeps (On Sound) (Otp.consume_target h n o)
  unfolding Otp.consume_target
  consume_target-Sound h n none = search keeps_rules
  consume_target-Sound h n (some c) = search keeps_rules

  guess_code-Sound :
      (e code : String) (a : ℕ) (c : Client)
      → Keeps (On Sound) (Codes.guess_code self at e code a c)
  unfolding Codes.guess_code Otp.consume_if_matching Otp.latest_live
  guess_code-Sound e code a c =
      Keeps-bind _ _ (Keeps-bind _ _ (Keeps-select _) (consume_target-Sound _ at.clock))
        λ p. after_guess-Sound e a c p.1

  codes_answer-Sound : (x : Attempt Outcome _) → Keeps (On Sound) (Codes.answer self at x)
  unfolding Codes.answer
  codes_answer-Sound (Attempt.signed s) = Keeps-pure s
  codes_answer-Sound (Attempt.rejected o) = Keeps-raise _

  pub verify_otp-Sound :
      (e code : String) (a : ℕ) (c : Client)
      → Keeps (On Sound) (Codes.verify_otp self at e code a c)
  unfolding Codes.verify_otp
  verify_otp-Sound e code a c =
      Keeps-if (Codes.is_dev_bypass self at code) _ _ (Ensures-begin (complete_otp-Sound e a c))
        (Keeps-bind _ _ (Ensures-begin (guess_code-Sound e code a c)) codes_answer-Sound)

  throttle-Sound : (o : Option OtpChallenge) → Keeps (On Sound) (Codes.throttle self at o)
  unfolding Codes.throttle
  throttle-Sound none = search keeps_rules
  throttle-Sound (some c) = search keeps_rules

  otp_create-Sound :
      (n i : ℕ) (e : String) (p : AuthPurpose) (h x m : ℕ) (ip : Option String)
      → Keeps (On Sound) (Otp.create self.lower_btrim n i e p h x m ip)
  unfolding Otp.create
  otp_create-Sound n i e p h x m ip = search keeps_rules depth 8

  latest_live-Sound :
      (e : String) (p : AuthPurpose) → Keeps (On Sound) (Otp.latest_live self.lower_btrim e p)
  unfolding Otp.latest_live
  latest_live-Sound e p = search keeps_rules

  issue_challenge-Sound :
      (e : String) (p : AuthPurpose) (ip : Option String)
      → Keeps (On Sound) (Codes.issue_challenge self at e p ip)
  unfolding Codes.issue_challenge
  issue_challenge-Sound e p ip =
      search
        (
          keeps_rules, latest_live-Sound, throttle-Sound, otp_create-Sound, get_by_email-Keeps,
          outbox_add-Keeps,
        )
        depth 14

  delivered-Sound : (m : Message) (r : SendResult) → Keeps (On Sound) (Codes.delivered self at m r)
  unfolding Codes.delivered Codes.accept
  delivered-Sound m SendResult.sent = record { at = λ w s. s }
  delivered-Sound m SendResult.refused = search keeps_rules
  delivered-Sound m (SendResult.unavailable c) = search keeps_rules

  pub request_otp-Sound :
      (e : String) (p : AuthPurpose) (ip : Option String)
      → Keeps (On Sound) (Codes.request_otp self at e p ip)
  unfolding Codes.request_otp Codes.deliver_otp
  request_otp-Sound e p ip =
      Keeps-bind _ _ (Ensures-begin (issue_challenge-Sound e p ip))
        λ q. Keeps-bind _ _ (delivered-Sound _ _) λ _. Keeps-pure _

  linked_user-Sound : (o : Option ℕ) → Keeps (On Sound) (Providers.linked_user self at o)
  unfolding Providers.linked_user
  linked_user-Sound none = search keeps_rules
  linked_user-Sound (some u) = search (keeps_rules, users_get-Keeps)

  oauth_found-Sound :
      (e : String) (d : Option String) (o : Option User)
      → Keeps (On Sound) (Providers.found_or_registered self at e d o)
  unfolding Providers.found_or_registered
  oauth_found-Sound e d none = search (keeps_rules, register-Keeps)
  oauth_found-Sound e d (some u) = search keeps_rules

  oauth_link-Sound :
      (i u : ℕ) (p : _) (s : String) (e : Option String) → Keeps (On Sound) (OAuth.link i u p s e)
  unfolding OAuth.link
  oauth_link-Sound i u p s e = search keeps_rules depth 8

  link_verified-Sound :
      (p : OAuthProfile) (e : String) → Keeps (On Sound) (Providers.link_verified self at p e)
  unfolding Providers.link_verified
  link_verified-Sound p e = Keeps-bind _ _ (get_by_email-Keeps Sound self.lower_btrim e) λ known.
      Keeps-bind _ _ (oauth_found-Sound e p.display_name known) λ q.
        Keeps-bind _ _ (Keeps-draw _)
          λ i. Keeps-bind _ _ (oauth_link-Sound i _ _ _ _) λ _. Keeps-pure _

  link_by_email-Sound :
      (p : OAuthProfile) (e : Option String) (v : Bool)
      → Keeps (On Sound) (Providers.link_by_email self at p e v)
  unfolding Providers.link_by_email
  link_by_email-Sound p (some e) true = link_verified-Sound p e
  link_by_email-Sound p _ _ = Keeps-raise _

  resolve_account-Sound :
      (p : OAuthProfile) (o : Option User)
      → Keeps (On Sound) (Providers.resolve_account self at p o)
  unfolding Providers.resolve_account
  resolve_account-Sound p none = link_by_email-Sound p p.email p.email_verified
  resolve_account-Sound p (some u) = Keeps-pure _

  pub complete_oauth-Sound :
      (p : OAuthProfile) (a : ℕ) (c : Client)
      → Keeps (On Sound) (Providers.complete_oauth self at p a c)
  unfolding Providers.complete_oauth Providers.oauth_block OAuth.find_user_id
  complete_oauth-Sound p a c = Ensures-begin (
      Keeps-bind _ _ (Keeps-select _) λ user_id.
        Keeps-bind _ _ (linked_user-Sound user_id) λ linked.
          Keeps-bind _ _ (resolve_account-Sound p linked) λ q. open_session-Sound q.0 a c q.1)
