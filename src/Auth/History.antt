-- ===== src/Auth/History.antt =====
-- Histories: any sequence of requests, each answered or refused.
use blog_post.Base.{ℕ, Bool, String, Option, List, [], ◌∷◌}
use blog_post.Database.Identity.{AuthPurpose, OAuthProfile}
use blog_post.Database.Exec.{World}
use blog_post.Database.Exec.Ensures.{kept}
use blog_post.Auth.Service.{AuthService, Instant, Client}
use blog_post.Auth.SignIns.{verify_otp-Sound, request_otp-Sound, complete_oauth-Sound}
use blog_post.Auth.SignIns.Passwords.{admin_password_login-Sound, set_admin_password-Sound}
use blog_post.Auth.Codes.{request_otp, verify_otp}
use blog_post.Auth.Providers.{complete_oauth}
use blog_post.Auth.Console.{admin_password_login, set_admin_password}
use blog_post.Auth.Rotation.{refresh, revoke}
use blog_post.Auth.Rotation.Families.{Sound}
use blog_post.Auth.Rotation.Single.{refresh-Sound, revoke-Sound}

-- The public methods of the service with their arguments.
pub data Request : Type 0 where
  ask_code : String → AuthPurpose → Option String → Request
  enter_code : String → String → ℕ → Client → Request
  enter_profile : OAuthProfile → ℕ → Client → Request
  enter_password : String → String → ℕ → Client → Request
  change_password : ℕ → String → Request
  rotate : String → Client → Request
  sign_out : Option String → ℕ → Bool → Request

module _ (self : AuthService) where
  -- The world after a request, whatever it answered.
  unfoldable pub serve : Instant → Request → World → World
  serve at (Request.ask_code e p ip) w = (request_otp self at e p ip w).1
  serve at (Request.enter_code e code a c) w = (verify_otp self at e code a c w).1
  serve at (Request.enter_profile p a c) w = (complete_oauth self at p a c w).1
  serve at (Request.enter_password e p a c) w = (admin_password_login self at e p a c w).1
  serve at (Request.change_password u p) w = (set_admin_password self at u p w).1
  serve at (Request.rotate t c) w = (refresh self at t c w).1
  serve at (Request.sign_out t u everywhere) w = (revoke self at t u everywhere w).1

  unfoldable pub serve_all : List (Instant × Request) → World → World
  unfolding serve
  serve_all [] w = w
  serve_all ((at, r) ∷ rest) w = serve_all rest (serve at r w)

module _ (self : AuthService) where
  serve-Sound :
      (at : Instant) (r : Request) (w : World)
      → Sound w.db.refresh_tokens
      → Sound (serve self at r w).db.refresh_tokens
  unfolding serve
  serve-Sound at (Request.ask_code e p ip) w s = kept (request_otp-Sound self at e p ip) w s
  serve-Sound at (Request.enter_code e code a c) w s =
      kept (verify_otp-Sound self at e code a c) w s
  serve-Sound at (Request.enter_profile p a c) w s = kept (complete_oauth-Sound self at p a c) w s
  serve-Sound at (Request.enter_password e p a c) w s =
      kept (admin_password_login-Sound self at e p a c) w s
  serve-Sound at (Request.change_password u p) w s = kept (set_admin_password-Sound self at u p) w s
  serve-Sound at (Request.rotate t c) w s = kept (refresh-Sound self at t c) w s
  serve-Sound at (Request.sign_out t u everywhere) w s =
      kept (revoke-Sound self at t u everywhere) w s

  -- From sound families every sequence of requests, at whatever times and answered or refused,
  -- ends in sound families: the identifiers of the tokens are unique, every family is named by a
  -- token of the table, and no family has two tokens that are neither spent nor revoked.
  pub serve_all-Sound :
      (requests : List (Instant × Request)) (w : World)
      → Sound w.db.refresh_tokens
      → Sound (serve_all self requests w).db.refresh_tokens
  unfolding serve_all
  serve_all-Sound [] w s = s
  serve_all-Sound ((at, r) ∷ rest) w s =
      serve_all-Sound rest (serve self at r w) (serve-Sound at r w s)
