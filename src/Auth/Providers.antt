-- ===== src/Auth/Providers.antt =====
-- `complete_oauth`: sign-in with a profile that a provider has verified.
pub mod Linked
pub mod Unverified
use blog_post.Base.{ℕ, Bool, true, false, String, Option, none, some}
use blog_post.Errors.Category.{ErrorCategory}
use blog_post.Database.Identity.{User, OAuthProfile}
use blog_post.Database.Exec.{Error, Exec, pure, raise, draw, begin, ◌>>=◌, ◌>>◌}
use blog_post.Repository.Users
use blog_post.Repository.OAuth
use blog_post.Auth.Service.{AuthService, Instant, Client, SignInResult, open_session, register}

module _ (self : AuthService) (at : Instant) where
  unfoldable pub linked_user : Option ℕ → Exec (Option User)
  linked_user none = pure none
  linked_user (some user_id) = Users.get user_id

  unfoldable pub found_or_registered : String → Option String → Option User → Exec (User × Bool)
  found_or_registered email display_name none = do
    user ← register self at email display_name
    pure (user, true)
  found_or_registered email display_name (some user) = pure (user, false)

  -- The account of an address that the provider has verified, linked to the profile.
  unfoldable pub link_verified : OAuthProfile → String → Exec (User × Bool)
  unfolding found_or_registered
  link_verified profile email = do
    known ← Users.get_by_email self.lower_btrim email
    (user, created) ← found_or_registered email profile.display_name known
    identity_id ← draw self.new_id
    OAuth.link identity_id user.id profile.provider profile.subject (some email)
    pure (user, created)

  unfoldable pub link_by_email : OAuthProfile → Option String → Bool → Exec (User × Bool)
  unfolding link_verified
  link_by_email profile (some email) true = link_verified profile email
  link_by_email profile _ _ = raise (Error.platform ErrorCategory.oauth_email_unverified)

  -- By the provider's subject first, then by the verified address, then a new account.
  unfoldable pub resolve_account : OAuthProfile → Option User → Exec (User × Bool)
  unfolding link_by_email
  resolve_account profile (some user) = pure (user, false)
  resolve_account profile none = link_by_email profile profile.email profile.email_verified

  unfoldable pub oauth_block : OAuthProfile → ℕ → Client → Exec SignInResult
  unfolding linked_user resolve_account
  oauth_block profile actor_id client = do
    user_id ← OAuth.find_user_id profile.provider profile.subject
    linked ← linked_user user_id
    (user, created) ← resolve_account profile linked
    open_session self at user actor_id client created

  unfoldable pub complete_oauth : OAuthProfile → ℕ → Client → Exec SignInResult
  unfolding oauth_block
  complete_oauth profile actor_id client = begin (oauth_block profile actor_id client)
