-- ===== src/Auth/Providers/Unverified.antt =====
-- A profile that is not linked and brings no verified address.
use blog_post.Base.{ℕ, ◌≡◌, ◌⊎◌, inl, inr, refl, Bool, true, false, Option, none, some, String}
use blog_post.Base.Tables.{find_first}
use blog_post.Errors.Category.{ErrorCategory}
use blog_post.Database.Identity.{OAuthProfile, OAuthIdentity}
use blog_post.Database.Exec.{World, raise, err, Error, ◌>>=◌, begin}
use blog_post.Repository.OAuth.{is_identity, find_user_id}
use blog_post.Repository.Users.{get}
use blog_post.Auth.Service.{AuthService, Instant, Client}
use blog_post.Auth.Providers.{complete_oauth, link_by_email, linked_user}
use blog_post.Auth.Providers.Linked.{owner_of, linked_to}

module _ (self : AuthService) (at : Instant) (profile : OAuthProfile) (actor_id : ℕ)
    (client : Client) (w : World) where
  unlinked-refused :
      (o : Option OAuthIdentity)
      → find_first (is_identity profile.provider profile.subject) w.db.oauth_identities ≡ o
      → owner_of o w.db.users ≡ none
      → link_by_email self at profile profile.email profile.email_verified
        ≡ raise (Error.platform ErrorCategory.oauth_email_unverified)
      → complete_oauth self at profile actor_id client w
        ≡ (err (Error.platform ErrorCategory.oauth_email_unverified), w)
  unfolding complete_oauth find_user_id linked_user get ◌>>=◌ begin
  unlinked-refused none known unlinked refused = rw (known, refused) refl
  unlinked-refused (some i) known unlinked refused = rw (known, unlinked, refused) refl

  unverified-raises :
      (email : Option String) (verified : Bool)
      → (email ≡ none) ⊎ (verified ≡ false)
      → link_by_email self at profile email verified
        ≡ raise (Error.platform ErrorCategory.oauth_email_unverified)
  unfolding link_by_email
  unverified-raises none verified h = refl
  unverified-raises (some email) false h = refl
  unverified-raises (some email) true (inl h) = cc
  unverified-raises (some email) true (inr h) = cc

  -- A profile that is not linked and whose address is missing or not verified is refused and
  -- changes nothing, whether an account has that address or not.
  pub complete_oauth-unverified :
      linked_to profile w ≡ none
      → (profile.email ≡ none) ⊎ (profile.email_verified ≡ false)
      → complete_oauth self at profile actor_id client w
        ≡ (err (Error.platform ErrorCategory.oauth_email_unverified), w)
  complete_oauth-unverified unlinked unverified =
      unlinked-refused
        (find_first (is_identity profile.provider profile.subject) w.db.oauth_identities) refl
        unlinked (unverified-raises profile.email profile.email_verified unverified)
