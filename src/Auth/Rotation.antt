-- ===== src/Auth/Rotation.antt =====
-- Refresh tokens: `refresh` and `revoke`. The theorems are in the modules below.
pub mod Reuse
pub mod SignOut
pub mod Families
pub mod Issued
pub mod Single
use blog_post.Base.{ℕ, Bool, String, Option, none, some, not, leb, is_none, ◌==◌, if◌then◌else◌}
use blog_post.Errors.Category.{ErrorCategory}
use blog_post.Database.Identity.{RefreshToken, RevokedReason}
use blog_post.Database.Exec.{Error, Exec, pure, raise, draw, begin, raise_if, or_raise, ◌>>=◌, ◌>>◌}
use blog_post.Repository.Users
use blog_post.Repository.RefreshTokens
use blog_post.Auth.Service.{
  AuthService, Instant, Client, TokenPair, assert_active, actor_for_user, issue_pair,
}

-- How the first transaction of a refresh ends when it does not raise: with a successor, or with
-- the family of a token that had been spent.
pub data Exchange : Type 0 where
  rotated : TokenPair → Exchange
  compromised : ℕ → Exchange

module _ (self : AuthService) (at : Instant) where
  unfoldable pub succeed : RefreshToken → ℕ → Client → Exec Exchange
  succeed row successor_id client = do
    found ← Users.get row.user_id
    user ← or_raise found (Error.platform ErrorCategory.user_not_found)
    assert_active user
    actor_id ← actor_for_user self at user
    pair ← issue_pair self at user actor_id client (some successor_id) (some row.family_id)
    pure (Exchange.rotated pair)

  unfoldable pub exchange : RefreshToken → Client → Exec Exchange
  unfolding succeed
  exchange row client = do
    raise_if (not (is_none row.revoked_at)) (Error.platform ErrorCategory.auth_token_revoked)
    raise_if (leb row.expires_at at.clock) (Error.platform ErrorCategory.refresh_token_expired)
    successor_id ← draw self.new_id
    won ← RefreshTokens.consume row.id successor_id at.clock
    if won then succeed row successor_id client else pure (Exchange.compromised row.family_id)

  -- The first transaction.
  unfoldable pub exchange_block : String → Client → Exec Exchange
  unfolding exchange
  exchange_block refresh_token client = do
    found ← RefreshTokens.find_by_hash (self.hash_token refresh_token)
    row ← or_raise found (Error.platform ErrorCategory.refresh_token_invalid)
    exchange row client

  -- What follows its commit: the second transaction, for a token that had been spent.
  unfoldable pub answer : Exchange → Exec TokenPair
  answer (Exchange.rotated pair) = pure pair
  answer (Exchange.compromised family_id) = do
    revoked ← begin (RefreshTokens.revoke_family family_id RevokedReason.reuse_detected at.clock)
    raise (Error.platform ErrorCategory.refresh_token_reused)

  unfoldable pub refresh : String → Client → Exec TokenPair
  unfolding exchange_block answer
  refresh refresh_token client = begin (exchange_block refresh_token client) >>= answer

  unfoldable pub revoke_found : ℕ → Option RefreshToken → Exec ℕ
  revoke_found user_id none = pure 0
  revoke_found user_id (some row) =
      if row.user_id == user_id
      then RefreshTokens.revoke_family row.family_id RevokedReason.user_revoked at.clock
      else pure 0

  unfoldable pub revoke_one : ℕ → Option String → Exec ℕ
  unfolding revoke_found
  revoke_one user_id none =
      RefreshTokens.revoke_all_for_user user_id RevokedReason.user_revoked at.clock
  revoke_one user_id (some refresh_token) = do
    found ← RefreshTokens.find_by_hash (self.hash_token refresh_token)
    revoke_found user_id found

  unfoldable pub revoke : Option String → ℕ → Bool → Exec ℕ
  unfolding revoke_one
  revoke refresh_token user_id all_devices =
      begin (revoke_one user_id (if all_devices then none else refresh_token))
