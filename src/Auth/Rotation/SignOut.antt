-- ===== src/Auth/Rotation/SignOut.antt =====
-- Signing out: no token that was to be revoked can be traded in afterwards.
use blog_post.Base.{
  ℕ, ◌≡◌, refl, ap, ◌∙◌, Bool, true, false, String, Option, some, Option-cases, inl, inr, arith,
  ◌&&◌, ◌==◌, is_none, if◌then◌else◌, ==-refl,
}
use blog_post.Base.Tables.{find_first, find_first-update_where, update_where}
use blog_post.Errors.Category.{ErrorCategory}
use blog_post.Database.Identity.{RefreshToken, RevokedReason}
use blog_post.Database.Exec.{World, err, Error, ◌>>=◌, begin, or_raise, modify}
use blog_post.Repository.RefreshTokens.{
  find_by_hash, mark_revoked, revoke_family, revoke_all_for_user,
}
use blog_post.Auth.Service.{AuthService, Instant, Client}
use blog_post.Auth.Rotation.{refresh, revoke}
use blog_post.Auth.Rotation.Reuse.{exchange-revoked}

module _ (chosen : RefreshToken → Bool) (reason : RevokedReason) (now : ℕ) where
  abbrev is_hit : RefreshToken → Bool
  is_hit t = chosen t && is_none t.revoked_at

  hit-revoked :
      (row : RefreshToken)
      → chosen row ≡ true
      → (t : ℕ) × ((if is_hit row then mark_revoked reason now row else row).revoked_at ≡ some t)
  unfolding mark_revoked
  hit-revoked row mine = elim (Option-cases row.revoked_at) [
    | inl live ↦ (now, rw (mine, live) refl)
    | inr (t, gone) ↦ (t, ground arith)
  ]

  abbrev revoked_in : World → World
  revoked_in w = record w {
    db = record w.db {
      refresh_tokens = update_where is_hit (mark_revoked reason now) w.db.refresh_tokens;
    };
  }

  revoked_in-dead :
      (self : AuthService) (at : Instant) (client : Client) (token : String) (w : World)
      (row : RefreshToken)
      → find_first (λ r. r.token_hash == self.hash_token token) w.db.refresh_tokens ≡ some row
      → chosen row ≡ true
      → refresh self at token client (revoked_in w)
        ≡ (err (Error.platform ErrorCategory.auth_token_revoked), revoked_in w)
  unfolding refresh ◌>>=◌ begin or_raise find_by_hash mark_revoked
  revoked_in-dead self at client token w row found mine =
      let (t, gone) = hit-revoked row mine in
      rw (
        find_first-update_where (λ r. r.token_hash == self.hash_token token) is_hit
            (mark_revoked reason now) w.db.refresh_tokens (λ x. refl),
        found,
        exchange-revoked self at (if is_hit row then mark_revoked reason now row else row) client
            (revoked_in w) t gone,
      )

module _ (self : AuthService) (at later : Instant) (client : Client) (user_id : ℕ) (token : String)
    (w : World) (row : RefreshToken)
    (found : find_first (λ r. r.token_hash == self.hash_token token) w.db.refresh_tokens
      ≡ some row) where
  -- After a user has signed out everywhere, whatever token the request carried, each token that
  -- the user had is refused as revoked at any later time, and the refusal changes nothing.
  pub refresh-revoke_everywhere :
      (carried : Option String)
      → row.user_id ≡ user_id
      → let after = (revoke self at carried user_id true w).1 in
        refresh self later token client after
        ≡ (err (Error.platform ErrorCategory.auth_token_revoked), after)
  unfolding revoke revoke_all_for_user ◌>>=◌ begin modify
  refresh-revoke_everywhere carried mine =
      revoked_in-dead (λ t. t.user_id == user_id) RevokedReason.user_revoked at.clock self later
        client token w row found (ap (λ u. u == user_id) mine ∙ ==-refl user_id)

  -- After a user has signed out one device by the token it carries, each token of that token's
  -- family, itself included, is refused as revoked at any later time, and the refusal changes
  -- nothing.
  pub refresh-revoke_device :
      (carried : String) (own : RefreshToken)
      → find_first (λ r. r.token_hash == self.hash_token carried) w.db.refresh_tokens ≡ some own
      → own.user_id ≡ user_id
      → row.family_id ≡ own.family_id
      → let after = (revoke self at (some carried) user_id false w).1 in
        refresh self later token client after
        ≡ (err (Error.platform ErrorCategory.auth_token_revoked), after)
  unfolding revoke revoke_family find_by_hash ◌>>=◌ begin modify
  refresh-revoke_device carried own known mine same =
      rw (known, ap (λ u. u == user_id) mine ∙ ==-refl user_id)
        (revoked_in-dead (λ t. t.family_id == own.family_id) RevokedReason.user_revoked at.clock
          self later client token w row found
          (ap (λ f. f == own.family_id) same ∙ ==-refl own.family_id))
