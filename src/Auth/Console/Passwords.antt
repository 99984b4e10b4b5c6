-- ===== src/Auth/Console/Passwords.antt =====
-- A new password for the administrator: `set_admin_password`.
use blog_post.Base.{ℕ, ◌≡◌, ◌≢◌, refl, true, String, none, some, arith, ◌==◌, ◌&&◌, is_none}
use blog_post.Base.Tables.{
  All, All-update_where_new, find_first, find_first-some, find_first-update_where, update_where,
}
use blog_post.Database.Identity.{UserRow, RevokedReason}
use blog_post.Database.Exec.{World, ok, ◌>>=◌, begin, raise_if, modify, draw, translating}
use blog_post.Repository.Users.{has_id, hash_of, get, set_password}
use blog_post.Repository.RefreshTokens.{revoke_all_for_user, mark_revoked}
use blog_post.Auth.Service.{AuthService, Instant}
use blog_post.Auth.Console.{set_admin_password}

module _ (self : AuthService) (at : Instant) (user_id : ℕ) (password : String) (w : World) where
  ended :
      All
        (λ r. r.user_id ≡ user_id → r.revoked_at ≢ none)
        (update_where
          (λ r. r.user_id == user_id && is_none r.revoked_at)
          (mark_revoked RevokedReason.password_changed at.clock)
          w.db.refresh_tokens)
  unfolding mark_revoked
  ended =
      All-update_where_new (λ r. r.user_id ≡ user_id → r.revoked_at ≢ none) _ _ w.db.refresh_tokens
        (λ r hit mine. λ e. cc) (λ r miss mine. ground arith)

  stored :
      (row : UserRow) (f : UserRow → UserRow)
      → ((r : UserRow)
          → (has_id user_id (f r) ≡ has_id user_id r)
            × ((f r).password_hash ≡ some (self.hash_password password w.drawn)))
      → find_first (has_id user_id) w.db.users ≡ some row
      → row.is_admin ≡ true
      → hash_of (
          find_first
            (has_id user_id)
            (update_where (λ r. has_id user_id r && r.is_admin) f w.db.users))
        ≡ some (self.hash_password password w.drawn)
  stored row f sets found admin =
      rw
        (
          find_first-update_where (has_id user_id) (λ r. has_id user_id r && r.is_admin) f
              w.db.users (λ r. (sets r).0),
          found,
          find_first-some (has_id user_id) w.db.users row found,
          admin,
        )
        (sets _).1

  -- A new password for the account of an administrator is stored, hashed, and ends every session of the account: each
  -- of its refresh tokens is revoked.
  pub set_admin_password-ends :
      (row : UserRow)
      → find_first (has_id user_id) w.db.users ≡ some row
      → row.is_admin ≡ true
      → let after = set_admin_password self at user_id password w in
        (after.0 ≡ ok tt)
        × (hash_of (find_first (has_id user_id) after.1.db.users)
            ≡ some (self.hash_password password w.drawn))
        × All (λ r. r.user_id ≡ user_id → r.revoked_at ≢ none) after.1.db.refresh_tokens
  unfolding set_admin_password get set_password revoke_all_for_user translating ◌>>=◌ begin raise_if
      modify draw
  set_admin_password-ends row found admin =
      rw (found, admin) (refl, stored row _ (λ r. (refl, refl)) found admin, ended)
