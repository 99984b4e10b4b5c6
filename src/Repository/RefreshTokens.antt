-- ===== src/Repository/RefreshTokens.antt =====
-- repository/identity.py `SqlRefreshTokenRepository`.
use blog_post.Base.{
  ℕ, Bool, false, ltb, String, Option, none, some, List, ◌∷◌, ◌&&◌, not, ◌==◌, is_none,
}
use blog_post.Base.Tables.{find_first, exists, update_where, affected, delete_where}
use blog_post.Database.Identity.{RefreshToken, RevokedReason}
use blog_post.Errors.Constraint.{Constraint}
use blog_post.Database.Exec.{Error, Exec, pure, select, modify, raise_if, ◌>>=◌, ◌>>◌}
use blog_post.Repository.Users.{has_id}

-- INSERT: the unique indexes, then the foreign key at the end of the statement. The key of
-- `replaced_by_id` is deferred to the commit.
unfoldable pub create : ℕ → ℕ → ℕ → ℕ → ℕ → ℕ → Option String → Option String → Exec RefreshToken
create db_now token_id user_id family_id token_hash expires_at user_agent client_ip =
    let row : RefreshToken = record {
      id = token_id;
      user_id = user_id;
      family_id = family_id;
      token_hash = token_hash;
      issued_at = db_now;
      expires_at = expires_at;
      consumed_at = none;
      replaced_by_id = none;
      revoked_at = none;
      revoked_reason = none;
      user_agent = user_agent;
      client_ip = client_ip;
    } in
    do
      raise_if (← select (λ db. exists (λ t. t.id == token_id) db.refresh_tokens))
          (Error.integrity Constraint.refresh_tokens_pkey)
      raise_if (← select (λ db. exists (λ t. t.token_hash == token_hash) db.refresh_tokens))
          (Error.integrity Constraint.refresh_tokens_token_hash_key)
      raise_if (← select (λ db. not (exists (has_id user_id) db.users)))
          (Error.integrity Constraint.refresh_tokens_user_id_fkey)
      modify (λ db. record db { refresh_tokens = row ∷ db.refresh_tokens })
      pure row

unfoldable pub find_by_hash : ℕ → Exec (Option RefreshToken)
find_by_hash token_hash =
    select (λ db. find_first (λ t. t.token_hash == token_hash) db.refresh_tokens)

abbrev pub is_consumable : ℕ → RefreshToken → Bool
is_consumable token_id t = t.id == token_id && is_none t.consumed_at && is_none t.revoked_at

unfoldable pub mark_consumed : ℕ → ℕ → RefreshToken → RefreshToken
mark_consumed replaced_by_id now t = record t {
  consumed_at = some now;
  replaced_by_id = some replaced_by_id;
}

-- Whether the UPDATE met exactly one row.
unfoldable pub consume : ℕ → ℕ → ℕ → Exec Bool
unfolding mark_consumed
consume token_id replaced_by_id now = do
  n ← select (λ db. affected (is_consumable token_id) db.refresh_tokens)
  modify λ db. record db {
    refresh_tokens =
        update_where (is_consumable token_id) (mark_consumed replaced_by_id now) db.refresh_tokens;
  }
  pure (n == 1)

unfoldable pub mark_revoked : RevokedReason → ℕ → RefreshToken → RefreshToken
mark_revoked reason now t = record t { revoked_at = some now; revoked_reason = some reason }

-- UPDATE ... SET revoked_at, revoked_reason WHERE the row is chosen AND revoked_at IS NULL.
unfoldable pub revoke_where : (RefreshToken → Bool) → RevokedReason → ℕ → Exec ℕ
unfolding mark_revoked
revoke_where chosen reason now = do
  n ← select (λ db. affected (λ t. chosen t && is_none t.revoked_at) db.refresh_tokens)
  modify λ db. record db {
    refresh_tokens =
        update_where (λ t. chosen t && is_none t.revoked_at) (mark_revoked reason now)
          db.refresh_tokens;
  }
  pure n

unfoldable pub revoke_family : ℕ → RevokedReason → ℕ → Exec ℕ
unfolding revoke_where
revoke_family family_id reason now = revoke_where (λ t. t.family_id == family_id) reason now

unfoldable pub revoke_all_for_user : ℕ → RevokedReason → ℕ → Exec ℕ
unfolding revoke_where
revoke_all_for_user user_id reason now = revoke_where (λ t. t.user_id == user_id) reason now

abbrev names_one_of : (RefreshToken → Bool) → List RefreshToken → Option ℕ → Bool
names_one_of gone rows none = false
names_one_of gone rows (some i) = exists (λ t. t.id == i && gone t) rows

-- The rows go, and ON DELETE SET NULL clears the references to them.
unfoldable pub delete_expired : ℕ → Exec ℕ
delete_expired before = do
  n ← select (λ db. affected (λ t. ltb t.expires_at before) db.refresh_tokens)
  modify λ db. record db {
    refresh_tokens =
        update_where
          (λ t. names_one_of (λ u. ltb u.expires_at before) db.refresh_tokens t.replaced_by_id)
          (λ t. record t { replaced_by_id = none })
          (delete_where (λ t. ltb t.expires_at before) db.refresh_tokens);
  }
  pure n
