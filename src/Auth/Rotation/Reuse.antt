-- ===== src/Auth/Rotation/Reuse.antt =====
-- Reuse of a refresh token: the family dies, and the revocation outlives the error.
use blog_post.Base.{
  if◌then◌else◌, Option-cases, inl, inr, ==→eq, ==-refl, &&-left, lt→leb, ◌∙◌, ℕ, ◌<◌, ◌+◌, ◌≡◌,
  refl, Bool, true, String, none, some, arith, ◌&&◌, ◌==◌, is_none,
}
use blog_post.Base.Tables.{
  find_first, update_where, Unique, affected, affected-Unique, find_first-In,
  find_first-update_where, update_where-unmatched,
}
use blog_post.Errors.Category.{ErrorCategory}
use blog_post.Database.Identity.{RefreshToken, RevokedReason}
use blog_post.Database.Exec.{World, err, Error, ◌>>=◌, begin, raise_if, or_raise, modify}
use blog_post.Repository.RefreshTokens.{
  find_by_hash, consume, revoke_family, mark_revoked, is_consumable,
}
use blog_post.Auth.Service.{AuthService, Instant, Client}
use blog_post.Auth.Rotation.{refresh, exchange}

abbrev pub in_family : ℕ → RefreshToken → Bool
in_family family_id t = t.family_id == family_id && is_none t.revoked_at

-- The database after every token of the family that was not revoked yet has been.
abbrev pub kill_family : ℕ → ℕ → World → World
kill_family family_id now w = record w {
  drawn = w.drawn + 1;
  db = record w.db {
    refresh_tokens =
        update_where (in_family family_id) (mark_revoked RevokedReason.reuse_detected now)
          w.db.refresh_tokens;
  };
}

module _ (self : AuthService) (at : Instant) (client : Client) (token : String) (w : World)
    (row : RefreshToken) (t : ℕ) (unique : Unique (λ r. r.id) w.db.refresh_tokens)
    (found : find_first (λ r. r.token_hash == self.hash_token token) w.db.refresh_tokens
      ≡ some row) where
  only_row : (x : RefreshToken) → is_consumable row.id x ≡ true → x.id ≡ row.id
  only_row x h = ==→eq _ _ (&&-left _ _ (&&-left _ _ h))

  consumed-unaffected :
      row.consumed_at ≡ some t → affected (is_consumable row.id) w.db.refresh_tokens ≡ 0
  consumed-unaffected spent =
      affected-Unique (λ r. r.id) (is_consumable row.id) w.db.refresh_tokens row unique
        (find_first-In _ w.db.refresh_tokens row found) only_row
      ∙ rw (spent, ==-refl) refl

  -- A spent token that is neither revoked nor expired is refused as reused; every token of its
  -- family that was not revoked yet is revoked for that reason, also those issued since, and
  -- nothing else of the database changes. The ids of the tokens are unique.
  pub refresh_reuse :
      row.revoked_at ≡ none
      → at.clock < row.expires_at
      → row.consumed_at ≡ some t
      → refresh self at token client w ≡ (
        err (Error.platform ErrorCategory.refresh_token_reused),
        kill_family row.family_id at.clock w,
      )
  unfolding refresh exchange ◌>>=◌ begin raise_if or_raise find_by_hash consume revoke_family modify
  refresh_reuse live fresh spent = rw (
    found,
    live,
    lt→leb at.clock row.expires_at fresh,
    consumed-unaffected spent,
    update_where-unmatched (is_consumable row.id) _ w.db.refresh_tokens (consumed-unaffected spent),
  )

-- A row of the family carries a time of revocation once the family has been killed.
killed-revoked :
    (row : RefreshToken) (f now : ℕ)
    → row.family_id ≡ f
    → (t : ℕ) × ((if in_family f row
          then mark_revoked RevokedReason.reuse_detected now row
          else row).revoked_at
        ≡ some t)
unfolding mark_revoked
killed-revoked row f now same = elim (Option-cases row.revoked_at) [
  | inl live ↦ (now, rw (same, ==-refl, live) refl)
  | inr (t, gone) ↦ (t, ground arith)
]

pub exchange-revoked :
    (self : AuthService) (at : Instant) (r : RefreshToken) (client : Client) (w : World) (t : ℕ)
    → r.revoked_at ≡ some t
    → exchange self at r client w ≡ (err (Error.platform ErrorCategory.auth_token_revoked), w)
unfolding exchange ◌>>=◌ raise_if
exchange-revoked self at r client w t gone = rw gone refl

module _ (self : AuthService) (at : Instant) (client : Client) (token : String) (w : World)
    (row : RefreshToken) (f now : ℕ) where
  -- Once a family is dead, each token in it is refused as revoked, whether it was spent or not and
  -- expired or not, and the refusal changes nothing.
  pub refresh_dead :
      find_first (λ r. r.token_hash == self.hash_token token) w.db.refresh_tokens ≡ some row
      → row.family_id ≡ f
      → refresh self at token client (kill_family f now w)
        ≡ (err (Error.platform ErrorCategory.auth_token_revoked), kill_family f now w)
  unfolding refresh ◌>>=◌ begin or_raise find_by_hash mark_revoked
  refresh_dead found same =
      let (t, gone) = killed-revoked row f now same in
      rw (
        find_first-update_where (λ r. r.token_hash == self.hash_token token) (in_family f)
            (mark_revoked RevokedReason.reuse_detected now) w.db.refresh_tokens (λ x. refl),
        found,
        exchange-revoked self at
            (if in_family f row then mark_revoked RevokedReason.reuse_detected now row else row)
            client (kill_family f now w) t gone,
      )
