-- ===== src/Auth/Rotation/Issued.antt =====
-- A token that is issued, and tokens that are revoked, leave the families sound.
use blog_post.Base.{ℕ, ◌≡◌, refl, sym, Bool, false, String, Option, none, ◌∷◌, ◌∙◌}
use blog_post.Base.Tables.{exists}
use blog_post.Database.Identity.{User, RefreshToken, RevokedReason}
use blog_post.Database.Tables.{Db}
use blog_post.Database.Exec.Ensures.{
  Ensures, Keeps, Ensures-pure, Ensures-select, Ensures-draw, Ensures-modify, Ensures-raise_if,
  Ensures-bind, Keeps-bind,
}
use blog_post.Repository.RefreshTokens
use blog_post.Auth.Service.{AuthService, Instant, Client, issue_pair}
use blog_post.Auth.Untouched.{On}
use blog_post.Auth.Rotation.Families.{Sound, named, Sound-revoke, Sound-insert_root}

module _ (P : Db → Type 0) (token_id family_id : ℕ)
    (sound : (db : Db) → P db → Sound db.refresh_tokens)
    (insert : (new : RefreshToken) (db : Db)
      → new.id ≡ token_id
      → new.family_id ≡ family_id
      → P db
      → exists (named token_id) db.refresh_tokens ≡ false
      → Sound (new ∷ db.refresh_tokens)) where
  abbrev Fresh : Db → Type 0
  Fresh db = P db × (exists (named token_id) db.refresh_tokens ≡ false)

  pub create-Sound :
      (n u h e : ℕ) (a c : Option String)
      → Ensures P (RefreshTokens.create n token_id u family_id h e a c) (λ _. On Sound) (On Sound)
  unfolding RefreshTokens.create
  create-Sound n u h e a c =
      Ensures-bind {Q = λ b db. P db × (exists (named token_id) db.refresh_tokens ≡ b)}
        (Ensures-select _ (λ db p. (p, refl)))
        λ b.
          Ensures-bind {Q = λ _. Fresh}
            (Ensures-raise_if b _ (λ db e p. (p.0, p.1 ∙ e)) (λ db p. sound db p.0))
            λ _. Ensures-bind {Q = λ _. Fresh} (Ensures-select _ (λ db p. p)) λ b'.
              Ensures-bind {Q = λ _. Fresh}
                (Ensures-raise_if b' _ (λ db e p. p) (λ db p. sound db p.0))
                λ _. Ensures-bind {Q = λ _. Fresh} (Ensures-select _ (λ db p. p)) λ b''.
                  Ensures-bind {Q = λ _. Fresh}
                    (Ensures-raise_if b'' _ (λ db e p. p) (λ db p. sound db p.0))
                    λ _.
                      Ensures-bind {Q = λ _. On Sound}
                        (Ensures-modify _ (λ db p. insert _ db refl refl p.0 p.1))
                        λ _. Ensures-pure _ (λ db s. s)

pub revoke_where-Sound :
    (chosen : RefreshToken → Bool) (r : RevokedReason) (now : ℕ)
    → Keeps (On Sound) (RefreshTokens.revoke_where chosen r now)
unfolding RefreshTokens.revoke_where
revoke_where-Sound chosen r now = Ensures-bind (Ensures-select _ (λ db s. s)) λ n.
    Ensures-bind (Ensures-modify _ (λ db s. Sound-revoke _ r now db.refresh_tokens s))
      λ _. Ensures-pure n (λ db s. s)

module _ (self : AuthService) (at : Instant) where
  -- A sign-in begins a family of its own.
  pub issue_root-Sound :
      (user : User) (actor_id : ℕ) (client : Client)
      → Keeps (On Sound) (issue_pair self at user actor_id client none none)
  unfolding issue_pair
  issue_root-Sound user actor_id client = Keeps-bind _ _ (Ensures-draw _ (λ db a s. s)) λ access.
      Keeps-bind _ _ (Ensures-draw _ (λ db a s. s)) λ secret.
        Keeps-bind _ _ (Ensures-draw _ (λ db a s. s)) λ token_id.
          Keeps-bind _ _
            (create-Sound (On Sound) token_id token_id (λ db s. s)
              (λ new db i f s fresh.
                Sound-insert_root new db.refresh_tokens s (rw i fresh) (f ∙ sym i))
              at.db_now user.id (self.hash_token secret) _ _ _)
            λ row. Ensures-pure _ (λ db s. s)
