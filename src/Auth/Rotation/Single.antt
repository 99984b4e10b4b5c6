-- ===== src/Auth/Rotation/Single.antt =====
-- No call on refresh tokens leaves two live tokens in a family.
use blog_post.Base.{
  ℕ, ◌≡◌, refl, sym, subst, Bool, true, String, Option, none, some, List, ◌∷◌, ◌==◌, ◌∙◌, ==→eq,
}
use blog_post.Base.Tables.{
  All-In, In, update_where, exists, affected, find_first-In, exists-update_where, exists-cons,
}
use blog_post.Database.Identity.{User, RefreshToken}
use blog_post.Database.Exec.Ensures.{
  Ensures, Keeps, Ensures-pure, Ensures-select, Ensures-draw, Ensures-or_raise, Ensures-begin,
  Ensures-if, Ensures-modify, Ensures-raise_if, Ensures-bind, Ensures-weaken, Keeps-bind,
  Keeps-select, Keeps-pure, Keeps-raise,
}
use blog_post.Repository.RefreshTokens
use blog_post.Auth.Service.{AuthService, Instant, Client, issue_pair}
use blog_post.Auth.Untouched.{On, users_get-Keeps, assert_active-Keeps, actor_for_user-Keeps}
use blog_post.Auth.Rotation.{
  Exchange, refresh, exchange_block, exchange, succeed, answer, revoke, revoke_one, revoke_found,
}
use blog_post.Auth.Rotation.Families.{
  Sound, live_in, named, Sound-consume, traded_once, Sound-insert,
}
use blog_post.Auth.Rotation.Issued.{create-Sound, revoke_where-Sound}

module _ (self : AuthService) (at : Instant) where
  -- The family of a token that has been traded in has room for the successor.
  abbrev HasRoom : ℕ → List RefreshToken → Type 0
  HasRoom f rows = Sound rows × (exists (named f) rows ≡ true) × (affected (live_in f) rows ≡ 0)

  issue_successor-Sound :
      (user : User) (actor_id : ℕ) (client : Client) (i f : ℕ)
      → Ensures
          (On (HasRoom f))
          (issue_pair self at user actor_id client (some i) (some f))
          (λ _. On Sound)
          (On Sound)
  unfolding issue_pair
  issue_successor-Sound user actor_id client i f =
      Ensures-bind {Q = λ _. On (HasRoom f)} (Ensures-draw _ (λ db a s. s)) λ access.
        Ensures-bind {Q = λ _. On (HasRoom f)} (Ensures-draw _ (λ db a s. s)) λ secret.
          Ensures-bind {Q = λ _. On (HasRoom f)} (Ensures-pure _ (λ db s. s)) λ token_id.
            Ensures-bind {Q = λ _. On Sound}
              (create-Sound (On (HasRoom f)) token_id f (λ db s. s.0)
                (λ new db e e' s fresh.
                  Sound-insert new db.refresh_tokens s.0 (rw e fresh)
                    (subst (λ g. exists (named g) (new ∷ db.refresh_tokens) ≡ true) (sym e')
                      (exists-cons (named f) new db.refresh_tokens s.1))
                    (rw e' s.2))
                at.db_now user.id (self.hash_token secret) _ _ _)
              λ row. Ensures-pure _ (λ db s. s)

  succeed-Sound :
      (row : RefreshToken) (i : ℕ) (client : Client)
      → Ensures
          (On (HasRoom row.family_id))
          (succeed self at row i client)
          (λ _. On Sound)
          (On Sound)
  unfolding succeed
  succeed-Sound row i client =
      Ensures-bind {Q = λ _. On (HasRoom row.family_id)}
        (Ensures-weaken (λ db s. s) (λ a db s. s) (λ db s. s.0) (users_get-Keeps _ row.user_id))
        λ found.
          Ensures-bind {Q = λ _. On (HasRoom row.family_id)}
            (Ensures-or_raise found _ (λ db a e s. s) (λ db s. s.0))
            λ user.
              Ensures-bind {Q = λ _. On (HasRoom row.family_id)}
                (Ensures-weaken (λ db s. s) (λ a db s. s) (λ db s. s.0)
                  (assert_active-Keeps _ user))
                λ _.
                  Ensures-bind {Q = λ _. On (HasRoom row.family_id)}
                    (Ensures-weaken (λ db s. s) (λ a db s. s) (λ db s. s.0)
                      (actor_for_user-Keeps _ self at user))
                    λ actor_id.
                      Ensures-bind {Q = λ _. On Sound}
                        (issue_successor-Sound user actor_id client i row.family_id)
                        λ pair. Ensures-pure _ (λ db s. s)

  -- What is known of the row that the lookup found.
  abbrev Holds : RefreshToken → List RefreshToken → Type 0
  Holds row rows = Sound rows × In row rows

  abbrev AfterConsume : RefreshToken → Bool → List RefreshToken → Type 0
  AfterConsume row won rows = Sound rows × (won ≡ true → HasRoom row.family_id rows)

  after :
      (row : RefreshToken) (i now : ℕ) (rows : List RefreshToken) (n : ℕ)
      → Holds row rows
      → affected (RefreshTokens.is_consumable row.id) rows ≡ n
      → AfterConsume row (n == 1) (
          update_where
            (RefreshTokens.is_consumable row.id)
            (RefreshTokens.mark_consumed i now)
            rows)
  unfolding RefreshTokens.mark_consumed
  after row i now rows n h e =
      let kept = Sound-consume (RefreshTokens.is_consumable row.id) i now rows h.0 in
      (
        kept,
        λ won. (
          kept,
          exists-update_where (named row.family_id) (RefreshTokens.is_consumable row.id)
                (RefreshTokens.mark_consumed i now) rows (λ x. refl)
              ∙ All-In (λ t. exists (named t.family_id) rows ≡ true) rows h.0.rooted h.1,
          traded_once row i now rows h.0 h.1 (e ∙ ==→eq n 1 won),
        ),
      )

  consume-Sound :
      (row : RefreshToken) (i now : ℕ)
      → Ensures
          (On (Holds row))
          (RefreshTokens.consume row.id i now)
          (λ won. On (AfterConsume row won))
          (On Sound)
  unfolding RefreshTokens.consume RefreshTokens.mark_consumed
  consume-Sound row i now =
      Ensures-bind
        {Q = λ n db.
          Holds row db.refresh_tokens
          × (affected (RefreshTokens.is_consumable row.id) db.refresh_tokens ≡ n)}
        (Ensures-select _ (λ db h. (h, refl)))
        λ n.
          Ensures-bind {Q = λ _. On (AfterConsume row (n == 1))}
            (Ensures-modify _ (λ db h. after row i now db.refresh_tokens n h.0 h.1))
            λ _. Ensures-pure _ (λ db s. s)

  exchange-Sound :
      (row : RefreshToken) (client : Client)
      → Ensures (On (Holds row)) (exchange self at row client) (λ _. On Sound) (On Sound)
  unfolding exchange
  exchange-Sound row client =
      Ensures-bind {Q = λ _. On (Holds row)} (Ensures-raise_if _ _ (λ db e h. h) (λ db h. h.0)) λ _.
        Ensures-bind {Q = λ _. On (Holds row)} (Ensures-raise_if _ _ (λ db e h. h) (λ db h. h.0))
          λ _. Ensures-bind {Q = λ _. On (Holds row)} (Ensures-draw _ (λ db a h. h)) λ i.
            Ensures-bind {Q = λ won. On (AfterConsume row won)} (consume-Sound row i at.clock)
              λ won.
                Ensures-if won
                  (λ e.
                    Ensures-weaken (λ db h. h.1 e) (λ a db q. q) (λ db q. q)
                      (succeed-Sound row i client))
                  (λ _. Ensures-pure _ (λ db h. h.0))

  exchange_block-Sound :
      (token : String) (client : Client) → Keeps (On Sound) (exchange_block self at token client)
  unfolding exchange_block RefreshTokens.find_by_hash
  exchange_block-Sound token client =
      Ensures-bind
        {Q = λ found db.
          Sound db.refresh_tokens
          × ((row : RefreshToken) → found ≡ some row → In row db.refresh_tokens)}
        (Ensures-select _ (λ db s. (s, λ row e. find_first-In _ db.refresh_tokens row e)))
        λ found.
          Ensures-bind {Q = λ row. On (Holds row)}
            (Ensures-or_raise found _ (λ db row e h. (h.0, h.1 row e)) (λ db h. h.0))
            λ row. exchange-Sound row client

  answer-Sound : (x : Exchange) → Keeps (On Sound) (answer self at x)
  unfolding answer RefreshTokens.revoke_family
  answer-Sound (Exchange.rotated pair) = Keeps-pure pair
  answer-Sound (Exchange.compromised f) =
      Keeps-bind _ _ (Ensures-begin (revoke_where-Sound _ _ at.clock)) λ n. Keeps-raise _

  pub refresh-Sound :
      (token : String) (client : Client) → Keeps (On Sound) (refresh self at token client)
  unfolding refresh
  refresh-Sound token client =
      Keeps-bind _ _ (Ensures-begin (exchange_block-Sound token client)) answer-Sound

  revoke_found-Sound :
      (user_id : ℕ) (found : Option RefreshToken)
      → Keeps (On Sound) (revoke_found self at user_id found)
  unfolding revoke_found RefreshTokens.revoke_family
  revoke_found-Sound user_id none = Keeps-pure 0
  revoke_found-Sound user_id (some row) =
      Ensures-if (row.user_id == user_id) (λ _. revoke_where-Sound _ _ at.clock) (λ _. Keeps-pure 0)

  revoke_one-Sound :
      (user_id : ℕ) (token : Option String) → Keeps (On Sound) (revoke_one self at user_id token)
  unfolding revoke_one RefreshTokens.revoke_all_for_user RefreshTokens.find_by_hash
  revoke_one-Sound user_id none = revoke_where-Sound _ _ at.clock
  revoke_one-Sound user_id (some token) =
      Keeps-bind _ _ (Keeps-select _) (revoke_found-Sound user_id)

  pub revoke-Sound :
      (token : Option String) (user_id : ℕ) (everywhere : Bool)
      → Keeps (On Sound) (revoke self at token user_id everywhere)
  unfolding revoke
  revoke-Sound token user_id everywhere = Ensures-begin (revoke_one-Sound user_id _)
