-- ===== src/Auth/Providers/Linked.antt =====
-- A profile that is linked: sign-in to the account that its subject is linked to.
use blog_post.Base.{
  ℕ, ◌+◌, ◌*◌, ◌==◌, ◌≡◌, ◌≢◌, ◌∙◌, ◌∷◌, ◌⊎◌, inl, inr, refl, true, false, Option, Option-cases,
  none, some, List,
}
use blog_post.Base.Tables.{find_first, exists}
use blog_post.Errors.Category.{ErrorCategory}
use blog_post.Database.Identity.{
  User, UserRow, UserStatus, RefreshToken, OAuthProfile, OAuthIdentity,
}
use blog_post.Database.Exec.{
  World, raise, ok, err, Error, ◌>>=◌, begin, raise_if, modify, draw, pure,
}
use blog_post.Repository.OAuth.{is_identity, find_user_id}
use blog_post.Repository.Users.{get, has_id, to_user}
use blog_post.Auth.Service.{
  AuthService, Instant, Client, open_session, assert_active, merge_actor, issue_pair, drawn_unless,
}
use blog_post.Repository.RefreshTokens.{create}
use blog_post.Auth.Providers.{complete_oauth, linked_user}

status-cases :
    (s : UserStatus)
    → (s ≡ UserStatus.active) ⊎ (s ≡ UserStatus.suspended) ⊎ (s ≡ UserStatus.deleted)
status-cases UserStatus.active = inl refl
status-cases UserStatus.suspended = inr (inl refl)
status-cases UserStatus.deleted = inr (inr refl)

-- The account that is linked to the profile's subject.
abbrev pub owner_of : Option OAuthIdentity → List UserRow → Option User
owner_of none users = none
owner_of (some i) users = to_user (find_first (has_id i.user_id) users)

abbrev pub linked_to : OAuthProfile → World → Option User
linked_to profile w =
    owner_of (find_first (is_identity profile.provider profile.subject) w.db.oauth_identities)
      w.db.users

-- The refresh token of a session that is opened: the third draw is its id, which names its family.
abbrev pub first_token : AuthService → Instant → User → Client → World → RefreshToken
first_token self at user client w = record {
  id = self.new_id (w.drawn + 1 + 1);
  user_id = user.id;
  family_id = self.new_id (w.drawn + 1 + 1);
  token_hash = self.hash_token (self.new_token_secret (w.drawn + 1));
  issued_at = at.db_now;
  expires_at = at.clock + self.refresh_ttl_seconds * 1000000;
  consumed_at = none;
  replaced_by_id = none;
  revoked_at = none;
  revoked_reason = none;
  user_agent = client.user_agent;
  client_ip = client.client_ip;
}

abbrev pub with_token : RefreshToken → World → World
with_token t w = record w {
  drawn = w.drawn + 1 + 1 + 1;
  db = record w.db { refresh_tokens = t ∷ w.db.refresh_tokens };
}

module _ (self : AuthService) (at : Instant) (user : User) (actor_id : ℕ) (client : Client)
    (w : World) where
  inactive-refused :
      user.status ≢ UserStatus.active
      → begin (open_session self at user actor_id client false) w
        ≡ (err (Error.platform ErrorCategory.user_inactive), w)
  unfolding open_session assert_active ◌>>=◌ begin raise
  inactive-refused inactive = elim (status-cases user.status) [
    | inl active ↦ absurd (inactive active)
    | inr (inl suspended) ↦ rw suspended refl
    | inr (inr deleted) ↦ rw deleted refl
  ]

  active-opens :
      (merged : ℕ) (after : World)
      → user.status ≡ UserStatus.active
      → merge_actor self at actor_id user w ≡ (ok merged, after)
      → exists (λ t. t.id == self.new_id (after.drawn + 1 + 1)) after.db.refresh_tokens ≡ false
      → exists
          (λ t. t.token_hash == self.hash_token (self.new_token_secret (after.drawn + 1)))
          after.db.refresh_tokens
        ≡ false
      → exists (has_id user.id) after.db.users ≡ true
      → begin (open_session self at user actor_id client false) w ≡ (
        ok (record {
          tokens = record {
            access_token = self.issue_access user.id actor_id user.is_admin at.clock after.drawn;
            refresh_token = self.new_token_secret (after.drawn + 1);
            expires_in = self.access_ttl_seconds;
            actor_token = self.issue_actor actor_id at.clock;
          };
          user = user;
          created = false;
          merged_events = merged;
        }),
        with_token (first_token self at user client after) after,
      )
  unfolding open_session assert_active issue_pair create ◌>>=◌ begin raise_if modify draw pure
      drawn_unless
  active-opens merged after active merge new_id new_hash known =
      rw (active, merge, new_id, new_hash, known) refl

module _ (self : AuthService) (at : Instant) (profile : OAuthProfile) (actor_id : ℕ)
    (client : Client) (w : World) where
  linked-opens :
      (user : User)
      → linked_to profile w ≡ some user
      → complete_oauth self at profile actor_id client w
        ≡ begin (open_session self at user actor_id client false) w
  unfolding complete_oauth find_user_id linked_user get ◌>>=◌ begin
  linked-opens user linked =
      elim (Option-cases
        (find_first (is_identity profile.provider profile.subject) w.db.oauth_identities)) [
          | inl unknown ↦ (cc (rw unknown at linked))
          | inr (i, known) ↦ rw (known, rw known at linked)
        ]

  -- A profile whose subject is linked to an account that is suspended or deleted is refused, and
  -- nothing changes, whatever address it brings.
  pub complete_oauth-inactive :
      (user : User)
      → linked_to profile w ≡ some user
      → user.status ≢ UserStatus.active
      → complete_oauth self at profile actor_id client w
        ≡ (err (Error.platform ErrorCategory.user_inactive), w)
  complete_oauth-inactive user linked inactive =
      linked-opens user linked ∙ inactive-refused self at user actor_id client w inactive

  -- The subject decides: a profile that is linked to an active account signs in to that account,
  -- whatever address it brings and whether that is verified. The answer has the user and the
  -- tokens, and the refresh token is stored by its hash, for that user and in a family of its own;
  -- beyond that only the merge of the visitor's history changes the database. The merge ends
  -- normally; the id and the hash of the token are new, and the user is in the table.
  pub complete_oauth-linked :
      (user : User) (merged : ℕ) (after : World)
      → linked_to profile w ≡ some user
      → user.status ≡ UserStatus.active
      → merge_actor self at actor_id user w ≡ (ok merged, after)
      → exists (λ t. t.id == self.new_id (after.drawn + 1 + 1)) after.db.refresh_tokens ≡ false
      → exists
          (λ t. t.token_hash == self.hash_token (self.new_token_secret (after.drawn + 1)))
          after.db.refresh_tokens
        ≡ false
      → exists (has_id user.id) after.db.users ≡ true
      → complete_oauth self at profile actor_id client w ≡ (
        ok (record {
          tokens = record {
            access_token = self.issue_access user.id actor_id user.is_admin at.clock after.drawn;
            refresh_token = self.new_token_secret (after.drawn + 1);
            expires_in = self.access_ttl_seconds;
            actor_token = self.issue_actor actor_id at.clock;
          };
          user = user;
          created = false;
          merged_events = merged;
        }),
        with_token (first_token self at user client after) after,
      )
  complete_oauth-linked user merged after linked active merge new_id new_hash known =
      linked-opens user linked
      ∙ active-opens self at user actor_id client w merged after active merge new_id new_hash known
