-- ===== src/Auth/Console/Lockout.antt =====
-- Failed sign-ins at the console: each is logged although it raises, and the log locks the account.
use blog_post.Base.{
  ℕ, ◌+◌, ◌≤◌, ◌<◌, ◌≡◌, refl, ap, false, String, Option, none, some, List, ◌∷◌, leb, le→leb,
  leb→le, lt→leb, leb-false→lt, Bool-cases, inl, inr, if◌then◌else◌, ◌==◌,
}
use blog_post.Base.Tables.{exists, find_first}
use blog_post.Errors.Category.{ErrorCategory}
use blog_post.Database.Identity.{User, UserRow}
use blog_post.Database.Exec.{World, err, Error, ◌>>=◌, begin, raise_if, modify, draw}
use blog_post.Repository.AdminLogins.{failures_in, record_attempt, recent_failures}
use blog_post.Repository.Users.{
  to_user, get_by_email, get_password_hash, has_email, has_id, hash_of,
}
use blog_post.Auth.Service.{AuthService, Instant, Client}
use blog_post.Auth.Console.{
  admin_password_login, window_start, check_password, log_attempt, stored_hash,
}

-- The hash that a password is compared with: an administrator's, and nobody else's.
abbrev pub admin_hash : List UserRow → Option User → Option ℕ
admin_hash users none = none
admin_hash users (some user) =
    if user.is_admin then hash_of (find_first (has_id user.id) users) else none

abbrev pub hash_for : AuthService → String → List UserRow → Option ℕ
hash_for self email users =
    admin_hash users (to_user (find_first (has_email self.lower_btrim email) users))

-- The world with one more failure in the log.
abbrev pub logged : AuthService → Instant → String → Client → World → World
logged self at email client w = record w {
  drawn = w.drawn + 1;
  db = record w.db {
    admin_login_attempts =
        record {
          id = self.new_id w.drawn;
          email_normalized = self.lower_btrim email;
          succeeded = false;
          attempted_at = at.clock;
          client_ip = client.client_ip;
          user_agent = client.user_agent;
        }
        ∷ w.db.admin_login_attempts;
  };
}

abbrev pub failures_at : AuthService → Instant → String → World → ℕ
failures_at self at email w =
    failures_in (self.lower_btrim email) (window_start self at) w.db.admin_login_attempts

-- The id that the next attempt is given is not in the log yet.
abbrev pub IsFresh : AuthService → World → Type 0
IsFresh self w = exists (λ a. a.id == self.new_id w.drawn) w.db.admin_login_attempts ≡ false

module _ (self : AuthService) (at : Instant) (email password : String) (actor_id : ℕ)
    (client : Client) (w : World) (fresh : IsFresh self w) where
  -- As many failures in the window as are allowed lock the console for the address: any password,
  -- the right one included, is refused as locked out, and that refusal is logged as one more
  -- failure and changes nothing else. The id drawn for the record is not in the log yet.
  pub admin_password_login-locks :
      self.admin_max_failed_logins ≤ failures_at self at email w
      → admin_password_login self at email password actor_id client w
        ≡ (err (Error.platform ErrorCategory.admin_locked_out), logged self at email client w)
  unfolding admin_password_login log_attempt record_attempt recent_failures ◌>>=◌ begin raise_if
      modify draw
  admin_password_login-locks spent = rw (le→leb _ _ spent, fresh)

  refuse :
      (user : Option User)
      → self.verify_password password (admin_hash w.db.users user) ≡ false
      → to_user (find_first (has_email self.lower_btrim email) w.db.users) ≡ user
      → failures_at self at email w < self.admin_max_failed_logins
      → admin_password_login self at email password actor_id client w ≡ (
        err (Error.platform ErrorCategory.admin_credentials_invalid),
        logged self at email client w,
      )
  unfolding admin_password_login check_password stored_hash get_password_hash log_attempt
      record_attempt recent_failures get_by_email ◌>>=◌ begin raise_if modify draw
  refuse none wrong known room = rw (lt→leb _ _ room, known, wrong, fresh)
  refuse (some user) wrong known room = elim (Bool-cases user.is_admin) [
    | inl admin ↦ rw (lt→leb _ _ room, known, admin, rw admin at wrong, fresh)
    | inr reader ↦ rw (lt→leb _ _ room, known, reader, rw reader at wrong, fresh)
  ]

  -- While the console is not locked, a wrong password has one answer: be the address unknown, or a
  -- reader's, or an administrator's with another password, the sign-in is refused with the same
  -- error, which is logged as one more failure, and nothing else changes. The id drawn for the
  -- record is not in the log yet.
  pub admin_password_login-refuses :
      failures_at self at email w < self.admin_max_failed_logins
      → self.verify_password password (hash_for self email w.db.users) ≡ false
      → admin_password_login self at email password actor_id client w ≡ (
        err (Error.platform ErrorCategory.admin_credentials_invalid),
        logged self at email client w,
      )
  admin_password_login-refuses room wrong =
      refuse (to_user (find_first (has_email self.lower_btrim email) w.db.users)) wrong refl room

  -- Either way the log has one failure more.
  pub logs :
      self.verify_password password (hash_for self email w.db.users) ≡ false
      → (admin_password_login self at email password actor_id client w).1
        ≡ logged self at email client w
  logs wrong = elim (Bool-cases (leb self.admin_max_failed_logins (failures_at self at email w))) [
    | inl spent ↦ ap (λ p. p.1) (admin_password_login-locks (leb→le _ _ spent))
    | inr room ↦ ap (λ p. p.1) (admin_password_login-refuses (leb-false→lt _ _ room) wrong)
  ]
