-- ===== src/Auth/Console/Runs.antt =====
-- A run of wrong passwords at the console, and what the log holds after it.
use blog_post.Base.{
  ℕ, ◌+◌, ◌≤◌, ◌<◌, ◌≡◌, refl, sym, subst, ap, true, false, String, Option, none, some, List, [],
  ◌∷◌, ◌∙◌, arith, le→leb, lt→ltb, Bool-cases, inl, inr, ◌==◌, str_eq, eq_iff, ==-ne,
}
use blog_post.Base.Tables.{All, length, exists, affected, newest}
use blog_post.Errors.Category.{ErrorCategory}
use blog_post.Database.Identity.{LoginAttempt}
use blog_post.Database.Exec.{World, err, Error}
use blog_post.Repository.AdminLogins.{failures_in, counts, is_after, last_success}
use blog_post.Auth.Service.{AuthService, Instant, Client}
use blog_post.Auth.Console.{admin_password_login, window_start}
use blog_post.Auth.Console.Lockout.{hash_for, logged, failures_at, admin_password_login-locks, logs}

-- Sign-ins at the console for one address, one after the other.
unfoldable pub login_all :
    AuthService → String → ℕ → Client → List (Instant × String) → World → World
login_all self email a client [] w = w
login_all self email a client ((at, password) ∷ rest) w =
    login_all self email a client rest (admin_password_login self at email password a client w).1

-- Later than the last success of the address.
abbrev pub Since : Option LoginAttempt → ℕ → Type 0
Since none t = Unit
Since (some s) t = s.attempted_at < t

-- The attempts count: a wrong password, in the window of `last` and after the last success.
abbrev pub Counting :
    AuthService → Instant → Option ℕ → Option LoginAttempt → List (Instant × String) → Type 0
Counting self last stored success = All (λ g.
    (self.verify_password g.1 stored ≡ false)
    × (window_start self last ≤ g.0.clock)
    × Since success g.0.clock)

-- No id still to be drawn is in the log.
abbrev pub FreshIds : AuthService → World → Type 0
FreshIds self w =
    (n : ℕ) → w.drawn ≤ n → exists (λ a. a.id == self.new_id n) w.db.admin_login_attempts ≡ false

is_after-true :
    (s : Option LoginAttempt) (row : LoginAttempt)
    → Since s row.attempted_at
    → is_after s row ≡ true
is_after-true none row h = refl
is_after-true (some s) row h = lt→ltb s.attempted_at row.attempted_at h

last_success-failed :
    (key : String) (row : LoginAttempt) (rows : List LoginAttempt)
    → row.succeeded ≡ false
    → last_success key (row ∷ rows) ≡ last_success key rows
unfolding last_success newest
last_success-failed key row rows failed = elim (Bool-cases (str_eq row.email_normalized key)) [
  | inl same ↦ rw (same, failed) refl
  | inr other ↦ rw other refl
]

counts-failed :
    (key : String) (since : ℕ) (success : Option LoginAttempt) (row : LoginAttempt)
    (rows : List LoginAttempt)
    → row.email_normalized ≡ key
    → row.succeeded ≡ false
    → since ≤ row.attempted_at
    → Since success row.attempted_at
    → affected (counts key since success) (row ∷ rows)
      ≡ affected (counts key since success) rows + 1
unfolding affected
counts-failed key since success row rows mine failed recent after =
    rw
      (
        is_after-true success row after,
        (eq_iff row.email_normalized key).1 mine,
        le→leb since row.attempted_at recent,
        failed,
      )
      (omega arith)

failures_in-failed :
    (key : String) (since : ℕ) (row : LoginAttempt) (rows : List LoginAttempt)
    → row.email_normalized ≡ key
    → row.succeeded ≡ false
    → since ≤ row.attempted_at
    → Since (last_success key rows) row.attempted_at
    → failures_in key since (row ∷ rows) ≡ failures_in key since rows + 1
unfolding failures_in
failures_in-failed key since row rows mine failed recent after =
    ap (λ s. affected (counts key since s) (row ∷ rows)) (last_success-failed key row rows failed)
    ∙ counts-failed key since (last_success key rows) row rows mine failed recent after

logged-FreshIds :
    (self : AuthService) (at : Instant) (email : String) (client : Client) (w : World)
    → ((m n : ℕ) → self.new_id m ≡ self.new_id n → m ≡ n)
    → FreshIds self w
    → FreshIds self (logged self at email client w)
unfolding exists
logged-FreshIds self at email client w distinct fresh n later =
    rw
      (==-ne (self.new_id w.drawn) (self.new_id n)
        (λ same. omega (arith, later, distinct w.drawn n same)))
      (fresh n (omega (arith, later)))

-- What a run of failures leaves: the log holds that many more, and the rest that sign-ins read is
-- as it was.
record Logged (self : AuthService) (email : String) (stored : Option ℕ) (since : ℕ)
    (success : Option LoginAttempt) (n : ℕ) (w : World) : Type 0 where
  fresh : FreshIds self w
  same_hash : hash_for self email w.db.users ≡ stored
  same_success : last_success (self.lower_btrim email) w.db.admin_login_attempts ≡ success
  counted : failures_in (self.lower_btrim email) since w.db.admin_login_attempts ≡ n

module _ (self : AuthService) (email : String) (a : ℕ) (client : Client) (stored : Option ℕ)
    (last : Instant) (success : Option LoginAttempt)
    (distinct : (m n : ℕ) → self.new_id m ≡ self.new_id n → m ≡ n) where
  logged-Logged :
      (at : Instant) (n : ℕ) (w : World)
      → Logged self email stored (window_start self last) success n w
      → window_start self last ≤ at.clock
      → Since success at.clock
      → Logged self email stored
          (window_start self last)
          success
          (n + 1)
          (logged self at email client w)
  logged-Logged at n w l recent after = record {
    fresh = logged-FreshIds self at email client w distinct l.fresh;
    same_hash = l.same_hash;
    same_success =
        last_success-failed (self.lower_btrim email) _ w.db.admin_login_attempts refl
        ∙ l.same_success;
    counted =
        failures_in-failed (self.lower_btrim email) (window_start self last) _
          w.db.admin_login_attempts refl refl recent
          (subst (λ s. Since s at.clock) (sym l.same_success) after)
        ∙ ap (λ k. k + 1) l.counted;
  }

  login_all-Logged :
      (tries : List (Instant × String)) (n : ℕ) (w : World)
      → Logged self email stored (window_start self last) success n w
      → Counting self last stored success tries
      → Logged self email stored
          (window_start self last)
          success
          (n + length tries)
          (login_all self email a client tries w)
  unfolding login_all
  login_all-Logged [] n w l c =
      subst (λ k. Logged self email stored (window_start self last) success k w) (omega arith) l
  login_all-Logged ((at, password) ∷ rest) n w l c =
      subst
        (λ k. Logged self email stored (window_start self last) success k (
          login_all self email a client rest
            (admin_password_login self at email password a client w).1))
        (omega arith)
        (login_all-Logged rest (n + 1) (admin_password_login self at email password a client w).1
          (subst (Logged self email stored (window_start self last) success (n + 1))
            (sym (
              logs self at email password a client w (l.fresh w.drawn (omega arith))
                (ap (self.verify_password password) l.same_hash ∙ c.0.0)))
            (logged-Logged at n w l c.0.1 c.0.2))
          c.1)

module _ (self : AuthService) (email : String) (a : ℕ) (client : Client)
    (tries : List (Instant × String)) (last : Instant) (w : World) where
  -- After as many wrong passwords for an address as are allowed, counting the failures that are in
  -- the log before, whatever password is tried at `last`, the right one included, is refused as
  -- locked out. The wrong ones were tried no earlier than the window that ends at `last`, and
  -- after the last success of the address. No two draws give the same id, and none gives one that
  -- is in the log.
  pub login_all_locks :
      ((m n : ℕ) → self.new_id m ≡ self.new_id n → m ≡ n)
      → FreshIds self w
      → Counting self last
          (hash_for self email w.db.users)
          (last_success (self.lower_btrim email) w.db.admin_login_attempts)
          tries
      → self.admin_max_failed_logins ≤ failures_at self last email w + length tries
      → (password : String)
      → (admin_password_login self last email password a client
          (login_all self email a client tries w)).0
        ≡ err (Error.platform ErrorCategory.admin_locked_out)
  login_all_locks distinct fresh counting spent password =
      let l =
        login_all-Logged self email a client (hash_for self email w.db.users) last
          (last_success (self.lower_btrim email) w.db.admin_login_attempts) distinct tries
          (failures_at self last email w) w
          (record { fresh = fresh; same_hash = refl; same_success = refl; counted = refl })
          counting in
      ap (λ p. p.0)
        (admin_password_login-locks self last email password a client
          (login_all self email a client tries w)
          (l.fresh (login_all self email a client tries w).drawn (omega arith))
          (omega (arith, spent, l.counted)))
