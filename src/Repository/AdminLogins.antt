-- ===== src/Repository/AdminLogins.antt =====
-- repository/identity.py `SqlAdminLoginAttemptRepository`.
use blog_post.Base.{
  ℕ, Bool, true, String, Option, none, some, List, ◌∷◌, ◌&&◌, not, ltb, leb, ◌==◌, str_eq,
}
use blog_post.Base.Tables.{exists, affected, delete_where, newest}
use blog_post.Database.Identity.{LoginAttempt}
use blog_post.Errors.Constraint.{Constraint}
use blog_post.Database.Exec.{Error, Exec, pure, select, modify, raise_if, ◌>>=◌, ◌>>◌}

unfoldable pub record_attempt :
    (String → String) → ℕ → String → Bool → ℕ → Option String → Option String → Exec Unit
record_attempt lower_btrim attempt_id email succeeded at client_ip user_agent = do
  raise_if (← select (λ db. exists (λ a. a.id == attempt_id) db.admin_login_attempts))
      (Error.integrity Constraint.admin_login_attempts_pkey)
  modify λ db. record db {
    admin_login_attempts =
        record {
          id = attempt_id;
          email_normalized = lower_btrim email;
          succeeded = succeeded;
          attempted_at = at;
          client_ip = client_ip;
          user_agent = user_agent;
        }
        ∷ db.admin_login_attempts;
  }

-- The latest success of the address, max(attempted_at).
unfoldable pub last_success : String → List LoginAttempt → Option LoginAttempt
last_success key rows =
    newest (λ a. str_eq a.email_normalized key && a.succeeded) (λ a. a.attempted_at) rows

-- attempted_at > COALESCE(..., '-infinity')
abbrev pub is_after : Option LoginAttempt → LoginAttempt → Bool
is_after none a = true
is_after (some s) a = ltb s.attempted_at a.attempted_at

abbrev pub counts : String → ℕ → Option LoginAttempt → LoginAttempt → Bool
counts key since success a =
    str_eq a.email_normalized key
    && leb since a.attempted_at
    && not a.succeeded
    && is_after success a

unfoldable pub failures_in : String → ℕ → List LoginAttempt → ℕ
unfolding last_success
failures_in key since rows = affected (counts key since (last_success key rows)) rows

unfoldable pub recent_failures : (String → String) → String → ℕ → Exec ℕ
unfolding failures_in
recent_failures lower_btrim email since =
    select (λ db. failures_in (lower_btrim email) since db.admin_login_attempts)

unfoldable pub delete_older_than : ℕ → Exec ℕ
delete_older_than before = do
  n ← select (λ db. affected (λ a. ltb a.attempted_at before) db.admin_login_attempts)
  modify λ db. record db {
    admin_login_attempts = delete_where (λ a. ltb a.attempted_at before) db.admin_login_attempts;
  }
  pure n
