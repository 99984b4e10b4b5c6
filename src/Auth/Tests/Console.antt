-- ===== src/Auth/Tests/Console.antt =====
-- The theorems about the admin console, applied.
use blog_post.Base.{
  ℕ, ◌≡◌, ◌≢◌, ◌<◌, ◌≤◌, refl, List, String, some, none, [], ◌∷◌, arith, false, ◌==◌,
}
use blog_post.Base.Tables.{All, find_first, exists, affected, newest}
use blog_post.Errors.Category.{ErrorCategory}
use blog_post.Database.Exec.{World, ok, err, Error}
use blog_post.Repository.AdminLogins.{failures_in, last_success}
use blog_post.Repository.Users.{has_id, hash_of}
use blog_post.Auth.Service.{Instant}
use blog_post.Auth.Console.{admin_password_login, set_admin_password, window_start}
use blog_post.Auth.Console.Lockout.{
  admin_password_login-locks, admin_password_login-refuses, logged, hash_for, IsFresh, failures_at,
}
use blog_post.Auth.Console.Runs.{login_all, login_all_locks, Counting}
use blog_post.Auth.Console.Passwords.{set_admin_password-ends}
use blog_post.Auth.Tests.{service, noon, browser, world, admin_row}

abbrev locked_world : World
locked_world = logged service noon "admin" browser (logged service noon "admin" browser world)

locked-IsFresh : IsFresh service locked_world
unfolding exists
locked-IsFresh = refl

locked-spent : service.admin_max_failed_logins ≤ failures_at service noon "admin" locked_world
unfolding failures_in last_success affected newest window_start
locked-spent = omega arith

admin_password_login-locks_example :
    admin_password_login service noon "admin" "right" 30 browser locked_world ≡ (
      err (Error.platform ErrorCategory.admin_locked_out),
      logged service noon "admin" browser locked_world,
    )
admin_password_login-locks_example =
    admin_password_login-locks service noon "admin" "right" 30 browser locked_world locked-IsFresh
      locked-spent

world-IsFresh : IsFresh service world
unfolding exists
world-IsFresh = refl

reader-open : failures_at service noon "reader" world < service.admin_max_failed_logins
unfolding failures_in affected
reader-open = omega arith

reader-refused : service.verify_password "right" (hash_for service "reader" world.db.users) ≡ false
unfolding find_first
reader-refused = refl

admin_password_login-refuses_example :
    admin_password_login service noon "reader" "right" 30 browser world ≡ (
      err (Error.platform ErrorCategory.admin_credentials_invalid),
      logged service noon "reader" browser world,
    )
admin_password_login-refuses_example =
    admin_password_login-refuses service noon "reader" "right" 30 browser world world-IsFresh
      reader-open reader-refused

world-fresh : (n : ℕ) → exists (λ a. a.id == service.new_id n) world.db.admin_login_attempts ≡ false
unfolding exists
world-fresh n = refl

abbrev wrong_passwords : List (Instant × String)
wrong_passwords = (noon, "guess") ∷ (noon, "again") ∷ []

passwords-Counting :
    Counting service noon
      (hash_for service "admin" world.db.users)
      (last_success (service.lower_btrim "admin") world.db.admin_login_attempts)
      wrong_passwords
unfolding find_first last_success newest window_start
passwords-Counting = ((refl, omega arith, tt), ((refl, omega arith, tt), tt))

login_all_locks_example :
    (admin_password_login service noon "admin" "right" 30 browser
      (login_all service "admin" 30 browser wrong_passwords world)).0
    ≡ err (Error.platform ErrorCategory.admin_locked_out)
login_all_locks_example =
    login_all_locks service "admin" 30 browser wrong_passwords noon world
      (λ m n e. omega (arith, e)) (λ n h. world-fresh n) passwords-Counting (omega arith) "right"

admin-found : find_first (has_id 1) world.db.users ≡ some admin_row
unfolding find_first
admin-found = refl

set_admin_password-ends_example :
    let after = set_admin_password service noon 1 "better" world in
    (after.0 ≡ ok tt)
    × (hash_of (find_first (has_id 1) after.1.db.users) ≡ some (service.hash_password "better" 0))
    × All (λ r. r.user_id ≡ 1 → r.revoked_at ≢ none) after.1.db.refresh_tokens
set_admin_password-ends_example =
    set_admin_password-ends service noon 1 "better" world admin_row admin-found refl
