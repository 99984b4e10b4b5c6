-- ===== src/Auth/Tests/Tokens.antt =====
-- The theorems about refresh tokens, applied.
use blog_post.Base.{ℕ, ◌≡◌, ◌≤◌, refl, some, none, true, false, [], ◌∷◌, arith, ◌==◌}
use blog_post.Base.Tables.{Unique, affected, find_first, exists}
use blog_post.Errors.Category.{ErrorCategory}
use blog_post.Database.Exec.{err, Error}
use blog_post.Auth.Tests.{service, noon, browser, world, spent_token, next_token}
use blog_post.Auth.Rotation.{refresh, revoke}
use blog_post.Auth.Rotation.SignOut.{refresh-revoke_everywhere, refresh-revoke_device}
use blog_post.Auth.Rotation.Reuse.{refresh_reuse, refresh_dead, kill_family}
use blog_post.Auth.Rotation.Families.{Sound, live_in}
use blog_post.Auth.History.{Request, serve_all, serve_all-Sound}

token_ids-Unique : Unique (λ r. r.id) world.db.refresh_tokens
token_ids-Unique = (((λ e. cc), tt), (tt, tt))

spent-found :
    find_first (λ r. r.token_hash == service.hash_token "old") world.db.refresh_tokens
    ≡ some spent_token
unfolding find_first
spent-found = refl

refresh_reuse_example :
    refresh service noon "old" browser world
    ≡ (err (Error.platform ErrorCategory.refresh_token_reused), kill_family 10 5000000 world)
refresh_reuse_example =
    refresh_reuse service noon browser "old" world spent_token 2 token_ids-Unique spent-found refl
      (omega arith) refl

refresh_dead_example :
    refresh service noon "old" browser (kill_family 10 6000000 world)
    ≡ (err (Error.platform ErrorCategory.auth_token_revoked), kill_family 10 6000000 world)
refresh_dead_example =
    refresh_dead service noon browser "old" world spent_token 10 6000000 spent-found refl

one_family : (f : ℕ) → affected (live_in f) world.db.refresh_tokens ≤ 1
unfolding affected
one_family f = ground arith

tokens-Sound : Sound world.db.refresh_tokens
unfolding exists
tokens-Sound = record {
  unique = token_ids-Unique;
  rooted = (refl, (refl, tt));
  single = one_family;
}

serve_all-Sound_example :
    Sound
      (serve_all service
        ((noon, Request.rotate "new" browser) ∷ (noon, Request.rotate "old" browser) ∷ [])
        world).db.refresh_tokens
serve_all-Sound_example =
    serve_all-Sound service
      ((noon, Request.rotate "new" browser) ∷ (noon, Request.rotate "old" browser) ∷ []) world
      tokens-Sound

refresh-revoke_everywhere_example :
    let after = (revoke service noon none 1 true world).1 in
    refresh service noon "old" browser after
    ≡ (err (Error.platform ErrorCategory.auth_token_revoked), after)
refresh-revoke_everywhere_example =
    refresh-revoke_everywhere service noon noon browser 1 "old" world spent_token spent-found none
      refl

next-found :
    find_first (λ r. r.token_hash == service.hash_token "new") world.db.refresh_tokens
    ≡ some next_token
unfolding find_first
next-found = refl

refresh-revoke_device_example :
    let after = (revoke service noon (some "new") 1 false world).1 in
    refresh service noon "old" browser after
    ≡ (err (Error.platform ErrorCategory.auth_token_revoked), after)
refresh-revoke_device_example =
    refresh-revoke_device service noon noon browser 1 "old" world spent_token spent-found "new"
      next_token next-found refl refl
