-- ===== src/Repository/OAuth.antt =====
-- repository/identity.py `SqlOAuthIdentityRepository`.
use blog_post.Base.{
  ℕ, Bool, true, false, String, Option, none, some, ◌∷◌, ◌&&◌, not, ◌==◌, str_eq, if◌then◌else◌,
}
use blog_post.Base.Tables.{find_first, exists, update_where}
use blog_post.Database.Identity.{OAuthProviderName, OAuthIdentity}
use blog_post.Errors.Constraint.{Constraint}
use blog_post.Database.Exec.{Error, Exec, select, modify, raise_if, ◌>>=◌, ◌>>◌}
use blog_post.Repository.Users.{has_id}

abbrev pub same_provider : OAuthProviderName → OAuthProviderName → Bool
same_provider OAuthProviderName.google OAuthProviderName.google = true
same_provider OAuthProviderName.github OAuthProviderName.github = true
same_provider _ _ = false

abbrev pub is_identity : OAuthProviderName → String → OAuthIdentity → Bool
is_identity provider subject i =
    same_provider i.provider provider && str_eq i.provider_subject subject

abbrev user_of : Option OAuthIdentity → Option ℕ
user_of none = none
user_of (some i) = some i.user_id

unfoldable pub find_user_id : OAuthProviderName → String → Exec (Option ℕ)
find_user_id provider subject =
    select (λ db. user_of (find_first (is_identity provider subject) db.oauth_identities))

-- INSERT ... ON CONFLICT (provider, provider_subject) DO UPDATE: the primary key is checked too,
-- and the foreign key at the end for a row that was inserted.
unfoldable pub link : ℕ → ℕ → OAuthProviderName → String → Option String → Exec Unit
link identity_id user_id provider subject email = do
  linked ← select (λ db. exists (is_identity provider subject) db.oauth_identities)
  raise_if (← select (λ db. not linked && exists (λ i. i.id == identity_id) db.oauth_identities))
      (Error.integrity Constraint.oauth_identities_pkey)
  raise_if (← select (λ db. not linked && not (exists (has_id user_id) db.users)))
      (Error.integrity Constraint.oauth_identities_user_id_fkey)
  modify λ db. record db {
    oauth_identities =
        if linked
        then update_where (is_identity provider subject)
            (λ i. record i { email_at_provider = email }) db.oauth_identities
        else record {
          id = identity_id;
          user_id = user_id;
          provider = provider;
          provider_subject = subject;
          email_at_provider = email;
        }
          ∷ db.oauth_identities;
  }
