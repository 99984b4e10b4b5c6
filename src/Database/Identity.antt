-- ===== src/Database/Identity.antt =====
-- Rows of the identity tables: contracts/identity.py, with the columns that only the repositories
-- of repository/identity.py see. Times are microseconds since the epoch, hashes and identifiers
-- are only compared, so all of them are numbers.
use blog_post.Base.{ℕ, Bool, String, Option}

pub data AuthPurpose : Type 0 where
  login signup : AuthPurpose

pub data UserStatus : Type 0 where
  active suspended deleted : UserStatus

pub data OAuthProviderName : Type 0 where
  google github : OAuthProviderName

pub record User : Type 0 where
  pub id : ℕ
  pub email : String
  pub display_name : Option String
  pub is_admin : Bool
  pub status : UserStatus
  pub email_verified_at : Option ℕ
  pub created_at : ℕ
  pub updated_at : ℕ

-- The row of `users`: what `_to_user` reads, and the password columns, which it leaves out.
pub record UserRow : Type 0 where
  pub user : User
  pub open user use *
  pub password_hash : Option ℕ
  pub password_updated_at : Option ℕ

pub record OAuthIdentity : Type 0 where
  pub id : ℕ
  pub user_id : ℕ
  pub provider : OAuthProviderName
  pub provider_subject : String
  pub email_at_provider : Option String

pub record OtpChallenge : Type 0 where
  pub id : ℕ
  pub email : String
  pub purpose : AuthPurpose
  pub code_hash : ℕ
  pub expires_at : ℕ
  pub attempts : ℕ
  pub max_attempts : ℕ
  pub consumed_at : Option ℕ
  pub created_at : ℕ
  pub requested_ip : Option String

pub data RevokedReason : Type 0 where
  password_changed reuse_detected user_revoked : RevokedReason

pub record RefreshToken : Type 0 where
  pub id : ℕ
  pub user_id : ℕ
  pub family_id : ℕ
  pub token_hash : ℕ
  pub issued_at : ℕ
  pub expires_at : ℕ
  pub consumed_at : Option ℕ
  pub replaced_by_id : Option ℕ
  pub revoked_at : Option ℕ
  pub revoked_reason : Option RevokedReason
  pub user_agent : Option String
  pub client_ip : Option String

pub record AnonymousActor : Type 0 where
  pub id : ℕ
  pub created_at : ℕ
  pub last_seen_at : ℕ
  pub first_user_agent : Option String
  pub first_client_ip : Option String
  pub merged_into_user_id : Option ℕ
  pub merged_at : Option ℕ

pub record LoginAttempt : Type 0 where
  pub id : ℕ
  pub email_normalized : String
  pub succeeded : Bool
  pub attempted_at : ℕ
  pub client_ip : Option String
  pub user_agent : Option String

-- contracts/identity.py `OAuthProfile`; the email is `none` where it is None or empty.
pub record OAuthProfile : Type 0 where
  pub provider : OAuthProviderName
  pub subject : String
  pub email : Option String
  pub email_verified : Bool
  pub display_name : Option String
