-- ===== src/Auth/Tests.antt =====
-- A concrete service and a concrete database, at which the theorems are applied.
mod Tokens
mod Codes
mod Console
mod Accounts
use blog_post.Base.{
  ℕ, ◌+◌, Bool, true, false, String, none, some, [], ◌∷◌, ◌&&◌, not, is_none, str_eq, if◌then◌else◌,
}
use blog_post.Database.Identity.{
  UserStatus, UserRow, RefreshToken, OtpChallenge, AuthPurpose, AnonymousActor, OAuthProviderName,
  OAuthIdentity,
}
use blog_post.Database.Readers.{EngagementRow, EngagementKind, DedupeKey}
use blog_post.Database.Tables.{Db, empty}
use blog_post.Database.Exec.{World}
use blog_post.Auth.Service.{AuthService, Instant, Client, SendResult}

abbrev pub service : AuthService
service = record {
  lower_btrim = λ s. s;
  new_id = λ n. n + 100;
  new_otp_code = λ length n. "424242";
  new_token_secret = λ n. "new";
  hash_otp = λ code. if str_eq code "111111" then 1 else 2;
  hash_token = λ token. if str_eq token "old" then 1 else 2;
  hash_password = λ password n. 7;
  verify_password = λ password stored. str_eq password "right" && not (is_none stored);
  issue_access = λ user actor admin now n. "access";
  issue_actor = λ actor now. "actor";
  send = λ m. SendResult.sent;
  otp = record {
    length = 6;
    ttl_seconds = 600;
    max_attempts = 2;
    resend_cooldown_seconds = 60;
    log_codes = false;
    dev_bypass_code = none;
  };
  refresh_ttl_seconds = 1000;
  access_ttl_seconds = 60;
  admin_max_failed_logins = 2;
  admin_lockout_window_s = 1;
}

abbrev pub noon : Instant
noon = record { clock = 5000000; db_now = 5000000 }

abbrev pub browser : Client
browser = record { user_agent = none; client_ip = none }

abbrev pub admin_row : UserRow
admin_row = record {
  user = record {
    id = 1;
    email = "admin";
    display_name = none;
    is_admin = true;
    status = UserStatus.active;
    email_verified_at = none;
    created_at = 1;
    updated_at = 1;
  };
  password_hash = some 7;
  password_updated_at = none;
}

abbrev pub reader_row : UserRow
reader_row = record {
  user = record {
    id = 2;
    email = "reader";
    display_name = none;
    is_admin = false;
    status = UserStatus.active;
    email_verified_at = none;
    created_at = 1;
    updated_at = 1;
  };
  password_hash = none;
  password_updated_at = none;
}

-- A token that was traded in, and its successor.
abbrev pub spent_token : RefreshToken
spent_token = record {
  id = 10;
  user_id = 1;
  family_id = 10;
  token_hash = 1;
  issued_at = 1;
  expires_at = 9000000;
  consumed_at = some 2;
  replaced_by_id = some 11;
  revoked_at = none;
  revoked_reason = none;
  user_agent = none;
  client_ip = none;
}

abbrev pub next_token : RefreshToken
next_token = record spent_token {
  id = 11;
  token_hash = 2;
  consumed_at = none;
  replaced_by_id = none;
}

abbrev pub challenge : OtpChallenge
challenge = record {
  id = 20;
  email = "reader";
  purpose = AuthPurpose.login;
  code_hash = 1;
  expires_at = 9000000;
  attempts = 0;
  max_attempts = 2;
  consumed_at = none;
  created_at = 1;
  requested_ip = none;
}

abbrev pub visitor : AnonymousActor
visitor = record {
  id = 30;
  created_at = 1;
  last_seen_at = 1;
  first_user_agent = none;
  first_client_ip = none;
  merged_into_user_id = none;
  merged_at = none;
}

abbrev pub reading : EngagementRow
reading = record {
  id = 40;
  occurred_at = 1;
  actor_id = 30;
  user_id = none;
  blog_id = none;
  kind = EngagementKind.click;
  dedupe_key = DedupeKey.of_event 40;
}

abbrev pub identity : OAuthIdentity
identity = record {
  id = 50;
  user_id = 2;
  provider = OAuthProviderName.github;
  provider_subject = "subject";
  email_at_provider = none;
}

abbrev pub world : World
world = record {
  db = record empty {
    users = admin_row ∷ reader_row ∷ [];
    oauth_identities = identity ∷ [];
    otp_challenges = challenge ∷ [];
    refresh_tokens = next_token ∷ spent_token ∷ [];
    anonymous_actors = visitor ∷ [];
    engagement_events = reading ∷ [];
  };
  drawn = 0;
  mail = [];
  objects = [];
}
