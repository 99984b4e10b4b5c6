-- ===== src/Repository/Otp.antt =====
-- repository/identity.py `SqlOtpChallengeRepository`.
use blog_post.Base.{
  ℕ, ◌+◌, Bool, true, false, String, Option, none, some, List, ◌∷◌, ◌&&◌, not, ltb, leb, ◌==◌,
  str_eq, is_none, if◌then◌else◌,
}
use blog_post.Base.Tables.{exists, update_where, affected, delete_where, newest}
use blog_post.Database.Identity.{AuthPurpose, OtpChallenge}
use blog_post.Errors.Constraint.{Constraint}
use blog_post.Database.Exec.{Error, Exec, pure, select, modify, raise_if, ◌>>=◌, ◌>>◌}

abbrev pub same_purpose : AuthPurpose → AuthPurpose → Bool
same_purpose AuthPurpose.login AuthPurpose.login = true
same_purpose AuthPurpose.signup AuthPurpose.signup = true
same_purpose _ _ = false

-- A challenge of an address and a purpose that is not consumed; it may have expired.
abbrev pub is_live : String → AuthPurpose → OtpChallenge → Bool
is_live key purpose c =
    str_eq c.email key && same_purpose c.purpose purpose && is_none c.consumed_at

unfoldable pub create :
    (String → String) → ℕ → ℕ → String → AuthPurpose → ℕ → ℕ → ℕ → Option String → Exec OtpChallenge
create lower_btrim db_now challenge_id email purpose code_hash expires_at max_attempts ip =
    let row : OtpChallenge = record {
      id = challenge_id;
      email = lower_btrim email;
      purpose = purpose;
      code_hash = code_hash;
      expires_at = expires_at;
      attempts = 0;
      max_attempts = max_attempts;
      consumed_at = none;
      created_at = db_now;
      requested_ip = ip;
    } in
    do
      raise_if (max_attempts == 0) (Error.integrity Constraint.otp_challenges_max_attempts_check)
      raise_if (← select (λ db. exists (λ c. c.id == challenge_id) db.otp_challenges))
          (Error.integrity Constraint.otp_challenges_pkey)
      modify (λ db. record db { otp_challenges = row ∷ db.otp_challenges })
      pure row

abbrev pub latest :
    (String → String) → String → AuthPurpose → List OtpChallenge → Option OtpChallenge
latest lower_btrim email purpose rows =
    newest (is_live (lower_btrim email) purpose) (λ c. c.created_at) rows

unfoldable pub latest_live : (String → String) → String → AuthPurpose → Exec (Option OtpChallenge)
latest_live lower_btrim email purpose =
    select (λ db. latest lower_btrim email purpose db.otp_challenges)

-- The answers of `consume_if_matching`.
pub data Outcome : Type 0 where
  missing exhausted expired mismatch matched : Outcome

-- SET attempts, consumed_at
unfoldable pub guess : ℕ → ℕ → OtpChallenge → OtpChallenge
guess code_hash now c = record c {
  attempts = c.attempts + 1;
  consumed_at =
      if c.code_hash == code_hash && ltb now c.expires_at && ltb c.attempts c.max_attempts
      then some now
      else none;
}

-- The tests on the returned row, whose attempts are already incremented.
unfoldable pub classify : ℕ → ℕ → OtpChallenge → Outcome
classify code_hash now c =
    if ltb c.max_attempts c.attempts
    then Outcome.exhausted
    else if leb c.expires_at now
    then Outcome.expired
    else if not (c.code_hash == code_hash)
    then Outcome.mismatch
    else Outcome.matched

-- The largest value of a smallint column.
abbrev pub smallint_max : ℕ
smallint_max = 32767

-- The one statement, given its target row.
unfoldable pub consume_target : ℕ → ℕ → Option OtpChallenge → Exec (Option OtpChallenge × Outcome)
unfolding guess classify
consume_target code_hash now none = pure (none, Outcome.missing)
consume_target code_hash now (some target) = do
  raise_if (leb smallint_max target.attempts) Error.out_of_range
  modify λ db. record db {
    otp_challenges = update_where (λ c. c.id == target.id) (guess code_hash now) db.otp_challenges;
  }
  pure (some (guess code_hash now target), classify code_hash now (guess code_hash now target))

unfoldable pub consume_if_matching :
    (String → String) → String → AuthPurpose → ℕ → ℕ → Exec (Option OtpChallenge × Outcome)
unfolding latest_live consume_target
consume_if_matching lower_btrim email purpose code_hash now = do
  target ← latest_live lower_btrim email purpose
  consume_target code_hash now target

unfoldable pub delete_expired : ℕ → Exec ℕ
delete_expired before = do
  n ← select (λ db. affected (λ c. ltb c.expires_at before) db.otp_challenges)
  modify λ db. record db {
    otp_challenges = delete_where (λ c. ltb c.expires_at before) db.otp_challenges;
  }
  pure n
