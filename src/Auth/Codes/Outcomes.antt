-- ===== src/Auth/Codes/Outcomes.antt =====
-- One guess at a one-time code: the statement that counts it, and the answer that is read off the
-- row: repository/identity.py `consume_if_matching`.
use blog_post.Base.{
  ℕ, ◌+◌, ◌≤◌, ◌<◌, ◌≡◌, ◌≢◌, ◌↔◌, refl, ap, sym, subst, true, String, none, some, List, ◌==◌, ◌∙◌,
  arith, Bool-cases, inl, inr, if◌then◌else◌, ==-refl,
}
use blog_post.Base.Tables.{
  All-map, Unique, Unique-All, update_where, newest-In, newest-some, newest-update_where,
}
use blog_post.Database.Identity.{AuthPurpose, OtpChallenge}
use blog_post.Repository.Otp.{Outcome, latest, guess, classify, is_live}

-- Whatever the challenge, the Python tests answer `matched` exactly when the SQL statement burned
-- it, which is when the hash fits, the code has not expired and an attempt was left. The statement
-- counts one attempt in any case, and without a match it leaves the code unconsumed.
pub classify-guess :
    (h now : ℕ) (c : OtpChallenge)
    → ((classify h now (guess h now c) ≡ Outcome.matched)
        ↔ ((guess h now c).consumed_at ≡ some now))
      × ((classify h now (guess h now c) ≡ Outcome.matched)
          ↔ ((c.code_hash ≡ h) × (now < c.expires_at) × (c.attempts < c.max_attempts)))
      × ((guess h now c).attempts ≡ c.attempts + 1)
      × (classify h now (guess h now c) ≢ Outcome.matched → (guess h now c).consumed_at ≡ none)
unfolding classify guess
classify-guess h now c =
    ((ground arith, ground arith), (ground arith, ground arith), refl, ground arith)

unconsumed :
    (key : String) (c : OtpChallenge)
    → is_live key AuthPurpose.login c ≡ true
    → c.consumed_at ≡ none
unconsumed key c live = ground arith

-- The answers in terms of the stored row.
pub exhausted-eq :
    (h now : ℕ) (c : OtpChallenge)
    → c.max_attempts ≤ c.attempts
    → classify h now (guess h now c) ≡ Outcome.exhausted
unfolding classify guess
exhausted-eq h now c spent = ground arith

pub expired-eq :
    (h now : ℕ) (c : OtpChallenge)
    → c.attempts < c.max_attempts
    → c.expires_at ≤ now
    → classify h now (guess h now c) ≡ Outcome.expired
unfolding classify guess
expired-eq h now c some_left late = ground arith

pub mismatch-eq :
    (h now : ℕ) (c : OtpChallenge)
    → c.attempts < c.max_attempts
    → now < c.expires_at
    → c.code_hash ≢ h
    → classify h now (guess h now c) ≡ Outcome.mismatch
unfolding classify guess
mismatch-eq h now c some_left soon other = ground arith

-- Without a match the statement only counts.
pub unmatched-counts :
    (key : String) (h now : ℕ) (c : OtpChallenge)
    → is_live key AuthPurpose.login c ≡ true
    → classify h now (guess h now c) ≢ Outcome.matched
    → guess h now c ≡ record c { attempts = c.attempts + 1 }
unfolding guess
unmatched-counts key h now c live unmatched =
    let free : (guess h now c).consumed_at ≡ none = (classify-guess h now c).3 unmatched in
    let before : c.consumed_at ≡ none = unconsumed key c live in
    ap (λ t. record c { attempts = c.attempts + 1; consumed_at = t }) (free ∙ sym before)

pub wrong-ne :
    (h now : ℕ) (c : OtpChallenge)
    → h ≢ c.code_hash
    → classify h now (guess h now c) ≢ Outcome.matched
unfolding classify guess
wrong-ne h now c wrong = ground arith

wrong-live :
    (key : String) (h now : ℕ) (c : OtpChallenge)
    → is_live key AuthPurpose.login c ≡ true
    → h ≢ c.code_hash
    → is_live key AuthPurpose.login (guess h now c) ≡ true
unfolding guess
wrong-live key h now c live wrong = ground arith

-- A wrong guess leaves the row selectable where it was.
wrong-keeps :
    (key : String) (h now : ℕ) (c x : OtpChallenge)
    → ((x.id == c.id) ≡ true → x ≡ c)
    → is_live key AuthPurpose.login c ≡ true
    → h ≢ c.code_hash
    → let y = if x.id == c.id then guess h now x else x in
      (is_live key AuthPurpose.login y ≡ is_live key AuthPurpose.login x)
      × (y.created_at ≡ x.created_at)
unfolding guess
wrong-keeps key h now c x only live wrong = elim (Bool-cases (x.id == c.id)) [
  | inl hit ↦ rw hit (
      subst
        (λ (z : OtpChallenge).
          (is_live key AuthPurpose.login (guess h now z) ≡ is_live key AuthPurpose.login z)
          × ((guess h now z).created_at ≡ z.created_at))
        (sym (only hit)) (wrong-live key h now c live wrong ∙ sym live, refl))
  | inr miss ↦ rw miss (refl, refl)
]

pub latest-guessed :
    (lower_btrim : String → String) (email : String) (h now : ℕ) (rows : List OtpChallenge)
    (c : OtpChallenge)
    → latest lower_btrim email AuthPurpose.login rows ≡ some c
    → Unique (λ x. x.id) rows
    → h ≢ c.code_hash
    → latest lower_btrim email AuthPurpose.login
        (update_where (λ x. x.id == c.id) (guess h now) rows)
      ≡ some (guess h now c)
latest-guessed lower_btrim email h now rows c e unique wrong =
    let key = lower_btrim email in
    let selected = is_live key AuthPurpose.login in
    newest-update_where selected (λ x. x.created_at) (λ x. x.id == c.id) (guess h now) rows
      (All-map rows
        (λ x only.
          wrong-keeps key h now c x only (newest-some selected (λ y. y.created_at) rows c e) wrong)
        (Unique-All (λ x. x.id) rows c unique (newest-In selected (λ y. y.created_at) rows c e)))
    ∙ rw (e, ==-refl c.id) refl
