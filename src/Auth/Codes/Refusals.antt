-- ===== src/Auth/Codes/Refusals.antt =====
-- What `verify_otp` answers to a guess that is not accepted, and what it leaves of the table.
use blog_post.Base.{
  ℕ, ◌+◌, ◌≤◌, ◌<◌, ◌≡◌, ◌≢◌, refl, ap, sym, subst, false, String, some, List, ◌==◌, ◌∙◌, lt→leb,
  le→leb, leb→le, leb-false→lt, leb, Bool-cases, inl, inr, if◌then◌else◌,
}
use blog_post.Base.Tables.{
  All-map, Unique, Unique-All, update_where, update_where-All, newest-In, newest-some,
}
use blog_post.Errors.Category.{ErrorCategory}
use blog_post.Database.Identity.{AuthPurpose, OtpChallenge}
use blog_post.Database.Exec.{World, err, Error, ◌>>=◌, begin, raise_if, modify}
use blog_post.Repository.Otp.{
  Outcome, latest, guess, classify, consume_if_matching, smallint_max, is_live,
}
use blog_post.Auth.Service.{AuthService, Instant, Client}
use blog_post.Auth.Codes.{error_of, verify_otp, is_dev_bypass, guess_code}
use blog_post.Auth.Codes.Outcomes.{exhausted-eq, expired-eq, mismatch-eq, unmatched-counts}

abbrev pub with_challenges : List OtpChallenge → World → World
with_challenges rows w = record w { db = record w.db { otp_challenges = rows } }

-- One more attempt at the challenge of that id, and nothing else.
abbrev pub counted : OtpChallenge → World → World
counted c w =
    with_challenges
      (update_where (λ x. x.id == c.id) (λ x. record x { attempts = x.attempts + 1 })
        w.db.otp_challenges)
      w

-- Why a code is refused, by the challenge as it was before the guess.
abbrev pub reason : ℕ → OtpChallenge → ErrorCategory
reason now c =
    if leb c.max_attempts c.attempts
    then ErrorCategory.otp_attempts_exceeded
    else if leb c.expires_at now
    then ErrorCategory.otp_expired
    else ErrorCategory.otp_invalid

module _ (self : AuthService) (at : Instant) (email code : String) (actor_id : ℕ) (client : Client)
    (w : World) (c : OtpChallenge) where
  -- The table after one counted guess.
  abbrev pub guessed : World
  guessed = record w {
    db = record w.db {
      otp_challenges =
          update_where (λ x. x.id == c.id) (guess (self.hash_otp code) at.clock)
            w.db.otp_challenges;
    };
  }

  pub answered :
      (o : Outcome)
      → o ≢ Outcome.matched
      → is_dev_bypass self at code ≡ false
      → latest self.lower_btrim email AuthPurpose.login w.db.otp_challenges ≡ some c
      → c.attempts < smallint_max
      → classify (self.hash_otp code) at.clock (guess (self.hash_otp code) at.clock c) ≡ o
      → verify_otp self at email code actor_id client w ≡ (err (error_of o), guessed)
  unfolding verify_otp ◌>>=◌ begin raise_if modify consume_if_matching
  answered Outcome.missing wrong real live room e =
      rw (real, live, lt→leb c.attempts smallint_max room, e)
  answered Outcome.exhausted wrong real live room e =
      rw (real, live, lt→leb c.attempts smallint_max room, e)
  answered Outcome.expired wrong real live room e =
      rw (real, live, lt→leb c.attempts smallint_max room, e)
  answered Outcome.mismatch wrong real live room e =
      rw (real, live, lt→leb c.attempts smallint_max room, e)
  answered Outcome.matched wrong real live room e = absurd (wrong refl)

module _ (self : AuthService) (at : Instant) (email code : String) (actor_id : ℕ) (client : Client)
    (w : World) (c : OtpChallenge) where
  abbrev h : ℕ
  h = self.hash_otp code

  refused :
      (o : Outcome)
      → o ≢ Outcome.matched
      → is_dev_bypass self at code ≡ false
      → latest self.lower_btrim email AuthPurpose.login w.db.otp_challenges ≡ some c
      → Unique (λ x. x.id) w.db.otp_challenges
      → c.attempts < smallint_max
      → classify h at.clock (guess h at.clock c) ≡ o
      → verify_otp self at email code actor_id client w ≡ (err (error_of o), counted c w)
  unfolding guess
  refused o unmatched real live unique room e =
      answered self at email code actor_id client w c o unmatched real live room e
      ∙ ap (λ rows. (err (error_of o), with_challenges rows w))
          (update_where-All (λ x. x.id == c.id) (guess h at.clock)
            (λ x. record x { attempts = x.attempts + 1 }) w.db.otp_challenges
            (All-map w.db.otp_challenges
              (λ x only hit.
                subst
                  (λ (z : OtpChallenge).
                    guess h at.clock z ≡ record z { attempts = z.attempts + 1 })
                  (sym (only hit))
                  (unmatched-counts (self.lower_btrim email) h at.clock c
                    (newest-some (is_live (self.lower_btrim email) AuthPurpose.login)
                      (λ y. y.created_at) w.db.otp_challenges c live)
                    (λ m. unmatched (sym e ∙ m))))
              (Unique-All (λ x. x.id) w.db.otp_challenges c unique
                (newest-In (is_live (self.lower_btrim email) AuthPurpose.login) (λ y. y.created_at)
                  w.db.otp_challenges c live))))

  -- A code that is not accepted for the newest live challenge, because no attempt is left, the
  -- challenge has expired or the code's hash is another, is refused for the first of these that
  -- holds, and the error does not take back the attempt: that challenge has one more, and all else
  -- is as before. The code is not the bypass code, identifiers are unique, and the attempts are
  -- below 32767.
  pub verify_otp-counts :
      is_dev_bypass self at code ≡ false
      → latest self.lower_btrim email AuthPurpose.login w.db.otp_challenges ≡ some c
      → Unique (λ x. x.id) w.db.otp_challenges
      → c.attempts < smallint_max
      → ¬ (
          (c.attempts < c.max_attempts)
          × (at.clock < c.expires_at)
          × (c.code_hash ≡ self.hash_otp code))
      → verify_otp self at email code actor_id client w
        ≡ (err (Error.platform (reason at.clock c)), counted c w)
  verify_otp-counts real live unique room unaccepted =
      elim (Bool-cases (leb c.max_attempts c.attempts)) [
        | inl spent ↦ rw spent (
            refused Outcome.exhausted (λ e. cc) real live unique room
              (exhausted-eq h at.clock c (leb→le _ _ spent)))
        | inr some_left ↦ elim (Bool-cases (leb c.expires_at at.clock)) [
          | inl late ↦
              rw (some_left, late)
                (refused Outcome.expired (λ e. cc) real live unique room
                  (expired-eq h at.clock c (leb-false→lt _ _ some_left) (leb→le _ _ late)))
          | inr soon ↦
              let left = leb-false→lt _ _ some_left in
              let early = leb-false→lt _ _ soon in
              rw (some_left, soon)
                (refused Outcome.mismatch (λ e. cc) real live unique room
                  (mismatch-eq h at.clock c left early (λ same. unaccepted (left, early, same))))
        ]
      ]

  -- The row at the end of the column's range.
  pub full-fails :
      is_dev_bypass self at code ≡ false
      → latest self.lower_btrim email AuthPurpose.login w.db.otp_challenges ≡ some c
      → smallint_max ≤ c.attempts
      → verify_otp self at email code actor_id client w ≡ (err Error.out_of_range, w)
  unfolding verify_otp ◌>>=◌ begin raise_if modify consume_if_matching guess_code
  full-fails real live full = rw (real, live, le→leb smallint_max c.attempts full)
