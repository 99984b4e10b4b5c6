-- ===== src/Auth/Codes/Guesses.antt =====
-- A run of wrong guesses at a one-time code: the count ends the guessing.
use blog_post.Base.{
  ℕ, ◌+◌, ◌≤◌, ◌<◌, ◌≡◌, ◌≢◌, refl, subst, ap, false, String, some, List, [], ◌∷◌, ◌==◌, ◌∙◌, arith,
}
use blog_post.Base.Tables.{All, length, Unique, Unique-update_where}
use blog_post.Errors.Category.{ErrorCategory}
use blog_post.Database.Identity.{AuthPurpose, OtpChallenge}
use blog_post.Database.Exec.{World, err, Error}
use blog_post.Repository.Otp.{Outcome, latest, guess, classify, smallint_max}
use blog_post.Auth.Service.{AuthService, Instant, Client}
use blog_post.Auth.Codes.{verify_otp, is_dev_bypass}
use blog_post.Auth.Codes.Outcomes.{exhausted-eq, wrong-ne, latest-guessed}
use blog_post.Auth.Codes.Refusals.{answered, full-fails}

-- What stays between wrong guesses: the challenge that is asked for, `k` attempts into it.
pub record Faces (self : AuthService) (email : String) (c : OtpChallenge) (k : ℕ) (w : World)
    : Type 0 where
  pub current : OtpChallenge
  pub live : latest self.lower_btrim email AuthPurpose.login w.db.otp_challenges ≡ some current
  pub unique : Unique (λ x. x.id) w.db.otp_challenges
  pub counted : current.attempts ≡ k
  pub same_hash : current.code_hash ≡ c.code_hash
  pub same_limit : current.max_attempts ≡ c.max_attempts

module _ (self : AuthService) (at : Instant) (email code : String) (actor_id : ℕ) (client : Client)
    (c : OtpChallenge) (k : ℕ) (w : World) where
  -- One wrong guess.
  wrong_guess-Faces :
      Faces self email c k w
      → is_dev_bypass self at code ≡ false
      → self.hash_otp code ≢ c.code_hash
      → k < smallint_max
      → Faces self email c (k + 1) (verify_otp self at email code actor_id client w).1
  unfolding guess
  wrong_guess-Faces f real wrong room =
      let h = self.hash_otp code in
      let rows = w.db.otp_challenges in
      let key = self.lower_btrim email in
      let cur = f.current in
      let other : h ≢ cur.code_hash = λ e. wrong (e ∙ f.same_hash) in
      rw
        (answered self at email code actor_id client w cur
          (classify h at.clock (guess h at.clock cur)) (wrong-ne h at.clock cur other) real f.live
          (omega (arith, f.counted)) refl)
        (record {
          current = guess h at.clock cur;
          live = latest-guessed self.lower_btrim email h at.clock rows cur f.live f.unique other;
          unique =
              Unique-update_where (λ x. x.id) (λ x. x.id == cur.id) (guess h at.clock) rows
                (λ x. refl) f.unique;
          counted = ap (λ n. n + 1) f.counted;
          same_hash = f.same_hash;
          same_limit = f.same_limit;
        })

  -- The limit reached.
  limit-refuses :
      Faces self email c k w
      → is_dev_bypass self at code ≡ false
      → c.max_attempts ≤ k
      → k < smallint_max
      → (verify_otp self at email code actor_id client w).0
        ≡ err (Error.platform ErrorCategory.otp_attempts_exceeded)
  limit-refuses f real spent room =
      ap (λ p. p.0)
        (answered self at email code actor_id client w f.current Outcome.exhausted (λ e. cc) real
          f.live (omega (arith, f.counted))
          (exhausted-eq (self.hash_otp code) at.clock f.current
            (omega (arith, f.counted, f.same_limit))))

-- Calls of `verify_otp` for one address, one after the other.
pub guess_all : AuthService → String → ℕ → Client → List (Instant × String) → World → World
guess_all self email a client [] w = w
guess_all self email a client ((at, code) ∷ rest) w =
    guess_all self email a client rest (verify_otp self at email code a client w).1

-- None of the guesses is the bypass code or hashes to the stored hash.
abbrev pub AllWrong : AuthService → ℕ → List (Instant × String) → Type 0
AllWrong self h = All (λ g. (is_dev_bypass self g.0 g.1 ≡ false) × (self.hash_otp g.1 ≢ h))

guess_all-Faces :
    (self : AuthService) (email : String) (a : ℕ) (client : Client) (c : OtpChallenge)
    (guesses : List (Instant × String)) (k : ℕ) (w : World)
    → Faces self email c k w
    → AllWrong self c.code_hash guesses
    → k + length guesses ≤ smallint_max
    → Faces self email c (k + length guesses) (guess_all self email a client guesses w)
unfolding guess_all
guess_all-Faces self email a client c [] k w f wrong room =
    subst (λ n. Faces self email c n w) (omega arith) f
guess_all-Faces self email a client c ((at, code) ∷ rest) k w f wrong room =
    subst
      (λ n.
        Faces self email c n
          (guess_all self email a client rest (verify_otp self at email code a client w).1))
      (omega arith)
      (guess_all-Faces self email a client c rest (k + 1)
        (verify_otp self at email code a client w).1
        (wrong_guess-Faces self at email code a client c k w f wrong.0.0 wrong.0.1 (omega arith))
        wrong.1 (omega arith))

module _ (self : AuthService) (email : String) (a : ℕ) (client : Client) (c : OtpChallenge)
    (guesses : List (Instant × String)) (w : World) where
  -- A run of wrong guesses at the newest live challenge of an address, as many as its limit leaves
  -- it, ends the guessing: whatever code is tried next, the right one included, is refused as one
  -- attempt too many. Identifiers are unique, no code is the bypass code, and the guesses stay
  -- below the 32767 that the column of attempts can count.
  pub guesses_exhaust :
      latest self.lower_btrim email AuthPurpose.login w.db.otp_challenges ≡ some c
      → Unique (λ x. x.id) w.db.otp_challenges
      → AllWrong self c.code_hash guesses
      → c.max_attempts ≤ c.attempts + length guesses
      → c.attempts + length guesses < smallint_max
      → (at : Instant) (code : String) → is_dev_bypass self at code ≡ false
      → (verify_otp self at email code a client (guess_all self email a client guesses w)).0
        ≡ err (Error.platform ErrorCategory.otp_attempts_exceeded)
  guesses_exhaust live unique wrong spent room at code real =
      limit-refuses self at email code a client c (c.attempts + length guesses)
        (guess_all self email a client guesses w)
        (guess_all-Faces self email a client c guesses c.attempts w
          (record {
            current = c;
            live = live;
            unique = unique;
            counted = refl;
            same_hash = refl;
            same_limit = refl;
          })
          wrong (omega (arith, room)))
        real spent room

  -- Wrong guesses at the newest live challenge of an address, refused or not, until its attempts
  -- are 32767, the end of the column's range: the next guess, be it the right code, fails with an
  -- error of the database, which is no refusal of the platform's, and changes nothing. Identifiers are unique, and no code is the bypass code.
  pub guesses_overflow :
      latest self.lower_btrim email AuthPurpose.login w.db.otp_challenges ≡ some c
      → Unique (λ x. x.id) w.db.otp_challenges
      → AllWrong self c.code_hash guesses
      → c.attempts + length guesses ≡ smallint_max
      → (at : Instant) (code : String) → is_dev_bypass self at code ≡ false
      → verify_otp self at email code a client (guess_all self email a client guesses w)
        ≡ (err Error.out_of_range, guess_all self email a client guesses w)
  guesses_overflow live unique wrong full at code real =
      let f =
        guess_all-Faces self email a client c guesses c.attempts w
          (record {
            current = c;
            live = live;
            unique = unique;
            counted = refl;
            same_hash = refl;
            same_limit = refl;
          })
          wrong (omega (arith, full)) in
      full-fails self at email code a client (guess_all self email a client guesses w) f.current
        real f.live (omega (arith, full, f.counted))
