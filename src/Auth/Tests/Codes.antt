-- ===== src/Auth/Tests/Codes.antt =====
-- The theorems about one-time codes, applied.
use blog_post.Base.{
  ◌==◌, ◌≡◌, ◌≢◌, ◌↔◌, ◌+◌, ◌<◌, refl, List, String, some, none, [], ◌∷◌, arith, false,
}
use blog_post.Base.Tables.{exists, newest}
use blog_post.Errors.Category.{ErrorCategory}
use blog_post.Database.Identity.{OtpChallenge, AuthPurpose}
use blog_post.Database.Exec.{ok, World, err, Error}
use blog_post.Repository.Otp.{Outcome, latest, classify, guess}
use blog_post.Auth.Service.{Instant}
use blog_post.Auth.Codes.{verify_otp, is_dev_bypass}
use blog_post.Auth.Codes.Guesses.{guesses_exhaust, guesses_overflow, guess_all, AllWrong}
use blog_post.Auth.Codes.Outcomes.{classify-guess}
use blog_post.Auth.Codes.Refusals.{verify_otp-counts, counted, reason}
use blog_post.Repository.Otp
use blog_post.Auth.Codes.Fresh.{issued, consume_if_matching-create}
use blog_post.Auth.Tests.{service, noon, browser, world, challenge}

classify-guess_example :
    ((classify 1 5 (guess 1 5 challenge) ≡ Outcome.matched)
      ↔ ((guess 1 5 challenge).consumed_at ≡ some 5))
    × ((classify 1 5 (guess 1 5 challenge) ≡ Outcome.matched) ↔ (
        (challenge.code_hash ≡ 1)
        × (5 < challenge.expires_at)
        × (challenge.attempts < challenge.max_attempts)))
    × ((guess 1 5 challenge).attempts ≡ challenge.attempts + 1)
    × (classify 1 5 (guess 1 5 challenge) ≢ Outcome.matched
        → (guess 1 5 challenge).consumed_at ≡ none)
classify-guess_example = classify-guess 1 5 challenge

challenge-live :
    latest service.lower_btrim "reader" AuthPurpose.login world.db.otp_challenges ≡ some challenge
unfolding newest
challenge-live = refl

not_bypass : (code : String) → is_dev_bypass service noon code ≡ false
unfolding is_dev_bypass
not_bypass code = refl

abbrev wrong_codes : List (Instant × String)
wrong_codes = (noon, "000000") ∷ (noon, "000001") ∷ []

codes-AllWrong : AllWrong service challenge.code_hash wrong_codes
codes-AllWrong = ((not_bypass "000000", λ e. cc), ((not_bypass "000001", λ e. cc), tt))

guesses_exhaust_example :
    (verify_otp service noon "reader" "111111" 30 browser
      (guess_all service "reader" 30 browser wrong_codes world)).0
    ≡ err (Error.platform ErrorCategory.otp_attempts_exceeded)
guesses_exhaust_example =
    guesses_exhaust service "reader" 30 browser challenge wrong_codes world challenge-live (tt, tt)
      codes-AllWrong (omega arith) (omega arith) noon "111111" (not_bypass "111111")

verify_otp-counts_example :
    verify_otp service noon "reader" "000000" 30 browser world
    ≡ (err (Error.platform (reason noon.clock challenge)), counted challenge world)
verify_otp-counts_example =
    verify_otp-counts service noon "reader" "000000" 30 browser world challenge
      (not_bypass "000000") challenge-live (tt, tt) (omega arith) (λ accepted. cc accepted.2)

-- A challenge that has been guessed at almost as often as the column can count.
abbrev worn : OtpChallenge
worn = record challenge { attempts = 32765 }

abbrev worn_world : World
worn_world = record world { db = record world.db { otp_challenges = worn ∷ [] } }

worn-live :
    latest service.lower_btrim "reader" AuthPurpose.login worn_world.db.otp_challenges ≡ some worn
unfolding newest
worn-live = refl

worn-AllWrong : AllWrong service worn.code_hash wrong_codes
worn-AllWrong = codes-AllWrong

guesses_overflow_example :
    verify_otp service noon "reader" "111111" 30 browser
      (guess_all service "reader" 30 browser wrong_codes worn_world)
    ≡ (err Error.out_of_range, guess_all service "reader" 30 browser wrong_codes worn_world)
guesses_overflow_example =
    guesses_overflow service "reader" 30 browser worn wrong_codes worn_world worn-live (tt, tt)
      worn-AllWrong (omega arith) noon "111111" (not_bypass "111111")

code_id-fresh : exists (λ c. c.id == 21) world.db.otp_challenges ≡ false
unfolding exists
code_id-fresh = refl

abbrev burned : OtpChallenge
burned = record (issued service.lower_btrim 9 21 "reader" AuthPurpose.login 1 9900000 3 none) {
  attempts = 1;
  consumed_at = some 12;
}

consume_if_matching-create_example :
    let after =
      (Otp.create service.lower_btrim 9 21 "reader" AuthPurpose.login 1 9900000 3 none world).1 in
    let redemption =
      Otp.consume_if_matching service.lower_btrim "reader" AuthPurpose.login 1 12 after in
    (redemption.0 ≡ ok (some burned, Outcome.matched))
    × (redemption.1.db.otp_challenges ≡ burned ∷ world.db.otp_challenges)
    × (latest service.lower_btrim "reader" AuthPurpose.login redemption.1.db.otp_challenges
        ≡ latest service.lower_btrim "reader" AuthPurpose.login world.db.otp_challenges)
consume_if_matching-create_example =
    consume_if_matching-create service.lower_btrim 9 21 "reader" AuthPurpose.login 1 9900000 3 none
      12 world (omega arith) code_id-fresh (omega arith, tt) (omega arith)
