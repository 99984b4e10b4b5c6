-- ===== src/Auth/Codes/Fresh.antt =====
-- A code that was just issued can be redeemed, and is burned by it.
use blog_post.Base.{
  ℕ, ◌≤◌, ◌<◌, ◌≡◌, refl, true, false, String, Option, none, some, List, ◌∷◌, ◌==◌, arith, le→leb,
  lt→ltb, Option-cases, inl, inr, ==-refl, ==-ne, eq_iff,
}
use blog_post.Base.Tables.{All, All-In, newest, newest-In, exists, update_where, update_where-unmet}
use blog_post.Database.Identity.{AuthPurpose, OtpChallenge}
use blog_post.Database.Exec.{World, ok, ◌>>=◌, raise_if, modify}
use blog_post.Repository.Otp

module _ (lower_btrim : String → String) (db_now id : ℕ) (email : String) (purpose : AuthPurpose)
    (code_hash expires_at max_attempts : ℕ) (ip : Option String) where
  abbrev pub issued : OtpChallenge
  issued = record {
    id = id;
    email = lower_btrim email;
    purpose = purpose;
    code_hash = code_hash;
    expires_at = expires_at;
    attempts = 0;
    max_attempts = max_attempts;
    consumed_at = none;
    created_at = db_now;
    requested_ip = ip;
  }

  same_purpose_refl : (p : AuthPurpose) → Otp.same_purpose p p ≡ true
  same_purpose_refl AuthPurpose.login = refl
  same_purpose_refl AuthPurpose.signup = refl

  issued-latest :
      (rows : List OtpChallenge)
      → All (λ c. c.created_at ≤ db_now) rows
      → Otp.latest lower_btrim email purpose (issued ∷ rows) ≡ some issued
  unfolding newest
  issued-latest rows old =
      rw ((eq_iff (lower_btrim email) (lower_btrim email)).1 refl, same_purpose_refl purpose)
        (elim (Option-cases
          (newest (Otp.is_live (lower_btrim email) purpose) (λ c. c.created_at) rows)) [
            | inl nobody ↦ rw nobody refl
            | inr (c, other) ↦
                rw
                  (
                    other,
                    le→leb c.created_at db_now
                        (All-In (λ c. c.created_at ≤ db_now) rows old (newest-In _ _ rows c other)),
                  )
                  refl
          ])

  redeemed :
      (now : ℕ)
      → 1 ≤ max_attempts
      → now < expires_at
      → (Otp.guess code_hash now issued ≡ record issued { attempts = 1; consumed_at = some now })
        × (Otp.classify code_hash now (record issued { attempts = 1; consumed_at = some now })
            ≡ Otp.Outcome.matched)
  unfolding Otp.guess Otp.classify
  redeemed now some_left soon = (
    rw (==-refl code_hash, lt→ltb now expires_at soon, lt→ltb 0 max_attempts some_left) refl,
    ground (arith, some_left, soon),
  )

  burned-unfound :
      (now : ℕ) (rows : List OtpChallenge)
      → Otp.latest lower_btrim email purpose
          (record issued { attempts = 1; consumed_at = some now } ∷ rows)
        ≡ Otp.latest lower_btrim email purpose rows
  unfolding newest
  burned-unfound now rows =
      rw ((eq_iff (lower_btrim email) (lower_btrim email)).1 refl, same_purpose_refl purpose) refl

  module _ (now : ℕ) (w : World) where
    -- A code that was just issued for an address, with an attempt or more to it, matches until it
    -- expires and is burned by that: the stored challenge carries the time, so that a second
    -- redemption does not find it, and every other challenge is as it was. The id drawn for it is
    -- not in the table yet, and no challenge there is younger.
    pub consume_if_matching-create :
        1 ≤ max_attempts
        → exists (λ c. c.id == id) w.db.otp_challenges ≡ false
        → All (λ c. c.created_at ≤ db_now) w.db.otp_challenges
        → now < expires_at
        → let after =
            (Otp.create lower_btrim db_now id email purpose code_hash expires_at max_attempts ip
              w).1 in
          let burned : OtpChallenge = record issued { attempts = 1; consumed_at = some now } in
          let redemption = Otp.consume_if_matching lower_btrim email purpose code_hash now after in
          (redemption.0 ≡ ok (some burned, Otp.Outcome.matched))
          × (redemption.1.db.otp_challenges ≡ burned ∷ w.db.otp_challenges)
          × (Otp.latest lower_btrim email purpose redemption.1.db.otp_challenges
              ≡ Otp.latest lower_btrim email purpose w.db.otp_challenges)
    unfolding Otp.create Otp.consume_if_matching ◌>>=◌ raise_if modify update_where
    consume_if_matching-create some_left fresh old soon =
        let (row, outcome) = redeemed now some_left soon in
        rw
          (
            ==-ne max_attempts 0 (λ e. omega (arith, e, some_left)),
            fresh,
            issued-latest w.db.otp_challenges old,
            row,
            outcome,
            ==-refl id,
            update_where-unmet (λ c. c.id == id) (Otp.guess code_hash now) w.db.otp_challenges
                fresh,
          )
          (refl, refl, burned-unfound now w.db.otp_challenges)
