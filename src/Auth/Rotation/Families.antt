-- ===== src/Auth/Rotation/Families.antt =====
-- Token families: at any time at most one token of a family can still be traded in.
use blog_post.Base.{
  ℕ, ◌≤◌, ◌≡◌, refl, Bool, true, false, List, ◌∷◌, ◌&&◌, ◌==◌, arith, is_none, ==→eq, ==-refl,
  &&-left, Bool-cases, inl, inr, ◌∙◌, ap, subst,
}
use blog_post.Base.Tables.{
  All, In, Unique, exists, affected, update_where, All-map, All-update_where, Unique-update_where,
  Unique-All, exists-update_where, exists-false, affected-none, affected-update_where-le,
  affected-update_where-out,
}
use blog_post.Database.Identity.{RefreshToken, RevokedReason}
use blog_post.Repository.RefreshTokens.{is_consumable, mark_consumed, mark_revoked}

-- A token that a refresh would still trade in, expiry apart.
abbrev pub live_in : ℕ → RefreshToken → Bool
live_in f t = t.family_id == f && is_none t.consumed_at && is_none t.revoked_at

abbrev pub named : ℕ → RefreshToken → Bool
named i t = t.id == i

-- Identifiers are unique, every family is named by the token that began it, and each family has at
-- most one live token.
pub record Sound (rows : List RefreshToken) : Type 0 where
  pub unique : Unique (λ t. t.id) rows
  pub rooted : All (λ t. exists (named t.family_id) rows ≡ true) rows
  pub single : (f : ℕ) → affected (live_in f) rows ≤ 1

-- An update that revives no token and keeps identifiers and families.
module _ (q : RefreshToken → Bool) (g : RefreshToken → RefreshToken)
    (same_id : (t : RefreshToken) → (g t).id ≡ t.id)
    (same_family : (t : RefreshToken) → (g t).family_id ≡ t.family_id)
    (dies : (f : ℕ) (t : RefreshToken) → live_in f (g t) ≡ true → live_in f t ≡ true) where
  pub Sound-update : (rows : List RefreshToken) → Sound rows → Sound (update_where q g rows)
  Sound-update rows s = record {
    unique = Unique-update_where (λ t. t.id) q g rows same_id s.unique;
    rooted =
        All-update_where _ q g rows (λ t _ h. rw (same_family t) h)
          (All-map rows
            (λ t h.
              exists-update_where (named t.family_id) q g rows
                (λ x. ap (λ i. i == t.family_id) (same_id x))
              ∙ h)
            s.rooted);
    single = λ f. omega (arith, affected-update_where-le (live_in f) q g rows (dies f), s.single f);
  }

-- Revoking keeps the families sound, whichever rows are chosen.
pub Sound-revoke :
    (q : RefreshToken → Bool) (r : RevokedReason) (now : ℕ) (rows : List RefreshToken)
    → Sound rows
    → Sound (update_where q (mark_revoked r now) rows)
unfolding mark_revoked
Sound-revoke q r now rows s =
    Sound-update q (mark_revoked r now) (λ t. refl) (λ t. refl) (λ f t h. ground arith) rows s

pub Sound-consume :
    (q : RefreshToken → Bool) (i now : ℕ) (rows : List RefreshToken)
    → Sound rows
    → Sound (update_where q (mark_consumed i now) rows)
unfolding mark_consumed
Sound-consume q i now rows s =
    Sound-update q (mark_consumed i now) (λ t. refl) (λ t. refl) (λ f t h. ground arith) rows s

-- A token that was traded in was the only live one of its family.
pub traded_once :
    (row : RefreshToken) (i now : ℕ) (rows : List RefreshToken)
    → Sound rows
    → In row rows
    → affected (is_consumable row.id) rows ≡ 1
    → affected
        (live_in row.family_id)
        (update_where (is_consumable row.id) (mark_consumed i now) rows)
      ≡ 0
unfolding mark_consumed
traded_once row i now rows s member one = omega (
  arith,
  one,
  s.single row.family_id,
  affected-update_where-out (live_in row.family_id) (is_consumable row.id) (mark_consumed i now)
      rows (λ t. ground arith)
      (All-map rows
        (λ t only h.
          let e : t ≡ row = only (&&-left _ _ (&&-left _ _ h)) in
          ground (arith, ap (λ (r : RefreshToken). r.family_id) e))
        (Unique-All (λ t. t.id) rows row s.unique member)),
)

module _ (new : RefreshToken) (rows : List RefreshToken) (s : Sound rows)
    (fresh : exists (named new.id) rows ≡ false) where
  none_live-eq : (f : ℕ) → live_in f new ≡ true → new.family_id ≡ f
  none_live-eq f h = ==→eq _ _ (&&-left _ _ (&&-left _ _ h))

  pub Sound-insert :
      exists (named new.family_id) (new ∷ rows) ≡ true
      → affected (live_in new.family_id) rows ≡ 0
      → Sound (new ∷ rows)
  unfolding exists affected
  Sound-insert root alone = record {
    unique = (
      All-map rows (λ t miss e. ground arith) (exists-false (named new.id) rows fresh),
      s.unique,
    );
    rooted = (root, All-map rows (λ t h. ground (arith, h)) s.rooted);
    single = λ f. elim (Bool-cases (live_in f new)) [
      | inl hit ↦
          let none_left : affected (live_in f) rows ≡ 0 =
            subst (λ g. affected (live_in g) rows ≡ 0) (none_live-eq f hit) alone in
          rw (hit, none_left) (omega arith)
      | inr miss ↦ rw miss (omega (arith, s.single f))
    ];
  }

  -- A family of the new token's own identifier has no other member.
  pub Sound-insert_root : new.family_id ≡ new.id → Sound (new ∷ rows)
  unfolding exists
  Sound-insert_root own = Sound-insert (rw (own, ==-refl) refl) (
      affected-none (live_in new.family_id) rows (
        All-map rows
          (λ t h live.
            let e : t.family_id ≡ new.id = ==→eq _ _ (&&-left _ _ (&&-left _ _ live)) ∙ own in
            cc (fresh, subst (λ i. exists (named i) rows ≡ true) e h))
          s.rooted))
