-- ===== src/Content/Links.antt =====
-- The pins while the sections of an article are replaced: repository/content.py `replace_all`.
use blog_post.Base.{
  ℕ, ◌≡◌, refl, sym, subst, Bool, true, false, String, List, [], ◌∷◌, ◌&&◌, ◌==◌, str_eq, eq_iff,
  arith, &&-left, &&-right, Bool-cases, inl, inr,
}
use blog_post.Base.Tables.{
  All, In, All-map, exists, exists-In, exists-cons, delete_where, exists-update_where_keeps,
}
use blog_post.Database.Content.{BlogSection, SectionRow, ReferencePin}
use blog_post.Database.Exec.Ensures.{
  Keeps, Ensures-modify, Keeps-translating, Keeps-bind, Keeps-pure,
}
use blog_post.Database.Exec.Guards.{Ensures-unless, Ensures-when}
use blog_post.Repository.Text.{PgText}
use blog_post.Repository.Sections
use blog_post.Repository.Sections.{is_section, is_dropped, pins_into, drops_pinned, put}
use blog_post.Interaction.Links.{Anchored}

str_eq-sym : (a b : String) → str_eq a b ≡ true → str_eq b a ≡ true
str_eq-sym a b h = (eq_iff b a).1 (sym ((eq_iff a b).0 h))

-- The section of a pin is one that the pin refers to.
section-pinned :
    (s : SectionRow) (p : ReferencePin)
    → is_section p.target_blog_id p.target_anchor s ≡ true
    → pins_into s p ≡ true
section-pinned s p h =
    let blog : (s.blog_id == p.target_blog_id) ≡ true = &&-left _ _ h in
    let anchor : str_eq p.target_anchor s.section.anchor ≡ true =
      str_eq-sym s.section.anchor p.target_anchor (&&-right _ _ h) in
    let flipped : (p.target_blog_id == s.blog_id) ≡ true = ground (arith, blog) in
    rw (flipped, anchor) refl

module _ (dropped : SectionRow → Bool) (pins : List ReferencePin) (p : ReferencePin)
    (pinned : In p pins) where
  kept_section :
      (rows : List SectionRow)
      → exists (λ s. dropped s && exists (pins_into s) pins) rows ≡ false
      → exists (is_section p.target_blog_id p.target_anchor) rows ≡ true
      → exists (is_section p.target_blog_id p.target_anchor) (delete_where dropped rows) ≡ true
  unfolding exists delete_where
  kept_section [] none_dropped there = there
  kept_section (s ∷ rows) none_dropped there =
      elim (Bool-cases (is_section p.target_blog_id p.target_anchor s)) [
        | inl hit ↦ ground (
          arith,
          hit,
          none_dropped,
          exists-In (pins_into s) pins p pinned (section-pinned s p hit),
        )
        | inr miss ↦ ground (arith, miss, none_dropped, there, kept_section rows)
      ]

All-with-In :
    {A : Type 0} (P Q : A → Type 0) (all xs : List A)
    → ((x : A) → In x all → P x → Q x)
    → ((x : A) → In x xs → In x all)
    → All P xs
    → All Q xs
All-with-In P Q all [] f part h = tt
All-with-In P Q all (x ∷ xs) f part h =
    (f x (part x (inl refl)) h.0, All-with-In P Q all xs f (λ y i. part y (inr i)) h.1)

delete_dropped-Anchored :
    (b : ℕ) (sections : List BlogSection) → Keeps Anchored (Sections.delete_dropped b sections)
unfolding Sections.delete_dropped
delete_dropped-Anchored b sections =
    Ensures-unless (drops_pinned b sections) _ (λ db a. a)
      (Ensures-modify _ λ db a.
        All-with-In _ _ db.reference_pins db.reference_pins
          (λ p i h. (
            kept_section (is_dropped b sections) db.reference_pins p i db.blog_sections a.1 h.0,
            h.1,
          ))
          (λ x i. i) a.0)

put-keeps :
    (b : ℕ) (section : BlogSection) (rows : List SectionRow) (t : ℕ) (anchor : String)
    → exists (is_section t anchor) rows ≡ true
    → exists (is_section t anchor) (put b section rows) ≡ true
put-keeps b section rows t anchor there =
    elim (Bool-cases (exists (is_section b section.anchor) rows)) [
      | inr fresh ↦ rw fresh (exists-cons (is_section t anchor) _ rows there)
      | inl known ↦ rw known (
          exists-update_where_keeps (is_section t anchor) (is_section b section.anchor) _ rows
            (λ s hit here.
              let same : s.section.anchor ≡ section.anchor =
                (eq_iff s.section.anchor section.anchor).0 (&&-right _ _ hit) in
              subst (λ x. (s.blog_id == t && str_eq x anchor) ≡ true) same here)
            there)
    ]

upsert-Anchored : (pg : PgText) (b : ℕ) (s : BlogSection) → Keeps Anchored (Sections.upsert pg b s)
unfolding Sections.upsert
upsert-Anchored pg b s =
    Ensures-when _ _ (λ db a. a)
      λ _.
        Ensures-when _ _ (λ db a. a)
          λ _.
            Ensures-when _ _ (λ db a. a)
              λ _.
                Ensures-unless _ _ (λ db a. a)
                  (Ensures-modify _ λ db a.
                    All-map db.reference_pins
                      (λ p h.
                        (put-keeps b s db.blog_sections p.target_blog_id p.target_anchor h.0, h.1))
                      a.0)

upsert_all-Anchored :
    (pg : PgText) (b : ℕ) (ss : List BlogSection) → Keeps Anchored (Sections.upsert_all pg b ss)
unfolding Sections.upsert_all
upsert_all-Anchored pg b [] = Keeps-pure tt
upsert_all-Anchored pg b (s ∷ ss) =
    Keeps-bind _ _ (upsert-Anchored pg b s) λ _. upsert_all-Anchored pg b ss

pub replace_all-Anchored :
    (pg : PgText) (b : ℕ) (ss : List BlogSection) → Keeps Anchored (Sections.replace_all pg b ss)
unfolding Sections.replace_all
replace_all-Anchored pg b ss =
    Keeps-translating _ _
      (Keeps-bind _ _ (delete_dropped-Anchored b ss) λ _. upsert_all-Anchored pg b ss)
