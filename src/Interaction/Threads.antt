-- ===== src/Interaction/Threads.antt =====
-- Comment threads: the unique index on roots, and the parents of replies.
pub mod Kept
use blog_post.Base.{
  ℕ, ◌≤◌, ◌≡◌, refl, sym, ap, ◌∙◌, Bool, true, false, Option, none, some, List, ◌∷◌, ◌&&◌, not,
  ◌==◌, arith, is_none, subst, if◌then◌else◌, ==→eq, Bool-cases, inl, inr, &&-left, &&-right,
}
use blog_post.Base.Tables.{
  All, Unique, exists, affected, update_where, All-map, All-update_where, Unique-update_where,
  exists-update_where, exists-false, affected-update_where-le, affected-none,
}
use blog_post.Database.Interaction.{Comment}
use blog_post.Repository.Comments.{is_live_root, is_root_of, lacks_parent}

-- A root, or a reply under a root of its article.
abbrev pub is_placed : List Comment → Comment → Bool
is_placed rows c =
    c.depth == (if is_none c.parent_comment_id then 0 else 1)
    && not (lacks_parent c.parent_comment_id c.blog_id rows)

pub record Threaded (rows : List Comment) : Type 0 where
  pub unique : Unique (λ c. c.id) rows
  pub single : (blog_id user_id : ℕ) → affected (is_live_root blog_id user_id) rows ≤ 1
  pub placed : All (λ c. is_placed rows c ≡ true) rows

-- An update that keeps what places a comment, and brings no root back.
module _ (q : Comment → Bool) (g : Comment → Comment) (same_id : (c : Comment) → (g c).id ≡ c.id)
    (same_root : (p b : ℕ) (c : Comment) → is_root_of p b (g c) ≡ is_root_of p b c)
    (same_place : (rows : List Comment) (c : Comment) → is_placed rows (g c) ≡ is_placed rows c)
    (dies : (b u : ℕ) (c : Comment)
      → is_live_root b u (g c) ≡ true
      → is_live_root b u c ≡ true) where
  lacks_parent-update :
      (p : Option ℕ) (b : ℕ) (rows : List Comment)
      → lacks_parent p b (update_where q g rows) ≡ lacks_parent p b rows
  lacks_parent-update none b rows = refl
  lacks_parent-update (some p) b rows =
      ap not (exists-update_where (is_root_of p b) q g rows (same_root p b))

  pub Threaded-update : (rows : List Comment) → Threaded rows → Threaded (update_where q g rows)
  Threaded-update rows t = record {
    unique = Unique-update_where (λ c. c.id) q g rows same_id t.unique;
    single = λ b u.
        omega
          (arith, affected-update_where-le (is_live_root b u) q g rows (dies b u), t.single b u);
    placed =
        All-update_where _ q g rows (λ c _ h. same_place (update_where q g rows) c ∙ h)
          (All-map rows (λ c h. rw (lacks_parent-update c.parent_comment_id c.blog_id rows) h)
            t.placed);
  }

module _ (new : Comment) (rows : List Comment) where
  lacks_parent-cons :
      (p : Option ℕ) (b : ℕ) → lacks_parent p b rows ≡ false → lacks_parent p b (new ∷ rows) ≡ false
  unfolding exists
  lacks_parent-cons none b h = refl
  lacks_parent-cons (some p) b h = ground (arith, h)

  is_placed-cons : (c : Comment) → is_placed rows c ≡ true → is_placed (new ∷ rows) c ≡ true
  is_placed-cons c h = ground (arith, h, lacks_parent-cons c.parent_comment_id c.blog_id)

  none_live :
      (b u : ℕ) → exists (is_live_root b u) rows ≡ false → affected (is_live_root b u) rows ≡ 0
  none_live b u h =
      affected-none (is_live_root b u) rows
        (All-map rows (λ c miss hit. cc (miss, hit)) (exists-false (is_live_root b u) rows h))

  -- Where the new comment is a live root of the pair, there was none.
  only_one :
      (new.depth == 0 && exists (is_live_root new.blog_id new.user_id) rows) ≡ false
      → (b u : ℕ) → is_live_root b u new ≡ true
      → affected (is_live_root b u) rows ≡ 0
  only_one alone b u hit =
      let pair = &&-left _ _ (&&-left _ _ hit) in
      let same_blog : new.blog_id ≡ b = ==→eq _ _ (&&-left _ _ pair) in
      let same_user : new.user_id ≡ u = ==→eq _ _ (&&-right _ _ pair) in
      let root : (new.depth == 0) ≡ true = &&-right _ _ (&&-left _ _ hit) in
      none_live b u (
        subst (λ x. exists (is_live_root x u) rows ≡ false) same_blog
          (subst (λ x. exists (is_live_root new.blog_id x) rows ≡ false) same_user
            (rw root at alone)))

  -- A new comment: its id is fresh, its parent is there, and it is not a second live root.
  pub Threaded-insert :
      exists (λ c. c.id == new.id) rows ≡ false
      → (new.depth == 0 && exists (is_live_root new.blog_id new.user_id) rows) ≡ false
      → is_placed rows new ≡ true
      → Threaded rows
      → Threaded (new ∷ rows)
  unfolding affected
  Threaded-insert fresh alone here t = record {
    unique = (
      All-map rows (λ c miss e. ground arith) (exists-false (λ c. c.id == new.id) rows fresh),
      t.unique,
    );
    single = λ b u. elim (Bool-cases (is_live_root b u new)) [
      | inl hit ↦ rw (hit, only_one alone b u hit) (omega arith)
      | inr miss ↦ rw miss (omega (arith, t.single b u))
    ];
    placed = (is_placed-cons new here, All-map rows is_placed-cons t.placed);
  }
