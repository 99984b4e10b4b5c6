-- ===== src/Content/Visible.antt =====
-- Who sees an article, and which slug it gets.
use blog_post.Base.{
  ℕ, zero, suc, ◌+◌, ◌≤◌, ◌<◌, ◌≡◌, refl, sym, ap, subst, ◌==◌, ==→eq, true, false, String, none,
  some, arith, Bool-cases, ◌⊎◌, inl, inr,
}
use blog_post.Base.Tables.{exists, find_first}
use blog_post.Errors.Category.{ErrorCategory}
use blog_post.Database.Content.{BlogRow}
use blog_post.Database.Exec.{World, Result, ok, err, Error, ◌>>=◌, raise_if}
use blog_post.Policy.{Principal, Permission, can}
use blog_post.Repository.Blogs
use blog_post.Repository.Blogs.{has_slug, is_published, to_detail}
use blog_post.Content.{BlogService, try_suffixes, free_slug, max_slug_attempts}
use blog_post.Content.Reading.{get_by_slug, visible_or_raise, is_visible, get_content}

module _ (self : BlogService) (p : Principal) (slug : String) (w : World) where
  abbrev not_found : {A : Type 0} → Result A × World
  not_found = (err (Error.platform ErrorCategory.blog_not_found), w)

  -- To whoever may not edit articles, one that is a draft or archived is answered as one that is
  -- not there, and so is its body, without a look at the store.
  pub get_by_slug-hidden :
      (row : BlogRow)
      → can Permission.edit_blog p ≡ false
      → (find_first (has_slug slug) w.db.blogs ≡ none)
        ⊎ ((find_first (has_slug slug) w.db.blogs ≡ some row) × (is_published row.status ≡ false))
      → (get_by_slug self slug p w ≡ not_found) × (get_content self slug p w ≡ not_found)
  unfolding get_by_slug get_content Blogs.get_by_slug Blogs.one to_detail visible_or_raise
      is_visible ◌>>=◌ raise_if
  get_by_slug-hidden row reader (inl gone) = (rw gone refl, rw gone refl)
  get_by_slug-hidden row reader (inr (found, hidden)) =
      (rw (found, hidden, reader) refl, rw (found, hidden, reader) refl)

abbrev slug_of : Result String × World → String
slug_of (ok s, w) = s
slug_of (err e, w) = ""

-- The slugs that are tried: the base, and the base with the suffixes of a range.
module _ (self : BlogService) (base : String) (w : World) where
  abbrev pub AllTaken : ℕ → ℕ → Type 0
  AllTaken first count =
      (k : ℕ)
      → first ≤ k
      → k < first + count
      → exists (has_slug (self.suffixed base k)) w.db.blogs ≡ true

  free_suffix :
      (suffix left : ℕ) (slug : String) (after : World)
      → try_suffixes self base suffix left w ≡ (ok slug, after)
      → (exists (has_slug slug) w.db.blogs ≡ false) ⊎ AllTaken suffix left
  unfolding try_suffixes Blogs.slug_exists ◌>>=◌
  free_suffix suffix zero slug after e = inr (λ k lo hi. absurd (omega (arith, lo, hi)))
  free_suffix suffix (suc left) slug after e =
      elim (Bool-cases (exists (has_slug (self.suffixed base suffix)) w.db.blogs)) [
        | inr free ↦
            let same : self.suffixed base suffix ≡ slug = ap (λ r. slug_of r) (rw free at e) in
            inl (subst (λ s. exists (has_slug s) w.db.blogs ≡ false) same free)
        | inl taken ↦ elim (free_suffix (suffix + 1) left slug after (rw taken at e)) [
          | inl free ↦ inl free
          | inr all ↦ inr λ k lo hi. elim (Bool-cases (k == suffix)) [
            | inl here ↦
                subst (λ n. exists (has_slug (self.suffixed base n)) w.db.blogs ≡ true)
                  (sym (==→eq k suffix here)) taken
            | inr there ↦ all k (ground (arith, lo, there)) (omega (arith, hi))
          ]
        ]
      ]

  -- The slug that is found for a base is free, or else the base and all of the fifty suffixes from
  -- two on are taken.
  pub free_slug-free :
      (slug : String) (after : World)
      → free_slug self base w ≡ (ok slug, after)
      → (exists (has_slug slug) w.db.blogs ≡ false)
        ⊎ ((exists (has_slug base) w.db.blogs ≡ true) × AllTaken 2 max_slug_attempts)
  unfolding free_slug Blogs.slug_exists ◌>>=◌
  free_slug-free slug after e = elim (Bool-cases (exists (has_slug base) w.db.blogs)) [
    | inr free ↦
        let same : base ≡ slug = ap (λ r. slug_of r) (rw free at e) in
        inl (subst (λ s. exists (has_slug s) w.db.blogs ≡ false) same free)
    | inl taken ↦ elim (free_suffix 2 max_slug_attempts slug after (rw taken at e)) [
      | inl free ↦ inl free
      | inr all ↦ inr (taken, all)
    ]
  ]
