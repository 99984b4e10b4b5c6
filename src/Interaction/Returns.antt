-- ===== src/Interaction/Returns.antt =====
-- `get_marker` after `place_marker`: services/interaction_service.py.
use blog_post.Base.{
  ℕ, ◌≡◌, refl, ap, Bool, true, String, Option, some, List, [], ◌∷◌, not, ==-refl, ==→eq, &&-false,
  Bool-cases, inl, inr, &&-left, &&-right, Option-cases,
}
use blog_post.Base.Tables.{
  All, exists, find_first, find_first-exists, find_first-some, find_first-none,
  find_first-update_where,
}
use blog_post.Database.Content.{BlogRow}
use blog_post.Database.Interaction.{Marker, MarkerAnchor}
use blog_post.Database.Exec.{World, ok, ◌>>=◌, begin, raise_if, modify, or_raise}
use blog_post.Policy.{Principal, can, is_user, require}
use blog_post.Auth.Service.{Instant}
use blog_post.Repository.Users.{has_id}
use blog_post.Repository.Sections
use blog_post.Repository.Sections.{is_section}
use blog_post.Repository.Blogs
use blog_post.Repository.Blogs.{is_published, has_blog_id, to_detail}
use blog_post.Repository.Markers as Rows
use blog_post.Repository.Markers.{is_at, is_ratio, kept_ratio}
use blog_post.Interaction.{InteractionService, require_to, user_of, allowed_user, assert_readable}
use blog_post.Interaction.Markers.{
  headings, assert_headings, assert_anchors_exist, place_marker, get_marker,
}

placed_row :
    (m x : Marker)
    → is_at m.user_id m.blog_id x ≡ true
    → (record x { anchor = m.anchor; progress_ratio = m.progress_ratio; updated_at = m.updated_at })
      ≡ m
placed_row m x h =
    let e : x.user_id ≡ m.user_id = ==→eq _ _ (&&-left _ _ h) in
    let f : x.blog_id ≡ m.blog_id = ==→eq _ _ (&&-right _ _ h) in rw (e, f) refl

find_first-put :
    (m : Marker) (rows : List Marker)
    → find_first (is_at m.user_id m.blog_id) (Rows.put m rows) ≡ some m
unfolding Rows.put find_first
find_first-put m rows = elim (Bool-cases (exists (is_at m.user_id m.blog_id) rows)) [
  | inr gone ↦ rw (gone, ==-refl m.user_id, ==-refl m.blog_id) refl
  | inl there ↦ elim (Option-cases (find_first (is_at m.user_id m.blog_id) rows)) [
    | inl nobody ↦ cc (there, find_first-none (is_at m.user_id m.blog_id) rows nobody)
    | inr (x, found) ↦
        let hit = find_first-some (is_at m.user_id m.blog_id) rows x found in
        rw
          (
            there,
            find_first-update_where (is_at m.user_id m.blog_id) (is_at m.user_id m.blog_id)
                (λ x. record x {
                  anchor = m.anchor;
                  progress_ratio = m.progress_ratio;
                  updated_at = m.updated_at;
                })
                rows (λ x. refl),
            found,
            hit,
          )
          (ap some (placed_row m x hit))
  ]
]

All-headings :
    (b : ℕ) (hs : List String) (w : World)
    → All (λ h. exists (is_section b h) w.db.blog_sections ≡ true) hs
    → assert_headings b hs w ≡ (ok tt, w)
unfolding assert_headings Sections.section_exists ◌>>=◌ raise_if
All-headings b [] w a = refl
All-headings b (h ∷ hs) w a = rw (a.0, All-headings b hs w a.1) refl

module _ (self : InteractionService) (at : Instant) (actor_id user_id : ℕ) (admin : Bool)
    (w : World) where
  abbrev reader : Principal
  reader = Principal.signed_in actor_id user_id admin

  module _ (blog : BlogRow) (here : find_first (has_blog_id blog.id) w.db.blogs ≡ some blog)
      (public : is_published blog.status ≡ true) where
    -- A marker that is placed in a published article, at headings that the article has, is what the
    -- reader is shown there from then on, wherever the marker stood before, but for its ratio, of
    -- which they are shown what the column keeps. That is at most one, and the reader has an
    -- account.
    pub get_marker-place_marker :
        (anchor : MarkerAnchor) (progress_ratio : Option ℕ)
        → All (λ h. exists (is_section blog.id h) w.db.blog_sections ≡ true) (headings anchor)
        → is_ratio (kept_ratio self.to_real progress_ratio) ≡ true
        → exists (has_id user_id) w.db.users ≡ true
        → (get_marker reader blog.id
            (place_marker self at reader blog.id anchor progress_ratio w).1).0
          ≡ ok (record {
            user_id = user_id;
            blog_id = blog.id;
            anchor = anchor;
            progress_ratio = kept_ratio self.to_real progress_ratio;
            updated_at = at.clock;
          })
    unfolding place_marker get_marker allowed_user require_to can is_user user_of require
        assert_readable assert_anchors_exist Blogs.get Blogs.one to_detail Rows.upsert Rows.get
        ◌>>=◌ begin raise_if modify or_raise
    get_marker-place_marker anchor ratio headed in_range known =
        let unseen = &&-false (not (exists (is_at user_id blog.id) w.db.markers)) in
        rw
          (
            here,
            public,
            All-headings blog.id (headings anchor) w headed,
            in_range,
            known,
            unseen,
            find_first-exists (has_blog_id blog.id) w.db.blogs blog here,
            unseen,
            find_first-put
                (record {
                  user_id = user_id;
                  blog_id = blog.id;
                  anchor = anchor;
                  progress_ratio = kept_ratio self.to_real ratio;
                  updated_at = at.clock;
                })
                w.db.markers,
          )
          refl
