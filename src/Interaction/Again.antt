-- ===== src/Interaction/Again.antt =====
-- `comment` after a `delete_comment` of the same reader: services/interaction_service.py.
use blog_post.Base.{
  ℕ, ◌≡◌, refl, sym, ap, subst, ◌∙◌, Bool, true, false, String, none, some, List, ◌==◌, arith,
  ==→eq, &&-left, if◌then◌else◌,
}
use blog_post.Base.Tables.{
  All-map, In, Unique-All, exists, find_first, update_where, affected, affected-exists,
  exists-update_where, affected-update_where-out, affected-Unique,
}
use blog_post.Database.Content.{BlogRow}
use blog_post.Database.Interaction.{Comment}
use blog_post.Database.Exec.{World, ok, ◌>>=◌, begin, raise_if, modify}
use blog_post.Policy.{Principal, can, is_user, is_admin, require}
use blog_post.Auth.Service.{Instant}
use blog_post.Repository.Text.{fits}
use blog_post.Repository.Users.{has_id}
use blog_post.Repository.Blogs.{is_published, has_blog_id}
use blog_post.Repository.Comments
use blog_post.Repository.Comments.{is_live_root, is_deletable, set_deleted, new_comment}
use blog_post.Interaction.{
  InteractionService, require_to, user_of, allowed_user, comment, delete_comment,
}
use blog_post.Interaction.Answers.{comment-first}
use blog_post.Interaction.Threads.{Threaded}

abbrev deletion : ℕ → ℕ → Bool → ℕ → ℕ → List Comment → List Comment
deletion comment_id user_id admin now db_now rows =
    update_where (is_deletable comment_id user_id admin) (set_deleted db_now user_id now) rows

one_deleted :
    (c : Comment) (admin : Bool) (rows : List Comment)
    → Threaded rows
    → In c rows
    → is_live_root c.blog_id c.user_id c ≡ true
    → affected (is_deletable c.id c.user_id admin) rows ≡ 1
one_deleted c admin rows t member live =
    let mine : is_deletable c.id c.user_id admin c ≡ true = ground (arith, live) in
    affected-Unique (λ x. x.id) (is_deletable c.id c.user_id admin) rows c t.unique member
      (λ x h. ==→eq _ _ (&&-left _ _ (&&-left _ _ h)))
    ∙ ap (λ b. if b then 1 else 0) mine

-- The row that goes was the only live root of its reader under its article.
none_left :
    (c : Comment) (admin : Bool) (now db_now : ℕ) (rows : List Comment)
    → Threaded rows
    → In c rows
    → is_live_root c.blog_id c.user_id c ≡ true
    → exists (is_live_root c.blog_id c.user_id) (deletion c.id c.user_id admin now db_now rows)
      ≡ false
unfolding set_deleted
none_left c admin now db_now rows t member live = affected-exists _ _ (
    omega (
      arith,
      t.single c.blog_id c.user_id,
      one_deleted c admin rows t member live,
      affected-update_where-out (is_live_root c.blog_id c.user_id)
          (is_deletable c.id c.user_id admin) (set_deleted db_now c.user_id now) rows
          (λ x. ground arith)
          (All-map rows
            (λ x only h.
              let e : x ≡ c = only (&&-left _ _ (&&-left _ _ h)) in
              subst (λ y. is_live_root c.blog_id c.user_id y ≡ true) (sym e) live)
            (Unique-All (λ x. x.id) rows c t.unique member)),
    ))

module _ (self : InteractionService) (at later : Instant) (actor_id : ℕ) (admin : Bool)
    (c : Comment) (w : World) (threads : Threaded w.db.comments) (member : In c w.db.comments)
    (live : is_live_root c.blog_id c.user_id c ≡ true)
    (known : exists (has_id c.user_id) w.db.users ≡ true) where
  abbrev author : Principal
  author = Principal.signed_in actor_id c.user_id admin

  abbrev after : World
  after = record w {
    db = record w.db { comments = deletion c.id c.user_id admin at.clock at.db_now w.db.comments };
  }

  deleted : delete_comment self at author c.id w ≡ (ok tt, after)
  unfolding delete_comment allowed_user require_to can is_user is_admin user_of require
      Comments.soft_delete ◌>>=◌ begin raise_if modify
  deleted = rw (one_deleted c admin w.db.comments threads member live, known) refl

  -- A reader who deletes their root comment under a published article may write another there at
  -- once: threads are sound, the comment is live, the body fits, the id is new and not that of
  -- a comment, and the reader has an account.
  pub comment-delete_comment :
      (blog : BlogRow) (body : String)
      → blog.id ≡ c.blog_id
      → find_first (has_blog_id blog.id) w.db.blogs ≡ some blog
      → is_published blog.status ≡ true
      → fits self.text 10000 body ≡ true
      → exists (λ x. x.id == self.new_id w.drawn) w.db.comments ≡ false
      → (comment self later author blog.id body none (delete_comment self at author c.id w).1).0
        ≡ ok (new_comment later.db_now (self.new_id w.drawn) blog.id c.user_id none 0 body)
  unfolding set_deleted
  comment-delete_comment blog body same here public fitting fresh = rw deleted (
      ap (λ r. r.0)
        (comment-first self later actor_id c.user_id admin after blog here public body fitting
          (exists-update_where (λ x. x.id == self.new_id w.drawn) _ _ w.db.comments (λ x. refl)
            ∙ fresh)
          known
          (subst (λ b. exists (is_live_root b c.user_id) after.db.comments ≡ false) (sym same)
            (none_left c admin at.clock at.db_now w.db.comments threads member live))))
