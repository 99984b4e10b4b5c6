-- ===== src/Interaction/Answers.antt =====
-- What the interaction service answers to a signed-in reader.
use blog_post.Base.{
  ℕ, ◌+◌, ◌≡◌, ◌≢◌, ◌⊎◌, refl, Bool, true, false, String, none, some, List, [], ◌∷◌, ◌==◌, arith,
}
use blog_post.Base.Tables.{
  All, exists, find_first, find_first-exists, exists-find_first, exists-affected,
  update_where-unmet,
}
use blog_post.Errors.Category.{ErrorCategory}
use blog_post.Errors.Constraint.{translate_integrity_error}
use blog_post.Database.Content.{BlogRow}
use blog_post.Database.Interaction.{Comment}
use blog_post.Database.Exec.{
  World, ok, err, Error, ◌>>=◌, begin, raise_if, modify, translating, or_raise,
}
use blog_post.Policy.{Principal, can, is_user, is_admin, require}
use blog_post.Auth.Service.{Instant}
use blog_post.Repository.Text.{fits}
use blog_post.Repository.Users.{has_id}
use blog_post.Repository.Blogs
use blog_post.Repository.Blogs.{is_published, has_blog_id, to_detail}
use blog_post.Repository.Comments
use blog_post.Repository.Comments.{is_live_root, is_root_of, new_comment, is_own, is_deletable}
use blog_post.Interaction.{
  InteractionService, require_to, user_of, allowed_user, assert_readable, write_comment, comment,
  edit_comment, delete_comment,
}

-- A comment that the caller may not edit: another one than is asked for, another reader's, or one
-- that is deleted.
abbrev pub IsOthers : ℕ → ℕ → Comment → Type 0
IsOthers comment_id user_id c = (c.id ≢ comment_id) ⊎ (c.user_id ≢ user_id) ⊎ (c.deleted_at ≢ none)

-- A comment that the caller may not delete: an administrator may delete another reader's.
abbrev pub IsProtected : ℕ → ℕ → Bool → Comment → Type 0
IsProtected comment_id user_id admin c =
    (c.id ≢ comment_id) ⊎ ((admin ≡ false) × (c.user_id ≢ user_id)) ⊎ (c.deleted_at ≢ none)

none_own :
    (comment_id user_id : ℕ) (cs : List Comment)
    → All (IsOthers comment_id user_id) cs
    → exists (is_own comment_id user_id) cs ≡ false
unfolding exists
none_own comment_id user_id [] h = refl
none_own comment_id user_id (c ∷ cs) h = ground (arith, h.0, none_own comment_id user_id cs h.1)

none_deletable :
    (comment_id user_id : ℕ) (admin : Bool) (cs : List Comment)
    → All (IsProtected comment_id user_id admin) cs
    → exists (is_deletable comment_id user_id admin) cs ≡ false
unfolding exists
none_deletable comment_id user_id admin [] h = refl
none_deletable comment_id user_id admin (c ∷ cs) h =
    ground (arith, h.0, none_deletable comment_id user_id admin cs h.1)

module _ (self : InteractionService) (at : Instant) (actor_id user_id : ℕ) (admin : Bool)
    (w : World) where
  abbrev reader : Principal
  reader = Principal.signed_in actor_id user_id admin

  abbrev drawn : World
  drawn = record w { drawn = w.drawn + 1 }

  module _ (blog : BlogRow) (here : find_first (has_blog_id blog.id) w.db.blogs ≡ some blog)
      (public : is_published blog.status ≡ true) (body : String)
      (fitting : fits self.text 10000 body ≡ true)
      (fresh : exists (λ c. c.id == self.new_id w.drawn) w.db.comments ≡ false) where
    -- A second root comment of a reader under an article is refused as one that exists, and nothing
    -- is written: a body that fits, under a published article, with an id that is new.
    pub comment-second :
        exists (is_live_root blog.id user_id) w.db.comments ≡ true
        → comment self at reader blog.id body none w
          ≡ (err (Error.platform ErrorCategory.comment_already_exists), drawn)
    unfolding comment allowed_user require_to can is_user user_of require assert_readable Blogs.get
        Blogs.one to_detail write_comment Comments.create_root Comments.insert ◌>>=◌ begin raise_if
        translating translate_integrity_error
    comment-second taken = rw (here, public, fitting, fresh, taken) refl

    article_exists : exists (λ b. b.id == blog.id) w.db.blogs ≡ true
    article_exists = find_first-exists (has_blog_id blog.id) w.db.blogs blog here

    -- A reply under what is no root comment of the article is refused as too deep, and nothing is
    -- written: a body that fits, under a published article, with an id that is new, of a reader
    -- who has an account.
    pub comment-orphan :
        (parent : ℕ)
        → exists (has_id user_id) w.db.users ≡ true
        → exists (is_root_of parent blog.id) w.db.comments ≡ false
        → comment self at reader blog.id body (some parent) w
          ≡ (err (Error.platform ErrorCategory.comment_depth_invalid), drawn)
    unfolding comment allowed_user require_to can is_user user_of require assert_readable Blogs.get
        Blogs.one to_detail write_comment Comments.create_reply Comments.insert ◌>>=◌ begin raise_if
        translating translate_integrity_error
    comment-orphan parent known orphan =
        rw (here, public, fitting, fresh, article_exists, known, orphan) refl

    abbrev first_comment : Comment
    first_comment = new_comment at.db_now (self.new_id w.drawn) blog.id user_id none 0 body

    -- The first comment of a reader under a published article is stored as a root comment: a body
    -- that fits, an id that is new, a reader who has an account and no live root comment there.
    pub comment-first :
        exists (has_id user_id) w.db.users ≡ true
        → exists (is_live_root blog.id user_id) w.db.comments ≡ false
        → comment self at reader blog.id body none w ≡ (
          ok first_comment,
          record drawn { db = record w.db { comments = first_comment ∷ w.db.comments } },
        )
    unfolding comment allowed_user require_to can is_user user_of require assert_readable Blogs.get
        Blogs.one to_detail write_comment Comments.create_root Comments.insert ◌>>=◌ begin raise_if
        translating modify
    comment-first known none_yet =
        rw (here, public, fitting, fresh, none_yet, article_exists, known) refl

  -- An edit is answered as one of a comment that is not found, and nothing is written, where no
  -- comment of that id is both the caller's and not deleted.
  pub edit_comment-other :
      (comment_id : ℕ) (body : String)
      → All (IsOthers comment_id user_id) w.db.comments
      → edit_comment self at reader comment_id body w
        ≡ (err (Error.platform ErrorCategory.comment_not_found), w)
  unfolding edit_comment allowed_user require_to can is_user user_of require Comments.update_body
      ◌>>=◌ begin raise_if modify or_raise
  edit_comment-other comment_id body others =
      let unmet = none_own comment_id user_id w.db.comments others in
      rw
        (
          unmet,
          update_where-unmet (is_own comment_id user_id) _ w.db.comments unmet,
          exists-find_first (is_own comment_id user_id) w.db.comments unmet,
        )
        refl

  -- A deletion is answered as one of a comment that is not found, and nothing is written, where the
  -- comment of that id is another reader's and the caller is no administrator, or is deleted
  -- already, or there is none.
  pub delete_comment-other :
      (comment_id : ℕ)
      → All (IsProtected comment_id user_id admin) w.db.comments
      → delete_comment self at reader comment_id w
        ≡ (err (Error.platform ErrorCategory.comment_not_found), w)
  unfolding delete_comment allowed_user require_to can is_user is_admin user_of require
      Comments.soft_delete ◌>>=◌ begin raise_if modify
  delete_comment-other comment_id protected =
      let unmet = none_deletable comment_id user_id admin w.db.comments protected in
      rw
        (
          exists-affected (is_deletable comment_id user_id admin) w.db.comments unmet,
          update_where-unmet (is_deletable comment_id user_id admin) _ w.db.comments unmet,
        )
        refl
