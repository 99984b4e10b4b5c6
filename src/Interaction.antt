-- ===== src/Interaction.antt =====
-- services/interaction_service.py `InteractionService`: what its use cases share, and the comments.
-- The methods on markers, collections and pins are in the children.
pub mod Markers
pub mod Shelves
pub mod Pins
pub mod Threads
pub mod Places
pub mod Frames
pub mod Links
pub mod Preserved
pub mod History
pub mod Pages
pub mod Answers
pub mod Tests
pub mod Saved
pub mod Returns
pub mod Again
use blog_post.Base.{ℕ, Bool, true, false, String, Option, none, some, ◌&&◌, not, if◌then◌else◌}
use blog_post.Errors.Category.{ErrorCategory}
use blog_post.Database.Content.{BlogDetail}
use blog_post.Database.Interaction.{Comment, CommentThread, Page}
use blog_post.Database.Exec.{Error, Exec, pure, raise, draw, raise_if, or_raise, begin, ◌>>=◌, ◌>>◌}
use blog_post.Policy.{Principal, Permission, can, require}
use blog_post.Auth.Service.{Instant}
use blog_post.Repository.Text.{PgText}
use blog_post.Repository.Keyset.{CursorCodec, limit_or}
use blog_post.Repository.Blogs
use blog_post.Repository.Comments

pub record InteractionService : Type 0 where
  pub new_id : ℕ → ℕ
  pub default_page_size : ℕ
  pub text : PgText
  -- What a column of type real keeps of a double.
  pub to_real : ℕ → ℕ
  pub cursors : CursorCodec

-- `require(self._policy.can_...(principal), principal=principal)`
unfoldable pub require_to : Permission → Principal → Exec Unit
unfolding can require
require_to question principal = elim (require (can question principal) principal) [
  | none ↦ pure tt
  | some c ↦ raise (Error.platform c)
]

-- `assert isinstance(principal, UserPrincipal)`, after which the user is read off it.
unfoldable pub user_of : Principal → Exec ℕ
user_of (Principal.anonymous _) = raise Error.assertion
user_of (Principal.signed_in _ user_id _) = pure user_id

unfoldable pub allowed_user : Permission → Principal → Exec ℕ
unfolding require_to user_of
allowed_user question principal = require_to question principal >> user_of principal

abbrev pub is_readable : Option BlogDetail → Bool
is_readable none = false
is_readable (some d) = Blogs.is_published d.blog.status

module _ (self : InteractionService) (at : Instant) where
  -- `_assert_readable`
  unfoldable pub assert_readable : ℕ → Exec Unit
  unfolding Blogs.get
  assert_readable blog_id = do
    blog ← Blogs.get self.text blog_id
    raise_if (not (is_readable blog)) (Error.platform ErrorCategory.blog_not_found)

  unfoldable pub write_comment : ℕ → ℕ → String → Option ℕ → Exec Comment
  unfolding Comments.create_root Comments.create_reply
  write_comment user_id blog_id body none = do
    comment_id ← draw self.new_id
    Comments.create_root self.text at.db_now comment_id blog_id user_id body
  write_comment user_id blog_id body (some parent) = do
    comment_id ← draw self.new_id
    Comments.create_reply self.text at.db_now comment_id blog_id user_id parent body

  unfoldable pub comment : Principal → ℕ → String → Option ℕ → Exec Comment
  unfolding allowed_user assert_readable write_comment
  comment principal blog_id body parent_comment_id = do
    user_id ← allowed_user Permission.comment principal
    begin (do assert_readable blog_id; write_comment user_id blog_id body parent_comment_id)

  unfoldable pub edit_comment : Principal → ℕ → String → Exec Comment
  unfolding allowed_user Comments.update_body
  edit_comment principal comment_id body = do
    user_id ← allowed_user Permission.comment principal
    updated ← begin (Comments.update_body self.text at.db_now comment_id user_id body)
    or_raise updated (Error.platform ErrorCategory.comment_not_found)

  -- Outside the transaction, which has committed by then.
  unfoldable pub delete_comment : Principal → ℕ → Exec Unit
  unfolding allowed_user Comments.soft_delete can
  delete_comment principal comment_id = do
    user_id ← allowed_user Permission.comment principal
    deleted ← begin (
        Comments.soft_delete at.db_now comment_id user_id at.clock
          (can Permission.moderate principal))
    raise_if (not deleted) (Error.platform ErrorCategory.comment_not_found)

unfoldable pub list_comments :
    InteractionService → ℕ → Option String → Option ℕ → Exec (Page CommentThread)
unfolding Comments.list_threads limit_or
list_comments self blog_id cursor limit =
    Comments.list_threads self.cursors blog_id cursor (limit_or self.default_page_size limit)
