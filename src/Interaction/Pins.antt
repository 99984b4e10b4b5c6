-- ===== src/Interaction/Pins.antt =====
-- services/interaction_service.py: the reference pins of `InteractionService`.
use blog_post.Base.{ℕ, Bool, String, Option, List, not, if◌then◌else◌}
use blog_post.Errors.Category.{ErrorCategory}
use blog_post.Database.Content.{ReferencePin}
use blog_post.Database.Exec.{Error, Exec, draw, raise_if, begin, ◌>>=◌, ◌>>◌}
use blog_post.Policy.{Principal, Permission}
use blog_post.Auth.Service.{Instant}
use blog_post.Repository.Pins as Rows
use blog_post.Interaction.{InteractionService, require_to, allowed_user}

unfoldable pub create_pin :
    InteractionService → Instant → Principal → ℕ → ℕ → String → Option String → Exec ReferencePin
unfolding allowed_user Rows.create
create_pin self at principal source_blog_id target_blog_id target_anchor note = do
  user_id ← allowed_user Permission.manage_pins principal
  begin (do
    pin_id ← draw self.new_id
    Rows.create at.db_now pin_id source_blog_id target_blog_id target_anchor note user_id)

unfoldable pub delete_pin : Principal → ℕ → Exec Unit
unfolding require_to Rows.delete
delete_pin principal pin_id = do
  require_to Permission.manage_pins principal
  begin (do
    deleted ← Rows.delete pin_id
    raise_if (not deleted) (Error.platform ErrorCategory.pin_not_found))

unfoldable pub list_pins : ℕ → Bool → Exec (List ReferencePin)
unfolding Rows.list_for_source Rows.list_for_target
list_pins blog_id inbound =
    if inbound then Rows.list_for_target blog_id else Rows.list_for_source blog_id
