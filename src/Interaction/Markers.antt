-- ===== src/Interaction/Markers.antt =====
-- services/interaction_service.py: the markers of `InteractionService`.
use blog_post.Base.{ℕ, String, Option, List, [], ◌∷◌, not}
use blog_post.Errors.Category.{ErrorCategory}
use blog_post.Database.Interaction.{Marker, MarkerAnchor}
use blog_post.Database.Exec.{Error, Exec, pure, raise_if, or_raise, begin, ◌>>=◌, ◌>>◌}
use blog_post.Policy.{Principal, Permission}
use blog_post.Auth.Service.{Instant}
use blog_post.Repository.Sections
use blog_post.Repository.Markers as Rows
use blog_post.Interaction.{InteractionService, allowed_user, assert_readable}

-- The headings that an anchor names.
unfoldable pub headings : MarkerAnchor → List String
headings (MarkerAnchor.section anchor _) = anchor ∷ []
headings (MarkerAnchor.range start_anchor _ end_anchor _) = start_anchor ∷ end_anchor ∷ []
headings (MarkerAnchor.offset _) = []

unfoldable pub assert_headings : ℕ → List String → Exec Unit
unfolding Sections.section_exists
assert_headings blog_id [] = pure tt
assert_headings blog_id (value ∷ rest) = do
  known ← Sections.section_exists blog_id value
  raise_if (not known) (Error.platform ErrorCategory.section_anchor_unknown)
  assert_headings blog_id rest

-- `_assert_anchors_exist`
unfoldable pub assert_anchors_exist : ℕ → MarkerAnchor → Exec Unit
unfolding headings assert_headings
assert_anchors_exist blog_id anchor = assert_headings blog_id (headings anchor)

module _ (self : InteractionService) (at : Instant) where
  unfoldable pub place_marker : Principal → ℕ → MarkerAnchor → Option ℕ → Exec Marker
  unfolding allowed_user assert_readable assert_anchors_exist Rows.upsert
  place_marker principal blog_id anchor progress_ratio = do
    user_id ← allowed_user Permission.mark principal
    begin (do
      assert_readable self at blog_id
      assert_anchors_exist blog_id anchor
      Rows.upsert self.to_real user_id blog_id anchor progress_ratio at.clock)

unfoldable pub get_marker : Principal → ℕ → Exec Marker
unfolding allowed_user Rows.get
get_marker principal blog_id = do
  user_id ← allowed_user Permission.mark principal
  marker ← Rows.get user_id blog_id
  or_raise marker (Error.platform ErrorCategory.marker_not_found)

unfoldable pub delete_marker : Principal → ℕ → Exec Unit
unfolding allowed_user Rows.delete
delete_marker principal blog_id = do
  user_id ← allowed_user Permission.mark principal
  begin (do
    deleted ← Rows.delete user_id blog_id
    raise_if (not deleted) (Error.platform ErrorCategory.marker_not_found))

unfoldable pub list_markers : Principal → Exec (List Marker)
unfolding allowed_user Rows.list_for_user
list_markers principal = do
  user_id ← allowed_user Permission.mark principal
  Rows.list_for_user user_id 100
