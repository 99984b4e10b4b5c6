-- ===== src/Interaction/Shelves.antt =====
-- services/interaction_service.py: the collections of `InteractionService`.
use blog_post.Base.{ℕ, false, String, Option, none, some, List, ◌==◌, if◌then◌else◌}
use blog_post.Errors.Category.{ErrorCategory}
use blog_post.Database.Interaction.{Catalog, CatalogItem, Page}
use blog_post.Database.Exec.{Error, Exec, pure, raise, draw, begin, ◌>>=◌, ◌>>◌}
use blog_post.Policy.{Principal, Permission}
use blog_post.Auth.Service.{Instant}
use blog_post.Repository.Keyset.{limit_or}
use blog_post.Repository.Catalogs
use blog_post.Interaction.{InteractionService, allowed_user, assert_readable}

-- `if catalog is None or catalog.user_id != principal.user_id`
unfoldable pub owned_by : ℕ → Option Catalog → Exec Catalog
owned_by user_id none = raise (Error.platform ErrorCategory.catalog_not_found)
owned_by user_id (some c) =
    if c.user_id == user_id then pure c else raise (Error.platform ErrorCategory.catalog_not_found)

unfoldable pub owned : ℕ → ℕ → Exec Catalog
unfolding Catalogs.get owned_by
owned user_id catalog_id = do catalog ← Catalogs.get catalog_id; owned_by user_id catalog

module _ (self : InteractionService) (at : Instant) where
  unfoldable pub chosen_catalog : ℕ → Option ℕ → Exec Catalog
  unfolding Catalogs.ensure_default owned
  chosen_catalog user_id none = do
    catalog_id ← draw self.new_id
    Catalogs.ensure_default self.text at.db_now user_id catalog_id
  chosen_catalog user_id (some catalog_id) = owned user_id catalog_id

  unfoldable pub save_to_catalog : Principal → ℕ → Option ℕ → Option String → Exec CatalogItem
  unfolding allowed_user assert_readable chosen_catalog Catalogs.add_item
  save_to_catalog principal blog_id catalog_id note = do
    user_id ← allowed_user Permission.save principal
    begin (do
      assert_readable self at blog_id
      catalog ← chosen_catalog user_id catalog_id
      Catalogs.add_item at.db_now catalog.id blog_id note)

  unfoldable pub create_catalog : Principal → String → Exec Catalog
  unfolding allowed_user Catalogs.create
  create_catalog principal name = do
    user_id ← allowed_user Permission.save principal
    begin (do
      catalog_id ← draw self.new_id
      Catalogs.create self.text at.db_now catalog_id user_id name false)

unfoldable pub list_catalogs : InteractionService → Principal → Exec (List (Catalog × ℕ))
unfolding allowed_user Catalogs.list_for_user
list_catalogs self principal = do
  user_id ← allowed_user Permission.save principal
  Catalogs.list_for_user self.text user_id

unfoldable pub list_catalog_items :
    InteractionService → Principal → ℕ → Option String → Option ℕ → Exec (Page CatalogItem)
unfolding allowed_user owned Catalogs.list_items limit_or
list_catalog_items self principal catalog_id cursor limit = do
  user_id ← allowed_user Permission.save principal
  catalog ← owned user_id catalog_id
  Catalogs.list_items self.cursors catalog_id cursor (limit_or self.default_page_size limit)

unfoldable pub remove_from_catalog : Principal → ℕ → ℕ → Exec Unit
unfolding allowed_user owned Catalogs.remove_item
remove_from_catalog principal catalog_id blog_id = do
  user_id ← allowed_user Permission.save principal
  begin (do
    catalog ← owned user_id catalog_id
    removed ← Catalogs.remove_item catalog_id blog_id
    pure tt)
