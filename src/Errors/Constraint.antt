-- ===== src/Errors/Constraint.antt =====
-- repository/base.py: from the constraint that PostgreSQL names to the error of the caller.
-- The names are those of src/blogs/database/migrations.
use blog_post.Base.{Option, none, some}
use blog_post.Errors.Category.{ErrorCategory}

pub data Constraint : Type 0 where
  users_pkey users_email_normalized_key users_single_admin users_email_check : Constraint
  users_display_name_check users_password_is_admin_only : Constraint
  oauth_identities_pkey oauth_identities_user_id_fkey : Constraint
  otp_challenges_pkey otp_challenges_max_attempts_check : Constraint
  refresh_tokens_pkey refresh_tokens_token_hash_key refresh_tokens_user_id_fkey : Constraint
  anonymous_actors_pkey anonymous_actors_merged_into_user_id_fkey : Constraint
  admin_login_attempts_pkey recent_views_user_id_fkey outbox_events_pkey : Constraint
  blogs_pkey blogs_slug_key blogs_slug_check blogs_title_check blogs_series_id_fkey : Constraint
  blogs_author_id_fkey blogs_series_position_check blogs_published_has_timestamp : Constraint
  blogs_archived_has_timestamp blogs_series_position_needs_series : Constraint
  blog_categories_pkey blog_categories_category_key_fkey blog_categories_blog_id_fkey : Constraint
  blog_sections_blog_id_fkey blog_sections_anchor_check blog_sections_level_check : Constraint
  blog_sections_check reference_pins_pkey reference_pins_source_blog_id_fkey : Constraint
  reference_pins_target_blog_id_fkey reference_pins_created_by_fkey : Constraint
  reference_pins_target_blog_id_target_anchor_fkey : Constraint
  -- UNIQUE (source_blog_id, target_blog_id, target_anchor), by the name PostgreSQL makes of it.
  reference_pins_source_blog_id_target_blog_id_target_anchor_key : Constraint
  comments_pkey comments_body_check comments_blog_id_fkey comments_user_id_fkey
        comments_deleted_by_fkey :
      Constraint
  markers_blog_id_fkey markers_user_id_fkey markers_progress_ratio_check : Constraint
  catalogs_pkey catalogs_name_check catalogs_user_id_fkey : Constraint
  catalog_items_catalog_id_fkey catalog_items_blog_id_fkey : Constraint
  recent_views_blog_id_fkey engagement_events_pkey : Constraint
  categories_key_check categories_label_check series_pkey series_key_check : Constraint
  series_title_check : Constraint
  comments_one_root_per_user_blog comments_parent_is_root comments_depth_matches_parent : Constraint
  catalogs_name_per_user catalogs_one_default reference_pins_not_self : Constraint

-- CONSTRAINT_ERRORS
pub constraint_errors : Constraint → Option ErrorCategory
constraint_errors Constraint.users_single_admin = some ErrorCategory.access_denied
constraint_errors Constraint.users_email_normalized_key = some ErrorCategory.request_invalid
constraint_errors Constraint.blogs_slug_key = some ErrorCategory.slug_conflict
constraint_errors Constraint.comments_one_root_per_user_blog =
    some ErrorCategory.comment_already_exists
constraint_errors Constraint.comments_parent_is_root = some ErrorCategory.comment_depth_invalid
constraint_errors Constraint.comments_depth_matches_parent =
    some ErrorCategory.comment_depth_invalid
constraint_errors Constraint.catalogs_name_per_user = some ErrorCategory.catalog_name_taken
constraint_errors Constraint.catalogs_one_default = some ErrorCategory.catalog_name_taken
constraint_errors Constraint.reference_pins_not_self = some ErrorCategory.pin_self_reference
constraint_errors Constraint.blog_categories_category_key_fkey = some ErrorCategory.category_unknown
constraint_errors Constraint.blogs_series_id_fkey = some ErrorCategory.series_unknown
constraint_errors _ = none

abbrev mapped_or_invalid : Option ErrorCategory → ErrorCategory
mapped_or_invalid none = ErrorCategory.request_invalid
mapped_or_invalid (some c) = c

abbrev first_of_two : Option ErrorCategory → Option ErrorCategory → Option ErrorCategory
first_of_two none c = c
first_of_two (some c) _ = some c

-- The call site's reading of a constraint comes first, and an unmapped one is a bad request.
unfoldable pub translate_integrity_error :
    (Constraint → Option ErrorCategory) → Constraint → ErrorCategory
unfolding constraint_errors
translate_integrity_error overrides name =
    mapped_or_invalid (first_of_two (overrides name) (constraint_errors name))
