-- ===== src/Errors/Catalog.antt =====
-- core/errors.py: the catalogue, one row for each category. The safe messages are the source's.
use blog_post.Base.{String}
use blog_post.Errors.Category.{ProcessingStage, Retryability, ErrorCategory}

pub record ErrorDescriptor : Type 0 where
  pub stage : ProcessingStage
  pub retryability : Retryability
  pub safe_message : String

row : ProcessingStage → Retryability → String → ErrorDescriptor
row s r m = record { stage = s; retryability = r; safe_message = m }

unfoldable pub error_catalog : ErrorCategory → ErrorDescriptor
unfolding row
error_catalog ErrorCategory.auth_token_invalid =
    row ProcessingStage.auth Retryability.not_retryable "The supplied credentials are not valid."
error_catalog ErrorCategory.auth_token_expired =
    row ProcessingStage.auth Retryability.not_retryable
      "The access token has expired. Refresh and retry."
error_catalog ErrorCategory.auth_token_revoked =
    row ProcessingStage.auth Retryability.not_retryable "This credential has been revoked."
error_catalog ErrorCategory.auth_required =
    row ProcessingStage.auth Retryability.not_retryable "This action requires you to sign in."
error_catalog ErrorCategory.otp_invalid =
    row ProcessingStage.auth Retryability.not_retryable "That code is not correct."
error_catalog ErrorCategory.otp_expired =
    row ProcessingStage.auth Retryability.not_retryable "That code has expired. Request a new one."
error_catalog ErrorCategory.otp_attempts_exceeded =
    row ProcessingStage.auth Retryability.not_retryable
      "Too many incorrect attempts. Request a new code."
error_catalog ErrorCategory.otp_throttled =
    row ProcessingStage.auth Retryability.retryable
      "A code was requested recently. Wait before requesting another."
error_catalog ErrorCategory.oauth_provider_unknown =
    row ProcessingStage.auth Retryability.not_retryable "That sign-in provider is not supported."
error_catalog ErrorCategory.oauth_state_invalid =
    row ProcessingStage.auth Retryability.not_retryable
      "The sign-in attempt could not be verified. Start again."
error_catalog ErrorCategory.oauth_exchange_failed =
    row ProcessingStage.auth Retryability.retryable
      "The sign-in provider could not complete the request."
error_catalog ErrorCategory.oauth_email_unverified =
    row ProcessingStage.auth Retryability.not_retryable
      "The provider has not verified that email address."
error_catalog ErrorCategory.refresh_token_invalid =
    row ProcessingStage.auth Retryability.not_retryable
      "The refresh token is not valid. Sign in again."
error_catalog ErrorCategory.refresh_token_expired =
    row ProcessingStage.auth Retryability.not_retryable
      "The refresh token has expired. Sign in again."
error_catalog ErrorCategory.refresh_token_reused =
    row ProcessingStage.auth Retryability.not_retryable
      "This session is no longer valid. Sign in again."
error_catalog ErrorCategory.actor_token_invalid =
    row ProcessingStage.auth Retryability.not_retryable "The visitor token is not valid."
error_catalog ErrorCategory.admin_credentials_invalid =
    row ProcessingStage.auth Retryability.not_retryable "Those credentials are not valid."
error_catalog ErrorCategory.admin_locked_out =
    row ProcessingStage.auth Retryability.retryable "Too many failed attempts. Try again later."
error_catalog ErrorCategory.admin_password_not_set =
    row ProcessingStage.auth Retryability.not_retryable
      "This account cannot sign in with a password."
error_catalog ErrorCategory.access_denied =
    row ProcessingStage.access Retryability.not_retryable "You do not have access to this resource."
error_catalog ErrorCategory.admin_required =
    row ProcessingStage.access Retryability.not_retryable
      "This action is restricted to the site administrator."
error_catalog ErrorCategory.user_not_found =
    row ProcessingStage.access Retryability.not_retryable "That account does not exist."
error_catalog ErrorCategory.user_inactive =
    row ProcessingStage.access Retryability.not_retryable "That account is no longer active."
error_catalog ErrorCategory.blog_not_found =
    row ProcessingStage.access Retryability.not_retryable "That article does not exist."
error_catalog ErrorCategory.blog_not_published =
    row ProcessingStage.access Retryability.not_retryable "That article is not published."
error_catalog ErrorCategory.slug_conflict =
    row ProcessingStage.persist Retryability.retryable
      "An article with that address already exists."
error_catalog ErrorCategory.markdown_invalid =
    row ProcessingStage.validate Retryability.not_retryable "The Markdown file could not be read."
error_catalog ErrorCategory.markdown_too_large =
    row ProcessingStage.validate Retryability.not_retryable
      "The Markdown file is larger than the allowed size."
error_catalog ErrorCategory.section_anchor_unknown =
    row ProcessingStage.validate Retryability.not_retryable
      "That article has no section with that anchor."
error_catalog ErrorCategory.section_referenced_by_pin =
    row ProcessingStage.persist Retryability.not_retryable
      "This edit removes a section that another article references. Remove the reference pin first, or keep the heading."
error_catalog ErrorCategory.category_unknown =
    row ProcessingStage.validate Retryability.not_retryable "That category does not exist."
error_catalog ErrorCategory.series_unknown =
    row ProcessingStage.validate Retryability.not_retryable "That series does not exist."
error_catalog ErrorCategory.comment_not_found =
    row ProcessingStage.access Retryability.not_retryable "That comment does not exist."
error_catalog ErrorCategory.comment_already_exists =
    row ProcessingStage.persist Retryability.not_retryable
      "You have already commented on this article. Edit it instead."
error_catalog ErrorCategory.comment_depth_invalid =
    row ProcessingStage.validate Retryability.not_retryable
      "Replies can only be made to a top-level comment."
error_catalog ErrorCategory.marker_not_found =
    row ProcessingStage.access Retryability.not_retryable
      "You have no saved position in this article."
error_catalog ErrorCategory.catalog_not_found =
    row ProcessingStage.access Retryability.not_retryable "That collection does not exist."
error_catalog ErrorCategory.catalog_name_taken =
    row ProcessingStage.persist Retryability.not_retryable
      "You already have a collection with that name."
error_catalog ErrorCategory.pin_not_found =
    row ProcessingStage.access Retryability.not_retryable "That reference pin does not exist."
error_catalog ErrorCategory.pin_self_reference =
    row ProcessingStage.validate Retryability.not_retryable
      "An article cannot pin a reference to itself."
error_catalog ErrorCategory.storage_unavailable =
    row ProcessingStage.storage Retryability.retryable "Article storage is temporarily unavailable."
error_catalog ErrorCategory.storage_object_not_found =
    row ProcessingStage.storage Retryability.not_retryable
      "The stored article content could not be found."
error_catalog ErrorCategory.database_unavailable =
    row ProcessingStage.persist Retryability.retryable
      "The service is temporarily unable to reach its database."
error_catalog ErrorCategory.email_not_configured =
    row ProcessingStage.publish Retryability.not_retryable "Email is not available right now."
error_catalog ErrorCategory.email_send_failed =
    row ProcessingStage.publish Retryability.retryable
      "The message could not be sent. Try again shortly."
error_catalog ErrorCategory.rate_limited =
    row ProcessingStage.access Retryability.retryable "Too many requests. Try again shortly."
error_catalog ErrorCategory.request_invalid =
    row ProcessingStage.compose Retryability.not_retryable
      "The request is missing a required value or contains an invalid value."
error_catalog ErrorCategory.internal_error =
    row ProcessingStage.compose Retryability.policy_dependent
      "The service could not complete the request because of an internal error."
