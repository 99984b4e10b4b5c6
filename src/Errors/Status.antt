-- ===== src/Errors/Status.antt =====
-- api/envelope.py: the HTTP status of each category.
use blog_post.Base.{ℕ}
use blog_post.Errors.Category.{ErrorCategory}

unfoldable pub status_for : ErrorCategory → ℕ
status_for ErrorCategory.auth_token_invalid = 401
status_for ErrorCategory.auth_token_expired = 401
status_for ErrorCategory.auth_token_revoked = 401
status_for ErrorCategory.auth_required = 401
status_for ErrorCategory.otp_invalid = 401
status_for ErrorCategory.otp_expired = 401
status_for ErrorCategory.otp_attempts_exceeded = 429
status_for ErrorCategory.otp_throttled = 429
status_for ErrorCategory.oauth_provider_unknown = 404
status_for ErrorCategory.oauth_state_invalid = 400
status_for ErrorCategory.oauth_exchange_failed = 502
status_for ErrorCategory.oauth_email_unverified = 401
status_for ErrorCategory.refresh_token_invalid = 401
status_for ErrorCategory.refresh_token_expired = 401
status_for ErrorCategory.refresh_token_reused = 401
status_for ErrorCategory.actor_token_invalid = 401
status_for ErrorCategory.admin_credentials_invalid = 401
status_for ErrorCategory.admin_locked_out = 429
status_for ErrorCategory.admin_password_not_set = 401
status_for ErrorCategory.access_denied = 403
status_for ErrorCategory.admin_required = 403
status_for ErrorCategory.user_not_found = 404
status_for ErrorCategory.user_inactive = 403
status_for ErrorCategory.blog_not_found = 404
status_for ErrorCategory.blog_not_published = 404
status_for ErrorCategory.slug_conflict = 409
status_for ErrorCategory.markdown_invalid = 422
status_for ErrorCategory.markdown_too_large = 413
status_for ErrorCategory.section_anchor_unknown = 422
status_for ErrorCategory.section_referenced_by_pin = 409
status_for ErrorCategory.category_unknown = 422
status_for ErrorCategory.series_unknown = 422
status_for ErrorCategory.comment_not_found = 404
status_for ErrorCategory.comment_already_exists = 409
status_for ErrorCategory.comment_depth_invalid = 422
status_for ErrorCategory.marker_not_found = 404
status_for ErrorCategory.catalog_not_found = 404
status_for ErrorCategory.catalog_name_taken = 409
status_for ErrorCategory.pin_not_found = 404
status_for ErrorCategory.pin_self_reference = 422
status_for ErrorCategory.storage_unavailable = 503
status_for ErrorCategory.storage_object_not_found = 500
status_for ErrorCategory.database_unavailable = 503
status_for ErrorCategory.email_not_configured = 500
status_for ErrorCategory.email_send_failed = 503
status_for ErrorCategory.rate_limited = 429
status_for ErrorCategory.request_invalid = 400
status_for ErrorCategory.internal_error = 500
