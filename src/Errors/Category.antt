-- ===== src/Errors/Category.antt =====
-- contracts/common.py: the closed sets behind every error.
pub data ProcessingStage : Type 0 where
  auth access validate persist storage publish compose : ProcessingStage

pub data Retryability : Type 0 where
  retryable not_retryable policy_dependent : Retryability

pub data ErrorCategory : Type 0 where
  auth_token_invalid auth_token_expired auth_token_revoked auth_required otp_invalid : ErrorCategory
  otp_expired otp_attempts_exceeded otp_throttled oauth_provider_unknown oauth_state_invalid :
      ErrorCategory
  oauth_exchange_failed oauth_email_unverified refresh_token_invalid refresh_token_expired :
      ErrorCategory
  refresh_token_reused actor_token_invalid admin_credentials_invalid admin_locked_out :
      ErrorCategory
  admin_password_not_set access_denied admin_required user_not_found user_inactive : ErrorCategory
  blog_not_found blog_not_published slug_conflict markdown_invalid markdown_too_large :
      ErrorCategory
  section_anchor_unknown section_referenced_by_pin category_unknown series_unknown : ErrorCategory
  comment_not_found comment_already_exists comment_depth_invalid marker_not_found : ErrorCategory
  catalog_not_found catalog_name_taken pin_not_found pin_self_reference storage_unavailable :
      ErrorCategory
  storage_object_not_found database_unavailable email_not_configured email_send_failed :
      ErrorCategory
  rate_limited request_invalid internal_error : ErrorCategory
