-- ===== src/Errors/Tests.antt =====
-- The theorem about the error catalogue, applied.
use blog_post.Base.{◌≡◌, ◌↔◌}
use blog_post.Errors.Category.{Retryability, ErrorCategory}
use blog_post.Errors.Catalog.{error_catalog}
use blog_post.Errors.Status.{status_for}
use blog_post.Errors.Laws.{InvitesRetry, NeedsChange, retryable-InvitesRetry}

retryable-InvitesRetry_example :
    ((error_catalog ErrorCategory.slug_conflict).retryability ≡ Retryability.retryable) ↔ (
      InvitesRetry (status_for ErrorCategory.slug_conflict)
      × ¬ (NeedsChange ErrorCategory.slug_conflict))
retryable-InvitesRetry_example = retryable-InvitesRetry ErrorCategory.slug_conflict
