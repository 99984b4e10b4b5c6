-- ===== src/Errors/Laws.antt =====
-- The catalogue of core/errors.py against the statuses of api/envelope.py.
use blog_post.Base.{ℕ, ◌≡◌, ◌⊎◌, ◌↔◌, arith}
use blog_post.Errors.Category.{Retryability, ErrorCategory}
use blog_post.Errors.Catalog.{error_catalog}
use blog_post.Errors.Status.{status_for}

abbrev pub InvitesRetry : ℕ → Type 0
InvitesRetry s = (s ≡ 409) ⊎ (s ≡ 429) ⊎ (s ≡ 502) ⊎ (s ≡ 503)

-- The refusals that a repetition of the request cannot lift: the client has to ask for another
-- code, edit the comment that is there, choose another name, or remove the pin.
abbrev pub NeedsChange : ErrorCategory → Type 0
NeedsChange c =
    (c ≡ ErrorCategory.otp_attempts_exceeded)
    ⊎ (c ≡ ErrorCategory.comment_already_exists)
    ⊎ (c ≡ ErrorCategory.catalog_name_taken)
    ⊎ (c ≡ ErrorCategory.section_referenced_by_pin)

-- The catalogue calls a category retryable exactly where it is answered by 409, 429, 502 or 503 and
-- is none of four: too many attempts at a code, a comment that exists, a name that is taken, and a
-- section that a pin refers to.
pub retryable-InvitesRetry :
    (c : ErrorCategory)
    → ((error_catalog c).retryability ≡ Retryability.retryable)
      ↔ (InvitesRetry (status_for c) × ¬ (NeedsChange c))
unfolding error_catalog status_for
retryable-InvitesRetry c = (ground arith, ground arith)
