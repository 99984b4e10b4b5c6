-- ===== src/Errors/Envelope.antt =====
-- core/errors.py `BlogPlatformError` and `to_envelope`, contracts/common.py `ErrorEnvelope` and
-- `ApiResponse`, api/envelope.py `success` and `failure`. `safe_details` is left out: it is passed
-- on unread. A text that Python tests for truth is `none` here where it is None or empty.
use blog_post.Base.{
  Bool, true, false, String, Option, none, some, or_else, is_none, str_eq, if◌then◌else◌,
}
use blog_post.Errors.Category.{ProcessingStage, Retryability, ErrorCategory}
use blog_post.Errors.Catalog.{error_catalog}

pub record BlogPlatformError : Type 0 where
  pub category : ErrorCategory
  pub stage : ProcessingStage
  pub retryability : Retryability
  pub correlation_id : Option String
  pub safe_message : String

unfoldable pub raise_error : ErrorCategory → Option String → Option String → BlogPlatformError
unfolding error_catalog
raise_error category correlation_id safe_message =
    let descriptor = error_catalog category in
    record {
      category = category;
      stage = descriptor.stage;
      retryability = descriptor.retryability;
      correlation_id = correlation_id;
      safe_message = or_else safe_message descriptor.safe_message;
    }

pub record ErrorEnvelope : Type 0 where
  pub category : ErrorCategory
  pub safe_message : String
  pub retryability : Retryability
  pub stage : ProcessingStage
  pub correlation_id : String

abbrev resolve_correlation : Option String → Option String → Option String
resolve_correlation (some own) _ = some own
resolve_correlation none given = given

-- `NonEmptyStr`: the text is stripped, and `none` is the ValidationError of one that is then empty.
unfoldable pub non_empty : (String → String) → String → Option String
non_empty strip text = if str_eq (strip text) "" then none else some (strip text)

abbrev valid_envelope : BlogPlatformError → Option String → Option String → Option ErrorEnvelope
valid_envelope error (some safe_message) (some correlation_id) = some (record {
  category = error.category;
  safe_message = safe_message;
  retryability = error.retryability;
  stage = error.stage;
  correlation_id = correlation_id;
})
valid_envelope error _ _ = none

unfoldable pub envelope_of : (String → String) → BlogPlatformError → String → Option ErrorEnvelope
unfolding non_empty
envelope_of strip error resolved =
    valid_envelope error (non_empty strip error.safe_message) (non_empty strip resolved)

abbrev envelope_with : (String → String) → BlogPlatformError → Option String → Option ErrorEnvelope
envelope_with strip error none = none
envelope_with strip error (some resolved) = envelope_of strip error resolved

-- `none` is also the ValueError of an envelope without a correlation id. The first argument is
-- Python's `str.strip`.
unfoldable pub to_envelope :
    (String → String) → BlogPlatformError → Option String → Option ErrorEnvelope
unfolding envelope_of
to_envelope strip error correlation_id =
    envelope_with strip error (resolve_correlation error.correlation_id correlation_id)

pub record ApiResponse {ℓ} (A : Type ℓ) : Type ℓ where
  pub success : Bool
  pub message : String
  pub payload : Option A
  pub error : Option ErrorEnvelope

-- A response carries an error exactly when it is no success.
abbrev xnor : Bool → Bool → Bool
xnor true b = b
xnor false true = false
xnor false false = true

abbrev consistent {ℓ} : {A : Type ℓ} → ApiResponse A → Option String → Option (ApiResponse A)
consistent r none = none
consistent r (some message) =
    if xnor (is_none r.error) r.success then some (record r { message = message }) else none

-- `none` is the ValidationError of a blank message, or the ValueError of `_consistency`.
unfoldable pub checked {ℓ} :
    {A : Type ℓ} → (String → String) → ApiResponse A → Option (ApiResponse A)
unfolding non_empty
checked strip r = consistent r (non_empty strip r.message)

unfoldable pub success {ℓ} : {A : Type ℓ} → (String → String) → A → String → Option (ApiResponse A)
unfolding checked
success strip payload message =
    checked strip
      (record { success = true; message = message; payload = some payload; error = none })

unfoldable pub failure {ℓ} :
    {A : Type ℓ} → (String → String) → ErrorEnvelope → Option (ApiResponse A)
unfolding checked
failure strip e =
    checked strip
      (record { success = false; message = e.safe_message; payload = none; error = some e })
