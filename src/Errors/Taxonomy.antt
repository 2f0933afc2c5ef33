-- ===== src/Errors/Taxonomy.antt =====
-- core/errors.py: what the classes of errors have in common.
use knoarbor.Prelude.{ℕ, String, ◌≡◌, refl, ap, Bool, true, false, ◌&&◌, ltb, leb, arith}
use knoarbor.Errors.{
  ErrorCategory, ErrorClass, Raised, ErrorDescriptor, describe_exception, error_info, known,
  attribute, descriptor, category_text, file_not_found, value_error, run_cancelled, other,
  user_input_error, external_service_error, model_output_error, policy_rejection, storage_conflict,
}
use knoarbor.Json.{get, boolean, number, text}

-- The categories of faults that may pass: a service, a model, another writer.
abbrev pub is_transient : ErrorCategory → Bool
is_transient external_service_error = true
is_transient model_output_error = true
is_transient storage_conflict = true
is_transient _ = false

-- The categories that the request itself answers for.
abbrev pub is_callers : ErrorCategory → Bool
is_callers user_input_error = true
is_callers policy_rejection = true
is_callers storage_conflict = true
is_callers _ = false

abbrev pub is_client_status : ℕ → Bool
is_client_status n = leb 400 n && ltb n 500

abbrev pub IsClassified : ErrorDescriptor → Type 0
IsClassified d =
    (d.retryable ≡ is_transient d.category)
    × (is_client_status d.http_status ≡ is_callers d.category)

descriptor-IsClassified : (c : ErrorClass) (message : String) → IsClassified (descriptor c message)
unfolding descriptor attribute
descriptor-IsClassified c message = ground arith

-- Every exception is described as retryable exactly when its category is that of a passing fault,
-- and with a status of 400 to 499 exactly when its category is the caller's.
pub describe_exception-IsClassified : (raised : Raised) → IsClassified (describe_exception raised)
unfolding describe_exception
describe_exception-IsClassified (known c message) = descriptor-IsClassified c message
describe_exception-IsClassified (file_not_found message) = (refl, refl)
describe_exception-IsClassified (value_error message) = (refl, refl)
describe_exception-IsClassified (run_cancelled message) = (refl, refl)
describe_exception-IsClassified (other name message) = (refl, refl)

-- The public form of every exception names a category, is retryable exactly when that category is
-- of a passing fault (an external service, a model's output, another writer), and has a status of
-- 400 to 499 exactly when it is the request's (its input, a policy, another writer).
pub error_info-classified :
    (raised : Raised)
    → (category : ErrorCategory) × (status : ℕ) × (get "category" (error_info raised)
        ≡ text (category_text category))
      × (get "retryable" (error_info raised) ≡ boolean (is_transient category))
      × (get "http_status" (error_info raised) ≡ number status)
      × (is_client_status status ≡ is_callers category)
unfolding error_info get
error_info-classified raised =
    let (retryable, client) = describe_exception-IsClassified raised in
    (
      (describe_exception raised).category,
      (describe_exception raised).http_status,
      refl,
      ap boolean retryable,
      refl,
      client,
    )
