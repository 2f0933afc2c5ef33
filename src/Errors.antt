-- ===== src/Errors.antt =====
-- core/errors.py: the classes of application errors, what each class sets and what it inherits, and
-- the public description of an exception.
pub mod Taxonomy
use knoarbor.Prelude.{ℕ, zero, suc, String, Bool, true, false, Option, none, some}
use knoarbor.Json.{Json, Fields, boolean, number, text, end, field}

pub data ErrorCategory : Type 0 where
  user_input_error external_service_error model_output_error policy_rejection storage_conflict
        internal_error :
      ErrorCategory

pub data ErrorCode : Type 0 where
  input_001 input_002 cfg_001 cfg_002 vault_001 src_001 src_002 doc_001 ext_001 model_001 sem_001
        policy_001 storage_001 run_001 runtime_001 internal_001 :
      ErrorCode

-- The classes; each name is the class's, spelled with underscores.
pub data ErrorClass : Type 0 where
  knoarbor_error : ErrorClass
  user_input_error_class : ErrorClass
  input_file_not_found : ErrorClass
  wiki_page_not_found : ErrorClass
  config_not_found : ErrorClass
  invalid_config : ErrorClass
  vault_path_error : ErrorClass
  connector_config_error : ErrorClass
  source_not_found : ErrorClass
  document_preprocessor_unavailable : ErrorClass
  external_service_error_class : ErrorClass
  model_output_error_class : ErrorClass
  semantic_contract_error : ErrorClass
  policy_rejection_class : ErrorClass
  storage_conflict_class : ErrorClass
  materialization_pending : ErrorClass
  internal_knoarbor_error : ErrorClass
  run_not_found : ErrorClass
  runtime_capability_error : ErrorClass

-- The base class of each class below `KnoArborError`.
abbrev pub parent : ErrorClass → Option ErrorClass
parent knoarbor_error = none
parent user_input_error_class = some knoarbor_error
parent input_file_not_found = some user_input_error_class
parent wiki_page_not_found = some input_file_not_found
parent config_not_found = some user_input_error_class
parent invalid_config = some user_input_error_class
parent vault_path_error = some user_input_error_class
parent connector_config_error = some user_input_error_class
parent source_not_found = some user_input_error_class
parent document_preprocessor_unavailable = some user_input_error_class
parent external_service_error_class = some knoarbor_error
parent model_output_error_class = some knoarbor_error
parent semantic_contract_error = some model_output_error_class
parent policy_rejection_class = some knoarbor_error
parent storage_conflict_class = some knoarbor_error
parent materialization_pending = some storage_conflict_class
parent internal_knoarbor_error = some knoarbor_error
parent run_not_found = some user_input_error_class
parent runtime_capability_error = some internal_knoarbor_error

-- The attributes that a class sets itself.
abbrev pub own_code : ErrorClass → Option ErrorCode
own_code knoarbor_error = some internal_001
own_code user_input_error_class = some input_001
own_code input_file_not_found = some input_002
own_code config_not_found = some cfg_001
own_code invalid_config = some cfg_002
own_code vault_path_error = some vault_001
own_code connector_config_error = some src_001
own_code source_not_found = some src_002
own_code document_preprocessor_unavailable = some doc_001
own_code external_service_error_class = some ext_001
own_code model_output_error_class = some model_001
own_code semantic_contract_error = some sem_001
own_code policy_rejection_class = some policy_001
own_code storage_conflict_class = some storage_001
own_code internal_knoarbor_error = some internal_001
own_code run_not_found = some run_001
own_code runtime_capability_error = some runtime_001
own_code _ = none

abbrev pub own_category : ErrorClass → Option ErrorCategory
own_category knoarbor_error = some internal_error
own_category user_input_error_class = some user_input_error
own_category external_service_error_class = some external_service_error
own_category model_output_error_class = some model_output_error
own_category policy_rejection_class = some policy_rejection
own_category storage_conflict_class = some storage_conflict
own_category internal_knoarbor_error = some internal_error
own_category _ = none

abbrev pub own_http_status : ErrorClass → Option ℕ
own_http_status knoarbor_error = some 500
own_http_status user_input_error_class = some 400
own_http_status wiki_page_not_found = some 404
own_http_status external_service_error_class = some 502
own_http_status model_output_error_class = some 502
own_http_status policy_rejection_class = some 422
own_http_status storage_conflict_class = some 409
own_http_status internal_knoarbor_error = some 500
own_http_status _ = none

abbrev pub own_retryable : ErrorClass → Option Bool
own_retryable knoarbor_error = some false
own_retryable external_service_error_class = some true
own_retryable model_output_error_class = some true
own_retryable storage_conflict_class = some true
own_retryable _ = none

-- Attribute lookup along the bases; the deepest class has three of them.
unfoldable pub attribute {ℓ} : {A : Type ℓ} → ℕ → (ErrorClass → Option A) → A → ErrorClass → A
attribute zero own base c = base
attribute (suc depth) own base c = elim (own c) [
  | some a ↦ a
  | none ↦ elim (parent c) [ some p ↦ attribute depth own base p | none ↦ base ]
]

abbrev pub depth : ℕ
depth = 4

pub record ErrorDescriptor : Type 0 where
  pub code : ErrorCode
  pub category : ErrorCategory
  pub message : String
  pub http_status : ℕ
  pub retryable : Bool

-- `KnoArborError.descriptor`.
unfoldable pub descriptor : ErrorClass → String → ErrorDescriptor
unfolding attribute
descriptor c message = record {
  code = attribute depth own_code internal_001 c;
  category = attribute depth own_category internal_error c;
  message = message;
  http_status = attribute depth own_http_status 500 c;
  retryable = attribute depth own_retryable false c;
}

-- An exception: of a class above, or of the built-in classes that the code tells apart.
-- `RunCancelled` is a `RuntimeError` of runtime/run_monitor.py.
pub data Raised : Type 0 where
  known : ErrorClass → String → Raised
  file_not_found : String → Raised
  value_error : String → Raised
  run_cancelled : String → Raised
  other : String → String → Raised

abbrev internal_description : String → ErrorDescriptor
internal_description message = record {
  code = internal_001;
  category = internal_error;
  message = message;
  http_status = 500;
  retryable = false;
}

unfoldable pub describe_exception : Raised → ErrorDescriptor
unfolding descriptor
describe_exception (known c message) = descriptor c message
describe_exception (file_not_found message) = record {
  code = input_002;
  category = user_input_error;
  message = message;
  http_status = 400;
  retryable = false;
}
describe_exception (value_error message) = record {
  code = input_001;
  category = user_input_error;
  message = message;
  http_status = 400;
  retryable = false;
}
describe_exception (run_cancelled message) = internal_description message
describe_exception (other name message) = internal_description message

abbrev pub code_text : ErrorCode → String
code_text input_001 = "KA-INPUT-001"
code_text input_002 = "KA-INPUT-002"
code_text cfg_001 = "KA-CFG-001"
code_text cfg_002 = "KA-CFG-002"
code_text vault_001 = "KA-VAULT-001"
code_text src_001 = "KA-SRC-001"
code_text src_002 = "KA-SRC-002"
code_text doc_001 = "KA-DOC-001"
code_text ext_001 = "KA-EXT-001"
code_text model_001 = "KA-MODEL-001"
code_text sem_001 = "KA-SEM-001"
code_text policy_001 = "KA-POLICY-001"
code_text storage_001 = "KA-STORAGE-001"
code_text run_001 = "KA-RUN-001"
code_text runtime_001 = "KA-RUNTIME-001"
code_text internal_001 = "KA-INTERNAL-001"

abbrev pub category_text : ErrorCategory → String
category_text user_input_error = "user_input_error"
category_text external_service_error = "external_service_error"
category_text model_output_error = "model_output_error"
category_text policy_rejection = "policy_rejection"
category_text storage_conflict = "storage_conflict"
category_text internal_error = "internal_error"

-- `ERROR_HINTS`.
abbrev pub error_hint : ErrorCode → String
error_hint input_001 = "Check the command arguments or request payload and retry."
error_hint input_002 =
    "Check that the file path exists and is readable from the current runtime environment."
error_hint cfg_001 =
    "Create config.yaml from config.example.yaml or pass --config with a valid path."
error_hint cfg_002 = "Fix config.yaml according to config.example.yaml and run `kno doctor` again."
error_hint vault_001 = "Check the vault path and initialize it with `kno init` if needed."
error_hint src_001 =
    "Check connector settings in config.yaml, including enabled flags and source paths."
error_hint src_002 = "Check that the configured source path exists and is readable."
error_hint doc_001 =
    "Configure a document preprocessor such as MinerU, or provide Markdown input directly."
error_hint ext_001 =
    "Check the external service endpoint, credentials, and network connectivity; this error is retryable."
error_hint model_001 =
    "Check model provider output, JSON mode support, max tokens, and retry with a smaller input if needed."
error_hint sem_001 =
    "The model output violated a semantic contract; retry or reduce the source segment size."
error_hint policy_001 =
    "Review the policy decision and adjust the input or configuration if the rejection is expected."
error_hint storage_001 =
    "Another process may be writing the vault; wait for it to finish and retry."
error_hint run_001 = "Check the run id and vault path, then refresh the run list."
error_hint runtime_001 = "Check the local runtime environment and installed optional dependencies."
error_hint internal_001 = "Open an issue with the command, report, and logs if this repeats."

-- `type(exc).__name__`.
abbrev pub class_name : ErrorClass → String
class_name knoarbor_error = "KnoArborError"
class_name user_input_error_class = "UserInputError"
class_name input_file_not_found = "InputFileNotFound"
class_name wiki_page_not_found = "WikiPageNotFound"
class_name config_not_found = "ConfigNotFound"
class_name invalid_config = "InvalidConfig"
class_name vault_path_error = "VaultPathError"
class_name connector_config_error = "ConnectorConfigError"
class_name source_not_found = "SourceNotFound"
class_name document_preprocessor_unavailable = "DocumentPreprocessorUnavailable"
class_name external_service_error_class = "ExternalServiceError"
class_name model_output_error_class = "ModelOutputError"
class_name semantic_contract_error = "SemanticContractError"
class_name policy_rejection_class = "PolicyRejection"
class_name storage_conflict_class = "StorageConflict"
class_name materialization_pending = "MaterializationPending"
class_name internal_knoarbor_error = "InternalKnoArborError"
class_name run_not_found = "RunNotFound"
class_name runtime_capability_error = "RuntimeCapabilityError"

abbrev pub error_type : Raised → String
error_type (known c message) = class_name c
error_type (file_not_found message) = "FileNotFoundError"
error_type (value_error message) = "ValueError"
error_type (run_cancelled message) = "RunCancelled"
error_type (other name message) = name

unfoldable pub error_info : Raised → Fields
unfolding describe_exception
error_info raised =
    let d = describe_exception raised in
    field "code" (text (code_text d.code)) (
      field "category" (text (category_text d.category)) (
        field "message" (text d.message) (
          field "http_status" (number d.http_status) (
            field "retryable" (boolean d.retryable) (
              field "hint" (text (error_hint d.code))
                (field "error_type" (text (error_type raised)) end))))))
