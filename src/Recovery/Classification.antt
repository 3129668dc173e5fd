-- ===== src/Recovery/Classification.antt =====
-- src/core/technical-recovery.ts: which technical failure an error code stands for.
use shan_hai_edu_ppt.Base.{
  ℕ, Bool, true, false, ◌&&◌, ◌||◌, Option, none, some, List, [], ◌∷◌, String, is_text, trim,
  take_units, is_empty_text, text_length, ltb, leb, ◌==◌, if◌then◌else◌, Result, ok,
}
use shan_hai_edu_ppt.Ports.{StoredRun}
use shan_hai_edu_ppt.Usage.Enqueue.{Hashes}
use shan_hai_edu_ppt.Lifecycle.Failure.{LifecycleCode}
use shan_hai_edu_ppt.Recovery.{
  FailureCategory, provider_failure, contract_failure, usage_v2_failure, host_failure,
  internal_category, FailureDisposition, retryable, non_retryable, TechnicalFailure,
  begin_technical_recovery,
}
use shan_hai_edu_ppt.Recovery.Patterns.{
  to_upper_case, has_server_status, is_one_of, has_word_of, contains_one_of, after_word, codes,
}

abbrev pub retryable_provider_failure_codes : List String
retryable_provider_failure_codes =
    "PROVIDER_TIMEOUT" ∷ "PROVIDER_RATE_LIMIT" ∷ "PROVIDER_UNAVAILABLE" ∷ "RATE_LIMITED"
    ∷ "NO_HEALTHY_ROUTE" ∷ "NO_HEALTHY_ROUTE_BEFORE_SUBMIT" ∷ "IDEMPOTENCY_SUBMISSION_UNKNOWN"
    ∷ "PROVIDER_SUBMISSION_UNKNOWN" ∷ "PROVIDER_SUBMISSION_NOT_FOUND" ∷ "MEDIA_SUBMISSION_UNKNOWN"
    ∷ []

abbrev pub provider_contract_failure_codes : List String
provider_contract_failure_codes = "INVALID_IMAGE_PROMPT" ∷ "INVALID_IMAGE_REQUEST" ∷ []

abbrev pub non_retryable_authentication_failure_codes : List String
non_retryable_authentication_failure_codes =
    "MODEL_AUTH_FAILED" ∷ "BATCH_BUDGET_FINALIZATION_AUTH_FAILED" ∷ []

abbrev pub v4_contract_codes : List String
v4_contract_codes =
    "V4_LEGACY_MODEL_SNAPSHOT_UNAVAILABLE" ∷ "V4_CHAIN4_PROTOCOL_UNSUPPORTED"
    ∷ "V4_MANUSCRIPT_CONTEXT_TOO_LARGE" ∷ "V4_PLANNING_REQUEST_REPLAY_MISMATCH" ∷ []

unfoldable pub is_technical_contract_failure : List ℕ → Bool
is_technical_contract_failure n =
    is_one_of provider_contract_failure_codes n
    || has_word_of ("CONTRACT_INVALID" ∷ "INVALID_IMAGE_PROMPT" ∷ []) n
    || is_one_of
        ("DECK_REVIEW_SOURCE_COVERAGE_INCOMPLETE" ∷ "DECK_REVIEW_SOURCE_REFERENCE_INVALID"
          ∷ "DECK_REVIEW_SLIDE_REFERENCE_INVALID" ∷ "REVISION_SOURCE_REFERENCE_INVALID"
          ∷ "PAGE_ARTIFACT_INCOMPLETE" ∷ "PAGE_ARTIFACTS_INCOMPLETE" ∷ "PAGE_ARTIFACT_NOT_FOUND"
          ∷ "BLUEPRINT_SLIDE_NOT_FOUND" ∷ "DELIVERY_INPUT_FAILED" ∷ [])
        n

-- What no retry can help with: permissions, content policies, what the provider does not support.
abbrev pub refusal_words : List String
refusal_words =
    "PERMISSION" ∷ "MODEL_FORBIDDEN" ∷ "MODEL_NOT_FOUND" ∷ "CONTENT_POLICY" ∷ "UNSUPPORTED" ∷ []

abbrev pub transient_words : List String
transient_words =
    "TIMEOUT" ∷ "RATE_LIMIT" ∷ "429" ∷ "408" ∷ "425" ∷ "UNAVAILABLE" ∷ "TEMPORARY" ∷ "GATEWAY"
    ∷ "NETWORK" ∷ "UNKNOWN" ∷ "NO_HEALTHY_ROUTE" ∷ "MODEL_JSON_INVALID" ∷ "SUBMISSION_NOT_FOUND"
    ∷ "VISUAL_REVIEW_FAILED" ∷ "PAGE_REVIEW_FAILED" ∷ "DECK_REVIEW_FAILED" ∷ "DELIVERY_FAILED"
    ∷ "V4_PLANNING_STAGE_FAILED" ∷ []

unfoldable pub disposition_of : List ℕ → Option FailureDisposition
disposition_of n =
    if is_one_of v4_contract_codes n
    then some non_retryable
    else if is_technical_contract_failure n
    then some non_retryable
    else if is_one_of non_retryable_authentication_failure_codes n
        || has_word_of ("401" ∷ "403" ∷ "404" ∷ []) n
        || contains_one_of refusal_words n
    then some non_retryable
    else if is_one_of ("PROVIDER_REJECTED" ∷ "IMAGE_TASK_FAILED" ∷ []) n
    then some non_retryable
    else if contains_one_of transient_words n || has_server_status n
    then some retryable
    else none

unfoldable pub technical_failure_disposition : String → Option FailureDisposition
technical_failure_disposition error_code = disposition_of (to_upper_case error_code)

unfoldable pub is_technical_failure_code : String → Bool
is_technical_failure_code error_code = elim (technical_failure_disposition error_code) [
  | none ↦ false
  | some d ↦ true
]

unfoldable pub bounded_diagnostic_code : String → String → String
bounded_diagnostic_code error_code fallback =
    let normalized = trim error_code in
    take_units 100 (if is_empty_text normalized then fallback else normalized)

-- `/^(HOST_|PPT_)USAGE_V2_/`.
abbrev starts_with_one_of : List String → List ℕ → Bool
starts_with_one_of [] n = false
starts_with_one_of (p ∷ ps) n =
    let rest = starts_with_one_of ps n in
    elim (after_word (codes p) n) [ some left ↦ true | none ↦ rest ]

unfoldable pub category_for_known_code : List ℕ → FailureCategory
category_for_known_code n =
    if is_one_of v4_contract_codes n
    then contract_failure
    else if is_technical_contract_failure n
    then contract_failure
    else if starts_with_one_of ("HOST_USAGE_V2_" ∷ "PPT_USAGE_V2_" ∷ []) n
    then usage_v2_failure
    else if contains_one_of
        ("PROVIDER" ∷ "MODEL_" ∷ "GATEWAY" ∷ "RATE_LIMIT" ∷ "NO_HEALTHY_ROUTE" ∷ []) n
    then provider_failure
    else internal_category

abbrev pub failure_with : String → Option FailureDisposition → Option TechnicalFailure
failure_with diagnostic_code none = none
failure_with diagnostic_code (some d) = some (record {
  category = category_for_known_code (to_upper_case diagnostic_code);
  disposition = d;
  diagnostic_code = diagnostic_code;
})

unfoldable pub technical_failure_for_code : String → Option TechnicalFailure
technical_failure_for_code error_code =
    let diagnostic_code = bounded_diagnostic_code error_code "TECHNICAL_FAILURE" in
    failure_with diagnostic_code (technical_failure_disposition diagnostic_code)

-- `options`; the category, if given, is that of a provider or of a contract.
pub record ProviderOptions : Type 0 where
  pub http_status : Option ℕ
  pub disposition : Option FailureDisposition
  pub category : Option FailureCategory

abbrev is_transient_status : ℕ → Bool
is_transient_status status = status == 408 || status == 425 || status == 429 || leb 500 status

abbrev disposition_by : Option ℕ → List ℕ → FailureDisposition
disposition_by none n =
    if is_one_of retryable_provider_failure_codes n then retryable else non_retryable
disposition_by (some status) n = if is_transient_status status then retryable else non_retryable

abbrev given_or {ℓ} : {A : Type ℓ} → Option A → A → A
given_or none y = y
given_or (some x) y = x

unfoldable pub provider_technical_failure : String → ProviderOptions → TechnicalFailure
provider_technical_failure error_code options =
    let diagnostic_code = bounded_diagnostic_code error_code "PROVIDER_FAILURE" in
    let n = to_upper_case diagnostic_code in
    record {
      category = given_or options.category (
          if is_one_of provider_contract_failure_codes n
          then contract_failure
          else provider_failure);
      disposition = given_or options.disposition (disposition_by options.http_status n);
      diagnostic_code = diagnostic_code;
    }

-- `outcome === 'UNKNOWN'`.
unfoldable pub usage_v2_technical_failure : String → Bool → TechnicalFailure
usage_v2_technical_failure error_code is_unknown = record {
  category = usage_v2_failure;
  disposition = if is_unknown then retryable else non_retryable;
  diagnostic_code = bounded_diagnostic_code error_code "HOST_USAGE_V2_FAILURE";
}

unfoldable pub host_technical_failure : String → FailureDisposition → TechnicalFailure
host_technical_failure error_code d = record {
  category = host_failure;
  disposition = d;
  diagnostic_code = bounded_diagnostic_code error_code "HOST_FAILURE";
}

unfoldable pub contract_technical_failure : String → TechnicalFailure
contract_technical_failure error_code = record {
  category = contract_failure;
  disposition = non_retryable;
  diagnostic_code = bounded_diagnostic_code error_code "TECHNICAL_CONTRACT_INVALID";
}

-- `output.technicalFailure`, an object of unknown fields: the texts of two, and the third if it is a
-- text.
pub record PersistedFailure : Type 0 where
  pub category : String
  pub disposition : String
  pub diagnostic_code : Option String

abbrev pub category_named : String → Option FailureCategory
category_named name =
    if is_text name "PROVIDER"
    then some provider_failure
    else if is_text name "CONTRACT"
    then some contract_failure
    else if is_text name "USAGE_V2"
    then some usage_v2_failure
    else if is_text name "HOST"
    then some host_failure
    else if is_text name "INTERNAL"
    then some internal_category
    else none

abbrev pub disposition_named : String → Option FailureDisposition
disposition_named name =
    if is_text name "RETRYABLE"
    then some retryable
    else if is_text name "NON_RETRYABLE"
    then some non_retryable
    else none

abbrev pub read_failure :
    Option FailureCategory → Option FailureDisposition → Option String → Option TechnicalFailure
read_failure (some c) (some d) (some code) =
    if ltb 0 (text_length code) && leb (text_length code) 100
    then some (record { category = c; disposition = d; diagnostic_code = code })
    else none
read_failure _ _ _ = none

abbrev pub from_error_code : Option String → Option TechnicalFailure
from_error_code none = none
from_error_code (some code) = if is_empty_text code then none else technical_failure_for_code code

abbrev pub read_or : Option TechnicalFailure → Option String → Option TechnicalFailure
read_or (some f) error_code = some f
read_or none error_code = from_error_code error_code

abbrev pub from_persisted : Option PersistedFailure → Option TechnicalFailure
from_persisted none = none
from_persisted (some p) =
    read_failure (category_named p.category) (disposition_named p.disposition) p.diagnostic_code

-- A step gives the failure in its output and its error code.
unfoldable pub technical_failure_from_step :
    Option PersistedFailure → Option String → Option TechnicalFailure
technical_failure_from_step persisted error_code = read_or (from_persisted persisted) error_code

module _ (hashes : Hashes) where
  abbrev begin_if :
      Option TechnicalFailure → ℕ → StoredRun → Result LifecycleCode (Option StoredRun)
  begin_if none now s = ok none
  begin_if (some f) now s = begin_technical_recovery hashes f now s

  -- `beginTechnicalRecovery` with an error code.
  unfoldable pub begin_technical_recovery_for_code :
      String → ℕ → StoredRun → Result LifecycleCode (Option StoredRun)
  begin_technical_recovery_for_code code now s = begin_if (technical_failure_for_code code) now s
