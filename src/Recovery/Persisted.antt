-- ===== src/Recovery/Persisted.antt =====
-- Technical failures that are written to a step and read back: src/core/technical-recovery.ts.
use shan_hai_edu_ppt.Base.{
  ◌≤◌, ◌<◌, ◌≡◌, refl, ap, subst, ◌∙◌, inl, inr, Bool, false, Option, none, some, String, is_text,
  text_length, trim, is_empty_text, text_length-take_units-le, take_units_some, arith, Bool-cases,
}
use shan_hai_edu_ppt.Recovery.{
  FailureCategory, provider_failure, contract_failure, usage_v2_failure, host_failure,
  internal_category, FailureDisposition, retryable, non_retryable, TechnicalFailure,
}
use shan_hai_edu_ppt.Recovery.Classification.{
  bounded_diagnostic_code, technical_failure_for_code, failure_with, ProviderOptions,
  provider_technical_failure, usage_v2_technical_failure, host_technical_failure,
  contract_technical_failure, PersistedFailure, category_named, disposition_named, read_failure,
  read_or, technical_failure_from_step,
}

-- How a failure is written into the output of its step: with the names of the source.
abbrev pub category_name : FailureCategory → String
category_name provider_failure = "PROVIDER"
category_name contract_failure = "CONTRACT"
category_name usage_v2_failure = "USAGE_V2"
category_name host_failure = "HOST"
category_name internal_category = "INTERNAL"

abbrev pub disposition_name : FailureDisposition → String
disposition_name retryable = "RETRYABLE"
disposition_name non_retryable = "NON_RETRYABLE"

abbrev pub persist : TechnicalFailure → PersistedFailure
persist f = record {
  category = category_name f.category;
  disposition = disposition_name f.disposition;
  diagnostic_code = some f.diagnostic_code;
}

category_named-category_name : (c : FailureCategory) → category_named (category_name c) ≡ some c
unfolding is_text
category_named-category_name provider_failure = refl
category_named-category_name contract_failure = refl
category_named-category_name usage_v2_failure = refl
category_named-category_name host_failure = refl
category_named-category_name internal_category = refl

disposition_named-disposition_name :
    (d : FailureDisposition) → disposition_named (disposition_name d) ≡ some d
unfolding is_text
disposition_named-disposition_name retryable = refl
disposition_named-disposition_name non_retryable = refl

-- The diagnostic code that the reader takes: not empty, and of at most 100 characters.
abbrev pub IsBounded : String → Type 0
IsBounded code = (0 < text_length code) × (text_length code ≤ 100)

bounded_diagnostic_code-IsBounded :
    (error_code fallback : String)
    → is_empty_text fallback ≡ false
    → IsBounded (bounded_diagnostic_code error_code fallback)
unfolding bounded_diagnostic_code
bounded_diagnostic_code-IsBounded error_code fallback some_fallback =
    elim (Bool-cases (is_empty_text (trim error_code))) [
      | inl blank ↦ rw blank (
        (take_units_some 100 fallback (omega arith) some_fallback),
        text_length-take_units-le 100 fallback,
      )
      | inr filled ↦ rw filled (
        take_units_some 100 (trim error_code) (omega arith) filled,
        text_length-take_units-le 100 (trim error_code),
      )
    ]

read_failure_bounded :
    (c : FailureCategory) (d : FailureDisposition) (code : String)
    → IsBounded code
    → read_failure (some c) (some d) (some code)
      ≡ some (record { category = c; disposition = d; diagnostic_code = code })
read_failure_bounded c d code (filled, bounded) = ground (arith, filled, bounded)

-- A failure with such a code is read back as it was written, whatever the step's error code.
persist-read :
    (f : TechnicalFailure) (error_code : Option String)
    → IsBounded f.diagnostic_code
    → technical_failure_from_step (some (persist f)) error_code ≡ some f
unfolding technical_failure_from_step
persist-read f error_code bounded =
    ap (λ r. read_or r error_code)
      (ap
          (λ c.
            read_failure c (disposition_named (disposition_name f.disposition))
              (some f.diagnostic_code))
          (category_named-category_name f.category)
        ∙ ap (λ d. read_failure (some f.category) d (some f.diagnostic_code))
            (disposition_named-disposition_name f.disposition)
        ∙ read_failure_bounded f.category f.disposition f.diagnostic_code bounded)

provider-IsBounded :
    (error_code : String) (options : ProviderOptions)
    → IsBounded (provider_technical_failure error_code options).diagnostic_code
unfolding provider_technical_failure
provider-IsBounded error_code options =
    bounded_diagnostic_code-IsBounded error_code "PROVIDER_FAILURE" refl

usage_v2-IsBounded :
    (error_code : String) (is_unknown : Bool)
    → IsBounded (usage_v2_technical_failure error_code is_unknown).diagnostic_code
unfolding usage_v2_technical_failure
usage_v2-IsBounded error_code is_unknown =
    bounded_diagnostic_code-IsBounded error_code "HOST_USAGE_V2_FAILURE" refl

host-IsBounded :
    (error_code : String) (d : FailureDisposition)
    → IsBounded (host_technical_failure error_code d).diagnostic_code
unfolding host_technical_failure
host-IsBounded error_code d = bounded_diagnostic_code-IsBounded error_code "HOST_FAILURE" refl

contract-IsBounded :
    (error_code : String) → IsBounded (contract_technical_failure error_code).diagnostic_code
unfolding contract_technical_failure
contract-IsBounded error_code =
    bounded_diagnostic_code-IsBounded error_code "TECHNICAL_CONTRACT_INVALID" refl

abbrev code_of : Option TechnicalFailure → Option String
code_of none = none
code_of (some f) = some f.diagnostic_code

abbrev value_of : String → Option String → String
value_of default none = default
value_of default (some code) = code

failure_with-IsBounded :
    (code : String) (d : Option FailureDisposition) (f : TechnicalFailure)
    → IsBounded code
    → failure_with code d ≡ some f
    → IsBounded f.diagnostic_code
failure_with-IsBounded code none f bounded h = cc
failure_with-IsBounded code (some d) f bounded h =
    subst (λ (o : Option String). IsBounded (value_of code o)) (ap code_of h) bounded

code-IsBounded :
    (error_code : String) (f : TechnicalFailure)
    → technical_failure_for_code error_code ≡ some f
    → IsBounded f.diagnostic_code
unfolding technical_failure_for_code
code-IsBounded error_code f h =
    failure_with-IsBounded _ _ f
      (bounded_diagnostic_code-IsBounded error_code "TECHNICAL_FAILURE" refl) h

-- Whatever text a failure is made from, by a provider, the usage service, the host or a contract,
-- it survives its step: written into the output and read back, it is the same failure.
pub failures_survive :
    (error_code : String) (options : ProviderOptions) (is_unknown : Bool) (d : FailureDisposition)
    (step_code : Option String)
    → let read =
        λ (f : TechnicalFailure). technical_failure_from_step (some (persist f)) step_code in
      (read (provider_technical_failure error_code options)
        ≡ some (provider_technical_failure error_code options))
      × (read (usage_v2_technical_failure error_code is_unknown)
          ≡ some (usage_v2_technical_failure error_code is_unknown))
      × (read (host_technical_failure error_code d) ≡ some (host_technical_failure error_code d))
      × (read (contract_technical_failure error_code)
          ≡ some (contract_technical_failure error_code))
      × ((f : TechnicalFailure) → technical_failure_for_code error_code ≡ some f → read f ≡ some f)
failures_survive error_code options is_unknown d step_code = (
  persist-read (provider_technical_failure error_code options) step_code
      (provider-IsBounded error_code options),
  persist-read (usage_v2_technical_failure error_code is_unknown) step_code
      (usage_v2-IsBounded error_code is_unknown),
  persist-read (host_technical_failure error_code d) step_code (host-IsBounded error_code d),
  persist-read (contract_technical_failure error_code) step_code (contract-IsBounded error_code),
  λ f h. persist-read f step_code (code-IsBounded error_code f h),
)
