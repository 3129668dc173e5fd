-- ===== src/Contracts/UsageAccounting.antt =====
-- src/usage-accounting-contracts.ts: the events by which a run reports its use of providers. Texts
-- are taken as trimmed.
use Prim.Native.Char.{code}
use shan_hai_edu_ppt.Base.{
  ℕ, zero, suc, if◌then◌else◌, Bool, true, false, not, ◌&&◌, ◌||◌, Option, none, some, is_none,
  is_some, String, text_length, trim, ltb, leb,
}
use shan_hai_edu_ppt.Base.Int.{max_safe_integer}

pub data UsageEventType : Type 0 where
  operation_observed billing_resolved : UsageEventType

pub data OperationStatus : Type 0 where
  operation_processing operation_completed operation_failed operation_cancelled : OperationStatus

pub data ProviderBilling : Type 0 where
  charged : (actual_cost_amount_micros : ℕ) (currency pricing_version : String) → ProviderBilling
  not_charged : (currency pricing_version : String) → ProviderBilling
  billing_open :
      (estimated_cost_amount_micros : Option ℕ) (currency pricing_version : String)
      → ProviderBilling

pub record UsageEvent : Type 0 where
  pub event_id : String
  pub sequence : ℕ
  pub event_type : UsageEventType
  pub ppt_run_id : String
  pub batch_id : String
  pub page_number : ℕ
  pub revision_round : ℕ
  pub idempotency_key : String
  pub provider_operation_id : String
  pub model : String
  pub status : OperationStatus
  pub provider_billing : ProviderBilling
  pub operation_created_at : ℕ
  pub operation_completed_at : Option ℕ
  pub event_at : ℕ

abbrev pub is_billing_open : ProviderBilling → Bool
is_billing_open (billing_open estimate currency version) = true
is_billing_open _ = false

abbrev pub is_observed : UsageEventType → Bool
is_observed operation_observed = true
is_observed billing_resolved = false

abbrev is_processing : OperationStatus → Bool
is_processing operation_processing = true
is_processing _ = false

is_identifier : String → Bool
unfolding text_length
is_identifier s = ltb 0 (text_length s) && leb (text_length s) 200

-- `/^[A-Z]{n}$/.test(s)`.
is_capitals : ℕ → String → Bool
is_capitals zero String.[] = true
is_capitals zero (String.◌∷◌ c s) = false
is_capitals (suc n) String.[] = false
is_capitals (suc n) (String.◌∷◌ c s) =
    let rest = is_capitals n s in leb b'A' (code c) && leb (code c) b'Z' && rest

-- A price: its amount, its currency and the version of the prices.
is_price : ℕ → String → String → Bool
unfolding is_identifier is_capitals
is_price amount currency version =
    leb amount max_safe_integer && is_capitals 3 currency && is_identifier version

is_valid_billing : ProviderBilling → Bool
unfolding is_price
is_valid_billing (charged n currency version) = is_price n currency version
is_valid_billing (not_charged currency version) = is_price 0 currency version
is_valid_billing (billing_open none currency version) = is_price 0 currency version
is_valid_billing (billing_open (some n) currency version) = is_price n currency version

abbrev is_before : Option ℕ → ℕ → Bool
is_before none created = false
is_before (some at) created = ltb at created

abbrev trimmed_billing : ProviderBilling → ProviderBilling
trimmed_billing (charged n currency version) = charged n currency (trim version)
trimmed_billing (not_charged currency version) = not_charged currency (trim version)
trimmed_billing (billing_open n currency version) = billing_open n currency (trim version)

-- What the schema makes of an event that it takes: its identifiers are trimmed.
abbrev pub trimmed_event : UsageEvent → UsageEvent
trimmed_event e = record e {
  event_id = trim e.event_id;
  ppt_run_id = trim e.ppt_run_id;
  batch_id = trim e.batch_id;
  idempotency_key = trim e.idempotency_key;
  provider_operation_id = trim e.provider_operation_id;
  model = trim e.model;
  provider_billing = trimmed_billing e.provider_billing;
}

-- `usageOperationEventV2Schema` on a trimmed event, its refinement included.
unfoldable pub is_valid_event : UsageEvent → Bool
unfolding is_identifier is_valid_billing
is_valid_event e =
    is_identifier e.event_id
    && ltb 0 e.sequence
    && leb e.sequence max_safe_integer
    && is_identifier e.ppt_run_id
    && is_identifier e.batch_id
    && ltb 0 e.page_number
    && leb e.page_number 50
    && leb e.revision_round 100
    && is_identifier e.idempotency_key
    && is_identifier e.provider_operation_id
    && is_identifier e.model
    && is_valid_billing e.provider_billing
    && (if is_processing e.status
        then is_none e.operation_completed_at
        else is_some e.operation_completed_at)
    && not (is_before e.operation_completed_at e.operation_created_at)
    && (is_observed e.event_type || not (is_billing_open e.provider_billing))

-- `UsageAccountingRequestError`: what a call of the host's usage service throws, with its outcome;
-- any other error has no code.
pub data UsageRequestError : Type 0 where
  request_rejected request_unknown : (code : String) → UsageRequestError
  other_error : UsageRequestError

pub data BillStatus : Type 0 where
  active reconciling review_required settled cap_exceeded legacy_reconciliation : BillStatus

-- The fields of `UsageRunBill` that the code reads.
pub record UsageRunBill : Type 0 where
  pub ppt_run_id : String
  pub status : BillStatus
  pub next_reconcile_at : Option ℕ
