-- ===== src/RateLimiter.antt =====
-- src/http/principal-rate-limiter.ts: the limit on the requests of one principal.
pub mod Windows
pub mod Requests
pub mod Limit
pub mod Retry
mod Examples
use shan_hai_edu_ppt.Base.{
  ℕ, ◌+◌, ◌-◌, ◌/◌, max, min, Bool, true, false, not, ◌&&◌, ◌||◌, Option, none, some, List, [], ◌∷◌,
  String, ltb, leb, length, is_text, keep, if◌then◌else◌, Result, ok, err,
}
use shan_hai_edu_ppt.Base.Int.{Number, int, pos, negsuc, not_int}

pub data Scope : Type 0 where
  create_run run_action : Scope

-- The text `JSON.stringify([scope, tenantId, externalUserId])`, by its parts.
pub record Key : Type 0 where
  pub scope : Scope
  pub tenant_id : String
  pub external_user_id : String

abbrev is_scope : Scope → Scope → Bool
is_scope create_run create_run = true
is_scope run_action run_action = true
is_scope _ _ = false

-- It is shut: proofs go by `is_key_iff`.
unfoldable pub is_key : Key → Key → Bool
is_key j k =
    is_scope j.scope k.scope
    && is_text j.tenant_id k.tenant_id
    && is_text j.external_user_id k.external_user_id

pub data RateLimitDecision : Type 0 where
  allowed : RateLimitDecision
  refused : (retry_after_seconds : ℕ) → RateLimitDecision

pub record RateLimitPolicy : Type 0 where
  pub limit : ℕ
  pub window_ms : ℕ

pub record Window : Type 0 where
  pub count : ℕ
  pub started_at : ℕ
  pub resets_at : ℕ

pub data LimiterError : Type 0 where
  policy_limit_invalid policy_window_invalid max_entries_invalid clock_invalid : LimiterError

-- An integer of the range, if the number is one.
abbrev in_range : ℕ → ℕ → Number → Option ℕ
in_range low high (int (pos n)) = if leb low n && leb n high then some n else none
in_range low high (int (negsuc n)) = none
in_range low high not_int = none

unfoldable pub validate_policy : Number → Number → Result LimiterError RateLimitPolicy
validate_policy limit window = elim (in_range 1 10000 limit) [
  | none ↦ err policy_limit_invalid
  | some l ↦ elim (in_range 1000 3600000 window) [
    | none ↦ err policy_window_invalid
    | some w ↦ ok (record { limit = l; window_ms = w })
  ]
]

pub record Limiter : Type 0 where
  pub create_run_policy : RateLimitPolicy
  pub run_action_policy : RateLimitPolicy
  pub entries : List (Key × Window)
  pub max_entries : ℕ
  pub requests_since_sweep : ℕ

unfoldable pub new_limiter :
    Number × Number → Number × Number → Number → Result LimiterError Limiter
unfolding validate_policy
new_limiter create action entries = elim (validate_policy create.0 create.1) [
  | err e ↦ err e
  | ok c ↦ elim (validate_policy action.0 action.1) [
    | err e ↦ err e
    | ok a ↦ elim (in_range 1 1000000 entries) [
      | none ↦ err max_entries_invalid
      | some m ↦ ok (record {
        create_run_policy = c;
        run_action_policy = a;
        entries = [];
        max_entries = m;
        requests_since_sweep = 0;
      })
    ]
  ]
]

abbrev pub policy_of : Limiter → Scope → RateLimitPolicy
policy_of l create_run = l.create_run_policy
policy_of l run_action = l.run_action_policy

-- `Map.get`, `Map.delete` and `Map.set` of the windows.
pub find : Key → List (Key × Window) → Option Window
find k [] = none
find k ((j, w) ∷ es) = let rest = find k es in if is_key j k then some w else rest

pub delete : Key → List (Key × Window) → List (Key × Window)
delete k = keep (λ e. not (is_key e.0 k))

pub put : Key → Window → List (Key × Window) → List (Key × Window)
put k w [] = (k, w) ∷ []
put k w ((j, v) ∷ es) = let rest = put k w es in if is_key j k then (j, w) ∷ es else (j, v) ∷ rest

abbrev pub is_live : ℕ → Window → Bool
is_live now w = not (ltb now w.started_at || leb w.resets_at now)

pub live_entries : ℕ → List (Key × Window) → List (Key × Window)
live_entries now = keep (λ e. is_live now e.1)

-- `sweep`.
abbrev pub sweep : ℕ → Limiter → Limiter
sweep now l = record l { entries = live_entries now l.entries; requests_since_sweep = 0 }

abbrev pub retry_after_seconds : ℕ → ℕ → ℕ
retry_after_seconds resets_at now = max 1 ((resets_at - now + 999) / 1000)

earliest_reset : Option ℕ → List (Key × Window) → Option ℕ
earliest_reset m [] = m
earliest_reset none ((k, w) ∷ es) = earliest_reset (some w.resets_at) es
earliest_reset (some m) ((k, w) ∷ es) = earliest_reset (some (min m w.resets_at)) es

-- The answer of a full table. An empty one is not full.
full_answer : ℕ → List (Key × Window) → RateLimitDecision
full_answer now es = elim (earliest_reset none es) [
  | none ↦ refused 1
  | some m ↦ refused (retry_after_seconds m now)
]

abbrev pub first_window : Limiter → Key → ℕ → Window
first_window l k now = record {
  count = 1;
  started_at = now;
  resets_at = now + (policy_of l k.scope).window_ms;
}

-- A key with no window of its own.
unfoldable pub open_window : Key → ℕ → Limiter → Limiter × RateLimitDecision
unfolding live_entries full_answer earliest_reset put
open_window k now l =
    let m = if leb l.max_entries (length l.entries) then sweep now l else l in
    if leb m.max_entries (length m.entries)
    then (m, full_answer now m.entries)
    else (record m { entries = put k (first_window m k now) m.entries }, allowed)

-- A key whose window runs.
unfoldable pub count_request : Key → ℕ → Window → Limiter → Limiter × RateLimitDecision
unfolding put
count_request k now w l =
    if leb (policy_of l k.scope).limit w.count
    then (l, refused (retry_after_seconds w.resets_at now))
    else (record l { entries = put k (record w { count = w.count + 1 }) l.entries }, allowed)

-- Every 256 requests the windows that have run out are swept away.
abbrev pub count_and_sweep : ℕ → Limiter → Limiter
count_and_sweep now l =
    let m = record l { requests_since_sweep = l.requests_since_sweep + 1 } in
    if leb 256 m.requests_since_sweep then sweep now m else m

unfoldable pub consume_at : Key → ℕ → Limiter → Limiter × RateLimitDecision
unfolding find delete live_entries open_window count_request
consume_at k now l =
    let m = count_and_sweep now l in
    elim (find k m.entries) [
      | none ↦ open_window k now m
      | some w ↦
          if is_live now w
          then count_request k now w m
          else open_window k now (record m { entries = delete k m.entries })
    ]

-- A clock that reads no finite number is refused.
unfoldable pub consume :
    Key → Option ℕ → Limiter → Result LimiterError (Limiter × RateLimitDecision)
unfolding consume_at
consume k none l = err clock_invalid
consume k (some now) l = ok (consume_at k now l)
