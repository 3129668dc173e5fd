-- ===== src/Ports/Repository.antt =====
-- src/adapters/in-memory-repository.ts: transactions, the event log and its pages.
pub mod Log
pub mod Pages
pub mod Examples
use shan_hai_edu_ppt.Base.{
  ℕ, zero, suc, ◌+◌, Bool, true, false, not, ◌&&◌, Option, none, some, List, [], ◌∷◌, ◌++◌, String,
  is_text, length, keep, take, ltb, if◌then◌else◌, Result, ok, err,
}
use shan_hai_edu_ppt.Contracts.Accounting.{reconciliation_required, TerminalAccounting, is_final}
use shan_hai_edu_ppt.Usage.{is_usage_v2, is_finalize, is_usage_v2_run_finalization_acknowledged}
use shan_hai_edu_ppt.Contracts.UsageAccounting.{settled, cap_exceeded, BillStatus}
use shan_hai_edu_ppt.Ports.{
  StepRecord, StepStatus, completed, Tool, finalize_usage_v2, Output, finalize_output, acknowledged,
  DeliveryState, AccountingProtocol, frameflow_usage_v2, RunRecord, NewAgentEvent, run_resumed,
  run_completed, run_cancelled, run_accounting_finalized, run_failed, legacy_run_failed, AgentEvent,
  StoredRun,
}

-- `Map.get` and `Map.set` of the steps by idempotency key: an entry that is there keeps its place.
unfoldable pub get_step : String → List StepRecord → Option StepRecord
get_step key [] = none
get_step key (s ∷ ss) =
    let rest = get_step key ss in if is_text s.idempotency_key key then some s else rest

unfoldable pub put_step : StepRecord → List StepRecord → List StepRecord
put_step t [] = t ∷ []
put_step t (s ∷ ss) =
    let rest = put_step t ss in
    if is_text s.idempotency_key t.idempotency_key then t ∷ ss else s ∷ rest

-- `events.at(-1)?.sequence ?? 0`.
unfoldable pub last_sequence : ℕ → List AgentEvent → ℕ
last_sequence n [] = n
last_sequence n (e ∷ es) = last_sequence e.sequence es

-- The event is stamped with the time of the run's last update.
unfoldable pub append_event : StoredRun → NewAgentEvent → StoredRun
append_event t body = record t { events = t.events ++ created ∷ [] }
  where
    created : AgentEvent
    created = record {
      sequence = last_sequence 0 t.events + 1;
      created_at = t.run.updated_at;
      body = body;
    }

-- One transaction: the operation works on a copy, which is stored only if it does not throw.
unfoldable pub transact {ℓ} :
    {E : Type 0} {A : Type ℓ}
    → StoredRun
    → (StoredRun → Result E (A × StoredRun))
    → Result E A × StoredRun
transact s operation = elim (operation s) [ ok (a, s') ↦ (ok a, s') | err e ↦ (err e, s) ]

find_finalize : List StepRecord → Option StepRecord
find_finalize [] = none
find_finalize (s ∷ ss) = let rest = find_finalize ss in if is_finalize s.tool then some s else rest

unfoldable pub usage_v2_completed : RunRecord → List StepRecord → Bool
unfolding find_finalize is_usage_v2_run_finalization_acknowledged
usage_v2_completed run steps =
    if is_usage_v2 run.accounting_protocol
    then is_usage_v2_run_finalization_acknowledged (find_finalize steps)
    else true

abbrev is_resume_event : NewAgentEvent → Bool
is_resume_event run_resumed = true
is_resume_event _ = false

last_resume_sequence : ℕ → List AgentEvent → ℕ
last_resume_sequence n [] = n
last_resume_sequence n (e ∷ es) =
    last_resume_sequence (if is_resume_event e.body then e.sequence else n) es

abbrev is_reconciled : Option TerminalAccounting → Bool
is_reconciled none = true
is_reconciled (some t) = is_final t.accounting_status

-- Which events end a run's stream: a completion once its usage is settled, a final failure.
abbrev pub is_terminal_event : Bool → NewAgentEvent → Bool
is_terminal_event usage_completed (run_completed payload) = usage_completed
is_terminal_event usage_completed (run_accounting_finalized p t) = true
is_terminal_event usage_completed (run_failed f) = is_reconciled f.accounting
is_terminal_event usage_completed (legacy_run_failed code) = true
is_terminal_event usage_completed run_cancelled = true
is_terminal_event usage_completed _ = false

find_terminal : Bool → ℕ → List AgentEvent → Option ℕ
find_terminal usage_completed after [] = none
find_terminal usage_completed after (e ∷ es) =
    let rest = find_terminal usage_completed after es in
    if ltb after e.sequence && is_terminal_event usage_completed e.body
    then some e.sequence
    else rest

-- The sequence of the effective terminal event: the first one after the last resumption.
unfoldable pub terminal_sequence : StoredRun → Option ℕ
unfolding usage_v2_completed last_resume_sequence find_terminal
terminal_sequence s =
    find_terminal (usage_v2_completed s.run s.steps) (last_resume_sequence 0 s.events) s.events

pub record EventPage : Type 0 where
  pub events : List AgentEvent
  pub next_after : ℕ
  pub has_more : Bool
  pub byte_length : ℕ
  pub terminal : Option ℕ

pub after_sequence : ℕ → List AgentEvent → List AgentEvent
after_sequence n = keep (λ e. ltb n e.sequence)

-- The loop that fills a page up to `max_bytes`; the first event is taken whatever its size.
module _ (size : AgentEvent → ℕ) (max_bytes : ℕ) where
  pub fill : Bool → ℕ → List AgentEvent → List AgentEvent
  fill first taken [] = []
  fill first taken (e ∷ es) =
      let rest = fill false (taken + size e) es in
      if not first && ltb max_bytes (taken + size e) then [] else e ∷ rest

total : (AgentEvent → ℕ) → List AgentEvent → ℕ
total size [] = 0
total size (e ∷ es) = size e + total size es

-- `size` is the length in bytes of an event's JSON text.
unfoldable pub read_events : (AgentEvent → ℕ) → StoredRun → ℕ → ℕ → ℕ → EventPage
unfolding fill after_sequence last_sequence terminal_sequence total
read_events size s after limit max_bytes = record {
  events = events;
  next_after = last_sequence after events;
  has_more = ltb (length events) (length candidates);
  byte_length = total size events;
  terminal = terminal_sequence s;
}
  where
    candidates : List AgentEvent
    candidates = take (limit + 1) (after_sequence after s.events)

    events : List AgentEvent
    events = fill size max_bytes true 0 (take limit candidates)
