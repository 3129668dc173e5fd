-- ===== src/Ports/Repository/Log.antt =====
-- The event log and the steps of a run: src/adapters/in-memory-repository.ts.
use shan_hai_edu_ppt.Base.{
  ℕ, ◌+◌, ◌≡◌, ◌∙◌, ap, sym, refl, ◌⊎◌, inl, inr, some, Bool-cases, List, [], ◌∷◌, ◌++◌, String,
  is_text, is_text_iff, length, arith, if◌then◌else◌, Result, ok, err,
}
use shan_hai_edu_ppt.Ports.{StepRecord, NewAgentEvent, AgentEvent, StoredRun}
use shan_hai_edu_ppt.Ports.Repository.{get_step, put_step, last_sequence, append_event, transact}

-- The events are numbered from `n + 1` on, without a gap.
abbrev pub IsLog : ℕ → List AgentEvent → Type 0
IsLog n [] = Unit
IsLog n (e ∷ es) = (e.sequence ≡ n + 1) × IsLog (n + 1) es

IsLog-snoc :
    (n : ℕ) (es : List AgentEvent) (e : AgentEvent)
    → IsLog n es
    → e.sequence ≡ last_sequence n es + 1
    → IsLog n (es ++ e ∷ [])
unfolding last_sequence
IsLog-snoc n [] e h q = (q, tt)
IsLog-snoc n (d ∷ es) e h q = (h.0, IsLog-snoc (n + 1) es e h.1 (rw (← h.0) q))

-- Appending keeps the log numbered from 1 without gap or repetition, and adds the one event at its
-- end, with the next number.
pub append_event-IsLog :
    (s : StoredRun) (body : NewAgentEvent)
    → IsLog 0 s.events
    → IsLog 0 (append_event s body).events
      × ((e : AgentEvent) × ((append_event s body).events ≡ s.events ++ e ∷ [])
          × (e.body ≡ body)
          × (e.sequence ≡ last_sequence 0 s.events + 1))
unfolding append_event
append_event-IsLog s body h = (IsLog-snoc 0 s.events _ h refl, (_, refl, refl, refl))

pub last_sequence_of_IsLog :
    (n : ℕ) (es : List AgentEvent) → IsLog n es → last_sequence n es ≡ n + length es
unfolding last_sequence
last_sequence_of_IsLog n [] h = omega arith
last_sequence_of_IsLog n (e ∷ es) h =
    rw (h.0) (omega (arith, last_sequence_of_IsLog (n + 1) es h.1))

-- The steps are a map by idempotency key.
pub get_step-put_step :
    (key : String) (t : StepRecord) (ss : List StepRecord)
    → get_step key (put_step t ss)
      ≡ (if is_text t.idempotency_key key then some t else get_step key ss)
unfolding get_step put_step
get_step-put_step key t [] = refl
get_step-put_step key t (s ∷ ss) = ground (
  arith,
  is_text_iff s.idempotency_key t.idempotency_key,
  is_text_iff t.idempotency_key key,
  is_text_iff s.idempotency_key key,
  get_step-put_step key t ss,
)

pub some_inj : {x y : StepRecord} → some x ≡ some y → x ≡ y
some_inj h = cc

pub get_step-key :
    (key : String) (ss : List StepRecord) {step : StepRecord}
    → get_step key ss ≡ some step
    → step.idempotency_key ≡ key
unfolding get_step
get_step-key key [] h = cc
get_step-key key (s ∷ ss) {step} h = elim (Bool-cases (is_text s.idempotency_key key)) [
  | inl here ↦
      ap (λ (x : StepRecord). x.idempotency_key) (sym (some_inj (rw here at h)))
      ∙ (is_text_iff s.idempotency_key key).0 here
  | inr there ↦ get_step-key key ss {step = step} (rw there at h)
]

-- A transaction that throws leaves the run, its steps and its events as they were; one that
-- returns stores exactly what the operation left.
pub transact_atomic {ℓ} :
    {E : Type 0} {A : Type ℓ} (s : StoredRun) (op : StoredRun → Result E (A × StoredRun))
    → ((e : E) × (op s ≡ err e) × (transact s op ≡ (err e, s)))
      ⊎ ((a : A) × (t : StoredRun) × (op s ≡ ok (a, t)) × (transact s op ≡ (ok a, t)))
unfolding transact
transact_atomic {E} {A} s op = go (op s) refl
  where
    go :
        (m : Result E (A × StoredRun))
        → op s ≡ m
        → ((e : E) × (op s ≡ err e) × (transact s op ≡ (err e, s)))
          ⊎ ((a : A) × (t : StoredRun) × (op s ≡ ok (a, t)) × (transact s op ≡ (ok a, t)))
    go (ok (a, t)) h = inr (a, t, h, rw (h, transact))
    go (err e) h = inl (e, h, rw (h, transact))
