-- ===== src/Batches/Identity.antt =====
-- src/core/generation-batch.ts: the round and the scope in the key of a batch, and the batches found
-- by their keys.
use Prim.Native.String.append
use shan_hai_edu_ppt.Base.{
  ℕ, ◌≡◌, ◌∙◌, ◌≤◌, ap, refl, Option, none, some, is_some, List, [], ◌∷◌, String, after_prefix,
  append_text, decimal, whole_number, whole_number-decimal, after_prefix-append, if◌then◌else◌,
  Result,
}
use shan_hai_edu_ppt.Contracts.Accounting.{StoredGenerationBatch}
use shan_hai_edu_ppt.Ports.{StepRecord, StoredRun}
use shan_hai_edu_ppt.Batches.{
  BatchScope, initial_scope, revision_scope, BatchCode, generation_batch_step_key_for,
}
use shan_hai_edu_ppt.Batches.Host.{read_stored}

pub record BatchIdentity : Type 0 where
  pub revision_round : ℕ
  pub scope : BatchScope

abbrev number_of : Option String → Option ℕ
number_of none = none
number_of (some s) = whole_number s

abbrev after : String → Option String → Option String
after marker none = none
after marker (some s) = after_prefix marker s

-- `^${escapeRegExp(runId)}${marker}(\d+)$`, with the number.
unfoldable pub round_after : String → String → String → Option ℕ
round_after run_id marker key = number_of (after marker (after_prefix run_id key))

abbrev initial_marker : String
initial_marker = ":generation-batch:r"

abbrev revision_marker : String
revision_marker = ":revision-generation-batch:r"

abbrev pub identity_by : Option ℕ → Option ℕ → Option BatchIdentity
identity_by (some round) o = some (record { revision_round = round; scope = initial_scope })
identity_by none (some round) = some (record { revision_round = round; scope = revision_scope })
identity_by none none = none

unfoldable pub generation_batch_identity_from_step_key : String → String → Option BatchIdentity
generation_batch_identity_from_step_key run_id key =
    identity_by (round_after run_id initial_marker key) (round_after run_id revision_marker key)

first_initial : String → List StepRecord → Option StepRecord
first_initial run_id [] = none
first_initial run_id (s ∷ ss) =
    let rest = first_initial run_id ss in
    if is_some (after initial_marker (after_prefix run_id s.idempotency_key)) then some s else rest

-- `getGenerationBatch` without an identity: the first batch whose key is one of the initial scope.
unfoldable pub get_first_generation_batch :
    String → StoredRun → Result BatchCode (Option StoredGenerationBatch)
unfolding first_initial
get_first_generation_batch run_id s = read_stored (first_initial run_id s.steps)

-- What follows the run's id in a key.
round_after-append :
    (run_id marker own : String) (round : ℕ)
    → round_after run_id marker (append_text run_id (append_text own (decimal round)))
      ≡ number_of (after_prefix marker (append_text own (decimal round)))
unfolding round_after
round_after-append run_id marker own round =
    ap (λ o. number_of (after marker o))
      (after_prefix-append run_id (append_text own (decimal round)))

own_marker :
    (run_id marker : String) (round : ℕ)
    → round ≤ 9007199254740991
    → round_after run_id marker (append_text run_id (append_text marker (decimal round)))
      ≡ some round
own_marker run_id marker round le =
    round_after-append run_id marker marker round
    ∙ ap number_of (after_prefix-append marker (decimal round))
    ∙ whole_number-decimal round le

-- The two markers differ at their second character.
other_marker :
    (run_id : String) (round : ℕ)
    → round_after run_id initial_marker
        (append_text run_id (append_text revision_marker (decimal round)))
      ≡ none
unfolding append_text after_prefix
other_marker run_id round =
    round_after-append run_id initial_marker revision_marker round
    ∙ ap (λ s. number_of (after_prefix initial_marker s))
        (λ i. append.cons ":" "revision-generation-batch:r" (decimal round) i)
    ∙ ap (λ s. number_of (after_prefix initial_marker (String.◌∷◌ ":" s)))
        (λ i. append.cons "r" "evision-generation-batch:r" (decimal round) i)

-- The key of a batch tells its round, a safe integer, and its scope back, whatever the id of the
-- run.
pub identity_from_step_key-step_key_for :
    (run_id : String) (round : ℕ) (scope : BatchScope)
    → round ≤ 9007199254740991
    → generation_batch_identity_from_step_key run_id
        (generation_batch_step_key_for run_id round scope)
      ≡ some (record { revision_round = round; scope = scope })
unfolding generation_batch_identity_from_step_key generation_batch_step_key_for
identity_from_step_key-step_key_for run_id round initial_scope le =
    rw (own_marker run_id initial_marker round le) refl
identity_from_step_key-step_key_for run_id round revision_scope le =
    rw (other_marker run_id round) (rw (own_marker run_id revision_marker round le) refl)
