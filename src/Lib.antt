-- ===== src/Lib.antt =====
-- PPT Agent: the core of the courseware agent. Models of the TypeScript code below src/ and
-- theorems about them.
--
-- A run is a record that many parts change in turn. A host starts it, users and administrators
-- act on it, workers take a lease and move it through planning, generation, review and delivery,
-- a repository keeps it with its steps and its log of events, and hosts read the log page by
-- page. The parts meet in the run: the repository (src/adapters/in-memory-repository.ts) runs an
-- operation on a copy of the stored run, the leases (src/core/lease.ts) decide which worker may
-- write, the policy (src/core/policy.ts) decides which statuses follow, the technical recovery
-- (src/core/technical-recovery.ts) moves a run that a provider failed, and the terminal
-- accounting (src/core/v4-terminal-accounting.ts) adds up what a run has cost. A batch
-- (src/core/generation-batch.ts) is a step of the run whose output carries the pages of a round,
-- their progress and their units: it reserves what they cost from the budget of the policy, and
-- settles and releases it when they have ended. The usage coordinator
-- (src/core/usage-v2-coordinator.ts) keeps the events of a run's usage in its steps, delivers
-- them to the host, and settles the run with it when the run has ended. The lifecycle
-- (src/core/v4-lifecycle.ts) fails and closes a run, and decides over the issues of its quality.
-- The event broker (src/http/run-event-broker.ts) hands the log on to the clients that listen.
-- The rate limiter (src/http/principal-rate-limiter.ts) stands before them all.
--
-- Files:
--   Base: shared names, lists, results, numbers and texts.
--   Contracts: the run's statuses, modes and actions (src/contracts.ts); Contracts/Accounting:
--   the schemas of batches and of the terminal accounting (src/generation-batch-contracts.ts,
--   src/terminal-accounting-contracts.ts), refinements included; Contracts/Failures: failure
--   codes and lifecycle reasons.
--   Ports: the records of runs, steps and events (src/core/ports.ts), and the stored run;
--   Ports/Repository: the operations of src/adapters/in-memory-repository.ts on one stored run.
--   Policy: src/core/policy.ts, one function per exported function. Policy/Invariant,
--   Policy/Actions, Policy/Budget, Policy/Graph and Policy/Lives are its theorems.
--   Lease: src/core/lease.ts and src/core/media-reconciliation.ts, with theorems in
--   Lease/Fencing.
--   TerminalAccounting: src/core/v4-terminal-accounting.ts; each loop is a function by recursion
--   on its list, and its variables are one record. TerminalAccounting/Loops and
--   TerminalAccounting/Final are its theorems.
--   RateLimiter: src/http/principal-rate-limiter.ts, with the map's lemmas in
--   RateLimiter/Windows and the theorems in RateLimiter/Requests, RateLimiter/Limit and
--   RateLimiter/Retry.
--   Usage: src/core/usage-v2-coordinator.ts, the outbox step that finalizes a run's usage;
--   Usage/Enqueue: its enqueueing, with theorems.
--   Lifecycle: src/core/v4-lifecycle.ts, the stages of the log; Lifecycle/Codes and
--   Lifecycle/Failure: failing a run, at once or when its accounting is final, and the
--   reconciliation. Lifecycle/Stages, Lifecycle/Rounds, Lifecycle/Closing, Lifecycle/Outcome and
--   Lifecycle/Accounting are their theorems.
--   Recovery: src/core/technical-recovery.ts, beginning and resuming the recovery of a run from
--   a technical failure. Recovery/Steps and Recovery/Attempts are its theorems.
--   Concurrency: src/core/concurrency.ts, the workers of a bounded parallel map as turns in any
--   order; Concurrency/Workers, Concurrency/Steps, Concurrency/Complete and Concurrency/Bound
--   are its lemmas and theorems.
--   QuickDeck: src/core/quick-deck-evaluation-recovery.ts and src/core/quick-deck-evaluation-
--   submission-failure.ts, what becomes of a quick-deck evaluation after a crash, with theorems
--   in QuickDeck/Interrupted.
--   EventBroker: src/http/run-event-broker.ts, one run's channel, and how a client joins it;
--   EventBroker/Poll: the poll that serves the clients. EventBroker/Slices, EventBroker/Delivery
--   and EventBroker/Streams: what each operation hands out; EventBroker/Reach: every sequence of
--   operations; EventBroker/Rounds, EventBroker/Ending and EventBroker/Completion: the polls one
--   after the other, the terminal event, and the end of the log. A callback is a function of the
--   events that it has accepted; a read sees the log as it is when it is asked for, and a page
--   may arrive after other operations. A client whose catching up is rejected does not join, and
--   no step stands for it. A client joins in one step: nothing else happens to the broker while
--   it catches up, although the code awaits its reads; what may go wrong when something does is
--   not modelled.
--   Recovery/Patterns and Recovery/Classification: the classification of error codes in
--   src/core/technical-recovery.ts, its regular expressions as searches, for codes whose letters
--   are those of ASCII; Recovery/Persisted: its theorems.
--   Quality: src/core/v4-lifecycle.ts, the open issues of a deck's quality and their resolution;
--   Quality/Automated: accepting a deck by the system's policy, for any hash of the policy's own
--   issues. Quality/Open, Quality/Accept, Quality/Limit and Quality/Override are its theorems.
--   Batches: src/core/generation-batch.ts, the batch of a round's images and its progress;
--   Batches/Identity: the keys of batches, read back; Batches/Create: making a batch from the
--   required images, for any hash of what the code hashes, with the theorem in
--   Batches/Create/Again; Batches/Reserve and Batches/Finalize: the transactions that reserve
--   its budget, and settle and release it; Batches/Reserve/Hosted and Batches/Host: the same
--   with the host, whose answers are arguments of the operations. Batches/Refresh,
--   Batches/Steps, Batches/Replay, Batches/Refused, Batches/Amounts, Batches/Recorded and
--   Batches/Once: the theorems. Base/Text/Decimal: a number read back from its digits. A batch
--   is read by its key, and in the schema's whole form; the projection publicGenerationBatch is
--   not modelled.
--   Contracts/UsageAccounting: the usage events and their schema (src/usage-accounting-
--   contracts.ts). Usage/Outbox: the outbox of usage events of src/core/usage-v2-coordinator.ts,
--   its enqueueing and updates; Usage/Outbox/Delivery: the rejection of an event and its review;
--   Usage/Outbox/Flush: a flush, and the delivery of a rejected event once more. The host is a
--   function from events to its answers, one for each flush. Usage/Outbox/Order, Queue and
--   Sorting: the reports by key, and the steps that a flush has before it; Usage/Outbox/Moves,
--   Failing, Answered, Rejections and Reviews: what each transaction does to the reports;
--   Usage/Outbox/Flushing, Kept, History, Enqueued, Stage, Rejected and Restored: the theorems.
--   Usage/Settlement: settling a run's usage in src/core/usage-v2-coordinator.ts, the failure of
--   a completed run and its return; Usage/Settlement/Reconcile: the reconciliation of a run that
--   has ended, with what the host answers as functions. Usage/Settlement/Steps, Asked, Settled
--   and Revived: the theorems. The flushes of a run come one after the other, as its lock makes
--   them, and a flush is one step: an event that is enqueued between two of its deliveries,
--   which takes no lock, is not modelled.
--   Each Examples module runs its component on concrete data.
--
-- Conventions. State is passed explicitly: an operation takes the stored run and gives a result
-- and the run after it. An exception is the err of a result, with the code's error code and
-- without its message. A Map is an association list in insertion order. A number that a caller
-- supplies is a Number: an integer, or something that is none. Times are milliseconds since the
-- epoch, a natural number, where the code keeps ISO texts. Texts are compared as texts; lengths
-- count UTF-16 units.
--
-- Bounds. Every loop of the models is a recursion on a list; only reading the log page by page,
-- which is the client's loop, is a recursion on fuel, and more fuel than events is enough. What
-- the code itself does not bound is a sequence in the theorems: histories of a run, of its
-- recoveries and of its outbox are inductive relations, and the turns of the workers a list of
-- any length.
--
-- Not modelled: the runners that call models and media providers, the authorization of media
-- operations, the HTTP handlers, the SQLite repositories, the rendering of slides and the quick-
-- deck evaluation service, for they are calls of services with little logic of their own, or
-- wait for the parts they build on. Promises are not modelled: an operation of the repository is
-- atomic, which is what the gate of transact provides.
pub mod Base
pub mod Contracts
pub mod Policy
pub mod Ports
pub mod Lease
pub mod TerminalAccounting
pub mod Usage
pub mod Lifecycle
pub mod Recovery
pub mod Concurrency
pub mod QuickDeck
pub mod EventBroker
pub mod Quality
pub mod Batches
pub mod RateLimiter
