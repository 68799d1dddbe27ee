-- ===== src/Lib.antt =====
-- The QDev runner control plane: a controller that hands the queued CI jobs of GitHub repositories
-- to workers. Its durable state is one SQLite database, src/qdev_runner/store.py, which the
-- broker's handlers (src/qdev_runner/broker.py) call; each method is one transaction, so it is a
-- function from the database to the database and an answer, and a raised exception is a rollback.
--
-- Prelude: lists, numbers, texts, `Result` (a value or an exception) and `Real`, Python's `float`.
-- Json: decoded JSON values, and Python's conversions of texts (int, float, str, fromisoformat) as
--   the fields of the record `Python`, which every definition that needs them takes.
-- Sql: UPDATE and ORDER BY on a list of rows, with their lemmas.
-- ClaimScope: src/qdev_runner/claim_scope.py, the scopes that bind a worker to exact jobs:
--   `permits`, `skips`, `certificate_matches`, `resolve_claim_scope`, `resolve_bound_claim_scope`.
--   Parse, Document and Container are the scope documents: `_parse_scope` with its helpers,
--   `load_claim_scopes`, `_scope_entry`, `upsert_claim_scope`; Again, Entries, RoundTrip, Looks,
--   Written and Upsert hold the lemmas on reading back an entry. The texts of times are parameters.
-- Store/Tables: the tables jobs, offline_runner_holds, workers and the fencing columns of
--   worker_recoveries. Store/Queue: `enqueue`, `set_status`, `fail_if_active`, the infrastructure
--   requeue, the completions. Store/Release: `stale_jobs`, `release_stale_job`,
--   `failed_worker_jobs`, `release_failed_job`. Store/Workers: `heartbeat` and the tests on its
--   detail. Store/Payload: what is read from a webhook payload, and the timestamp repair.
--   Store/Holds: the offline-runner holds, with the SHA-256 digest of a tuple as a parameter.
--   Store/Backfill: the backfill of a hold's attempt, which alone rewrites a stored payload and is
--   not among the steps below.
-- Store/Claim: `Store.claim`. Request is its arguments and the evidence on the worker, Selection
--   the FIFO heads and the scan order, Scan the verdict on each row; Outcome, Eligible and Facts
--   read a successful claim backwards, and Effect, Order, Fifo, Binding and Reserve hold the theorems
--   on it. The callback `fifo_skip_guard` is a field of the request.
-- Store/Steps: every modelled method on jobs, holds and workers as a step, and sequences of steps.
--   Store/Changes and Store/Transitions reduce each step to UPDATEs and INSERTs of the table jobs,
--   and Store/Beside does so for the tables beside it. Store/Reachable holds the theorems on sequences
--   of steps. Store/Invariant and Lookup hold the lemmas on tables, and Outcomes, Staleness, Reissue
--   and Fenced the theorems on a method among the others.
-- Store/Schedules, Store/Intents, Store/Retries: recurring tests, their dispatches and retries.
-- Capacity: src/qdev_runner/capacity.py, `evaluate`. Policy: src/qdev_runner/policy.py, the
--   decisions on a loaded inventory. Examples: runs on small inputs.
-- Canary: the canary of a worker recovery, the tables worker_recovery_canaries and
--   worker_recovery_canary_events. Phase holds the phases and their transitions, Row the rows and the
--   event bodies, Validate and Observed the checks, Transition the compare-and-swap
--   (`_transition_worker_recovery_canary`), Intent `create_worker_recovery_canary_intent` and the
--   reads, Calls the public transitions. Steps is every call as a step; Moves and Writes say what a
--   call that returns has passed and written; History, Replay, Once, Proven, Accepted, Bounds, Repeat
--   and Again hold the lemmas and theorems on sequences of calls. The digests of an event and of an
--   intent are parameters, and so are the two readings of the clock in a transition.
--
-- Times are microseconds, so the 1e-6 seconds of `advance_test_schedule` is one unit. Ids are
-- natural numbers; other integers are `ℤ`. Finite floats are multiples of 1/25600, which holds the
-- hundredths of a GiB to which capacity is rounded and a MiB exactly; rounding is not modelled.
-- `str.lower` and `casefold` act on ASCII letters. No definition needs fuel. A column of JSON text
-- is the value that it encodes, so the handlers of undecodable text have no counterpart, and texts
-- interpolated into messages are shortened.
--
-- Not modelled: the worker recovery itself (its row is read by the claim and the canary), test
-- results and coverage, health and the other reports, parsing of files other than scope documents,
-- the ledgers and release lanes, the HTTP service and everything that runs processes.
pub mod Prelude
pub mod Json
pub mod ClaimScope
pub mod Sql
pub mod Store
pub mod Capacity
pub mod Policy
pub mod Canary
pub mod Examples
