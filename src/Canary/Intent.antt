-- ===== src/Canary/Intent.antt =====
-- `create_worker_recovery_canary_intent` and the two reads. The digest of an intent reads the
-- identity without its own `intent_digest`, which is empty there.
use qdev_runner_control_plan.Prelude.{
  ℕ, String, Bool, true, false, ◌||◌, not, Option, none, some, List, [], ◌∷◌, ◌++◌, ◌==◌, ◌!=◌,
  nat_eq, string_eq, option_eq, leb, if◌then◌else◌, Result, ok, raise, refuse, value_error,
  integrity_error, ◌>>=◌, ◌>>◌, any, find, select, is_hex_text,
}
use qdev_runner_control_plan.Sql.{order_by}
use qdev_runner_control_plan.Store.Tables.{RecoveryState}
use qdev_runner_control_plan.Canary.Phase
use qdev_runner_control_plan.Canary.Row.{
  Identity, Progress, Canary, Body, Event, Recovery, Ledger, temporary_label_of, correlation_of,
  has_operation, canary_row, require_event,
}
use qdev_runner_control_plan.Canary.Validate.{validate_identity}
use qdev_runner_control_plan.Canary.Transition.{recovery_of, event_of, sealed, record_event}

-- The keyword arguments.
pub record IntentArgs : Type 0 where
  pub operation_id : String
  pub repository : String
  pub workflow : String
  pub ref : String
  pub head_sha : String
  pub baseline_run_id : ℕ
  pub provider_runner_id : ℕ
  pub provider_runner_name : String

-- What `intent` encodes.
abbrev pub draft : IntentArgs → String → Identity
draft a worker_name = record {
  operation_id = a.operation_id;
  worker_name = worker_name;
  repository = a.repository;
  workflow = a.workflow;
  ref = a.ref;
  head_sha = a.head_sha;
  baseline_run_id = a.baseline_run_id;
  provider_runner_id = a.provider_runner_id;
  provider_runner_name = a.provider_runner_name;
  dispatch_correlation = correlation_of a.operation_id;
  temporary_label = temporary_label_of a.operation_id;
  temporary_labels = temporary_label_of a.operation_id ∷ [];
  intent_digest = "";
}

-- The changing columns of a new row.
abbrev pub initial_progress : Progress
initial_progress = record {
  phase = Phase.dispatch_intent;
  revision = 1;
  run_id = none;
  run_attempt = none;
  job_id = none;
  dispatch_observed_label = none;
  run_observed_label = none;
  job_labels = none;
  job_runner_id = none;
  job_runner_name = none;
  run_status = none;
  conclusion = none;
  dispatched_at = none;
  completed_at = none;
  cleaned_at = none;
  accepted_at = none;
}

abbrev is_completed_recovery : RecoveryState → Bool
is_completed_recovery RecoveryState.completed = true
is_completed_recovery _ = false

-- The recovery, if it is ready for a canary.
unfoldable pub ready_recovery : Option Recovery → Result Recovery
ready_recovery none = raise (value_error "worker recovery is not ready for canary dispatch")
ready_recovery (some r) = do
  refuse (not (is_completed_recovery r.state) || r.native_outcome != some "completed")
      (value_error "worker recovery is not ready for canary dispatch")
  ok r

module _ (intent_digest : Identity → String) (digest : Body → String) where
  -- The new row, before its event.
  unfoldable pub new_canary : Identity → ℕ → Canary
  new_canary i now = record {
    identity = record i { intent_digest = intent_digest i };
    progress = initial_progress;
    last_event_digest = "";
    created_at = now;
    updated_at = now;
  }

  -- INSERT INTO worker_recovery_canaries, with its PRIMARY KEY and UNIQUE columns
  unfoldable pub insert_canary : Canary → List Canary → Result (List Canary)
  unfolding any
  insert_canary c canaries =
      if any
        (λ (old : Canary).
          old.identity.operation_id == c.identity.operation_id
          || old.identity.dispatch_correlation == c.identity.dispatch_correlation
          || old.identity.intent_digest == c.identity.intent_digest)
        canaries
      then raise integrity_error
      else ok (canaries ++ (c ∷ []))

  -- The replay of an intent whose row exists.
  unfoldable pub same_intent : Identity → Ledger → Canary → Result (Ledger × Canary × Bool)
  unfolding canary_row require_event
  same_intent i t row = do
    canary ← canary_row row
    refuse (canary.identity.intent_digest != intent_digest i)
        (value_error "worker recovery canary operation is bound to another intent")
    require_event digest t.events (record canary { progress = initial_progress }) none
        (canary.progress.revision == 1)
    ok (t, canary, true)

  unfoldable pub new_intent : Identity → ℕ → Ledger → Result (Ledger × Canary × Bool)
  unfolding new_canary insert_canary sealed event_of record_event
  new_intent i now t = do
    canaries ← insert_canary (sealed digest (new_canary i now) none now) t.canaries
    events ← record_event digest (event_of digest (new_canary i now) none now) t.events
    ok (
      record t { canaries = canaries; events = events },
      sealed digest (new_canary i now) none now,
      false,
    )

  unfoldable pub intent_for : IntentArgs → ℕ → Ledger → Recovery → Result (Ledger × Canary × Bool)
  unfolding validate_identity find has_operation same_intent new_intent
  intent_for a now t recovery = do
    validate_identity (draft a recovery.worker_name) recovery.labels
    elim (find (has_operation a.operation_id) t.canaries) [
      | some row ↦ same_intent (draft a recovery.worker_name) t row
      | none ↦ new_intent (draft a recovery.worker_name) now t
    ]

  unfoldable pub create_intent : IntentArgs → ℕ → Ledger → Result (Ledger × Canary × Bool)
  unfolding is_hex_text recovery_of ready_recovery intent_for
  create_intent a now t = do
    refuse (not (is_hex_text 64 a.operation_id))
        (value_error "worker recovery canary operation identity is invalid")
    recovery ← ready_recovery (recovery_of a.operation_id t.recoveries)
    intent_for a now t recovery

-- The row of an operation, or None.
row_or_none : Option Canary → Result (Option Canary)
unfolding canary_row
row_or_none none = ok none
row_or_none (some row) = canary_row row >>= λ c. ok (some c)

-- worker_recovery_canary
unfoldable pub canary_of : String → Ledger → Result (Option Canary)
unfolding is_hex_text find has_operation row_or_none
canary_of operation_id t = do
  refuse (not (is_hex_text 64 operation_id))
      (value_error "worker recovery canary operation identity is invalid")
  row_or_none (find (has_operation operation_id) t.canaries)

-- worker_recovery_canary_events
unfoldable pub events_of : String → Ledger → Result (List Event)
unfolding is_hex_text select order_by
events_of operation_id t = do
  refuse (not (is_hex_text 64 operation_id))
      (value_error "worker recovery canary operation identity is invalid")
  ok (
      order_by (λ (a b : Event). leb a.revision b.revision)
        (select (λ (e : Event). e.operation_id == operation_id) t.events))
