-- ===== src/Canary/Transition.antt =====
-- The methods that change a recovery canary: the intent, and the compare-and-swap transitions. Each
-- is one transaction; `now` and `later` are the clock readings of a transition, in their order.
use qdev_runner_control_plan.Prelude.{
  ℕ, ◌+◌, String, Bool, true, false, ◌&&◌, ◌||◌, not, Option, none, some, List, [], ◌∷◌, ◌++◌,
  if◌then◌else◌, ◌==◌, ◌!=◌, nat_eq, string_eq, option_eq, Result, ok, raise, refuse, value_error,
  integrity_error, ◌>>=◌, ◌>>◌, member, Eq, any, find, count,
}
use qdev_runner_control_plan.Sql.{update}
use qdev_runner_control_plan.Canary.Phase.{
  Phase, phase_eq, follows, is_observed, is_bare, statuses, conclusions,
}
use qdev_runner_control_plan.Canary.Row.{
  Progress, Canary, Body, Event, Recovery, Ledger, has_operation, canary_row, event_payload,
  require_event,
}
use qdev_runner_control_plan.Canary.Validate.{Observation, given, has_evidence, transition_matches}
use qdev_runner_control_plan.Canary.Observed.{validate_observation}

-- current[name] not in {None, supplied}, for a value that is supplied
abbrev pub differs_from : {A : Type 0} ⦃e : Eq A⦄ → Option A → Option A → Bool
differs_from none stored = false
differs_from (some a) none = false
differs_from (some a) (some b) = b != a

-- supplied if supplied is not None else current[name]
abbrev pub or_else : {A : Type 0} → Option A → Option A → Option A
or_else none stored = stored
or_else (some a) stored = some a

abbrev pub outside : Option String → List String → Bool
outside none allowed = false
outside (some s) allowed = not (member s allowed)

-- Its row is there, or the default.
unfoldable pub recovery_of : String → List Recovery → Option Recovery
unfolding find
recovery_of operation_id recoveries =
    find (λ (r : Recovery). r.operation_id == operation_id) recoveries

-- The labels and the time of the recovery, if both are usable.
unfoldable pub finalized : Option Recovery → Result (List String × ℕ)
finalized none = raise (value_error "worker recovery durable binding is invalid")
finalized (some r) = elim r.native_finalized_at [
  | none ↦ raise (value_error "worker recovery durable binding is invalid")
  | some at ↦ ok (r.labels, at)
]

-- The changes of `current` up to its timestamps.
unfoldable pub observed_progress : Phase → Observation → Progress → Progress
observed_progress phase o p = record p {
  run_id = or_else o.run_id p.run_id;
  run_attempt = or_else o.run_attempt p.run_attempt;
  job_id = or_else o.job_id p.job_id;
  conclusion = or_else o.conclusion p.conclusion;
  run_status = or_else o.run_status p.run_status;
  dispatch_observed_label =
      if phase == Phase.dispatched then o.observed_temporary_label else p.dispatch_observed_label;
  run_observed_label =
      if phase == Phase.run_observed then o.observed_temporary_label else p.run_observed_label;
  job_labels = if phase == Phase.job_observed then o.job_labels else p.job_labels;
  job_runner_id = if phase == Phase.job_observed then o.job_runner_id else p.job_runner_id;
  job_runner_name = if phase == Phase.job_observed then o.job_runner_name else p.job_runner_name;
}

-- now, if the transition is to that phase and the time is not set yet
abbrev stamp : Bool → ℕ → Option ℕ → Option ℕ
stamp true now none = some now
stamp _ now at = at

-- All columns after the transition.
unfoldable pub advanced_progress : Phase → Observation → ℕ → Progress → Progress
unfolding observed_progress
advanced_progress phase o now p = record (observed_progress phase o p) {
  phase = phase;
  revision = p.revision + 1;
  dispatched_at = stamp (phase == Phase.dispatched) now p.dispatched_at;
  completed_at = if phase == Phase.completed then o.completed_at else p.completed_at;
  cleaned_at = stamp (phase == Phase.cleaned) now p.cleaned_at;
  accepted_at = stamp (phase == Phase.accepted) now p.accepted_at;
}

-- The checks between the lookup of the recovery and the new row.
unfoldable pub check_observation : Canary → Phase → Observation → Result (Unit {0})
unfolding has_evidence member
check_observation c phase o = do
  refuse
      (is_observed phase
        && (o.dispatch_correlation != some c.identity.dispatch_correlation
            || o.observed_temporary_label != some c.identity.temporary_label))
      (value_error "worker recovery canary provider binding is invalid")
  refuse (is_bare phase && has_evidence o)
      (value_error "worker recovery canary transition has unexpected evidence")
  refuse
      (differs_from o.run_id c.progress.run_id
        || differs_from o.run_attempt c.progress.run_attempt
        || differs_from o.job_id c.progress.job_id
        || differs_from o.conclusion c.progress.conclusion)
      (value_error "worker recovery canary observation changed")
  refuse
      (outside o.run_status statuses
        || given o.run_status
          && c.progress.run_status == some "completed"
          && o.run_status != some "completed")
      (value_error "worker recovery canary status changed")
  refuse (outside o.conclusion conclusions)
      (value_error "worker recovery canary conclusion is invalid")
  refuse (phase == Phase.completed && not (given o.completed_at))
      (value_error "provider canary completion timestamp is required")

-- WHERE operation_id=? AND revision=? AND phase=?
unfoldable pub stands_at : String → ℕ → Phase → Canary → Bool
unfolding has_operation
stands_at operation_id revision phase c =
    has_operation operation_id c && c.progress.revision == revision && c.progress.phase == phase

module _ (digest : Body → String) where
  unfoldable pub event_of : Canary → Option Phase → ℕ → Event
  unfolding event_payload
  event_of c from_phase now = record {
    event_digest = digest (event_payload c from_phase now);
    operation_id = c.identity.operation_id;
    revision = c.progress.revision;
    from_phase = from_phase;
    phase = c.progress.phase;
    event = event_payload c from_phase now;
    recorded_at = now;
  }

  -- The row with the digest of its new event.
  unfoldable pub sealed : Canary → Option Phase → ℕ → Canary
  unfolding event_payload
  sealed c from_phase now = record c {
    last_event_digest = digest (event_payload c from_phase now);
    updated_at = now;
  }

  -- INSERT INTO worker_recovery_canary_events, with its PRIMARY KEY and UNIQUE
  unfoldable pub record_event : Event → List Event → Result (List Event)
  unfolding any
  record_event e events =
      if any
        (λ (old : Event).
          old.event_digest == e.event_digest
          || old.operation_id == e.operation_id && old.revision == e.revision)
        events
      then raise integrity_error
      else ok (events ++ (e ∷ []))

  -- The two writes of a transition.
  unfoldable pub commit : String → ℕ → Phase → Canary → ℕ → Ledger → Result (Ledger × Canary × Bool)
  unfolding stands_at sealed event_of record_event update count
  commit operation_id revision from_phase c now t = do
    refuse (count (stands_at operation_id revision from_phase) t.canaries != 1)
        (value_error "worker recovery canary transition is ambiguous")
    events ← record_event (event_of c (some from_phase) now) t.events
    ok (
      record t {
        canaries =
            update (stands_at operation_id revision from_phase)
              (λ _. sealed c (some from_phase) now) t.canaries;
        events = events;
      },
      sealed c (some from_phase) now,
      false,
    )

  -- A revision that is one behind: the same transition again, or another one.
  unfoldable pub replay :
      Canary → Phase → Phase → Observation → Ledger → Result (Ledger × Canary × Bool)
  unfolding transition_matches require_event
  replay current expected_phase phase o t = do
    refuse (current.progress.phase != phase || not (transition_matches current phase o))
        (value_error "worker recovery canary transition is ambiguous")
    require_event digest t.events current (some expected_phase) true
    ok (t, current, true)

  -- What follows the compare of the compare-and-swap.
  unfoldable pub advance :
      String
      → ℕ
      → Phase
      → Phase
      → Observation
      → Bool
      → ℕ
      → ℕ
      → Ledger
      → Canary
      → Result (Ledger × Canary × Bool)
  unfolding recovery_of finalized check_observation advanced_progress validate_observation commit
      follows
  advance operation_id revision expected_phase phase o allow_accepted now later t current = do
    refuse (not (follows expected_phase phase))
        (value_error "invalid worker recovery canary transition")
    refuse (phase == Phase.accepted && not allow_accepted)
        (value_error "worker recovery canary acceptance is controller-owned")
    durable ← finalized (recovery_of operation_id t.recoveries)
    check_observation current phase o
    let next : Canary = record current { progress = advanced_progress phase o now current.progress }
    validate_observation next phase durable.0 durable.1 later
    commit operation_id revision expected_phase next now t

  unfoldable pub transition_current :
      String
      → ℕ
      → Phase
      → Phase
      → Observation
      → Bool
      → ℕ
      → ℕ
      → Ledger
      → Canary
      → Result (Ledger × Canary × Bool)
  unfolding replay advance
  transition_current operation_id revision expected_phase phase o allow_accepted now later t
        current =
      if current.progress.revision == revision + 1
      then replay current expected_phase phase o t
      else (do
        refuse (current.progress.revision != revision || current.progress.phase != expected_phase)
            (value_error "worker recovery canary transition is ambiguous")
        advance operation_id revision expected_phase phase o allow_accepted now later t current)

  unfoldable pub existing_canary : String → List Canary → Result Canary
  unfolding has_operation find canary_row
  existing_canary operation_id canaries = elim (find (has_operation operation_id) canaries) [
    | none ↦ raise (value_error "worker recovery canary intent is missing")
    | some row ↦ canary_row row
  ]

  -- _transition_worker_recovery_canary
  unfoldable pub transition :
      String
      → ℕ
      → Phase
      → Phase
      → Observation
      → Bool
      → ℕ
      → ℕ
      → Ledger
      → Result (Ledger × Canary × Bool)
  unfolding existing_canary transition_current
  transition operation_id revision expected_phase phase o allow_accepted now later t = do
    current ← existing_canary operation_id t.canaries
    transition_current operation_id revision expected_phase phase o allow_accepted now later t
        current
