-- ===== src/Examples/Canaries.antt =====
-- The canary of one recovery on small inputs: its intent, the claim of its dispatch, a retry.
use qdev_runner_control_plan.Prelude.{
  ℕ, ◌+◌, ◌≤◌, String, ◌≡◌, ◌≢◌, refl, true, false, none, some, [], ◌∷◌, ok, ◌++◌, find, select,
  length,
}
use qdev_runner_control_plan.Store.Tables.{completed}
use qdev_runner_control_plan.Canary.Phase.{Phase, place, follows}
use qdev_runner_control_plan.Canary.Row.{
  Identity, Canary, Body, Recovery, Ledger, has_operation, temporary_label_of, correlation_of,
}
use qdev_runner_control_plan.Canary.Validate.{Observation, nothing_observed}
use qdev_runner_control_plan.Canary.Transition.{transition, advanced_progress, event_of, sealed}
use qdev_runner_control_plan.Canary.Moves.{next_row}
use qdev_runner_control_plan.Canary.Intent.{IntentArgs, draft, new_canary, create_intent}
use qdev_runner_control_plan.Canary.Calls.{call_transition, claim_dispatch}
use qdev_runner_control_plan.Canary.Steps
use qdev_runner_control_plan.Canary.Steps.{Reach}
use qdev_runner_control_plan.Canary.Bounds.{revision_bound}
use qdev_runner_control_plan.Canary.Again.{create_intent_replays}
use qdev_runner_control_plan.Canary.History.{History, is_of, recorded_state}
use qdev_runner_control_plan.Canary.Replay.{Reach-History, recorded_state-canary}
use qdev_runner_control_plan.Canary.Once.{Later, Reach-Later, claim_dispatch_once}
use qdev_runner_control_plan.Canary.Proven.{IsProven}
use qdev_runner_control_plan.Canary.Accepted.{accepted-IsProven, call_transition-Moved}
use qdev_runner_control_plan.Canary.Repeat.{transition_replays}

-- Stand-ins for the digests: any function will do that tells the phases apart.
abbrev intent_digest : Identity → String
intent_digest i = i.head_sha

abbrev phase_name : Phase → String
phase_name Phase.dispatch_intent = "dispatch_intent"
phase_name Phase.dispatching = "dispatching"
phase_name Phase.dispatched = "dispatched"
phase_name Phase.run_observed = "run_observed"
phase_name Phase.labels_pending = "labels_pending"
phase_name Phase.labels_applied = "labels_applied"
phase_name Phase.job_observed = "job_observed"
phase_name Phase.completed = "completed"
phase_name Phase.cleanup_pending = "cleanup_pending"
phase_name Phase.cleaned = "cleaned"
phase_name Phase.accepted = "accepted"
phase_name Phase.ambiguous = "ambiguous"

abbrev digest : Body → String
digest b = phase_name b.progress.phase

abbrev operation : String
operation = "0123456789abcdef0123456789abcdef0123456789abcdef0123456789abcdef"

abbrev recovery : Recovery
recovery = record {
  operation_id = operation;
  worker_name = "qdev-qazstack-01";
  state = completed;
  native_outcome = some "completed";
  labels = "self-hosted" ∷ "Linux" ∷ "X64" ∷ "qdev-ci" ∷ [];
  native_finalized_at = some 90;
}

abbrev args : IntentArgs
args = record {
  operation_id = operation;
  repository = "belilovsky/qazstack";
  workflow = ".github/workflows/self-hosted-recovery.yml";
  ref = "main";
  head_sha = "0123456789abcdef0123456789abcdef01234567";
  baseline_run_id = 40;
  provider_runner_id = 7;
  provider_runner_name = "qdev-qazstack-01";
}

abbrev before : Ledger
before = record { canaries = []; events = []; recoveries = recovery ∷ [] }

abbrev fresh : Canary
fresh = new_canary intent_digest digest (draft args "qdev-qazstack-01") 100

abbrev row : Canary
row = sealed digest fresh none 100

abbrev intended : Ledger
intended = record {
  canaries = row ∷ [];
  events = event_of digest fresh none 100 ∷ [];
  recoveries = recovery ∷ [];
}

created : create_intent intent_digest digest args 100 before ≡ ok (intended, row, false)
unfolding create_intent
created = refl

-- The row and the ledger after a transition that returns.
abbrev moved : Phase → Observation → ℕ → Canary → Canary
moved phase o now c = sealed digest (next_row phase o now c) (some c.progress.phase) now

abbrev after : Phase → Observation → ℕ → Canary → Ledger → Ledger
after phase o now c t = record t {
  canaries = moved phase o now c ∷ [];
  events = t.events ++ (event_of digest (next_row phase o now c) (some c.progress.phase) now ∷ []);
}

abbrev dispatching_row : Canary
dispatching_row = moved Phase.dispatching nothing_observed 110 row

abbrev dispatching_ledger : Ledger
dispatching_ledger = after Phase.dispatching nothing_observed 110 row intended

claimed :
    claim_dispatch digest operation 1 110 110 intended
    ≡ ok (dispatching_ledger, dispatching_row, true)
unfolding claim_dispatch new_canary
claimed = refl

claimed_by_transition :
    transition digest operation 1 Phase.dispatch_intent Phase.dispatching nothing_observed false 110
      110 intended
    ≡ ok (dispatching_ledger, dispatching_row, false)
unfolding transition new_canary
claimed_by_transition = refl

called :
    call_transition digest operation 1 Phase.dispatch_intent Phase.dispatching nothing_observed 110
      110 intended
    ≡ ok (dispatching_ledger, dispatching_row, false)
unfolding call_transition new_canary
called = refl

dispatching_reached : Reach intent_digest digest before dispatching_ledger
dispatching_reached =
    Steps.then_step (Steps.then_step (Steps.done before) (Steps.intended args 100 created))
      (Steps.dispatched operation 1 110 110 claimed)

row_found : find (has_operation operation) intended.canaries ≡ some row
unfolding find has_operation sealed new_canary
row_found = refl

dispatching_found :
    find (has_operation operation) dispatching_ledger.canaries ≡ some dispatching_row
unfolding find has_operation sealed new_canary
dispatching_found = refl

Reach-History_example : History digest operation dispatching_ledger
Reach-History_example =
    Reach-History intent_digest digest before dispatching_ledger operation refl refl
      dispatching_reached

recorded_state-canary_example :
    (recorded_state digest (select (is_of operation) dispatching_ledger.events)
      ≡ some
          (dispatching_row.identity, dispatching_row.progress, dispatching_row.last_event_digest))
    × (length (select (is_of operation) dispatching_ledger.events)
        ≡ dispatching_row.progress.revision)
recorded_state-canary_example =
    recorded_state-canary intent_digest digest before dispatching_ledger operation dispatching_row
      refl refl dispatching_reached dispatching_found

Reach-Later_example :
    (d : Canary) × (find (has_operation operation) dispatching_ledger.canaries ≡ some d)
    × Later row d
Reach-Later_example =
    Reach-Later intent_digest digest intended dispatching_ledger operation row
      (Steps.then_step (Steps.done intended) (Steps.dispatched operation 1 110 110 claimed))
      row_found

claim_dispatch_once_example :
    claim_dispatch digest operation 1 120 120 dispatching_ledger ≢ ok (before, row, true)
claim_dispatch_once_example =
    claim_dispatch_once intent_digest digest operation 1 1 110 120 110 120 intended
      dispatching_ledger dispatching_ledger before dispatching_row row claimed
      (Steps.done dispatching_ledger)

transition_replays_example :
    transition digest operation 1 Phase.dispatch_intent Phase.dispatching nothing_observed false 120
      120 dispatching_ledger
    ≡ ok (dispatching_ledger, dispatching_row, true)
transition_replays_example =
    transition_replays digest operation 1 Phase.dispatch_intent Phase.dispatching nothing_observed
      false 110 110 120 120 intended dispatching_ledger dispatching_row refl claimed_by_transition

call_transition-Moved_example :
    (b : Canary) × (find (has_operation operation) intended.canaries ≡ some b)
    × (find (has_operation operation) dispatching_ledger.canaries ≡ some dispatching_row)
    × (b.progress.phase ≡ Phase.dispatch_intent)
    × (b.progress.revision ≡ 1)
    × (dispatching_row.progress.phase ≡ Phase.dispatching)
    × (dispatching_row.progress.revision ≡ 1 + 1)
    × (dispatching_row.identity ≡ b.identity)
    × (follows Phase.dispatch_intent Phase.dispatching ≡ true)
    × (Phase.dispatching ≢ Phase.accepted)
call_transition-Moved_example =
    call_transition-Moved digest operation 1 Phase.dispatch_intent Phase.dispatching
      nothing_observed 110 110 intended dispatching_ledger dispatching_row called

-- The rest of the way to acceptance.
abbrev label : String
label = temporary_label_of operation

abbrev bound : Observation
bound = record nothing_observed {
  dispatch_correlation = some (correlation_of operation);
  observed_temporary_label = some label;
}

abbrev run_seen : Observation
run_seen = record bound { run_id = some 41; run_attempt = some 1; run_status = some "queued" }

abbrev job_seen : Observation
job_seen = record bound {
  job_id = some 51;
  job_labels = some (recovery.labels ++ (label ∷ []));
  job_runner_id = some 7;
  job_runner_name = some "qdev-qazstack-01";
  run_status = some "in_progress";
}

abbrev run_done : Observation
run_done = record nothing_observed {
  run_status = some "completed";
  conclusion = some "success";
  completed_at = some 180;
}

abbrev dispatched_row : Canary
dispatched_row = moved Phase.dispatched bound 120 dispatching_row

abbrev dispatched_ledger : Ledger
dispatched_ledger = after Phase.dispatched bound 120 dispatching_row dispatching_ledger

to_dispatched :
    call_transition digest operation 2 Phase.dispatching Phase.dispatched bound 120 120
      dispatching_ledger
    ≡ ok (dispatched_ledger, dispatched_row, false)
unfolding call_transition new_canary
to_dispatched = refl

abbrev run_observed_row : Canary
run_observed_row = moved Phase.run_observed run_seen 130 dispatched_row

abbrev run_observed_ledger : Ledger
run_observed_ledger = after Phase.run_observed run_seen 130 dispatched_row dispatched_ledger

to_run_observed :
    call_transition digest operation 3 Phase.dispatched Phase.run_observed run_seen 130 130
      dispatched_ledger
    ≡ ok (run_observed_ledger, run_observed_row, false)
unfolding call_transition new_canary
to_run_observed = refl

abbrev labels_pending_row : Canary
labels_pending_row = moved Phase.labels_pending nothing_observed 140 run_observed_row

abbrev labels_pending_ledger : Ledger
labels_pending_ledger =
    after Phase.labels_pending nothing_observed 140 run_observed_row run_observed_ledger

to_labels_pending :
    call_transition digest operation 4 Phase.run_observed Phase.labels_pending nothing_observed 140
      140 run_observed_ledger
    ≡ ok (labels_pending_ledger, labels_pending_row, false)
unfolding call_transition new_canary
to_labels_pending = refl

abbrev labels_applied_row : Canary
labels_applied_row = moved Phase.labels_applied nothing_observed 150 labels_pending_row

abbrev labels_applied_ledger : Ledger
labels_applied_ledger =
    after Phase.labels_applied nothing_observed 150 labels_pending_row labels_pending_ledger

to_labels_applied :
    call_transition digest operation 5 Phase.labels_pending Phase.labels_applied nothing_observed
      150 150 labels_pending_ledger
    ≡ ok (labels_applied_ledger, labels_applied_row, false)
unfolding call_transition new_canary
to_labels_applied = refl

abbrev job_observed_row : Canary
job_observed_row = moved Phase.job_observed job_seen 160 labels_applied_row

abbrev job_observed_ledger : Ledger
job_observed_ledger = after Phase.job_observed job_seen 160 labels_applied_row labels_applied_ledger

to_job_observed :
    call_transition digest operation 6 Phase.labels_applied Phase.job_observed job_seen 160 160
      labels_applied_ledger
    ≡ ok (job_observed_ledger, job_observed_row, false)
unfolding call_transition new_canary
to_job_observed = refl

abbrev completed_row : Canary
completed_row = moved Phase.completed run_done 190 job_observed_row

abbrev completed_ledger : Ledger
completed_ledger = after Phase.completed run_done 190 job_observed_row job_observed_ledger

to_completed :
    call_transition digest operation 7 Phase.job_observed Phase.completed run_done 190 190
      job_observed_ledger
    ≡ ok (completed_ledger, completed_row, false)
unfolding call_transition new_canary
to_completed = refl

abbrev cleanup_pending_row : Canary
cleanup_pending_row = moved Phase.cleanup_pending nothing_observed 200 completed_row

abbrev cleanup_pending_ledger : Ledger
cleanup_pending_ledger =
    after Phase.cleanup_pending nothing_observed 200 completed_row completed_ledger

to_cleanup_pending :
    call_transition digest operation 8 Phase.completed Phase.cleanup_pending nothing_observed 200
      200 completed_ledger
    ≡ ok (cleanup_pending_ledger, cleanup_pending_row, false)
unfolding call_transition new_canary
to_cleanup_pending = refl

abbrev cleaned_row : Canary
cleaned_row = moved Phase.cleaned nothing_observed 210 cleanup_pending_row

abbrev cleaned_ledger : Ledger
cleaned_ledger = after Phase.cleaned nothing_observed 210 cleanup_pending_row cleanup_pending_ledger

to_cleaned :
    call_transition digest operation 9 Phase.cleanup_pending Phase.cleaned nothing_observed 210 210
      cleanup_pending_ledger
    ≡ ok (cleaned_ledger, cleaned_row, false)
unfolding call_transition new_canary
to_cleaned = refl

abbrev accepted_row : Canary
accepted_row = moved Phase.accepted nothing_observed 220 cleaned_row

abbrev accepted_ledger : Ledger
accepted_ledger = after Phase.accepted nothing_observed 220 cleaned_row cleaned_ledger

to_accepted :
    transition digest operation 10 Phase.cleaned Phase.accepted nothing_observed true 220 220
      cleaned_ledger
    ≡ ok (accepted_ledger, accepted_row, false)
unfolding transition new_canary
to_accepted = refl

accepted_reached : Reach intent_digest digest before accepted_ledger
accepted_reached =
    Steps.then_step
      (calls Phase.cleanup_pending Phase.cleaned nothing_observed 9 210 to_cleaned (
        calls Phase.completed Phase.cleanup_pending nothing_observed 8 200 to_cleanup_pending (
          calls Phase.job_observed Phase.completed run_done 7 190 to_completed (
            calls Phase.labels_applied Phase.job_observed job_seen 6 160 to_job_observed (
              calls Phase.labels_pending Phase.labels_applied nothing_observed 5 150
                to_labels_applied
                (calls Phase.run_observed Phase.labels_pending nothing_observed 4 140
                  to_labels_pending
                  (calls Phase.dispatched Phase.run_observed run_seen 3 130 to_run_observed (
                    calls Phase.dispatching Phase.dispatched bound 2 120 to_dispatched
                      dispatching_reached))))))))
      (Steps.accepted operation 10 220 220 to_accepted)
  where
    calls :
        (p q : Phase) (o : Observation) (revision now : ℕ) {t t' : Ledger} {c : Canary}
        → call_transition digest operation revision p q o now now t ≡ ok (t', c, false)
        → Reach intent_digest digest before t
        → Reach intent_digest digest before t'
    calls p q o revision now h r =
        Steps.then_step r (Steps.transitioned operation revision p q o now now h)

accepted_found : find (has_operation operation) accepted_ledger.canaries ≡ some accepted_row
unfolding find has_operation sealed new_canary
accepted_found = refl

accepted_phase : accepted_row.progress.phase ≡ Phase.accepted
unfolding sealed advanced_progress
accepted_phase = refl

accepted-IsProven_example : IsProven accepted_row
accepted-IsProven_example =
    accepted-IsProven intent_digest digest before accepted_ledger operation accepted_row refl
      accepted_reached accepted_found accepted_phase

revision_bound_example :
    (accepted_row.progress.revision ≤ place accepted_row.progress.phase + 1)
    × (length (select (is_of operation) accepted_ledger.events) ≤ 12)
revision_bound_example =
    revision_bound intent_digest digest before accepted_ledger operation accepted_row refl refl
      accepted_reached accepted_found

create_intent_replays_example :
    create_intent intent_digest digest args 120 intended ≡ ok (intended, row, true)
create_intent_replays_example =
    create_intent_replays intent_digest digest args 100 120 before intended row created
