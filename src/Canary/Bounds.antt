-- ===== src/Canary/Bounds.antt =====
-- Bounds on the revision and the events of a canary (src/qdev_runner/store.py).
use qdev_runner_control_plan.Prelude.{
  ◌+◌, ◌≤◌, String, ◌≡◌, ap, List, [], some, find, select, length, arith,
}
use qdev_runner_control_plan.Canary.Phase.{Phase, place, follows-place}
use qdev_runner_control_plan.Canary.Row.{
  Identity, Progress, Canary, Body, Event, Ledger, has_operation,
}
use qdev_runner_control_plan.Canary.Transition.{sealed}
use qdev_runner_control_plan.Canary.Steps.{Reach}
use qdev_runner_control_plan.Canary.History.{is_of, Trace, begun, extended, Trace-length}
use qdev_runner_control_plan.Canary.Replay.{Reach-History}

place_bound : (p : Phase) → place p ≤ 11
place_bound Phase.dispatch_intent = omega arith
place_bound Phase.dispatching = omega arith
place_bound Phase.dispatched = omega arith
place_bound Phase.run_observed = omega arith
place_bound Phase.labels_pending = omega arith
place_bound Phase.labels_applied = omega arith
place_bound Phase.job_observed = omega arith
place_bound Phase.completed = omega arith
place_bound Phase.cleanup_pending = omega arith
place_bound Phase.cleaned = omega arith
place_bound Phase.accepted = omega arith
place_bound Phase.ambiguous = omega arith

Trace-bound :
    (digest : Body → String) {es : List Event} {c : Canary}
    → Trace digest es c
    → c.progress.revision ≤ place c.progress.phase + 1
unfolding sealed
Trace-bound digest (begun c now start) =
    let one : c.progress.revision ≡ 1 = ap (λ (p : Progress). p.revision) start in omega arith
Trace-bound digest (extended {es} {c} r next now same revision forward) =
    let ih = Trace-bound digest r in
    let up = follows-place c.progress.phase next.progress.phase forward in omega arith

-- From a ledger without rows and events, after any sequence of calls, the revision of a canary is at
-- most one more than the place of its phase in the sequence, so an operation never has more than
-- twelve events, however often its transitions are called.
pub revision_bound :
    (intent_digest : Identity → String) (digest : Body → String) (t t' : Ledger)
    (operation_id : String) (c : Canary)
    → t.canaries ≡ []
    → t.events ≡ []
    → Reach intent_digest digest t t'
    → find (has_operation operation_id) t'.canaries ≡ some c
    → (c.progress.revision ≤ place c.progress.phase + 1)
      × (length (select (is_of operation_id) t'.events) ≤ 12)
revision_bound intent_digest digest t t' operation_id c nc ne r found =
    let trace = (Reach-History intent_digest digest t t' operation_id nc ne r).present c found in
    let bound = Trace-bound digest trace in
    let size = Trace-length digest trace in
    let last = place_bound c.progress.phase in (bound, omega arith)
