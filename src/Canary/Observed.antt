-- ===== src/Canary/Observed.antt =====
-- `_validate_worker_recovery_canary_observation`: what a canary must have observed in its phase.
use qdev_runner_control_plan.Prelude.{
  ℕ, String, Bool, false, ◌&&◌, ◌||◌, not, Option, none, some, List, [], ◌∷◌, ◌++◌, if◌then◌else◌,
  ◌==◌, nat_eq, string_eq, option_eq, leb, ltb, Result, ok, refuse, value_error, ◌>>◌, member,
}
use qdev_runner_control_plan.Store.Holds.{list_beq}
use qdev_runner_control_plan.Canary.Phase.{
  Phase, cleaned, accepted, ambiguous, phase_eq, is_dispatched, is_run, is_job, is_completed,
  statuses, conclusions,
}
use qdev_runner_control_plan.Canary.Row.{Canary, labels_beq, temporary_label_of, correlation_of}
use qdev_runner_control_plan.Canary.Validate.{given}

abbrev pub above : Option ℕ → ℕ → Bool
above none floor = false
above (some n) floor = ltb floor n

-- text in allowed, for a column that may be NULL
abbrev one_of : Option String → List String → Bool
one_of none allowed = false
one_of (some s) allowed = member s allowed

unfoldable pub binding_holds : Canary → Bool
binding_holds c =
    c.identity.dispatch_correlation == correlation_of c.identity.operation_id
    && c.identity.temporary_label == temporary_label_of c.identity.operation_id
    && list_beq c.identity.temporary_labels (temporary_label_of c.identity.operation_id ∷ [])

unfoldable pub dispatch_holds : Canary → Bool
dispatch_holds c =
    given c.progress.dispatched_at
    && c.progress.dispatch_observed_label == some (temporary_label_of c.identity.operation_id)

unfoldable pub run_holds : Canary → Bool
run_holds c =
    c.progress.run_observed_label == some (temporary_label_of c.identity.operation_id)
    && above c.progress.run_id c.identity.baseline_run_id
    && above c.progress.run_attempt 0

unfoldable pub job_holds : Canary → List String → Bool
unfolding member
job_holds c permanent_labels =
    above c.progress.job_id 0
    && labels_beq c.progress.job_labels
        (some (permanent_labels ++ (temporary_label_of c.identity.operation_id ∷ [])))
    && c.progress.job_runner_id == some c.identity.provider_runner_id
    && c.progress.job_runner_name == some c.identity.provider_runner_name
    && one_of c.progress.run_status statuses

-- The bounds on the completion time; `later` is the clock at the check.
abbrev pub completed_within : Option ℕ → Option ℕ → ℕ → ℕ → Bool
completed_within none dispatched_at native_finalized_at later = false
completed_within (some at) dispatched_at native_finalized_at later =
    leb (elim dispatched_at [ none ↦ 0 | some d ↦ d ]) at
    && leb native_finalized_at at
    && leb at later

unfoldable pub completion_holds : Canary → ℕ → ℕ → Bool
unfolding member
completion_holds c native_finalized_at later =
    completed_within c.progress.completed_at c.progress.dispatched_at native_finalized_at later
    && c.progress.run_status == some "completed"
    && one_of c.progress.conclusion conclusions

unfoldable pub acceptance_holds : Canary → Bool
acceptance_holds c = c.progress.conclusion == some "success" && given c.progress.accepted_at

-- The checks after the first, in their order; each applies from its phase on.
unfoldable pub validate_stages : Canary → Phase → List String → ℕ → ℕ → Result (Unit {0})
unfolding binding_holds dispatch_holds run_holds job_holds completion_holds acceptance_holds
validate_stages c phase permanent_labels native_finalized_at later = do
  refuse (not (binding_holds c)) (value_error "worker recovery canary durable binding is invalid")
  refuse (is_dispatched phase && not (dispatch_holds c))
      (value_error "worker recovery canary dispatch observation is invalid")
  refuse (is_run phase && not (run_holds c))
      (value_error "worker recovery canary run observation is invalid")
  refuse (is_job phase && not (job_holds c permanent_labels))
      (value_error "worker recovery canary job observation is invalid")
  refuse (is_completed phase && not (completion_holds c native_finalized_at later))
      (value_error "worker recovery canary completion is invalid")
  refuse ((phase == cleaned || phase == accepted) && not (given c.progress.cleaned_at))
      (value_error "worker recovery canary cleanup is invalid")
  refuse (phase == accepted && not (acceptance_holds c))
      (value_error "worker recovery canary acceptance is invalid")

unfoldable pub validate_observation : Canary → Phase → List String → ℕ → ℕ → Result (Unit {0})
unfolding validate_stages
validate_observation c phase permanent_labels native_finalized_at later =
    if phase == ambiguous
    then ok tt
    else validate_stages c phase permanent_labels native_finalized_at later
