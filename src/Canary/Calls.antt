-- ===== src/Canary/Calls.antt =====
-- The public calls that make a transition: `transition_worker_recovery_canary`, which checks its
-- arguments first, and the claim of the dispatch.
use qdev_runner_control_plan.Prelude.{
  ℕ, String, Bool, false, ◌&&◌, ◌||◌, not, Option, none, some, List, [], ◌∷◌, ◌==◌, nat_eq, Result,
  ok, refuse, value_error, ◌>>=◌, ◌>>◌, all, member, is_hex_text, string_eq, map, lower, lookup,
}
use qdev_runner_control_plan.Store.Holds.{is_runner_label, distinct}
use qdev_runner_control_plan.Canary.Phase.{Phase, statuses, conclusions}
use qdev_runner_control_plan.Canary.Row.{Canary, Body, Ledger}
use qdev_runner_control_plan.Canary.Validate.{
  Observation, nothing_observed, given, bindings, is_recovery_key,
}
use qdev_runner_control_plan.Canary.Transition.{outside, transition}

-- value is not None and value <= 0
abbrev not_positive : Option ℕ → Bool
not_positive none = false
not_positive (some n) = n == 0

abbrev fails : {A : Type 0} → (A → Bool) → Option A → Bool
fails test none = false
fails test (some a) = not (test a)

are_labels : List String → Bool
unfolding all is_runner_label distinct lower
are_labels [] = false
are_labels (l ∷ ls) = all is_runner_label (l ∷ ls) && distinct (map lower (l ∷ ls))

-- job_runner_name in _WORKER_RECOVERY_BINDINGS
is_bound_worker : String → Bool
unfolding lookup
is_bound_worker name = given (lookup name bindings)

-- The checks of the arguments, in their order.
unfoldable pub check_arguments : String → ℕ → Observation → Result (Unit {0})
unfolding is_hex_text member is_recovery_key is_runner_label are_labels is_bound_worker
check_arguments operation_id revision o = do
  refuse (not (is_hex_text 64 operation_id) || revision == 0)
      (value_error "worker recovery canary transition binding is invalid")
  refuse
      (not_positive o.run_id
        || not_positive o.run_attempt
        || not_positive o.job_id
        || not_positive o.job_runner_id)
      (value_error "worker recovery canary observation is invalid")
  refuse (outside o.run_status statuses) (value_error "worker recovery canary status is invalid")
  refuse (outside o.conclusion conclusions)
      (value_error "worker recovery canary conclusion is invalid")
  refuse (fails is_recovery_key o.dispatch_correlation)
      (value_error "worker recovery canary correlation is invalid")
  refuse (fails is_runner_label o.observed_temporary_label)
      (value_error "worker recovery canary label is invalid")
  refuse (fails are_labels o.job_labels)
      (value_error "worker recovery canary job labels are invalid")
  refuse (fails is_bound_worker o.job_runner_name)
      (value_error "worker recovery canary job runner is invalid")

module _ (digest : Body → String) where
  -- transition_worker_recovery_canary
  unfoldable pub call_transition :
      String → ℕ → Phase → Phase → Observation → ℕ → ℕ → Ledger → Result (Ledger × Canary × Bool)
  unfolding check_arguments transition
  call_transition operation_id revision expected_phase phase o now later t = do
    check_arguments operation_id revision o
    transition digest operation_id revision expected_phase phase o false now later t

  -- canary, not idempotent
  abbrev pub permission : Ledger × Canary × Bool → Ledger × Canary × Bool
  permission r = (r.0, r.1, not r.2)

  -- claim_worker_recovery_canary_dispatch
  unfoldable pub claim_dispatch : String → ℕ → ℕ → ℕ → Ledger → Result (Ledger × Canary × Bool)
  unfolding call_transition
  claim_dispatch operation_id revision now later t =
      call_transition operation_id revision Phase.dispatch_intent Phase.dispatching nothing_observed
        now later t
      >>= λ r. ok (permission r)
