-- ===== src/Canary/Steps.antt =====
-- The ledger as a state machine: one constructor for each call that writes it, committed as one
-- transaction. A call that raises changes nothing. The methods that advance the recovery itself are
-- one step that leaves any table of recoveries and the ledger as it is.
use qdev_runner_control_plan.Prelude.{ℕ, String, ◌≡◌, Bool, true, List, ok}
use qdev_runner_control_plan.Canary.Phase.{Phase}
use qdev_runner_control_plan.Canary.Row.{Identity, Canary, Body, Recovery, Ledger}
use qdev_runner_control_plan.Canary.Validate.{Observation, nothing_observed}
use qdev_runner_control_plan.Canary.Transition.{transition}
use qdev_runner_control_plan.Canary.Intent.{IntentArgs, create_intent}
use qdev_runner_control_plan.Canary.Calls.{call_transition, claim_dispatch}

module _ (intent_digest : Identity → String) (digest : Body → String) where
  pub data Step : Ledger → Ledger → Type 0 where
    intended :
        (a : IntentArgs) (now : ℕ) {t t' : Ledger} {c : Canary} {b : Bool}
        → create_intent intent_digest digest a now t ≡ ok (t', c, b)
        → Step t t'
    dispatched :
        (operation_id : String) (revision now later : ℕ) {t t' : Ledger} {c : Canary} {b : Bool}
        → claim_dispatch digest operation_id revision now later t ≡ ok (t', c, b)
        → Step t t'
    transitioned :
        (operation_id : String) (revision : ℕ) (from_phase phase : Phase) (o : Observation)
        (now later : ℕ) {t t' : Ledger} {c : Canary} {b : Bool}
        → call_transition digest operation_id revision from_phase phase o now later t
          ≡ ok (t', c, b)
        → Step t t'
    -- The acceptance, which the controller makes with the release of the recovery.
    accepted :
        (operation_id : String) (revision now later : ℕ) {t t' : Ledger} {c : Canary} {b : Bool}
        → transition digest operation_id revision Phase.cleaned Phase.accepted nothing_observed true
            now later t
          ≡ ok (t', c, b)
        → Step t t'
    recovery_advanced :
        (recoveries : List Recovery) (t : Ledger) → Step t (record t { recoveries = recoveries })

  -- Any number of calls.
  pub data Reach : Ledger → Ledger → Type 0 where
    done : (t : Ledger) → Reach t t
    then_step : {a b c : Ledger} → Reach a b → Step b c → Reach a c
