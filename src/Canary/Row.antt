-- ===== src/Canary/Row.antt =====
-- The tables of a recovery canary. The columns are grouped: `Identity` never changes, `Progress` is
-- what a transition may set. The digest of an event (SHA-256 of its canonical JSON) is a parameter.
use Prim.Native.String.{◌++◌ as text_append}
use qdev_runner_control_plan.Prelude.{
  ℕ, String, ◌≡◌, refl, Bool, true, false, ◌&&◌, ◌||◌, not, Option, none, some, List, [], ◌∷◌, ◌==◌,
  nat_eq, string_eq, option_eq, Result, ok, raise, refuse, value_error, ◌>>◌, find, is_hex_text,
  ==-refl,
}
use qdev_runner_control_plan.Store.Tables.{RecoveryState}
use qdev_runner_control_plan.Store.Holds.{list_beq}
use qdev_runner_control_plan.Canary.Phase.{Phase, phase_eq}

pub record Identity : Type 0 where
  pub operation_id : String
  pub worker_name : String
  pub repository : String
  pub workflow : String
  pub ref : String
  pub head_sha : String
  pub baseline_run_id : ℕ
  pub provider_runner_id : ℕ
  pub provider_runner_name : String
  pub dispatch_correlation : String
  pub temporary_label : String
  pub temporary_labels : List String
  pub intent_digest : String

pub record Progress : Type 0 where
  pub phase : Phase
  pub revision : ℕ
  pub run_id : Option ℕ
  pub run_attempt : Option ℕ
  pub job_id : Option ℕ
  pub dispatch_observed_label : Option String
  pub run_observed_label : Option String
  pub job_labels : Option (List String)
  pub job_runner_id : Option ℕ
  pub job_runner_name : Option String
  pub run_status : Option String
  pub conclusion : Option String
  pub dispatched_at : Option ℕ
  pub completed_at : Option ℕ
  pub cleaned_at : Option ℕ
  pub accepted_at : Option ℕ

-- A row of `worker_recovery_canaries`.
pub record Canary : Type 0 where
  pub identity : Identity
  pub progress : Progress
  pub last_event_digest : String
  pub created_at : ℕ
  pub updated_at : ℕ

-- What `event_json` encodes.
pub record Body : Type 0 where
  pub identity : Identity
  pub progress : Progress
  pub from_phase : Option Phase
  pub recorded_at : ℕ

-- A row of `worker_recovery_canary_events`, which triggers keep from being changed or deleted.
pub record Event : Type 0 where
  pub event_digest : String
  pub operation_id : String
  pub revision : ℕ
  pub from_phase : Option Phase
  pub phase : Phase
  pub event : Body
  pub recorded_at : ℕ

-- The columns of `worker_recoveries` that the canary reads.
pub record Recovery : Type 0 where
  pub operation_id : String
  pub worker_name : String
  pub state : RecoveryState
  pub native_outcome : Option String
  pub labels : List String
  pub native_finalized_at : Option ℕ

pub record Ledger : Type 0 where
  pub canaries : List Canary
  pub events : List Event
  pub recoveries : List Recovery

-- value != expected, column by column
unfoldable pub identity_beq : Identity → Identity → Bool
identity_beq a b =
    a.operation_id == b.operation_id
    && a.worker_name == b.worker_name
    && a.repository == b.repository
    && a.workflow == b.workflow
    && a.ref == b.ref
    && a.head_sha == b.head_sha
    && a.baseline_run_id == b.baseline_run_id
    && a.provider_runner_id == b.provider_runner_id
    && a.provider_runner_name == b.provider_runner_name
    && a.dispatch_correlation == b.dispatch_correlation
    && a.temporary_label == b.temporary_label
    && list_beq a.temporary_labels b.temporary_labels
    && a.intent_digest == b.intent_digest

abbrev pub labels_beq : Option (List String) → Option (List String) → Bool
labels_beq none none = true
labels_beq none (some ys) = false
labels_beq (some xs) none = false
labels_beq (some xs) (some ys) = list_beq xs ys

unfoldable pub progress_beq : Progress → Progress → Bool
progress_beq a b =
    a.phase == b.phase
    && a.revision == b.revision
    && a.run_id == b.run_id
    && a.run_attempt == b.run_attempt
    && a.job_id == b.job_id
    && a.dispatch_observed_label == b.dispatch_observed_label
    && a.run_observed_label == b.run_observed_label
    && labels_beq a.job_labels b.job_labels
    && a.job_runner_id == b.job_runner_id
    && a.job_runner_name == b.job_runner_name
    && a.run_status == b.run_status
    && a.conclusion == b.conclusion
    && a.dispatched_at == b.dispatched_at
    && a.completed_at == b.completed_at
    && a.cleaned_at == b.cleaned_at
    && a.accepted_at == b.accepted_at

unfoldable pub body_beq : Body → Body → Bool
unfolding identity_beq progress_beq
body_beq a b =
    identity_beq a.identity b.identity
    && progress_beq a.progress b.progress
    && a.from_phase == b.from_phase
    && a.recorded_at == b.recorded_at

pub list_beq_refl : (xs : List String) → list_beq xs xs ≡ true
list_beq_refl [] = refl
list_beq_refl (x ∷ xs) = rw (==-refl x, list_beq_refl xs) refl

pub labels_beq_refl : (o : Option (List String)) → labels_beq o o ≡ true
labels_beq_refl none = refl
labels_beq_refl (some xs) = list_beq_refl xs

&&-intro : (a b : Bool) → a ≡ true → b ≡ true → (a && b) ≡ true
&&-intro a b h k = rw (h, k) refl

pub body_beq_refl : (b : Body) → body_beq b b ≡ true
unfolding body_beq identity_beq progress_beq
body_beq_refl b = simp (==-refl, list_beq_refl, labels_beq_refl)

-- f"qdev-job-recovery-{operation_id}"
abbrev pub temporary_label_of : String → String
temporary_label_of operation_id = text_append "qdev-job-recovery-" operation_id

-- f"qdev-recovery-{operation_id}"
abbrev pub correlation_of : String → String
correlation_of operation_id = text_append "qdev-recovery-" operation_id

unfoldable pub has_operation : String → Canary → Bool
has_operation operation_id c = c.identity.operation_id == operation_id

-- _worker_recovery_canary_row
unfoldable pub canary_row : Canary → Result Canary
unfolding is_hex_text
canary_row c = do
  refuse
      (not (
        is_hex_text 64 c.identity.operation_id
        && list_beq c.identity.temporary_labels (temporary_label_of c.identity.operation_id ∷ [])
        && c.identity.temporary_label == temporary_label_of c.identity.operation_id
        && c.identity.dispatch_correlation == correlation_of c.identity.operation_id))
      (value_error "worker recovery canary durable binding is invalid")
  ok c

-- _worker_recovery_canary_event_payload
unfoldable pub event_payload : Canary → Option Phase → ℕ → Body
event_payload c from_phase recorded_at = record {
  identity = c.identity;
  progress = c.progress;
  from_phase = from_phase;
  recorded_at = recorded_at;
}

module _ (digest : Body → String) where
  -- What `_require_worker_recovery_canary_event` compares.
  unfoldable pub event_matches : Canary → Option Phase → Bool → Event → Bool
  unfolding event_payload body_beq
  event_matches c from_phase current_tip e =
      let expected : Body = event_payload c from_phase e.recorded_at in
      body_beq e.event expected
      && e.event_digest == digest expected
      && (not current_tip || c.last_event_digest == digest expected)
      && e.from_phase == from_phase
      && e.phase == c.progress.phase

  unfoldable pub require_event : List Event → Canary → Option Phase → Bool → Result (Unit {0})
  unfolding event_matches find
  require_event events c from_phase current_tip =
      elim (find
        (λ (e : Event).
          e.operation_id == c.identity.operation_id && e.revision == c.progress.revision)
        events) [
          | none ↦ raise (value_error "worker recovery canary event history is incomplete")
          | some e ↦
              refuse (not (event_matches c from_phase current_tip e))
                (value_error "worker recovery canary event history is invalid")
        ]
