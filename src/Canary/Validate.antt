-- ===== src/Canary/Validate.antt =====
-- The checks that a canary passes: on the identity of a new one, on what the provider reported, and
-- on a transition that is made twice.
use qdev_runner_control_plan.Prelude.{
  ℕ, String, Bool, true, false, ◌&&◌, ◌||◌, not, Option, none, some, List, [], ◌∷◌, map, ◌==◌,
  nat_eq, nat_beq, string_eq, option_eq, leb, ltb, Result, refuse, value_error, member, Eq, lookup,
  lower, is_alnum, is_name_char, is_hex_text, all_chars, text_length, starts_then, contains,
}
use Prim.Native.Char.{code}
use qdev_runner_control_plan.Store.Holds.{list_beq, is_runner_label}
use qdev_runner_control_plan.Canary.Phase.{
  Phase, dispatched, run_observed, job_observed, completed, phase_eq, is_observed,
}
use qdev_runner_control_plan.Canary.Row.{
  Identity, Canary, labels_beq, temporary_label_of, correlation_of,
}

pub record Binding : Type 0 where
  pub repository : String
  pub labels : List String
  pub workflow : String

-- _WORKER_RECOVERY_BINDINGS and _WORKER_RECOVERY_CANARY_WORKFLOWS
abbrev pub bindings : List (String × Binding)
bindings =
    (
      "qdev-platform-ci-187",
      record {
        repository = "belilovsky/platform-portal";
        labels = "self-hosted" ∷ "Linux" ∷ "X64" ∷ "qdev-platform-ci" ∷ [];
        workflow = ".github/workflows/runner-smoke.yml";
      },
    )
    ∷ (
      "qdev-qazstack-01",
      record {
        repository = "belilovsky/qazstack";
        labels = "self-hosted" ∷ "Linux" ∷ "X64" ∷ "qdev-ci" ∷ [];
        workflow = ".github/workflows/self-hosted-recovery.yml";
      },
    )
    ∷ []

workflow_char : ℕ → Bool
unfolding is_name_char
workflow_char n = is_name_char n || nat_beq n b'@' || nat_beq n b'/' || nat_beq n b' '

-- ^[A-Za-z0-9_.@/ -]{1,255}$
is_workflow : String → Bool
unfolding all_chars workflow_char text_length
is_workflow s = all_chars workflow_char s && leb 1 (text_length s) && leb (text_length s) 255

ref_char : ℕ → Bool
unfolding is_name_char
ref_char n = is_name_char n || nat_beq n b'/'

ends_in : (ℕ → Bool) → String → Bool
ends_in p String.[] = false
ends_in p (String.◌∷◌ c String.[]) = p (code c)
ends_in p (String.◌∷◌ c (String.◌∷◌ d s)) = ends_in p (String.◌∷◌ d s)

-- _valid_canary_ref, with ^[A-Za-z0-9][A-Za-z0-9._/-]{0,255}$
unfoldable pub valid_canary_ref : String → Bool
unfolding starts_then is_alnum ref_char text_length contains ends_in
valid_canary_ref s =
    starts_then is_alnum ref_char s
    && leb (text_length s) 256
    && not (contains ".." s)
    && not (contains "//" s)
    && not (contains "@{" s)
    && not (ends_in (λ n. nat_beq n b'/' || nat_beq n b'.') s)

recovery_key_char : ℕ → Bool
unfolding is_name_char
recovery_key_char n = is_name_char n || nat_beq n b':'

-- ^[A-Za-z0-9][A-Za-z0-9._:-]{7,127}$
unfoldable pub is_recovery_key : String → Bool
unfolding starts_then is_alnum recovery_key_char text_length
is_recovery_key s =
    starts_then is_alnum recovery_key_char s && leb 8 (text_length s) && leb (text_length s) 128

abbrev binds_worker : Identity → List String → Binding → Bool
binds_worker i permanent_labels target =
    target.repository == i.repository
    && list_beq target.labels permanent_labels
    && i.workflow == target.workflow

-- _validate_worker_recovery_canary_identity
unfoldable pub validate_identity : Identity → List String → Result (Unit {0})
unfolding lookup is_workflow valid_canary_ref is_hex_text is_runner_label member lower
validate_identity i permanent_labels =
    refuse
      (not (
        (elim (lookup i.worker_name bindings) [
          | none ↦ false
          | some target ↦ binds_worker i permanent_labels target
        ])
        && is_workflow i.workflow
        && valid_canary_ref i.ref
        && is_hex_text 40 i.head_sha
        && ltb 0 i.provider_runner_id
        && i.provider_runner_name == i.worker_name
        && i.dispatch_correlation == correlation_of i.operation_id
        && i.temporary_label == temporary_label_of i.operation_id
        && is_runner_label i.temporary_label
        && not (member (lower i.temporary_label) (map lower permanent_labels))))
      (value_error "worker recovery canary binding is invalid")

-- The keyword arguments of a transition that carry what the provider reported.
pub record Observation : Type 0 where
  pub dispatch_correlation : Option String
  pub observed_temporary_label : Option String
  pub run_id : Option ℕ
  pub run_attempt : Option ℕ
  pub job_id : Option ℕ
  pub job_labels : Option (List String)
  pub job_runner_id : Option ℕ
  pub job_runner_name : Option String
  pub run_status : Option String
  pub conclusion : Option String
  pub completed_at : Option ℕ

abbrev pub nothing_observed : Observation
nothing_observed = record {
  dispatch_correlation = none;
  observed_temporary_label = none;
  run_id = none;
  run_attempt = none;
  job_id = none;
  job_labels = none;
  job_runner_id = none;
  job_runner_name = none;
  run_status = none;
  conclusion = none;
  completed_at = none;
}

abbrev pub given {ℓ} : {A : Type ℓ} → Option A → Bool
given none = false
given (some a) = true

-- any(value is not None for value in ...), over all the evidence
unfoldable pub has_evidence : Observation → Bool
has_evidence o =
    given o.dispatch_correlation
    || given o.observed_temporary_label
    || given o.run_id
    || given o.run_attempt
    || given o.job_id
    || given o.job_labels
    || given o.job_runner_id
    || given o.job_runner_name
    || given o.run_status
    || given o.conclusion
    || given o.completed_at

-- value is None or stored == value
abbrev pub agrees {ℓ} : {A : Type ℓ} ⦃e : Eq A⦄ → Option A → Option A → Bool
agrees none stored = true
agrees (some a) stored = stored == some a

abbrev pub labels_agree : Option (List String) → Option (List String) → Bool
labels_agree none stored = true
labels_agree (some xs) stored = labels_beq stored (some xs)

-- The early returns of `_worker_recovery_canary_transition_matches`.
unfoldable pub lacks_evidence : Phase → Observation → Bool
lacks_evidence phase o =
    is_observed phase
      && (not (given o.dispatch_correlation) || not (given o.observed_temporary_label))
    || phase == run_observed && (not (given o.run_id) || not (given o.run_attempt))
    || phase == job_observed
      && (not (given o.job_id)
          || not (given o.job_labels)
          || not (given o.job_runner_id)
          || not (given o.job_runner_name)
          || not (given o.run_status))
    || phase == completed
      && (not (given o.run_status) || not (given o.conclusion) || not (given o.completed_at))

-- The column that holds the label that was observed.
abbrev pub observed_label : Phase → Canary → Option String
observed_label dispatched c = c.progress.dispatch_observed_label
observed_label run_observed c = c.progress.run_observed_label
observed_label _ c = some c.identity.temporary_label

-- _worker_recovery_canary_transition_matches
unfoldable pub transition_matches : Canary → Phase → Observation → Bool
unfolding lacks_evidence
transition_matches c phase o =
    not (lacks_evidence phase o)
    && agrees o.dispatch_correlation (some c.identity.dispatch_correlation)
    && agrees o.observed_temporary_label (observed_label phase c)
    && agrees o.run_id c.progress.run_id
    && agrees o.run_attempt c.progress.run_attempt
    && agrees o.job_id c.progress.job_id
    && labels_agree o.job_labels c.progress.job_labels
    && agrees o.job_runner_id c.progress.job_runner_id
    && agrees o.job_runner_name c.progress.job_runner_name
    && agrees o.run_status c.progress.run_status
    && agrees o.conclusion c.progress.conclusion
    && agrees o.completed_at c.progress.completed_at
