-- ===== src/Canary/Proven.antt =====
-- What the checks of an acceptance say of the row.
use qdev_runner_control_plan.Prelude.{
  ℕ, ◌≤◌, ◌<◌, String, ◌≡◌, refl, Bool, true, false, ◌&&◌, not, Option, none, some, List, [], ◌∷◌,
  ◌++◌, arith, nat_eq, string_eq, option_eq, ◌==◌, ok, ==→≡, some-eq-some, passed, refuse-eq-ok,
  &&-elim,
}
use qdev_runner_control_plan.Canary.Phase.{Phase, phase_eq}
use qdev_runner_control_plan.Canary.Row.{Canary, labels_beq, temporary_label_of}
use qdev_runner_control_plan.Canary.Validate.{given}
use qdev_runner_control_plan.Canary.Observed.{
  above, binding_holds, dispatch_holds, run_holds, job_holds, completed_within, completion_holds,
  acceptance_holds, validate_stages, validate_observation,
}

-- What an accepted row proves of the run: its correlation to the dispatch, its place after the
-- baseline, the runner and the labels of its job, the time of its completion and its success.
pub record IsProven (c : Canary) : Type 0 where
  pub dispatch_label :
      c.progress.dispatch_observed_label ≡ some (temporary_label_of c.identity.operation_id)
  pub run_label : c.progress.run_observed_label ≡ some (temporary_label_of c.identity.operation_id)
  pub run_id : ℕ
  pub run : c.progress.run_id ≡ some run_id
  pub after_baseline : c.identity.baseline_run_id < run_id
  pub runner : c.progress.job_runner_id ≡ some c.identity.provider_runner_id
  pub runner_name : c.progress.job_runner_name ≡ some c.identity.provider_runner_name
  pub status : c.progress.run_status ≡ some "completed"
  pub conclusion : c.progress.conclusion ≡ some "success"
  pub dispatched_at : ℕ
  pub dispatch : c.progress.dispatched_at ≡ some dispatched_at
  pub completed_at : ℕ
  pub completion : c.progress.completed_at ≡ some completed_at
  pub in_order : dispatched_at ≤ completed_at

above-eq-true :
    (o : Option ℕ) (floor : ℕ) → above o floor ≡ true → (n : ℕ) × (o ≡ some n) × (floor < n)
above-eq-true none floor h = cc
above-eq-true (some n) floor h = (n, refl, ground arith)

given-eq-true : (o : Option ℕ) → given o ≡ true → (n : ℕ) × (o ≡ some n)
given-eq-true none h = cc
given-eq-true (some n) h = (n, refl)

within-eq-true :
    (o d : Option ℕ) (at later : ℕ)
    → completed_within o d at later ≡ true
    → (n : ℕ) × (o ≡ some n) × ((m : ℕ) → d ≡ some m → m ≤ n)
within-eq-true none d at later h = cc
within-eq-true (some n) none at later h = (n, refl, λ m e. cc)
within-eq-true (some n) (some d) at later h =
    let bound : d ≤ n = ground arith in
    (n, refl, λ m e. let same : d ≡ m = some-eq-some e in rw (← same) bound)

and3 : (a b c : Bool) → (a && b && c) ≡ true → (a ≡ true) × (b ≡ true) × (c ≡ true)
and3 a b c h = (ground arith, ground arith, ground arith)

and5 :
    (a b c d e : Bool)
    → (a && b && c && d && e) ≡ true
    → (a ≡ true) × (b ≡ true) × (c ≡ true) × (d ≡ true) × (e ≡ true)
and5 a b c d e h = (ground arith, ground arith, ground arith, ground arith, ground arith)

holds : (b : Bool) → not b ≡ false → b ≡ true
holds true h = refl
holds false h = cc

pub validate_observation-IsProven :
    (c : Canary) (labels : List String) (at later : ℕ)
    → validate_observation c Phase.accepted labels at later ≡ ok tt
    → IsProven c
unfolding validate_observation validate_stages dispatch_holds run_holds job_holds completion_holds
    acceptance_holds
validate_observation-IsProven c labels at later h =
    let (_, h₁) = passed (not (binding_holds c)) _ _ h in
    let (d, h₂) = passed (not (dispatch_holds c)) _ _ h₁ in
    let (r, h₃) = passed (not (run_holds c)) _ _ h₂ in
    let (j, h₄) = passed (not (job_holds c labels)) _ _ h₃ in
    let (k, h₅) = passed (not (completion_holds c at later)) _ _ h₄ in
    let (_, h₆) = passed (not (given c.progress.cleaned_at)) _ _ h₅ in
    let a = refuse-eq-ok (not (acceptance_holds c)) _ h₆ in
    let (dispatched, label) =
      &&-elim (given c.progress.dispatched_at) _ (holds (dispatch_holds c) d) in
    let (dispatched_at, dispatch) = given-eq-true c.progress.dispatched_at dispatched in
    let (run_label, run_above, _) =
      and3 (c.progress.run_observed_label == some (temporary_label_of c.identity.operation_id))
        (above c.progress.run_id c.identity.baseline_run_id) _ (holds (run_holds c) r) in
    let (run_id, run, after_baseline) =
      above-eq-true c.progress.run_id c.identity.baseline_run_id run_above in
    let (_, _, runner, name, _) =
      and5 (above c.progress.job_id 0)
        (labels_beq c.progress.job_labels
          (some (labels ++ (temporary_label_of c.identity.operation_id ∷ []))))
        (c.progress.job_runner_id == some c.identity.provider_runner_id)
        (c.progress.job_runner_name == some c.identity.provider_runner_name) _
        (holds (job_holds c labels) j) in
    let (within, status, _) =
      and3 (completed_within c.progress.completed_at c.progress.dispatched_at at later)
        (c.progress.run_status == some "completed") _ (holds (completion_holds c at later) k) in
    let (completed_at, completion, bounds) =
      within-eq-true c.progress.completed_at c.progress.dispatched_at at later within in
    let (conclusion, _) =
      &&-elim (c.progress.conclusion == some "success") _ (holds (acceptance_holds c) a) in
    record {
      dispatch_label = ==→≡ c.progress.dispatch_observed_label _ label;
      run_label = ==→≡ c.progress.run_observed_label _ run_label;
      run_id = run_id;
      run = run;
      after_baseline = after_baseline;
      runner = ==→≡ c.progress.job_runner_id _ runner;
      runner_name = ==→≡ c.progress.job_runner_name _ name;
      status = ==→≡ c.progress.run_status _ status;
      conclusion = ==→≡ c.progress.conclusion _ conclusion;
      dispatched_at = dispatched_at;
      dispatch = dispatch;
      completed_at = completed_at;
      completion = completion;
      in_order = bounds dispatched_at dispatch;
    }
