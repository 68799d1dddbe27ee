-- ===== src/Canary/Accepted.antt =====
-- Rows of accepted canaries, and the public transition (src/qdev_runner/store.py).
use qdev_runner_control_plan.Prelude.{
  ℕ, ◌+◌, String, ◌≡◌, ◌≢◌, refl, sym, ◌∙◌, ap, subst, true, false, ◌&&◌, none, some, List, [], ◌∷◌,
  ◌++◌, nat_eq, string_eq, option_eq, ◌==◌, ok, find, Bool-cases, inl, inr, ◌⊎◌, ==→≡, find-++-none,
  some-eq-some,
}
use qdev_runner_control_plan.Sql.{find-update_other}
use qdev_runner_control_plan.Canary.Phase.{Phase, phase_eq, follows, place}
use qdev_runner_control_plan.Canary.Row.{Identity, Progress, Canary, Body, Ledger, has_operation}
use qdev_runner_control_plan.Canary.Validate.{Observation}
use qdev_runner_control_plan.Canary.Observed.{
  binding_holds, dispatch_holds, run_holds, job_holds, completion_holds, acceptance_holds,
  validate_stages, validate_observation,
}
use qdev_runner_control_plan.Canary.Proven.{IsProven, validate_observation-IsProven}
use qdev_runner_control_plan.Canary.Transition.{stands_at, sealed, advanced_progress}
use qdev_runner_control_plan.Canary.Moves.{next_row, transition-eq-ok}
use qdev_runner_control_plan.Canary.Calls.{call_transition}
use qdev_runner_control_plan.Canary.Steps
use qdev_runner_control_plan.Canary.Steps.{Step, Reach}
use qdev_runner_control_plan.Canary.History.{stands-other}
use qdev_runner_control_plan.Canary.Writes
use qdev_runner_control_plan.Canary.Writes.{Write, Step-Write, call-eq-ok}
use qdev_runner_control_plan.Canary.Replay.{find_advanced, find_other_began}
use qdev_runner_control_plan.Canary.Once.{found-Moved, phase-Moved, revision-Moved, identity-Moved}

-- The checks of the source passed for the row, unless it is an intent.
Checked : Canary → Type 0
Checked c =
    (c.progress.phase ≡ Phase.dispatch_intent)
    ⊎ ((labels : List String) × (at : ℕ) × (later : ℕ) × (validate_observation c c.progress.phase
            labels at later
          ≡ ok tt))

RowsChecked : Ledger → Type 0
RowsChecked t =
    (operation_id : String) (c : Canary)
    → find (has_operation operation_id) t.canaries ≡ some c
    → Checked c

module _ (digest : Body → String) where
  sealed-Checked :
      (phase : Phase) (o : Observation) (now later : ℕ) (from_phase : Phase) (before : Canary)
      (labels : List String) (at : ℕ)
      → validate_observation (next_row phase o now before) phase labels at later ≡ ok tt
      → Checked (sealed digest (next_row phase o now before) (some from_phase) now)
  unfolding Checked sealed advanced_progress validate_observation validate_stages binding_holds
      dispatch_holds run_holds job_holds completion_holds acceptance_holds
  sealed-Checked phase o now later from_phase before labels at h = inr (labels, at, later, h)

  Write-RowsChecked : {t t' : Ledger} → Write digest t t' → RowsChecked t → RowsChecked t'
  unfolding RowsChecked Checked sealed find has_operation advanced_progress
  Write-RowsChecked (Writes.nothing ec ee) h id c e =
      h id c (sym (ap (find (has_operation id)) ec) ∙ e)
  Write-RowsChecked {t} {t'} (Writes.began b now start none_found ec ee) h id c e =
      let new : Canary = sealed digest b none now in
      elim (Bool-cases (b.identity.operation_id == id)) [
        | inl y ↦
            let same : b.identity.operation_id ≡ id = ==→≡ b.identity.operation_id id y in
            let empty : find (has_operation id) t.canaries ≡ none =
              subst (λ (s : String). find (has_operation s) t.canaries ≡ none) same none_found in
            let found : find (has_operation id) (t.canaries ++ (new ∷ [])) ≡ some new =
              find-++-none (has_operation id) t.canaries (new ∷ []) empty ∙ rw y refl in
            let at_new : new ≡ c =
              some-eq-some (sym found ∙ sym (ap (find (has_operation id)) ec) ∙ e) in
            subst Checked at_new (inl (ap (λ (p : Progress). p.phase) start))
        | inr n ↦ h id c (
            sym (find_other_began digest id new t.canaries n)
            ∙ sym (ap (find (has_operation id)) ec)
            ∙ e)
      ]
  Write-RowsChecked {t} {t'}
        (Writes.advanced before phase o now later labels at found forward valid ec ee) h id c e =
      let next : Canary = next_row phase o now before in
      let new : Canary = sealed digest next (some before.progress.phase) now in
      elim (Bool-cases (before.identity.operation_id == id)) [
        | inl y ↦
            let same : before.identity.operation_id ≡ id = ==→≡ before.identity.operation_id id y in
            let found_new : find (has_operation id) t'.canaries ≡ some new =
              subst (λ (s : String). find (has_operation s) t'.canaries ≡ some new) same
                (ap (find (has_operation before.identity.operation_id)) ec
                  ∙ find_advanced digest before next now t.canaries refl found) in
            subst Checked (some-eq-some (sym found_new ∙ e))
              (sealed-Checked phase o now later before.progress.phase before labels at valid)
        | inr n ↦ h id c (
            sym (
              find-update_other (has_operation id)
                (stands_at before.identity.operation_id before.progress.revision
                  before.progress.phase)
                new t.canaries
                (λ x s.
                  stands-other before.identity.operation_id id before.progress.revision
                    before.progress.phase x n s)
                n)
            ∙ sym (ap (find (has_operation id)) ec)
            ∙ e)
      ]

module _ (intent_digest : Identity → String) (digest : Body → String) where
  Reach-RowsChecked :
      {t t' : Ledger} → Reach intent_digest digest t t' → RowsChecked t → RowsChecked t'
  Reach-RowsChecked (Steps.done t) h = h
  Reach-RowsChecked (Steps.then_step r s) h =
      Write-RowsChecked digest (Step-Write intent_digest digest s) (Reach-RowsChecked r h)

-- From a ledger without rows, after any sequence of calls, a canary that is accepted is proven: its
-- dispatch and its run carried the operation's own label, its run comes after the baseline run, its
-- job ran on the recovered runner, and the run completed with success, no earlier than its dispatch.
pub accepted-IsProven :
    (intent_digest : Identity → String) (digest : Body → String) (t t' : Ledger)
    (operation_id : String) (c : Canary)
    → t.canaries ≡ []
    → Reach intent_digest digest t t'
    → find (has_operation operation_id) t'.canaries ≡ some c
    → c.progress.phase ≡ Phase.accepted
    → IsProven c
unfolding RowsChecked Checked find
accepted-IsProven intent_digest digest t t' operation_id c empty r found at =
    let none_yet : RowsChecked t =
      λ id d e. absurd (let n = sym (ap (find (has_operation id)) empty) ∙ e in cc) in
    elim (Reach-RowsChecked intent_digest digest r none_yet operation_id c found) [
      | inl e ↦
          absurd (
            let k : place Phase.accepted ≡ place Phase.dispatch_intent = ap place (sym at ∙ e) in
            cc)
      | inr (labels, finalized, later, v) ↦
          validate_observation-IsProven c labels finalized later
            (subst (λ (p : Phase). validate_observation c p labels finalized later ≡ ok tt) at v)
    ]

-- A public transition that is not a replay of one goes along a permitted edge from the phase and the
-- revision that the caller expects to the phase it names, one revision on, keeps the identity, and
-- never ends in acceptance.
pub call_transition-Moved :
    (digest : Body → String) (operation_id : String) (revision : ℕ) (from_phase phase : Phase)
    (o : Observation) (now later : ℕ) (t t' : Ledger) (c : Canary)
    → call_transition digest operation_id revision from_phase phase o now later t
      ≡ ok (t', c, false)
    → (before : Canary) × (find (has_operation operation_id) t.canaries ≡ some before)
      × (find (has_operation operation_id) t'.canaries ≡ some c)
      × (before.progress.phase ≡ from_phase)
      × (before.progress.revision ≡ revision)
      × (c.progress.phase ≡ phase)
      × (c.progress.revision ≡ revision + 1)
      × (c.identity ≡ before.identity)
      × (follows from_phase phase ≡ true)
      × (phase ≢ Phase.accepted)
unfolding sealed advanced_progress
call_transition-Moved digest operation_id revision from_phase phase o now later t t' c h =
    elim (transition-eq-ok digest operation_id revision from_phase phase o false now later t
      (call-eq-ok digest operation_id revision from_phase phase o now later t h)) [
        | inr (_, e) ↦ absurd (cc)
        | inl (m, _) ↦ (
          m.before,
          m.found,
          found-Moved digest m,
          m.at_phase,
          m.at_revision,
          phase-Moved digest m,
          revision-Moved digest m,
          identity-Moved digest m,
          m.forward,
          λ e. not_accepted e m.permitted,
        )
      ]
  where
    not_accepted : {p : Phase} → p ≡ Phase.accepted → (p == Phase.accepted && true) ≡ false → ⊥
    not_accepted e k = let l = rw e at k in cc
