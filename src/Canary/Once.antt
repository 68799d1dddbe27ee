-- ===== src/Canary/Once.antt =====
-- The later rows of a canary, and the permission to dispatch it (src/qdev_runner/store.py).
use qdev_runner_control_plan.Prelude.{
  ℕ, ◌+◌, ◌≤◌, String, ◌≡◌, refl, sym, ◌∙◌, ap, subst, Bool, true, false, ◌&&◌, none, some, [], ◌∷◌,
  arith, nat_eq, string_eq, option_eq, ◌==◌, ok, find, Bool-cases, inl, inr, ==→≡, ==-refl,
  find-++-some, some-eq-some, ◌≢◌,
}
use qdev_runner_control_plan.Sql.{find-update, find-update_other}
use qdev_runner_control_plan.Canary.Phase.{Phase, phase_eq, place, follows-place}
use qdev_runner_control_plan.Canary.Row.{Identity, Canary, Body, Ledger, has_operation}
use qdev_runner_control_plan.Canary.Validate.{Observation, nothing_observed}
use qdev_runner_control_plan.Canary.Transition.{stands_at, sealed, advanced_progress}
use qdev_runner_control_plan.Canary.Moves.{next_row, Moved, transition-eq-ok}
use qdev_runner_control_plan.Canary.Calls.{claim_dispatch}
use qdev_runner_control_plan.Canary.Steps
use qdev_runner_control_plan.Canary.Steps.{Step, Reach}
use qdev_runner_control_plan.Canary.History.{stands-operation, stands-other}
use qdev_runner_control_plan.Canary.Writes
use qdev_runner_control_plan.Canary.Writes.{
  Write, operation-found, claim_dispatch-eq-ok, Step-Write,
}
use qdev_runner_control_plan.Canary.Replay.{find_advanced}

-- A later row of the same canary.
pub record Later (c d : Canary) : Type 0 where
  pub identity : d.identity ≡ c.identity
  pub phase : place c.progress.phase ≤ place d.progress.phase
  pub revision : c.progress.revision ≤ d.progress.revision

same_row : (c : Canary) → Later c c
same_row c = record { identity = refl; phase = omega arith; revision = omega arith }

Later-Later : {c d e : Canary} → Later c d → Later d e → Later c e
Later-Later h k = record {
  identity = k.identity ∙ h.identity;
  phase = let x = h.phase in let y = k.phase in omega arith;
  revision = let x = h.revision in let y = k.revision in omega arith;
}

all_three : (a b c : Bool) → a ≡ true → b ≡ true → c ≡ true → (a && b && c) ≡ true
all_three a b c h k l = rw (h, k, l) refl

module _ (digest : Body → String) where
  Write-Later :
      {t t' : Ledger} (operation_id : String) (c : Canary)
      → Write digest t t'
      → find (has_operation operation_id) t.canaries ≡ some c
      → (d : Canary) × (find (has_operation operation_id) t'.canaries ≡ some d) × Later c d
  unfolding sealed advanced_progress has_operation
  Write-Later operation_id c (Writes.nothing ec ee) h =
      (c, ap (find (has_operation operation_id)) ec ∙ h, same_row c)
  Write-Later {t} {t'} operation_id c (Writes.began b now start none_found ec ee) h = (
    c,
    ap (find (has_operation operation_id)) ec
        ∙ find-++-some (has_operation operation_id) t.canaries (sealed digest b none now ∷ []) h,
    same_row c,
  )
  Write-Later {t} {t'} operation_id c
        (Writes.advanced before phase o now later labels at found forward _ ec ee) h =
      let next : Canary = next_row phase o now before in
      elim (Bool-cases (before.identity.operation_id == operation_id)) [
        | inl y ↦
            let same : before.identity.operation_id ≡ operation_id =
              ==→≡ before.identity.operation_id operation_id y in
            let at_row : before ≡ c = some-eq-some (
              sym found
              ∙ subst (λ (id : String). find (has_operation id) t.canaries ≡ some c) (sym same)
                  h) in
            let up = follows-place before.progress.phase phase forward in
            (
              sealed digest next (some before.progress.phase) now,
              subst
                  (λ (id : String).
                    find (has_operation id) t'.canaries
                    ≡ some (sealed digest next (some before.progress.phase) now))
                  same
                  (ap (find (has_operation before.identity.operation_id)) ec
                    ∙ find_advanced digest before next now t.canaries refl found),
              subst (λ (x : Canary). Later x (sealed digest next (some before.progress.phase) now))
                  at_row (record { identity = refl; phase = omega arith; revision = omega arith }),
            )
        | inr n ↦ (
          c,
          ap (find (has_operation operation_id)) ec
              ∙ find-update_other (has_operation operation_id)
                  (stands_at before.identity.operation_id before.progress.revision
                    before.progress.phase)
                  (sealed digest next (some before.progress.phase) now) t.canaries
                  (λ x s.
                    stands-other before.identity.operation_id operation_id before.progress.revision
                      before.progress.phase x n s)
                  n
              ∙ h,
          same_row c,
        )
      ]

-- No call removes or resets a canary: after any sequence of calls its row is there, with the same
-- identity, no earlier phase and no smaller revision.
pub Reach-Later :
    (intent_digest : Identity → String) (digest : Body → String) (t t' : Ledger)
    (operation_id : String) (c : Canary)
    → Reach intent_digest digest t t'
    → find (has_operation operation_id) t.canaries ≡ some c
    → (d : Canary) × (find (has_operation operation_id) t'.canaries ≡ some d) × Later c d
Reach-Later intent_digest digest t t' operation_id c (Steps.done u) h = (c, h, same_row c)
Reach-Later intent_digest digest t t' operation_id c (Steps.then_step {a} {b} r s) h =
    let (d, e, k) = Reach-Later intent_digest digest a b operation_id c r h in
    let (d', e', k') = Write-Later digest operation_id d (Step-Write intent_digest digest s) e in
    (d', e', Later-Later k k')

module _ (digest : Body → String) where
  -- Permission comes from the intent, and leaves the phase after it.
  granted :
      (operation_id : String) (revision now later : ℕ) (t t' : Ledger) {c : Canary}
      → claim_dispatch digest operation_id revision now later t ≡ ok (t', c, true)
      → Moved digest operation_id revision Phase.dispatch_intent Phase.dispatching nothing_observed
          false now later t t' c
  granted operation_id revision now later t t' h =
      elim (transition-eq-ok digest operation_id revision Phase.dispatch_intent Phase.dispatching
        nothing_observed false now later t
        (claim_dispatch-eq-ok digest operation_id revision now later t h)) [
          | inl (m, _) ↦ m
          | inr (_, e) ↦ absurd (cc)
        ]

  -- The row after a move.
  pub found-Moved :
      {operation_id : String} {revision : ℕ} {from_phase phase : Phase} {o : Observation}
      {allow : Bool} {now later : ℕ} {t t' : Ledger} {c : Canary}
      → Moved digest operation_id revision from_phase phase o allow now later t t' c
      → find (has_operation operation_id) t'.canaries ≡ some c
  unfolding sealed has_operation stands_at
  found-Moved {operation_id} {revision} {from_phase} {phase} {o} {allow} {now} {later} {t} m =
      let next : Canary = next_row phase o now m.before in
      let own : m.before.identity.operation_id ≡ operation_id =
        operation-found digest operation_id t.canaries m.found in
      let own_test : has_operation operation_id m.before ≡ true = rw own (==-refl operation_id) in
      let stands : stands_at operation_id revision from_phase m.before ≡ true =
        all_three (has_operation operation_id m.before) (m.before.progress.revision == revision)
          (m.before.progress.phase == from_phase) own_test
          (ap (λ n. n == revision) m.at_revision ∙ ==-refl revision)
          (ap (λ (p : Phase). p == from_phase) m.at_phase ∙ ==-refl from_phase) in
      ap (find (has_operation operation_id)) m.written.updated
      ∙ find-update (has_operation operation_id) (stands_at operation_id revision from_phase)
          (sealed digest next (some from_phase) now) t.canaries
          (stands-operation operation_id revision from_phase) own_test m.found stands
      ∙ ap some (sym m.written.answer)

  -- The phase after a move.
  pub phase-Moved :
      {operation_id : String} {revision : ℕ} {from_phase phase : Phase} {o : Observation}
      {allow : Bool} {now later : ℕ} {t t' : Ledger} {c : Canary}
      → Moved digest operation_id revision from_phase phase o allow now later t t' c
      → c.progress.phase ≡ phase
  unfolding sealed advanced_progress
  phase-Moved m = ap (λ (d : Canary). d.progress.phase) m.written.answer

  pub revision-Moved :
      {operation_id : String} {revision : ℕ} {from_phase phase : Phase} {o : Observation}
      {allow : Bool} {now later : ℕ} {t t' : Ledger} {c : Canary}
      → Moved digest operation_id revision from_phase phase o allow now later t t' c
      → c.progress.revision ≡ revision + 1
  unfolding sealed advanced_progress
  revision-Moved m =
      ap (λ (d : Canary). d.progress.revision) m.written.answer ∙ ap (λ n. n + 1) m.at_revision

  pub identity-Moved :
      {operation_id : String} {revision : ℕ} {from_phase phase : Phase} {o : Observation}
      {allow : Bool} {now later : ℕ} {t t' : Ledger} {c : Canary}
      → (m : Moved digest operation_id revision from_phase phase o allow now later t t' c)
      → c.identity ≡ m.before.identity
  unfolding sealed
  identity-Moved m = ap (λ (d : Canary). d.identity) m.written.answer

-- Permission to make the provider call is granted at most once for an operation: after a claim of
-- its dispatch that answered true, and any sequence of calls, no claim of its dispatch answers true,
-- whatever revision it names.
pub claim_dispatch_once :
    (intent_digest : Identity → String) (digest : Body → String) (operation_id : String)
    (revision revision' now now' later later' : ℕ) (t t₁ t₂ t₃ : Ledger) (c c' : Canary)
    → claim_dispatch digest operation_id revision now later t ≡ ok (t₁, c, true)
    → Reach intent_digest digest t₁ t₂
    → claim_dispatch digest operation_id revision' now' later' t₂ ≢ ok (t₃, c', true)
claim_dispatch_once intent_digest digest operation_id revision revision' now now' later later' t t₁
      t₂ t₃ c c' h r k =
    let first = granted digest operation_id revision now later t t₁ h in
    let second = granted digest operation_id revision' now' later' t₂ t₃ k in
    let (d, found, after) =
      Reach-Later intent_digest digest t₁ t₂ operation_id c r (found-Moved digest first) in
    let same : d ≡ second.before = some-eq-some (sym found ∙ second.found) in
    let at_end : place d.progress.phase ≡ 0 =
      ap (λ (x : Canary). place x.progress.phase) same ∙ ap place second.at_phase in
    let at_start : place c.progress.phase ≡ 1 = ap place (phase-Moved digest first) in
    let up = after.phase in omega arith
