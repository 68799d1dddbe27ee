-- ===== src/Canary/Writes.antt =====
-- The writes of a step, which are those of one call for one operation.
use qdev_runner_control_plan.Prelude.{
  ℕ, String, ◌≡◌, refl, sym, ◌∙◌, ap, subst, Bool, true, false, not, none, some, List, [], ◌∷◌,
  ◌++◌, arith, nat_eq, string_eq, option_eq, ◌==◌, ◌!=◌, ok, >>=-eq-ok, passed, find, find-eq-some,
  inl, inr, ==→≡, Option-cases, is_hex_text,
}
use qdev_runner_control_plan.Sql.{update}
use qdev_runner_control_plan.Canary.Phase.{Phase, follows}
use qdev_runner_control_plan.Canary.Row.{
  Identity, Canary, Body, Ledger, has_operation, canary_row, require_event,
}
use qdev_runner_control_plan.Canary.Validate.{Observation, nothing_observed, validate_identity}
use qdev_runner_control_plan.Canary.Observed.{validate_observation}
use qdev_runner_control_plan.Canary.Transition.{
  recovery_of, stands_at, event_of, sealed, record_event, transition,
}
use qdev_runner_control_plan.Canary.Moves.{next_row, Moved, transition-eq-ok, answered}
use qdev_runner_control_plan.Canary.Intent.{
  IntentArgs, draft, initial_progress, ready_recovery, new_canary, insert_canary, same_intent,
  new_intent, intent_for, create_intent,
}
use qdev_runner_control_plan.Canary.Calls.{check_arguments, call_transition, claim_dispatch}
use qdev_runner_control_plan.Canary.Steps
use qdev_runner_control_plan.Canary.Steps.{Step, Reach}

module _ (digest : Body → String) where
  pub data Write : Ledger → Ledger → Type 0 where
    nothing : {t t' : Ledger} → t'.canaries ≡ t.canaries → t'.events ≡ t.events → Write t t'
    began :
        {t t' : Ledger} (c : Canary) (now : ℕ)
        → c.progress ≡ initial_progress
        → find (has_operation c.identity.operation_id) t.canaries ≡ none
        → t'.canaries ≡ t.canaries ++ (sealed digest c none now ∷ [])
        → record_event digest (event_of digest c none now) t.events ≡ ok t'.events
        → Write t t'
    advanced :
        {t t' : Ledger} (before : Canary) (phase : Phase) (o : Observation) (now later : ℕ)
        (labels : List String) (finalized_at : ℕ)
        → find (has_operation before.identity.operation_id) t.canaries ≡ some before
        → follows before.progress.phase phase ≡ true
        → validate_observation (next_row phase o now before) phase labels finalized_at later ≡ ok tt
        → t'.canaries
          ≡ update
              (stands_at before.identity.operation_id before.progress.revision
                before.progress.phase)
              (λ _. sealed digest (next_row phase o now before) (some before.progress.phase) now)
              t.canaries
        → record_event digest
            (event_of digest (next_row phase o now before) (some before.progress.phase) now)
            t.events
          ≡ ok t'.events
        → Write t t'

  -- The row that is found is of the operation.
  pub operation-found :
      (operation_id : String) (canaries : List Canary) {c : Canary}
      → find (has_operation operation_id) canaries ≡ some c
      → c.identity.operation_id ≡ operation_id
  unfolding has_operation
  operation-found operation_id canaries {c} h =
      let (_, e) = find-eq-some (has_operation operation_id) canaries h in
      ==→≡ c.identity.operation_id operation_id e

  retarget :
      (xs ys : List Canary) (new : Phase → Canary) {s s' : String} {r r' : ℕ} {p p' : Phase}
      → s ≡ s'
      → r ≡ r'
      → p ≡ p'
      → ys ≡ update (stands_at s r p) (λ _. new p) xs
      → ys ≡ update (stands_at s' r' p') (λ _. new p') xs
  retarget xs ys new es er ep h = rw (← es, ← er, ← ep) h

  Moved-Write :
      {operation_id : String} {revision : ℕ} {from_phase phase : Phase} {o : Observation}
      {allow : Bool} {now later : ℕ} {t t' : Ledger} {c : Canary}
      → Moved digest operation_id revision from_phase phase o allow now later t t' c
      → Write t t'
  Moved-Write {operation_id} {revision} {from_phase} {phase} {o} {allow} {now} {later} {t} {t'} m =
      let same : m.before.identity.operation_id ≡ operation_id =
        operation-found operation_id t.canaries m.found in
      let phase_at : from_phase ≡ m.before.progress.phase = sym m.at_phase in
      let new : Phase → Canary = λ p. sealed digest (next_row phase o now m.before) (some p) now in
      advanced m.before phase o now later m.labels m.finalized_at
        (subst (λ (s : String). find (has_operation s) t.canaries ≡ some m.before) (sym same)
          m.found)
        (subst (λ (p : Phase). follows p phase ≡ true) phase_at m.forward) m.validated
        (retarget t.canaries t'.canaries new (sym same) (sym m.at_revision) phase_at
          m.written.updated)
        (subst
          (λ (p : Phase).
            record_event digest (event_of digest (next_row phase o now m.before) (some p) now)
              t.events
            ≡ ok t'.events)
          phase_at m.written.appended)

  transition-Write :
      (operation_id : String) (revision : ℕ) (from_phase phase : Phase) (o : Observation)
      (allow : Bool) (now later : ℕ) (t : Ledger) {t' : Ledger} {c : Canary} {b : Bool}
      → transition digest operation_id revision from_phase phase o allow now later t ≡ ok (t', c, b)
      → Write t t'
  transition-Write operation_id revision from_phase phase o allow now later t h =
      elim (transition-eq-ok digest operation_id revision from_phase phase o allow now later t h) [
        | inl (m, _) ↦ Moved-Write m
        | inr (r, _) ↦
            nothing (ap (λ (d : Ledger). d.canaries) r.unchanged)
              (ap (λ (d : Ledger). d.events) r.unchanged)
      ]

  -- The public call is the transition, for arguments that pass.
  pub call-eq-ok :
      (operation_id : String) (revision : ℕ) (from_phase phase : Phase) (o : Observation)
      (now later : ℕ) (t : Ledger) {t' : Ledger} {c : Canary} {b : Bool}
      → call_transition digest operation_id revision from_phase phase o now later t ≡ ok (t', c, b)
      → transition digest operation_id revision from_phase phase o false now later t ≡ ok (t', c, b)
  unfolding call_transition
  call-eq-ok operation_id revision from_phase phase o now later t h =
      let (_, _, k) = >>=-eq-ok (check_arguments operation_id revision o) _ h in k

  same_answer : (x y : Ledger × Canary × Bool) → x.0 ≡ y.0 → x.1 ≡ y.1 → x.2 ≡ y.2 → ok x ≡ ok y
  same_answer (t, c, a) (u, d, b) e f g = ap ok (
      ap (λ (u' : Ledger). answer u' c a) e
      ∙ ap (λ (d' : Canary). answer u d' a) f
      ∙ ap (λ (b' : Bool). answer u d b') g)
    where
      answer : Ledger → Canary → Bool → Ledger × Canary × Bool
      answer u' d' b' = (u', d', b')

  -- The claim of a dispatch is a transition, whose flag it negates.
  pub claim_dispatch-eq-ok :
      (operation_id : String) (revision now later : ℕ) (t : Ledger) {t' : Ledger} {c : Canary}
      {b : Bool}
      → claim_dispatch digest operation_id revision now later t ≡ ok (t', c, b)
      → transition digest operation_id revision Phase.dispatch_intent Phase.dispatching
          nothing_observed false now later t
        ≡ ok (t', c, not b)
  unfolding claim_dispatch
  claim_dispatch-eq-ok operation_id revision now later t {t'} {c} {b} h =
      let ((u, d, i), e, k) =
        >>=-eq-ok
          (call_transition digest operation_id revision Phase.dispatch_intent Phase.dispatching
            nothing_observed now later t)
          _ h in
      let (x, y, z) = answered _ _ k in
      let w : i ≡ not b = ground arith in
      call-eq-ok operation_id revision Phase.dispatch_intent Phase.dispatching nothing_observed now
        later t (e ∙ same_answer (u, d, i) (t', c, not b) x y w)

module _ (intent_digest : Identity → String) (digest : Body → String) where
  new_intent-Write :
      (i : Identity) (now : ℕ) (t : Ledger) {t' : Ledger} {c : Canary} {b : Bool}
      → find (has_operation i.operation_id) t.canaries ≡ none
      → new_intent intent_digest digest i now t ≡ ok (t', c, b)
      → Write digest t t'
  unfolding new_intent new_canary insert_canary
  new_intent-Write i now t {t'} none_found h =
      let c : Canary = new_canary intent_digest digest i now in
      let (canaries, e, k) =
        >>=-eq-ok (insert_canary intent_digest digest (sealed digest c none now) t.canaries) _ h in
      let (events, f, l) =
        >>=-eq-ok (record_event digest (event_of digest c none now) t.events) _ k in
      let (same, _, _) = answered _ _ l in
      let inserted : t.canaries ++ (sealed digest c none now ∷ []) ≡ canaries = ground arith in
      began c now refl none_found (sym (ap (λ (d : Ledger). d.canaries) same) ∙ sym inserted)
        (f ∙ ap (λ (d : Ledger). ok d.events) same)

  -- A replay writes nothing.
  same_intent-Write :
      (i : Identity) (t : Ledger) (row : Canary) {t' : Ledger} {c : Canary} {b : Bool}
      → same_intent intent_digest digest i t row ≡ ok (t', c, b)
      → Write digest t t'
  unfolding same_intent
  same_intent-Write i t row h =
      let (canary, _, h₁) = >>=-eq-ok (canary_row row) _ h in
      let (_, h₂) = passed (canary.identity.intent_digest != intent_digest i) _ _ h₁ in
      let (_, _, h₃) =
        >>=-eq-ok
          (require_event digest t.events (record canary { progress = initial_progress }) none
            (canary.progress.revision == 1))
          _ h₂ in
      let (same, _, _) = answered _ _ h₃ in
      nothing (sym (ap (λ (d : Ledger). d.canaries) same))
        (sym (ap (λ (d : Ledger). d.events) same))

  create_intent-Write :
      (a : IntentArgs) (now : ℕ) (t : Ledger) {t' : Ledger} {c : Canary} {b : Bool}
      → create_intent intent_digest digest a now t ≡ ok (t', c, b)
      → Write digest t t'
  unfolding create_intent intent_for
  create_intent-Write a now t {t'} {c} {b} h =
      let (_, h₁) = passed (not (is_hex_text 64 a.operation_id)) _ _ h in
      let (r, _, h₂) = >>=-eq-ok (ready_recovery (recovery_of a.operation_id t.recoveries)) _ h₁ in
      let (_, _, h₃) = >>=-eq-ok (validate_identity (draft a r.worker_name) r.labels) _ h₂ in
      elim (Option-cases (find (has_operation a.operation_id) t.canaries)) [
        | inl n ↦ new_intent-Write (draft a r.worker_name) now t n (rw n at h₃)
        | inr (row, e) ↦ same_intent-Write (draft a r.worker_name) t row (rw e at h₃)
      ]

  -- Every step makes the writes of one of the three kinds.
  pub Step-Write : {t t' : Ledger} → Step intent_digest digest t t' → Write digest t t'
  Step-Write (Steps.intended a now {t} h) = create_intent-Write a now t h
  Step-Write (Steps.dispatched id revision now later {t} h) =
      transition-Write digest id revision Phase.dispatch_intent Phase.dispatching nothing_observed
        false now later t (claim_dispatch-eq-ok digest id revision now later t h)
  Step-Write (Steps.transitioned id revision p q o now later {t} h) =
      transition-Write digest id revision p q o false now later t
        (call-eq-ok digest id revision p q o now later t h)
  Step-Write (Steps.accepted id revision now later {t} h) =
      transition-Write digest id revision Phase.cleaned Phase.accepted nothing_observed true now
        later t h
  Step-Write (Steps.recovery_advanced recoveries t) = nothing refl refl
