-- ===== src/Canary/Repeat.antt =====
-- Transitions without evidence that are made again (the replays of src/qdev_runner/store.py).
use qdev_runner_control_plan.Prelude.{
  ℕ, ◌+◌, String, ◌≡◌, refl, sym, ◌∙◌, ap, subst, Bool, true, false, ◌&&◌, ◌||◌, not, Option, none,
  some, List, [], ◌∷◌, ◌++◌, arith, nat_eq, string_eq, option_eq, ◌==◌, ◌!=◌, ok, find, any, inl,
  inr, ==-refl, passed, Bool-cases, is_hex_text, find-++-none,
}
use qdev_runner_control_plan.Store.Holds.{list_beq}
use qdev_runner_control_plan.Canary.Phase.{Phase, phase_eq, is_bare, is_observed}
use qdev_runner_control_plan.Canary.Row.{
  Identity, Canary, Body, Event, Ledger, has_operation, canary_row, event_payload, list_beq_refl,
  labels_beq_refl, event_matches, require_event, temporary_label_of, correlation_of,
}
use qdev_runner_control_plan.Canary.Validate.{
  Observation, has_evidence, lacks_evidence, transition_matches,
}
use qdev_runner_control_plan.Canary.Transition.{
  event_of, sealed, record_event, replay, existing_canary, transition_current, transition,
  check_observation,
}
use qdev_runner_control_plan.Canary.Moves.{next_row, transition-eq-ok}
use qdev_runner_control_plan.Canary.Once.{found-Moved, phase-Moved, revision-Moved, identity-Moved}

-- No column of the evidence is given.
no_evidence-matches :
    (c : Canary) (phase : Phase) (o : Observation)
    → is_bare phase ≡ true
    → has_evidence o ≡ false
    → transition_matches c phase o ≡ true
unfolding transition_matches lacks_evidence has_evidence
no_evidence-matches c Phase.dispatch_intent o b h = ground arith
no_evidence-matches c Phase.dispatching o b h = ground arith
no_evidence-matches c Phase.dispatched o b h = cc
no_evidence-matches c Phase.run_observed o b h = cc
no_evidence-matches c Phase.labels_pending o b h = ground arith
no_evidence-matches c Phase.labels_applied o b h = ground arith
no_evidence-matches c Phase.job_observed o b h = cc
no_evidence-matches c Phase.completed o b h = cc
no_evidence-matches c Phase.cleanup_pending o b h = ground arith
no_evidence-matches c Phase.cleaned o b h = ground arith
no_evidence-matches c Phase.accepted o b h = ground arith
no_evidence-matches c Phase.ambiguous o b h = ground arith

-- The condition of `canary_row`.
is_bound : Identity → Bool
unfolding is_hex_text
is_bound i =
    is_hex_text 64 i.operation_id
    && list_beq i.temporary_labels (temporary_label_of i.operation_id ∷ [])
    && i.temporary_label == temporary_label_of i.operation_id
    && i.dispatch_correlation == correlation_of i.operation_id

-- The row's binding is that of its identity.
canary_row-identity :
    (b c : Canary) → c.identity ≡ b.identity → canary_row b ≡ ok b → canary_row c ≡ ok c
unfolding canary_row is_bound
canary_row-identity b c same h =
    let (valid, _) = passed (not (is_bound b.identity)) _ _ h in
    let also : not (is_bound c.identity) ≡ false =
      ap (λ (i : Identity). not (is_bound i)) same ∙ valid in
    rw also refl

-- What no row meets is not found under a narrower condition.
no_other :
    (p q : Event → Bool)
    → ((x : Event) → p x ≡ true → q x ≡ true)
    → (events : List Event) → any q events ≡ false
    → find p events ≡ none
unfolding any find
no_other p q sub [] h = refl
no_other p q sub (x ∷ xs) h = elim (Bool-cases (p x)) [
  | inl y ↦ absurd (let k = sub x y in let l = rw k at h in cc)
  | inr n ↦ rw n (no_other p q sub xs (ground arith))
]

module _ (digest : Body → String) where
  -- The event that a call recorded is found under its operation and revision.
  find-recorded :
      (e : Event) (events : List Event) {events' : List Event}
      → record_event digest e events ≡ ok events'
      → find
          (λ (old : Event). old.operation_id == e.operation_id && old.revision == e.revision)
          events'
        ≡ some e
  unfolding record_event any find
  find-recorded e events {events'} h =
      let p : Event → Bool =
        λ old. old.operation_id == e.operation_id && old.revision == e.revision in
      let q : Event → Bool = λ old.
        old.event_digest == e.event_digest
        || old.operation_id == e.operation_id && old.revision == e.revision in
      elim (Bool-cases (any q events)) [
        | inl y ↦ absurd (let k = rw y at h in cc)
        | inr n ↦
            let appended : events' ≡ events ++ (e ∷ []) = ground (arith, n, rw n at h) in
            let self : p e ≡ true = simp (==-refl) in
            ap (find p) appended
            ∙ find-++-none p events (e ∷ []) (no_other p q (λ x h. ground arith) events n)
            ∙ rw self refl
      ]

  -- The event of a transition is the one that its row demands.
  matches-recorded :
      (next : Canary) (from_phase : Option Phase) (now : ℕ)
      → event_matches digest
          (sealed digest next from_phase now)
          from_phase
          true
          (event_of digest next from_phase now)
        ≡ true
  unfolding event_matches sealed event_of event_payload
  matches-recorded next from_phase now = simp (==-refl, list_beq_refl, labels_beq_refl)

  require-found :
      (events : List Event) (c : Canary) (from_phase : Option Phase) (current_tip : Bool)
      (e : Event)
      → find
          (λ (old : Event).
            old.operation_id == c.identity.operation_id && old.revision == c.progress.revision)
          events
        ≡ some e
      → event_matches digest c from_phase current_tip e ≡ true
      → require_event digest events c from_phase current_tip ≡ ok tt
  unfolding require_event
  require-found events c from_phase current_tip e h k = rw (require_event, h, k) refl

  -- The checks of a replay pass for a row that was just written.
  pub require-recorded :
      (next : Canary) (from_phase : Option Phase) (now : ℕ) (events : List Event)
      {events' : List Event}
      → record_event digest (event_of digest next from_phase now) events ≡ ok events'
      → require_event digest events' (sealed digest next from_phase now) from_phase true ≡ ok tt
  unfolding sealed event_of
  require-recorded next from_phase now events {events'} h =
      require-found events' (sealed digest next from_phase now) from_phase true
        (event_of digest next from_phase now)
        (find-recorded (event_of digest next from_phase now) events h)
        (matches-recorded next from_phase now)

  checked-no_evidence :
      (c : Canary) (phase : Phase) (o : Observation)
      → is_bare phase ≡ true
      → check_observation c phase o ≡ ok tt
      → has_evidence o ≡ false
  unfolding check_observation
  checked-no_evidence c phase o bare h =
      let (_, h₁) =
        passed
          (is_observed phase
            && (o.dispatch_correlation != some c.identity.dispatch_correlation
                || o.observed_temporary_label != some c.identity.temporary_label))
          _ _ h in
      let (e, _) = passed (is_bare phase && has_evidence o) _ _ h₁ in
      let f : (true && has_evidence o) ≡ false = rw bare at e in f

  replay-written :
      (c : Canary) (from_phase phase : Phase) (o : Observation) (t : Ledger)
      → is_bare phase ≡ true
      → has_evidence o ≡ false
      → c.progress.phase ≡ phase
      → require_event digest t.events c (some from_phase) true ≡ ok tt
      → replay digest c from_phase phase o t ≡ ok (t, c, true)
  unfolding replay
  replay-written c from_phase phase o t bare none_given at required =
      let same_phase : (c.progress.phase == phase) ≡ true = rw at (==-refl phase) in
      rw (same_phase, no_evidence-matches c phase o bare none_given, required) refl

  existing-found :
      (operation_id : String) (canaries : List Canary) (c : Canary)
      → find (has_operation operation_id) canaries ≡ some c
      → canary_row c ≡ ok c
      → existing_canary digest operation_id canaries ≡ ok c
  unfolding existing_canary
  existing-found operation_id canaries c h k = rw (existing_canary, h, k)

  replayed :
      (operation_id : String) (revision : ℕ) (from_phase phase : Phase) (o : Observation)
      (allow_accepted : Bool) (now later : ℕ) (t : Ledger) (c : Canary) {r : Ledger × Canary × Bool}
      → existing_canary digest operation_id t.canaries ≡ ok c
      → (c.progress.revision == revision + 1) ≡ true
      → replay digest c from_phase phase o t ≡ ok r
      → transition digest operation_id revision from_phase phase o allow_accepted now later t ≡ ok r
  unfolding transition transition_current
  replayed operation_id revision from_phase phase o allow_accepted now later t c h k l =
      rw (transition, h, k) l

-- A transition to a phase that carries no evidence (all but those of the provider's dispatch, run, job
-- and completion) is idempotent: a call that moved the canary, made again at any time on the ledger
-- it left, changes nothing and answers the same row as a replay.
pub transition_replays :
    (digest : Body → String) (operation_id : String) (revision : ℕ) (from_phase phase : Phase)
    (o : Observation) (allow_accepted : Bool) (now later now' later' : ℕ) (t t' : Ledger)
    (c : Canary)
    → is_bare phase ≡ true
    → transition digest operation_id revision from_phase phase o allow_accepted now later t
      ≡ ok (t', c, false)
    → transition digest operation_id revision from_phase phase o allow_accepted now' later' t'
      ≡ ok (t', c, true)
transition_replays digest operation_id revision from_phase phase o allow_accepted now later now'
      later' t t' c bare h =
    elim (transition-eq-ok digest operation_id revision from_phase phase o allow_accepted now later
      t h) [
        | inr (_, e) ↦ absurd (cc)
        | inl (m, _) ↦
            let row : canary_row c ≡ ok c =
              canary_row-identity m.before c (identity-Moved digest m) m.bound in
            let at_revision : (c.progress.revision == revision + 1) ≡ true =
              rw (revision-Moved digest m) (==-refl (revision + 1)) in
            let required : require_event digest t'.events c (some from_phase) true ≡ ok tt =
              subst
                (λ (d : Canary). require_event digest t'.events d (some from_phase) true ≡ ok tt)
                (sym m.written.answer)
                (require-recorded digest (next_row phase o now m.before) (some from_phase) now
                  t.events m.written.appended) in
            let none_given = checked-no_evidence digest m.before phase o bare m.checked in
            replayed digest operation_id revision from_phase phase o allow_accepted now' later' t' c
              (existing-found digest operation_id t'.canaries c (found-Moved digest m) row)
              at_revision
              (replay-written digest c from_phase phase o t' bare none_given (phase-Moved digest m)
                required)
      ]
