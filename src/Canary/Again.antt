-- ===== src/Canary/Again.antt =====
-- Intents that are committed again (`create_worker_recovery_canary_intent` of
-- src/qdev_runner/store.py).
use qdev_runner_control_plan.Prelude.{
  ℕ, String, ◌≡◌, refl, sym, ◌∙◌, ap, subst, Bool, true, false, not, none, some, List, [], ◌∷◌,
  ◌++◌, arith, nat_eq, string_eq, ◌==◌, ◌!=◌, ok, >>=-eq-ok, passed, find, Option-cases, inl, inr,
  is_hex_text, ==-refl, find-++-none,
}
use qdev_runner_control_plan.Canary.Row.{
  Identity, Canary, Body, Event, Recovery, Ledger, has_operation, canary_row, require_event,
  temporary_label_of, correlation_of, list_beq_refl,
}
use qdev_runner_control_plan.Canary.Validate.{validate_identity}
use qdev_runner_control_plan.Canary.Transition.{recovery_of, event_of, sealed, record_event}
use qdev_runner_control_plan.Canary.Moves.{answered}
use qdev_runner_control_plan.Canary.Repeat.{require-recorded}
use qdev_runner_control_plan.Canary.Intent.{
  IntentArgs, draft, initial_progress, ready_recovery, new_canary, insert_canary, same_intent,
  new_intent, intent_for, create_intent,
}

module _ (intent_digest : Identity → String) (digest : Body → String) where
  -- The row that a new intent leaves.
  abbrev new_row : IntentArgs → String → ℕ → Canary
  new_row a worker_name now =
      sealed digest (new_canary intent_digest digest (draft a worker_name) now) none now

  new_row-bound :
      (a : IntentArgs) (worker_name : String) (now : ℕ)
      → is_hex_text 64 a.operation_id ≡ true
      → canary_row (new_row a worker_name now) ≡ ok (new_row a worker_name now)
  unfolding canary_row sealed new_canary
  new_row-bound a worker_name now h =
      rw
        (
          h,
          list_beq_refl (temporary_label_of a.operation_id ∷ []),
          ==-refl (temporary_label_of a.operation_id),
          ==-refl (correlation_of a.operation_id),
        )
        refl

  same_intent-new :
      (a : IntentArgs) (worker_name : String) (now : ℕ) (t : Ledger) (events : List Event)
      → is_hex_text 64 a.operation_id ≡ true
      → record_event digest
          (event_of digest (new_canary intent_digest digest (draft a worker_name) now) none now)
          events
        ≡ ok t.events
      → same_intent intent_digest digest (draft a worker_name) t (new_row a worker_name now)
        ≡ ok (t, new_row a worker_name now, true)
  unfolding same_intent sealed new_canary
  same_intent-new a worker_name now t events h r =
      rw
        (
          new_row-bound a worker_name now h,
          ==-refl (intent_digest (draft a worker_name)),
          require-recorded digest (new_canary intent_digest digest (draft a worker_name) now) none
              now events r,
        )
        refl

  -- What a new intent writes.
  record Began (a : IntentArgs) (worker_name : String) (now : ℕ) (t t' : Ledger) (c : Canary)
      : Type 0 where
    recorded :
        record_event digest
          (event_of digest (new_canary intent_digest digest (draft a worker_name) now) none now)
          t.events
        ≡ ok t'.events
    inserted : t'.canaries ≡ t.canaries ++ (new_row a worker_name now ∷ [])
    recoveries : t'.recoveries ≡ t.recoveries
    answer : c ≡ new_row a worker_name now

  new_intent-eq-ok :
      (a : IntentArgs) (worker_name : String) (now : ℕ) (t : Ledger) {t' : Ledger} {c : Canary}
      {b : Bool}
      → new_intent intent_digest digest (draft a worker_name) now t ≡ ok (t', c, b)
      → Began a worker_name now t t' c
  unfolding new_intent insert_canary
  new_intent-eq-ok a worker_name now t h =
      let row : Canary = new_canary intent_digest digest (draft a worker_name) now in
      let (canaries, e, k) =
        >>=-eq-ok (insert_canary intent_digest digest (sealed digest row none now) t.canaries) _
          h in
      let (events, f, l) =
        >>=-eq-ok (record_event digest (event_of digest row none now) t.events) _ k in
      let (same, same_row, _) = answered _ _ l in
      let inserted : t.canaries ++ (sealed digest row none now ∷ []) ≡ canaries = ground arith in
      record {
        recorded = f ∙ ap (λ (d : Ledger). ok d.events) same;
        inserted = sym (ap (λ (d : Ledger). d.canaries) same) ∙ sym inserted;
        recoveries = sym (ap (λ (d : Ledger). d.recoveries) same);
        answer = sym same_row;
      }

  same_intent-flag :
      (i : Identity) (t : Ledger) (row : Canary) {t' : Ledger} {c : Canary} {b : Bool}
      → same_intent intent_digest digest i t row ≡ ok (t', c, b)
      → true ≡ b
  unfolding same_intent
  same_intent-flag i t row h =
      let (canary, _, h₁) = >>=-eq-ok (canary_row row) _ h in
      let (_, h₂) = passed (canary.identity.intent_digest != intent_digest i) _ _ h₁ in
      let (_, _, h₃) =
        >>=-eq-ok
          (require_event digest t.events (record canary { progress = initial_progress }) none
            (canary.progress.revision == 1))
          _ h₂ in
      let (_, _, flag) = answered _ _ h₃ in flag

  intent-found :
      (a : IntentArgs) (worker_name : String) (now : ℕ) (t t' : Ledger) (c : Canary)
      → find (has_operation a.operation_id) t.canaries ≡ none
      → Began a worker_name now t t' c
      → find (has_operation a.operation_id) t'.canaries ≡ some (new_row a worker_name now)
  unfolding find sealed new_canary has_operation
  intent-found a worker_name now t t' c n b =
      ap (find (has_operation a.operation_id)) b.inserted
      ∙ find-++-none (has_operation a.operation_id) t.canaries (new_row a worker_name now ∷ []) n
      ∙ rw (==-refl a.operation_id) refl

  intent-again :
      (a : IntentArgs) (now : ℕ) (t' : Ledger) (recovery : Recovery) (row c : Canary)
      → is_hex_text 64 a.operation_id ≡ true
      → ready_recovery (recovery_of a.operation_id t'.recoveries) ≡ ok recovery
      → validate_identity (draft a recovery.worker_name) recovery.labels ≡ ok tt
      → find (has_operation a.operation_id) t'.canaries ≡ some row
      → same_intent intent_digest digest (draft a recovery.worker_name) t' row ≡ ok (t', c, true)
      → create_intent intent_digest digest a now t' ≡ ok (t', c, true)
  unfolding create_intent intent_for
  intent-again a now t' recovery row c hex ready valid found same =
      rw (hex, ready, valid, found) same

-- The intent is idempotent: a call that created a canary, made again at any time on the ledger that it
-- left, changes nothing and answers the same row as a replay.
pub create_intent_replays :
    (intent_digest : Identity → String) (digest : Body → String) (a : IntentArgs) (now later : ℕ)
    (t t' : Ledger) (c : Canary)
    → create_intent intent_digest digest a now t ≡ ok (t', c, false)
    → create_intent intent_digest digest a later t' ≡ ok (t', c, true)
unfolding create_intent intent_for
create_intent_replays intent_digest digest a now later t t' c h =
    let (hex, h₁) = passed (not (is_hex_text 64 a.operation_id)) _ _ h in
    let (r, ready, h₂) =
      >>=-eq-ok (ready_recovery (recovery_of a.operation_id t.recoveries)) _ h₁ in
    let (_, valid, h₃) = >>=-eq-ok (validate_identity (draft a r.worker_name) r.labels) _ h₂ in
    elim (Option-cases (find (has_operation a.operation_id) t.canaries)) [
      | inr (row, e) ↦ absurd (
          let k =
            same_intent-flag intent_digest digest (draft a r.worker_name) t row (rw e at h₃) in
          cc)
      | inl n ↦
          let b = new_intent-eq-ok intent_digest digest a r.worker_name now t (rw n at h₃) in
          let is_hex : is_hex_text 64 a.operation_id ≡ true =
            negated (is_hex_text 64 a.operation_id) hex in
          intent-again intent_digest digest a later t' r
            (new_row intent_digest digest a r.worker_name now) c is_hex
            (ap (λ x. ready_recovery (recovery_of a.operation_id x)) b.recoveries ∙ ready) valid
            (intent-found intent_digest digest a r.worker_name now t t' c n b)
            (subst
              (λ (x : Canary).
                same_intent intent_digest digest (draft a r.worker_name) t'
                  (new_row intent_digest digest a r.worker_name now)
                ≡ ok (t', x, true))
              (sym b.answer)
              (same_intent-new intent_digest digest a r.worker_name now t' t.events is_hex
                b.recorded))
    ]
  where
    negated : (x : Bool) → not x ≡ false → x ≡ true
    negated true k = refl
    negated false k = cc
