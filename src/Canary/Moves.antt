-- ===== src/Canary/Moves.antt =====
-- What a transition that returns has passed, and what it writes.
use qdev_runner_control_plan.Prelude.{
  ◌>>◌, refuse, value_error, ℕ, ◌+◌, String, ◌≡◌, sym, ◌∙◌, ap, subst, Bool, true, false, ◌&&◌,
  ◌||◌, not, some, List, arith, nat_eq, string_eq, ◌==◌, ◌!=◌, ok, >>=-eq-ok, passed, find, count,
  Bool-cases, inl, inr, ◌⊎◌, Option-cases, option_eq,
}
use qdev_runner_control_plan.Sql.{update}
use qdev_runner_control_plan.Canary.Phase.{Phase, phase_eq, phase_beq_iff, follows}
use qdev_runner_control_plan.Canary.Row.{
  Canary, Body, Ledger, has_operation, canary_row, require_event,
}
use qdev_runner_control_plan.Canary.Validate.{Observation, transition_matches}
use qdev_runner_control_plan.Canary.Observed.{validate_observation}
use qdev_runner_control_plan.Canary.Transition.{
  recovery_of, finalized, check_observation, advanced_progress, stands_at, event_of, sealed,
  record_event, commit, replay, advance, transition_current, existing_canary, transition,
}

pub answered :
    (x y : Ledger × Canary × Bool) → ok x ≡ ok y → (x.0 ≡ y.0) × (x.1 ≡ y.1) × (x.2 ≡ y.2)
answered x y h =
    let e : x ≡ y = ground arith in
    (
      ap (λ (r : Ledger × Canary × Bool). r.0) e,
      ap (λ (r : Ledger × Canary × Bool). r.1) e,
      ap (λ (r : Ledger × Canary × Bool). r.2) e,
    )

pub canary_row-eq-ok : (row : Canary) {c : Canary} → canary_row row ≡ ok c → row ≡ c
unfolding canary_row
canary_row-eq-ok row h = ground arith

neither : (m n : ℕ) (p q : Phase) → (m != n || p != q) ≡ false → (m ≡ n) × (p ≡ q)
neither m n p q h = (ground arith, (phase_beq_iff p q).0 (ground arith))

-- The new row of a transition, before its digest.
abbrev pub next_row : Phase → Observation → ℕ → Canary → Canary
next_row phase o now before = record before {
  progress = advanced_progress phase o now before.progress;
}

module _ (digest : Body → String) where
  -- What the two writes leave.
  pub record Written (operation_id : String) (revision : ℕ) (from_phase : Phase) (next : Canary)
      (now : ℕ) (t t' : Ledger) (c : Canary) : Type 0 where
    pub appended :
        record_event digest (event_of digest next (some from_phase) now) t.events ≡ ok t'.events
    pub updated :
        t'.canaries
        ≡ update
            (stands_at operation_id revision from_phase)
            (λ _. sealed digest next (some from_phase) now)
            t.canaries
    pub recoveries : t'.recoveries ≡ t.recoveries
    pub answer : c ≡ sealed digest next (some from_phase) now

  commit-eq-ok :
      (operation_id : String) (revision : ℕ) (from_phase : Phase) (next : Canary) (now : ℕ)
      (t : Ledger) {t' : Ledger} {c : Canary} {b : Bool}
      → commit digest operation_id revision from_phase next now t ≡ ok (t', c, b)
      → Written operation_id revision from_phase next now t t' c × (b ≡ false)
  unfolding commit
  commit-eq-ok operation_id revision from_phase next now t {t'} {c} {b} h =
      let (one, k) =
        passed (count (stands_at operation_id revision from_phase) t.canaries != 1) _ _ h in
      let (events, e, l) =
        >>=-eq-ok (record_event digest (event_of digest next (some from_phase) now) t.events) _ k in
      let (same_t, same_c, same_b) = answered _ _ l in
      (
        record {
          appended = e ∙ ap (λ (d : Ledger). ok d.events) same_t;
          updated = sym (ap (λ (d : Ledger). d.canaries) same_t);
          recoveries = sym (ap (λ (d : Ledger). d.recoveries) same_t);
          answer = sym same_c;
        },
        sym same_b,
      )

  -- A transition that is not a replay.
  pub record Moved (operation_id : String) (revision : ℕ) (from_phase phase : Phase)
      (o : Observation) (allow_accepted : Bool) (now later : ℕ) (t t' : Ledger) (c : Canary)
      : Type 0 where
    pub before : Canary
    pub found : find (has_operation operation_id) t.canaries ≡ some before
    pub bound : canary_row before ≡ ok before
    pub at_revision : before.progress.revision ≡ revision
    pub at_phase : before.progress.phase ≡ from_phase
    pub forward : follows from_phase phase ≡ true
    pub permitted : (phase == Phase.accepted && not allow_accepted) ≡ false
    pub checked : check_observation before phase o ≡ ok tt
    pub labels : List String
    pub finalized_at : ℕ
    pub durable : finalized (recovery_of operation_id t.recoveries) ≡ ok (labels, finalized_at)
    pub validated :
        validate_observation (next_row phase o now before) phase labels finalized_at later ≡ ok tt
    pub written : Written operation_id revision from_phase (next_row phase o now before) now t t' c

  existing-eq-ok :
      (operation_id : String) (canaries : List Canary) {c : Canary}
      → existing_canary digest operation_id canaries ≡ ok c
      → (find (has_operation operation_id) canaries ≡ some c) × (canary_row c ≡ ok c)
  unfolding existing_canary
  existing-eq-ok operation_id canaries {c} h =
      elim (Option-cases (find (has_operation operation_id) canaries)) [
        | inl n ↦ absurd (let k = rw (existing_canary, n) at h in cc)
        | inr (row, e) ↦
            let k : canary_row row ≡ ok c = rw (existing_canary, e) at h in
            let same : row ≡ c = canary_row-eq-ok row k in
            (e ∙ ap some same, subst (λ (d : Canary). canary_row d ≡ ok c) same k)
      ]

  advance-eq-ok :
      (operation_id : String) (revision : ℕ) (from_phase phase : Phase) (o : Observation)
      (allow_accepted : Bool) (now later : ℕ) (t : Ledger) (before : Canary) {t' : Ledger}
      {c : Canary} {b : Bool}
      → find (has_operation operation_id) t.canaries ≡ some before
      → canary_row before ≡ ok before
      → before.progress.revision ≡ revision
      → before.progress.phase ≡ from_phase
      → advance digest operation_id revision from_phase phase o allow_accepted now later t before
        ≡ ok (t', c, b)
      → Moved operation_id revision from_phase phase o allow_accepted now later t t' c × (b ≡ false)
  unfolding advance
  advance-eq-ok operation_id revision from_phase phase o allow_accepted now later t before found
        bound er ep h =
      let (f, h₁) = passed (not (follows from_phase phase)) _ _ h in
      let (p, h₂) = passed (phase == Phase.accepted && not allow_accepted) _ _ h₁ in
      let (durable, d, h₃) = >>=-eq-ok (finalized (recovery_of operation_id t.recoveries)) _ h₂ in
      let (_, k, h₄) = >>=-eq-ok (check_observation before phase o) _ h₃ in
      let (_, v, h₅) =
        >>=-eq-ok
          (validate_observation (next_row phase o now before) phase durable.0 durable.1 later) _
          h₄ in
      let (w, e) =
        commit-eq-ok operation_id revision from_phase (next_row phase o now before) now t h₅ in
      (
        record {
          before = before;
          found = found;
          bound = bound;
          at_revision = er;
          at_phase = ep;
          forward = ground arith;
          permitted = p;
          checked = k;
          labels = durable.0;
          finalized_at = durable.1;
          durable = d;
          validated = v;
          written = w;
        },
        e,
      )

  -- A replay answers with the row that is there.
  pub record Replayed (operation_id : String) (phase : Phase) (t t' : Ledger) (c : Canary)
      : Type 0 where
    pub unchanged : t' ≡ t
    pub found : find (has_operation operation_id) t.canaries ≡ some c
    pub at_phase : c.progress.phase ≡ phase

  replay-eq-ok :
      (operation_id : String) (from_phase phase : Phase) (o : Observation) (t : Ledger)
      (row : Canary) {t' : Ledger} {c : Canary} {b : Bool}
      → find (has_operation operation_id) t.canaries ≡ some row
      → replay digest row from_phase phase o t ≡ ok (t', c, b)
      → Replayed operation_id phase t t' c × (b ≡ true)
  unfolding replay
  replay-eq-ok operation_id from_phase phase o t row {t'} {c} {b} found h =
      let (m, h₁) =
        passed (row.progress.phase != phase || not (transition_matches row phase o)) _ _ h in
      let (_, _, h₂) = >>=-eq-ok (require_event digest t.events row (some from_phase) true) _ h₁ in
      let (same_t, same_c, same_b) = answered _ _ h₂ in
      let at : row.progress.phase ≡ phase =
        (phase_beq_iff row.progress.phase phase).0 (ground arith) in
      (
        record {
          unchanged = sym same_t;
          found = found ∙ ap some same_c;
          at_phase = subst (λ (d : Canary). d.progress.phase ≡ phase) same_c at;
        },
        sym same_b,
      )

  -- A transition that returns moved the canary or answered a replay.
  pub transition-eq-ok :
      (operation_id : String) (revision : ℕ) (from_phase phase : Phase) (o : Observation)
      (allow_accepted : Bool) (now later : ℕ) (t : Ledger) {t' : Ledger} {c : Canary} {b : Bool}
      → transition digest operation_id revision from_phase phase o allow_accepted now later t
        ≡ ok (t', c, b)
      → (Moved operation_id revision from_phase phase o allow_accepted now later t t' c
          × (b ≡ false))
        ⊎ (Replayed operation_id phase t t' c × (b ≡ true))
  unfolding transition transition_current
  transition-eq-ok operation_id revision from_phase phase o allow_accepted now later t {t'} {c} {b}
        h =
      let (row, e, k) = >>=-eq-ok (existing_canary digest operation_id t.canaries) _ h in
      let (found, bound) = existing-eq-ok operation_id t.canaries e in
      elim (Bool-cases (row.progress.revision == revision + 1)) [
        | inl y ↦ inr (replay-eq-ok operation_id from_phase phase o t row found (rw y at k))
        | inr n ↦
            let k' : (refuse (row.progress.revision != revision || row.progress.phase != from_phase)
                    (value_error "worker recovery canary transition is ambiguous")
                  >> advance digest operation_id revision from_phase phase o allow_accepted now
                      later t row)
                ≡ ok (t', c, b) =
              rw n at k in
            let (s, m) =
              passed (row.progress.revision != revision || row.progress.phase != from_phase) _ _
                k' in
            let (r, p) = neither row.progress.revision revision row.progress.phase from_phase s in
            inl (
              advance-eq-ok operation_id revision from_phase phase o allow_accepted now later t row
                found bound r p m)
      ]
