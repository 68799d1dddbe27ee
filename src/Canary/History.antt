-- ===== src/Canary/History.antt =====
-- The event ledger as the specification of a canary's row (src/qdev_runner/store.py): paths of
-- events through the transitions, and the state that they record.
use qdev_runner_control_plan.Prelude.{
  ℕ, ◌+◌, String, ◌≡◌, refl, sym, ◌∙◌, ap, subst, Bool, true, false, Option, none, some, List, [],
  ◌∷◌, ◌++◌, arith, nat_eq, string_eq, option_eq, ◌==◌, ok, find, select, ==→≡, ==-refl, select-++,
  length, some-eq-some,
}
use qdev_runner_control_plan.Canary.Phase.{Phase, phase_eq, follows}
use qdev_runner_control_plan.Canary.Row.{
  Identity, Progress, Canary, Body, Event, event_payload, Ledger, has_operation,
}
use qdev_runner_control_plan.Canary.Transition.{stands_at, event_of, sealed, record_event}
use qdev_runner_control_plan.Canary.Intent.{initial_progress}

abbrev pub is_of : String → Event → Bool
is_of operation_id e = e.operation_id == operation_id

pub stands-operation :
    (operation_id : String) (revision : ℕ) (phase : Phase) (c : Canary)
    → stands_at operation_id revision phase c ≡ true
    → has_operation operation_id c ≡ true
unfolding stands_at
stands-operation operation_id revision phase c h = ground arith

pub stands-other :
    (operation_id other : String) (revision : ℕ) (phase : Phase) (c : Canary)
    → (operation_id == other) ≡ false
    → stands_at operation_id revision phase c ≡ true
    → has_operation other c ≡ false
unfolding stands_at has_operation
stands-other operation_id other revision phase c n h =
    let same : c.identity.operation_id ≡ operation_id =
      ==→≡ c.identity.operation_id operation_id
        (stands-operation operation_id revision phase c h) in
    rw (has_operation, same) n

module _ (digest : Body → String) where
  -- The events that lead to a row.
  pub data Trace : List Event → Canary → Type 0 where
    begun :
        (c : Canary) (now : ℕ)
        → c.progress ≡ initial_progress
        → Trace (event_of digest c none now ∷ []) (sealed digest c none now)
    extended :
        {es : List Event} {c : Canary}
        → Trace es c
        → (next : Canary) (now : ℕ) → next.identity ≡ c.identity
        → next.progress.revision ≡ c.progress.revision + 1
        → follows c.progress.phase next.progress.phase ≡ true
        → Trace
            (es ++ (event_of digest next (some c.progress.phase) now ∷ []))
            (sealed digest next (some c.progress.phase) now)

  -- The events of an operation lead to its row, and there are none without a row.
  pub record History (operation_id : String) (t : Ledger) : Type 0 where
    pub absent :
        find (has_operation operation_id) t.canaries ≡ none
        → select (is_of operation_id) t.events ≡ []
    pub present :
        (c : Canary)
        → find (has_operation operation_id) t.canaries ≡ some c
        → Trace (select (is_of operation_id) t.events) c

  recorded :
      (e : Event) (events : List Event) {events' : List Event}
      → record_event digest e events ≡ ok events'
      → events' ≡ events ++ (e ∷ [])
  unfolding record_event
  recorded e events h = ground arith

  -- An event of the operation is the last of its events, and leaves those of the others alone.
  pub own-append :
      (operation_id : String) (e : Event) (events : List Event) {events' : List Event}
      → record_event digest e events ≡ ok events'
      → e.operation_id ≡ operation_id
      → select (is_of operation_id) events' ≡ select (is_of operation_id) events ++ (e ∷ [])
  unfolding select
  own-append operation_id e events {events'} h same =
      let at : is_of operation_id e ≡ true = rw same (==-refl operation_id) in
      ap (select (is_of operation_id)) (recorded e events h)
      ∙ select-++ (is_of operation_id) events (e ∷ [])
      ∙ rw at refl

  ++-none : (xs : List Event) → xs ++ [] ≡ xs
  ++-none [] = refl
  ++-none (x ∷ xs) = ap (λ ys. x ∷ ys) (++-none xs)

  pub other-append :
      (operation_id : String) (e : Event) (events : List Event) {events' : List Event}
      → record_event digest e events ≡ ok events'
      → is_of operation_id e ≡ false
      → select (is_of operation_id) events' ≡ select (is_of operation_id) events
  unfolding select
  other-append operation_id e events {events'} h other =
      ap (select (is_of operation_id)) (recorded e events h)
      ∙ select-++ (is_of operation_id) events (e ∷ [])
      ∙ rw other (++-none (select (is_of operation_id) events))

  -- A ledger whose rows and events of the operation are those of another.
  pub same-History :
      (operation_id : String) {t t' : Ledger}
      → find (has_operation operation_id) t'.canaries ≡ find (has_operation operation_id) t.canaries
      → select (is_of operation_id) t'.events ≡ select (is_of operation_id) t.events
      → History operation_id t
      → History operation_id t'
  same-History operation_id f s h = record {
    absent = λ n. s ∙ h.absent (sym f ∙ n);
    present = λ c e. subst (λ (es : List Event). Trace es c) (sym s) (h.present c (sym f ∙ e));
  }

  -- A ledger where the operation has a row to which its events lead.
  pub traced-History :
      (operation_id : String) (t : Ledger) (c : Canary)
      → find (has_operation operation_id) t.canaries ≡ some c
      → Trace (select (is_of operation_id) t.events) c
      → History operation_id t
  traced-History operation_id t c f r = record {
    absent = λ n. absurd (let e = sym f ∙ n in cc);
    present = λ d e.
        subst (λ (x : Canary). Trace (select (is_of operation_id) t.events) x)
          (some-eq-some (sym f ∙ e)) r;
  }

  -- The state that the events record, which is what the last of them records.
  unfoldable pub recorded_state : List Event → Option (Identity × Progress × String)
  recorded_state [] = none
  recorded_state (e ∷ []) = some (e.event.identity, e.event.progress, e.event_digest)
  recorded_state (e ∷ d ∷ es) = recorded_state (d ∷ es)

  state-append :
      (es : List Event) (e : Event)
      → recorded_state (es ++ (e ∷ [])) ≡ some (e.event.identity, e.event.progress, e.event_digest)
  unfolding recorded_state
  state-append [] e = refl
  state-append (d ∷ []) e = refl
  state-append (d ∷ d' ∷ es) e = state-append (d' ∷ es) e

  length-append : (es : List Event) (e : Event) → length (es ++ (e ∷ [])) ≡ length es + 1
  length-append [] e = refl
  length-append (d ∷ es) e = let ih = length-append es e in ground arith

  pub Trace-state :
      {es : List Event} {c : Canary}
      → Trace es c
      → recorded_state es ≡ some (c.identity, c.progress, c.last_event_digest)
  unfolding recorded_state event_of sealed event_payload
  Trace-state (begun c now start) = refl
  Trace-state (extended {es} {c} r next now same revision forward) =
      state-append es (event_of digest next (some c.progress.phase) now)

  pub Trace-length : {es : List Event} {c : Canary} → Trace es c → length es ≡ c.progress.revision
  unfolding sealed
  Trace-length (begun c now start) = sym (ap (λ (p : Progress). p.revision) start)
  Trace-length (extended {es} {c} r next now same revision forward) =
      length-append es (event_of digest next (some c.progress.phase) now)
      ∙ ap (λ n. n + 1) (Trace-length r)
      ∙ sym revision
