-- ===== src/Canary/Replay.antt =====
-- Steps and the agreement of the rows and the events of an operation (src/qdev_runner/store.py).
use qdev_runner_control_plan.Prelude.{
  ℕ, ◌+◌, String, ◌≡◌, refl, sym, ◌∙◌, ap, subst, true, false, none, some, List, [], ◌∷◌, ◌++◌,
  nat_eq, string_eq, option_eq, ◌==◌, ok, find, select, length, Bool-cases, inl, inr, ==→≡, ==-refl,
  find-++-none, find-++-some, Option-cases,
}
use qdev_runner_control_plan.Sql.{update, find-update, find-update_other}
use qdev_runner_control_plan.Canary.Phase.{phase_eq, follows}
use qdev_runner_control_plan.Canary.Row.{Identity, Canary, Body, Event, Ledger, has_operation}
use qdev_runner_control_plan.Canary.Transition.{
  stands_at, event_of, sealed, record_event, advanced_progress,
}
use qdev_runner_control_plan.Canary.Moves.{next_row}
use qdev_runner_control_plan.Canary.Intent.{initial_progress}
use qdev_runner_control_plan.Canary.Steps
use qdev_runner_control_plan.Canary.Steps.{Step, Reach}
use qdev_runner_control_plan.Canary.Writes
use qdev_runner_control_plan.Canary.Writes.{Write, operation-found, Step-Write}
use qdev_runner_control_plan.Canary.History.{
  is_of, Trace, begun, extended, recorded_state, Trace-state, Trace-length, History, own-append,
  other-append, same-History, traced-History, stands-operation, stands-other,
}

stands_self :
    (c : Canary) → stands_at c.identity.operation_id c.progress.revision c.progress.phase c ≡ true
unfolding stands_at has_operation
stands_self c = simp (==-refl)

pub has_operation_self : (c : Canary) → has_operation c.identity.operation_id c ≡ true
unfolding has_operation
has_operation_self c = ==-refl c.identity.operation_id

module _ (digest : Body → String) where
  -- The row that is found after the writes of a transition.
  pub find_advanced :
      (before next : Canary) (now : ℕ) (canaries : List Canary)
      → next.identity ≡ before.identity
      → find (has_operation before.identity.operation_id) canaries ≡ some before
      → find (has_operation before.identity.operation_id) (
          update
            (stands_at before.identity.operation_id before.progress.revision before.progress.phase)
            (λ _. sealed digest next (some before.progress.phase) now)
            canaries)
        ≡ some (sealed digest next (some before.progress.phase) now)
  unfolding sealed has_operation
  find_advanced before next now canaries same found =
      find-update (has_operation before.identity.operation_id)
        (stands_at before.identity.operation_id before.progress.revision before.progress.phase)
        (sealed digest next (some before.progress.phase) now) canaries
        (stands-operation before.identity.operation_id before.progress.revision
          before.progress.phase)
        (ap (λ (i : Identity). i.operation_id == before.identity.operation_id) same
          ∙ ==-refl before.identity.operation_id)
        found (stands_self before)

  began_own :
      {t t' : Ledger} (c : Canary) (now : ℕ)
      → c.progress ≡ initial_progress
      → find (has_operation c.identity.operation_id) t.canaries ≡ none
      → t'.canaries ≡ t.canaries ++ (sealed digest c none now ∷ [])
      → record_event digest (event_of digest c none now) t.events ≡ ok t'.events
      → History digest c.identity.operation_id t
      → History digest c.identity.operation_id t'
  unfolding sealed event_of find has_operation
  began_own {t} {t'} c now start none_found ec ee h =
      let operation_id : String = c.identity.operation_id in
      let own : select (is_of operation_id) t'.events ≡ event_of digest c none now ∷ [] =
        own-append digest operation_id (event_of digest c none now) t.events ee refl
        ∙ ap (λ (es : List Event). es ++ (event_of digest c none now ∷ [])) (h.absent none_found) in
      traced-History digest operation_id t' (sealed digest c none now)
        (ap (find (has_operation operation_id)) ec
          ∙ find-++-none (has_operation operation_id) t.canaries (sealed digest c none now ∷ [])
              none_found
          ∙ rw (has_operation_self c) refl)
        (subst (λ (es : List Event). Trace digest es (sealed digest c none now)) (sym own)
          (begun c now start))

  pub find_other_began :
      (operation_id : String) (c : Canary) (canaries : List Canary)
      → has_operation operation_id c ≡ false
      → find (has_operation operation_id) (canaries ++ (c ∷ []))
        ≡ find (has_operation operation_id) canaries
  unfolding find
  find_other_began operation_id c canaries n =
      elim (Option-cases (find (has_operation operation_id) canaries)) [
        | inl e ↦ find-++-none (has_operation operation_id) canaries (c ∷ []) e ∙ rw n (sym e)
        | inr (d, e) ↦ find-++-some (has_operation operation_id) canaries (c ∷ []) e ∙ sym e
      ]

  advanced_own :
      {t t' : Ledger} (before next : Canary) (now : ℕ)
      → next.identity ≡ before.identity
      → next.progress.revision ≡ before.progress.revision + 1
      → follows before.progress.phase next.progress.phase ≡ true
      → find (has_operation before.identity.operation_id) t.canaries ≡ some before
      → t'.canaries
        ≡ update
            (stands_at before.identity.operation_id before.progress.revision before.progress.phase)
            (λ _. sealed digest next (some before.progress.phase) now)
            t.canaries
      → record_event digest (event_of digest next (some before.progress.phase) now) t.events
        ≡ ok t'.events
      → History digest before.identity.operation_id t
      → History digest before.identity.operation_id t'
  unfolding event_of
  advanced_own {t} {t'} before next now same revision forward found ec ee h =
      let operation_id : String = before.identity.operation_id in
      let e : Event = event_of digest next (some before.progress.phase) now in
      let own : select (is_of operation_id) t'.events
          ≡ select (is_of operation_id) t.events ++ (e ∷ []) =
        own-append digest operation_id e t.events ee (ap (λ (i : Identity). i.operation_id) same) in
      traced-History digest operation_id t' (sealed digest next (some before.progress.phase) now)
        (ap (find (has_operation operation_id)) ec
          ∙ find_advanced before next now t.canaries same found)
        (subst
          (λ (es : List Event).
            Trace digest es (sealed digest next (some before.progress.phase) now))
          (sym own) (extended (h.present before found) next now same revision forward))

  pub Write-History :
      {t t' : Ledger} (operation_id : String)
      → Write digest t t'
      → History digest operation_id t
      → History digest operation_id t'
  unfolding sealed event_of has_operation advanced_progress
  Write-History operation_id (Writes.nothing ec ee) h =
      same-History digest operation_id (ap (find (has_operation operation_id)) ec)
        (ap (select (is_of operation_id)) ee) h
  Write-History {t} {t'} operation_id (Writes.began c now start none_found ec ee) h =
      elim (Bool-cases (c.identity.operation_id == operation_id)) [
        | inl y ↦
            let same : c.identity.operation_id ≡ operation_id =
              ==→≡ c.identity.operation_id operation_id y in
            subst (λ (id : String). History digest id t') same
              (began_own c now start none_found ec ee
                (subst (λ (id : String). History digest id t) (sym same) h))
        | inr n ↦
            same-History digest operation_id
              (ap (find (has_operation operation_id)) ec
                ∙ find_other_began operation_id (sealed digest c none now) t.canaries n)
              (other-append digest operation_id (event_of digest c none now) t.events ee n) h
      ]
  Write-History {t} {t'} operation_id
        (Writes.advanced before phase o now later labels at found forward _ ec ee) h =
      let next : Canary = next_row phase o now before in
      elim (Bool-cases (before.identity.operation_id == operation_id)) [
        | inl y ↦
            let same : before.identity.operation_id ≡ operation_id =
              ==→≡ before.identity.operation_id operation_id y in
            subst (λ (id : String). History digest id t') same
              (advanced_own before next now refl refl forward found ec ee
                (subst (λ (id : String). History digest id t) (sym same) h))
        | inr n ↦
            same-History digest operation_id
              (ap (find (has_operation operation_id)) ec
                ∙ find-update_other (has_operation operation_id)
                    (stands_at before.identity.operation_id before.progress.revision
                      before.progress.phase)
                    (sealed digest next (some before.progress.phase) now) t.canaries
                    (λ c s.
                      stands-other before.identity.operation_id operation_id
                        before.progress.revision before.progress.phase c n s)
                    n)
              (other-append digest operation_id
                (event_of digest next (some before.progress.phase) now) t.events ee n)
              h
      ]

module _ (intent_digest : Identity → String) (digest : Body → String) where
  empty-History :
      (operation_id : String) (t : Ledger)
      → t.canaries ≡ []
      → t.events ≡ []
      → History digest operation_id t
  unfolding find select
  empty-History operation_id t nc ne = record {
    absent = λ _. ap (select (is_of operation_id)) ne;
    present = λ c e. absurd (let n = sym (ap (find (has_operation operation_id)) nc) ∙ e in cc);
  }

  pub Reach-History_keep :
      {t t' : Ledger} (operation_id : String)
      → History digest operation_id t
      → Reach intent_digest digest t t'
      → History digest operation_id t'
  Reach-History_keep operation_id h (Steps.done t) = h
  Reach-History_keep operation_id h (Steps.then_step r s) =
      Write-History digest operation_id (Step-Write intent_digest digest s)
        (Reach-History_keep operation_id h r)

-- From a ledger without rows and events, after any sequence of calls: the events of an operation are
-- one path through the permitted transitions that starts at the dispatch intent and ends at the
-- operation's row, and an operation without a row has no events.
pub Reach-History :
    (intent_digest : Identity → String) (digest : Body → String) (t t' : Ledger)
    (operation_id : String)
    → t.canaries ≡ []
    → t.events ≡ []
    → Reach intent_digest digest t t'
    → History digest operation_id t'
Reach-History intent_digest digest t t' operation_id nc ne r =
    Reach-History_keep intent_digest digest operation_id
      (empty-History intent_digest digest operation_id t nc ne) r

-- From a ledger without rows and events, after any sequence of calls, the append-only events alone
-- determine a canary's row: its identity, its progress and its tip digest are those of its last
-- event, and its revision is the number of its events.
pub recorded_state-canary :
    (intent_digest : Identity → String) (digest : Body → String) (t t' : Ledger)
    (operation_id : String) (c : Canary)
    → t.canaries ≡ []
    → t.events ≡ []
    → Reach intent_digest digest t t'
    → find (has_operation operation_id) t'.canaries ≡ some c
    → (recorded_state digest (select (is_of operation_id) t'.events)
        ≡ some (c.identity, c.progress, c.last_event_digest))
      × (length (select (is_of operation_id) t'.events) ≡ c.progress.revision)
recorded_state-canary intent_digest digest t t' operation_id c nc ne r found =
    let trace = (Reach-History intent_digest digest t t' operation_id nc ne r).present c found in
    (Trace-state digest trace, Trace-length digest trace)
