-- ===== src/Store/Outcomes.antt =====
-- `requeue_infrastructure` and the budget of infrastructure retries.
use qdev_runner_control_plan.Prelude.{
  ℕ, ◌+◌, ◌<◌, String, ◌≡◌, refl, sym, ap, ◌∙◌, subst, Bool, true, false, ◌&&◌, none, some, List,
  arith, nat_eq, string_eq, int_eq, ltb, find, In, if◌then◌else◌, some-eq-some,
}
use qdev_runner_control_plan.Json.{Python}
use qdev_runner_control_plan.Sql.{update, In-update}
use qdev_runner_control_plan.Store.Tables.{pending, failed, is_active, QueuedJob, Job, Db, has_id}
use qdev_runner_control_plan.Store.Queue.{
  job, active_id, retried_row, exhausted_row, transition_infrastructure, requeue_infrastructure,
}
use qdev_runner_control_plan.Store.Holds.{HoldTuple}
use qdev_runner_control_plan.Store.Invariant.{Unique, IsValid}
use qdev_runner_control_plan.Store.Changes.{queued, Change-IsValid}
use qdev_runner_control_plan.Store.Steps
use qdev_runner_control_plan.Store.Steps.{Reach}
use qdev_runner_control_plan.Store.Reachable.{Reach-Change, Reach-Continues, Step-IsValid}
use qdev_runner_control_plan.Store.Lookup.{has_id_refl, find-id, find-update}

-- The row `b` is the row `a` back in the queue, one retry later.
pub record IsRetried (now : ℕ) (a b : Job) : Type 0 where
  pub same : queued b ≡ queued a
  pub status : b.status ≡ pending
  pub worker : b.worker_name ≡ none
  pub scope : b.claim_scope_id ≡ none
  pub profile : b.profile ≡ none
  pub claimed_at : b.claimed_at ≡ none
  pub completed_at : b.completed_at ≡ none
  pub updated_at : b.updated_at ≡ now
  pub infra_retries : b.infra_retries ≡ a.infra_retries + 1
  pub attempts : b.attempts ≡ a.attempts
  pub created_at : b.created_at ≡ a.created_at

-- The row `b` is the row `a`, failed.
pub record IsExhausted (now : ℕ) (a b : Job) : Type 0 where
  pub same : queued b ≡ queued a
  pub status : b.status ≡ failed
  pub worker : b.worker_name ≡ none
  pub scope : b.claim_scope_id ≡ none
  pub profile : b.profile ≡ none
  pub claimed_at : b.claimed_at ≡ none
  pub completed_at : b.completed_at ≡ some now
  pub updated_at : b.updated_at ≡ now
  pub infra_retries : b.infra_retries ≡ a.infra_retries
  pub attempts : b.attempts ≡ a.attempts
  pub created_at : b.created_at ≡ a.created_at

module _ (reason : String) (now : ℕ) where
  retried_row-IsRetried : (row : Job) → IsRetried now row (retried_row reason now row)
  unfolding retried_row
  retried_row-IsRetried row = record {
    same = refl;
    status = refl;
    worker = refl;
    scope = refl;
    profile = refl;
    claimed_at = refl;
    completed_at = refl;
    updated_at = refl;
    infra_retries = refl;
    attempts = refl;
    created_at = refl;
  }

  exhausted_row-IsExhausted : (row : Job) → IsExhausted now row (exhausted_row reason now row)
  unfolding exhausted_row
  exhausted_row-IsExhausted row = record {
    same = refl;
    status = refl;
    worker = refl;
    scope = refl;
    profile = refl;
    claimed_at = refl;
    completed_at = refl;
    updated_at = refl;
    infra_retries = refl;
    attempts = refl;
    created_at = refl;
  }

  module _ (db : Db) (row : Job) (u : Unique db.jobs) (m : In row db.jobs)
      (busy : is_active row.status ≡ true) where
    after_update :
        (f : Job → Job)
        → ((a : Job) → (f a).job_id ≡ a.job_id)
        → find (has_id row.job_id) (update (active_id row.job_id) f db.jobs) ≡ some (f row)
    unfolding active_id
    after_update f same =
        find-update (active_id row.job_id) f db.jobs row same u m ∙ rw (has_id_refl row, busy) refl

    requeue-left :
        ltb row.infra_retries 1 ≡ true
        → requeue_infrastructure row.job_id reason now db ≡ (
          record db { jobs = update (active_id row.job_id) (retried_row reason now) db.jobs },
          true,
        )
    unfolding requeue_infrastructure transition_infrastructure
    requeue-left left =
        rw (find-id db.jobs row u m, busy, left, requeue_infrastructure, transition_infrastructure)
          refl

    requeue-spent :
        ltb row.infra_retries 1 ≡ false
        → requeue_infrastructure row.job_id reason now db ≡ (
          record db { jobs = update (active_id row.job_id) (exhausted_row reason now) db.jobs },
          true,
        )
    unfolding requeue_infrastructure transition_infrastructure
    requeue-spent spent =
        rw (find-id db.jobs row u m, busy, spent, requeue_infrastructure, transition_infrastructure)
          refl

    -- An active job with a retry left is retried, and it is in the table that is left.
    retried :
        ltb row.infra_retries 1 ≡ true
        → ((requeue_infrastructure row.job_id reason now db).1 ≡ true)
          × (job row.job_id (requeue_infrastructure row.job_id reason now db).0
              ≡ some (retried_row reason now row))
          × In (retried_row reason now row) (requeue_infrastructure row.job_id reason now db).0.jobs
    unfolding job active_id
    retried left =
        subst
          (λ (r : Db × Bool).
            (r.1 ≡ true)
            × (find (has_id row.job_id) r.0.jobs ≡ some (retried_row reason now row))
            × In (retried_row reason now row) r.0.jobs)
          (sym (requeue-left left))
          (
            refl,
            after_update (retried_row reason now) (λ a. unfold retried_row in refl),
            (let met : (has_id row.job_id row && is_active row.status) ≡ true =
                  rw (has_id_refl row, busy) refl in
                let moved : In
                    (if has_id row.job_id row && is_active row.status
                      then retried_row reason now row
                      else row)
                    (update (active_id row.job_id) (retried_row reason now) db.jobs) =
                  In-update (active_id row.job_id) (retried_row reason now) db.jobs m in
                rw met at moved),
          )

    -- Without one it fails.
    exhausted :
        ltb row.infra_retries 1 ≡ false
        → ((requeue_infrastructure row.job_id reason now db).1 ≡ true)
          × (job row.job_id (requeue_infrastructure row.job_id reason now db).0
              ≡ some (exhausted_row reason now row))
    unfolding job
    exhausted spent =
        subst
          (λ (r : Db × Bool).
            (r.1 ≡ true)
            × (find (has_id row.job_id) r.0.jobs ≡ some (exhausted_row reason now row)))
          (sym (requeue-spent spent))
          (refl, after_update (exhausted_row reason now) (λ a. unfold exhausted_row in refl))

same_row :
    (jobs : List Job) (a b : Job)
    → Unique jobs
    → In a jobs
    → In b jobs
    → a.job_id ≡ b.job_id
    → a ≡ b
same_row jobs a b u m n e =
    some-eq-some
      (sym (find-id jobs a u m) ∙ ap (λ (k : ℕ). find (has_id k) jobs) e ∙ find-id jobs b u n)

-- A job is requeued for its infrastructure once. Let a claimed or running job of a valid table that
-- has used no retry be requeued, and be claimed or running again after any sequence of the queue's
-- steps. Then the first requeue reported success and left the job pending with one retry more and
-- without worker, scope, profile, claim time and completion time; and a requeue now reports success
-- too and leaves it failed, completed at that time, without worker, scope, profile and claim time,
-- with the retries that it had.
pub requeue_once :
    (py : Python) (digest : HoldTuple → String) (reason reason' : String) (now now' : ℕ)
    (db db₂ : Db) (row again : Job)
    → IsValid db.jobs
    → In row db.jobs
    → is_active row.status ≡ true
    → row.infra_retries < 1
    → Reach py digest (requeue_infrastructure row.job_id reason now db).0 db₂
    → In again db₂.jobs
    → again.job_id ≡ row.job_id
    → is_active again.status ≡ true
    → ((requeue_infrastructure row.job_id reason now db).1 ≡ true)
      × (first : Job) × (job row.job_id (requeue_infrastructure row.job_id reason now db).0
          ≡ some first)
      × IsRetried now row first
      × ((requeue_infrastructure row.job_id reason' now' db₂).1 ≡ true)
      × (final : Job) × (job row.job_id (requeue_infrastructure row.job_id reason' now' db₂).0
          ≡ some final)
      × IsExhausted now' again final
requeue_once py digest reason reason' now now' db db₂ row again v m busy left calls n key busy' =
    let left' : ltb row.infra_retries 1 ≡ true = ground arith in
    let (done, found, o) = retried reason now db row v.unique m busy left' in
    let first = retried_row-IsRetried reason now row in
    let v₁ = Step-IsValid py digest db _ (Steps.requeued row.job_id reason now db) v in
    let v₂ = Change-IsValid (Reach-Change py digest calls) v₁ in
    let (later, q, c) = Reach-Continues py digest _ db₂ (retried_row reason now row) calls o in
    let id : later.job_id ≡ again.job_id =
      ap (λ (j : QueuedJob). j.job_id) (c.job ∙ first.same) ∙ sym key in
    let same = same_row db₂.jobs later again v₂.unique q n id in
    let grown = c.infra_retries in
    let one = first.infra_retries in
    let counted : again.infra_retries ≡ later.infra_retries =
      ap (λ (j : Job). j.infra_retries) (sym same) in
    let spent : ltb again.infra_retries 1 ≡ false = ground arith in
    let (done', found') = exhausted reason' now' db₂ again v₂.unique n busy' spent in
    (
      done,
      retried_row reason now row,
      found,
      first,
      subst (λ (k : ℕ). (requeue_infrastructure k reason' now' db₂).1 ≡ true) key done',
      exhausted_row reason' now' again,
      subst
          (λ (k : ℕ).
            job k (requeue_infrastructure k reason' now' db₂).0
            ≡ some (exhausted_row reason' now' again))
          key found',
      exhausted_row-IsExhausted reason' now' again,
    )
