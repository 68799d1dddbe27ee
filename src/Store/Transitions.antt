-- ===== src/Store/Transitions.antt =====
-- Each method of the queue makes a change of the table `jobs`.
pub mod Claiming
pub mod Holding
use qdev_runner_control_plan.Prelude.{
  ℕ, suc, ◌+◌, ◌≤◌, String, ◌≡◌, refl, sym, ◌∙◌, ap, subst, ◌⊎◌, inl, inr, Bool, true, false,
  Option, none, some, List, [], ◌∷◌, ◌++◌, arith, if◌then◌else◌, ◌==◌, nat_eq, Bool-cases,
  Option-cases, any, find, In, ltb, leb, Result, ok, raise, >>=-eq-ok, refuse, ℤ, ◌!=◌, string_eq,
  ◌||◌, ◌&&◌, not, &&-elim, value_error, ◌>>=◌,
}
use qdev_runner_control_plan.Json.{Json, Fields, Python}
use qdev_runner_control_plan.Sql.{update}
use qdev_runner_control_plan.Store.Tables.{
  Status, is_pending, is_active, QueuedJob, Job, Hold, is_active_hold, is_claimed, Db, has_id,
}
use qdev_runner_control_plan.Store.Queue.{
  max_infrastructure_retries, conflicts, enqueue, with_status, set_status, failed_row,
  fail_if_active, retried_row, exhausted_row, active_id, transition_infrastructure,
  requeue_infrastructure, complete_from_webhook, completed_row, complete_pending_from_provider,
  pending_id,
}
use qdev_runner_control_plan.Store.Release.{
  releases, released_row, release_stale_job, reopens, reopened_row, release_failed_job,
}
use qdev_runner_control_plan.Store.Holds.{claimed_id, reissued_row, reissue}
use qdev_runner_control_plan.Store.Workers.{reported_by, heartbeat}
use qdev_runner_control_plan.Store.Payload.{
  needs_repair, repaired_row, repair_invalid_queue_timestamps, minimum_queue_timestamp,
}
use qdev_runner_control_plan.Store.Invariant.{IsSound, Unique, found_row}
use qdev_runner_control_plan.Store.Changes.{Change, same, rows, insert, both, Continues, kept}

-- A row whose status is not `pending` owes nobody an explanation of its claim.
pub IsSound-busy :
    (a b : Job)
    → IsSound a
    → b.infra_retries ≡ a.infra_retries
    → is_pending b.status ≡ false
    → IsSound b
IsSound-busy a b s e h = record {
  retries = rw e s.retries;
  unclaimed = λ t. absurd (let impossible : true ≡ false = sym t ∙ h in cc);
}

pub enqueue-Change :
    (job : QueuedJob) (now : ℕ) (db : Db) → Change db.jobs (enqueue job now db).0.jobs
unfolding enqueue
enqueue-Change job now db = elim (Bool-cases (any (conflicts job) db.jobs)) [
  | inl t ↦ rw t same
  | inr n ↦ rw n (insert job now n)
]

pub set_status-Change :
    (k : ℕ) (status : Status) (result : String) (now : ℕ) (db : Db)
    → is_pending status ≡ false
    → Change db.jobs (set_status k status result now db).jobs
unfolding set_status with_status
set_status-Change k status result now db h =
    rows (has_id k) (with_status status result now)
      (λ a _. kept a (with_status status result now a) refl refl refl refl)
      (λ a _ _ s _. IsSound-busy a (with_status status result now a) s refl h)

-- Rows that leave the queue.
pub fail_if_active-Change :
    (k : ℕ) (result : String) (now : ℕ) (db : Db)
    → Change db.jobs (fail_if_active k result now db).0.jobs
unfolding fail_if_active failed_row
fail_if_active-Change k result now db =
    rows (active_id k) (failed_row result now)
      (λ a _. kept a (failed_row result now a) refl refl refl refl)
      (λ a _ _ s _. IsSound-busy a (failed_row result now a) s refl refl)

pub complete_pending-Change :
    (k : ℕ) (conclusion : String) (now : ℕ) (db : Db)
    → Change db.jobs (complete_pending_from_provider k conclusion now db).0.jobs
unfolding complete_pending_from_provider completed_row
complete_pending-Change k conclusion now db =
    rows (pending_id k) (completed_row conclusion now)
      (λ a _. kept a (completed_row conclusion now a) refl refl refl refl)
      (λ a _ _ s _. IsSound-busy a (completed_row conclusion now a) s refl refl)

-- Rows that return to the queue belong to nobody.
IsSound-queued :
    (a b : Job)
    → IsSound a
    → b.infra_retries ≡ a.infra_retries
    → b.worker_name ≡ none
    → b.claim_scope_id ≡ none
    → b.profile ≡ none
    → b.claimed_at ≡ none
    → IsSound b
IsSound-queued a b s e w c p t = record { retries = rw e s.retries; unclaimed = λ _. (w, c, p, t) }

pub release_stale_job-Change :
    (k : ℕ) (reason : String) (timeout checked now : ℕ) (db : Db)
    → Change db.jobs (release_stale_job k reason timeout checked now db).0.jobs
unfolding release_stale_job released_row
release_stale_job-Change k reason timeout checked now db =
    rows (releases db k checked timeout) (released_row reason now)
      (λ a _. kept a (released_row reason now a) refl refl refl refl)
      (λ a _ _ s _. IsSound-queued a (released_row reason now a) s refl refl refl refl refl)

pub release_failed_job-Change :
    (k : ℕ) (reason : String) (expected now : ℕ) (db : Db)
    → Change db.jobs (release_failed_job k reason expected now db).0.jobs
unfolding release_failed_job reopened_row
release_failed_job-Change k reason expected now db =
    rows (reopens k expected) (reopened_row reason now)
      (λ a _. kept a (reopened_row reason now a) refl refl refl refl)
      (λ a _ _ s _. IsSound-queued a (reopened_row reason now a) s refl refl refl refl refl)

pub reissue-Change :
    (k : ℕ) (reason : String) (now : ℕ) (db : Db) → Change db.jobs (reissue k reason now db).jobs
unfolding reissue reissued_row
reissue-Change k reason now db =
    rows (claimed_id k) (reissued_row reason now)
      (λ a _. kept a (reissued_row reason now a) refl refl refl refl)
      (λ a _ _ s _. IsSound-queued a (reissued_row reason now a) s refl refl refl refl refl)

pub heartbeat-Change :
    (name : String) (profiles : List String) (active : ℤ) (ids : List ℕ) (detail : Fields) (now : ℕ)
    (db : Db)
    → Change db.jobs (heartbeat name profiles active ids detail now db).jobs
unfolding heartbeat
heartbeat-Change name profiles active ids detail now db =
    rows (reported_by name ids) (λ row. record row { updated_at = now })
      (λ a _. kept a (record a { updated_at = now }) refl refl refl refl)
      (λ a _ _ s _. record { retries = s.retries; unclaimed = s.unclaimed })

pub repair-Change :
    (py : Python) (now : ℕ) (db : Db)
    → Change db.jobs (repair_invalid_queue_timestamps py now db).jobs
unfolding repair_invalid_queue_timestamps needs_repair repaired_row
repair-Change py now db =
    rows needs_repair (repaired_row py now)
      (λ a t. record {
        job = refl;
        attempts = omega arith;
        infra_retries = omega arith;
        created_at = λ late. absurd (ground arith);
      })
      (λ a _ _ s _. record { retries = s.retries; unclaimed = s.unclaimed })

-- The controller-led requeue.
module _ (k : ℕ) (reason : String) (now : ℕ) (db : Db) where
  retry-Change :
      (row : Job)
      → find (has_id k) db.jobs ≡ some row
      → ltb row.infra_retries max_infrastructure_retries ≡ true
      → Change db.jobs (update (active_id k) (retried_row reason now) db.jobs)
  unfolding retried_row active_id
  retry-Change row e h =
      rows (active_id k) (retried_row reason now)
        (λ a _. record {
          job = refl;
          attempts = omega arith;
          infra_retries = omega arith;
          created_at = λ _. refl;
        })
        (λ a u m s t. record {
          retries =
              rw (found_row k db.jobs u e m (&&-elim (has_id k a) (is_active a.status) t).0)
                (ground arith);
          unclaimed = λ _. (refl, refl, refl, refl);
        })

  exhausted-Change : Change db.jobs (update (active_id k) (exhausted_row reason now) db.jobs)
  unfolding exhausted_row
  exhausted-Change =
      rows (active_id k) (exhausted_row reason now)
        (λ a _. kept a (exhausted_row reason now a) refl refl refl refl)
        (λ a _ _ s _. IsSound-busy a (exhausted_row reason now a) s refl refl)

  pub transition_infrastructure-Change :
      Change db.jobs (transition_infrastructure k reason now db).0.jobs
  unfolding transition_infrastructure
  transition_infrastructure-Change = elim (Option-cases (find (has_id k) db.jobs)) [
    | inl e ↦ rw (e, transition_infrastructure) same
    | inr (row, e) ↦ elim (Bool-cases (is_active row.status)) [
      | inr idle ↦ rw (e, idle, transition_infrastructure) same
      | inl busy ↦ elim (Bool-cases (ltb row.infra_retries max_infrastructure_retries)) [
        | inl left ↦ rw (e, busy, left, transition_infrastructure) (retry-Change row e left)
        | inr spent ↦ rw (e, busy, spent, transition_infrastructure) exhausted-Change
      ]
    ]
  ]
