-- ===== src/Store/Reachable.antt =====
-- What holds of the table `jobs` after any sequence of calls.
use qdev_runner_control_plan.Prelude.{◌≡◌, refl, [], String, In}
use qdev_runner_control_plan.Json.{Python}
use qdev_runner_control_plan.Store.Tables.{completed, Job, Db}
use qdev_runner_control_plan.Store.Queue.{requeue_infrastructure, complete_from_webhook}
use qdev_runner_control_plan.Store.Holds.{HoldTuple}
use qdev_runner_control_plan.Store.Invariant.{IsValid}
use qdev_runner_control_plan.Store.Steps
use qdev_runner_control_plan.Store.Steps.{Step, Reach}
use qdev_runner_control_plan.Store.Changes.{
  Change, same, both, Continues, Change-IsValid, Change-Continues,
}
use qdev_runner_control_plan.Store.Transitions.{
  enqueue-Change, set_status-Change, fail_if_active-Change, complete_pending-Change,
  release_stale_job-Change, release_failed_job-Change, heartbeat-Change,
  transition_infrastructure-Change,
}
use qdev_runner_control_plan.Store.Transitions.Claiming.{claim-Change}
use qdev_runner_control_plan.Store.Transitions.Holding.{hold-Change, release-Change}

module _ (py : Python) (digest : HoldTuple → String) where
  Step-Change : {a b : Db} → Step py digest a b → Change a.jobs b.jobs
  unfolding requeue_infrastructure complete_from_webhook
  Step-Change (Steps.enqueued job now db) = enqueue-Change job now db
  Step-Change (Steps.was_claimed req now {db} {db'} h) = claim-Change py req now db h
  Step-Change (Steps.status_set k status result now db h) =
      set_status-Change k status result now db h
  Step-Change (Steps.completed_by_webhook k conclusion now db) =
      set_status-Change k completed conclusion now db refl
  Step-Change (Steps.completed_by_provider k conclusion now db) =
      complete_pending-Change k conclusion now db
  Step-Change (Steps.failed_active k result now db) = fail_if_active-Change k result now db
  Step-Change (Steps.requeued k reason now db) = transition_infrastructure-Change k reason now db
  Step-Change (Steps.stale_released k reason timeout checked now db) =
      release_stale_job-Change k reason timeout checked now db
  Step-Change (Steps.failed_released k reason expected now db) =
      release_failed_job-Change k reason expected now db
  Step-Change (Steps.beaten name profiles active ids detail now db) =
      heartbeat-Change name profiles active ids detail now db
  Step-Change (Steps.held k r now {db} {db'} h) = hold-Change py digest k r now db h
  Step-Change (Steps.reissued k r reason now {db} {db'} h) = release-Change k r reason now db h

  pub Reach-Change : {a b : Db} → Reach py digest a b → Change a.jobs b.jobs
  Reach-Change (Steps.done db) = same
  Reach-Change (Steps.then_step r s) = both (Reach-Change r) (Step-Change s)

-- From a table without rows, every sequence of steps keeps the job ids distinct, leaves no row
-- with more than one infrastructure retry, and leaves no pending row with a worker, a claim scope,
-- a profile or a claim time.
pub Reach-IsValid :
    (py : Python) (digest : HoldTuple → String) (a b : Db)
    → a.jobs ≡ []
    → Reach py digest a b
    → IsValid b.jobs
Reach-IsValid py digest a b e r =
    Change-IsValid (Reach-Change py digest r) (rw e (record { unique = tt; sound = tt }))

-- Every call that is modelled keeps a valid table valid.
pub Step-IsValid :
    (py : Python) (digest : HoldTuple → String) (a b : Db)
    → Step py digest a b
    → IsValid a.jobs
    → IsValid b.jobs
Step-IsValid py digest a b s v = Change-IsValid (Step-Change py digest s) v

-- No sequence of steps loses a job: each row is continued by a row of the same job, run,
-- repository, labels, SHA and payload, with no fewer attempts and infrastructure retries, and with
-- the same place in the queue unless its timestamp was invalid.
pub Reach-Continues :
    (py : Python) (digest : HoldTuple → String) (a b : Db) (row : Job)
    → Reach py digest a b
    → In row a.jobs
    → (later : Job) × In later b.jobs × Continues row later
Reach-Continues py digest a b row r m = Change-Continues (Reach-Change py digest r) row m
