-- ===== src/Store/Steps.antt =====
-- The queue as a state machine: one constructor for each modelled method of `Store` that writes
-- `jobs`, `offline_runner_holds` or `workers`, each committed as one transaction under the store's
-- lock. The backfill of a hold's attempt, which rewrites a stored payload, is not among them.
use qdev_runner_control_plan.Prelude.{ℕ, String, ◌≡◌, false, Bool, Option, List, ℤ, ok}
use qdev_runner_control_plan.Json.{Fields, Python}
use qdev_runner_control_plan.Store.Tables.{Status, is_pending, QueuedJob, Job, Hold, Db}
use qdev_runner_control_plan.Store.Queue.{
  enqueue, set_status, fail_if_active, requeue_infrastructure, complete_from_webhook,
  complete_pending_from_provider,
}
use qdev_runner_control_plan.Store.Release.{release_stale_job, release_failed_job}
use qdev_runner_control_plan.Store.Workers.{heartbeat}
use qdev_runner_control_plan.Store.Holds.{
  RunnerIdentity, HoldTuple, hold_exact_offline_runner, release_offline_runner_hold_for_jit_reissue,
}
use qdev_runner_control_plan.Store.Claim.Request.{ClaimRequest}
use qdev_runner_control_plan.Store.Claim.{claim}

module _ (py : Python) (digest : HoldTuple → String) where
  -- A call that raises changes nothing, so only calls that return are steps.
  pub data Step : Db → Db → Type 0 where
    enqueued : (job : QueuedJob) (now : ℕ) (db : Db) → Step db (enqueue job now db).0
    was_claimed :
        (req : ClaimRequest) (now : ℕ) {db db' : Db} {r : Option Job}
        → claim py req now db ≡ ok (db', r)
        → Step db db'
    -- The callers set `running` and the terminal statuses.
    status_set :
        (k : ℕ) (status : Status) (result : String) (now : ℕ) (db : Db)
        → is_pending status ≡ false
        → Step db (set_status k status result now db)
    completed_by_webhook :
        (k : ℕ) (conclusion : String) (now : ℕ) (db : Db)
        → Step db (complete_from_webhook k conclusion now db)
    completed_by_provider :
        (k : ℕ) (conclusion : String) (now : ℕ) (db : Db)
        → Step db (complete_pending_from_provider k conclusion now db).0
    failed_active :
        (k : ℕ) (result : String) (now : ℕ) (db : Db) → Step db (fail_if_active k result now db).0
    requeued :
        (k : ℕ) (reason : String) (now : ℕ) (db : Db)
        → Step db (requeue_infrastructure k reason now db).0
    stale_released :
        (k : ℕ) (reason : String) (timeout checked now : ℕ) (db : Db)
        → Step db (release_stale_job k reason timeout checked now db).0
    failed_released :
        (k : ℕ) (reason : String) (expected now : ℕ) (db : Db)
        → Step db (release_failed_job k reason expected now db).0
    beaten :
        (name : String) (profiles : List String) (active : ℤ) (ids : List ℕ) (detail : Fields)
        (now : ℕ) (db : Db)
        → Step db (heartbeat name profiles active ids detail now db)
    held :
        (k : ℕ) (r : RunnerIdentity) (now : ℕ) {db db' : Db} {h : Hold}
        → hold_exact_offline_runner py digest k r now db ≡ ok (db', h)
        → Step db db'
    reissued :
        (k : ℕ) (r : RunnerIdentity) (reason : String) (now : ℕ) {db db' : Db} {b : Bool}
        → release_offline_runner_hold_for_jit_reissue k r reason now db ≡ ok (db', b)
        → Step db db'

  -- Any number of calls.
  pub data Reach : Db → Db → Type 0 where
    done : (db : Db) → Reach db db
    then_step : {a b c : Db} → Reach a b → Step b c → Reach a c
