-- ===== src/Store/Claim.antt =====
-- `Store.claim`: one worker takes the oldest job that it may run.
pub mod Request
pub mod Selection
pub mod Scan
pub mod Outcome
pub mod Eligible
pub mod Facts
pub mod Effect
pub mod Order
pub mod Fifo
pub mod Binding
pub mod Reserve
use qdev_runner_control_plan.Prelude.{
  ℕ, suc, ◌+◌, Bool, true, false, ◌&&◌, Option, none, some, List, if◌then◌else◌, ◌==◌, nat_eq,
  Result, ok, raise, ◌>>=◌, ◌>>◌, count, String,
}
use qdev_runner_control_plan.Json.{Python}
use qdev_runner_control_plan.ClaimScope.{ClaimScope}
use qdev_runner_control_plan.Sql.{update}
use qdev_runner_control_plan.Store.Tables.{claimed, Job, Db}
use qdev_runner_control_plan.Store.Queue.{pending_id, pending_jobs}
use qdev_runner_control_plan.Store.Payload.{repair_invalid_queue_timestamps}
use qdev_runner_control_plan.Store.Workers.{worker_fenced}
use Request.{ClaimRequest, Evidence, check_request, revalidated_skips, gather_evidence}
use Selection.{scan_order, enforces_profile_fifo, profile_heads}
use Scan.{consider, scan}

module _ (py : Python) (req : ClaimRequest) where
  -- The FIFO heads, if they bind.
  unfoldable pub fifo_heads : List ℕ → List Job → Result (Option (List (String × ℕ)))
  unfolding enforces_profile_fifo profile_heads
  fifo_heads skip_ids rows =
      if enforces_profile_fifo req
      then (do heads ← profile_heads py req skip_ids rows; ok (some heads))
      else ok none

  -- The row and profile that the claim settles on.
  unfoldable pub choose : List ℕ → Evidence → ℕ → Db → Result (Option (Job × String))
  unfolding scan_order fifo_heads consider scan pending_jobs
  choose skip_ids ev now db = do
    let rows = scan_order req.claim_scope (pending_jobs db)
    heads ← fifo_heads skip_ids rows
    scan (consider py req ev heads now db) rows

  -- The columns that the UPDATE sets.
  unfoldable pub claimed_row : String → ℕ → Job → Job
  claimed_row profile now row = record row {
    status = claimed;
    worker_name = some req.worker_name;
    claim_scope_id = elim req.claim_scope [ none ↦ none | some scope ↦ some scope.scope_id ];
    profile = some profile;
    claimed_at = some now;
    updated_at = now;
    attempts = row.attempts + 1;
  }

  -- The row as it was selected, with the three entries that the method overrides.
  unfoldable pub answer : Job → String → Job
  answer row profile = record row {
    worker_name = some req.worker_name;
    profile = some profile;
    attempts = row.attempts + 1;
  }

  unfoldable pub assign : Job → String → ℕ → Db → Db × Option Job
  unfolding claimed_row answer pending_id update count
  assign row profile now db = (
    record db { jobs = update (pending_id row.job_id) (claimed_row profile now) db.jobs },
    if count (pending_id row.job_id) db.jobs == 1 then some (answer row profile) else none,
  )

  -- What the transaction commits and returns once the scan has ended.
  unfoldable pub settle : ℕ → Db → Option (Job × String) → Db × Option Job
  settle now db none = (db, none)
  settle now db (some (row, profile)) = assign row profile now db

  -- The claim with its evidence; without any it returns None.
  unfoldable pub claim_with : List ℕ → ℕ → Db → Option Evidence → Result (Db × Option Job)
  claim_with skip_ids now db none = ok (db, none)
  claim_with skip_ids now db (some ev) = do
    chosen ← choose skip_ids ev now db
    ok (settle now db chosen)

  -- What follows the repair of the timestamps, within the same transaction.
  unfoldable pub claim_repaired : List ℕ → ℕ → Db → Result (Db × Option Job)
  unfolding gather_evidence claim_with settle choose assign
  claim_repaired skip_ids now db = do
    evidence ← gather_evidence py req now db
    claim_with skip_ids now db evidence

  -- A raised exception closes the connection, which rolls the transaction back.
  unfoldable pub claim : ℕ → Db → Result (Db × Option Job)
  unfolding check_request revalidated_skips worker_fenced claim_repaired
      repair_invalid_queue_timestamps
  claim now db = do
    check_request req
    skip_ids ← revalidated_skips req
    (if worker_fenced db req.worker_name
        then ok (db, none)
        else claim_repaired skip_ids now (repair_invalid_queue_timestamps py now db))
