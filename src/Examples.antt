-- ===== src/Examples.antt =====
-- Concrete databases and requests.
pub mod Claims
pub mod Recovering
pub mod Canaries
pub mod Scopes
pub mod Retrying
pub mod Backfilling
pub mod Dispatch
use qdev_runner_control_plan.Prelude.{
  ℕ, ◌+◌, String, ◌≡◌, ◌≢◌, ◌*◌, refl, leb, lower, arith, Bool, true, false, Option, none, some,
  List, [], ◌∷◌, In, here, there, Real, of_int, ℤ, pos, Result, ok,
}
use qdev_runner_control_plan.Json
use qdev_runner_control_plan.Json.{Json, Fields, Python}
use qdev_runner_control_plan.ClaimScope.{ScopedJob, ClaimScope, schema_v2, resolve_claim_scope}
use qdev_runner_control_plan.ClaimScope.Resolution.{resolve_live}
use qdev_runner_control_plan.Sql.{update}
use qdev_runner_control_plan.Store.Tables
use qdev_runner_control_plan.Store.Tables.{
  QueuedJob, Job, Hold, Worker, Recovery, Db, is_active, is_pending, has_id,
}
use qdev_runner_control_plan.Store.Queue.{
  new_row, enqueue, pending_id, pending_jobs, queued_before, requeue_infrastructure,
}
use qdev_runner_control_plan.Store.Claim.Request.{
  ClaimRequest, Evidence, revalidated_skips, gather_evidence,
}
use qdev_runner_control_plan.Store.Claim.Order.{is_fifo, claim_oldest, claim_behind_holds}
use qdev_runner_control_plan.Store.Claim.Effect.{claim_exclusive}
use qdev_runner_control_plan.Store.Claim.Facts.{repaired}
use qdev_runner_control_plan.Store.Claim.Fifo.{Counts, claim_fifo_head}
use qdev_runner_control_plan.Store.Claim.Reserve.{claim_reserve}
use qdev_runner_control_plan.Store.Claim.Selection.{enforces_profile_fifo, profile_is}
use qdev_runner_control_plan.Store.Claim.Scan.{skip, consider, slot_query}
use qdev_runner_control_plan.Store.Invariant.{Unique, IsValid}
use qdev_runner_control_plan.Store.Release.{is_held}
use qdev_runner_control_plan.Store.Workers.{worker_fenced, slot_open}
use qdev_runner_control_plan.Store.Payload.{needs_repair, repair_invalid_queue_timestamps}
use qdev_runner_control_plan.Store.Claim.{claim, claimed_row, answer}

-- Python's conversions where the examples never reach them.
abbrev pub py : Python
py = record {
  int_of_text = λ s. none;
  float_of_text = λ s. none;
  text_of_value = λ v. "?";
  time_of_text = λ s. none;
}

abbrev pub noon : ℕ
noon = 1700000000000000

abbrev pub queued_job : ℕ → String → QueuedJob
queued_job k delivery = record {
  delivery_id = delivery;
  job_id = k;
  run_id = k + 100;
  repository = "qdev/app";
  repository_id = 7;
  installation_id = 9;
  labels = "self-hosted" ∷ "qdev-ci" ∷ [];
  head_sha = "abc";
  head_branch = "main";
  payload = Json.obj (
      Json.field "workflow_job" (Json.obj (Json.field "run_attempt" (Json.int (pos 1)) Json.end))
        Json.end);
}

abbrev pub first : Job
first = new_row (queued_job 1 "a") noon

abbrev pub second : Job
second = new_row (queued_job 2 "b") (noon + 1)

abbrev pub third : Job
third = record (new_row (queued_job 3 "c") (noon + 2)) {
  status = Tables.claimed;
  profile = some "qdev-ci";
}

abbrev pub hold : Hold
hold = record {
  job_id = 3;
  provider_runner_id = 5;
  runner_name = "runner";
  labels = "self-hosted" ∷ "qdev-ci" ∷ [];
  tuple_digest = "d";
  state = Tables.active;
  created_at = noon;
  updated_at = noon;
}

abbrev pub queue : Db
queue = record {
  jobs = first ∷ second ∷ third ∷ [];
  holds = hold ∷ [];
  workers = [];
  recoveries = [];
}

abbrev pub request : String → ClaimRequest
request name = record {
  worker_name = name;
  profiles = "qdev-ci" ∷ [];
  tier = "reserve";
  disk_free_gib = none;
  min_disk_free_gib = none;
  profile_disk_mb = none;
  repository_profile_disk_mb = none;
  repository_min_disk_free_gib = none;
  repository_max_concurrency = none;
  repository = some "qdev/app";
  head_sha = none;
  primary_max_age_seconds = 90;
  claim_scope = none;
  authorized_min_disk_free_gib = none;
  fifo_skip_job_ids = [];
  fifo_skip_guard = none;
}

-- The queue after a worker took the job.
abbrev pub taken : String → Job → Db → Db
taken name row db = record db {
  jobs = update (pending_id row.job_id) (claimed_row py (request name) "qdev-ci" noon) db.jobs;
}
