-- ===== src/Examples/Backfilling.antt =====
-- A hold whose job has no attempt yet.
use qdev_runner_control_plan.Prelude.{String, ◌≡◌, refl, true, some, [], ◌∷◌, ok, pos, find}
use qdev_runner_control_plan.Json
use qdev_runner_control_plan.Json.{Json}
use qdev_runner_control_plan.Store.Tables.{Job, Db, has_id}
use qdev_runner_control_plan.Store.Queue.{new_row}
use qdev_runner_control_plan.Store.Payload.{workflow_job_attempt}
use qdev_runner_control_plan.Store.Holds.{RunnerIdentity, HoldTuple}
use qdev_runner_control_plan.Store.Backfill.{
  Verified, with_attempt, backfill_offline_runner_hold_attempt,
}
use qdev_runner_control_plan.Store.Backfill.Bound.{backfill_bound}
use qdev_runner_control_plan.Examples.{py, noon, third, hold}

abbrev digest : HoldTuple → String
digest t = "digest"

abbrev old_job : Job
old_job = record third {
  payload = Json.obj (Json.field "workflow_job" (Json.obj Json.end) Json.end);
}

abbrev old : Db
old = record { jobs = old_job ∷ []; holds = hold ∷ []; workers = []; recoveries = [] }

abbrev runner : RunnerIdentity
runner = record {
  provider_runner_id = 5;
  runner_name = "runner";
  labels = "self-hosted" ∷ "qdev-ci" ∷ [];
}

abbrev verified : Verified
verified = record { repository = "qdev/app"; run_id = 103; head_sha = "ABC"; profile = "qdev-ci" }

abbrev bound : Db
bound = record old {
  jobs = record old_job { payload = with_attempt 2 old_job.payload; updated_at = noon } ∷ [];
  holds = record hold { tuple_digest = "digest"; updated_at = noon } ∷ [];
}

backfilled :
    backfill_offline_runner_hold_attempt py digest 3 2 verified runner noon old ≡ ok (bound, true)
unfolding backfill_offline_runner_hold_attempt new_row
backfilled = refl

backfill_bound_example :
    (job : Job) × (find (has_id 3) bound.jobs ≡ some job)
    × (workflow_job_attempt py job.payload ≡ ok (some (pos 2)))
backfill_bound_example = backfill_bound py digest 3 2 verified runner noon old bound backfilled
