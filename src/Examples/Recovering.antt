-- ===== src/Examples/Recovering.antt =====
-- A bound claim, recoveries and reachable tables on the small queue.
use qdev_runner_control_plan.Prelude.{
  ℕ, ◌+◌, ◌<◌, String, ◌≡◌, refl, sym, ◌∙◌, true, false, Option, none, some, [], ◌∷◌, In, here,
  there, ℤ, pos, ok, string_eq, ltb_ℤ, arith,
}
use qdev_runner_control_plan.Json
use qdev_runner_control_plan.Json.{Json, Fields, Python}
use qdev_runner_control_plan.ClaimScope.{ScopedJob, ClaimScope, schema_v2}
use qdev_runner_control_plan.Sql.{update}
use qdev_runner_control_plan.Store.Tables
use qdev_runner_control_plan.Store.Tables.{Job, Hold, Worker, Db, is_active}
use qdev_runner_control_plan.Store.Queue.{
  new_row, enqueue, pending_id, job, set_status, with_status, requeue_infrastructure, retried_row,
}
use qdev_runner_control_plan.Store.Release.{is_stale, releasable, stale_jobs, release_stale_job}
use qdev_runner_control_plan.Store.Payload.{workflow_job_attempt}
use qdev_runner_control_plan.Store.Holds.{
  RunnerIdentity, HoldTuple, reissue, release_offline_runner_hold_for_jit_reissue,
  terminal_offline_runner_hold_matches,
}
use qdev_runner_control_plan.Store.Invariant.{IsValid}
use qdev_runner_control_plan.Store.Steps
use qdev_runner_control_plan.Store.Steps.{Step, Reach}
use qdev_runner_control_plan.Store.Changes.{Continues}
use qdev_runner_control_plan.Store.Reachable.{Reach-IsValid, Reach-Continues}
use qdev_runner_control_plan.Store.Outcomes.{IsRetried, IsExhausted, requeue_once}
use qdev_runner_control_plan.Store.Staleness.{WorkersValid, IsBack, stale_agrees, stale_released}
use qdev_runner_control_plan.Store.Reissue.{reissue_once}
use qdev_runner_control_plan.Store.Claim.Request.{ClaimRequest}
use qdev_runner_control_plan.Store.Claim.Selection.{tuple_of}
use qdev_runner_control_plan.Store.Claim.Binding.{Binds, claim_scope_bound}
use qdev_runner_control_plan.Store.Claim.{claim, claimed_row, answer}
use qdev_runner_control_plan.Examples.{py, noon, queued_job, first, request, queue}

abbrev scope : ClaimScope
scope = record {
  scope_id = "scope-1";
  worker_name = "w1";
  tier = "primary";
  repository = "qdev/app";
  head_sha = "abc";
  expires_at = noon + 600000000;
  jobs =
      (record {
        job_id = 1;
        profile = "qdev-ci";
        repository = some "qdev/app";
        run_id = some 101;
        attempt = some (pos 1);
        exact_sha = some "abc";
      })
      ∷ [];
  worker_certificate_sha256 = none;
  schema = schema_v2;
  host = none;
  runner = none;
  correlation_id = none;
  fifo_skipped = [];
  fifo_exception = none;
}

abbrev capacity : Fields
capacity = Json.field "disk_free_gib" (Json.int (pos 80)) Json.end

abbrev detail : Fields
detail =
    Json.field "effective_capacity" (Json.obj (Json.field "allowed" (Json.bool true) Json.end)) (
      Json.field "raw_capacity" (Json.obj capacity) (
        Json.field "effective_profiles" (Json.arr (Json.cons (Json.str "qdev-ci") Json.nil)) (
          Json.field "min_disk_free_gib" (Json.int (pos 30)) (
            Json.field "concurrency" (Json.int (pos 2)) (
              Json.field "slots_available" (Json.int (pos 2)) (
                Json.field "tier" (Json.str "primary") (
                  Json.field "allowed" (Json.bool true)
                    (Json.field "configured_claim_scope_id" (Json.str "scope-1") Json.end))))))))

abbrev worker : Worker
worker = record {
  name = "w1";
  profiles = "qdev-ci" ∷ [];
  active_jobs = pos 0;
  last_seen = noon;
  detail = detail;
}

abbrev bound_queue : Db
bound_queue = record queue { workers = worker ∷ [] }

abbrev bound_request : ClaimRequest
bound_request = record (request "w1") { tier = "primary"; claim_scope = some scope }

bound_claim :
    claim py bound_request noon bound_queue
    ≡ ok (
      record bound_queue {
        jobs = update (pending_id 1) (claimed_row py bound_request "qdev-ci" noon) bound_queue.jobs;
      },
      some (answer py bound_request first "qdev-ci"),
    )
unfolding claim claimed_row answer pending_id update new_row
bound_claim = refl

claim_scope_bound_example :
    (item : ScopedJob) × (profile : String) × (attempt : Option ℤ) × In item scope.jobs
    × ((answer py bound_request first "qdev-ci").profile ≡ some profile)
    × (workflow_job_attempt py (answer py bound_request first "qdev-ci").payload ≡ ok attempt)
    × Binds item (tuple_of (answer py bound_request first "qdev-ci") profile attempt)
claim_scope_bound_example =
    claim_scope_bound py bound_request noon bound_queue scope refl refl bound_claim

abbrev empty : Db
empty = record { jobs = []; holds = []; workers = []; recoveries = [] }

abbrev digest : HoldTuple → String
digest t = "d"

abbrev one : Db
one = (enqueue (queued_job 1 "a") noon empty).0

enqueued : Reach py digest empty one
enqueued = Steps.then_step (Steps.done empty) (Steps.enqueued (queued_job 1 "a") noon empty)

requeued : Reach py digest empty (requeue_infrastructure 1 "lost" noon one).0
requeued = Steps.then_step enqueued (Steps.requeued 1 "lost" noon one)

Reach-IsValid_example : IsValid (requeue_infrastructure 1 "lost" noon one).0.jobs
Reach-IsValid_example =
    Reach-IsValid py digest empty (requeue_infrastructure 1 "lost" noon one).0 refl requeued

in_queue : In first queue.jobs
in_queue = here refl

released : Reach py digest queue (release_stale_job 3 "gone" 60 noon noon queue).0
released = Steps.then_step (Steps.done queue) (Steps.stale_released 3 "gone" 60 noon noon queue)

Reach-Continues_example :
    (later : Job) × In later (release_stale_job 3 "gone" 60 noon noon queue).0.jobs
    × Continues first later
Reach-Continues_example =
    Reach-Continues py digest queue (release_stale_job 3 "gone" 60 noon noon queue).0 first released
      in_queue

-- A job whose worker is not in the registry.
abbrev lost : Job
lost = record first { status = Tables.running; worker_name = some "w9"; claimed_at = some noon }

abbrev lost_queue : Db
lost_queue = record { jobs = lost ∷ []; holds = []; workers = worker ∷ []; recoveries = [] }

workers-WorkersValid : WorkersValid lost_queue.workers
workers-WorkersValid = record { names = λ a b m n e. same a b m n; counts = λ a m. count a m }
  where
    same : (a b : Worker) → In a (worker ∷ []) → In b (worker ∷ []) → a ≡ b
    same a b (here p) (here q) = p ∙ sym q
    same a b (here p) (there n) = elim n [ ]
    same a b (there m) n = elim m [ ]

    count : (a : Worker) → In a (worker ∷ []) → ltb_ℤ a.active_jobs (pos 0) ≡ false
    count a (here p) = rw p refl
    count a (there m) = elim m [ ]

abbrev later : ℕ
later = noon + 1000000000

stale_agrees_example : is_stale lost_queue later 60 lost ≡ releasable lost_queue later 60 lost
stale_agrees_example = stale_agrees lost_queue later 60 lost workers-WorkersValid

listed : In lost (stale_jobs 60 later lost_queue)
unfolding stale_jobs new_row
listed = here refl

stale_released_example :
    ((release_stale_job lost.job_id "gone" 60 later later lost_queue).1 ≡ true)
    × (back : Job) × (job lost.job_id
          (release_stale_job lost.job_id "gone" 60 later later lost_queue).0
        ≡ some back)
    × IsBack "gone" later lost back
stale_released_example =
    stale_released "gone" 60 later later lost_queue lost (tt, tt) workers-WorkersValid listed

lost_queue-IsValid : IsValid lost_queue.jobs
unfolding new_row
lost_queue-IsValid = record {
  unique = (tt, tt);
  sound = (record { retries = ground arith; unclaimed = λ e. absurd (cc) }, tt);
}

abbrev requeued_queue : Db
requeued_queue = (requeue_infrastructure 1 "gone" later lost_queue).0

-- The job is claimed and starts again.
abbrev running_again : Db
running_again = set_status 1 Tables.running "started" later requeued_queue

again_calls : Reach py digest requeued_queue running_again
again_calls =
    Steps.then_step (Steps.done requeued_queue)
      (Steps.status_set 1 Tables.running "started" later requeued_queue refl)

abbrev again : Job
again = with_status Tables.running "started" later (retried_row "gone" later lost)

again_in : In again running_again.jobs
unfolding requeue_infrastructure set_status new_row
again_in = here refl

same_id : again.job_id ≡ lost.job_id
unfolding with_status retried_row
same_id = refl

started : is_active again.status ≡ true
unfolding with_status
started = refl

unspent : lost.infra_retries < 1
unfolding new_row
unspent = ground arith

requeue_once_example :
    ((requeue_infrastructure lost.job_id "gone" later lost_queue).1 ≡ true)
    × (first_try : Job) × (job lost.job_id
          (requeue_infrastructure lost.job_id "gone" later lost_queue).0
        ≡ some first_try)
    × IsRetried later lost first_try
    × ((requeue_infrastructure lost.job_id "gone" later running_again).1 ≡ true)
    × (final : Job) × (job lost.job_id
          (requeue_infrastructure lost.job_id "gone" later running_again).0
        ≡ some final)
    × IsExhausted later again final
unfolding new_row
requeue_once_example =
    requeue_once py digest "gone" "gone" later later lost_queue running_again lost again
      lost_queue-IsValid (here refl) refl unspent again_calls again_in same_id started

abbrev runner : RunnerIdentity
runner = record {
  provider_runner_id = 5;
  runner_name = "runner";
  labels = "self-hosted" ∷ "qdev-ci" ∷ [];
}

reissued_hold :
    release_offline_runner_hold_for_jit_reissue 3 runner "lost" later queue
    ≡ ok (reissue 3 "lost" later queue, true)
unfolding release_offline_runner_hold_for_jit_reissue new_row
reissued_hold = refl

abbrev reissued_queue : Db
reissued_queue = reissue 3 "lost" later queue

abbrev longer : Db
longer = (enqueue (queued_job 4 "d") later reissued_queue).0

arrived : Reach py digest reissued_queue longer
arrived =
    Steps.then_step (Steps.done reissued_queue)
      (Steps.enqueued (queued_job 4 "d") later reissued_queue)

reissue_once_example :
    (terminal_offline_runner_hold_matches 3 runner longer ≡ true)
    × (release_offline_runner_hold_for_jit_reissue 3 runner "again" later longer
        ≡ ok (longer, false))
reissue_once_example =
    reissue_once py digest 3 runner "lost" "again" later later queue longer reissued_hold arrived
