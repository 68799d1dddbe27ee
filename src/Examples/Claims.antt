-- ===== src/Examples/Claims.antt =====
-- Claims on a small queue.
use qdev_runner_control_plan.Prelude.{
  ℕ, ◌+◌, String, ◌≡◌, ◌≢◌, ◌*◌, refl, leb, lower, arith, true, false, Option, none, some, List, [],
  ◌∷◌, In, here, there, ok,
}
use qdev_runner_control_plan.Sql.{update, Pairwise}
use qdev_runner_control_plan.Store.Tables
use qdev_runner_control_plan.Store.Tables.{
  QueuedJob, Job, Hold, Worker, Recovery, Db, is_active, is_pending, has_id,
}
use qdev_runner_control_plan.Store.Queue.{new_row, enqueue, pending_id, pending_jobs, queued_before}
use qdev_runner_control_plan.Store.Claim.Request.{Evidence, revalidated_skips, gather_evidence}
use qdev_runner_control_plan.Store.Claim.Order.{is_fifo, claim_oldest, claim_behind_holds}
use qdev_runner_control_plan.Store.Claim.Effect.{
  HandsOut, TakenOrKept, claim_effect, claim_exclusive,
}
use qdev_runner_control_plan.Store.Fenced.{claim_fenced}
use qdev_runner_control_plan.Store.Holds.{HoldTuple}
use qdev_runner_control_plan.Store.Steps
use qdev_runner_control_plan.Store.Steps.{Reach}
use qdev_runner_control_plan.Store.Claim.Facts.{repaired}
use qdev_runner_control_plan.Store.Claim.Fifo.{Counts, claim_fifo_head}
use qdev_runner_control_plan.Store.Claim.Reserve.{claim_reserve}
use qdev_runner_control_plan.Store.Claim.Selection.{enforces_profile_fifo, profile_is}
use qdev_runner_control_plan.Store.Claim.Scan.{skip, consider, slot_query}
use qdev_runner_control_plan.Store.Invariant.{Unique}
use qdev_runner_control_plan.Store.Release.{is_held}
use qdev_runner_control_plan.Store.Workers.{worker_fenced, slot_open}
use qdev_runner_control_plan.Store.Payload.{needs_repair, repair_invalid_queue_timestamps}
use qdev_runner_control_plan.Store.Claim.{claim, claimed_row, answer, fifo_heads}
use qdev_runner_control_plan.Examples.{
  py, noon, queued_job, first, second, third, queue, request, taken,
}

claim_one :
    claim py (request "w1") noon queue
    ≡ ok (taken "w1" first queue, some (answer py (request "w1") first "qdev-ci"))
unfolding claim claimed_row answer pending_id update new_row
claim_one = refl

claim_two :
    claim py (request "w2") noon (taken "w1" first queue)
    ≡ ok (
      taken "w2" second (taken "w1" first queue),
      some (answer py (request "w2") second "qdev-ci"),
    )
unfolding claim claimed_row answer pending_id update new_row
claim_two = refl

claim_effect_example :
    (row : Job) × (profile : String) × In row (repaired py noon queue).jobs
    × (is_pending row.status ≡ true)
    × HandsOut "w1" row profile (answer py (request "w1") first "qdev-ci")
    × Pairwise
        (TakenOrKept (request "w1") profile noon row.job_id)
        (repaired py noon queue).jobs
        (taken "w1" first queue).jobs
    × ((taken "w1" first queue).holds ≡ queue.holds)
    × ((taken "w1" first queue).workers ≡ queue.workers)
    × ((taken "w1" first queue).recoveries ≡ queue.recoveries)
claim_effect_example = claim_effect py (request "w1") noon queue claim_one

claim_exclusive_example :
    (answer py (request "w1") first "qdev-ci").job_id
    ≢ (answer py (request "w2") second "qdev-ci").job_id
claim_exclusive_example =
    claim_exclusive py py (request "w1") (request "w2") noon noon queue claim_one claim_two

distinct : Unique queue.jobs
unfolding new_row
distinct = (((λ e. ground arith), ((λ e. ground arith), tt)), (((λ e. ground arith), tt), (tt, tt)))

named : (answer py (request "w1") first "qdev-ci").profile ≡ some "qdev-ci"
unfolding answer
named = refl

claim_fifo_head_example :
    (skip_ids : List ℕ) × (revalidated_skips (request "w1") ≡ ok skip_ids)
    × ((other : Job)
        → In other (pending_jobs (repaired py noon queue))
        → Counts py (request "w1") skip_ids (lower "qdev-ci") other
        → queued_before (answer py (request "w1") first "qdev-ci") other ≡ true)
claim_fifo_head_example =
    claim_fifo_head py (request "w1") noon queue "qdev-ci" distinct (unfold is_fifo in refl)
      (unfold enforces_profile_fifo in refl) claim_one named

claim_oldest_example :
    (skip_ids : List ℕ) × (ev : Evidence) × (heads : Option (List (String × ℕ)))
    × (revalidated_skips (request "w2") ≡ ok skip_ids)
    × (gather_evidence py (request "w2") noon (repaired py noon (taken "w1" first queue))
        ≡ ok (some ev))
    × (fifo_heads py
          (request "w2")
          skip_ids
          (pending_jobs (repaired py noon (taken "w1" first queue)))
        ≡ ok heads)
    × ((other : Job)
        → In other (pending_jobs (repaired py noon (taken "w1" first queue)))
        → queued_before (answer py (request "w2") second "qdev-ci") other ≡ false
        → consider py (request "w2") ev heads noon (repaired py noon (taken "w1" first queue)) other
          ≡ ok skip)
claim_oldest_example =
    claim_oldest py (request "w2") noon (taken "w1" first queue) (unfold is_fifo in refl) claim_two

held_row : In third (repaired py noon queue).jobs
unfolding repair_invalid_queue_timestamps needs_repair update new_row
held_row = there (there (here refl))

claim_behind_holds_example : queued_before third (answer py (request "w1") first "qdev-ci") ≡ false
unfolding repair_invalid_queue_timestamps new_row
claim_behind_holds_example =
    claim_behind_holds py (request "w1") noon queue "qdev-ci" third claim_one named held_row
      (unfold is_held in refl) refl (unfold profile_is in refl)

claim_reserve_example :
    (row : Job) × (profile : String) × (answer py (request "w1") first "qdev-ci"
      ≡ answer py (request "w1") row profile)
    × ((w : Worker)
        → In w queue.workers
        → leb noon (w.last_seen + (request "w1").primary_max_age_seconds * 1000000) ≡ true
        → slot_open py
            (repaired py noon queue)
            "primary"
            (slot_query py (request "w1") row profile)
            w
          ≡ ok false)
claim_reserve_example = claim_reserve py (request "w1") noon queue refl claim_one

abbrev recovering : Recovery
recovering = record { idempotency_key = "k"; worker_name = "w1"; state = Tables.invoking }

abbrev fenced_queue : Db
fenced_queue = record queue { recoveries = recovering ∷ [] }

abbrev digest : HoldTuple → String
digest t = "d"

-- Another job arrives while the worker recovers.
abbrev longer : Db
longer = (enqueue (queued_job 4 "d") noon fenced_queue).0

calls : Reach py digest fenced_queue longer
calls =
    Steps.then_step (Steps.done fenced_queue) (Steps.enqueued (queued_job 4 "d") noon fenced_queue)

fenced_claim : claim py (request "w1") noon longer ≡ ok (longer, none)
unfolding claim worker_fenced enqueue new_row
fenced_claim = refl

abbrev no_job : Option Job
no_job = none

claim_fenced_example : (longer ≡ longer) × (no_job ≡ no_job)
claim_fenced_example =
    claim_fenced py py digest (request "w1") noon recovering fenced_queue longer (here refl) refl
      refl calls fenced_claim
