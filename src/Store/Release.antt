-- ===== src/Store/Release.antt =====
-- The methods of `Store` that return abandoned or failed work to the queue.
use qdev_runner_control_plan.Prelude.{
  ℕ, ◌+◌, String, Bool, true, false, ◌&&◌, ◌||◌, Option, none, some, List, map, not, ◌==◌, nat_eq,
  string_eq, option_eq, int_eq, ltb, pos, ltb_ℤ, select, any, find, count, member, take_text,
  is_worker_exit,
}
use qdev_runner_control_plan.Sql.{update, order_by}
use qdev_runner_control_plan.Store.Tables.{
  pending, is_failed, is_active, Job, Worker, Db, seconds, has_id, holds_id,
}
use qdev_runner_control_plan.Store.Queue.{queued_before}

-- EXISTS (SELECT 1 FROM offline_runner_holds WHERE job_id=jobs.job_id AND state='active')
unfoldable pub is_held : Db → Job → Bool
unfolding any
is_held db row = any (holds_id row.job_id) db.holds

-- workers.name=jobs.worker_name
unfoldable pub worker_of : Db → String → Option Worker
unfolding find
worker_of db name = find (λ w. w.name == name) db.workers

-- x < time.time() - timeout, at the reading `now`
unfoldable pub before_cutoff : ℕ → ℕ → ℕ → Bool
before_cutoff now timeout x = ltb (x + seconds timeout) now

-- The last condition of `stale_jobs`, over the LEFT JOIN with `workers`.
unfoldable pub worker_gone : Db → ℕ → ℕ → Job → Bool
unfolding worker_of before_cutoff
worker_gone db now timeout row = elim row.worker_name [
  | none ↦ true
  | some name ↦ elim (worker_of db name) [
    | none ↦ true
    | some w ↦ before_cutoff now timeout w.last_seen || w.active_jobs == pos 0
  ]
]

-- The WHERE clause of `stale_jobs`.
unfoldable pub is_stale : Db → ℕ → ℕ → Job → Bool
unfolding worker_gone before_cutoff is_held
is_stale db now timeout row =
    is_active row.status
    && before_cutoff now timeout row.updated_at
    && not (is_held db row)
    && worker_gone db now timeout row

unfoldable pub stale_jobs : ℕ → ℕ → Db → List Job
unfolding is_stale order_by queued_before select
stale_jobs timeout now db = order_by queued_before (select (is_stale db now timeout) db.jobs)

-- SELECT name FROM workers WHERE last_seen>=cutoff AND active_jobs>0
unfoldable pub busy_workers : Db → ℕ → ℕ → List String
unfolding before_cutoff select
busy_workers db now timeout =
    map (λ (w : Worker). w.name)
      (select (λ w. not (before_cutoff now timeout w.last_seen) && ltb_ℤ (pos 0) w.active_jobs)
        db.workers)

-- The WHERE clause of `release_stale_job`, without `job_id=?`.
unfoldable pub releasable : Db → ℕ → ℕ → Job → Bool
unfolding busy_workers before_cutoff is_held member
releasable db checked timeout row =
    is_active row.status
    && before_cutoff checked timeout row.updated_at
    && not (is_held db row)
    && (elim row.worker_name [
      | none ↦ true
      | some name ↦ not (member name (busy_workers db checked timeout))
    ])

unfoldable pub released_row : String → ℕ → Job → Job
unfolding take_text
released_row reason now row = record row {
  status = pending;
  worker_name = none;
  claim_scope_id = none;
  profile = none;
  claimed_at = none;
  updated_at = now;
  result = some (take_text 4000 reason);
}

-- Its whole WHERE clause.
unfoldable pub releases : Db → ℕ → ℕ → ℕ → Job → Bool
unfolding releasable
releases db job_id checked timeout row = has_id job_id row && releasable db checked timeout row

-- `checked` and `now` are the two clock readings of the method, in their order.
unfoldable pub release_stale_job : ℕ → String → ℕ → ℕ → ℕ → Db → Db × Bool
unfolding releases released_row update count
release_stale_job job_id reason timeout checked now db = (
  record db {
    jobs = update (releases db job_id checked timeout) (released_row reason now) db.jobs;
  },
  count (releases db job_id checked timeout) db.jobs == 1,
)

-- status='failed' AND worker_name IS NOT NULL AND claimed_at IS NOT NULL AND result LIKE ...
unfoldable pub is_worker_failure : Job → Bool
unfolding is_worker_exit
is_worker_failure row =
    is_failed row.status
    && (elim row.worker_name [ none ↦ false | some _ ↦ true ])
    && (elim row.claimed_at [ none ↦ false | some _ ↦ true ])
    && (elim row.result [ none ↦ false | some text ↦ is_worker_exit text ])

unfoldable pub failed_worker_jobs : Db → List Job
unfolding is_worker_failure order_by queued_before select
failed_worker_jobs db = order_by queued_before (select is_worker_failure db.jobs)

unfoldable pub reopened_row : String → ℕ → Job → Job
unfolding take_text
reopened_row reason now row = record row {
  status = pending;
  worker_name = none;
  claim_scope_id = none;
  profile = none;
  claimed_at = none;
  completed_at = none;
  updated_at = now;
  result = some (take_text 4000 reason);
}

-- Its WHERE clause.
unfoldable pub reopens : ℕ → ℕ → Job → Bool
unfolding is_worker_failure
reopens job_id expected_updated_at row =
    has_id job_id row && row.updated_at == expected_updated_at && is_worker_failure row

unfoldable pub release_failed_job : ℕ → String → ℕ → ℕ → Db → Db × Bool
unfolding reopens reopened_row update count
release_failed_job job_id reason expected_updated_at now db = (
  record db {
    jobs = update (reopens job_id expected_updated_at) (reopened_row reason now) db.jobs;
  },
  count (reopens job_id expected_updated_at) db.jobs == 1,
)
