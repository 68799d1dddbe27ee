-- ===== src/Store/Queue.antt =====
-- The methods of `Store` that move one job through the queue. A method takes the clock reading
-- `now` of its `time.time()` and returns the new database beside its result. Each is one
-- transaction, so it is one function.
use Prim.Native.String.{◌++◌ as text_append}
use qdev_runner_control_plan.Prelude.{
  ℕ, ◌+◌, String, Bool, true, false, ◌&&◌, ◌||◌, Option, none, some, List, [], ◌∷◌, ◌++◌,
  if◌then◌else◌, not, ◌==◌, nat_eq, string_eq, option_eq, leb, ltb, int_eq, select, any, find,
  count, take_text, Result, ok, raise, value_error,
}
use qdev_runner_control_plan.Sql.{update, order_by}
use qdev_runner_control_plan.Store.Tables.{
  Status, pending, completed, failed, is_pending, is_active, is_terminal, QueuedJob, Job, Hold,
  terminal, Db, has_id, holds_id,
}

-- MAX_INFRASTRUCTURE_RETRIES
abbrev pub max_infrastructure_retries : ℕ
max_infrastructure_retries = 1

-- s[:4000]
clip : String → String
unfolding take_text
clip s = take_text 4000 s

-- The row that `enqueue` inserts.
unfoldable pub new_row : QueuedJob → ℕ → Job
new_row job now = record {
  job_id = job.job_id;
  delivery_id = job.delivery_id;
  run_id = job.run_id;
  repository = job.repository;
  repository_id = job.repository_id;
  installation_id = job.installation_id;
  labels = job.labels;
  head_sha = job.head_sha;
  head_branch = job.head_branch;
  payload = job.payload;
  status = pending;
  worker_name = none;
  claim_scope_id = none;
  profile = none;
  created_at = now;
  updated_at = now;
  claimed_at = none;
  completed_at = none;
  result = none;
  attempts = 0;
  infra_retries = 0;
}

-- The PRIMARY KEY on `job_id` or UNIQUE on `delivery_id` is violated.
unfoldable pub conflicts : QueuedJob → Job → Bool
conflicts job row = row.job_id == job.job_id || row.delivery_id == job.delivery_id

unfoldable pub enqueue : QueuedJob → ℕ → Db → Db × Bool
unfolding new_row conflicts any
enqueue job now db =
    if any (conflicts job) db.jobs
    then (db, false)
    else (record db { jobs = db.jobs ++ (new_row job now ∷ []) }, true)

-- The row after `set_status`; COALESCE keeps an earlier completion time.
unfoldable pub with_status : Status → String → ℕ → Job → Job
unfolding clip
with_status status result now row = record row {
  status = status;
  result = some (clip result);
  updated_at = now;
  completed_at = if is_terminal status then some now else row.completed_at;
}

unfoldable pub end_hold : ℕ → Hold → Hold
end_hold now h = record h { state = terminal; updated_at = now }

unfoldable pub set_status : ℕ → Status → String → ℕ → Db → Db
unfolding with_status end_hold update
set_status job_id status result now db = record db {
  jobs = update (has_id job_id) (with_status status result now) db.jobs;
  holds = if is_terminal status then update (holds_id job_id) (end_hold now) db.holds else db.holds;
}

unfoldable pub job : ℕ → Db → Option Job
unfolding find
job job_id db = find (has_id job_id) db.jobs

unfoldable pub job_status : ℕ → Db → Option Status
unfolding job
job_status job_id db = elim (job job_id db) [ none ↦ none | some row ↦ some row.status ]

-- WHERE job_id=? AND status IN ('claimed','running')
unfoldable pub active_id : ℕ → Job → Bool
active_id job_id row = has_id job_id row && is_active row.status

unfoldable pub failed_row : String → ℕ → Job → Job
unfolding clip
failed_row result now row = record row {
  status = failed;
  result = some (clip result);
  updated_at = now;
  completed_at = some now;
}

unfoldable pub fail_if_active : ℕ → String → ℕ → Db → Db × Bool
unfolding failed_row active_id update count
fail_if_active job_id result now db = (
  record db { jobs = update (active_id job_id) (failed_row result now) db.jobs },
  count (active_id job_id) db.jobs == 1,
)

-- The first UPDATE of `_transition_infrastructure`. It runs only when no retry was used, so the
-- count in its message is 1.
unfoldable pub retried_row : String → ℕ → Job → Job
unfolding clip
retried_row reason now row = record row {
  status = pending;
  worker_name = none;
  claim_scope_id = none;
  profile = none;
  claimed_at = none;
  completed_at = none;
  updated_at = now;
  infra_retries = row.infra_retries + 1;
  result = some (clip (text_append "infrastructure retry 1/1: " reason));
}

-- Its second UPDATE.
unfoldable pub exhausted_row : String → ℕ → Job → Job
unfolding clip
exhausted_row reason now row = record row {
  status = failed;
  worker_name = none;
  claim_scope_id = none;
  profile = none;
  claimed_at = none;
  completed_at = some now;
  updated_at = now;
  result = some (clip (text_append "infrastructure retry exhausted (1): " reason));
}

unfoldable pub transition_infrastructure : ℕ → String → ℕ → Db → Db × Bool
unfolding retried_row exhausted_row active_id update find
transition_infrastructure job_id reason now db = elim (find (has_id job_id) db.jobs) [
  | none ↦ (db, false)
  | some row ↦
      if not (is_active row.status)
      then (db, false)
      else if ltb row.infra_retries max_infrastructure_retries
      then (record db { jobs = update (active_id job_id) (retried_row reason now) db.jobs }, true)
      else (record db { jobs = update (active_id job_id) (exhausted_row reason now) db.jobs }, true)
]

unfoldable pub requeue_infrastructure : ℕ → String → ℕ → Db → Db × Bool
unfolding transition_infrastructure
requeue_infrastructure job_id reason now db = transition_infrastructure job_id reason now db

unfoldable pub complete_from_webhook : ℕ → String → ℕ → Db → Db
unfolding set_status
complete_from_webhook job_id conclusion now db = set_status job_id completed conclusion now db

-- WHERE job_id=? AND status='pending'
unfoldable pub pending_id : ℕ → Job → Bool
pending_id job_id row = has_id job_id row && is_pending row.status

unfoldable pub completed_row : String → ℕ → Job → Job
completed_row conclusion now row = record row {
  status = completed;
  result = some conclusion;
  updated_at = now;
  completed_at = some now;
}

unfoldable pub complete_pending_from_provider : ℕ → String → ℕ → Db → Db × Bool
unfolding completed_row pending_id update count
complete_pending_from_provider job_id conclusion now db = (
  record db { jobs = update (pending_id job_id) (completed_row conclusion now) db.jobs },
  count (pending_id job_id) db.jobs == 1,
)

-- ORDER BY created_at, job_id
unfoldable pub queued_before : Job → Job → Bool
queued_before a b =
    ltb a.created_at b.created_at || a.created_at == b.created_at && leb a.job_id b.job_id

unfoldable pub pending_jobs : Db → List Job
unfolding queued_before order_by select
pending_jobs db = order_by queued_before (select (λ row. is_pending row.status) db.jobs)

-- WHERE worker_name=? AND status IN ('claimed','running')
unfoldable pub works_on : String → Job → Bool
works_on worker_name row = row.worker_name == some worker_name && is_active row.status

unfoldable pub active_worker_job_count : String → Db → Result ℕ
unfolding works_on count
active_worker_job_count worker_name db =
    if worker_name == ""
    then raise (value_error "worker name is invalid")
    else ok (count (works_on worker_name) db.jobs)
