-- ===== src/Store/Tables.antt =====
-- The tables of src/qdev_runner/store.py that the job queue reads and writes. A `*_json` column
-- holds the value that it encodes. Times count microseconds, and ids are natural numbers.
use qdev_runner_control_plan.Prelude.{
  ℕ, ◌*◌, String, Bool, true, false, ◌&&◌, Option, List, ◌==◌, nat_eq, string_eq, option_eq, ℤ,
}
use qdev_runner_control_plan.Json.{Json, Fields}

-- A number of seconds, in the unit of the clock.
abbrev pub seconds : ℕ → ℕ
seconds n = n * 1000000

pub data Status : Type 0 where
  pending claimed running completed rejected failed : Status

abbrev pub is_pending : Status → Bool
is_pending pending = true
is_pending _ = false

abbrev pub is_claimed : Status → Bool
is_claimed claimed = true
is_claimed _ = false

abbrev pub is_failed : Status → Bool
is_failed failed = true
is_failed _ = false

-- status IN ('claimed','running')
abbrev pub is_active : Status → Bool
is_active claimed = true
is_active running = true
is_active _ = false

-- status in {"completed", "failed", "rejected"}
abbrev pub is_terminal : Status → Bool
is_terminal completed = true
is_terminal failed = true
is_terminal rejected = true
is_terminal _ = false

-- models.QueuedJob
pub record QueuedJob : Type 0 where
  pub delivery_id : String
  pub job_id : ℕ
  pub run_id : ℕ
  pub repository : String
  pub repository_id : ℕ
  pub installation_id : ℕ
  pub labels : List String
  pub head_sha : String
  pub head_branch : String
  pub payload : Json

-- A row of `jobs`.
pub record Job : Type 0 where
  pub job_id : ℕ
  pub delivery_id : String
  pub run_id : ℕ
  pub repository : String
  pub repository_id : ℕ
  pub installation_id : ℕ
  pub labels : List String
  pub head_sha : String
  pub head_branch : String
  pub payload : Json
  pub status : Status
  pub worker_name : Option String
  pub claim_scope_id : Option String
  pub profile : Option String
  pub created_at : ℕ
  pub updated_at : ℕ
  pub claimed_at : Option ℕ
  pub completed_at : Option ℕ
  pub result : Option String
  pub attempts : ℕ
  pub infra_retries : ℕ

pub data HoldState : Type 0 where
  active terminal : HoldState

abbrev pub is_active_hold : HoldState → Bool
is_active_hold active = true
is_active_hold terminal = false

-- A row of `offline_runner_holds`.
pub record Hold : Type 0 where
  pub job_id : ℕ
  pub provider_runner_id : ℕ
  pub runner_name : String
  pub labels : List String
  pub tuple_digest : String
  pub state : HoldState
  pub created_at : ℕ
  pub updated_at : ℕ

-- A row of `workers`.
pub record Worker : Type 0 where
  pub name : String
  pub profiles : List String
  pub active_jobs : ℤ
  pub last_seen : ℕ
  pub detail : Fields

pub data RecoveryState : Type 0 where
  prepared invoking completed released : RecoveryState

abbrev pub is_released : RecoveryState → Bool
is_released released = true
is_released _ = false

-- The columns of `worker_recoveries` that fence a worker.
pub record Recovery : Type 0 where
  pub idempotency_key : String
  pub worker_name : String
  pub state : RecoveryState

-- The database.
pub record Db : Type 0 where
  pub jobs : List Job
  pub holds : List Hold
  pub workers : List Worker
  pub recoveries : List Recovery

-- WHERE job_id=?
abbrev pub has_id : ℕ → Job → Bool
has_id k j = j.job_id == k

-- WHERE offline_runner_holds.job_id=? AND state='active'
abbrev pub holds_id : ℕ → Hold → Bool
holds_id k h = h.job_id == k && is_active_hold h.state
