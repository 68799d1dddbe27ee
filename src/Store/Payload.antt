-- ===== src/Store/Payload.antt =====
-- What the queue reads from a webhook payload, and the repair of queue timestamps.
use qdev_runner_control_plan.Prelude.{
  ℕ, ◌*◌, String, Bool, true, false, ◌&&◌, Option, none, some, if◌then◌else◌, leb, ltb_ℤ, ℤ, pos,
  Exc, type_error, attribute_error, value_error, Result, ok, raise, ◌>>=◌,
}
use qdev_runner_control_plan.Json
use qdev_runner_control_plan.Json.{Json, Python, get, get_attr, to_int}
use qdev_runner_control_plan.Sql.{update}
use qdev_runner_control_plan.Store.Tables.{Status, pending, claimed, running, Job, Db}

-- `except (AttributeError, TypeError, ValueError)`
abbrev pub bad_payload : Exc → Bool
bad_payload attribute_error = true
bad_payload type_error = true
bad_payload (value_error _) = true
bad_payload _ = false

-- payload.get("workflow_job", {}).get(key)
unfoldable pub workflow_job_field : Json → String → Result Json
unfolding get
workflow_job_field payload key = do
  workflow_job ← get_attr payload "workflow_job" (Json.obj Json.end)
  get_attr workflow_job key Json.null

-- 2020-01-01T00:00:00Z
abbrev pub minimum_queue_timestamp : ℕ
minimum_queue_timestamp = 1577836800 * 1000000

abbrev pub is_valid_queue_timestamp : ℕ → Bool
is_valid_queue_timestamp value = leb minimum_queue_timestamp value

-- status IN ('pending', 'claimed', 'running')
abbrev in_queue : Status → Bool
in_queue pending = true
in_queue claimed = true
in_queue running = true
in_queue _ = false

-- The SELECT of `_repair_invalid_queue_timestamps`; a column is neither NULL nor NaN.
unfoldable pub needs_repair : Job → Bool
needs_repair row = in_queue row.status && leb row.created_at minimum_queue_timestamp

module _ (py : Python) where
  unfoldable pub workflow_job_attempt : Json → Result (Option ℤ)
  unfolding workflow_job_field to_int
  workflow_job_attempt payload =
      elim (do value ← workflow_job_field payload "run_attempt"; to_int py value) [
        | ok attempt ↦ ok (if ltb_ℤ (pos 0) attempt then some attempt else none)
        | raise e ↦ if bad_payload e then ok none else raise e
      ]

  valid_time : String → Option ℕ
  valid_time text = elim (py.time_of_text text) [
    | none ↦ none
    | some timestamp ↦ if is_valid_queue_timestamp timestamp then some timestamp else none
  ]

  text_time : Json → Option ℕ
  unfolding valid_time
  text_time (Json.str text) = valid_time text
  text_time _ = none

  unfoldable pub workflow_job_created_at : Json → Option ℕ
  unfolding text_time workflow_job_field
  workflow_job_created_at payload = elim (workflow_job_field payload "created_at") [
    | ok value ↦ text_time value
    | raise e ↦ none
  ]

  unfoldable pub repaired_at : ℕ → Job → ℕ
  unfolding workflow_job_created_at
  repaired_at now row = elim (workflow_job_created_at row.payload) [
    | some created ↦ created
    | none ↦ if is_valid_queue_timestamp row.updated_at then row.updated_at else now
  ]

  unfoldable pub repaired_row : ℕ → Job → Job
  unfolding repaired_at
  repaired_row now row = record row { created_at = repaired_at now row }

  -- The loop updates each selected row once, and `job_id` is the primary key.
  unfoldable pub repair_invalid_queue_timestamps : ℕ → Db → Db
  unfolding needs_repair repaired_row update
  repair_invalid_queue_timestamps now db = record db {
    jobs = update needs_repair (repaired_row now) db.jobs;
  }
