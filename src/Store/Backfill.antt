-- ===== src/Store/Backfill.antt =====
-- `backfill_offline_runner_hold_attempt` of src/qdev_runner/store.py, which binds a hold made before
-- attempts were stored to the attempt that the provider proved. The keys of the rewritten payload
-- are sorted there; their order is not read anywhere.
pub mod Bound
use qdev_runner_control_plan.Prelude.{
  ℕ, String, ◌≡◌, Bool, true, false, ◌&&◌, not, Option, none, some, List, if◌then◌else◌, ◌==◌, ◌!=◌,
  nat_eq, string_eq, option_eq, int_eq, ℤ, pos, Result, ok, raise, refuse, ◌>>=◌, ◌>>◌, value_error,
  find, count, lower,
}
use qdev_runner_control_plan.Json
use qdev_runner_control_plan.Json.{Json, Fields, Python, get_attr, is_dict, put}
use qdev_runner_control_plan.Sql.{update}
use qdev_runner_control_plan.Store.Tables.{
  Job, Hold, is_claimed, is_active_hold, Db, has_id, holds_id,
}
use qdev_runner_control_plan.Store.Payload.{workflow_job_attempt}
use qdev_runner_control_plan.Store.Holds.{
  RunnerIdentity, HoldTuple, hold_tuple, claimed_id, hold_of, list_beq,
}

-- The tuple that the provider verified, besides the job's id, the attempt and the runner.
pub record Verified : Type 0 where
  pub repository : String
  pub run_id : ℕ
  pub head_sha : String
  pub profile : String

unfoldable pub still_matches : Verified → RunnerIdentity → Job → Hold → Bool
unfolding lower
still_matches v r row h =
    is_claimed row.status
    && row.worker_name == none
    && row.claim_scope_id == none
    && row.repository == v.repository
    && row.run_id == v.run_id
    && lower row.head_sha == lower v.head_sha
    && lower (elim row.profile [ none ↦ "" | some p ↦ p ]) == lower v.profile
    && h.provider_runner_id == r.provider_runner_id
    && h.runner_name == r.runner_name

-- workflow_job["run_attempt"] = attempt; payload["workflow_job"] = workflow_job
unfoldable pub with_attempt : ℕ → Json → Json
unfolding put
with_attempt attempt (Json.obj payload) =
    let workflow_job = Json.get_or payload "workflow_job" Json.null in
    elim workflow_job [
      | Json.obj d ↦
          Json.obj
            (put payload "workflow_job" (Json.obj (put d "run_attempt" (Json.int (pos attempt)))))
      | _ ↦ Json.obj payload
    ]
with_attempt attempt v = v

-- WHERE job_id=? AND state='active'
unfoldable pub active_hold_of : ℕ → Hold → Bool
active_hold_of k h = h.job_id == k && is_active_hold h.state

-- existing_attempt is not None and existing_attempt != attempt
abbrev pub conflicting : Option ℤ → ℕ → Bool
conflicting none attempt = false
conflicting (some z) attempt = z != pos attempt

module _ (py : Python) (digest : HoldTuple → String) where
  -- The two writes.
  unfoldable pub write_attempt :
      ℕ → ℕ → RunnerIdentity → ℕ → Db → Job → Option ℤ → Result (Db × Bool)
  unfolding claimed_id active_hold_of with_attempt hold_tuple update count
  write_attempt k attempt r now db row (some existing) = ok (db, true)
  write_attempt k attempt r now db row none = do
    refuse (count (claimed_id k) db.jobs != 1)
        (value_error "offline runner hold changed during attempt reconciliation")
    refuse (count (active_hold_of k) db.holds != 1)
        (value_error "offline runner hold changed during attempt reconciliation")
    ok (
      record db {
        jobs =
            update (claimed_id k)
              (λ (j : Job). record j {
                payload = with_attempt attempt row.payload;
                updated_at = now;
              })
              db.jobs;
        holds =
            update (active_hold_of k)
              (λ (h : Hold). record h {
                tuple_digest = digest (hold_tuple row (pos attempt) r);
                updated_at = now;
              })
              db.holds;
      },
      true,
    )

  -- What follows for an active hold and its job.
  unfoldable pub backfill_row :
      ℕ → ℕ → Verified → RunnerIdentity → ℕ → Db → Job → Hold → Result (Db × Bool)
  unfolding still_matches workflow_job_attempt write_attempt
  backfill_row k attempt v r now db row h = do
    refuse (not (still_matches v r row h))
        (value_error "offline runner hold no longer matches the verified tuple")
    workflow_job ← get_attr row.payload "workflow_job" Json.null
    refuse
        (not (
          list_beq row.labels r.labels
          && list_beq h.labels r.labels
          && is_dict row.payload
          && is_dict workflow_job))
        (value_error "offline runner hold labels or payload differ from verified tuple")
    existing ← workflow_job_attempt py row.payload
    refuse (conflicting existing attempt)
        (value_error "offline runner hold attempt conflicts with the provider tuple")
    write_attempt k attempt r now db row existing

  unfoldable pub backfill_offline_runner_hold_attempt :
      ℕ → ℕ → Verified → RunnerIdentity → ℕ → Db → Result (Db × Bool)
  unfolding hold_of find backfill_row
  backfill_offline_runner_hold_attempt k attempt v r now db = do
    refuse (attempt == 0) (value_error "offline runner attempt is invalid")
    elim (hold_of k db.holds) [
      | none ↦ ok (db, false)
      | some h ↦ elim (find (has_id k) db.jobs) [
        | none ↦ ok (db, false)
        | some row ↦
            if is_active_hold h.state
            then backfill_row k attempt v r now db row h
            else ok (db, false)
      ]
    ]
