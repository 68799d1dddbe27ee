-- ===== src/Store/Fenced.antt =====
-- Claims of a worker that has a recovery (`_worker_is_recovery_fenced` of src/qdev_runner/store.py).
use qdev_runner_control_plan.Prelude.{
  ℕ, String, ◌≡◌, refl, subst, sym, true, false, ◌&&◌, not, Option, none, arith, ◌==◌, string_eq,
  ==-refl, In, any-In, ok, >>=-eq-ok,
}
use qdev_runner_control_plan.Json.{Python}
use qdev_runner_control_plan.Store.Tables.{is_released, Job, Recovery, Db}
use qdev_runner_control_plan.Store.Holds.{HoldTuple}
use qdev_runner_control_plan.Store.Workers.{worker_fenced}
use qdev_runner_control_plan.Store.Claim.Request.{ClaimRequest, check_request, revalidated_skips}
use qdev_runner_control_plan.Store.Claim.{claim}
use qdev_runner_control_plan.Store.Steps.{Reach}
use qdev_runner_control_plan.Store.Beside.{Reach-recoveries}

recovery-fenced :
    (db : Db) (rec : Recovery) (name : String)
    → In rec db.recoveries
    → rec.worker_name ≡ name
    → is_released rec.state ≡ false
    → worker_fenced db name ≡ true
unfolding worker_fenced
recovery-fenced db rec name m same held =
    any-In (λ (r : Recovery). r.worker_name == name && not (is_released r.state)) m
      (rw (same, held, ==-refl name) refl)

-- A worker with a recovery that is not released gets nothing, whatever steps of the queue, none of
-- which is a call of the recovery itself, came in between: a claim of the worker that returns hands
-- out no job and leaves the database as it was, the timestamps included.
pub claim_fenced :
    (py py' : Python) (digest : HoldTuple → String) (req : ClaimRequest) (now : ℕ) (rec : Recovery)
    (db db₁ : Db) {db₂ : Db} {r : Option Job}
    → In rec db.recoveries
    → rec.worker_name ≡ req.worker_name
    → is_released rec.state ≡ false
    → Reach py digest db db₁
    → claim py' req now db₁ ≡ ok (db₂, r)
    → (db₂ ≡ db₁) × (r ≡ none)
unfolding claim
claim_fenced py py' digest req now rec db db₁ {db₂} {r} m same held calls h =
    let (_, _, h₁) = >>=-eq-ok (check_request req) _ h in
    let (skip_ids, _, h₂) = >>=-eq-ok (revalidated_skips req) _ h₁ in
    let kept : In rec db₁.recoveries = subst (In rec) (sym (Reach-recoveries py digest calls)) m in
    let f = recovery-fenced db₁ rec req.worker_name kept same held in
    let h₃ : ok (db₁, none) ≡ ok (db₂, r) = rw f at h₂ in ground arith
