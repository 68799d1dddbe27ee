-- ===== src/Store/Transitions/Claiming.antt =====
-- The change of `jobs` that a claim makes, whether or not it hands out a job.
use qdev_runner_control_plan.Prelude.{
  ℕ, String, ◌≡◌, refl, subst, Bool, true, false, Option, none, some, List, arith, if◌then◌else◌,
  ok, >>=-eq-ok,
}
use qdev_runner_control_plan.Json.{Python}
use qdev_runner_control_plan.Store.Tables.{Job, Db}
use qdev_runner_control_plan.Store.Queue.{pending_id}
use qdev_runner_control_plan.Store.Workers.{worker_fenced}
use qdev_runner_control_plan.Store.Payload.{repair_invalid_queue_timestamps}
use qdev_runner_control_plan.Store.Claim.Request.{
  ClaimRequest, Evidence, check_request, revalidated_skips, gather_evidence,
}
use qdev_runner_control_plan.Store.Claim.{
  claimed_row, choose, assign, settle, claim_with, claim_repaired, claim,
}
use qdev_runner_control_plan.Store.Changes.{Change, same, rows, both}
use qdev_runner_control_plan.Store.Transitions.{IsSound-busy, repair-Change}

module _ (py : Python) (req : ClaimRequest) (now : ℕ) where
  assign-Change :
      (row : Job) (profile : String) (db : Db)
      → Change db.jobs (assign py req row profile now db).0.jobs
  unfolding assign claimed_row
  assign-Change row profile db =
      rows (pending_id row.job_id) (claimed_row py req profile now)
        (λ a _. record {
          job = refl;
          attempts = omega arith;
          infra_retries = omega arith;
          created_at = λ _. refl;
        })
        (λ a _ _ s _. IsSound-busy a (claimed_row py req profile now a) s refl refl)

  settle-Change :
      (db : Db) (chosen : Option (Job × String))
      → Change db.jobs (settle py req now db chosen).0.jobs
  unfolding settle
  settle-Change db none = same
  settle-Change db (some (row, profile)) = assign-Change row profile db

  claim_with-Change :
      (skip_ids : List ℕ) (db : Db) (evidence : Option Evidence) {db' : Db} {r : Option Job}
      → claim_with py req skip_ids now db evidence ≡ ok (db', r)
      → Change db.jobs db'.jobs
  unfolding claim_with
  claim_with-Change skip_ids db none {db'} h =
      let e : db ≡ db' = ground arith in subst (λ (d : Db). Change db.jobs d.jobs) e same
  claim_with-Change skip_ids db (some ev) {db'} h =
      let (chosen, _, k) = >>=-eq-ok (choose py req skip_ids ev now db) _ h in
      let e : (settle py req now db chosen).0 ≡ db' = ground arith in
      subst (λ (d : Db). Change db.jobs d.jobs) e (settle-Change db chosen)

  fenced-Change :
      (skip_ids : List ℕ) (db repaired : Db) (fenced : Bool) {db' : Db} {r : Option Job}
      → Change db.jobs repaired.jobs
      → (if fenced then ok (db, none) else claim_repaired py req skip_ids now repaired)
        ≡ ok (db', r)
      → Change db.jobs db'.jobs
  unfolding claim_repaired
  fenced-Change skip_ids db repaired true {db'} c h =
      let e : db ≡ db' = ground arith in subst (λ (d : Db). Change db.jobs d.jobs) e same
  fenced-Change skip_ids db repaired false c h =
      let (evidence, _, k) = >>=-eq-ok (gather_evidence py req now repaired) _ h in
      both c (claim_with-Change skip_ids repaired evidence k)

  pub claim-Change :
      (db : Db) {db' : Db} {r : Option Job}
      → claim py req now db ≡ ok (db', r)
      → Change db.jobs db'.jobs
  unfolding claim
  claim-Change db h =
      let (_, _, h₁) = >>=-eq-ok (check_request req) _ h in
      let (skip_ids, _, h₂) = >>=-eq-ok (revalidated_skips req) _ h₁ in
      fenced-Change skip_ids db (repair_invalid_queue_timestamps py now db)
        (worker_fenced db req.worker_name) (repair-Change py now db) h₂
