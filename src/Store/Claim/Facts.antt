-- ===== src/Store/Claim/Facts.antt =====
-- Facts about a claim that hands out a job, read off its choices.
use qdev_runner_control_plan.Prelude.{
  ℕ, String, ◌≡◌, refl, ap, sym, inl, inr, Bool, true, false, Option, none, some, List, [], ◌∷◌,
  ◌++◌, arith, if◌then◌else◌, ◌==◌, nat_eq, string_eq, Bool-cases, In, here, there, select-In,
  count,
}
use qdev_runner_control_plan.Json.{Python}
use qdev_runner_control_plan.ClaimScope.{ClaimScope, schema_v2}
use qdev_runner_control_plan.Sql.{update, order_by-In}
use qdev_runner_control_plan.Store.Tables.{is_pending, Job, Db}
use qdev_runner_control_plan.Store.Queue.{pending_id, pending_jobs, queued_before}
use qdev_runner_control_plan.Store.Payload.{repair_invalid_queue_timestamps}
use qdev_runner_control_plan.Store.Claim.Request.{ClaimRequest}
use qdev_runner_control_plan.Store.Claim.Selection.{scan_order}
use qdev_runner_control_plan.Store.Claim.Outcome.{Selected}
use qdev_runner_control_plan.Store.Claim.Eligible.{Eligible, consider-Eligible}
use qdev_runner_control_plan.Store.Claim.{assign, answer, claimed_row}

-- The database after the repair of the queue timestamps, on which a claim decides.
abbrev pub repaired : Python → ℕ → Db → Db
repaired py now db = repair_invalid_queue_timestamps py now db

pub In-middle {ℓ} :
    {A : Type ℓ} (before : List A) (a : A) (after : List A) → In a (before ++ a ∷ after)
In-middle [] a after = here refl
In-middle (x ∷ before) a after = there (In-middle before a after)

-- The scan order is a reordering of the pending rows.
scan_order-In :
    (scope : Option ClaimScope) (rows : List Job) {row : Job}
    → In row (scan_order scope rows)
    → In row rows
unfolding scan_order
scan_order-In none rows m = m
scan_order-In (some scope) rows m = elim (Bool-cases (scope.schema == schema_v2)) [
  | inl v2 ↦ rw v2 at m
  | inr v1 ↦ order_by-In _ rows (rw v1 at m)
]

pub pending_jobs-In :
    (db : Db) {row : Job}
    → In row (pending_jobs db)
    → In row db.jobs × (is_pending row.status ≡ true)
unfolding pending_jobs
pending_jobs-In db m =
    select-In (λ row. is_pending row.status) db.jobs (order_by-In queued_before _ m)

assign-answer :
    (py : Python) (req : ClaimRequest) (row : Job) (profile : String) (now : ℕ) (db : Db) {db' : Db}
    {job : Job}
    → assign py req row profile now db ≡ (db', some job)
    → job ≡ answer py req row profile
unfolding assign
assign-answer py req row profile now db h =
    by_count (count (pending_id row.job_id) db.jobs == 1) (ap (λ (r : Db × Option Job). r.1) h)
  where
    by_count :
        {job' : Job} (b : Bool)
        → (if b then some (answer py req row profile) else none) ≡ some job'
        → job' ≡ answer py req row profile
    by_count true e = ground arith
    by_count false e = absurd (ground arith)

assign-jobs :
    (py : Python) (req : ClaimRequest) (row : Job) (profile : String) (now : ℕ) (db : Db) {db' : Db}
    {job : Job}
    → assign py req row profile now db ≡ (db', some job)
    → db'
      ≡ record db { jobs = update (pending_id row.job_id) (claimed_row py req profile now) db.jobs }
unfolding assign
assign-jobs py req row profile now db h = sym (ap (λ (r : Db × Option Job). r.0) h)

module _ {py : Python} {req : ClaimRequest} {now : ℕ} {db db' : Db} {job : Job}
    (s : Selected py req now db db' job) where
  pub selected_scanned : In s.row (scan_order req.claim_scope (pending_jobs (repaired py now db)))
  selected_scanned = rw s.found.split (In-middle s.found.before s.row s.found.after)

  -- The row was pending in the repaired table.
  pub selected_pending : In s.row (repaired py now db).jobs × (is_pending s.row.status ≡ true)
  selected_pending =
      pending_jobs-In (repaired py now db) (scan_order-In req.claim_scope _ selected_scanned)

  -- What is handed out is the row, with its worker, profile and attempt.
  pub selected_answer : job ≡ answer py req s.row s.profile
  selected_answer = assign-answer py req s.row s.profile now (repaired py now db) s.result

  pub selected_profile : job.profile ≡ some s.profile
  unfolding answer
  selected_profile = ap (λ (j : Job). j.profile) selected_answer

  pub selected_db : db' ≡ record (repaired py now db) {
    jobs =
        update
          (pending_id s.row.job_id)
          (claimed_row py req s.profile now)
          (repaired py now db).jobs;
  }
  selected_db = assign-jobs py req s.row s.profile now (repaired py now db) s.result

  pub selected_Eligible : Eligible py req s.ev s.heads now (repaired py now db) s.row s.profile
  selected_Eligible =
      consider-Eligible py req s.ev s.heads now (repaired py now db) s.row s.found.taken
