-- ===== src/Store/Claim/Effect.antt =====
-- The row that a claim takes, the job that it hands out, and two claims in a row.
use qdev_runner_control_plan.Prelude.{
  ℕ, String, ◌≡◌, ◌≢◌, ap, subst, sym, ◌∙◌, inl, inr, true, false, none, some, List, ◌==◌, nat_eq,
  Bool-cases, ==-refl, ==→≡, In, ok, ◌+◌, ◌&&◌, &&-elim, ◌⊎◌, if◌then◌else◌, refl,
}
use qdev_runner_control_plan.Json.{Python}
use qdev_runner_control_plan.Sql.{update, update-In, Pairwise, Pairwise-update}
use qdev_runner_control_plan.Store.Tables.{claimed, is_pending, Job, Db, has_id}
use qdev_runner_control_plan.Store.Queue.{pending_id}
use qdev_runner_control_plan.Store.Payload.{
  needs_repair, repaired_row, repair_invalid_queue_timestamps,
}
use qdev_runner_control_plan.Store.Changes.{queued}
use qdev_runner_control_plan.Store.Claim.Request.{ClaimRequest}
use qdev_runner_control_plan.Store.Claim.Outcome.{claim-Selected}
use qdev_runner_control_plan.Store.Claim.Facts.{
  repaired, selected_pending, selected_answer, selected_db,
}
use qdev_runner_control_plan.Store.Claim.{claim, answer, claimed_row}

-- What the worker `w` is handed for the row under the profile.
pub record HandsOut (w : String) (row : Job) (profile : String) (job : Job) : Type 0 where
  pub same : queued job ≡ queued row
  pub worker : job.worker_name ≡ some w
  pub profile_given : job.profile ≡ some profile
  pub attempts : job.attempts ≡ row.attempts + 1

-- The columns of a claimed row `b` that was `a`.
pub record IsTaken (req : ClaimRequest) (profile : String) (now : ℕ) (a b : Job) : Type 0 where
  pub same : queued b ≡ queued a
  pub status : b.status ≡ claimed
  pub worker : b.worker_name ≡ some req.worker_name
  pub scope :
      b.claim_scope_id ≡ (elim req.claim_scope [ none ↦ none | some scope ↦ some scope.scope_id ])
  pub profile_given : b.profile ≡ some profile
  pub claimed_at : b.claimed_at ≡ some now
  pub updated_at : b.updated_at ≡ now
  pub attempts : b.attempts ≡ a.attempts + 1
  pub infra_retries : b.infra_retries ≡ a.infra_retries
  pub created_at : b.created_at ≡ a.created_at
  pub completed_at : b.completed_at ≡ a.completed_at
  pub result : b.result ≡ a.result

-- A row before and after a claim of the job `k`.
abbrev pub TakenOrKept : ClaimRequest → String → ℕ → ℕ → Job → Job → Type 0
TakenOrKept req profile now k a b =
    ((a.job_id ≡ k) × (is_pending a.status ≡ true) × IsTaken req profile now a b)
    ⊎ (((has_id k a && is_pending a.status) ≡ false) × (b ≡ a))

taken_or_kept :
    (py : Python) (req : ClaimRequest) (profile : String) (now k : ℕ) (a : Job)
    → TakenOrKept req profile now k a
        (if pending_id k a then claimed_row py req profile now a else a)
unfolding pending_id claimed_row
taken_or_kept py req profile now k a = elim (Bool-cases (has_id k a && is_pending a.status)) [
  | inl t ↦
      let (key, p) = &&-elim (has_id k a) (is_pending a.status) t in
      rw t (
        inl (
          ==→≡ a.job_id k key,
          p,
          record {
            same = refl;
            status = refl;
            worker = refl;
            scope = refl;
            profile_given = refl;
            claimed_at = refl;
            updated_at = refl;
            attempts = refl;
            infra_retries = refl;
            created_at = refl;
            completed_at = refl;
            result = refl;
          },
        ))
  | inr f ↦ rw f (inr (refl, refl))
]

answered :
    (py : Python) (req : ClaimRequest) (row : Job) (profile : String)
    → HandsOut req.worker_name row profile (answer py req row profile)
unfolding answer
answered py req row profile = record {
  same = refl;
  worker = refl;
  profile_given = refl;
  attempts = refl;
}

-- A claim that hands out a job chose one row that was pending after the timestamp repair. It hands
-- out the job of that row, with the worker's name, the profile and one attempt more than the row
-- had. Of the repaired table, the pending row of that id becomes claimed by the worker, at that
-- time, under the profile and the scope of the request, with one attempt more; every other column,
-- row and table is unchanged.
pub claim_effect :
    (py : Python) (req : ClaimRequest) (now : ℕ) (db : Db) {db' : Db} {job : Job}
    → claim py req now db ≡ ok (db', some job)
    → (row : Job) × (profile : String) × In row (repaired py now db).jobs
      × (is_pending row.status ≡ true)
      × HandsOut req.worker_name row profile job
      × Pairwise (TakenOrKept req profile now row.job_id) (repaired py now db).jobs db'.jobs
      × (db'.holds ≡ db.holds)
      × (db'.workers ≡ db.workers)
      × (db'.recoveries ≡ db.recoveries)
unfolding repair_invalid_queue_timestamps
claim_effect py req now db {db'} {job} h =
    let s = claim-Selected py req now db h in
    let (m, pending) = selected_pending s in
    (
      s.row,
      s.profile,
      m,
      pending,
      subst (HandsOut req.worker_name s.row s.profile) (sym (selected_answer s))
          (answered py req s.row s.profile),
      subst
          (λ (d : Db).
            Pairwise (TakenOrKept req s.profile now s.row.job_id) (repaired py now db).jobs d.jobs)
          (sym (selected_db s))
          (Pairwise-update (pending_id s.row.job_id) (claimed_row py req s.profile now)
            (taken_or_kept py req s.profile now s.row.job_id) (repaired py now db).jobs),
      ap (λ (d : Db). d.holds) (selected_db s),
      ap (λ (d : Db). d.workers) (selected_db s),
      ap (λ (d : Db). d.recoveries) (selected_db s),
    )

-- The repair keeps ids and statuses.
repaired_origin :
    (py : Python) (now : ℕ) (db : Db) {row : Job}
    → In row (repaired py now db).jobs
    → (old : Job) × In old db.jobs × (row.job_id ≡ old.job_id) × (row.status ≡ old.status)
unfolding repair_invalid_queue_timestamps repaired_row
repaired_origin py now db {row} m =
    let (old, n, e) = update-In needs_repair (repaired_row py now) db.jobs m in
    elim (Bool-cases (needs_repair old)) [
      | inl t ↦
          let e' : row ≡ repaired_row py now old = rw t at e in
          (old, n, ap (λ (j : Job). j.job_id) e', ap (λ (j : Job). j.status) e')
      | inr f ↦
          let e' : row ≡ old = rw f at e in
          (old, n, ap (λ (j : Job). j.job_id) e', ap (λ (j : Job). j.status) e')
    ]

-- After a claim no pending row has the claimed id.
claimed_not_pending :
    (py : Python) (req : ClaimRequest) (profile : String) (k now : ℕ) (jobs : List Job) {row : Job}
    → In row (update (pending_id k) (claimed_row py req profile now) jobs)
    → row.job_id ≡ k
    → is_pending row.status ≡ false
unfolding pending_id claimed_row
claimed_not_pending py req profile k now jobs {row} m e =
    let (old, n, c) = update-In (pending_id k) (claimed_row py req profile now) jobs m in
    elim (Bool-cases (pending_id k old)) [
      | inl t ↦
          let c' : row ≡ claimed_row py req profile now old = rw t at c in
          rw (ap (λ (j : Job). is_pending j.status) c')
      | inr f ↦
          let c' : row ≡ old = rw f at c in
          let same : (old.job_id == k) ≡ true =
            rw (sym (ap (λ (j : Job). j.job_id) c') ∙ e) (==-refl k) in
          rw (ap (λ (j : Job). is_pending j.status) c') (rw same at f)
    ]

-- Two claims in a row, by whatever workers, never hand out the same job.
pub claim_exclusive :
    (py py' : Python) (req req' : ClaimRequest) (now now' : ℕ) (db : Db) {db₁ db₂ : Db} {a b : Job}
    → claim py req now db ≡ ok (db₁, some a)
    → claim py' req' now' db₁ ≡ ok (db₂, some b)
    → a.job_id ≢ b.job_id
unfolding answer
claim_exclusive py py' req req' now now' db {db₁} {db₂} {a} {b} h h' same =
    let s = claim-Selected py req now db h in
    let t = claim-Selected py' req' now' db₁ h' in
    let (m, pending) = selected_pending t in
    let (old, n, same_id, same_status) = repaired_origin py' now' db₁ m in
    let a_row : a.job_id ≡ s.row.job_id = ap (λ (j : Job). j.job_id) (selected_answer s) in
    let b_row : b.job_id ≡ t.row.job_id = ap (λ (j : Job). j.job_id) (selected_answer t) in
    let idle : is_pending old.status ≡ false =
      claimed_not_pending py req s.profile s.row.job_id now (repaired py now db).jobs
        (subst (λ (d : Db). In old d.jobs) (selected_db s) n)
        (sym same_id ∙ sym b_row ∙ sym same ∙ a_row) in
    cc (pending, ap is_pending same_status, idle)
