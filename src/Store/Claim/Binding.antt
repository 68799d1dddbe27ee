-- ===== src/Store/Claim/Binding.antt =====
-- Claims under a v2 scope, and the tuples of their jobs.
use qdev_runner_control_plan.Prelude.{
  ℕ, String, ◌≡◌, ap, sym, ◌∙◌, Bool, true, ◌&&◌, Option, some, arith, ◌==◌, nat_eq, int_eq,
  string_eq, option_eq, ==→≡, ==-refl, In, any, any-eq-true, ℤ, ok, ◌>>=◌, >>=-eq-ok,
}
use qdev_runner_control_plan.Json.{Python}
use qdev_runner_control_plan.ClaimScope.{
  ScopedJob, ClaimScope, JobTuple, schema_v2, binds_job, permits,
}
use qdev_runner_control_plan.Store.Tables.{Job, Db}
use qdev_runner_control_plan.Store.Payload.{workflow_job_attempt}
use qdev_runner_control_plan.Store.Claim.Request.{ClaimRequest}
use qdev_runner_control_plan.Store.Claim.Selection.{tuple_of}
use qdev_runner_control_plan.Store.Claim.Scan.{scope_permits}
use qdev_runner_control_plan.Store.Claim.Outcome.{claim-Selected}
use qdev_runner_control_plan.Store.Claim.Facts.{
  selected_answer, selected_profile, selected_Eligible,
}
use qdev_runner_control_plan.Store.Claim.{claim, answer}

-- The scoped job names every field of the provider tuple.
pub record Binds (item : ScopedJob) (t : JobTuple) : Type 0 where
  pub job_id : item.job_id ≡ t.job_id
  pub repository : item.repository ≡ some t.repository
  pub run_id : item.run_id ≡ t.run_id
  pub attempt : item.attempt ≡ t.attempt
  pub exact_sha : item.exact_sha ≡ some t.head_sha
  pub profile : item.profile ≡ t.profile

six_tests :
    (a b c d e f : Bool)
    → (a && b && c && d && e && f) ≡ true
    → (a ≡ true) × (b ≡ true) × (c ≡ true) × (d ≡ true) × (e ≡ true) × (f ≡ true)
six_tests a b c d e f h = ground arith

pub binds_job-Binds : (t : JobTuple) (item : ScopedJob) → binds_job t item ≡ true → Binds item t
unfolding binds_job
binds_job-Binds t item h =
    let (a, b, c, d, e, f) =
      six_tests (item.job_id == t.job_id) (item.repository == some t.repository)
        (item.run_id == t.run_id) (item.attempt == t.attempt) (item.exact_sha == some t.head_sha)
        (item.profile == t.profile) h in
    record {
      job_id = ==→≡ item.job_id t.job_id a;
      repository = ==→≡ item.repository (some t.repository) b;
      run_id = ==→≡ item.run_id t.run_id c;
      attempt = ==→≡ item.attempt t.attempt d;
      exact_sha = ==→≡ item.exact_sha (some t.head_sha) e;
      profile = ==→≡ item.profile t.profile f;
    }

-- A v2 scope permits only tuples that one of its jobs names in full.
pub permits-Binds :
    (scope : ClaimScope) (t : JobTuple)
    → scope.schema ≡ schema_v2
    → permits scope t ≡ true
    → (item : ScopedJob) × In item scope.jobs × Binds item t
unfolding permits
permits-Binds scope t v2 h =
    let found : any (binds_job t) scope.jobs ≡ true = rw (v2, ==-refl schema_v2) at h in
    let (item, m, b) = any-eq-true (binds_job t) scope.jobs found in
    (item, m, binds_job-Binds t item b)

scope_permits-eq-true :
    (py : Python) (req : ClaimRequest) (scope : ClaimScope) (row : Job) (profile : String)
    → req.claim_scope ≡ some scope
    → scope_permits py req row profile ≡ ok true
    → (attempt : Option ℤ) × (workflow_job_attempt py row.payload ≡ ok attempt)
      × (permits scope (tuple_of row profile attempt) ≡ true)
unfolding scope_permits
scope_permits-eq-true py req scope row profile e h =
    let h₁ : (workflow_job_attempt py row.payload >>= λ attempt.
    ok (permits scope (tuple_of row profile attempt)))
        ≡ ok true =
      rw e at h in
    let (attempt, found, h₂) = >>=-eq-ok (workflow_job_attempt py row.payload) _ h₁ in
    (attempt, found, ground arith)

-- A claim under a v2 scope hands out only a job whose whole provider tuple one of the scope's jobs
-- names: id, repository, run, attempt, SHA and profile, with the attempt of the job's own payload.
pub claim_scope_bound :
    (py : Python) (req : ClaimRequest) (now : ℕ) (db : Db) {db' : Db} {job : Job}
    (scope : ClaimScope)
    → req.claim_scope ≡ some scope
    → scope.schema ≡ schema_v2
    → claim py req now db ≡ ok (db', some job)
    → (item : ScopedJob) × (profile : String) × (attempt : Option ℤ) × In item scope.jobs
      × (job.profile ≡ some profile)
      × (workflow_job_attempt py job.payload ≡ ok attempt)
      × Binds item (tuple_of job profile attempt)
unfolding answer tuple_of
claim_scope_bound py req now db {db'} {job} scope e v2 h =
    let s = claim-Selected py req now db h in
    let (attempt, found, permitted) =
      scope_permits-eq-true py req scope s.row s.profile e (selected_Eligible s).scope in
    let (item, m, binds) = permits-Binds scope (tuple_of s.row s.profile attempt) v2 permitted in
    let a = selected_answer s in
    (
      item,
      s.profile,
      attempt,
      m,
      selected_profile s,
      ap (λ (j : Job). workflow_job_attempt py j.payload) a ∙ found,
      record {
        job_id = binds.job_id ∙ sym (ap (λ (j : Job). j.job_id) a);
        repository = binds.repository ∙ sym (ap (λ (j : Job). some j.repository) a);
        run_id = binds.run_id ∙ sym (ap (λ (j : Job). some j.run_id) a);
        attempt = binds.attempt;
        exact_sha = binds.exact_sha ∙ sym (ap (λ (j : Job). some j.head_sha) a);
        profile = binds.profile;
      },
    )
