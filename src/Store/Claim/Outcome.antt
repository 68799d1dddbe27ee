-- ===== src/Store/Claim/Outcome.antt =====
-- What a call of `claim` that hands out a job went through.
use qdev_runner_control_plan.Prelude.{
  ℕ, String, ◌≡◌, refl, ap, ◌∙◌, Bool, true, false, Option, none, some, List, [], ◌∷◌, ◌++◌, arith,
  if◌then◌else◌, Result, ok, >>=-eq-ok, All,
}
use qdev_runner_control_plan.Json.{Python}
use qdev_runner_control_plan.Store.Tables.{Job, Db}
use qdev_runner_control_plan.Store.Queue.{pending_jobs}
use qdev_runner_control_plan.Store.Payload.{repair_invalid_queue_timestamps}
use qdev_runner_control_plan.Store.Workers.{worker_fenced}
use qdev_runner_control_plan.Store.Claim.Request.{
  ClaimRequest, Evidence, check_request, revalidated_skips, gather_evidence,
}
use qdev_runner_control_plan.Store.Claim.Selection.{scan_order}
use qdev_runner_control_plan.Store.Claim.Scan.{Verdict, skip, stop, take, consider, scan}
use qdev_runner_control_plan.Store.Claim.{
  fifo_heads, choose, settle, claim_with, assign, claim_repaired, claim,
}

none≢some {ℓ} : {A : Type ℓ} {a : A} → none ≡ some a → ⊥
none≢some h = cc

-- A scan that takes a row skipped all rows before it.
pub record Taken (verdict : Job → Result Verdict) (rows : List Job) (row : Job) (profile : String)
    : Type 0 where
  pub before : List Job
  pub after : List Job
  pub split : rows ≡ before ++ row ∷ after
  pub passed_over : All (λ (r : Job). verdict r ≡ ok skip) before
  pub taken : verdict row ≡ ok (take profile)

Taken-cons :
    (verdict : Job → Result Verdict) (r : Job) {rows : List Job} {row : Job} {profile : String}
    → verdict r ≡ ok skip
    → Taken verdict rows row profile
    → Taken verdict (r ∷ rows) row profile
Taken-cons verdict r e t = record {
  before = r ∷ t.before;
  after = t.after;
  split = ap (◌∷◌ r) t.split;
  passed_over = (e, t.passed_over);
  taken = t.taken;
}

-- One verdict, and the rest of the scan.
scan-step :
    (verdict : Job → Result Verdict) (r : Job) (rows : List Job) {row : Job} {profile : String}
    (v : Verdict)
    → verdict r ≡ ok v
    → (elim v [ skip ↦ scan verdict rows | stop ↦ ok none | take p ↦ ok (some (r, p)) ])
      ≡ ok (some (row, profile))
    → (scan verdict rows ≡ ok (some (row, profile)) → Taken verdict rows row profile)
    → Taken verdict (r ∷ rows) row profile
scan-step verdict r rows skip e h later = Taken-cons verdict r e (later h)
scan-step verdict r rows stop e h later = cc
scan-step verdict r rows {row} {profile} (take p) e h later =
    let same_row : r ≡ row = ground arith in
    let same_profile : p ≡ profile = ground arith in
    record {
      before = [];
      after = rows;
      split = ap (λ (x : Job). x ∷ rows) same_row;
      passed_over = tt;
      taken = rw (← same_row, ← same_profile) e;
    }

pub scan-Taken :
    (verdict : Job → Result Verdict) (rows : List Job) {row : Job} {profile : String}
    → scan verdict rows ≡ ok (some (row, profile))
    → Taken verdict rows row profile
unfolding scan
scan-Taken verdict [] h = cc
scan-Taken verdict (r ∷ rows) h =
    let (v, e, k) = >>=-eq-ok (verdict r) _ h in
    scan-step verdict r rows v e k (scan-Taken verdict rows)

-- The state and the choices of a claim that hands out `job`.
pub record Selected (py : Python) (req : ClaimRequest) (now : ℕ) (db db' : Db) (job : Job)
    : Type 0 where
  pub skip_ids : List ℕ
  pub ev : Evidence
  pub heads : Option (List (String × ℕ))
  pub row : Job
  pub profile : String
  pub fence_open : worker_fenced db req.worker_name ≡ false
  pub checked : check_request req ≡ ok tt
  pub revalidated : revalidated_skips req ≡ ok skip_ids
  pub evidence :
      gather_evidence py req now (repair_invalid_queue_timestamps py now db) ≡ ok (some ev)
  pub fifo :
      fifo_heads py req skip_ids
        (scan_order req.claim_scope (pending_jobs (repair_invalid_queue_timestamps py now db)))
      ≡ ok heads
  pub found :
      Taken
        (consider py req ev heads now (repair_invalid_queue_timestamps py now db))
        (scan_order req.claim_scope (pending_jobs (repair_invalid_queue_timestamps py now db)))
        row
        profile
  pub result :
      assign py req row profile now (repair_invalid_queue_timestamps py now db) ≡ (db', some job)

module _ (py : Python) (req : ClaimRequest) (now : ℕ) where
  -- What `choose` settles on was taken by a scan.
  choose-Taken :
      (skip_ids : List ℕ) (ev : Evidence) (db : Db) {row : Job} {profile : String}
      → choose py req skip_ids ev now db ≡ ok (some (row, profile))
      → (heads : Option (List (String × ℕ))) × (fifo_heads py req skip_ids
            (scan_order req.claim_scope (pending_jobs db))
          ≡ ok heads)
        × Taken
            (consider py req ev heads now db)
            (scan_order req.claim_scope (pending_jobs db))
            row
            profile
  unfolding choose
  choose-Taken skip_ids ev db h =
      let (heads, e, k) =
        >>=-eq-ok (fifo_heads py req skip_ids (scan_order req.claim_scope (pending_jobs db))) _ h in
      (heads, e, scan-Taken (consider py req ev heads now db) _ k)

  settle-eq-some :
      (db : Db) (chosen : Option (Job × String)) {db' : Db} {job : Job}
      → settle py req now db chosen ≡ (db', some job)
      → (row : Job) × (profile : String) × (chosen ≡ some (row, profile))
        × (assign py req row profile now db ≡ (db', some job))
  unfolding settle
  settle-eq-some db none h = absurd (none≢some (ap (λ (r : Db × Option Job). r.1) h))
  settle-eq-some db (some (row, profile)) h = (row, profile, refl, h)

  claim_with-eq-some :
      (skip_ids : List ℕ) (db : Db) (evidence : Option Evidence) {db' : Db} {job : Job}
      → claim_with py req skip_ids now db evidence ≡ ok (db', some job)
      → (ev : Evidence) × (row : Job) × (profile : String) × (evidence ≡ some ev)
        × (choose py req skip_ids ev now db ≡ ok (some (row, profile)))
        × (assign py req row profile now db ≡ (db', some job))
  unfolding claim_with
  claim_with-eq-some skip_ids db none h = ground arith
  claim_with-eq-some skip_ids db (some ev) h =
      let (chosen, e, k) = >>=-eq-ok (choose py req skip_ids ev now db) _ h in
      let (row, profile, c, a) = settle-eq-some db chosen (ground arith) in
      (ev, row, profile, refl, e ∙ ap ok c, a)

  claim_repaired-eq-some :
      (skip_ids : List ℕ) (db : Db) {db' : Db} {job : Job}
      → claim_repaired py req skip_ids now db ≡ ok (db', some job)
      → (ev : Evidence) × (row : Job) × (profile : String) × (gather_evidence py req now db
          ≡ ok (some ev))
        × (choose py req skip_ids ev now db ≡ ok (some (row, profile)))
        × (assign py req row profile now db ≡ (db', some job))
  unfolding claim_repaired
  claim_repaired-eq-some skip_ids db h =
      let (evidence, e, k) = >>=-eq-ok (gather_evidence py req now db) _ h in
      let (ev, row, profile, c, d, a) = claim_with-eq-some skip_ids db evidence k in
      (ev, row, profile, e ∙ ap ok c, d, a)

  fenced-eq-some :
      (skip_ids : List ℕ) (db repaired : Db) (fenced : Bool) {db' : Db} {job : Job}
      → (if fenced then ok (db, none) else claim_repaired py req skip_ids now repaired)
        ≡ ok (db', some job)
      → (fenced ≡ false) × (claim_repaired py req skip_ids now repaired ≡ ok (db', some job))
  fenced-eq-some skip_ids db repaired true h = absurd (ground arith)
  fenced-eq-some skip_ids db repaired false h = (refl, h)

  -- A claim that hands out a job passed its checks, its worker's fence and its scan.
  pub claim-Selected :
      (db : Db) {db' : Db} {job : Job}
      → claim py req now db ≡ ok (db', some job)
      → Selected py req now db db' job
  unfolding claim
  claim-Selected db h =
      let repaired = repair_invalid_queue_timestamps py now db in
      let (passed, checked, h₁) = >>=-eq-ok (check_request req) _ h in
      let (skip_ids, revalidated, h₂) = >>=-eq-ok (revalidated_skips req) _ h₁ in
      let (open_fence, h₃) =
        fenced-eq-some skip_ids db repaired (worker_fenced db req.worker_name) h₂ in
      let (ev, row, profile, evidence, chosen, result) =
        claim_repaired-eq-some skip_ids repaired h₃ in
      let (heads, fifo, found) = choose-Taken skip_ids ev repaired chosen in
      record {
        skip_ids = skip_ids;
        ev = ev;
        heads = heads;
        row = row;
        profile = profile;
        fence_open = open_fence;
        checked = checked;
        revalidated = revalidated;
        evidence = evidence;
        fifo = fifo;
        found = found;
        result = result;
      }
