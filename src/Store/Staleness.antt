-- ===== src/Store/Staleness.antt =====
-- `stale_jobs` and `release_stale_job`, whose conditions on a row are written differently.
use qdev_runner_control_plan.Prelude.{
  ℕ, String, ◌≡◌, refl, sym, ◌∙◌, ap, Bool, true, false, ◌&&◌, ◌||◌, not, none, some, List, [], ◌∷◌,
  arith, ◌==◌, nat_eq, string_eq, int_eq, ℤ, pos, negsuc, ltb_ℤ, find, map, member, select, In,
  here, there, All, All-In, Bool-cases, inl, inr, ==-refl, ==→≡, &&-elim, select-In, Option-cases,
  any-In, any-eq-true, find-eq-some, find-eq-none, In-select, take_text,
}
use qdev_runner_control_plan.Sql.{order_by-In}
use qdev_runner_control_plan.Store.Tables.{pending, Job, Worker, Db, has_id}
use qdev_runner_control_plan.Store.Queue.{job, queued_before}
use qdev_runner_control_plan.Store.Release.{
  worker_of, before_cutoff, worker_gone, is_stale, stale_jobs, busy_workers, releasable, releases,
  released_row, release_stale_job,
}
use qdev_runner_control_plan.Store.Invariant.{Unique}
use qdev_runner_control_plan.Store.Changes.{queued}
use qdev_runner_control_plan.Store.Lookup.{has_id_refl, find-update, count-one, count-eq-one-beq}

-- The names of the workers are a primary key, and their counts of active jobs are not negative.
pub record WorkersValid (workers : List Worker) : Type 0 where
  pub names : (a b : Worker) → In a workers → In b workers → a.name ≡ b.name → a ≡ b
  pub counts : (a : Worker) → In a workers → ltb_ℤ a.active_jobs (pos 0) ≡ false

-- A worker's name is found exactly where the worker is.
worker_found :
    (db : Db) (w : Worker)
    → WorkersValid db.workers
    → In w db.workers
    → worker_of db w.name ≡ some w
unfolding worker_of
worker_found db w v m = elim (Option-cases (find (λ (x : Worker). x.name == w.name) db.workers)) [
  | inl e ↦ absurd (
      let t =
        All-In (λ (x : Worker). (x.name == w.name) ≡ false)
          (find-eq-none (λ (x : Worker). x.name == w.name) db.workers e) m in
      let s = ==-refl w.name in cc)
  | inr (x, e) ↦
      let (n, t) = find-eq-some (λ (y : Worker). y.name == w.name) db.workers e in
      rw e (ap some (v.names x w n m (==→≡ x.name w.name t)))
]

In-names : (ws : List Worker) {w : Worker} → In w ws → In w.name (map (λ (x : Worker). x.name) ws)
In-names [] m = elim m [ ]
In-names (x ∷ ws) (here e) = here (ap (λ (y : Worker). y.name) e)
In-names (x ∷ ws) (there m) = there (In-names ws m)

names-In :
    (ws : List Worker) {name : String}
    → In name (map (λ (x : Worker). x.name) ws)
    → (w : Worker) × In w ws × (name ≡ w.name)
names-In [] m = elim m [ ]
names-In (x ∷ ws) (here e) = (x, here refl, e)
names-In (x ∷ ws) (there m) = let (w, n, e) = names-In ws m in (w, there n, e)

abbrev is_busy : ℕ → ℕ → Worker → Bool
is_busy now timeout w = not (before_cutoff now timeout w.last_seen) && ltb_ℤ (pos 0) w.active_jobs

-- A name in the SELECT of the busy workers is that of a busy worker.
busy-name :
    (db : Db) (now timeout : ℕ) (name : String)
    → member name (busy_workers db now timeout) ≡ true
    → (w : Worker) × In w db.workers × (is_busy now timeout w ≡ true) × (name ≡ w.name)
unfolding member busy_workers
busy-name db now timeout name h =
    let (found, m, t) = any-eq-true (λ x. x == name) (busy_workers db now timeout) h in
    let (w, n, e) = names-In (select (is_busy now timeout) db.workers) m in
    let (o, b) = select-In (is_busy now timeout) db.workers n in
    (w, o, b, sym (==→≡ found name t) ∙ e)

name-busy :
    (db : Db) (now timeout : ℕ) (w : Worker)
    → In w db.workers
    → is_busy now timeout w ≡ true
    → member w.name (busy_workers db now timeout) ≡ true
unfolding member busy_workers
name-busy db now timeout w m b =
    any-In (λ x. x == w.name) (In-names _ (In-select (is_busy now timeout) m b)) (==-refl w.name)

busy-worker :
    (db : Db) (now timeout : ℕ) (w : Worker)
    → WorkersValid db.workers
    → In w db.workers
    → member w.name (busy_workers db now timeout) ≡ is_busy now timeout w
busy-worker db now timeout w v m = elim (Bool-cases (is_busy now timeout w)) [
  | inl b ↦ name-busy db now timeout w m b ∙ sym b
  | inr f ↦ elim (Bool-cases (member w.name (busy_workers db now timeout))) [
    | inr g ↦ g ∙ sym f
    | inl t ↦
        let (other, n, b, e) = busy-name db now timeout w.name t in
        let b' : is_busy now timeout w ≡ true = rw (v.names w other m n e) b in
        absurd (let impossible : true ≡ false = sym b' ∙ f in cc)
  ]
]

-- The two conditions on one worker.
gone-or-idle :
    (before : Bool) (active : ℤ)
    → ltb_ℤ active (pos 0) ≡ false
    → (before || active == pos 0) ≡ not (not before && ltb_ℤ (pos 0) active)
gone-or-idle before (pos n) h = ground arith
gone-or-idle before (negsuc n) h = ground arith

named_gone :
    (db : Db) (now timeout : ℕ) (name : String)
    → WorkersValid db.workers
    → (elim (worker_of db name) [
      | none ↦ true
      | some w ↦ before_cutoff now timeout w.last_seen || w.active_jobs == pos 0
    ])
      ≡ not (member name (busy_workers db now timeout))
unfolding worker_of
named_gone db now timeout name v =
    elim (Option-cases (find (λ (w : Worker). w.name == name) db.workers)) [
      | inr (w, e) ↦
          let (m, t) = find-eq-some (λ (x : Worker). x.name == name) db.workers e in
          let same : w.name ≡ name = ==→≡ w.name name t in
          rw (e, ← same, busy-worker db now timeout w v m)
            (gone-or-idle (before_cutoff now timeout w.last_seen) w.active_jobs (v.counts w m))
      | inl e ↦ rw e (absent (find-eq-none (λ (x : Worker). x.name == name) db.workers e))
    ]
  where
    absent :
        All (λ (x : Worker). (x.name == name) ≡ false) db.workers
        → true ≡ not (member name (busy_workers db now timeout))
    absent h = elim (Bool-cases (member name (busy_workers db now timeout))) [
      | inr f ↦ rw f refl
      | inl t ↦
          let (w, m, _, same) = busy-name db now timeout name t in
          let f : (w.name == name) ≡ false =
            All-In (λ (x : Worker). (x.name == name) ≡ false) h m in
          absurd (let s : (name == name) ≡ false = rw (sym same) at f in let r = ==-refl name in cc)
    ]

-- `stale_jobs` and `release_stale_job` agree: with valid workers, and at one clock reading, the
-- WHERE clause of the one holds of a row exactly if the guard of the other does.
pub stale_agrees :
    (db : Db) (now timeout : ℕ) (row : Job)
    → WorkersValid db.workers
    → is_stale db now timeout row ≡ releasable db now timeout row
unfolding is_stale releasable worker_gone
stale_agrees db now timeout row v = elim (Option-cases row.worker_name) [
  | inl e ↦ rw e refl
  | inr (name, e) ↦ rw (e, named_gone db now timeout name v) refl
]

-- The row `b` is the row `a` back in the queue since `now`, with the reason.
pub record IsBack (reason : String) (now : ℕ) (a b : Job) : Type 0 where
  pub same : queued b ≡ queued a
  pub status : b.status ≡ pending
  pub worker : b.worker_name ≡ none
  pub scope : b.claim_scope_id ≡ none
  pub profile : b.profile ≡ none
  pub claimed_at : b.claimed_at ≡ none
  pub updated_at : b.updated_at ≡ now
  pub result : b.result ≡ some (take_text 4000 reason)
  pub created_at : b.created_at ≡ a.created_at
  pub attempts : b.attempts ≡ a.attempts
  pub infra_retries : b.infra_retries ≡ a.infra_retries

released_row-IsBack :
    (reason : String) (now : ℕ) (row : Job) → IsBack reason now row (released_row reason now row)
unfolding released_row
released_row-IsBack reason now row = record {
  same = refl;
  status = refl;
  worker = refl;
  scope = refl;
  profile = refl;
  claimed_at = refl;
  updated_at = refl;
  result = refl;
  created_at = refl;
  attempts = refl;
  infra_retries = refl;
}

-- Every job that `stale_jobs` lists can be released at that time: with distinct job ids and valid
-- workers, `release_stale_job` reports success, and the job is pending, without worker, scope,
-- profile and claim time, with the given reason and update time, and with its old payload, creation
-- time, attempts and infrastructure retries.
pub stale_released :
    (reason : String) (timeout now now' : ℕ) (db : Db) (row : Job)
    → Unique db.jobs
    → WorkersValid db.workers
    → In row (stale_jobs timeout now db)
    → ((release_stale_job row.job_id reason timeout now now' db).1 ≡ true)
      × (later : Job) × (job row.job_id (release_stale_job row.job_id reason timeout now now' db).0
          ≡ some later)
      × IsBack reason now' row later
unfolding stale_jobs release_stale_job job releases
stale_released reason timeout now now' db row u v m =
    let (n, stale) = select-In (is_stale db now timeout) db.jobs (order_by-In queued_before _ m) in
    let free : releasable db now timeout row ≡ true =
      sym (stale_agrees db now timeout row v) ∙ stale in
    let meets : releases db row.job_id now timeout row ≡ true = rw (has_id_refl row, free) refl in
    (
      count-eq-one-beq _ (
          count-one (releases db row.job_id now timeout) db.jobs row
            (λ a t.
              ==→≡ a.job_id row.job_id
                (&&-elim (has_id row.job_id a) (releasable db now timeout a) t).0)
            u n meets),
      released_row reason now' row,
      find-update (releases db row.job_id now timeout) (released_row reason now') db.jobs row
            (λ a. unfold released_row in refl) u n
          ∙ rw meets refl,
      released_row-IsBack reason now' row,
    )
