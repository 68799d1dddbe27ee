-- ===== src/Store/Reissue.antt =====
-- `release_offline_runner_hold_for_jit_reissue` and the later calls of the queue.
use qdev_runner_control_plan.Prelude.{
  ℕ, String, ◌≡◌, refl, ◌∙◌, Bool, true, false, ◌&&◌, not, Option, none, some, List, [], ◌∷◌, arith,
  if◌then◌else◌, ◌==◌, nat_eq, string_eq, option_eq, find, Bool-cases, inl, inr, find-eq-some, ok,
  find-++-some, subst, sym, refuse, refuse-eq-ok, >>=-eq-ok, value_error,
}
use qdev_runner_control_plan.Json.{Python}
use qdev_runner_control_plan.Sql.{update}
use qdev_runner_control_plan.Store.Tables.{
  is_claimed, Job, Hold, is_active_hold, Db, has_id, holds_id,
}
use qdev_runner_control_plan.Store.Queue.{end_hold}
use qdev_runner_control_plan.Store.Holds.{
  RunnerIdentity, HoldTuple, is_identity, hold_of, recoverable, list_beq, reissue, release_hold,
  release_offline_runner_hold_for_jit_reissue, terminal_offline_runner_hold_matches,
}
use qdev_runner_control_plan.Store.Steps
use qdev_runner_control_plan.Store.Steps.{Reach}
use qdev_runner_control_plan.Store.Beside
use qdev_runner_control_plan.Store.Beside.{HoldChange, Step-Beside}
use qdev_runner_control_plan.Store.Transitions.Holding.{release_active-eq-ok}

-- The hold of the job after it ended.
hold_of-end :
    (k now : ℕ) (holds : List Hold) {h : Hold}
    → hold_of k holds ≡ some h
    → hold_of k (update (holds_id k) (end_hold now) holds)
      ≡ some (if holds_id k h then end_hold now h else h)
unfolding hold_of update find end_hold
hold_of-end k now [] e = absurd (ground arith)
hold_of-end k now (x ∷ holds) {h} e = elim (Bool-cases (x.job_id == k)) [
  | inl t ↦
      let same : some x ≡ some h = rw t at e in
      let same' : x ≡ h = ground arith in rw (← same', kept (holds_id k x) t) refl
  | inr f ↦ rw (kept' (holds_id k x) f) (hold_of-end k now holds (rw f at e))
]
  where
    kept :
        (b : Bool) → (x.job_id == k) ≡ true → ((if b then end_hold now x else x).job_id == k) ≡ true
    kept true t = t
    kept false t = t

    kept' :
        (b : Bool)
        → (x.job_id == k) ≡ false
        → ((if b then end_hold now x else x).job_id == k) ≡ false
    kept' true t = t
    kept' false t = t

-- A release that reports success found an active hold of that identity, with its job.
released-hold :
    (k : ℕ) (r : RunnerIdentity) (reason : String) (now : ℕ) (db : Db) (h : Option Hold)
    (row : Option Job) {db' : Db}
    → release_hold k r reason now db h row ≡ ok (db', true)
    → (found : Hold) × (job : Job) × (h ≡ some found)
      × (row ≡ some job)
      × (is_active_hold found.state ≡ true)
      × (recoverable r job found ≡ true)
      × (list_beq found.labels r.labels ≡ true)
      × (db' ≡ reissue k reason now db)
unfolding release_hold
released-hold k r reason now db none row e = absurd (ground arith)
released-hold k r reason now db (some h) none e = absurd (ground arith)
released-hold k r reason now db (some h) (some row) {db'} e =
    elim (Bool-cases (is_active_hold h.state)) [
      | inr f ↦ absurd (let e' : ok (db, false) ≡ ok (db', true) = rw f at e in ground arith)
      | inl t ↦
          let (rec, labels, same, _) = release_active-eq-ok k r reason now db h row (rw t at e) in
          (h, row, refl, refl, t, rec, labels, same)
    ]

same_runner :
    (r : RunnerIdentity) (row : Job) (h : Hold)
    → recoverable r row h ≡ true
    → ((h.provider_runner_id == r.provider_runner_id) ≡ true)
      × ((h.runner_name == r.runner_name) ≡ true)
unfolding recoverable
same_runner r row h e =
    last_two (is_claimed row.status) (row.worker_name == none) (row.claim_scope_id == none)
      (h.provider_runner_id == r.provider_runner_id) (h.runner_name == r.runner_name) e
  where
    last_two : (a b c d f : Bool) → (a && b && c && d && f) ≡ true → (d ≡ true) × (f ≡ true)
    last_two a b c d f e' = ground arith

-- The hold that a key finds is not active, so ending a hold leaves it.
past :
    (k j now : ℕ) (holds : List Hold) {h : Hold}
    → is_active_hold h.state ≡ false
    → hold_of k holds ≡ some h
    → hold_of k (update (holds_id j) (end_hold now) holds) ≡ some h
unfolding hold_of update find end_hold
past k j now [] over e = absurd (ground arith)
past k j now (x ∷ holds) {h} over e = elim (Bool-cases (x.job_id == k)) [
  | inl t ↦
      let same : some x ≡ some h = rw t at e in
      let same' : x ≡ h = ground arith in
      let idle : holds_id j x ≡ false = rw (same', over) (unmet (h.job_id == j)) in
      rw (idle, t) same
  | inr f ↦ rw (kept (holds_id j x) f) (past k j now holds over (rw f at e))
]
  where
    unmet : (b : Bool) → (b && false) ≡ false
    unmet b = ground arith

    kept :
        (b : Bool)
        → (x.job_id == k) ≡ false
        → ((if b then end_hold now x else x).job_id == k) ≡ false
    kept true t = t
    kept false t = t

-- An ended hold stays as it is, and stays the hold of its job.
hold_of-change :
    (k : ℕ) {hs later : List Hold} {h : Hold}
    → HoldChange hs later
    → is_active_hold h.state ≡ false
    → hold_of k hs ≡ some h
    → hold_of k later ≡ some h
unfolding hold_of
hold_of-change k Beside.same over e = e
hold_of-change k (Beside.ended {hs} j now) over e = past k j now hs over e
hold_of-change k (Beside.added {hs} x) over e =
    find-++-some (λ (h : Hold). h.job_id == k) hs (x ∷ []) e

module _ (py : Python) (digest : HoldTuple → String) where
  hold_of-Reach :
      (k : ℕ) {a b : Db} {h : Hold}
      → Reach py digest a b
      → is_active_hold h.state ≡ false
      → hold_of k a.holds ≡ some h
      → hold_of k b.holds ≡ some h
  hold_of-Reach k (Steps.done db) over e = e
  hold_of-Reach k (Steps.then_step r s) over e =
      hold_of-change k (Step-Beside py digest s).holds over (hold_of-Reach k r over e)

-- A release that reports success leaves a hold that is terminal and of that runner.
released-terminal :
    (k : ℕ) (r : RunnerIdentity) (reason : String) (now : ℕ) (db : Db) {db' : Db}
    → release_offline_runner_hold_for_jit_reissue k r reason now db ≡ ok (db', true)
    → (h : Hold) × (is_identity r ≡ true)
      × (hold_of k db'.holds ≡ some h)
      × (is_active_hold h.state ≡ false)
      × ((h.provider_runner_id == r.provider_runner_id) ≡ true)
      × ((h.runner_name == r.runner_name) ≡ true)
      × (list_beq h.labels r.labels ≡ true)
unfolding release_offline_runner_hold_for_jit_reissue reissue end_hold
released-terminal k r reason now db {db'} e =
    let (_, identity, e₁) =
      >>=-eq-ok (refuse (not (is_identity r)) (value_error "offline runner identity is invalid")) _
        e in
    let (h, row, held, found, alive, rec, labels, same) =
      released-hold k r reason now db (hold_of k db.holds) (find (has_id k) db.jobs) e₁ in
    let checked = refuse-eq-ok (not (is_identity r)) _ identity in
    let (m, keyed) = find-eq-some (λ (x : Hold). x.job_id == k) db.holds (unfold hold_of in held) in
    let ended : hold_of k (update (holds_id k) (end_hold now) db.holds) ≡ some (end_hold now h) =
      hold_of-end k now db.holds held ∙ rw (keyed, alive) refl in
    let (runner, name) = same_runner r row h rec in
    (
      end_hold now h,
      ground arith,
      subst (λ (d : Db). hold_of k d.holds ≡ some (end_hold now h)) (sym same) ended,
      refl,
      runner,
      name,
      labels,
    )

unreleased :
    (k : ℕ) (r : RunnerIdentity) (reason : String) (now : ℕ) (db : Db) (h : Hold) (row : Option Job)
    → is_active_hold h.state ≡ false
    → release_hold k r reason now db (some h) row ≡ ok (db, false)
unfolding release_hold
unreleased k r reason now db h none over = refl
unreleased k r reason now db h (some row) over = rw over refl

-- A hold is released once. After a release that reports success and any sequence of the queue's
-- steps, the hold is terminal for that runner, which is what the next claim's setup asks for, and a
-- release of the job with the same identity reports that there is nothing to release and changes
-- nothing.
pub reissue_once :
    (py : Python) (digest : HoldTuple → String) (k : ℕ) (r : RunnerIdentity)
    (reason reason' : String) (now now' : ℕ) (db db₂ : Db) {db₁ : Db}
    → release_offline_runner_hold_for_jit_reissue k r reason now db ≡ ok (db₁, true)
    → Reach py digest db₁ db₂
    → (terminal_offline_runner_hold_matches k r db₂ ≡ true)
      × (release_offline_runner_hold_for_jit_reissue k r reason' now' db₂ ≡ ok (db₂, false))
unfolding release_offline_runner_hold_for_jit_reissue terminal_offline_runner_hold_matches
reissue_once py digest k r reason reason' now now' db db₂ e calls =
    let (h, identity, held, over, runner, name, labels) = released-terminal k r reason now db e in
    let still = hold_of-Reach py digest k calls over held in
    (
      rw (still, terminal_offline_runner_hold_matches, over, runner, name) labels,
      rw (identity, still, release_offline_runner_hold_for_jit_reissue)
          (unreleased k r reason' now' db₂ h (find (has_id k) db₂.jobs) over),
    )
