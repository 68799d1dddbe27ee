-- ===== src/Store/Beside.antt =====
-- The tables `offline_runner_holds` and `worker_recoveries` over the calls of the queue.
use qdev_runner_control_plan.Prelude.{
  ℕ, String, ◌≡◌, refl, sym, ◌∙◌, subst, Bool, true, false, ◌||◌, not, Option, none, some, List, [],
  ◌∷◌, ◌++◌, arith, ◌==◌, ◌!=◌, nat_eq, string_eq, ok, refuse, >>=-eq-ok, value_error, any, find, ℤ,
  count, Bool-cases, Option-cases, inl, inr, ltb, if◌then◌else◌,
}
use qdev_runner_control_plan.Json.{Python}
use qdev_runner_control_plan.Sql.{update}
use qdev_runner_control_plan.Store.Tables.{
  Status, completed, is_active, is_terminal, Job, Hold, is_active_hold, Db, has_id, holds_id,
}
use qdev_runner_control_plan.Store.Queue.{
  conflicts, enqueue, end_hold, set_status, fail_if_active, max_infrastructure_retries,
  transition_infrastructure, requeue_infrastructure, complete_from_webhook,
  complete_pending_from_provider,
}
use qdev_runner_control_plan.Store.Release.{release_stale_job, release_failed_job}
use qdev_runner_control_plan.Store.Workers.{worker_fenced, heartbeat}
use qdev_runner_control_plan.Store.Payload.{repair_invalid_queue_timestamps}
use qdev_runner_control_plan.Store.Holds.{
  RunnerIdentity, HoldTuple, hold_tuple, claimed_id, hold_of, fresh_hold, insert_hold, new_hold,
  hold_exact_offline_runner, reissue, release_offline_runner_hold_for_jit_reissue,
}
use qdev_runner_control_plan.Store.Claim.Request.{
  ClaimRequest, Evidence, check_request, revalidated_skips, gather_evidence,
}
use qdev_runner_control_plan.Store.Claim.{choose, assign, settle, claim_with, claim_repaired, claim}
use qdev_runner_control_plan.Store.Steps
use qdev_runner_control_plan.Store.Steps.{Step, Reach}
use qdev_runner_control_plan.Store.Transitions.Holding.{hold-eq-ok, release-cases}

-- One UPDATE or INSERT of the table of holds, or none.
pub data HoldChange : List Hold → List Hold → Type 0 where
  same : {hs : List Hold} → HoldChange hs hs
  ended : {hs : List Hold} (k now : ℕ) → HoldChange hs (update (holds_id k) (end_hold now) hs)
  added : {hs : List Hold} (h : Hold) → HoldChange hs (hs ++ h ∷ [])

-- The two tables after a call.
pub record Beside (a b : Db) : Type 0 where
  pub holds : HoldChange a.holds b.holds
  pub recoveries : b.recoveries ≡ a.recoveries

untouched : (a b : Db) → b.holds ≡ a.holds → b.recoveries ≡ a.recoveries → Beside a b
untouched a b h r = record { holds = subst (HoldChange a.holds) (sym h) same; recoveries = r }

equal : (a b : Db) → a ≡ b → Beside a b
equal a b e = subst (Beside a) e (untouched a a refl refl)

set_status-Beside :
    (k : ℕ) (status : Status) (result : String) (now : ℕ) (db : Db)
    → Beside db (set_status k status result now db)
unfolding set_status
set_status-Beside k status result now db = record {
  holds = by_case (is_terminal status);
  recoveries = refl;
}
  where
    by_case :
        (b : Bool)
        → HoldChange db.holds (if b then update (holds_id k) (end_hold now) db.holds else db.holds)
    by_case true = ended k now
    by_case false = same

transition_infrastructure-Beside :
    (k : ℕ) (reason : String) (now : ℕ) (db : Db)
    → Beside db (transition_infrastructure k reason now db).0
unfolding transition_infrastructure
transition_infrastructure-Beside k reason now db = elim (Option-cases (find (has_id k) db.jobs)) [
  | inl e ↦ rw (e, transition_infrastructure) (untouched db db refl refl)
  | inr (row, e) ↦ elim (Bool-cases (is_active row.status)) [
    | inr idle ↦ rw (e, idle, transition_infrastructure) (untouched db db refl refl)
    | inl busy ↦ elim (Bool-cases (ltb row.infra_retries max_infrastructure_retries)) [
      | inl left ↦ rw (e, busy, left, transition_infrastructure) (untouched db _ refl refl)
      | inr spent ↦ rw (e, busy, spent, transition_infrastructure) (untouched db _ refl refl)
    ]
  ]
]

-- A claim leaves both tables.
module _ (py : Python) (req : ClaimRequest) (now : ℕ) where
  settle-Beside :
      (db : Db) (chosen : Option (Job × String)) → Beside db (settle py req now db chosen).0
  unfolding settle assign
  settle-Beside db none = untouched db db refl refl
  settle-Beside db (some (row, profile)) = untouched db _ refl refl

  claim_with-Beside :
      (skip_ids : List ℕ) (db : Db) (evidence : Option Evidence) {db' : Db} {r : Option Job}
      → claim_with py req skip_ids now db evidence ≡ ok (db', r)
      → Beside db db'
  unfolding claim_with
  claim_with-Beside skip_ids db none {db'} h = let e : db ≡ db' = ground arith in equal db db' e
  claim_with-Beside skip_ids db (some ev) {db'} h =
      let (chosen, _, k) = >>=-eq-ok (choose py req skip_ids ev now db) _ h in
      let e : (settle py req now db chosen).0 ≡ db' = ground arith in
      subst (Beside db) e (settle-Beside db chosen)

  fenced-Beside :
      (skip_ids : List ℕ) (db : Db) (fenced : Bool) {db' : Db} {r : Option Job}
      → (if fenced
          then ok (db, none)
          else claim_repaired py req skip_ids now (repair_invalid_queue_timestamps py now db))
        ≡ ok (db', r)
      → Beside db db'
  unfolding claim_repaired repair_invalid_queue_timestamps
  fenced-Beside skip_ids db true {db'} h = let e : db ≡ db' = ground arith in equal db db' e
  fenced-Beside skip_ids db false h =
      let (evidence, _, k) =
        >>=-eq-ok (gather_evidence py req now (repair_invalid_queue_timestamps py now db)) _ h in
      let b = claim_with-Beside skip_ids (repair_invalid_queue_timestamps py now db) evidence k in
      record { holds = b.holds; recoveries = b.recoveries }

  claim-Beside :
      (db : Db) {db' : Db} {r : Option Job} → claim py req now db ≡ ok (db', r) → Beside db db'
  unfolding claim
  claim-Beside db h =
      let (_, _, h₁) = >>=-eq-ok (check_request req) _ h in
      let (skip_ids, _, h₂) = >>=-eq-ok (revalidated_skips req) _ h₁ in
      fenced-Beside skip_ids db (worker_fenced db req.worker_name) h₂

module _ (py : Python) (digest : HoldTuple → String) where
  new_hold-Beside :
      (row : Job) (attempt : ℤ) (r : RunnerIdentity) (now : ℕ) (db : Db) (existing : Option Hold)
      {db' : Db} {h : Hold}
      → new_hold py digest row attempt r now db existing ≡ ok (db', h)
      → Beside db db'
  unfolding new_hold insert_hold
  new_hold-Beside row attempt r now db (some existing) {db'} e =
      let (_, _, k) =
        >>=-eq-ok
          (refuse
            (existing.tuple_digest != digest (hold_tuple row attempt r)
              || not (is_active_hold existing.state))
            (value_error "offline runner hold conflicts with immutable tuple"))
          _ e in
      let same_db : db ≡ db' = ground arith in equal db db' same_db
  new_hold-Beside row attempt r now db none {db'} e =
      let (_, _, k) =
        >>=-eq-ok
          (refuse (any (λ h. h.provider_runner_id == r.provider_runner_id) db.holds)
            (value_error "provider runner identity is already held"))
          _ e in
      let (_, _, l) =
        >>=-eq-ok
          (refuse (count (claimed_id row.job_id) db.jobs != 1)
            (value_error "offline runner hold lost its active claim"))
          _ k in
      let inserted : insert_hold py digest row attempt r now db ≡ db' = ground arith in
      subst (Beside db) inserted
        (record { holds = added (fresh_hold py digest row attempt r now); recoveries = refl })

  hold-Beside :
      (k : ℕ) (r : RunnerIdentity) (now : ℕ) (db : Db) {db' : Db} {h : Hold}
      → hold_exact_offline_runner py digest k r now db ≡ ok (db', h)
      → Beside db db'
  hold-Beside k r now db e =
      let (row, attempt, _, _, _, _, n) = hold-eq-ok py digest k r now db e in
      new_hold-Beside row attempt r now db (hold_of row.job_id db.holds) n

  release-Beside :
      (k : ℕ) (r : RunnerIdentity) (reason : String) (now : ℕ) (db : Db) {db' : Db} {b : Bool}
      → release_offline_runner_hold_for_jit_reissue k r reason now db ≡ ok (db', b)
      → Beside db db'
  unfolding reissue
  release-Beside k r reason now db {db'} e = elim (release-cases k r reason now db e) [
    | inl (s, _) ↦ equal db db' (sym s)
    | inr (s, _) ↦ subst (Beside db) (sym s) (record { holds = ended k now; recoveries = refl })
  ]

  pub Step-Beside : {a b : Db} → Step py digest a b → Beside a b
  unfolding enqueue requeue_infrastructure complete_from_webhook complete_pending_from_provider
      fail_if_active release_stale_job release_failed_job heartbeat
  Step-Beside (Steps.enqueued job now db) = elim (Bool-cases (any (conflicts job) db.jobs)) [
    | inl t ↦ rw t (untouched db db refl refl)
    | inr f ↦ rw f (untouched db _ refl refl)
  ]
  Step-Beside (Steps.was_claimed req now {db} {db'} h) = claim-Beside py req now db h
  Step-Beside (Steps.status_set k status result now db h) = set_status-Beside k status result now db
  Step-Beside (Steps.completed_by_webhook k conclusion now db) =
      set_status-Beside k completed conclusion now db
  Step-Beside (Steps.completed_by_provider k conclusion now db) = untouched db _ refl refl
  Step-Beside (Steps.failed_active k result now db) = untouched db _ refl refl
  Step-Beside (Steps.requeued k reason now db) = transition_infrastructure-Beside k reason now db
  Step-Beside (Steps.stale_released k reason timeout checked now db) = untouched db _ refl refl
  Step-Beside (Steps.failed_released k reason expected now db) = untouched db _ refl refl
  Step-Beside (Steps.beaten name profiles active ids detail now db) = untouched db _ refl refl
  Step-Beside (Steps.held k r now {db} {db'} h) = hold-Beside k r now db h
  Step-Beside (Steps.reissued k r reason now {db} {db'} h) = release-Beside k r reason now db h

  -- No step writes the recoveries.
  pub Reach-recoveries : {a b : Db} → Reach py digest a b → b.recoveries ≡ a.recoveries
  Reach-recoveries (Steps.done db) = refl
  Reach-recoveries (Steps.then_step r s) = (Step-Beside s).recoveries ∙ Reach-recoveries r
