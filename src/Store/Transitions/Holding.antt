-- ===== src/Store/Transitions/Holding.antt =====
-- The changes of `jobs` that a runner hold and its release make.
use qdev_runner_control_plan.Prelude.{
  ℕ, String, ◌≡◌, refl, sym, ◌∙◌, ap, subst, Bool, true, false, ◌&&◌, ◌||◌, not, Option, none, some,
  arith, ◌==◌, ◌!=◌, nat_eq, string_eq, ok, refuse, >>=-eq-ok, value_error, any, find, leb,
  text_length, ℤ, refuse-eq-ok, &&-elim, count, Bool-cases, inl, inr, ◌⊎◌,
}
use qdev_runner_control_plan.Json.{Python}
use qdev_runner_control_plan.Store.Tables.{
  Status, pending, claimed, running, completed, rejected, failed, is_claimed, is_pending, Job, Hold,
  is_active_hold, Db, has_id, holds_id,
}
use qdev_runner_control_plan.Store.Payload.{workflow_job_attempt}
use qdev_runner_control_plan.Store.Holds.{
  RunnerIdentity, HoldTuple, is_identity, hold_tuple, claimed_id, parked_row, hold_of, hold_message,
  insert_hold, new_hold, hold_exact_offline_runner, claimed_job, required_attempt, release_active,
  release_hold, recoverable, list_beq, reissue, release_offline_runner_hold_for_jit_reissue,
}
use qdev_runner_control_plan.Store.Changes.{Change, same, rows, kept}
use qdev_runner_control_plan.Store.Transitions.{reissue-Change}

claimed-not-pending : (status : Status) → is_claimed status ≡ true → is_pending status ≡ false
claimed-not-pending pending h = cc
claimed-not-pending claimed h = refl
claimed-not-pending running h = refl
claimed-not-pending completed h = refl
claimed-not-pending rejected h = refl
claimed-not-pending failed h = refl

module _ (py : Python) (digest : HoldTuple → String) where
  insert_hold-Change :
      (row : Job) (attempt : ℤ) (r : RunnerIdentity) (now : ℕ) (db : Db)
      → Change db.jobs (insert_hold py digest row attempt r now db).jobs
  unfolding insert_hold parked_row claimed_id
  insert_hold-Change row attempt r now db =
      rows (claimed_id row.job_id) (parked_row (hold_message py digest r) now)
        (λ a _. kept a (parked_row (hold_message py digest r) now a) refl refl refl refl)
        (λ a _ _ s t. record {
          retries = s.retries;
          unclaimed = λ p. absurd (
              let n =
                claimed-not-pending a.status
                  (&&-elim (has_id row.job_id a) (is_claimed a.status) t).1 in
              let impossible : true ≡ false = sym p ∙ n in cc);
        })

  new_hold-Change :
      (row : Job) (attempt : ℤ) (r : RunnerIdentity) (now : ℕ) (db : Db) (existing : Option Hold)
      {db' : Db} {h : Hold}
      → new_hold py digest row attempt r now db existing ≡ ok (db', h)
      → Change db.jobs db'.jobs
  unfolding new_hold
  new_hold-Change row attempt r now db (some existing) {db'} e =
      let (_, _, k) =
        >>=-eq-ok
          (refuse
            (existing.tuple_digest != digest (hold_tuple row attempt r)
              || not (is_active_hold existing.state))
            (value_error "offline runner hold conflicts with immutable tuple"))
          _ e in
      let same_db : db ≡ db' = ground arith in
      subst (λ (d : Db). Change db.jobs d.jobs) same_db same
  new_hold-Change row attempt r now db none {db'} e =
      let (_, _, k) =
        >>=-eq-ok
          (refuse (any (λ h. h.provider_runner_id == r.provider_runner_id) db.holds)
            (value_error "provider runner identity is already held"))
          _ e in
      let (_, _, l) =
        >>=-eq-ok
          (refuse (count (claimed_id row.job_id) db.jobs != 1)
            (value_error "offline runner hold lost its active claim"))
          _ k in
      let inserted : insert_hold py digest row attempt r now db ≡ db' = ground arith in
      subst (λ (d : Db). Change db.jobs d.jobs) inserted (insert_hold-Change row attempt r now db)

  -- A hold that returns passed every check.
  pub hold-eq-ok :
      (k : ℕ) (r : RunnerIdentity) (now : ℕ) (db : Db) {db' : Db} {h : Hold}
      → hold_exact_offline_runner py digest k r now db ≡ ok (db', h)
      → (row : Job) × (attempt : ℤ) × ((is_identity r && leb (text_length r.runner_name) 255)
          ≡ true)
        × (claimed_job k db ≡ ok row)
        × (workflow_job_attempt py row.payload ≡ ok (some attempt))
        × (list_beq r.labels row.labels ≡ true)
        × (new_hold py digest row attempt r now db (hold_of row.job_id db.holds) ≡ ok (db', h))
  unfolding hold_exact_offline_runner required_attempt
  hold-eq-ok k r now db {db'} {h} e =
      let (_, c₁, e₁) =
        >>=-eq-ok
          (refuse (not (is_identity r && leb (text_length r.runner_name) 255))
            (value_error "offline runner identity is invalid"))
          _ e in
      let (row, c₂, e₂) = >>=-eq-ok (claimed_job k db) _ e₁ in
      let (found, c₃, e₃) = >>=-eq-ok (workflow_job_attempt py row.payload) _ e₂ in
      let (attempt, c₄, e₄) = >>=-eq-ok (required_attempt found) _ e₃ in
      let (_, c₅, e₅) =
        >>=-eq-ok
          (refuse (not (list_beq r.labels row.labels))
            (value_error "offline runner labels differ from queued labels"))
          _ e₄ in
      (
        row,
        attempt,
        not-false (is_identity r && leb (text_length r.runner_name) 255) (refuse-eq-ok _ _ c₁),
        c₂,
        c₃ ∙ ap ok (required found c₄),
        not-false (list_beq r.labels row.labels) (refuse-eq-ok _ _ c₅),
        e₅,
      )
    where
      not-false : (b : Bool) → not b ≡ false → b ≡ true
      not-false b h' = ground arith

      required :
          (found : Option ℤ) {attempt : ℤ}
          → required_attempt found ≡ ok attempt
          → found ≡ some attempt
      required none h' = absurd (ground arith)
      required (some a) h' = ground arith

  pub hold-Change :
      (k : ℕ) (r : RunnerIdentity) (now : ℕ) (db : Db) {db' : Db} {h : Hold}
      → hold_exact_offline_runner py digest k r now db ≡ ok (db', h)
      → Change db.jobs db'.jobs
  hold-Change k r now db e =
      let (row, attempt, _, _, _, _, n) = hold-eq-ok k r now db e in
      new_hold-Change row attempt r now db (hold_of row.job_id db.holds) n

-- A release that passes its checks commits its changes.
pub release_active-eq-ok :
    (k : ℕ) (r : RunnerIdentity) (reason : String) (now : ℕ) (db : Db) (h : Hold) (row : Job)
    {db' : Db} {b : Bool}
    → release_active k r reason now db h row ≡ ok (db', b)
    → (recoverable r row h ≡ true)
      × (list_beq h.labels r.labels ≡ true)
      × (db' ≡ reissue k reason now db)
      × (b ≡ true)
unfolding release_active
release_active-eq-ok k r reason now db h row e =
    let (_, c, e₁) = >>=-eq-ok (refuse (not (recoverable r row h)) _) _ e in
    let (_, d, e₂) =
      >>=-eq-ok (refuse (not (list_beq row.labels r.labels && list_beq h.labels r.labels)) _) _
        e₁ in
    let (_, _, e₃) = >>=-eq-ok (refuse (count (holds_id k) db.holds != 1) _) _ e₂ in
    let (_, _, e₄) = >>=-eq-ok (refuse (count (claimed_id k) db.jobs != 1) _) _ e₃ in
    let labels =
      not-false (list_beq row.labels r.labels && list_beq h.labels r.labels) (refuse-eq-ok _ _ d) in
    (
      not-false (recoverable r row h) (refuse-eq-ok _ _ c),
      (&&-elim (list_beq row.labels r.labels) (list_beq h.labels r.labels) labels).1,
      ground arith,
      ground arith,
    )
  where
    not-false : (b : Bool) → not b ≡ false → b ≡ true
    not-false b h' = ground arith

release_hold-cases :
    (k : ℕ) (r : RunnerIdentity) (reason : String) (now : ℕ) (db : Db) (h : Option Hold)
    (row : Option Job) {db' : Db} {b : Bool}
    → release_hold k r reason now db h row ≡ ok (db', b)
    → ((db' ≡ db) × (b ≡ false)) ⊎ ((db' ≡ reissue k reason now db) × (b ≡ true))
unfolding release_hold
release_hold-cases k r reason now db none row e = inl (ground arith)
release_hold-cases k r reason now db (some h) none e = inl (ground arith)
release_hold-cases k r reason now db (some h) (some row) {db'} {b} e =
    elim (Bool-cases (is_active_hold h.state)) [
      | inr f ↦ let e' : ok (db, false) ≡ ok (db', b) = rw f at e in inl (ground arith)
      | inl t ↦
          let (_, _, f, g) = release_active-eq-ok k r reason now db h row (rw t at e) in inr (f, g)
    ]

-- A release that returns left the database or committed its changes.
pub release-cases :
    (k : ℕ) (r : RunnerIdentity) (reason : String) (now : ℕ) (db : Db) {db' : Db} {b : Bool}
    → release_offline_runner_hold_for_jit_reissue k r reason now db ≡ ok (db', b)
    → ((db' ≡ db) × (b ≡ false)) ⊎ ((db' ≡ reissue k reason now db) × (b ≡ true))
unfolding release_offline_runner_hold_for_jit_reissue
release-cases k r reason now db e =
    let (_, _, e₁) =
      >>=-eq-ok (refuse (not (is_identity r)) (value_error "offline runner identity is invalid")) _
        e in
    release_hold-cases k r reason now db (hold_of k db.holds) (find (has_id k) db.jobs) e₁

pub release-Change :
    (k : ℕ) (r : RunnerIdentity) (reason : String) (now : ℕ) (db : Db) {db' : Db} {b : Bool}
    → release_offline_runner_hold_for_jit_reissue k r reason now db ≡ ok (db', b)
    → Change db.jobs db'.jobs
release-Change k r reason now db e = elim (release-cases k r reason now db e) [
  | inl (e₂, _) ↦ subst (λ (d : Db). Change db.jobs d.jobs) (sym e₂) same
  | inr (e₂, _) ↦
      subst (λ (d : Db). Change db.jobs d.jobs) (sym e₂) (reissue-Change k reason now db)
]
