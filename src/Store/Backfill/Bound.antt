-- ===== src/Store/Backfill/Bound.antt =====
-- The attempt of a job after `backfill_offline_runner_hold_attempt`.
use qdev_runner_control_plan.Prelude.{
  ℕ, String, ◌≡◌, refl, sym, ◌∙◌, ap, subst, Bool, true, false, ◌&&◌, not, Option, none, some, List,
  [], ◌∷◌, ◌==◌, ◌!=◌, nat_eq, string_eq, option_eq, int_eq, ltb_ℤ, ℤ, pos, Result, ok, find,
  find-eq-some, count, arith, passed, >>=-eq-ok, ok-eq-ok, Option-cases, Bool-cases, inl, inr,
  ==-refl, ==→≡,
}
use qdev_runner_control_plan.Json
use qdev_runner_control_plan.Json.{Json, Fields, Python, get, get_attr, is_dict, put, to_int}
use qdev_runner_control_plan.Sql.{update}
use qdev_runner_control_plan.Store.Tables.{Job, Hold, Db, has_id, is_claimed, is_active_hold}
use qdev_runner_control_plan.Store.Payload.{workflow_job_attempt, workflow_job_field}
use qdev_runner_control_plan.Store.Holds.{RunnerIdentity, HoldTuple, claimed_id, hold_of, list_beq}
use qdev_runner_control_plan.Store.Backfill.{
  Verified, still_matches, with_attempt, active_hold_of, conflicting, write_attempt, backfill_row,
  backfill_offline_runner_hold_attempt,
}

get-put : (d : Fields) (k : String) (v : Json) → get (put d k v) k ≡ some v
unfolding get put
get-put Json.end k v = rw (==-refl k) refl
get-put (Json.field j w d) k v = elim (Bool-cases (j == k)) [
  | inl y ↦ rw (y, ==-refl k) refl
  | inr n ↦ rw (n, n) (get-put d k v)
]

attempt-written :
    (py : Python) (attempt : ℕ) (d w : Fields)
    → (attempt == 0) ≡ false
    → workflow_job_attempt py
        (Json.obj (put d "workflow_job" (Json.obj (put w "run_attempt" (Json.int (pos attempt))))))
      ≡ ok (some (pos attempt))
unfolding workflow_job_attempt workflow_job_field to_int
attempt-written py attempt d w positive =
    let above : ltb_ℤ (pos 0) (pos attempt) ≡ true = ground arith in
    rw
      (
        workflow_job_attempt,
        workflow_job_field,
        get-put d "workflow_job" (Json.obj (put w "run_attempt" (Json.int (pos attempt)))),
        get-put w "run_attempt" (Json.int (pos attempt)),
        above,
      )
      refl

with_attempt-read :
    (py : Python) (attempt : ℕ) (payload workflow_job : Json)
    → (attempt == 0) ≡ false
    → get_attr payload "workflow_job" Json.null ≡ ok workflow_job
    → is_dict workflow_job ≡ true
    → workflow_job_attempt py (with_attempt attempt payload) ≡ ok (some (pos attempt))
unfolding with_attempt
with_attempt-read py attempt (Json.obj d) (Json.obj w) positive e h =
    let same : Json.get_or d "workflow_job" Json.null ≡ Json.obj w = ok-eq-ok e in
    rw (with_attempt, same) (attempt-written py attempt d w positive)
with_attempt-read py attempt payload workflow_job positive e h = cc

module _ {ℓ} {A : Type ℓ} where
  find-update_row :
      (p q : A → Bool) (f : A → A) {x : A} (xs : List A)
      → ((y : A) → q y ≡ true → p y ≡ true)
      → ((y : A) → p y ≡ true → p (f y) ≡ true)
      → find p xs ≡ some x
      → q x ≡ true
      → find p (update q f xs) ≡ some (f x)
  unfolding find update
  find-update_row p q f [] sub keep h hx = cc
  find-update_row p q f {x} (y ∷ ys) sub keep h hx = elim (Bool-cases (p y)) [
    | inl t ↦
        let same : y ≡ x = ground (arith, t, rw t at h) in
        let hy : q y ≡ true = subst (λ (z : A). q z ≡ true) (sym same) hx in
        rw (hy, keep y t) (ap (λ z. some (f z)) same)
    | inr n ↦
        let hy : q y ≡ false = elim (Bool-cases (q y)) [
          | inl u ↦ absurd (let v = sub y u in cc)
          | inr g ↦ g
        ] in
        rw (hy, n) (find-update_row p q f ys sub keep (rw n at h) hx)
  ]

same_claim : (k : ℕ) (j : Job) → claimed_id k j ≡ true → has_id k j ≡ true
unfolding claimed_id
same_claim k j h = ground arith

is_claim :
    (k : ℕ) (j : Job) → has_id k j ≡ true → is_claimed j.status ≡ true → claimed_id k j ≡ true
unfolding claimed_id
is_claim k j h c = rw (h, c) refl

write-Bound :
    (py : Python) (digest : HoldTuple → String) (k attempt : ℕ) (r : RunnerIdentity) (now : ℕ)
    (db : Db) (row : Job) (existing : Option ℤ) {db' : Db} {b : Bool}
    → find (has_id k) db.jobs ≡ some row
    → is_claimed row.status ≡ true
    → workflow_job_attempt py row.payload ≡ ok existing
    → conflicting existing attempt ≡ false
    → workflow_job_attempt py (with_attempt attempt row.payload) ≡ ok (some (pos attempt))
    → write_attempt py digest k attempt r now db row existing ≡ ok (db', b)
    → (job : Job) × (find (has_id k) db'.jobs ≡ some job)
      × (workflow_job_attempt py job.payload ≡ ok (some (pos attempt)))
unfolding write_attempt
write-Bound py digest k attempt r now db row (some z) {db'} {b} found claimed known agrees read h =
    let same : db ≡ db' = ap (λ (x : Db × Bool). x.0) (ok-eq-ok h) in
    let bound : z ≡ pos attempt = ==→≡ z (pos attempt) (ground arith) in
    (
      row,
      ap (λ (d : Db). find (has_id k) d.jobs) (sym same) ∙ found,
      known ∙ ap (λ x. ok (some x)) bound,
    )
write-Bound py digest k attempt r now db row none {db'} {b} found claimed known agrees read h =
    let (_, h₁) = passed (count (claimed_id k) db.jobs != 1) _ _ h in
    let (_, h₂) = passed (count (active_hold_of k) db.holds != 1) _ _ h₁ in
    let change : Job → Job =
      λ j. record j { payload = with_attempt attempt row.payload; updated_at = now } in
    let same : update (claimed_id k) change db.jobs ≡ db'.jobs =
      ap (λ (x : Db × Bool). x.0.jobs) (ok-eq-ok h₂) in
    let (_, own) = find-eq-some (has_id k) db.jobs found in
    (
      change row,
      ap (find (has_id k)) (sym same)
          ∙ find-update_row (has_id k) (claimed_id k) change db.jobs (same_claim k) (λ y e. e) found
              (is_claim k row own claimed),
      read,
    )

matched :
    (v : Verified) (r : RunnerIdentity) (row : Job) (h : Hold)
    → still_matches v r row h ≡ true
    → is_claimed row.status ≡ true
unfolding still_matches
matched v r row h e = ground arith

-- The payload of the job, after the checks of a backfill.
row-Bound :
    (py : Python) (digest : HoldTuple → String) (k attempt : ℕ) (v : Verified) (r : RunnerIdentity)
    (now : ℕ) (db : Db) (row : Job) (h : Hold) {db' : Db} {b : Bool}
    → (attempt == 0) ≡ false
    → find (has_id k) db.jobs ≡ some row
    → backfill_row py digest k attempt v r now db row h ≡ ok (db', b)
    → (job : Job) × (find (has_id k) db'.jobs ≡ some job)
      × (workflow_job_attempt py job.payload ≡ ok (some (pos attempt)))
unfolding backfill_row
row-Bound py digest k attempt v r now db row h {db'} positive found e =
    let (matching, h₁) = passed (not (still_matches v r row h)) _ _ e in
    let (workflow_job, read, h₂) = >>=-eq-ok (get_attr row.payload "workflow_job" Json.null) _ h₁ in
    let (fits, h₃) =
      passed
        (not (
          list_beq row.labels r.labels
          && list_beq h.labels r.labels
          && is_dict row.payload
          && is_dict workflow_job))
        _ _ h₂ in
    let (existing, known, h₄) = >>=-eq-ok (workflow_job_attempt py row.payload) _ h₃ in
    let (agrees, h₅) = passed (conflicting existing attempt) _ _ h₄ in
    let claimed : is_claimed row.status ≡ true =
      matched v r row h (negated (still_matches v r row h) matching) in
    let dict : is_dict workflow_job ≡ true =
      last_of (list_beq row.labels r.labels) (list_beq h.labels r.labels) (is_dict row.payload)
        (is_dict workflow_job) fits in
    write-Bound py digest k attempt r now db row existing found claimed known agrees
      (with_attempt-read py attempt row.payload workflow_job positive read dict) h₅
  where
    negated : (x : Bool) → not x ≡ false → x ≡ true
    negated true e = refl
    negated false e = cc

    last_of : (a b c d : Bool) → not (a && b && c && d) ≡ false → d ≡ true
    last_of a b c d e = ground arith

-- A backfill that answers true leaves the job bound to the attempt that the provider proved: its
-- payload holds that attempt afterwards, whether it was written now or was there before.
pub backfill_bound :
    (py : Python) (digest : HoldTuple → String) (k attempt : ℕ) (v : Verified) (r : RunnerIdentity)
    (now : ℕ) (db db' : Db)
    → backfill_offline_runner_hold_attempt py digest k attempt v r now db ≡ ok (db', true)
    → (job : Job) × (find (has_id k) db'.jobs ≡ some job)
      × (workflow_job_attempt py job.payload ≡ ok (some (pos attempt)))
unfolding backfill_offline_runner_hold_attempt
backfill_bound py digest k attempt v r now db db' e =
    let (positive, h) = passed (attempt == 0) _ _ e in
    elim (Option-cases (hold_of k db.holds)) [
      | inl n ↦ absurd (untouched (rw n at h))
      | inr (held, f) ↦ elim (Option-cases (find (has_id k) db.jobs)) [
        | inl n ↦ absurd (untouched (rw (f, n) at h))
        | inr (row, g) ↦ elim (Bool-cases (is_active_hold held.state)) [
          | inl y ↦ row-Bound py digest k attempt v r now db row held positive g (rw (f, g, y) at h)
          | inr n ↦ absurd (untouched (rw (f, g, n) at h))
        ]
      ]
    ]
  where
    untouched : {d u : Db} → ◌≡◌ {A = Result (Db × Bool)} (ok (d, false)) (ok (u, true)) → ⊥
    untouched h = let k = ap (λ (x : Db × Bool). x.1) (ok-eq-ok h) in cc
