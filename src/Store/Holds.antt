-- ===== src/Store/Holds.antt =====
-- The methods of `Store` that pin a claimed job to the runner that GitHub already registered for
-- it. The digest of the bound tuple (SHA-256 of its canonical JSON) is a parameter.
use Prim.Native.String.{◌++◌ as text_append}
use qdev_runner_control_plan.Prelude.{
  ℕ, String, Bool, true, false, ◌&&◌, ◌||◌, Option, none, some, List, [], ◌∷◌, ◌++◌, if◌then◌else◌,
  not, ◌==◌, ◌!=◌, nat_eq, string_eq, option_eq, leb, ℤ, pos, Result, ok, raise, refuse,
  value_error, ◌>>=◌, ◌>>◌, count, find, any, all, member, lower, is_alnum, is_name_char,
  starts_then, text_length, take_text, nat_beq, ltb,
}
use qdev_runner_control_plan.Json
use qdev_runner_control_plan.Json.{Python}
use qdev_runner_control_plan.Sql.{update}
use qdev_runner_control_plan.Store.Tables.{
  pending, is_claimed, Job, Hold, active, is_active_hold, Db, has_id, holds_id,
}
use qdev_runner_control_plan.Store.Queue.{end_hold}
use qdev_runner_control_plan.Store.Payload.{workflow_job_attempt}

-- `==` on lists of labels
abbrev pub list_beq : List String → List String → Bool
list_beq [] [] = true
list_beq [] (y ∷ ys) = false
list_beq (x ∷ xs) [] = false
list_beq (x ∷ xs) (y ∷ ys) = x == y && list_beq xs ys

-- len(labels) == len(set(labels))
unfoldable pub distinct : List String → Bool
unfolding member
distinct [] = true
distinct (x ∷ xs) = not (member x xs) && distinct xs

label_char : ℕ → Bool
unfolding is_name_char
label_char n = is_name_char n || nat_beq n b':'

-- ^[A-Za-z0-9][A-Za-z0-9._:-]{0,254}$
unfoldable pub is_runner_label : String → Bool
unfolding starts_then is_alnum label_char text_length
is_runner_label s = starts_then is_alnum label_char s && leb (text_length s) 255

-- The identity of a registered runner, as the caller states it.
pub record RunnerIdentity : Type 0 where
  pub provider_runner_id : ℕ
  pub runner_name : String
  pub labels : List String

abbrev is_empty : List String → Bool
is_empty [] = true
is_empty (_ ∷ _) = false

-- The checks that `hold_exact_offline_runner` and the release share.
unfoldable pub is_identity : RunnerIdentity → Bool
unfolding is_runner_label distinct all
is_identity r =
    ltb 0 r.provider_runner_id
    && r.runner_name != ""
    && not (is_empty r.labels)
    && all is_runner_label r.labels
    && distinct r.labels

-- tuple_payload
pub record HoldTuple : Type 0 where
  pub job_id : ℕ
  pub run_id : ℕ
  pub repository : String
  pub head_sha : String
  pub attempt : ℤ
  pub profile : String
  pub runner : RunnerIdentity

unfoldable pub hold_tuple : Job → ℤ → RunnerIdentity → HoldTuple
unfolding lower
hold_tuple row attempt r = record {
  job_id = row.job_id;
  run_id = row.run_id;
  repository = row.repository;
  head_sha = lower row.head_sha;
  attempt = attempt;
  profile = lower (elim row.profile [ none ↦ "" | some p ↦ p ]);
  runner = r;
}

-- WHERE job_id=? AND status='claimed'
unfoldable pub claimed_id : ℕ → Job → Bool
claimed_id job_id row = has_id job_id row && is_claimed row.status

-- The job's columns after a hold: no worker and no scope keep it.
unfoldable pub parked_row : String → ℕ → Job → Job
parked_row message now row = record row {
  worker_name = none;
  claim_scope_id = none;
  updated_at = now;
  result = some message;
}

unfoldable pub reissued_row : String → ℕ → Job → Job
unfolding take_text
reissued_row reason now row = record row {
  status = pending;
  worker_name = none;
  claim_scope_id = none;
  profile = none;
  claimed_at = none;
  updated_at = now;
  result = some (take_text 4000 (text_append "offline runner JIT recovery: " reason));
}

unfoldable pub hold_of : ℕ → List Hold → Option Hold
unfolding find
hold_of job_id holds = find (λ h. h.job_id == job_id) holds

-- job is not None and job["status"] == "claimed"
unfoldable pub claimed_job : ℕ → Db → Result Job
unfolding find
claimed_job job_id db = elim (find (has_id job_id) db.jobs) [
  | none ↦ raise (value_error "offline runner hold requires an active claim")
  | some row ↦
      if is_claimed row.status
      then ok row
      else raise (value_error "offline runner hold requires an active claim")
]

unfoldable pub required_attempt : Option ℤ → Result ℤ
required_attempt none = raise (value_error "offline runner hold requires a provider run attempt")
required_attempt (some attempt) = ok attempt

module _ (py : Python) (digest : HoldTuple → String) where
  -- The result that the held job shows.
  unfoldable pub hold_message : RunnerIdentity → String
  hold_message r =
      text_append "offline provider runner reconciliation: id="
        (py.text_of_value (Json.int (pos r.provider_runner_id)))

  unfoldable pub fresh_hold : Job → ℤ → RunnerIdentity → ℕ → Hold
  unfolding hold_tuple
  fresh_hold row attempt r now = record {
    job_id = row.job_id;
    provider_runner_id = r.provider_runner_id;
    runner_name = r.runner_name;
    labels = r.labels;
    tuple_digest = digest (hold_tuple row attempt r);
    state = active;
    created_at = now;
    updated_at = now;
  }

  -- The INSERT, and the UPDATE that takes the job from its worker.
  unfoldable pub insert_hold : Job → ℤ → RunnerIdentity → ℕ → Db → Db
  unfolding fresh_hold hold_message claimed_id parked_row update
  insert_hold row attempt r now db = record db {
    holds = db.holds ++ (fresh_hold row attempt r now ∷ []);
    jobs = update (claimed_id row.job_id) (parked_row (hold_message r) now) db.jobs;
  }

  -- What follows the checks: the hold that is there, or a new one.
  unfoldable pub new_hold : Job → ℤ → RunnerIdentity → ℕ → Db → Option Hold → Result (Db × Hold)
  unfolding insert_hold fresh_hold hold_tuple claimed_id any count
  new_hold row attempt r now db (some existing) = do
    refuse
        (existing.tuple_digest != digest (hold_tuple row attempt r)
          || not (is_active_hold existing.state))
        (value_error "offline runner hold conflicts with immutable tuple")
    ok (db, existing)
  new_hold row attempt r now db none = do
    refuse (any (λ h. h.provider_runner_id == r.provider_runner_id) db.holds)
        (value_error "provider runner identity is already held")
    refuse (count (claimed_id row.job_id) db.jobs != 1)
        (value_error "offline runner hold lost its active claim")
    ok (insert_hold row attempt r now db, fresh_hold row attempt r now)

  unfoldable pub hold_exact_offline_runner : ℕ → RunnerIdentity → ℕ → Db → Result (Db × Hold)
  unfolding new_hold is_identity hold_of claimed_job required_attempt workflow_job_attempt
      text_length
  hold_exact_offline_runner job_id r now db = do
    refuse (not (is_identity r && leb (text_length r.runner_name) 255))
        (value_error "offline runner identity is invalid")
    row ← claimed_job job_id db
    found ← workflow_job_attempt py row.payload
    attempt ← required_attempt found
    refuse (not (list_beq r.labels row.labels))
        (value_error "offline runner labels differ from queued labels")
    new_hold row attempt r now db (hold_of row.job_id db.holds)

-- The row and its hold still match the identity that the caller verified.
unfoldable pub recoverable : RunnerIdentity → Job → Hold → Bool
recoverable r row h =
    is_claimed row.status
    && row.worker_name == none
    && row.claim_scope_id == none
    && h.provider_runner_id == r.provider_runner_id
    && h.runner_name == r.runner_name

-- The changes that the release commits.
unfoldable pub reissue : ℕ → String → ℕ → Db → Db
unfolding reissued_row claimed_id end_hold update
reissue job_id reason now db = record db {
  holds = update (holds_id job_id) (end_hold now) db.holds;
  jobs = update (claimed_id job_id) (reissued_row reason now) db.jobs;
}

-- The checks on an active hold and its job, and the release.
unfoldable pub release_active :
    ℕ → RunnerIdentity → String → ℕ → Db → Hold → Job → Result (Db × Bool)
unfolding recoverable reissue claimed_id count
release_active job_id r reason now db h row = do
  refuse (not (recoverable r row h)) (value_error "offline runner hold is no longer recoverable")
  refuse (not (list_beq row.labels r.labels && list_beq h.labels r.labels))
      (value_error "offline runner labels differ from held tuple")
  refuse (count (holds_id job_id) db.holds != 1)
      (value_error "offline runner hold changed during recovery")
  refuse (count (claimed_id job_id) db.jobs != 1)
      (value_error "offline runner hold lost its claimed job")
  ok (reissue job_id reason now db, true)

-- The joined row, if there is one.
unfoldable pub release_hold :
    ℕ → RunnerIdentity → String → ℕ → Db → Option Hold → Option Job → Result (Db × Bool)
unfolding release_active
release_hold job_id r reason now db none row = ok (db, false)
release_hold job_id r reason now db (some h) none = ok (db, false)
release_hold job_id r reason now db (some h) (some row) =
    if not (is_active_hold h.state)
    then ok (db, false)
    else release_active job_id r reason now db h row

unfoldable pub release_offline_runner_hold_for_jit_reissue :
    ℕ → RunnerIdentity → String → ℕ → Db → Result (Db × Bool)
unfolding is_identity release_hold hold_of find
release_offline_runner_hold_for_jit_reissue job_id r reason now db = do
  refuse (not (is_identity r)) (value_error "offline runner identity is invalid")
  release_hold job_id r reason now db (hold_of job_id db.holds) (find (has_id job_id) db.jobs)

unfoldable pub terminal_offline_runner_hold_matches : ℕ → RunnerIdentity → Db → Bool
unfolding hold_of
terminal_offline_runner_hold_matches job_id r db = elim (hold_of job_id db.holds) [
  | none ↦ false
  | some h ↦
      not (is_active_hold h.state)
      && h.provider_runner_id == r.provider_runner_id
      && h.runner_name == r.runner_name
      && list_beq h.labels r.labels
]
