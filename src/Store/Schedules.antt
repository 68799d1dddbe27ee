-- ===== src/Store/Schedules.antt =====
-- The recurring test dispatches of src/qdev_runner/store.py: the table `test_schedules`. A method
-- takes the clock reading that its argument `now` or `time.time()` gives it.
pub mod Spacing
pub mod Registered
use qdev_runner_control_plan.Prelude.{
  ℕ, ◌+◌, ◌-◌, ◌*◌, String, Bool, true, false, ◌&&◌, ◌||◌, Option, none, some, List, [], ◌∷◌, ◌++◌,
  if◌then◌else◌, ◌==◌, nat_eq, string_eq, leb, ltb, any, count, find, select, take_text, not,
  Result, ok, raise, refuse, runtime_error, integrity_error, ◌>>=◌, ◌>>◌,
}
use qdev_runner_control_plan.Sql.{update, order_by}
use qdev_runner_control_plan.Store.Tables.{seconds}

-- The primary key.
pub record Key : Type 0 where
  pub repository : String
  pub workflow : String
  pub suite : String
  pub ref : String

-- A row of `test_schedules`; a CHECK bounds the interval.
pub record Schedule : Type 0 where
  pub key : Key
  pub installation_id : ℕ
  pub interval_seconds : ℕ
  pub next_run_at : ℕ
  pub enabled : Bool
  pub last_dispatch_at : Option ℕ
  pub last_error : Option String
  pub created_at : ℕ
  pub updated_at : ℕ

abbrev pub Schedules : Type 0
Schedules = List Schedule

abbrev max : ℕ → ℕ → ℕ
max a b = if leb a b then b else a

abbrev min : ℕ → ℕ → ℕ
min a b = if leb a b then a else b

-- WHERE repository=? AND workflow=? AND suite=? AND ref=?
unfoldable pub has_key : Key → Schedule → Bool
has_key k s =
    s.key.repository == k.repository
    && s.key.workflow == k.workflow
    && s.key.suite == k.suite
    && s.key.ref == k.ref

-- AND enabled=1 AND next_run_at<=?
unfoldable pub is_due : ℕ → Schedule → Bool
is_due now s = s.enabled && leb s.next_run_at now

unfoldable pub due_key : Key → ℕ → Schedule → Bool
unfolding has_key is_due
due_key k now s = has_key k s && is_due now s

-- CHECK(interval_seconds BETWEEN 60 AND 604800)
unfoldable pub interval_allowed : ℕ → Bool
interval_allowed n = leb 60 n && leb n 604800

-- The row of the INSERT.
unfoldable pub schedule_row : Key → ℕ → ℕ → ℕ → Bool → ℕ → Schedule
schedule_row k installation_id interval_seconds scheduled_at enabled now = record {
  key = k;
  installation_id = installation_id;
  interval_seconds = interval_seconds;
  next_run_at = scheduled_at;
  enabled = enabled;
  last_dispatch_at = none;
  last_error = none;
  created_at = now;
  updated_at = now;
}

-- The columns that the ON CONFLICT(repository, workflow, suite, ref) DO UPDATE sets.
unfoldable pub registered_row : ℕ → ℕ → ℕ → Bool → ℕ → Schedule → Schedule
registered_row installation_id interval_seconds scheduled_at enabled now s = record s {
  installation_id = installation_id;
  interval_seconds = interval_seconds;
  next_run_at = scheduled_at;
  enabled = enabled;
  last_error = none;
  updated_at = now;
}

-- if row is None: raise
unfoldable pub upserted_row : Option Schedule → Result Schedule
upserted_row none = raise (runtime_error "test schedule upsert did not return a row")
upserted_row (some s) = ok s

-- The INSERT ... ON CONFLICT, and the row that is there.
unfoldable pub upsert_test_schedule :
    Key → ℕ → ℕ → Option ℕ → Bool → ℕ → Schedules → Result (Schedules × Schedule)
unfolding interval_allowed schedule_row registered_row upserted_row has_key update any find
upsert_test_schedule k installation_id interval_seconds next_run_at enabled now t = do
  let scheduled_at : ℕ = elim next_run_at [ none ↦ now | some at ↦ at ]
  refuse (not (interval_allowed interval_seconds)) integrity_error
  let t' : Schedules =
      if any (has_key k) t
      then update (has_key k)
          (registered_row installation_id interval_seconds scheduled_at enabled now) t
      else t ++ (schedule_row k installation_id interval_seconds scheduled_at enabled now ∷ [])
  row ← upserted_row (find (has_key k) t')
  ok (t', row)

take_rows : ℕ → Schedules → Schedules
take_rows n [] = []
take_rows n (x ∷ xs) = let rest = take_rows (n - 1) xs in if n == 0 then [] else x ∷ rest

-- ORDER BY next_run_at, repository, workflow, suite, ref: the key is compared by `key_leb`.
unfoldable pub due_test_schedules : (Key → Key → Bool) → ℕ → ℕ → Schedules → Schedules
unfolding is_due order_by select take_rows
due_test_schedules key_leb now limit t = take_rows (max 1 (min limit 100)) (
    order_by
      (λ a b.
        ltb a.next_run_at b.next_run_at || a.next_run_at == b.next_run_at && key_leb a.key b.key)
      (select (is_due now) t))

-- The columns that both UPDATEs set.
unfoldable pub dispatched_row : ℕ → ℕ → Schedule → Schedule
dispatched_row next_run_at now s = record s {
  next_run_at = next_run_at;
  last_dispatch_at = some now;
  last_error = none;
  updated_at = now;
}

-- The answers keep the `updated_at` of the row as it was read.
unfoldable pub dispatched_answer : ℕ → ℕ → Schedule → Schedule
dispatched_answer next_run_at now s = record s {
  next_run_at = next_run_at;
  last_dispatch_at = some now;
  last_error = none;
}

-- max(current, row["next_run_at"]) + row["interval_seconds"]
unfoldable pub next_slot : ℕ → Schedule → ℕ
next_slot now s = max now s.next_run_at + seconds s.interval_seconds

unfoldable pub claim_test_schedule : Key → ℕ → Schedules → Schedules × Option Schedule
unfolding due_key dispatched_row dispatched_answer next_slot update count find
claim_test_schedule k now t = elim (find (due_key k now) t) [
  | none ↦ (t, none)
  | some s ↦ (
    update (due_key k now) (dispatched_row (next_slot now s) now) t,
    if count (due_key k now) t == 1 then some (dispatched_answer (next_slot now s) now s) else none,
  )
]

-- The slot after a confirmed dispatch; the tolerance of 1e-6 seconds is one unit of the clock.
unfoldable pub advanced_slot : ℕ → ℕ → Schedule → ℕ
advanced_slot due_at now s =
    if leb s.next_run_at (due_at + 1)
    then max now due_at + seconds s.interval_seconds
    else s.next_run_at

unfoldable pub advance_test_schedule : Key → ℕ → ℕ → Schedules → Schedules × Option Schedule
unfolding has_key advanced_slot dispatched_row dispatched_answer update count find
advance_test_schedule k due_at now t = elim (find (has_key k) t) [
  | none ↦ (t, none)
  | some s ↦ (
    update (has_key k) (dispatched_row (advanced_slot due_at now s) now) t,
    if count (has_key k) t == 1
        then some (dispatched_answer (advanced_slot due_at now s) now s)
        else none,
  )
]

unfoldable pub record_test_schedule_error : Key → String → ℕ → Schedules → Schedules
unfolding has_key update take_text
record_test_schedule_error k error now t =
    update (has_key k)
      (λ s. record s { last_error = some (take_text 4000 error); updated_at = now }) t
