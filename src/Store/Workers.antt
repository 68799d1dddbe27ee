-- ===== src/Store/Workers.antt =====
-- The worker registry of `Store`: heartbeats, the recovery fence, and the capacity tests that a
-- claim applies to a worker's last heartbeat.
use qdev_runner_control_plan.Prelude.{
  ℕ, ◌*◌, ◌+◌, String, Bool, true, false, ◌&&◌, ◌||◌, Option, none, some, List, [], ◌∷◌, map,
  if◌then◌else◌, not, ◌==◌, ◌!=◌, nat_eq, string_eq, option_eq, int_eq, leb, ℤ, pos, ltb_ℤ, Real,
  of_int, of_mib, is_finite, leb_real, ltb_real, add_real, Exc, value_error, type_error, key_error,
  Result, ok, raise, ◌>>=◌, any, member, select, lower,
}
use qdev_runner_control_plan.Json.{
  Json, Items, Fields, Python, get, put, get_or, index, is_true, truthy, equals_text, to_int,
  to_float, to_text,
}
use qdev_runner_control_plan.Sql.{update}
use qdev_runner_control_plan.Store.Tables.{is_active, is_released, Job, Worker, Db}

-- `except (TypeError, ValueError)`
abbrev bad_value : Exc → Bool
bad_value type_error = true
bad_value (value_error _) = true
bad_value _ = false

-- `except (KeyError, TypeError, ValueError)`
abbrev pub bad_detail : Exc → Bool
bad_detail key_error = true
bad_detail type_error = true
bad_detail (value_error _) = true
bad_detail _ = false

abbrev at_least_one : ℤ → ℤ
at_least_one n = if ltb_ℤ n (pos 1) then pos 1 else n

module _ (py : Python) where
  unfoldable pub worker_concurrency : Fields → Result ℤ
  unfolding to_int
  worker_concurrency detail = elim (to_int py (get_or detail "concurrency" (Json.int (pos 1)))) [
    | ok n ↦ ok (at_least_one n)
    | raise e ↦ if bad_value e then ok (pos 1) else raise e
  ]

  -- The `try` block: the free space and the floor, in GiB.
  headroom : Fields → Result (Real × Real)
  unfolding to_float
  headroom detail = do
    raw_free ← index detail "disk_free_gib"
    free ← to_float py raw_free
    floor ← to_float py (get_or detail "min_disk_free_gib" (Json.int (pos 30)))
    ok (free, floor)

  unfoldable pub disk_headroom_allowed : Fields → Option ℤ → Result Bool
  unfolding headroom
  disk_headroom_allowed detail none = ok true
  disk_headroom_allowed detail (some profile_disk_mb) = elim (headroom detail) [
    | ok (free, floor) ↦ ok (leb_real (add_real floor (of_mib profile_disk_mb)) free)
    | raise e ↦ if bad_detail e then ok false else raise e
  ]

-- The value of an `int` or a `float` that is no `bool`.
abbrev pub number : Json → Option Real
number (Json.int z) = some (of_int z)
number (Json.float x) = some x
number _ = none

-- The value of an `int` that is no `bool`.
abbrev pub whole : Json → Option ℤ
whole (Json.int z) = some z
whole _ = none

unfoldable pub enough_space : Json → Option Real → Bool
enough_space raw_free none = true
enough_space raw_free (some minimum) = elim (number raw_free) [
  | none ↦ false
  | some free ↦ is_finite free && not (ltb_real free minimum)
]

unfoldable pub few_enough : Json → Option ℤ → Bool
few_enough raw_concurrency none = true
few_enough raw_concurrency (some maximum) = elim (whole raw_concurrency) [
  | none ↦ false
  | some n ↦ not (ltb_ℤ n (pos 1)) && not (ltb_ℤ maximum n)
]

unfoldable pub repository_worker_allowed : Fields → Option Real → Option ℤ → Bool
unfolding enough_space few_enough get
repository_worker_allowed detail minimum_free_gib maximum_concurrency =
    enough_space (get_or detail "disk_free_gib" Json.null) minimum_free_gib
    && few_enough (get_or detail "concurrency" Json.null) maximum_concurrency

unfoldable pub worker_fenced : Db → String → Bool
unfolding any
worker_fenced db worker_name =
    any (λ r. r.worker_name == worker_name && not (is_released r.state)) db.recoveries

id_items : List ℕ → Items
id_items [] = Items.nil
id_items (n ∷ ns) = Items.cons (Json.int (pos n)) (id_items ns)

-- INSERT ... ON CONFLICT(name) DO UPDATE
unfoldable pub upsert_worker : Worker → List Worker → List Worker
upsert_worker w [] = w ∷ []
upsert_worker w (v ∷ vs) = if v.name == w.name then w ∷ vs else v ∷ upsert_worker w vs

-- WHERE worker_name=? AND status IN ('claimed','running') AND job_id IN (...)
unfoldable pub reported_by : String → List ℕ → Job → Bool
unfolding member
reported_by name ids row =
    row.worker_name == some name && is_active row.status && member row.job_id ids

unfoldable pub heartbeat : String → List String → ℤ → List ℕ → Fields → ℕ → Db → Db
unfolding id_items put upsert_worker reported_by update
heartbeat name profiles active_jobs active_job_ids detail now db = record db {
  workers =
      upsert_worker
        (record {
          name = name;
          profiles = profiles;
          active_jobs = active_jobs;
          last_seen = now;
          detail = put detail "active_job_ids" (Json.arr (id_items active_job_ids));
        })
        db.workers;
  jobs = update (reported_by name active_job_ids) (λ row. record row { updated_at = now }) db.jobs;
}

-- The keyword arguments of `_has_available_tier_slot`.
pub record SlotQuery : Type 0 where
  pub profile : Option String
  pub repository : Option String
  pub head_sha : Option String
  pub profile_disk_mb : Option ℤ
  pub repository_min_disk_free_gib : Option Real
  pub repository_max_concurrency : Option ℤ

module _ (py : Python) where
  -- str(v or "")
  text_or_empty : Json → String
  unfolding to_text
  text_or_empty v = if truthy v then to_text py v else ""

  -- The directive of `detail` admits another repository or SHA than the query's.
  directive_excludes : SlotQuery → Fields → Bool
  unfolding text_or_empty lower get
  directive_excludes q detail =
      truthy (get_or detail "capacity_directive_id" Json.null) && (elim q.repository [
        | none ↦ true
        | some repository ↦ elim q.head_sha [
          | none ↦ true
          | some head_sha ↦
              lower (text_or_empty (get_or detail "capacity_directive_repository" Json.null))
                != lower repository
              || lower (text_or_empty (get_or detail "capacity_directive_head_sha" Json.null))
                != lower head_sha
        ]
      ])

  -- One worker row can take the job.
  unfoldable pub slot_open : Db → String → SlotQuery → Worker → Result Bool
  unfolding worker_fenced directive_excludes worker_concurrency disk_headroom_allowed
      repository_worker_allowed member lower
  slot_open db tier q row =
      if worker_fenced db row.name
      then ok false
      else if (elim q.profile [
        | none ↦ false
        | some profile ↦ not (member (lower profile) (map lower row.profiles))
      ])
      then ok false
      else if directive_excludes q row.detail
      then ok false
      else if not (equals_text (get_or row.detail "tier" Json.null) tier)
      then ok false
      else if not (is_true (get_or row.detail "allowed" (Json.bool true)))
      then ok false
      else (do
        concurrency ← worker_concurrency py row.detail
        if not (ltb_ℤ row.active_jobs concurrency) then ok false else (do
          headroom ← disk_headroom_allowed py row.detail q.profile_disk_mb
          ok (
              headroom
              && repository_worker_allowed row.detail q.repository_min_disk_free_gib
                  q.repository_max_concurrency)))

  -- The loop over the rows: the first open one decides.
  unfoldable pub first_open : (Worker → Result Bool) → List Worker → Result Bool
  first_open opens [] = ok false
  first_open opens (row ∷ rows) = do
    found ← opens row
    if found then ok true else first_open opens rows

  -- `max_age` is in seconds, before the clock reading `now`.
  unfoldable pub has_available_tier_slot : Db → String → ℕ → ℕ → SlotQuery → Result Bool
  unfolding first_open slot_open select
  has_available_tier_slot db tier max_age now q =
      first_open (slot_open db tier q)
        (select (λ w. leb now (w.last_seen + max_age * 1000000)) db.workers)
