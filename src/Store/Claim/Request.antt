-- ===== src/Store/Claim/Request.antt =====
-- The arguments of `Store.claim`, and the evidence about the worker that it gathers before it
-- looks at the queue.
use qdev_runner_control_plan.Prelude.{
  ℕ, ◌+◌, String, Bool, true, false, ◌&&◌, ◌||◌, Option, none, some, List, [], ◌∷◌, map,
  if◌then◌else◌, not, ◌==◌, string_eq, leb, ltb, ℤ, pos, ltb_ℤ, Real, zero_real, is_finite,
  ltb_real, value_error, Result, ok, raise, refuse, ◌>>=◌, ◌>>◌, subset, lower,
}
use qdev_runner_control_plan.Json
use qdev_runner_control_plan.Json.{
  Json, Fields, Python, get, put, get_or, index, subscript, is_dict, is_true, equals_text, to_int,
  to_float, to_text, iterate,
}
use qdev_runner_control_plan.ClaimScope.{ClaimScope, schema_v2}
use qdev_runner_control_plan.Store.Tables.{Worker, Db, seconds}
use qdev_runner_control_plan.Store.Release.{worker_of}
use qdev_runner_control_plan.Store.Workers.{bad_detail}

pub record ClaimRequest : Type 0 where
  pub worker_name : String
  pub profiles : List String
  pub tier : String
  pub disk_free_gib : Option Real
  pub min_disk_free_gib : Option Real
  pub profile_disk_mb : Option (List (String × ℤ))
  pub repository_profile_disk_mb : Option (List (String × String × ℤ))
  pub repository_min_disk_free_gib : Option (List (String × Real))
  pub repository_max_concurrency : Option (List (String × ℤ))
  pub repository : Option String
  pub head_sha : Option String
  pub primary_max_age_seconds : ℕ
  pub claim_scope : Option ClaimScope
  pub authorized_min_disk_free_gib : Option Real
  pub fifo_skip_job_ids : List ℕ
  -- The caller's callback, which reads the release ledgers.
  pub fifo_skip_guard : Option (List ℕ → Result (List ℕ))

-- claim_scope is not None and claim_scope.schema == SCHEMA_V2
abbrev pub is_v2 : Option ClaimScope → Bool
is_v2 none = false
is_v2 (some scope) = scope.schema == schema_v2

abbrev bad_floor : Option ClaimScope → Real → Bool
bad_floor scope floor = not (is_v2 scope) || not (is_finite floor) || ltb_real floor zero_real

abbrev is_empty : List ℕ → Bool
is_empty [] = true
is_empty (_ ∷ _) = false

-- The two ValueErrors at the top of `claim`.
unfoldable pub check_request : ClaimRequest → Result (Unit {0})
check_request req = do
  refuse
      (elim req.authorized_min_disk_free_gib [
        | none ↦ false
        | some floor ↦ bad_floor req.claim_scope floor
      ])
      (value_error "authorized capacity floor requires an exact v2 claim scope")
  refuse (not (is_empty req.fifo_skip_job_ids) && not (is_v2 req.claim_scope))
      (value_error "FIFO skips require an exact v2 claim scope")

-- The skips that the callback still allows.
unfoldable pub revalidated_skips : ClaimRequest → Result (List ℕ)
revalidated_skips req = elim req.fifo_skip_guard [
  | none ↦ ok req.fifo_skip_job_ids
  | some revalidate ↦ revalidate req.fifo_skip_job_ids
]

-- What the rest of the claim knows of the worker: `scoped_profiles`, `worker_detail`,
-- `disk_free_gib` and `min_disk_free_gib`.
pub record Evidence : Type 0 where
  pub scoped_profiles : Option (List String)
  pub detail : Fields
  pub disk_free_gib : Option Real
  pub min_disk_free_gib : Option Real

-- The values of the `try` block.
record Observed : Type 0 where
  registered_profiles : List String
  effective_capacity : Json
  raw_capacity : Json
  scoped_profiles : List String
  disk_free_gib : Real
  min_disk_free_gib : Real
  concurrency : ℤ
  slots_available : ℤ

-- isinstance(effective_capacity, dict) and effective_capacity.get("allowed") is True
allowed_by : Json → Bool
unfolding get
allowed_by (Json.obj d) = is_true (get_or d "allowed" Json.null)
allowed_by _ = false

module _ (py : Python) where
  observe : ClaimRequest → Worker → Result Observed
  unfolding to_float to_int to_text iterate lower get
  observe req w = do
    effective ← index w.detail "effective_capacity"
    raw ← index w.detail "raw_capacity"
    profiles ← index w.detail "effective_profiles"
    scoped ← iterate profiles
    raw_free ← subscript raw "disk_free_gib"
    free ← to_float py raw_free
    raw_floor ← index w.detail "min_disk_free_gib"
    floor ← to_float py raw_floor
    raw_concurrency ← index w.detail "concurrency"
    concurrency ← to_int py raw_concurrency
    raw_slots ← index w.detail "slots_available"
    slots ← to_int py raw_slots
    ok (record {
      registered_profiles = map lower w.profiles;
      effective_capacity = effective;
      raw_capacity = raw;
      scoped_profiles = map (λ v. lower (to_text py v)) scoped;
      disk_free_gib = free;
      min_disk_free_gib = elim req.authorized_min_disk_free_gib [ none ↦ floor | some f ↦ f ];
      concurrency = concurrency;
      slots_available = slots;
    })

-- None of the conditions under which the claim returns None.
fresh_and_free : ClaimRequest → ClaimScope → ℕ → Worker → Observed → Bool
unfolding allowed_by get subset lower
fresh_and_free req scope now w o =
    leb w.last_seen now
    && ltb now (w.last_seen + seconds req.primary_max_age_seconds)
    && equals_text (get_or w.detail "tier" Json.null) req.tier
    && is_true (get_or w.detail "allowed" Json.null)
    && allowed_by o.effective_capacity
    && is_dict o.raw_capacity
    && is_finite o.disk_free_gib
    && is_finite o.min_disk_free_gib
    && not (ltb_real o.disk_free_gib zero_real)
    && not (ltb_real o.min_disk_free_gib zero_real)
    && not (ltb_ℤ o.concurrency (pos 1))
    && ltb_ℤ w.active_jobs o.concurrency
    && not (ltb_ℤ o.slots_available (pos 1))
    && equals_text (get_or w.detail "configured_claim_scope_id" Json.null) scope.scope_id
    && subset (map lower req.profiles) o.registered_profiles

abbrev fields_of : Json → Fields
fields_of (Json.obj d) = d
fields_of _ = Json.end

-- raw_capacity | {...}: the detail that stands for the worker from here on.
abbrev merged : Observed → Fields
merged o =
    put
      (put (put (fields_of o.raw_capacity) "concurrency" (Json.int o.concurrency)) "disk_free_gib"
        (Json.float o.disk_free_gib))
      "min_disk_free_gib" (Json.float o.min_disk_free_gib)

module _ (py : Python) where
  -- The branch for a v2 scope: the last heartbeat decides, and `none` ends the claim.
  scoped_evidence : ClaimRequest → ClaimScope → ℕ → Option Worker → Result (Option Evidence)
  unfolding observe fresh_and_free
  scoped_evidence req scope now none = ok none
  scoped_evidence req scope now (some w) = elim (observe py req w) [
    | raise e ↦ if bad_detail e then ok none else raise e
    | ok o ↦
        if fresh_and_free req scope now w o
        then ok (
            some (record {
              scoped_profiles = some o.scoped_profiles;
              detail = merged o;
              disk_free_gib = some o.disk_free_gib;
              min_disk_free_gib = some o.min_disk_free_gib;
            }))
        else ok none
  ]

-- The other branch: the request's free space, where given, overrides the heartbeat's.
unscoped_evidence : ClaimRequest → Option Worker → Evidence
unfolding put
unscoped_evidence req w = record {
  scoped_profiles = none;
  detail =
      let detail : Fields = elim w [ none ↦ Json.end | some v ↦ v.detail ] in
      elim req.disk_free_gib [
        | none ↦ detail
        | some free ↦ put detail "disk_free_gib" (Json.float free)
      ];
  disk_free_gib = req.disk_free_gib;
  min_disk_free_gib = req.min_disk_free_gib;
}

module _ (py : Python) where
  unfoldable pub gather_evidence : ClaimRequest → ℕ → Db → Result (Option Evidence)
  unfolding scoped_evidence unscoped_evidence worker_of
  gather_evidence req now db =
      let w = worker_of db req.worker_name in
      elim req.claim_scope [
        | none ↦ ok (some (unscoped_evidence req w))
        | some scope ↦
            if scope.schema == schema_v2
            then scoped_evidence py req scope now w
            else ok (some (unscoped_evidence req w))
      ]
