-- ===== src/Store/Claim/Scan.antt =====
-- The last loop of `Store.claim`: the verdict on each pending row, in order.
use qdev_runner_control_plan.Prelude.{
  lookup, ℕ, String, Bool, true, false, ◌&&◌, Option, none, some, List, [], ◌∷◌, if◌then◌else◌, not,
  ◌==◌, nat_eq, string_eq, option_eq, ℤ, Real, Result, ok, ◌>>=◌, member, lower,
}
use qdev_runner_control_plan.Json
use qdev_runner_control_plan.Json.{Fields, Python, put}
use qdev_runner_control_plan.ClaimScope.{permits}
use qdev_runner_control_plan.Store.Tables.{Job, Db}
use qdev_runner_control_plan.Store.Payload.{workflow_job_attempt}
use qdev_runner_control_plan.Store.Workers.{
  SlotQuery, disk_headroom_allowed, repository_worker_allowed, has_available_tier_slot,
}
use qdev_runner_control_plan.Store.Claim.Request.{ClaimRequest, Evidence}
use qdev_runner_control_plan.Store.Claim.Selection.{
  matching_profile, differs, held_back, tuple_of, required_disk_mb, minimum_free_gib,
  maximum_concurrency,
}

-- `continue`, `return None`, or the selection of the row under a profile.
pub data Verdict : Type 0 where
  skip stop : Verdict
  take : String → Verdict

abbrev is_none {ℓ} : {A : Type ℓ} → Option A → Bool
is_none none = true
is_none (some _) = false

-- The detail that `claim` builds for `_disk_headroom_allowed`.
abbrev measured : Real → Real → Fields
measured free floor =
    Json.field "disk_free_gib" (Json.float free)
      (Json.field "min_disk_free_gib" (Json.float floor) Json.end)

-- A test, and the verdict `skip` where it fails.
abbrev pub require : Bool → Result Verdict → Result Verdict
require true rest = rest
require false rest = ok skip

module _ (py : Python) (req : ClaimRequest) where
  -- claim_scope is None or claim_scope.permits(...)
  unfoldable pub scope_permits : Job → String → Result Bool
  unfolding permits tuple_of workflow_job_attempt
  scope_permits row profile = elim req.claim_scope [
    | none ↦ ok true
    | some scope ↦ do
      attempt ← workflow_job_attempt py row.payload
      ok (permits scope (tuple_of row profile attempt))
  ]

  -- The two floors are known and leave no room for the job's reservation.
  unfoldable pub headroom : Evidence → Option ℤ → Result Bool
  unfolding disk_headroom_allowed
  headroom ev required = elim ev.disk_free_gib [
    | none ↦ ok true
    | some free ↦ elim ev.min_disk_free_gib [
      | none ↦ ok true
      | some floor ↦ disk_headroom_allowed py (measured free floor) required
    ]
  ]

  unfoldable pub slot_query : Job → String → SlotQuery
  unfolding required_disk_mb minimum_free_gib maximum_concurrency lower
  slot_query row profile = record {
    profile = some profile;
    repository = some (lower row.repository);
    head_sha = some row.head_sha;
    profile_disk_mb = required_disk_mb py req row profile;
    repository_min_disk_free_gib = minimum_free_gib py req row;
    repository_max_concurrency = maximum_concurrency py req row;
  }

  -- tier == "reserve" and self._has_available_tier_slot(...)
  unfoldable pub left_to_primary : ℕ → Db → Job → String → Result Bool
  unfolding slot_query has_available_tier_slot
  left_to_primary now db row profile =
      if req.tier == "reserve"
      then has_available_tier_slot py db "primary" req.primary_max_age_seconds now
          (slot_query row profile)
      else ok false

  -- A reserve worker leaves the job to a primary one that could take it.
  unfoldable pub reserve_or_take : ℕ → Db → Job → String → Result Verdict
  unfolding left_to_primary
  reserve_or_take now db row profile = do
    primary ← left_to_primary now db row profile
    ok (if primary then stop else take profile)

  -- The tests that need no payload: hold, scope profiles and FIFO head.
  unfoldable pub queue_allows : Evidence → Option (List (String × ℕ)) → Db → Job → String → Bool
  unfolding held_back member lookup lower
  queue_allows ev heads db row profile =
      not (held_back db profile row)
      && (elim ev.scoped_profiles [ none ↦ true | some scoped ↦ member (lower profile) scoped ])
      && (elim heads [ none ↦ true | some found ↦ lookup (lower profile) found == some row.job_id ])

  -- The tests on disk and concurrency.
  unfoldable pub capacity_allows : Evidence → Job → String → Result Bool
  unfolding headroom required_disk_mb minimum_free_gib maximum_concurrency repository_worker_allowed
  capacity_allows ev row profile =
      if not (is_none req.profile_disk_mb) && is_none (required_disk_mb py req row profile)
      then ok false
      else if not (
          repository_worker_allowed ev.detail (minimum_free_gib py req row)
            (maximum_concurrency py req row))
      then ok false
      else headroom ev (required_disk_mb py req row profile)

  unfoldable pub consider_profile :
      Evidence → Option (List (String × ℕ)) → ℕ → Db → Job → String → Result Verdict
  unfolding queue_allows scope_permits capacity_allows reserve_or_take
  consider_profile ev heads now db row profile = require (queue_allows ev heads db row profile) (do
    permitted ← scope_permits row profile
    require permitted (do
      capable ← capacity_allows ev row profile
      require capable (reserve_or_take now db row profile)))

  unfoldable pub consider : Evidence → Option (List (String × ℕ)) → ℕ → Db → Job → Result Verdict
  unfolding consider_profile matching_profile differs
  consider ev heads now db row =
      require
        (not (differs req.repository row.repository) && not (differs req.head_sha row.head_sha))
        (elim (matching_profile req.profiles row) [
          | none ↦ ok skip
          | some profile ↦ consider_profile ev heads now db row profile
        ])

-- `for row in pending_rows`, for the verdicts `consider`.
unfoldable pub scan : (Job → Result Verdict) → List Job → Result (Option (Job × String))
scan verdict [] = ok none
scan verdict (row ∷ rows) = do
  v ← verdict row
  elim v [ skip ↦ scan verdict rows | stop ↦ ok none | take profile ↦ ok (some (row, profile)) ]
