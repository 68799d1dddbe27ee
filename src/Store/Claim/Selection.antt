-- ===== src/Store/Claim/Selection.antt =====
-- The loops of `Store.claim` over the pending rows: the FIFO head of each profile, and the first
-- row that the worker may take.
use qdev_runner_control_plan.Prelude.{
  ℕ, suc, String, Bool, false, ◌&&◌, ◌||◌, Option, none, some, List, [], ◌∷◌, map, if◌then◌else◌,
  not, ◌==◌, ◌!=◌, nat_eq, string_eq, option_eq, leb, ℤ, Real, Result, ok, ◌>>=◌, find, member,
  select, lower, lookup,
}
use qdev_runner_control_plan.Json.{Python}
use qdev_runner_control_plan.ClaimScope.{
  ScopedJob, ClaimScope, JobTuple, schema_v2, managed_exact_candidate, skips,
}
use qdev_runner_control_plan.Sql.{order_by}
use qdev_runner_control_plan.Store.Tables.{is_claimed, Job, Db}
use qdev_runner_control_plan.Store.Queue.{queued_before}
use qdev_runner_control_plan.Store.Release.{is_held}
use qdev_runner_control_plan.Store.Payload.{workflow_job_attempt}
use qdev_runner_control_plan.Store.Claim.Request.{ClaimRequest, is_v2}

-- d.get((first, second), default)
lookup_pair : String → String → List (String × String × ℤ) → Option ℤ → Option ℤ
lookup_pair a b [] default = default
lookup_pair a b ((i, j, v) ∷ d) default =
    if i == a && j == b then some v else lookup_pair a b d default

-- next((p for p in profiles if p.lower() in labels), None)
unfoldable pub matching_profile : List String → Job → Option String
unfolding find member lower
matching_profile profiles row = find (λ p. member (lower p) (map lower row.labels)) profiles

-- wanted is not None and actual.lower() != wanted.lower()
unfoldable pub differs : Option String → String → Bool
unfolding lower
differs none actual = false
differs (some wanted) actual = lower actual != lower wanted

-- The offline-runner holds that still pin a claimed row, oldest first, and the first of a profile.
unfoldable pub held_rows : Db → List Job
unfolding select order_by queued_before is_held
held_rows db =
    order_by queued_before
      (select (λ row. is_held db row && is_claimed row.status && row.profile != none) db.jobs)

unfoldable pub profile_is : String → Job → Bool
unfolding lower
profile_is profile row = elim row.profile [ none ↦ false | some p ↦ lower p == lower profile ]

-- The row stands behind, or is, the held head of its profile.
unfoldable pub held_back : Db → String → Job → Bool
unfolding held_rows profile_is find queued_before
held_back db profile row = elim (find (profile_is profile) (held_rows db)) [
  | none ↦ false
  | some head ↦ queued_before head row
]

-- item.job_id's place in the scope, or the number of its jobs.
unfoldable pub rank : ℕ → List ScopedJob → ℕ
rank job_id [] = 0
rank job_id (item ∷ items) = if item.job_id == job_id then 0 else suc (rank job_id items)

-- A v1 scope is an explicit sequence; the sort is stable.
unfoldable pub scan_order : Option ClaimScope → List Job → List Job
unfolding rank order_by
scan_order none rows = rows
scan_order (some scope) rows =
    if scope.schema == schema_v2
    then rows
    else order_by (λ a b. leb (rank a.job_id scope.jobs) (rank b.job_id scope.jobs)) rows

unfoldable pub enforces_profile_fifo : ClaimRequest → Bool
enforces_profile_fifo req =
    let managed_exact_exception : Bool = elim req.claim_scope [
      | none ↦ false
      | some scope ↦
          scope.schema == schema_v2 && scope.fifo_exception == some managed_exact_candidate
    ] in
    not managed_exact_exception
    && (is_v2 req.claim_scope || req.repository != none || req.head_sha != none)

unfoldable pub tuple_of : Job → String → Option ℤ → JobTuple
tuple_of row profile attempt = record {
  job_id = row.job_id;
  repository = row.repository;
  head_sha = row.head_sha;
  profile = profile;
  run_id = some row.run_id;
  attempt = attempt;
}

module _ (py : Python) (req : ClaimRequest) where
  -- claim_scope.skips(...) for one of the revalidated skips
  unfoldable pub skipped : List ℕ → Job → String → Result Bool
  unfolding tuple_of workflow_job_attempt skips member
  skipped skip_ids row profile = elim req.claim_scope [
    | none ↦ ok false
    | some scope ↦ if not (member row.job_id skip_ids) then ok false else (do
      attempt ← workflow_job_attempt py row.payload
      ok (skips scope (tuple_of row profile attempt)))
  ]

  -- The row's entry for `profile_heads`, if it counts.
  unfoldable pub head_entry : List ℕ → Job → Result (Option (String × ℕ))
  unfolding skipped matching_profile differs lower
  head_entry skip_ids row =
      if is_v2 req.claim_scope
        && (differs req.repository row.repository || differs req.head_sha row.head_sha)
      then ok none
      else elim (matching_profile req.profiles row) [
        | none ↦ ok none
        | some profile ↦ do
          skip ← skipped skip_ids row profile
          ok (if skip then none else some (lower profile, row.job_id))
      ]

  -- `profile_heads`: `setdefault` keeps the first entry of a profile, which is the one looked up.
  unfoldable pub profile_heads : List ℕ → List Job → Result (List (String × ℕ))
  unfolding head_entry
  profile_heads skip_ids [] = ok []
  profile_heads skip_ids (row ∷ rows) = do
    entry ← head_entry skip_ids row
    rest ← profile_heads skip_ids rows
    ok (elim entry [ none ↦ rest | some e ↦ e ∷ rest ])

  unfoldable pub required_disk_mb : Job → String → Option ℤ
  unfolding lookup lookup_pair lower
  required_disk_mb row profile = elim req.profile_disk_mb [
    | none ↦ none
    | some sizes ↦
        let default : Option ℤ = lookup profile sizes in
        elim req.repository_profile_disk_mb [
          | none ↦ default
          | some overrides ↦ lookup_pair (lower row.repository) (lower profile) overrides default
        ]
  ]

  unfoldable pub minimum_free_gib : Job → Option Real
  unfolding lookup lower
  minimum_free_gib row = elim req.repository_min_disk_free_gib [
    | none ↦ none
    | some limits ↦ lookup (lower row.repository) limits
  ]

  unfoldable pub maximum_concurrency : Job → Option ℤ
  unfolding lookup lower
  maximum_concurrency row = elim req.repository_max_concurrency [
    | none ↦ none
    | some limits ↦ lookup (lower row.repository) limits
  ]
