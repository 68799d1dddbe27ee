-- ===== src/ClaimScope/Document.antt =====
-- The document of scopes in src/qdev_runner/claim_scope.py: a scope's entry, read and written. The
-- clock texts are parameters: `read_time` is `datetime.fromisoformat` after the replacement of `Z`
-- (nothing for a ValueError, no time without a timezone), `iso` is `isoformat` of a UTC time.
use qdev_runner_control_plan.Prelude.{
  ℕ, suc, String, Bool, true, false, ◌&&◌, ◌||◌, not, Option, none, some, List, [], ◌∷◌, ◌==◌, ◌!=◌,
  nat_eq, string_eq, option_eq, int_eq, ltb, Result, ok, raise, refuse, ◌>>=◌, ◌>>◌,
  claim_scope_error, assertion_error, any, member,
}
use qdev_runner_control_plan.Json.{Json, Items, Fields, null, arr, nil, cons, get, get_or}
use qdev_runner_control_plan.ClaimScope.{
  ScopedJob, ScopedFifoSkip, ClaimScope, schema_v1, schema_v2, allowed_profiles,
  managed_exact_candidate,
}
use qdev_runner_control_plan.ClaimScope.Parse.{
  qgeo_repository, required_string, positive_int, as_dict, as_list, optional_string,
  parse_certificate, parse_v2_job, parse_v2_fifo_skip,
}

-- s.endswith(t)
unfoldable pub ends_with : String → String → Bool
ends_with String.[] t = t == ""
ends_with (String.◌∷◌ c s) t = String.◌∷◌ c s == t || ends_with s t

-- [f(item) for item in xs]
unfoldable pub parse_all : {A : Type 0} → (Json → Result A) → Items → Result (List A)
parse_all f nil = ok []
parse_all f (cons v xs) = f v >>= λ a. parse_all f xs >>= λ rest. ok (a ∷ rest)

-- len(set(xs)) == len(xs), for the equality `same`
unfoldable pub all_distinct : {A : Type 0} → (A → A → Bool) → List A → Bool
unfolding any
all_distinct same [] = true
all_distinct same (x ∷ xs) = not (any (same x) xs) && all_distinct same xs

abbrev pub same_id : ScopedJob → ScopedJob → Bool
same_id a b = a.job_id == b.job_id

-- Equality of the immutable tuples.
unfoldable pub same_job : ScopedJob → ScopedJob → Bool
same_job a b =
    a.repository == b.repository
    && a.run_id == b.run_id
    && a.job_id == b.job_id
    && a.attempt == b.attempt
    && a.exact_sha == b.exact_sha
    && a.profile == b.profile

unfoldable pub same_skip : ScopedFifoSkip → ScopedFifoSkip → Bool
same_skip a b =
    a.repository == b.repository
    && a.run_id == b.run_id
    && a.job_id == b.job_id
    && a.attempt == b.attempt
    && a.exact_sha == b.exact_sha
    && a.profile == b.profile

unfoldable pub same_tuple : ScopedJob → ScopedFifoSkip → Bool
same_tuple a b =
    a.repository == some b.repository
    && a.run_id == some b.run_id
    && a.job_id == b.job_id
    && a.attempt == some b.attempt
    && a.exact_sha == some b.exact_sha
    && a.profile == b.profile

abbrev pub size : Items → ℕ
size nil = 0
size (cons v xs) = suc (size xs)

abbrev pub no_items : Items → Bool
no_items nil = true
no_items (cons v xs) = false

-- The repository and the SHA of the first job; the list has one, since `jobs` is not empty.
unfoldable pub first_binding : List ScopedJob → Result (String × String)
first_binding [] = raise assertion_error
first_binding (job ∷ jobs) = elim job.repository [
  | none ↦ raise assertion_error
  | some repository ↦ elim job.exact_sha [
    | none ↦ raise assertion_error
    | some sha ↦ ok (repository, sha)
  ]
]

-- fifo_exception == "managed-exact-candidate" and some job is of another repository or SHA
unfoldable pub breaks_exception : Option String → List ScopedJob → String → Bool
unfolding any
breaks_exception fifo_exception jobs sha =
    fifo_exception == some managed_exact_candidate
    && any (λ (j : ScopedJob). j.repository != some qgeo_repository || j.exact_sha != some sha) jobs

-- The checks of the two lists of a v2 scope.
unfoldable pub check_tuples : List ScopedJob → List ScopedFifoSkip → Result (Unit {0})
unfolding all_distinct same_job same_skip same_tuple any
check_tuples jobs skips = do
  refuse (not (all_distinct same_id jobs)) (claim_scope_error "claim scope job IDs must be unique")
  refuse (not (all_distinct same_job jobs))
      (claim_scope_error "claim scope immutable job tuples must be unique")
  refuse (not (all_distinct same_skip skips))
      (claim_scope_error "claim scope fifo skip tuples must be unique")
  refuse (any (λ (j : ScopedJob). any (same_tuple j) skips) jobs)
      (claim_scope_error "claim scope jobs and fifo skips must not overlap")

-- The profile of each job of an older scope.
unfoldable pub parse_v1_job : String → Json → Result ScopedJob
unfolding get positive_int required_string member
parse_v1_job schema value = do
  raw ← as_dict value "claim scope job must be an object"
  job_id ← positive_int (get_or raw "job_id" null) "job_id"
  profile ← required_string (get_or raw "profile" null) "job profile"
  refuse (schema == schema_v1 && not (member profile allowed_profiles))
      (claim_scope_error "claim scope job profile is not allowlisted")
  ok (record {
    job_id = job_id;
    profile = profile;
    repository = none;
    run_id = none;
    attempt = none;
    exact_sha = none;
  })

module _ (read_time : String → Option (Option ℕ)) (iso : ℕ → String) where
  -- _parse_expiry
  unfoldable pub parse_expiry : Json → Result ℕ
  unfolding required_string
  parse_expiry value = do
    raw ← required_string value "expires_at"
    elim (read_time raw) [
      | none ↦ raise (claim_scope_error "claim scope expires_at must be RFC3339")
      | some parsed ↦ elim parsed [
        | none ↦ raise (claim_scope_error "claim scope expires_at must include a timezone")
        | some at ↦ ok at
      ]
    ]

  -- The branch of a v2 scope.
  unfoldable pub parse_v2 : Fields → String → String → String → Items → Result ClaimScope
  unfolding get required_string parse_all parse_v2_job parse_v2_fifo_skip check_tuples first_binding
      breaks_exception parse_expiry parse_certificate
  parse_v2 raw scope_id worker_name tier jobs_raw = do
    host ← required_string (get_or raw "host" null) "host"
    runner ← required_string (get_or raw "runner" null) "runner"
    correlation_id ← required_string (get_or raw "correlation_id" null) "correlation_id"
    fifo_exception ← optional_string (get_or raw "fifo_exception" null) "fifo_exception"
    refuse (elim fifo_exception [ none ↦ false | some s ↦ s != managed_exact_candidate ])
        (claim_scope_error "claim scope fifo_exception is unsupported")
    jobs ← parse_all parse_v2_job jobs_raw
    skips_raw ←
        as_list (get_or raw "fifo_skipped" (arr nil))
          "claim scope fifo_skipped must be a bounded list"
    refuse (ltb 512 (size skips_raw))
        (claim_scope_error "claim scope fifo_skipped must be a bounded list")
    skips ← parse_all parse_v2_fifo_skip skips_raw
    check_tuples jobs skips
    first ← first_binding jobs
    refuse (breaks_exception fifo_exception jobs first.1)
        (claim_scope_error "managed exact candidate fifo_exception requires one QGeo SHA")
    expires_at ← parse_expiry (get_or raw "expires_at" null)
    certificate ← parse_certificate raw
    ok (record {
      scope_id = scope_id;
      worker_name = worker_name;
      tier = tier;
      repository = first.0;
      head_sha = first.1;
      expires_at = expires_at;
      jobs = jobs;
      worker_certificate_sha256 = certificate;
      schema = schema_v2;
      host = some host;
      runner = some runner;
      correlation_id = some correlation_id;
      fifo_skipped = skips;
      fifo_exception = fifo_exception;
    })
