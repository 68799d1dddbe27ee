-- ===== src/Store/Retries.antt =====
-- The retries of tests in src/qdev_runner/store.py: the table `test_retry_attempts`, with the
-- provider's answer as a value.
pub mod Linking
use qdev_runner_control_plan.Prelude.{
  ℕ, String, Bool, true, false, ◌&&◌, ◌||◌, Option, none, some, List, [], ◌∷◌, ◌++◌, if◌then◌else◌,
  ◌==◌, nat_eq, string_eq, option_eq, ltb, any, ◌!=◌, find, select, lower, take_text,
}
use qdev_runner_control_plan.Json
use qdev_runner_control_plan.Json.{Fields, put}
use qdev_runner_control_plan.Sql.{update}

pub data RetryState : Type 0 where
  requested dispatched ambiguous completed error : RetryState

-- state IN ('requested','dispatched','ambiguous')
abbrev pub is_outstanding : RetryState → Bool
is_outstanding requested = true
is_outstanding dispatched = true
is_outstanding ambiguous = true
is_outstanding _ = false

-- A row of `test_retry_attempts`.
pub record Retry : Type 0 where
  pub id : ℕ
  pub request_id : String
  pub source_job_id : ℕ
  pub repository : String
  pub source_run_id : ℕ
  pub source_job_attempt : ℕ
  pub expected_sha : String
  pub requested_by : String
  pub reason : String
  pub state : RetryState
  pub provider_response : Fields
  pub provider_run_id : Option ℕ
  pub provider_job_id : Option ℕ
  pub created_at : ℕ
  pub updated_at : ℕ

abbrev pub Retries : Type 0
Retries = List Retry

-- What the caller of `retry_attempt` gives.
pub record NewRetry : Type 0 where
  pub request_id : String
  pub source_job_id : ℕ
  pub repository : String
  pub source_run_id : ℕ
  pub source_job_attempt : ℕ
  pub expected_sha : String
  pub requested_by : String
  pub reason : String

unfoldable pub has_request : String → Retry → Bool
has_request request_id r = r.request_id == request_id

unfoldable pub retry_row : NewRetry → ℕ → ℕ → Retry
unfolding take_text
retry_row n id now = record {
  id = id;
  request_id = n.request_id;
  source_job_id = n.source_job_id;
  repository = n.repository;
  source_run_id = n.source_run_id;
  source_job_attempt = n.source_job_attempt;
  expected_sha = n.expected_sha;
  requested_by = take_text 256 n.requested_by;
  reason = take_text 512 n.reason;
  state = requested;
  provider_response = Json.end;
  provider_run_id = none;
  provider_job_id = none;
  created_at = now;
  updated_at = now;
}

-- `id` is the AUTOINCREMENT value that SQLite gives the row.
unfoldable pub retry_attempt : NewRetry → ℕ → ℕ → Retries → Retries × Retry × Bool
unfolding has_request retry_row find
retry_attempt n id now t = elim (find (has_request n.request_id) t) [
  | some existing ↦ (t, existing, true)
  | none ↦ (t ++ (retry_row n id now ∷ []), retry_row n id now, false)
]

unfoldable pub update_retry_attempt :
    String → RetryState → Option Fields → Option ℕ → Option ℕ → ℕ → Retries → Retries × Option Retry
unfolding has_request update find
update_retry_attempt request_id state response run_id job_id now t =
    let t' : Retries =
      update (has_request request_id)
        (λ r. record r {
          state = state;
          provider_response = elim response [ none ↦ r.provider_response | some given ↦ given ];
          provider_run_id = run_id;
          provider_job_id = job_id;
          updated_at = now;
        })
        t in
    (t', find (has_request request_id) t')

-- WHERE provider_job_id=?
unfoldable pub has_provider_job : ℕ → Retry → Bool
has_provider_job job_id r = r.provider_job_id == some job_id

unfoldable pub closes : ℕ → Retry → Bool
unfolding has_provider_job
closes job_id r = has_provider_job job_id r && is_outstanding r.state

-- One UPDATE sets the same answer in every row that it touches: that of the row that was read.
unfoldable pub closed_row : Fields → ℕ → Retry → Retry
closed_row response now r = record r {
  state = completed;
  provider_response = response;
  updated_at = now;
}

unfoldable pub complete_retry_for_provider_job : ℕ → String → ℕ → Retries → Retries × Option Retry
unfolding has_provider_job closes closed_row update find put take_text
complete_retry_for_provider_job job_id conclusion now t =
    if ltb job_id 1 then (t, none) else elim (find (has_provider_job job_id) t) [
      | none ↦ (t, none)
      | some row ↦
          let response : Fields =
            put row.provider_response "conclusion" (Json.str (take_text 128 conclusion)) in
          let t' : Retries = update (closes job_id) (closed_row response now) t in
          (t', find (has_provider_job job_id) t')
    ]

-- WHERE provider_run_id=? AND provider_job_id=?
unfoldable pub is_linked : ℕ → ℕ → Retry → Bool
is_linked run_id job_id r = r.provider_run_id == some run_id && r.provider_job_id == some job_id

-- WHERE repository=? AND lower(expected_sha)=? AND state IN (...)
unfoldable pub is_candidate : String → String → Retry → Bool
unfolding lower
is_candidate repository sha r =
    r.repository == repository && lower r.expected_sha == sha && is_outstanding r.state

unfoldable pub linked_row : ℕ → ℕ → ℕ → Retry → Retry
linked_row run_id job_id now r = record r {
  state = dispatched;
  provider_run_id = some run_id;
  provider_job_id = some job_id;
  updated_at = now;
}

-- The candidates and what follows from them; their order does not matter to a list of one.
unfoldable pub link_candidates : ℕ → ℕ → ℕ → Retries → Retries → Retries × Option Retry
unfolding has_request linked_row update find
link_candidates run_id job_id now t [] = (t, none)
link_candidates run_id job_id now t (c ∷ []) =
    let t' : Retries = update (has_request c.request_id) (linked_row run_id job_id now) t in
    (t', find (has_request c.request_id) t')
link_candidates run_id job_id now t (c ∷ d ∷ cs) = (t, none)

unfoldable pub link_retry_provider_job :
    String → String → ℕ → ℕ → ℕ → Retries → Retries × Option Retry
unfolding is_linked is_candidate link_candidates select find lower
link_retry_provider_job repository expected_sha run_id job_id now t =
    if ltb run_id 1 || ltb job_id 1 then (t, none) else elim (find (is_linked run_id job_id) t) [
      | some existing ↦ (t, some existing)
      | none ↦
          link_candidates run_id job_id now t
            (select (is_candidate repository (lower expected_sha)) t)
    ]

-- A row of `test_retry_requests`.
pub record RetryRequest : Type 0 where
  pub job_id : ℕ
  pub requested_at : ℕ
  pub requested_by : String

-- INSERT OR IGNORE, with the primary key job_id
unfoldable pub request_test_retry : ℕ → String → ℕ → List RetryRequest → List RetryRequest × Bool
unfolding any take_text
request_test_retry job_id requested_by now t =
    if any (λ (r : RetryRequest). r.job_id == job_id) t then (t, false) else (
      t
          ++ (record {
            job_id = job_id;
            requested_at = now;
            requested_by = take_text 256 requested_by;
          }
              ∷ []),
      true,
    )

-- DELETE
unfoldable pub clear_test_retry : ℕ → List RetryRequest → List RetryRequest
unfolding select
clear_test_retry job_id t = select (λ (r : RetryRequest). r.job_id != job_id) t
