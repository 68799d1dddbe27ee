-- ===== src/ClaimScope/RoundTrip.antt =====
-- The v2 branch of `_parse_scope` (src/qdev_runner/claim_scope.py), taken apart into its reads and
-- its checks.
use qdev_runner_control_plan.Prelude.{
  ℕ, String, ◌≡◌, refl, Bool, false, Option, none, some, List, ◌!=◌, nat_eq, string_eq, option_eq,
  ltb, ok, >>=-eq-ok, ok-eq-ok, passed,
}
use qdev_runner_control_plan.Json.{Items, Fields, null, arr, nil, get_or}
use qdev_runner_control_plan.ClaimScope.{
  ScopedJob, ScopedFifoSkip, ClaimScope, schema_v2, managed_exact_candidate,
}
use qdev_runner_control_plan.ClaimScope.Parse.{
  required_string, as_list, optional_string, parse_certificate, parse_v2_job, parse_v2_fifo_skip,
}
use qdev_runner_control_plan.ClaimScope.Document.{
  size, parse_all, first_binding, breaks_exception, check_tuples, parse_expiry, parse_v2,
}

abbrev unsupported : Option String → Bool
unsupported none = false
unsupported (some s) = s != managed_exact_candidate

-- What the parser of a v2 scope puts together.
pub record Parsed : Type 0 where
  pub scope_id : String
  pub worker_name : String
  pub tier : String
  pub repository : String
  pub head_sha : String
  pub expires_at : ℕ
  pub jobs : List ScopedJob
  pub certificate : Option String
  pub host : String
  pub runner : String
  pub correlation_id : String
  pub skips : List ScopedFifoSkip
  pub exception : Option String

abbrev pub scope_of : Parsed → ClaimScope
scope_of p = record {
  scope_id = p.scope_id;
  worker_name = p.worker_name;
  tier = p.tier;
  repository = p.repository;
  head_sha = p.head_sha;
  expires_at = p.expires_at;
  jobs = p.jobs;
  worker_certificate_sha256 = p.certificate;
  schema = schema_v2;
  host = some p.host;
  runner = some p.runner;
  correlation_id = some p.correlation_id;
  fifo_skipped = p.skips;
  fifo_exception = p.exception;
}

module _ (read_time : String → Option (Option ℕ)) (iso : ℕ → String) where
  -- What the reads of a v2 entry return.
  pub record ReadsV2 (raw : Fields) (jobs_raw : Items) (p : Parsed) : Type 0 where
    pub host_read : required_string (get_or raw "host" null) "host" ≡ ok p.host
    pub runner_read : required_string (get_or raw "runner" null) "runner" ≡ ok p.runner
    pub correlation_read :
        required_string (get_or raw "correlation_id" null) "correlation_id" ≡ ok p.correlation_id
    pub exception_read :
        optional_string (get_or raw "fifo_exception" null) "fifo_exception" ≡ ok p.exception
    pub jobs_read : parse_all parse_v2_job jobs_raw ≡ ok p.jobs
    pub skips_raw : Items
    pub skips_list :
        as_list
          (get_or raw "fifo_skipped" (arr nil))
          "claim scope fifo_skipped must be a bounded list"
        ≡ ok skips_raw
    pub skips_bound : ltb 512 (size skips_raw) ≡ false
    pub skips_read : parse_all parse_v2_fifo_skip skips_raw ≡ ok p.skips
    pub expires_read : parse_expiry read_time iso (get_or raw "expires_at" null) ≡ ok p.expires_at
    pub certificate_read : parse_certificate raw ≡ ok p.certificate

  -- What holds of a parsed v2 scope, whatever its entry.
  pub record IsV2 (p : Parsed) : Type 0 where
    pub supported : unsupported p.exception ≡ false
    pub tuples : check_tuples p.jobs p.skips ≡ ok tt
    pub first : first_binding p.jobs ≡ ok (p.repository, p.head_sha)
    pub consistent : breaks_exception p.exception p.jobs p.head_sha ≡ false

  pub parse_v2-read :
      (raw : Fields) (jobs_raw : Items) (p : Parsed)
      → ReadsV2 raw jobs_raw p
      → IsV2 p
      → parse_v2 read_time iso raw p.scope_id p.worker_name p.tier jobs_raw ≡ ok (scope_of p)
  unfolding parse_v2
  parse_v2-read raw jobs_raw p r v =
      rw
        (
          r.host_read, r.runner_read, r.correlation_read, r.exception_read, v.supported,
          r.jobs_read, r.skips_list, r.skips_bound, r.skips_read, v.tuples, v.first, v.consistent,
          r.expires_read, r.certificate_read,
        )
        refl

  pub parse_v2-eq-ok :
      (raw : Fields) (scope_id worker_name tier : String) (jobs_raw : Items) {s : ClaimScope}
      → parse_v2 read_time iso raw scope_id worker_name tier jobs_raw ≡ ok s
      → (p : Parsed) × (scope_of p ≡ s)
        × (p.scope_id ≡ scope_id)
        × (p.worker_name ≡ worker_name)
        × (p.tier ≡ tier)
        × ReadsV2 raw jobs_raw p
        × IsV2 p
  unfolding parse_v2
  parse_v2-eq-ok raw scope_id worker_name tier jobs_raw h =
      let (host, e₁, h₁) = >>=-eq-ok (required_string (get_or raw "host" null) "host") _ h in
      let (runner, e₂, h₂) = >>=-eq-ok (required_string (get_or raw "runner" null) "runner") _ h₁ in
      let (correlation_id, e₃, h₃) =
        >>=-eq-ok (required_string (get_or raw "correlation_id" null) "correlation_id") _ h₂ in
      let (exception, e₄, h₄) =
        >>=-eq-ok (optional_string (get_or raw "fifo_exception" null) "fifo_exception") _ h₃ in
      let (supported, h₅) = passed (unsupported exception) _ _ h₄ in
      let (jobs, e₅, h₆) = >>=-eq-ok (parse_all parse_v2_job jobs_raw) _ h₅ in
      let (skips_raw, e₆, h₇) =
        >>=-eq-ok
          (as_list (get_or raw "fifo_skipped" (arr nil))
            "claim scope fifo_skipped must be a bounded list")
          _ h₆ in
      let (bound, h₈) = passed (ltb 512 (size skips_raw)) _ _ h₇ in
      let (skips, e₇, h₉) = >>=-eq-ok (parse_all parse_v2_fifo_skip skips_raw) _ h₈ in
      let (_, tuples, h₁₀) = >>=-eq-ok (check_tuples jobs skips) _ h₉ in
      let (first, e₈, h₁₁) = >>=-eq-ok (first_binding jobs) _ h₁₀ in
      let (consistent, h₁₂) = passed (breaks_exception exception jobs first.1) _ _ h₁₁ in
      let (expires_at, e₉, h₁₃) =
        >>=-eq-ok (parse_expiry read_time iso (get_or raw "expires_at" null)) _ h₁₂ in
      let (certificate, e₁₀, h₁₄) = >>=-eq-ok (parse_certificate raw) _ h₁₃ in
      (
        record {
          scope_id = scope_id;
          worker_name = worker_name;
          tier = tier;
          repository = first.0;
          head_sha = first.1;
          expires_at = expires_at;
          jobs = jobs;
          certificate = certificate;
          host = host;
          runner = runner;
          correlation_id = correlation_id;
          skips = skips;
          exception = exception;
        },
        ok-eq-ok h₁₄,
        refl,
        refl,
        refl,
        record {
          host_read = e₁;
          runner_read = e₂;
          correlation_read = e₃;
          exception_read = e₄;
          jobs_read = e₅;
          skips_raw = skips_raw;
          skips_list = e₆;
          skips_bound = bound;
          skips_read = e₇;
          expires_read = e₉;
          certificate_read = e₁₀;
        },
        record { supported = supported; tuples = tuples; first = e₈; consistent = consistent },
      )
