-- ===== src/ClaimScope/Looks.antt =====
-- The entry of a v2 scope, key by key, and what the parser of the v2 branch reads from it.
use qdev_runner_control_plan.Prelude.{
  ℕ, String, ◌≡◌, refl, ◌∙◌, ap, subst, Bool, false, not, Option, none, some, ◌==◌, nat_eq,
  string_eq, option_eq, ltb, ok, >>=-eq-ok, ok-eq-ok, passed, is_hex_text, strip,
}
use qdev_runner_control_plan.Json.{Items, Fields, null, str, arr, nil, end, field, get, get_or}
use qdev_runner_control_plan.ClaimScope.{schema_v2}
use qdev_runner_control_plan.ClaimScope.Parse.{
  required_string, as_list, optional_string, parse_certificate, parse_v2_job, parse_v2_fifo_skip,
}
use qdev_runner_control_plan.ClaimScope.Document.{parse_expiry}
use qdev_runner_control_plan.ClaimScope.Container.{
  opt_str, job_entry, skip_entry, entries, given_fields,
}
use qdev_runner_control_plan.ClaimScope.Again.{required-again, optional-again, parse_v2_job-again}
use qdev_runner_control_plan.ClaimScope.Entries.{
  parse_v2_fifo_skip-again, parse_all-entries, size-entries,
}
use qdev_runner_control_plan.ClaimScope.RoundTrip.{Parsed, ReadsV2}

-- The keys of an entry.
pub record Looks (d : Fields) (iso : ℕ → String) (p : Parsed)
    (certificate exception : Option String) : Type 0 where
  pub scope_id : get_or d "scope_id" null ≡ str p.scope_id
  pub worker_name : get_or d "worker_name" null ≡ str p.worker_name
  pub tier : get_or d "tier" null ≡ str p.tier
  pub expires_at : get_or d "expires_at" null ≡ str (iso p.expires_at)
  pub certificate_sha : get_or d "worker_certificate_sha256" null ≡ opt_str certificate
  pub host : get_or d "host" null ≡ str p.host
  pub runner : get_or d "runner" null ≡ str p.runner
  pub correlation : get_or d "correlation_id" null ≡ str p.correlation_id
  pub fifo_exception : get_or d "fifo_exception" null ≡ opt_str exception
  pub jobs : get_or d "jobs" null ≡ arr (entries job_entry p.jobs)
  pub skips : get_or d "fifo_skipped" (arr nil) ≡ arr (entries skip_entry p.skips)

abbrev pub entry_of : (ℕ → String) → Parsed → Option String → Option String → Fields
entry_of iso p certificate exception = field "schema" (str schema_v2) (
    field "scope_id" (str p.scope_id) (
      field "worker_name" (str p.worker_name) (
        field "tier" (str p.tier) (
          field "expires_at" (str (iso p.expires_at)) (
            field "worker_certificate_sha256" (opt_str certificate) (
              field "host" (str p.host) (
                field "runner" (str p.runner) (
                  field "correlation_id" (str p.correlation_id) (
                    field "fifo_exception" (opt_str exception) (
                      field "jobs" (arr (entries job_entry p.jobs))
                        (field "fifo_skipped" (arr (entries skip_entry p.skips)) end)))))))))))

pub looks :
    (iso : ℕ → String) (p : Parsed) (certificate exception : Option String)
    → Looks (given_fields (entry_of iso p certificate exception)) iso p certificate exception
unfolding given_fields get
looks iso p none none = record {
  scope_id = refl;
  worker_name = refl;
  tier = refl;
  expires_at = refl;
  certificate_sha = refl;
  host = refl;
  runner = refl;
  correlation = refl;
  fifo_exception = refl;
  jobs = refl;
  skips = refl;
}
looks iso p none (some x) = record {
  scope_id = refl;
  worker_name = refl;
  tier = refl;
  expires_at = refl;
  certificate_sha = refl;
  host = refl;
  runner = refl;
  correlation = refl;
  fifo_exception = refl;
  jobs = refl;
  skips = refl;
}
looks iso p (some c) none = record {
  scope_id = refl;
  worker_name = refl;
  tier = refl;
  expires_at = refl;
  certificate_sha = refl;
  host = refl;
  runner = refl;
  correlation = refl;
  fifo_exception = refl;
  jobs = refl;
  skips = refl;
}
looks iso p (some c) (some x) = record {
  scope_id = refl;
  worker_name = refl;
  tier = refl;
  expires_at = refl;
  certificate_sha = refl;
  host = refl;
  runner = refl;
  correlation = refl;
  fifo_exception = refl;
  jobs = refl;
  skips = refl;
}

abbrev malformed : Option String → Bool
malformed none = false
malformed (some s) = not (is_hex_text 64 s)

certificate-again :
    (raw d : Fields) {c : Option String}
    → parse_certificate raw ≡ ok c
    → get_or d "worker_certificate_sha256" null ≡ opt_str c
    → parse_certificate d ≡ ok c
unfolding parse_certificate
certificate-again raw d {c} h look =
    let (value, e, h₁) =
      >>=-eq-ok
        (optional_string (get_or raw "worker_certificate_sha256" null) "worker_certificate_sha256")
        _ h in
    let (hex, h₂) = passed (malformed value) _ _ h₁ in
    let same : value ≡ c = ok-eq-ok h₂ in
    let read : optional_string (opt_str value) "worker_certificate_sha256" ≡ ok value =
      optional-again (get_or raw "worker_certificate_sha256" null) "worker_certificate_sha256" e
        "worker_certificate_sha256" in
    certificate-read d c look
      (subst (λ (o : Option String). optional_string (opt_str o) "worker_certificate_sha256" ≡ ok o)
        same read)
      (subst (λ (o : Option String). malformed o ≡ false) same hex)
  where
    certificate-read :
        (d : Fields) (c : Option String)
        → get_or d "worker_certificate_sha256" null ≡ opt_str c
        → optional_string (opt_str c) "worker_certificate_sha256" ≡ ok c
        → malformed c ≡ false
        → parse_certificate d ≡ ok c
    certificate-read d c look read fine = rw (parse_certificate, look, read, fine) refl

-- `isoformat` writes a UTC time that `fromisoformat` reads.
abbrev pub IsClock : (String → Option (Option ℕ)) → (ℕ → String) → Type 0
IsClock read_time iso =
    (at : ℕ)
    → (read_time (iso at) ≡ some (some at)) × (strip (iso at) ≡ iso at) × ((iso at == "") ≡ false)

module _ (read_time : String → Option (Option ℕ)) (iso : ℕ → String)
    (clock : IsClock read_time iso) where
  expiry-read : (at : ℕ) → parse_expiry read_time iso (str (iso at)) ≡ ok at
  unfolding parse_expiry required_string
  expiry-read at = let (r, s, f) = clock at in rw (s, f, r) refl

  pub reads-again :
      (raw : Fields) (jobs_raw : Items) (p : Parsed)
      → ReadsV2 read_time iso raw jobs_raw p
      → ReadsV2 read_time iso
          (given_fields (entry_of iso p p.certificate p.exception))
          (entries job_entry p.jobs)
          p
  reads-again raw jobs_raw p r =
      let d : Fields = given_fields (entry_of iso p p.certificate p.exception) in
      let l = looks iso p p.certificate p.exception in
      record {
        host_read =
            ap (λ v. required_string v "host") l.host
            ∙ required-again (get_or raw "host" null) "host" r.host_read "host";
        runner_read =
            ap (λ v. required_string v "runner") l.runner
            ∙ required-again (get_or raw "runner" null) "runner" r.runner_read "runner";
        correlation_read =
            ap (λ v. required_string v "correlation_id") l.correlation
            ∙ required-again (get_or raw "correlation_id" null) "correlation_id" r.correlation_read
                "correlation_id";
        exception_read =
            ap (λ v. optional_string v "fifo_exception") l.fifo_exception
            ∙ optional-again (get_or raw "fifo_exception" null) "fifo_exception" r.exception_read
                "fifo_exception";
        jobs_read =
            parse_all-entries parse_v2_job job_entry (λ v a e. parse_v2_job-again v e) jobs_raw
              r.jobs_read;
        skips_raw = entries skip_entry p.skips;
        skips_list = ap (λ v. as_list v "claim scope fifo_skipped must be a bounded list") l.skips;
        skips_bound =
            ap (ltb 512) (size-entries parse_v2_fifo_skip skip_entry r.skips_raw r.skips_read)
            ∙ r.skips_bound;
        skips_read =
            parse_all-entries parse_v2_fifo_skip skip_entry (λ v a e. parse_v2_fifo_skip-again v e)
              r.skips_raw r.skips_read;
        expires_read =
            ap (λ v. parse_expiry read_time iso v) l.expires_at ∙ expiry-read p.expires_at;
        certificate_read = certificate-again raw d r.certificate_read l.certificate_sha;
      }
