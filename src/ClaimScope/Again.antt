-- ===== src/ClaimScope/Again.antt =====
-- Reading a parsed value back from what is written for it: texts, numbers and the jobs of a v2 scope,
-- as `_parse_v2_job` and `_scope_entry` of src/qdev_runner/claim_scope.py treat them.
use qdev_runner_control_plan.Prelude.{
  ℕ, String, ◌⊎◌, ◌≡◌, refl, subst, false, not, Option, none, some, arith, ◌==◌, nat_eq, string_eq,
  option_eq, int_eq, pos, Result, ok, raise, ◌>>=◌, >>=-eq-ok, ok-eq-ok, passed, Bool-cases, inl,
  inr, member, strip, strip_idem, is_hex_text,
}
use qdev_runner_control_plan.Json.{Json, null, bool, int, float, str, arr, obj, get, get_or}
use qdev_runner_control_plan.Prelude.{negsuc}
use qdev_runner_control_plan.ClaimScope.{ScopedJob}
use qdev_runner_control_plan.ClaimScope.Parse.{
  required_string, positive_int, as_dict, optional_string, portfolio_profiles, parse_v2_job,
}
use qdev_runner_control_plan.ClaimScope.Container.{opt_str, job_entry}

pub required-again :
    (v : Json) (name : String) {s : String}
    → required_string v name ≡ ok s
    → (again : String) → required_string (str s) again ≡ ok s
unfolding required_string
required-again (str t) name {s} h again = elim (Bool-cases (strip t == "")) [
  | inl y ↦ absurd (let k = rw y at h in cc)
  | inr n ↦
      let same : strip t ≡ s = ground (arith, n, rw n at h) in
      let clean : strip s ≡ s = subst (λ (x : String). strip x ≡ x) same (strip_idem t) in
      let full : (s == "") ≡ false = subst (λ (x : String). (x == "") ≡ false) same n in
      rw (clean, full) refl
]
required-again null name h again = cc
required-again (bool b) name h again = cc
required-again (int z) name h again = cc
required-again (float x) name h again = cc
required-again (arr xs) name h again = cc
required-again (obj d) name h again = cc

wrapped :
    (r : Result String) {o : Option String}
    → (r >>= λ s. ok (some s)) ≡ ok o
    → (s : String) × (r ≡ ok s) × (o ≡ some s)
wrapped (raise e) h = cc
wrapped (ok s) {o} h = (s, refl, ground arith)

-- A text that is given, or None.
optional-eq-ok :
    (v : Json) (name : String) {o : Option String}
    → optional_string v name ≡ ok o
    → (o ≡ none) ⊎ ((s : String) × (required_string v name ≡ ok s) × (o ≡ some s))
optional-eq-ok null name h = inl (ground arith)
optional-eq-ok (str t) name h = inr (wrapped (required_string (str t) name) h)
optional-eq-ok (bool b) name h = inr (wrapped (required_string (bool b) name) h)
optional-eq-ok (int z) name h = inr (wrapped (required_string (int z) name) h)
optional-eq-ok (float x) name h = inr (wrapped (required_string (float x) name) h)
optional-eq-ok (arr xs) name h = inr (wrapped (required_string (arr xs) name) h)
optional-eq-ok (obj d) name h = inr (wrapped (required_string (obj d) name) h)

pub optional-again :
    (v : Json) (name : String) {o : Option String}
    → optional_string v name ≡ ok o
    → (again : String) → optional_string (opt_str o) again ≡ ok o
optional-again v name h again = elim (optional-eq-ok v name h) [
  | inl e ↦ rw e refl
  | inr (s, e, f) ↦ rw (f, required-again v name e again) refl
]

pub positive-again :
    (v : Json) (name : String) {n : ℕ}
    → positive_int v name ≡ ok n
    → (again : String) → positive_int (int (pos n)) again ≡ ok n
unfolding positive_int
positive-again (int (pos m)) name {n} h again = elim (Bool-cases (m == 0)) [
  | inl y ↦ absurd (let k = rw y at h in cc)
  | inr f ↦ let same : m ≡ n = ground (arith, f, rw f at h) in rw (← same, f) refl
]
positive-again (int (negsuc m)) name h again = cc
positive-again null name h again = cc
positive-again (bool b) name h again = cc
positive-again (str s) name h again = cc
positive-again (float x) name h again = cc
positive-again (arr xs) name h again = cc
positive-again (obj d) name h again = cc

abbrev job_of : ℕ → ℕ → ℕ → String → String → String → ScopedJob
job_of job_id run_id attempt repository sha profile = record {
  job_id = job_id;
  profile = profile;
  repository = some repository;
  run_id = some run_id;
  attempt = some (pos attempt);
  exact_sha = some sha;
}

-- The entry of a job is read back, if its parts are.
job-read :
    (job_id run_id attempt : ℕ) (repository sha profile : String)
    → positive_int (int (pos job_id)) "job_id" ≡ ok job_id
    → required_string (str repository) "job repository" ≡ ok repository
    → positive_int (int (pos run_id)) "job run_id" ≡ ok run_id
    → positive_int (int (pos attempt)) "job attempt" ≡ ok attempt
    → required_string (str sha) "job exact_sha" ≡ ok sha
    → not (is_hex_text 40 sha) ≡ false
    → required_string (str profile) "job profile" ≡ ok profile
    → not (member profile portfolio_profiles) ≡ false
    → parse_v2_job (job_entry (job_of job_id run_id attempt repository sha profile))
      ≡ ok (job_of job_id run_id attempt repository sha profile)
unfolding parse_v2_job job_entry get
job-read job_id run_id attempt repository sha profile e₁ e₂ e₃ e₄ e₅ hex e₆ known =
    rw (e₁, e₂, e₃, e₄, e₅, hex, e₆, known) refl

pub parse_v2_job-again :
    (v : Json) {j : ScopedJob} → parse_v2_job v ≡ ok j → parse_v2_job (job_entry j) ≡ ok j
unfolding parse_v2_job
parse_v2_job-again v {j} h =
    let (raw, _, h₀) = >>=-eq-ok (as_dict v "claim scope job must be an object") _ h in
    let (job_id, e₁, h₁) = >>=-eq-ok (positive_int (get_or raw "job_id" null) "job_id") _ h₀ in
    let (repository, e₂, h₂) =
      >>=-eq-ok (required_string (get_or raw "repository" null) "job repository") _ h₁ in
    let (run_id, e₃, h₃) = >>=-eq-ok (positive_int (get_or raw "run_id" null) "job run_id") _ h₂ in
    let (attempt, e₄, h₄) =
      >>=-eq-ok (positive_int (get_or raw "attempt" null) "job attempt") _ h₃ in
    let (sha, e₅, h₅) =
      >>=-eq-ok (required_string (get_or raw "exact_sha" null) "job exact_sha") _ h₄ in
    let (hex, h₆) = passed (not (is_hex_text 40 sha)) _ _ h₅ in
    let (profile, e₆, h₇) =
      >>=-eq-ok (required_string (get_or raw "profile" null) "job profile") _ h₆ in
    let (known, h₈) = passed (not (member profile portfolio_profiles)) _ _ h₇ in
    subst (λ (x : ScopedJob). parse_v2_job (job_entry x) ≡ ok x) (ok-eq-ok h₈)
      (job-read job_id run_id attempt repository sha profile
        (positive-again (get_or raw "job_id" null) "job_id" e₁ "job_id")
        (required-again (get_or raw "repository" null) "job repository" e₂ "job repository")
        (positive-again (get_or raw "run_id" null) "job run_id" e₃ "job run_id")
        (positive-again (get_or raw "attempt" null) "job attempt" e₄ "job attempt")
        (required-again (get_or raw "exact_sha" null) "job exact_sha" e₅ "job exact_sha") hex
        (required-again (get_or raw "profile" null) "job profile" e₆ "job profile") known)
