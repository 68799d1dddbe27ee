-- ===== src/ClaimScope/Entries.antt =====
-- Reading back the entries of fifo skips and of older jobs, and lists of entries
-- (src/qdev_runner/claim_scope.py).
use qdev_runner_control_plan.Prelude.{
  ℕ, suc, ap, String, ◌≡◌, refl, subst, Bool, false, ◌&&◌, not, Option, none, some, List, arith,
  ◌==◌, nat_eq, string_eq, pos, Result, ok, >>=-eq-ok, ok-eq-ok, passed, member, is_hex_text,
}
use qdev_runner_control_plan.Json.{Json, Items, null, int, str, nil, cons, get, get_or}
use qdev_runner_control_plan.ClaimScope.{
  ScopedJob, ScopedFifoSkip, schema_v1, allowed_profiles, is_scope_id,
}
use qdev_runner_control_plan.ClaimScope.Parse.{
  required_string, positive_int, as_dict, optional_string, portfolio_profiles, fifo_skip_reasons,
  parse_v2_fifo_skip,
}
use qdev_runner_control_plan.ClaimScope.Document.{size, no_items, parse_all, parse_v1_job}
use qdev_runner_control_plan.ClaimScope.Container.{opt_str, skip_entry, old_job_entry, entries}
use qdev_runner_control_plan.ClaimScope.Again.{required-again, optional-again, positive-again}

abbrev skip_of : ℕ → ℕ → ℕ → String → String → String → Option String → String → ScopedFifoSkip
skip_of job_id run_id attempt repository sha profile entry reason = record {
  job_id = job_id;
  profile = profile;
  repository = repository;
  run_id = run_id;
  attempt = pos attempt;
  exact_sha = sha;
  managed_registry_entry = entry;
  reason = reason;
}

abbrev unsafe : Option String → Bool
unsafe none = false
unsafe (some s) = not (is_scope_id s)

skip-read :
    (job_id run_id attempt : ℕ) (repository sha profile : String) (entry : Option String)
    (reason : String)
    → positive_int (int (pos job_id)) "fifo skip job_id" ≡ ok job_id
    → required_string (str repository) "fifo skip repository" ≡ ok repository
    → positive_int (int (pos run_id)) "fifo skip run_id" ≡ ok run_id
    → positive_int (int (pos attempt)) "fifo skip attempt" ≡ ok attempt
    → required_string (str sha) "fifo skip exact_sha" ≡ ok sha
    → not (is_hex_text 40 sha) ≡ false
    → required_string (str profile) "fifo skip profile" ≡ ok profile
    → not (member profile portfolio_profiles) ≡ false
    → optional_string (opt_str entry) "fifo skip managed_registry_entry" ≡ ok entry
    → unsafe entry ≡ false
    → required_string (str reason) "fifo skip reason" ≡ ok reason
    → not (member reason fifo_skip_reasons) ≡ false
    → parse_v2_fifo_skip
        (skip_entry (skip_of job_id run_id attempt repository sha profile entry reason))
      ≡ ok (skip_of job_id run_id attempt repository sha profile entry reason)
unfolding parse_v2_fifo_skip skip_entry get
skip-read job_id run_id attempt repository sha profile entry reason e₁ e₂ e₃ e₄ e₅ hex e₆ known e₇
      safe e₈ listed =
    rw (e₁, e₂, e₃, e₄, e₅, hex, e₆, known, e₇, safe, e₈, listed) refl

pub parse_v2_fifo_skip-again :
    (v : Json) {j : ScopedFifoSkip}
    → parse_v2_fifo_skip v ≡ ok j
    → parse_v2_fifo_skip (skip_entry j) ≡ ok j
unfolding parse_v2_fifo_skip
parse_v2_fifo_skip-again v {j} h =
    let (raw, _, h₀) = >>=-eq-ok (as_dict v "claim scope fifo skip must be an object") _ h in
    let (job_id, e₁, h₁) =
      >>=-eq-ok (positive_int (get_or raw "job_id" null) "fifo skip job_id") _ h₀ in
    let (repository, e₂, h₂) =
      >>=-eq-ok (required_string (get_or raw "repository" null) "fifo skip repository") _ h₁ in
    let (run_id, e₃, h₃) =
      >>=-eq-ok (positive_int (get_or raw "run_id" null) "fifo skip run_id") _ h₂ in
    let (attempt, e₄, h₄) =
      >>=-eq-ok (positive_int (get_or raw "attempt" null) "fifo skip attempt") _ h₃ in
    let (sha, e₅, h₅) =
      >>=-eq-ok (required_string (get_or raw "exact_sha" null) "fifo skip exact_sha") _ h₄ in
    let (hex, h₆) = passed (not (is_hex_text 40 sha)) _ _ h₅ in
    let (profile, e₆, h₇) =
      >>=-eq-ok (required_string (get_or raw "profile" null) "fifo skip profile") _ h₆ in
    let (known, h₈) = passed (not (member profile portfolio_profiles)) _ _ h₇ in
    let (entry, e₇, h₉) =
      >>=-eq-ok
        (optional_string (get_or raw "managed_registry_entry" null)
          "fifo skip managed_registry_entry")
        _ h₈ in
    let (safe, h₁₀) = passed (unsafe entry) _ _ h₉ in
    let (reason, e₈, h₁₁) =
      >>=-eq-ok (required_string (get_or raw "reason" null) "fifo skip reason") _ h₁₀ in
    let (listed, h₁₂) = passed (not (member reason fifo_skip_reasons)) _ _ h₁₁ in
    subst (λ (x : ScopedFifoSkip). parse_v2_fifo_skip (skip_entry x) ≡ ok x) (ok-eq-ok h₁₂)
      (skip-read job_id run_id attempt repository sha profile entry reason
        (positive-again (get_or raw "job_id" null) "fifo skip job_id" e₁ "fifo skip job_id")
        (required-again (get_or raw "repository" null) "fifo skip repository" e₂
          "fifo skip repository")
        (positive-again (get_or raw "run_id" null) "fifo skip run_id" e₃ "fifo skip run_id")
        (positive-again (get_or raw "attempt" null) "fifo skip attempt" e₄ "fifo skip attempt")
        (required-again (get_or raw "exact_sha" null) "fifo skip exact_sha" e₅
          "fifo skip exact_sha")
        hex (required-again (get_or raw "profile" null) "fifo skip profile" e₆ "fifo skip profile")
        known
        (optional-again (get_or raw "managed_registry_entry" null)
          "fifo skip managed_registry_entry" e₇ "fifo skip managed_registry_entry")
        safe (required-again (get_or raw "reason" null) "fifo skip reason" e₈ "fifo skip reason")
        listed)

abbrev old_job : ℕ → String → ScopedJob
old_job job_id profile = record {
  job_id = job_id;
  profile = profile;
  repository = none;
  run_id = none;
  attempt = none;
  exact_sha = none;
}

old_job-read :
    (schema : String) (job_id : ℕ) (profile : String)
    → positive_int (int (pos job_id)) "job_id" ≡ ok job_id
    → required_string (str profile) "job profile" ≡ ok profile
    → (schema == schema_v1 && not (member profile allowed_profiles)) ≡ false
    → parse_v1_job schema (old_job_entry (old_job job_id profile)) ≡ ok (old_job job_id profile)
unfolding parse_v1_job old_job_entry get
old_job-read schema job_id profile e₁ e₂ known = rw (e₁, e₂, known) refl

pub parse_v1_job-again :
    (schema : String) (v : Json) {j : ScopedJob}
    → parse_v1_job schema v ≡ ok j
    → parse_v1_job schema (old_job_entry j) ≡ ok j
unfolding parse_v1_job
parse_v1_job-again schema v {j} h =
    let (raw, _, h₀) = >>=-eq-ok (as_dict v "claim scope job must be an object") _ h in
    let (job_id, e₁, h₁) = >>=-eq-ok (positive_int (get_or raw "job_id" null) "job_id") _ h₀ in
    let (profile, e₂, h₂) =
      >>=-eq-ok (required_string (get_or raw "profile" null) "job profile") _ h₁ in
    let (known, h₃) =
      passed (schema == schema_v1 && not (member profile allowed_profiles)) _ _ h₂ in
    subst (λ (x : ScopedJob). parse_v1_job schema (old_job_entry x) ≡ ok x) (ok-eq-ok h₃)
      (old_job-read schema job_id profile
        (positive-again (get_or raw "job_id" null) "job_id" e₁ "job_id")
        (required-again (get_or raw "profile" null) "job profile" e₂ "job profile") known)

-- A list that was parsed is read back from its entries.
pub parse_all-entries :
    {A : Type 0} (f : Json → Result A) (write : A → Json)
    → ((v : Json) (a : A) → f v ≡ ok a → f (write a) ≡ ok a)
    → (xs : Items) {ys : List A} → parse_all f xs ≡ ok ys
    → parse_all f (entries write ys) ≡ ok ys
unfolding parse_all entries
parse_all-entries f write again nil {ys} h =
    subst (λ (zs : List _). parse_all f (entries write zs) ≡ ok zs) (ok-eq-ok h) refl
parse_all-entries f write again (cons v xs) {ys} h =
    let (a, e, h₁) = >>=-eq-ok (f v) _ h in
    let (rest, r, h₂) = >>=-eq-ok (parse_all f xs) _ h₁ in
    subst (λ (zs : List _). parse_all f (entries write zs) ≡ ok zs) (ok-eq-ok h₂)
      (rw (again v a e, parse_all-entries f write again xs r) refl)

pub size-entries :
    {A : Type 0} (f : Json → Result A) (write : A → Json) (xs : Items) {ys : List A}
    → parse_all f xs ≡ ok ys
    → size (entries write ys) ≡ size xs
unfolding parse_all entries
size-entries f write nil {ys} h =
    subst (λ (zs : List _). size (entries write zs) ≡ 0) (ok-eq-ok h) refl
size-entries f write (cons v xs) {ys} h =
    let (a, e, h₁) = >>=-eq-ok (f v) _ h in
    let (rest, r, h₂) = >>=-eq-ok (parse_all f xs) _ h₁ in
    subst (λ (zs : List _). size (entries write zs) ≡ suc (size xs)) (ok-eq-ok h₂)
      (ap suc (size-entries f write xs r))

pub no_items-size : (xs ys : Items) → size xs ≡ size ys → no_items ys ≡ false → no_items xs ≡ false
no_items-size xs nil e h = cc
no_items-size nil (cons v ys) e h = absurd (omega arith)
no_items-size (cons w xs) (cons v ys) e h = refl
