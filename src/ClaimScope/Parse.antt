-- ===== src/ClaimScope/Parse.antt =====
-- The parser of src/qdev_runner/claim_scope.py: a scope of a document that was decoded from JSON.
-- A missing key and `null` are both None. What `datetime.fromisoformat` makes of a text is a
-- parameter: nothing for a ValueError, and no time for a text without a timezone.
use Prim.Native.String.{◌++◌ as text_append}
use qdev_runner_control_plan.Prelude.{
  ℕ, String, Bool, false, ◌&&◌, not, Option, none, some, List, [], ◌∷◌, if◌then◌else◌, ◌==◌, nat_eq,
  string_eq, option_eq, int_eq, leb, pos, Result, ok, raise, refuse, ◌>>=◌, ◌>>◌, claim_scope_error,
  member, strip, is_alnum, is_name_char, text_length, is_hex_text, starts_then,
}
use qdev_runner_control_plan.Json.{Json, Items, Fields, null, int, str, arr, obj, get, get_or}
use qdev_runner_control_plan.ClaimScope.{ScopedJob, ScopedFifoSkip, is_scope_id}

abbrev pub mixed_schema : String
mixed_schema = "qdev-runner-claim-scopes-v2"

abbrev pub allowed_repository : String
allowed_repository = "belilovsky/qazagents"

abbrev pub portfolio_profiles : List String
portfolio_profiles = "qdev-ci" ∷ "qdev-ci-docker" ∷ "qdev-ci-browser" ∷ []

abbrev pub qgeo_repository : String
qgeo_repository = "belilovsky/qazgeo"

abbrev pub fifo_skip_reasons : List String
fifo_skip_reasons =
    "active-admin-platform-controller-priority" ∷ "admin-platform-candidate-not-active"
    ∷ "admin-platform-candidate-tuple-not-admitted" ∷ "managed-production-candidate-not-active"
    ∷ "managed-production-candidate-tuple-not-admitted" ∷ []

-- ^[A-Za-z0-9][A-Za-z0-9._-]{2,63}$
unfoldable pub is_scope_worker : String → Bool
unfolding starts_then is_alnum is_name_char text_length
is_scope_worker s =
    starts_then is_alnum is_name_char s && leb 3 (text_length s) && leb (text_length s) 64

-- "claim scope " and the field, and what it must be
abbrev pub complaint : String → String → String
complaint field rest = text_append "claim scope " (text_append field rest)

-- _required_string
unfoldable pub required_string : Json → String → Result String
unfolding strip
required_string (str s) field =
    if strip s == ""
    then raise (claim_scope_error (complaint field " must be a non-empty string"))
    else ok (strip s)
required_string _ field = raise (claim_scope_error (complaint field " must be a non-empty string"))

-- _positive_int
unfoldable pub positive_int : Json → String → Result ℕ
positive_int (int (pos n)) field =
    if n == 0
    then raise (claim_scope_error (complaint field " must be a positive integer"))
    else ok n
positive_int _ field = raise (claim_scope_error (complaint field " must be a positive integer"))

-- isinstance(raw, dict)
abbrev pub as_dict : Json → String → Result Fields
as_dict (obj d) message = ok d
as_dict _ message = raise (claim_scope_error message)

-- isinstance(raw, list)
abbrev pub as_list : Json → String → Result Items
as_list (arr xs) message = ok xs
as_list _ message = raise (claim_scope_error message)

-- A value that may be None.
abbrev pub optional_string : Json → String → Result (Option String)
optional_string null field = ok none
optional_string v field = required_string v field >>= λ s. ok (some s)

-- _parse_certificate
unfoldable pub parse_certificate : Fields → Result (Option String)
unfolding get is_hex_text required_string
parse_certificate raw = do
  value ← optional_string (get_or raw "worker_certificate_sha256" null) "worker_certificate_sha256"
  refuse (elim value [ none ↦ false | some s ↦ not (is_hex_text 64 s) ])
      (claim_scope_error "claim scope worker_certificate_sha256 must be a lowercase SHA-256")
  ok value

-- _parse_v2_job
unfoldable pub parse_v2_job : Json → Result ScopedJob
unfolding get positive_int required_string is_hex_text member
parse_v2_job value = do
  raw ← as_dict value "claim scope job must be an object"
  job_id ← positive_int (get_or raw "job_id" null) "job_id"
  repository ← required_string (get_or raw "repository" null) "job repository"
  run_id ← positive_int (get_or raw "run_id" null) "job run_id"
  attempt ← positive_int (get_or raw "attempt" null) "job attempt"
  exact_sha ← required_string (get_or raw "exact_sha" null) "job exact_sha"
  refuse (not (is_hex_text 40 exact_sha))
      (claim_scope_error "claim scope job exact_sha must be a lowercase Git SHA")
  profile ← required_string (get_or raw "profile" null) "job profile"
  refuse (not (member profile portfolio_profiles))
      (claim_scope_error "claim scope job profile is not supported")
  ok (record {
    job_id = job_id;
    profile = profile;
    repository = some repository;
    run_id = some run_id;
    attempt = some (pos attempt);
    exact_sha = some exact_sha;
  })

-- _parse_v2_fifo_skip
unfoldable pub parse_v2_fifo_skip : Json → Result ScopedFifoSkip
unfolding get positive_int required_string is_hex_text member is_scope_id
parse_v2_fifo_skip value = do
  raw ← as_dict value "claim scope fifo skip must be an object"
  job_id ← positive_int (get_or raw "job_id" null) "fifo skip job_id"
  repository ← required_string (get_or raw "repository" null) "fifo skip repository"
  run_id ← positive_int (get_or raw "run_id" null) "fifo skip run_id"
  attempt ← positive_int (get_or raw "attempt" null) "fifo skip attempt"
  exact_sha ← required_string (get_or raw "exact_sha" null) "fifo skip exact_sha"
  refuse (not (is_hex_text 40 exact_sha))
      (claim_scope_error "claim scope fifo skip exact_sha must be a lowercase Git SHA")
  profile ← required_string (get_or raw "profile" null) "fifo skip profile"
  refuse (not (member profile portfolio_profiles))
      (claim_scope_error "claim scope fifo skip profile is not supported")
  entry ←
      optional_string (get_or raw "managed_registry_entry" null) "fifo skip managed_registry_entry"
  refuse (elim entry [ none ↦ false | some s ↦ not (is_scope_id s) ])
      (claim_scope_error "claim scope fifo skip managed_registry_entry is unsafe")
  reason ← required_string (get_or raw "reason" null) "fifo skip reason"
  refuse (not (member reason fifo_skip_reasons))
      (claim_scope_error "claim scope fifo skip reason is not supported")
  ok (record {
    job_id = job_id;
    profile = profile;
    repository = repository;
    run_id = run_id;
    attempt = pos attempt;
    exact_sha = exact_sha;
    managed_registry_entry = entry;
    reason = reason;
  })
