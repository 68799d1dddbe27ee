-- ===== src/ClaimScope/Container.antt =====
-- The scope documents of src/qdev_runner/claim_scope.py as a whole: `_parse_scope`,
-- `load_claim_scopes`, `_scope_entry` and `upsert_claim_scope`. A file is the value that it encodes,
-- or nothing where there is no file; the write of the new document is its value.
use Prim.Native.String.{◌++◌ as text_append, compare as text_compare}
use Prim.Native.Nat.{Ordering}
use qdev_runner_control_plan.Prelude.{
  ℕ, String, Bool, true, false, ◌&&◌, ◌||◌, not, Option, none, some, List, [], ◌∷◌, map,
  if◌then◌else◌, ◌==◌, ◌!=◌, nat_eq, string_eq, option_eq, int_eq, ℤ, pos, Result, ok, raise,
  refuse, ◌>>=◌, ◌>>◌, claim_scope_error, type_error, member, is_hex_text,
}
use qdev_runner_control_plan.Sql.{order_by}
use qdev_runner_control_plan.Json.{
  Json, Items, Fields, null, int, str, arr, obj, nil, cons, end, field, get, get_or,
}
use qdev_runner_control_plan.ClaimScope.{
  ScopedJob, ScopedFifoSkip, ClaimScope, Scopes, schema_v1, schema_v2, legacy_schema,
  allowed_profiles, is_scope_id, same_set,
}
use qdev_runner_control_plan.ClaimScope.Parse.{
  mixed_schema, allowed_repository, is_scope_worker, required_string, as_dict, as_list,
  parse_certificate,
}
use qdev_runner_control_plan.ClaimScope.Document.{
  ends_with, parse_all, all_distinct, same_id, no_items, size, parse_v1_job, parse_expiry, parse_v2,
}

-- "schema" of an entry or a document, which must be one of `supported`; a value that cannot be hashed
-- is a TypeError.
unfoldable pub schema_of : Json → List String → String → Result String
unfolding member
schema_of (str s) supported message =
    if member s supported then ok s else raise (claim_scope_error message)
schema_of (arr xs) supported message = raise type_error
schema_of (obj d) supported message = raise type_error
schema_of _ supported message = raise (claim_scope_error message)

-- A value that may be None.
abbrev pub opt_str : Option String → Json
opt_str none = null
opt_str (some s) = str s

abbrev pub opt_nat : Option ℕ → Json
opt_nat none = null
opt_nat (some n) = int (pos n)

abbrev pub opt_int : Option ℤ → Json
opt_int none = null
opt_int (some z) = int z

unfoldable pub job_entry : ScopedJob → Json
job_entry item = obj (
    field "job_id" (int (pos item.job_id)) (
      field "repository" (opt_str item.repository) (
        field "run_id" (opt_nat item.run_id) (
          field "attempt" (opt_int item.attempt) (
            field "exact_sha" (opt_str item.exact_sha) (field "profile" (str item.profile) end))))))

unfoldable pub skip_entry : ScopedFifoSkip → Json
skip_entry item = obj (
    field "job_id" (int (pos item.job_id)) (
      field "repository" (str item.repository) (
        field "run_id" (int (pos item.run_id)) (
          field "attempt" (int item.attempt) (
            field "exact_sha" (str item.exact_sha) (
              field "profile" (str item.profile) (
                field "managed_registry_entry" (opt_str item.managed_registry_entry)
                  (field "reason" (str item.reason) end))))))))

unfoldable pub old_job_entry : ScopedJob → Json
old_job_entry item =
    obj (field "job_id" (int (pos item.job_id)) (field "profile" (str item.profile) end))

unfoldable pub entries : {A : Type 0} → (A → Json) → List A → Items
entries f [] = nil
entries f (x ∷ xs) = cons (f x) (entries f xs)

abbrev is_null : Json → Bool
is_null null = true
is_null _ = false

-- {key: value for key, value in entry.items() if value is not None}
unfoldable pub given_fields : Fields → Fields
given_fields end = end
given_fields (field k v d) = let rest = given_fields d in if is_null v then rest else field k v rest

module _ (read_time : String → Option (Option ℕ)) (iso : ℕ → String) where
  -- The branch of an older scope.
  unfoldable pub parse_old : Fields → String → String → String → String → Items → Result ClaimScope
  unfolding get required_string is_hex_text parse_all parse_v1_job all_distinct same_set
      parse_expiry parse_certificate
  parse_old raw schema scope_id worker_name tier jobs_raw = do
    repository ← required_string (get_or raw "repository" null) "repository"
    head_sha ← required_string (get_or raw "head_sha" null) "head_sha"
    refuse (not (is_hex_text 40 head_sha))
        (claim_scope_error "claim scope head_sha must be a lowercase Git SHA")
    refuse (schema == schema_v1 && size jobs_raw != 2)
        (claim_scope_error "claim scope jobs must contain exactly two jobs")
    jobs ← parse_all (parse_v1_job schema) jobs_raw
    refuse (not (all_distinct same_id jobs))
        (claim_scope_error "claim scope job IDs must be unique")
    refuse
        (schema == schema_v1
          && not (same_set (map (λ (j : ScopedJob). j.profile) jobs) allowed_profiles))
        (claim_scope_error "claim scope jobs must cover both expected profiles")
    refuse (schema == schema_v1 && repository != allowed_repository)
        (claim_scope_error "claim scope repository is not allowlisted")
    expires_at ← parse_expiry read_time iso (get_or raw "expires_at" null)
    certificate ← parse_certificate raw
    ok (record {
      scope_id = scope_id;
      worker_name = worker_name;
      tier = tier;
      repository = repository;
      head_sha = head_sha;
      expires_at = expires_at;
      jobs = jobs;
      worker_certificate_sha256 = certificate;
      schema = schema;
      host = none;
      runner = none;
      correlation_id = none;
      fifo_skipped = [];
      fifo_exception = none;
    })

  -- _parse_scope
  unfoldable pub parse_scope : String → Json → Result ClaimScope
  unfolding get required_string is_scope_id member is_scope_worker ends_with parse_v2 parse_old
  parse_scope schema value = do
    raw ← as_dict value "claim scope entry must be an object"
    scope_id ← required_string (get_or raw "scope_id" null) "scope_id"
    refuse (not (is_scope_id scope_id))
        (claim_scope_error "claim scope scope_id contains unsafe characters")
    worker_name ← required_string (get_or raw "worker_name" null) "worker_name"
    tier ← required_string (get_or raw "tier" null) "tier"
    refuse (tier != "primary" && tier != "reserve")
        (claim_scope_error "claim scope tier must be primary or reserve")
    refuse ((schema == schema_v1 || schema == schema_v2) && not (is_scope_worker worker_name))
        (claim_scope_error "claim scope worker_name contains unsafe characters")
    refuse
        ((schema == schema_v1 || schema == schema_v2)
          && not (ends_with worker_name (text_append "-" tier)))
        (claim_scope_error "claim scope worker_name must end with its tier")
    jobs_raw ← as_list (get_or raw "jobs" null) "claim scope jobs must be a non-empty list"
    refuse (no_items jobs_raw) (claim_scope_error "claim scope jobs must be a non-empty list")
    if schema == schema_v2
        then parse_v2 read_time iso raw scope_id worker_name tier jobs_raw
        else parse_old raw schema scope_id worker_name tier jobs_raw

  -- An entry of a mixed document, which names its own schema.
  unfoldable pub parse_mixed : Json → Result ClaimScope
  unfolding get schema_of parse_scope
  parse_mixed value = do
    raw ← as_dict value "claim scope entry must be an object"
    schema ←
        schema_of (get_or raw "schema" null) (schema_v1 ∷ schema_v2 ∷ legacy_schema ∷ [])
          "claim scope entry has an unsupported schema"
    parse_scope schema value

  abbrev same_scope : ClaimScope → ClaimScope → Bool
  same_scope a b = a.scope_id == b.scope_id

  -- load_claim_scopes
  unfoldable pub load : Option Json → Result Scopes
  unfolding get schema_of parse_mixed parse_scope parse_all all_distinct
  load none = ok []
  load (some document) = do
    d ← as_dict document "claim scope document has an unsupported schema"
    schema ←
        schema_of (get_or d "schema" null)
          (schema_v1 ∷ schema_v2 ∷ legacy_schema ∷ mixed_schema ∷ [])
          "claim scope document has an unsupported schema"
    scopes_raw ← as_list (get_or d "scopes" null) "claim scope document scopes must be a list"
    scopes ←
        parse_all (if schema == mixed_schema then parse_mixed else parse_scope schema) scopes_raw
    refuse (not (all_distinct same_scope scopes))
        (claim_scope_error "claim scope IDs must be unique")
    ok (map (λ (s : ClaimScope). (s.scope_id, s)) scopes)

  -- _scope_entry
  unfoldable pub scope_entry : ClaimScope → Json
  unfolding given_fields entries job_entry skip_entry old_job_entry
  scope_entry scope =
      let shared : Fields → Fields = λ rest. field "schema" (str scope.schema) (
        field "scope_id" (str scope.scope_id) (
          field "worker_name" (str scope.worker_name) (
            field "tier" (str scope.tier) (
              field "expires_at" (str (iso scope.expires_at)) (
                field "worker_certificate_sha256" (opt_str scope.worker_certificate_sha256)
                  rest))))) in
      obj (
        given_fields (
          if scope.schema == schema_v2
          then shared (
              field "host" (opt_str scope.host) (
                field "runner" (opt_str scope.runner) (
                  field "correlation_id" (opt_str scope.correlation_id) (
                    field "fifo_exception" (opt_str scope.fifo_exception) (
                      field "jobs" (arr (entries job_entry scope.jobs)) (
                        field "fifo_skipped" (arr (entries skip_entry scope.fifo_skipped)) end))))))
          else shared (
              field "repository" (str scope.repository) (
                field "head_sha" (str scope.head_sha)
                  (field "jobs" (arr (entries old_job_entry scope.jobs)) end)))))

  -- scopes[scope.scope_id] = scope
  unfoldable pub put_scope : ClaimScope → Scopes → Scopes
  put_scope scope [] = (scope.scope_id, scope) ∷ []
  put_scope scope ((k, old) ∷ rest) =
      if k == scope.scope_id then (k, scope) ∷ rest else (k, old) ∷ put_scope scope rest

  abbrev before_id : String × ClaimScope → String × ClaimScope → Bool
  before_id a b = elim (text_compare a.0 b.0) [ Ordering.gt ↦ false | _ ↦ true ]

  -- upsert_claim_scope: the new document
  unfoldable pub upsert : ClaimScope → Option Json → Result Json
  unfolding parse_scope scope_entry load put_scope order_by entries
  upsert scope path = do
    refuse (scope.schema != schema_v2)
        (claim_scope_error "new claim scopes must use claim-scope-v2")
    _ ← parse_scope scope.schema (scope_entry scope)
    scopes ← load path
    ok (
        obj (
          field "schema" (str mixed_schema) (
            field "scopes"
              (arr (
                entries (λ (s : String × ClaimScope). scope_entry s.1)
                  (order_by before_id (put_scope scope scopes))))
              end)))
