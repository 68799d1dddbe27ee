-- ===== src/ClaimScope/Written.antt =====
-- `_parse_scope` on what `_scope_entry` writes (src/qdev_runner/claim_scope.py), for v2 scopes.
use Prim.Native.String.{◌++◌ as text_append}
use qdev_runner_control_plan.Prelude.{
  ℕ, String, ◌≡◌, sym, ◌∙◌, ap, subst, false, ◌&&◌, not, Option, ◌!=◌, nat_eq, string_eq, option_eq,
  ok, >>=-eq-ok, passed,
}
use qdev_runner_control_plan.Json.{Json, Items, Fields, null, obj, get_or}
use qdev_runner_control_plan.ClaimScope.{ClaimScope, schema_v2, is_scope_id}
use qdev_runner_control_plan.ClaimScope.Parse.{
  is_scope_worker, required_string, as_dict, as_list, parse_v2_job,
}
use qdev_runner_control_plan.ClaimScope.Document.{no_items, parse_v2, ends_with}
use qdev_runner_control_plan.ClaimScope.Container.{
  job_entry, entries, given_fields, parse_scope, scope_entry,
}
use qdev_runner_control_plan.ClaimScope.Again.{required-again}
use qdev_runner_control_plan.ClaimScope.Entries.{size-entries, no_items-size}
use qdev_runner_control_plan.ClaimScope.Looks.{entry_of, looks, IsClock, reads-again}
use qdev_runner_control_plan.ClaimScope.RoundTrip.{
  Parsed, scope_of, ReadsV2, IsV2, parse_v2-read, parse_v2-eq-ok,
}

module _ (read_time : String → Option (Option ℕ)) (iso : ℕ → String)
    (clock : IsClock read_time iso) where
  -- The reads that all schemas share.
  record ReadsScope (raw : Fields) (jobs_raw : Items) (scope_id name tier : String) : Type 0 where
    id_read : required_string (get_or raw "scope_id" null) "scope_id" ≡ ok scope_id
    id_safe : not (is_scope_id scope_id) ≡ false
    name_read : required_string (get_or raw "worker_name" null) "worker_name" ≡ ok name
    tier_read : required_string (get_or raw "tier" null) "tier" ≡ ok tier
    tier_known : (tier != "primary" && tier != "reserve") ≡ false
    name_safe : not (is_scope_worker name) ≡ false
    name_tier : not (ends_with name (text_append "-" tier)) ≡ false
    jobs_list :
        as_list (get_or raw "jobs" null) "claim scope jobs must be a non-empty list" ≡ ok jobs_raw
    jobs_given : no_items jobs_raw ≡ false

  renamed :
      (raw : Fields) (jobs_raw : Items) {i n t i' n' t' : String}
      → i' ≡ i
      → n' ≡ n
      → t' ≡ t
      → ReadsScope raw jobs_raw i n t
      → ReadsScope raw jobs_raw i' n' t'
  renamed raw jobs_raw {i} {n} {t} {i'} {n'} ei en et r =
      subst (λ x. ReadsScope raw jobs_raw i' n' x) (sym et)
        (subst (λ x. ReadsScope raw jobs_raw i' x t) (sym en)
          (subst (λ x. ReadsScope raw jobs_raw x n t) (sym ei) r))

  parse_scope-read :
      (raw : Fields) (jobs_raw : Items) (p : Parsed)
      → ReadsScope raw jobs_raw p.scope_id p.worker_name p.tier
      → ReadsV2 read_time iso raw jobs_raw p
      → IsV2 read_time iso p
      → parse_scope read_time iso schema_v2 (obj raw) ≡ ok (scope_of p)
  unfolding parse_scope
  parse_scope-read raw jobs_raw p s r v =
      rw
        (
          s.id_read, s.id_safe, s.name_read, s.tier_read, s.tier_known, s.name_safe, s.name_tier,
          s.jobs_list, s.jobs_given,
        )
        (parse_v2-read read_time iso raw jobs_raw p r v)

  parse_scope-eq-ok :
      (value : Json) {s : ClaimScope}
      → parse_scope read_time iso schema_v2 value ≡ ok s
      → (raw : Fields) × (jobs_raw : Items) × (scope_id : String) × (name : String)
        × (tier : String) × ReadsScope raw jobs_raw scope_id name tier
        × (parse_v2 read_time iso raw scope_id name tier jobs_raw ≡ ok s)
  unfolding parse_scope
  parse_scope-eq-ok value h =
      let (raw, _, h₀) = >>=-eq-ok (as_dict value "claim scope entry must be an object") _ h in
      let (scope_id, e₁, h₁) =
        >>=-eq-ok (required_string (get_or raw "scope_id" null) "scope_id") _ h₀ in
      let (safe, h₂) = passed (not (is_scope_id scope_id)) _ _ h₁ in
      let (name, e₂, h₃) =
        >>=-eq-ok (required_string (get_or raw "worker_name" null) "worker_name") _ h₂ in
      let (tier, e₃, h₄) = >>=-eq-ok (required_string (get_or raw "tier" null) "tier") _ h₃ in
      let (known, h₅) = passed (tier != "primary" && tier != "reserve") _ _ h₄ in
      let (name_safe, h₆) = passed (not (is_scope_worker name)) _ _ h₅ in
      let (name_tier, h₇) = passed (not (ends_with name (text_append "-" tier))) _ _ h₆ in
      let (jobs_raw, e₄, h₈) =
        >>=-eq-ok (as_list (get_or raw "jobs" null) "claim scope jobs must be a non-empty list") _
          h₇ in
      let (given, h₉) = passed (no_items jobs_raw) _ _ h₈ in
      (
        raw,
        jobs_raw,
        scope_id,
        name,
        tier,
        record {
          id_read = e₁;
          id_safe = safe;
          name_read = e₂;
          tier_read = e₃;
          tier_known = known;
          name_safe = name_safe;
          name_tier = name_tier;
          jobs_list = e₄;
          jobs_given = given;
        },
        h₉,
      )

  scope-again :
      (raw : Fields) (jobs_raw : Items) (p : Parsed)
      → ReadsScope raw jobs_raw p.scope_id p.worker_name p.tier
      → ReadsV2 read_time iso raw jobs_raw p
      → ReadsScope
          (given_fields (entry_of iso p p.certificate p.exception))
          (entries job_entry p.jobs)
          p.scope_id
          p.worker_name
          p.tier
  scope-again raw jobs_raw p s r =
      let l = looks iso p p.certificate p.exception in
      record {
        id_read =
            ap (λ v. required_string v "scope_id") l.scope_id
            ∙ required-again (get_or raw "scope_id" null) "scope_id" s.id_read "scope_id";
        id_safe = s.id_safe;
        name_read =
            ap (λ v. required_string v "worker_name") l.worker_name
            ∙ required-again (get_or raw "worker_name" null) "worker_name" s.name_read
                "worker_name";
        tier_read =
            ap (λ v. required_string v "tier") l.tier
            ∙ required-again (get_or raw "tier" null) "tier" s.tier_read "tier";
        tier_known = s.tier_known;
        name_safe = s.name_safe;
        name_tier = s.name_tier;
        jobs_list = ap (λ v. as_list v "claim scope jobs must be a non-empty list") l.jobs;
        jobs_given =
            no_items-size (entries job_entry p.jobs) jobs_raw
              (size-entries parse_v2_job job_entry jobs_raw r.jobs_read) s.jobs_given;
      }

  entry-read :
      (raw : Fields) (jobs_raw : Items) (p : Parsed)
      → ReadsScope raw jobs_raw p.scope_id p.worker_name p.tier
      → ReadsV2 read_time iso raw jobs_raw p
      → IsV2 read_time iso p
      → parse_scope read_time iso schema_v2 (scope_entry read_time iso (scope_of p))
        ≡ ok (scope_of p)
  unfolding scope_entry
  entry-read raw jobs_raw p s r v =
      parse_scope-read (given_fields (entry_of iso p p.certificate p.exception))
        (entries job_entry p.jobs) p (scope-again raw jobs_raw p s r)
        (reads-again read_time iso clock raw jobs_raw p r) v

-- A v2 scope that the parser accepts, whatever the entry it came from, survives being written: its
-- entry is parsed to the same scope, if the time that is written is read back.
pub parse_scope-scope_entry :
    (read_time : String → Option (Option ℕ)) (iso : ℕ → String) (value : Json) (s : ClaimScope)
    → IsClock read_time iso
    → parse_scope read_time iso schema_v2 value ≡ ok s
    → parse_scope read_time iso schema_v2 (scope_entry read_time iso s) ≡ ok s
parse_scope-scope_entry read_time iso value s clock h =
    let (raw, jobs_raw, scope_id, name, tier, a, k) =
      parse_scope-eq-ok read_time iso clock value h in
    let (p, same, ei, en, et, b, c) =
      parse_v2-eq-ok read_time iso raw scope_id name tier jobs_raw k in
    subst
      (λ (x : ClaimScope). parse_scope read_time iso schema_v2 (scope_entry read_time iso x) ≡ ok x)
      same
      (entry-read read_time iso clock raw jobs_raw p
        (renamed read_time iso clock raw jobs_raw ei en et a) b c)
