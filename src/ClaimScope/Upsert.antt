-- ===== src/ClaimScope/Upsert.antt =====
-- The document that `upsert_claim_scope` writes where there was none.
use qdev_runner_control_plan.Prelude.{
  ℕ, String, ◌≡◌, refl, sym, subst, Bool, true, false, Option, none, some, [], ◌∷◌, arith,
  if◌then◌else◌, ◌==◌, ◌!=◌, string_eq, ok, >>=-eq-ok, ok-eq-ok, passed, ==→≡, member, any,
}
use qdev_runner_control_plan.Sql.{order_by}
use qdev_runner_control_plan.Json.{Json, Fields, null, str, arr, obj, end, field, get, get_or}
use qdev_runner_control_plan.ClaimScope.{ClaimScope, schema_v2}
use qdev_runner_control_plan.ClaimScope.Parse.{mixed_schema}
use qdev_runner_control_plan.ClaimScope.Document.{parse_all, all_distinct}
use qdev_runner_control_plan.ClaimScope.Container.{
  schema_of, entries, given_fields, parse_scope, parse_mixed, load, scope_entry, put_scope, upsert,
}

module _ (read_time : String → Option (Option ℕ)) (iso : ℕ → String) where
  branch :
      (b : Bool) (k : String) (d e : Fields)
      → get_or
          (given_fields (if b then field "schema" (str k) d else field "schema" (str k) e))
          "schema"
          null
        ≡ str k
  unfolding given_fields get
  branch true k d e = refl
  branch false k d e = refl

  -- An entry names the schema of its scope.
  names_schema :
      (s : ClaimScope)
      → (d : Fields) × (scope_entry read_time iso s ≡ obj d)
        × (get_or d "schema" null ≡ str s.schema)
  unfolding scope_entry
  names_schema s = (_, refl, branch (s.schema == schema_v2) s.schema _ _)

  mixed-dict :
      (d : Fields) (k : String) (x : ClaimScope)
      → get_or d "schema" null ≡ str k
      → k ≡ schema_v2
      → parse_scope read_time iso schema_v2 (obj d) ≡ ok x
      → parse_mixed read_time iso (obj d) ≡ ok x
  unfolding parse_mixed schema_of member any
  mixed-dict d k x look e h = rw (look, e) h

  mixed-entry :
      (s x : ClaimScope)
      → s.schema ≡ schema_v2
      → parse_scope read_time iso schema_v2 (scope_entry read_time iso s) ≡ ok x
      → parse_mixed read_time iso (scope_entry read_time iso s) ≡ ok x
  mixed-entry s x e h =
      let (d, same, look) = names_schema s in
      subst (λ (v : Json). parse_mixed read_time iso v ≡ ok x) (sym same)
        (mixed-dict d s.schema x look e
          (subst (λ (v : Json). parse_scope read_time iso schema_v2 v ≡ ok x) same h))

  document : ClaimScope → Json
  unfolding entries
  document s = obj (
      field "schema" (str mixed_schema)
        (field "scopes" (arr (entries (scope_entry read_time iso) (s ∷ []))) end))

  load-document :
      (s x : ClaimScope)
      → parse_mixed read_time iso (scope_entry read_time iso s) ≡ ok x
      → load read_time iso (some (document s)) ≡ ok ((x.scope_id, x) ∷ [])
  unfolding load document entries get schema_of member any parse_all all_distinct
  load-document s x h = rw h refl

-- A scope that the upsert accepts is what later loads see: where there was no document, the written
-- one loads, and holds only the scope as the parser reads its entry.
pub load-upsert :
    (read_time : String → Option (Option ℕ)) (iso : ℕ → String) (s : ClaimScope) (written : Json)
    → upsert read_time iso s none ≡ ok written
    → (x : ClaimScope) × (parse_scope read_time iso schema_v2 (scope_entry read_time iso s) ≡ ok x)
      × (load read_time iso (some written) ≡ ok ((x.scope_id, x) ∷ []))
unfolding upsert load put_scope order_by document
load-upsert read_time iso s written h =
    let (v2, h₁) = passed (s.schema != schema_v2) _ _ h in
    let (x, e, h₂) =
      >>=-eq-ok (parse_scope read_time iso s.schema (scope_entry read_time iso s)) _ h₁ in
    let schema : s.schema ≡ schema_v2 = ==→≡ s.schema schema_v2 (ground arith) in
    let read : parse_scope read_time iso schema_v2 (scope_entry read_time iso s) ≡ ok x =
      subst (λ k. parse_scope read_time iso k (scope_entry read_time iso s) ≡ ok x) schema e in
    let same : document read_time iso s ≡ written = ok-eq-ok h₂ in
    (
      x,
      read,
      subst (λ (d : Json). load read_time iso (some d) ≡ ok ((x.scope_id, x) ∷ [])) same
          (load-document read_time iso s x (mixed-entry read_time iso s x schema read)),
    )
