-- ===== src/ClaimScope/Resolution.antt =====
-- Which scopes a worker is given, and the freshness of their bindings.
use qdev_runner_control_plan.Prelude.{
  ℕ, ◌+◌, ◌≤◌, ◌<◌, String, ◌≡◌, Bool, true, false, ◌&&◌, ◌||◌, not, Option, none, some, List,
  arith, ◌==◌, ◌!=◌, string_eq, leb, ltb, ==→≡, ==-refl, ok, refuse, refuse-eq-ok, >>=-eq-ok, strip,
  map, subset,
}
use qdev_runner_control_plan.ClaimScope.{
  ScopedJob, ClaimScope, Scopes, schema_v1, schema_v2, max_ttl, is_scope_id, present, lookup_scope,
  profiles_match, resolve_claim_scope,
}

v2_profiles :
    (scope : ClaimScope) (profiles : List String)
    → profiles_match scope profiles ≡ true
    → scope.schema ≡ schema_v2
    → subset (map (λ (item : ScopedJob). item.profile) scope.jobs) profiles ≡ true
unfolding profiles_match
v2_profiles scope profiles h e =
    let t : (scope.schema == schema_v2) ≡ true = rw e (==-refl schema_v2) in ground arith

-- A scope that a worker is given is the document's scope of that id, for this worker and tier, not
-- expired, and, under the second schema, with at most 900 seconds to live and only profiles that
-- the worker announces.
pub resolve_live :
    (scopes : Scopes) (scope_id worker_name tier : String) (profiles : List String) (now : ℕ)
    {r : Option ClaimScope}
    → resolve_claim_scope scopes (some scope_id) worker_name tier profiles now ≡ ok r
    → (scope : ClaimScope) × (r ≡ some scope)
      × (lookup_scope (strip scope_id) scopes ≡ some scope)
      × (scope.worker_name ≡ worker_name)
      × (scope.tier ≡ tier)
      × (now < scope.expires_at)
      × (scope.schema ≡ schema_v2
          → (scope.expires_at ≤ now + max_ttl)
            × (subset (map (λ (item : ScopedJob). item.profile) scope.jobs) profiles ≡ true))
unfolding resolve_claim_scope present
resolve_live scopes scope_id worker_name tier profiles now h =
    let (_, _, h₁) = >>=-eq-ok (refuse (not (is_scope_id (strip scope_id))) _) _ h in
    let (scope, found, h₂) = >>=-eq-ok (present (lookup_scope (strip scope_id) scopes)) _ h₁ in
    let (_, late, h₃) = >>=-eq-ok (refuse (leb scope.expires_at now) _) _ h₂ in
    let (_, long, h₄) =
      >>=-eq-ok
        (refuse
          ((scope.schema == schema_v1 || scope.schema == schema_v2)
            && ltb (now + max_ttl) scope.expires_at)
          _)
        _ h₃ in
    let (_, other, h₅) =
      >>=-eq-ok (refuse (scope.worker_name != worker_name || scope.tier != tier) _) _ h₄ in
    let (_, unmatched, h₆) = >>=-eq-ok (refuse (not (profiles_match scope profiles)) _) _ h₅ in
    let (worker, same_tier) =
      neither (scope.worker_name == worker_name) (scope.tier == tier) (refuse-eq-ok _ _ other) in
    (
      scope,
      ground arith,
      found_scope (lookup_scope (strip scope_id) scopes) found,
      ==→≡ scope.worker_name worker_name worker,
      ==→≡ scope.tier tier same_tier,
      unexpired scope.expires_at (refuse-eq-ok _ _ late),
      λ v2. (
        short (scope.schema == schema_v1) (scope.schema == schema_v2) scope.expires_at
            (rw v2 (==-refl schema_v2)) (refuse-eq-ok _ _ long),
        v2_profiles scope profiles (no (profiles_match scope profiles) (refuse-eq-ok _ _ unmatched))
            v2,
      ),
    )
  where
    found_scope :
        (o : Option ClaimScope) {scope : ClaimScope} → present o ≡ ok scope → o ≡ some scope
    found_scope none e = absurd (ground arith)
    found_scope (some s) e = ground arith

    neither : (a b : Bool) → (not a || not b) ≡ false → (a ≡ true) × (b ≡ true)
    neither a b e = ground arith

    unexpired : (x : ℕ) → leb x now ≡ false → now < x
    unexpired x e = ground arith

    short :
        (a b : Bool) (x : ℕ)
        → b ≡ true
        → ((a || b) && ltb (now + max_ttl) x) ≡ false
        → x ≤ now + max_ttl
    short a b x e f = ground arith

    no : (b : Bool) → not b ≡ false → b ≡ true
    no b e = ground arith
