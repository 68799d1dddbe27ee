-- ===== src/ClaimScope.antt =====
-- src/qdev_runner/claim_scope.py: the temporary scopes that bind a worker to exact jobs.
-- Regular expressions are written as character classes. A loaded document is the list of its
-- scopes with their ids. Time counts microseconds.
pub mod Parse
pub mod Again
pub mod Entries
pub mod RoundTrip
pub mod Looks
pub mod Upsert
pub mod Written
pub mod Container
pub mod Document
pub mod Resolution
use qdev_runner_control_plan.Prelude.{
  ℕ, ◌+◌, ◌*◌, String, Bool, false, ◌&&◌, ◌||◌, Option, none, some, List, [], ◌∷◌, map,
  if◌then◌else◌, not, ◌==◌, ◌!=◌, nat_eq, string_eq, int_eq, option_eq, leb, ltb, ℤ, Result, ok,
  raise, refuse, ◌>>=◌, ◌>>◌, claim_scope_error, any, subset, length, strip, is_alnum, is_name_char,
  text_length, is_hex_text, starts_then,
}

abbrev pub schema_v1 : String
schema_v1 = "claim-scope-v1"

abbrev pub schema_v2 : String
schema_v2 = "claim-scope-v2"

abbrev pub legacy_schema : String
legacy_schema = "qdev-runner-claim-scopes-v1"

abbrev pub allowed_profiles : List String
allowed_profiles = "qdev-ci" ∷ "qdev-ci-docker" ∷ []

abbrev pub managed_exact_candidate : String
managed_exact_candidate = "managed-exact-candidate"

abbrev pub max_ttl : ℕ
max_ttl = 900 * 1000000

pub record ScopedJob : Type 0 where
  pub job_id : ℕ
  pub profile : String
  pub repository : Option String
  pub run_id : Option ℕ
  pub attempt : Option ℤ
  pub exact_sha : Option String

pub record ScopedFifoSkip : Type 0 where
  pub job_id : ℕ
  pub profile : String
  pub repository : String
  pub run_id : ℕ
  pub attempt : ℤ
  pub exact_sha : String
  pub managed_registry_entry : Option String
  pub reason : String

pub record ClaimScope : Type 0 where
  pub scope_id : String
  pub worker_name : String
  pub tier : String
  pub repository : String
  pub head_sha : String
  pub expires_at : ℕ
  pub jobs : List ScopedJob
  pub worker_certificate_sha256 : Option String
  pub schema : String
  pub host : Option String
  pub runner : Option String
  pub correlation_id : Option String
  pub fifo_skipped : List ScopedFifoSkip
  pub fifo_exception : Option String

-- The provider tuple that a caller asks about.
pub record JobTuple : Type 0 where
  pub job_id : ℕ
  pub repository : String
  pub head_sha : String
  pub profile : String
  pub run_id : Option ℕ
  pub attempt : Option ℤ

-- The generator's test in `permits` for a v2 scope.
unfoldable pub binds_job : JobTuple → ScopedJob → Bool
binds_job t item =
    item.job_id == t.job_id
    && item.repository == some t.repository
    && item.run_id == t.run_id
    && item.attempt == t.attempt
    && item.exact_sha == some t.head_sha
    && item.profile == t.profile

unfoldable pub permits : ClaimScope → JobTuple → Bool
unfolding binds_job any
permits scope t =
    if scope.schema == schema_v2
    then any (binds_job t) scope.jobs
    else (t.repository == scope.repository
        && t.head_sha == scope.head_sha
        && any (λ item. item.job_id == t.job_id && item.profile == t.profile) scope.jobs)

-- The generator's test in `skips`.
unfoldable pub binds_skip : JobTuple → ScopedFifoSkip → Bool
binds_skip t item =
    item.job_id == t.job_id
    && item.repository == t.repository
    && some item.run_id == t.run_id
    && some item.attempt == t.attempt
    && item.exact_sha == t.head_sha
    && item.profile == t.profile

unfoldable pub skips : ClaimScope → JobTuple → Bool
unfolding binds_skip any
skips scope t = if scope.schema != schema_v2 then false else any (binds_skip t) scope.fifo_skipped

unfoldable pub certificate_matches : ClaimScope → Option String → Bool
unfolding is_hex_text strip
certificate_matches scope fingerprint =
    let normalized = strip (elim fingerprint [ none ↦ "" | some s ↦ s ]) in
    elim scope.worker_certificate_sha256 [
      | none ↦ false
      | some expected ↦ expected != "" && is_hex_text 64 normalized && expected == normalized
    ]

-- ^[A-Za-z0-9][A-Za-z0-9._-]{2,127}$
unfoldable pub is_scope_id : String → Bool
unfolding starts_then is_alnum is_name_char text_length
is_scope_id s =
    starts_then is_alnum is_name_char s && leb 3 (text_length s) && leb (text_length s) 128

abbrev pub Scopes : Type 0
Scopes = List (String × ClaimScope)

unfoldable pub lookup_scope : String → Scopes → Option ClaimScope
lookup_scope k [] = none
lookup_scope k ((j, scope) ∷ rest) = if j == k then some scope else lookup_scope k rest

-- set(xs) == set(ys)
unfoldable pub same_set : List String → List String → Bool
unfolding subset
same_set xs ys = subset xs ys && subset ys xs

-- The profile checks at the end of `resolve_claim_scope`, one for each schema.
unfoldable pub profiles_match : ClaimScope → List String → Bool
unfolding same_set
profiles_match scope profiles =
    not (
      scope.schema == schema_v1
      && (not (same_set profiles allowed_profiles) || length profiles != length allowed_profiles))
    && not (
        scope.schema == legacy_schema
        && not (same_set (map (λ (item : ScopedJob). item.profile) scope.jobs) profiles))
    && not (
        scope.schema == schema_v2
        && not (subset (map (λ (item : ScopedJob). item.profile) scope.jobs) profiles))

unfoldable pub present : Option ClaimScope → Result ClaimScope
present none = raise (claim_scope_error "claim scope is absent")
present (some scope) = ok scope

unfoldable pub resolve_claim_scope :
    Scopes → Option String → String → String → List String → ℕ → Result (Option ClaimScope)
unfolding present lookup_scope profiles_match is_scope_id strip
resolve_claim_scope scopes none worker_name tier profiles now = ok none
resolve_claim_scope scopes (some scope_id) worker_name tier profiles now = do
  let normalized = strip scope_id
  refuse (not (is_scope_id normalized))
      (claim_scope_error "claim scope ID contains unsafe characters")
  scope ← present (lookup_scope normalized scopes)
  refuse (leb scope.expires_at now) (claim_scope_error "claim scope has expired")
  refuse
      ((scope.schema == schema_v1 || scope.schema == schema_v2)
        && ltb (now + max_ttl) scope.expires_at)
      (claim_scope_error "claim scope expiry exceeds the 900 second limit")
  refuse (scope.worker_name != worker_name || scope.tier != tier)
      (claim_scope_error "claim scope worker identity does not match")
  refuse (not (profiles_match scope profiles))
      (claim_scope_error "claim scope profiles do not match worker profiles")
  ok (some scope)

unfoldable pub resolve_bound_claim_scope :
    Scopes → Option String → String → JobTuple → Result ClaimScope
unfolding present lookup_scope permits is_scope_id strip
resolve_bound_claim_scope scopes scope_id worker_name t = do
  let normalized = strip (elim scope_id [ none ↦ "" | some s ↦ s ])
  refuse (not (is_scope_id normalized))
      (claim_scope_error "claim scope ID contains unsafe characters")
  scope ← present (lookup_scope normalized scopes)
  refuse (scope.worker_name != worker_name)
      (claim_scope_error "claim scope worker identity does not match")
  refuse (not (permits scope t)) (claim_scope_error "claim scope job binding does not match")
  ok scope
