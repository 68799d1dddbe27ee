-- ===== src/Policy.antt =====
-- src/qdev_runner/policy.py: what the inventory allows a repository to run. A loaded policy is the
-- dictionaries of its constructor; `casefold` is `lower` on the names, and what the messages
-- interpolate is left out of them.
pub mod Agreement
use Prim.Native.Char.{Char, code}
use Prim.Native.String.{◌++◌ as text_append}
use qdev_runner_control_plan.Prelude.{
  ℕ, String, Bool, true, false, ◌&&◌, ◌||◌, not, Option, none, some, List, [], ◌∷◌, map,
  if◌then◌else◌, ◌==◌, ◌!=◌, nat_eq, nat_beq, string_eq, int_eq, ℤ, pos, ltb_ℤ, Real, is_finite,
  ltb_real, of_int, Result, ok, raise, refuse, Exc, policy_error, key_error, type_error,
  attribute_error, ◌>>=◌, ◌>>◌, find, select, member, subset, lookup, lower, strip,
}
use qdev_runner_control_plan.Json
use qdev_runner_control_plan.Json.{
  Json, Fields, Python, get, get_or, get_attr, truthy, to_int, to_text,
}

pub record Profile : Type 0 where
  pub name : String
  pub labels : List String
  pub allow_public_pr : Bool

pub record TestWorkflowRegistration : Type 0 where
  pub path : String
  pub suites : List String
  pub profile : Option String
  pub refs : List String

pub record RepositoryPolicy : Type 0 where
  pub full_name : String
  pub repository_id : ℕ
  pub private : Bool
  pub archived : Bool
  pub profiles : List String
  pub workflows : List String
  pub test_workflows : List TestWorkflowRegistration
  pub workflow_registration_present : Bool

pub record Policy : Type 0 where
  pub repositories : List (String × RepositoryPolicy)
  pub profiles : List (String × Profile)
  pub repository_min_disk_free_gib : List (String × Real)
  pub repository_max_concurrency : List (String × ℤ)

abbrev pub unlisted : Exc
unlisted = policy_error "repository is not in the active runner allowlist"

-- repository_id is not None and repo.repository_id != repository_id
abbrev other_id : Option ℕ → ℕ → Bool
other_id none id = false
other_id (some wanted) id = id != wanted

unfoldable pub repository : Policy → String → Option ℕ → Result RepositoryPolicy
unfolding lookup lower
repository p full_name repository_id = elim (lookup (lower full_name) p.repositories) [
  | none ↦ raise unlisted
  | some repo ↦
      if repo.archived
      then raise unlisted
      else if other_id repository_id repo.repository_id
      then raise (policy_error "repository id does not match the active allowlist")
      else ok repo
]

unfoldable pub selects : RepositoryPolicy → List String → Profile → Bool
unfolding member lower
selects repo normalized profile =
    member (lower profile.name) normalized && member profile.name repo.profiles

-- What follows `len(matches) != 1`.
unfoldable pub only_match : List String → List Profile → Result Profile
unfolding subset lower
only_match normalized (profile ∷ []) =
    if subset (map lower profile.labels) normalized
    then ok profile
    else raise (policy_error (text_append "runner labels do not satisfy profile " profile.name))
only_match normalized _ = raise (policy_error "job must select exactly one allowed qdev profile")

unfoldable pub profile_for_labels : Policy → String → List String → Result Profile
unfolding repository selects only_match select lower
profile_for_labels p full_name labels = do
  repo ← repository p full_name none
  let normalized = map lower labels
  only_match normalized
      (select (selects repo normalized) (map (λ (e : String × Profile). e.1) p.profiles))

-- The test on `disk_free_gib`, a value of any type.
unfoldable pub short_of_disk : Option Real → Json → Bool
short_of_disk none v = false
short_of_disk (some minimum) (Json.int z) = ltb_real (of_int z) minimum
short_of_disk (some minimum) (Json.float x) = not (is_finite x) || ltb_real x minimum
short_of_disk (some minimum) _ = true

-- The test on `concurrency`.
unfoldable pub too_many : Option ℤ → Json → Bool
too_many none v = false
too_many (some maximum) (Json.int z) = ltb_ℤ z (pos 1) || ltb_ℤ maximum z
too_many (some maximum) _ = true

unfoldable pub authorize_worker_resources : Policy → String → Json → Json → Result (Unit {0})
unfolding repository short_of_disk too_many lookup lower
authorize_worker_resources p full_name disk_free_gib concurrency = do
  repo ← repository p full_name none
  let repository_name = lower repo.full_name
  refuse (short_of_disk (lookup repository_name p.repository_min_disk_free_gib) disk_free_gib)
      (policy_error "repository admission requires more free disk")
  refuse (too_many (lookup repository_name p.repository_max_concurrency) concurrency)
      (policy_error "repository admission requires a lower worker concurrency")

-- v or {}
abbrev or_empty : Json → Json
or_empty v = if truthy v then v else Json.obj Json.end

-- v[0] for a value that is true
abbrev first : Json → Result Json
first (Json.arr (Json.cons v vs)) = ok v
first (Json.str s) = raise attribute_error
first (Json.obj d) = raise key_error
first _ = raise type_error

-- ((pull_requests[0].get("head") or {}).get("repo") or {}).get("id"), and None without any
unfoldable pub head_repo_id : Json → Result Json
unfolding get
head_repo_id pull_requests = if not (truthy pull_requests) then ok Json.null else (do
  pull ← first pull_requests
  head ← get_attr pull "head" Json.null
  repo ← get_attr (or_empty head) "repo" Json.null
  get_attr (or_empty repo) "id" Json.null)

module _ (py : Python) where
  unfoldable pub authorize_run : Policy → String → Profile → Fields → Result (Unit {0})
  unfolding repository head_repo_id get to_int to_text
  authorize_run p full_name profile run = do
    repo ← repository p full_name none
    let event = to_text py (get_or run "event" (Json.str ""))
    if event != "pull_request" || repo.private then ok tt else (do
      head ← head_repo_id (get_or run "pull_requests" Json.null)
      refuse (not profile.allow_public_pr) fork
      id ← to_int py (if truthy head then head else Json.int (pos 0))
      refuse (not (id == pos repo.repository_id)) fork)
    where
      fork : Exc
      fork = policy_error "public fork pull requests are not authorized for self-hosted execution"

-- value.replace("\\", "/")
slashes : String → String
slashes String.[] = String.[]
slashes (String.◌∷◌ c s) =
    let rest = slashes s in if nat_beq (code c) 92 then String.◌∷◌ "/" rest else String.◌∷◌ c rest

-- path[2:] if path.startswith("./") else path
drop_dot : String → String
drop_dot String.[] = String.[]
drop_dot (String.◌∷◌ c String.[]) = String.◌∷◌ c String.[]
drop_dot (String.◌∷◌ c (String.◌∷◌ d s)) =
    if nat_beq (code c) b'.' && nat_beq (code d) b'/' then s else String.◌∷◌ c (String.◌∷◌ d s)

unfoldable pub normalise_workflow_path : String → String
unfolding slashes drop_dot strip
normalise_workflow_path value = drop_dot (strip (slashes value))

-- x and allowed and x not in allowed, for a text that may be None or empty
unfoldable pub outside : Option String → List String → Bool
unfolding member
outside none allowed = false
outside (some x) [] = false
outside (some x) (a ∷ allowed) = x != "" && not (member x (a ∷ allowed))

-- profile and entry.profile and profile != entry.profile
unfoldable pub other_profile : Option String → Option String → Bool
other_profile none e = false
other_profile (some x) none = false
other_profile (some x) (some e) = x != "" && e != "" && x != e

unfoldable pub registered :
    RepositoryPolicy
    → String
    → Option String
    → Option String
    → Option String
    → Result TestWorkflowRegistration
unfolding outside other_profile find
registered repo workflow suite profile ref =
    elim (find (λ (e : TestWorkflowRegistration). e.path == workflow) repo.test_workflows) [
      | none ↦ raise (policy_error "test workflow is not registered")
      | some entry ↦ do
        refuse (outside suite entry.suites) (policy_error "suite is not registered")
        refuse (other_profile profile entry.profile) (policy_error "profile is not registered")
        refuse (outside ref entry.refs) (policy_error "ref is not registered")
        ok entry
    ]

abbrev has_any : List String → Bool
has_any [] = false
has_any (_ ∷ _) = true

unfoldable pub test_workflow :
    Policy
    → String
    → String
    → Option String
    → Option String
    → Option String
    → Result (Option TestWorkflowRegistration)
unfolding repository registered normalise_workflow_path member
test_workflow p full_name workflow suite profile ref = do
  repo ← repository p full_name none
  let path = normalise_workflow_path workflow
  if repo.workflow_registration_present
      then (do entry ← registered repo path suite profile ref; ok (some entry))
      else if has_any repo.workflows && not (member path repo.workflows)
      then raise (policy_error "test workflow is not registered")
      else ok none
