-- ===== src/Policy/Agreement.antt =====
-- The policy's tests on a worker against the queue's.
use qdev_runner_control_plan.Prelude.{
  String, ◌≡◌, refl, ap, Bool, true, false, ◌&&◌, not, Option, none, some, List, [], ◌∷◌, arith,
  string_eq, Real, ℤ, ok, refuse, >>=-eq-ok, ◌>>◌, lookup, lower, In, select, select-In, In-select,
  subst, here, there, map, subset, Bool-cases, inl, inr,
}
use qdev_runner_control_plan.Json.{Json, Fields, get_or}
use qdev_runner_control_plan.Store.Workers.{enough_space, few_enough, repository_worker_allowed}
use qdev_runner_control_plan.Policy.{
  Profile, RepositoryPolicy, Policy, repository, selects, only_match, profile_for_labels,
  short_of_disk, too_many, authorize_worker_resources,
}

disk_agrees :
    (minimum : Option Real) (v : Json) → enough_space v minimum ≡ not (short_of_disk minimum v)
unfolding enough_space short_of_disk
disk_agrees none v = refl
disk_agrees (some minimum) Json.null = refl
disk_agrees (some minimum) (Json.bool b) = refl
disk_agrees (some minimum) (Json.int z) = refl
disk_agrees (some minimum) (Json.float x) = ground arith
disk_agrees (some minimum) (Json.str s) = refl
disk_agrees (some minimum) (Json.arr xs) = refl
disk_agrees (some minimum) (Json.obj d) = refl

concurrency_agrees :
    (maximum : Option ℤ) (v : Json) → few_enough v maximum ≡ not (too_many maximum v)
unfolding few_enough too_many
concurrency_agrees none v = refl
concurrency_agrees (some maximum) Json.null = refl
concurrency_agrees (some maximum) (Json.bool b) = refl
concurrency_agrees (some maximum) (Json.int z) = ground arith
concurrency_agrees (some maximum) (Json.float x) = refl
concurrency_agrees (some maximum) (Json.str s) = refl
concurrency_agrees (some maximum) (Json.arr xs) = refl
concurrency_agrees (some maximum) (Json.obj d) = refl

-- The policy authorizes a worker for an active repository exactly if the queue's own test allows
-- the worker that reports the same free disk and concurrency, under the policy's limits for it.
pub authorize_agrees :
    (p : Policy) (full_name : String) (repo : RepositoryPolicy) (detail : Fields)
    → repository p full_name none ≡ ok repo
    → (authorize_worker_resources p full_name
            (get_or detail "disk_free_gib" Json.null)
            (get_or detail "concurrency" Json.null)
          ≡ ok tt
        → repository_worker_allowed detail
            (lookup (lower repo.full_name) p.repository_min_disk_free_gib)
            (lookup (lower repo.full_name) p.repository_max_concurrency)
          ≡ true)
      × (repository_worker_allowed detail
              (lookup (lower repo.full_name) p.repository_min_disk_free_gib)
              (lookup (lower repo.full_name) p.repository_max_concurrency)
            ≡ true
          → authorize_worker_resources p full_name
              (get_or detail "disk_free_gib" Json.null)
              (get_or detail "concurrency" Json.null)
            ≡ ok tt)
unfolding authorize_worker_resources repository_worker_allowed
authorize_agrees p full_name repo detail h =
    let free = get_or detail "disk_free_gib" Json.null in
    let concurrency = get_or detail "concurrency" Json.null in
    let minimum = lookup (lower repo.full_name) p.repository_min_disk_free_gib in
    let maximum = lookup (lower repo.full_name) p.repository_max_concurrency in
    rw (h, disk_agrees minimum free, concurrency_agrees maximum concurrency)
      (both (short_of_disk minimum free) (too_many maximum concurrency) _ _)
  where
    both :
        (a b : Bool) (e f : _)
        → ((do refuse a e; refuse b f) ≡ ok tt → (not a && not b) ≡ true)
          × ((not a && not b) ≡ true → (do refuse a e; refuse b f) ≡ ok tt)
    both true b e f = ((λ h'. absurd (ground arith)), λ h'. absurd (ground arith))
    both false true e f = ((λ h'. absurd (ground arith)), λ h'. absurd (ground arith))
    both false false e f = ((λ h'. refl), λ h'. refl)

only_match-eq-ok :
    (normalized : List String) (matches : List Profile) {profile : Profile}
    → only_match normalized matches ≡ ok profile
    → (matches ≡ profile ∷ []) × (subset (map lower profile.labels) normalized ≡ true)
unfolding only_match
only_match-eq-ok normalized [] h = absurd (ground arith)
only_match-eq-ok normalized (m ∷ n ∷ ms) h = absurd (ground arith)
only_match-eq-ok normalized (m ∷ []) {profile} h =
    elim (Bool-cases (subset (map lower m.labels) normalized)) [
      | inl t ↦
          let h' : ok m ≡ ok profile = rw t at h in
          let e : m ≡ profile = ground arith in (ap (λ (x : Profile). x ∷ []) e, rw (← e) t)
      | inr f ↦ absurd (ground (arith, f))
    ]

-- The profile that a job runs under is one of an active repository's allowed profiles that the
-- job's labels name, it is the only such profile of the policy, and the labels cover its own.
pub profile_sound :
    (p : Policy) (full_name : String) (labels : List String) {profile : Profile}
    → profile_for_labels p full_name labels ≡ ok profile
    → (repo : RepositoryPolicy) × (repository p full_name none ≡ ok repo)
      × (selects repo (map lower labels) profile ≡ true)
      × (subset (map lower profile.labels) (map lower labels) ≡ true)
      × ((other : Profile)
          → In other (map (λ (e : String × Profile). e.1) p.profiles)
          → selects repo (map lower labels) other ≡ true
          → other ≡ profile)
unfolding profile_for_labels
profile_sound p full_name labels {profile} h =
    let (repo, e, h₁) = >>=-eq-ok (repository p full_name none) _ h in
    let all_profiles = map (λ (e : String × Profile). e.1) p.profiles in
    let (only, covers) =
      only_match-eq-ok (map lower labels) (select (selects repo (map lower labels)) all_profiles)
        h₁ in
    let own : In profile (select (selects repo (map lower labels)) all_profiles) =
      rw only (here refl) in
    (
      repo,
      e,
      (select-In (selects repo (map lower labels)) all_profiles own).1,
      covers,
      λ other m t. single (subst (In other) only (In-select (selects repo (map lower labels)) m t)),
    )
  where
    single : {a b : Profile} → In a (b ∷ []) → a ≡ b
    single (here e) = e
    single (there m) = elim m [ ]
