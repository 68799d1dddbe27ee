-- ===== src/Store/Claim/Eligible.antt =====
-- What the verdict `take` on a row says about the row and the worker.
use qdev_runner_control_plan.Prelude.{
  lookup, ℕ, String, ◌≡◌, refl, ap, subst, ◌∙◌, Bool, true, false, ◌&&◌, not, Option, none, some,
  List, arith, if◌then◌else◌, Result, ok, >>=-eq-ok, member, lower, ◌==◌, string_eq, option_eq,
  nat_eq,
}
use qdev_runner_control_plan.Json.{Python}
use qdev_runner_control_plan.Store.Tables.{Job, Db}
use qdev_runner_control_plan.Store.Claim.Request.{ClaimRequest, Evidence}
use qdev_runner_control_plan.Store.Claim.Selection.{matching_profile, differs, held_back}
use qdev_runner_control_plan.Store.Claim.Scan.{
  Verdict, skip, stop, take, require, left_to_primary, reserve_or_take, queue_allows, scope_permits,
  capacity_allows, consider_profile, consider,
}

take-injective : {p q : String} → ok (take p) ≡ ok (take q) → p ≡ q
take-injective h = ground arith

require-eq-take :
    (b : Bool) (rest : Result Verdict) {p : String}
    → require b rest ≡ ok (take p)
    → (b ≡ true) × (rest ≡ ok (take p))
require-eq-take true rest h = (refl, h)
require-eq-take false rest h = absurd (ground arith)

-- Every test that a row passes before a claim takes it.
pub record Eligible (py : Python) (req : ClaimRequest) (ev : Evidence)
    (heads : Option (List (String × ℕ))) (now : ℕ) (db : Db) (row : Job) (profile : String)
    : Type 0 where
  pub repository : differs req.repository row.repository ≡ false
  pub head_sha : differs req.head_sha row.head_sha ≡ false
  pub matched : matching_profile req.profiles row ≡ some profile
  pub queue : queue_allows py req ev heads db row profile ≡ true
  pub scope : scope_permits py req row profile ≡ ok true
  pub capacity : capacity_allows py req ev row profile ≡ ok true
  pub last : left_to_primary py req now db row profile ≡ ok false

differs-eq-false : (a b : Bool) → (not a && not b) ≡ true → (a ≡ false) × (b ≡ false)
differs-eq-false a b h = ground arith

stop_or_take :
    (primary : Bool) {p q : String}
    → ok (if primary then stop else take p) ≡ ok (take q)
    → (primary ≡ false) × (p ≡ q)
stop_or_take true h = absurd (ground arith)
stop_or_take false h = (refl, take-injective h)

module _ (py : Python) (req : ClaimRequest) (ev : Evidence) (heads : Option (List (String × ℕ)))
    (now : ℕ) (db : Db) (row : Job) where
  reserve_or_take-eq-take :
      (p : String) {q : String}
      → reserve_or_take py req now db row p ≡ ok (take q)
      → (left_to_primary py req now db row p ≡ ok false) × (p ≡ q)
  unfolding reserve_or_take
  reserve_or_take-eq-take p h =
      let (primary, e, k) = >>=-eq-ok (left_to_primary py req now db row p) _ h in
      let (no_primary, same) = stop_or_take primary k in (e ∙ ap ok no_primary, same)

  consider_profile-eq-take :
      (p : String) {q : String}
      → consider_profile py req ev heads now db row p ≡ ok (take q)
      → (queue_allows py req ev heads db row p ≡ true)
        × (scope_permits py req row p ≡ ok true)
        × (capacity_allows py req ev row p ≡ ok true)
        × (left_to_primary py req now db row p ≡ ok false)
        × (p ≡ q)
  unfolding consider_profile
  consider_profile-eq-take p h =
      let (queued, h₁) = require-eq-take (queue_allows py req ev heads db row p) _ h in
      let (permitted, e, h₂) = >>=-eq-ok (scope_permits py req row p) _ h₁ in
      let (is_permitted, h₃) = require-eq-take permitted _ h₂ in
      let (capable, f, h₄) = >>=-eq-ok (capacity_allows py req ev row p) _ h₃ in
      let (is_capable, h₅) = require-eq-take capable _ h₄ in
      let (no_primary, same) = reserve_or_take-eq-take p h₅ in
      (queued, e ∙ ap ok is_permitted, f ∙ ap ok is_capable, no_primary, same)

  by_match :
      (matched : Option String) {q : String}
      → matching_profile req.profiles row ≡ matched
      → (elim matched [ none ↦ ok skip | some p ↦ consider_profile py req ev heads now db row p ])
        ≡ ok (take q)
      → differs req.repository row.repository ≡ false
      → differs req.head_sha row.head_sha ≡ false
      → Eligible py req ev heads now db row q
  by_match none e h same_repository same_sha = absurd (ground arith)
  by_match (some p) {q} e h same_repository same_sha =
      let (queued, permitted, capable, no_primary, same) = consider_profile-eq-take p h in
      subst (Eligible py req ev heads now db row) same (record {
        repository = same_repository;
        head_sha = same_sha;
        matched = e;
        queue = queued;
        scope = permitted;
        capacity = capable;
        last = no_primary;
      })

  -- A row that is taken passed every test.
  pub consider-Eligible :
      {profile : String}
      → consider py req ev heads now db row ≡ ok (take profile)
      → Eligible py req ev heads now db row profile
  unfolding consider
  consider-Eligible h =
      let (same, h₁) =
        require-eq-take
          (not (differs req.repository row.repository) && not (differs req.head_sha row.head_sha)) _
          h in
      let (same_repository, same_sha) =
        differs-eq-false (differs req.repository row.repository) (differs req.head_sha row.head_sha)
          same in
      by_match (matching_profile req.profiles row) refl h₁ same_repository same_sha

three_tests : (a b c : Bool) → (a && b && c) ≡ true → (a ≡ true) × (b ≡ true) × (c ≡ true)
three_tests a b c h = ground arith

not-eq-true : (a : Bool) → not a ≡ true → a ≡ false
not-eq-true a h = ground arith

-- The queue's three tests: no hold, a scoped profile, and the FIFO head.
pub queue_allows-true :
    (py : Python) (req : ClaimRequest) (ev : Evidence) (heads : Option (List (String × ℕ)))
    (db : Db) (row : Job) (profile : String)
    → queue_allows py req ev heads db row profile ≡ true
    → (held_back db profile row ≡ false)
      × ((elim ev.scoped_profiles [ none ↦ true | some scoped ↦ member (lower profile) scoped ])
          ≡ true)
      × ((elim heads [ none ↦ true | some found ↦ lookup (lower profile) found == some row.job_id ])
          ≡ true)
unfolding queue_allows
queue_allows-true py req ev heads db row profile h =
    let (a, b, c) =
      three_tests (not (held_back db profile row))
        (elim ev.scoped_profiles [ none ↦ true | some scoped ↦ member (lower profile) scoped ])
        (elim heads [ none ↦ true | some found ↦ lookup (lower profile) found == some row.job_id ])
        h in
    (not-eq-true (held_back db profile row) a, b, c)
