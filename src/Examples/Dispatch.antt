-- ===== src/Examples/Dispatch.antt =====
-- Schedules, intents, admission and policy on small inputs.
use qdev_runner_control_plan.Prelude.{
  ℕ, ◌+◌, ◌≤◌, ◌<◌, String, ◌≡◌, refl, sym, ◌∙◌, true, false, All, arith, none, some, [], ◌∷◌, In,
  here, there, of_int, pos, ok, string_eq, lower, map, subset, lookup, strip,
}
use qdev_runner_control_plan.Json
use qdev_runner_control_plan.Json.{Fields, get_or, get}
use qdev_runner_control_plan.ClaimScope.{
  ScopedJob, ClaimScope, schema_v2, max_ttl, lookup_scope, resolve_claim_scope,
}
use qdev_runner_control_plan.ClaimScope.Resolution.{resolve_live}
use qdev_runner_control_plan.Store.Tables.{seconds}
use qdev_runner_control_plan.Store.Schedules.{
  Key, Schedule, Schedules, has_key, dispatched_row, dispatched_answer, claim_test_schedule,
  advance_test_schedule, upsert_test_schedule,
}
use qdev_runner_control_plan.Store.Schedules.Registered.{IsPaced, IsRegistered, upsert_registers}
use qdev_runner_control_plan.Store.Schedules.Spacing.{IsKey, claims_spaced, advance_forward}
use qdev_runner_control_plan.Store.Intents.{
  NewIntent, intent_row, in_flight, create_dispatch_intent, begin_dispatch_intent,
}
use qdev_runner_control_plan.Store.Intents.Once.{begin_once, create_idempotent}
use qdev_runner_control_plan.Store.Workers.{repository_worker_allowed}
use qdev_runner_control_plan.Policy.{
  Profile, RepositoryPolicy, Policy, repository, selects, profile_for_labels,
  authorize_worker_resources,
}
use qdev_runner_control_plan.Policy.Agreement.{authorize_agrees, profile_sound}
use qdev_runner_control_plan.Capacity.{Capacity, Thresholds, blockers_of, evaluate}
use qdev_runner_control_plan.Capacity.Admission.{NoWorse, evaluate_monotone}

abbrev key : Key
key = record { repository = "qdev/app"; workflow = "test.yml"; suite = "unit"; ref = "main" }

abbrev nightly : Schedule
nightly = record {
  key = key;
  installation_id = 9;
  interval_seconds = 60;
  next_run_at = 1000;
  enabled = true;
  last_dispatch_at = none;
  last_error = none;
  created_at = 0;
  updated_at = 0;
}

abbrev schedules : Schedules
schedules = nightly ∷ []

alone : IsKey key schedules
alone a b (here e) (here e') h h' = e ∙ sym e'
alone a b (here e) (there m) h h' = elim m [ ]
alone a b (there m) n h h' = elim m [ ]

abbrev ran : ℕ → ℕ → Schedules
ran next now = dispatched_row next now nightly ∷ []

claimed_once :
    claim_test_schedule key 2000 schedules
    ≡ (ran 60002000 2000, some (dispatched_answer 60002000 2000 nightly))
unfolding claim_test_schedule dispatched_row dispatched_answer
claimed_once = refl

claimed_twice : claim_test_schedule key 60002000 (ran 60002000 2000) ≡ (
  dispatched_row 120002000 60002000 (dispatched_row 60002000 2000 nightly) ∷ [],
  some (dispatched_answer 120002000 60002000 (dispatched_row 60002000 2000 nightly)),
)
unfolding claim_test_schedule dispatched_row dispatched_answer
claimed_twice = refl

claims_spaced_example :
    2000 + seconds (dispatched_answer 60002000 2000 nightly).interval_seconds ≤ 60002000
claims_spaced_example = claims_spaced key 2000 60002000 schedules alone claimed_once claimed_twice

advanced :
    advance_test_schedule key 1000 5000 schedules
    ≡ (ran 60005000 5000, some (dispatched_answer 60005000 5000 nightly))
unfolding advance_test_schedule dispatched_row dispatched_answer
advanced = refl

advance_forward_example :
    (s : Schedule) × In s schedules
    × (has_key key s ≡ true)
    × (s.next_run_at ≤ 1000 + 1
        → 5000 + seconds s.interval_seconds ≤ (dispatched_answer 60005000 5000 nightly).next_run_at)
    × (s.next_run_at ≤ 1000 + 1
        → 1000 + seconds s.interval_seconds ≤ (dispatched_answer 60005000 5000 nightly).next_run_at)
    × (1000 + 1 < s.next_run_at
        → (dispatched_answer 60005000 5000 nightly).next_run_at ≡ s.next_run_at)
    × In
        (dispatched_row (dispatched_answer 60005000 5000 nightly).next_run_at 5000 s)
        (ran 60005000 5000)
advance_forward_example = advance_forward key 1000 5000 schedules advanced

abbrev new_intent : String → NewIntent
new_intent id = record {
  id = id;
  repository = "qdev/app";
  workflow = "test.yml";
  suite = "unit";
  ref = "main";
  installation_id = 9;
  slot = 1000;
  expected_sha = none;
  correlation_id = "slot-1000";
}

begun : begin_dispatch_intent "i" 30 (intent_row (new_intent "i") 20 ∷ []) ≡ (
  in_flight 30 (intent_row (new_intent "i") 20) ∷ [],
  some (in_flight 30 (intent_row (new_intent "i") 20)),
)
unfolding begin_dispatch_intent intent_row in_flight
begun = refl

begin_once_example :
    begin_dispatch_intent "i" 40 (in_flight 30 (intent_row (new_intent "i") 20) ∷ [])
    ≡ (in_flight 30 (intent_row (new_intent "i") 20) ∷ [], none)
begin_once_example = begin_once "i" 30 40 (intent_row (new_intent "i") 20 ∷ []) begun

created :
    create_dispatch_intent (new_intent "i") 20 []
    ≡ ok (intent_row (new_intent "i") 20 ∷ [], intent_row (new_intent "i") 20, false)
unfolding create_dispatch_intent intent_row
created = refl

create_idempotent_example :
    create_dispatch_intent (new_intent "j") 25 (intent_row (new_intent "i") 20 ∷ [])
    ≡ ok (intent_row (new_intent "i") 20 ∷ [], intent_row (new_intent "i") 20, true)
create_idempotent_example =
    create_idempotent (new_intent "i") (new_intent "j") 20 25 [] created refl

abbrev ci : Profile
ci = record { name = "qdev-ci"; labels = "self-hosted" ∷ "qdev-ci" ∷ []; allow_public_pr = false }

abbrev app : RepositoryPolicy
app = record {
  full_name = "qdev/app";
  repository_id = 7;
  private = true;
  archived = false;
  profiles = "qdev-ci" ∷ [];
  workflows = [];
  test_workflows = [];
  workflow_registration_present = false;
}

abbrev policy : Policy
policy = record {
  repositories = ("qdev/app", app) ∷ [];
  profiles = ("qdev-ci", ci) ∷ [];
  repository_min_disk_free_gib = ("qdev/app", of_int (pos 60)) ∷ [];
  repository_max_concurrency = ("qdev/app", pos 2) ∷ [];
}

listed : repository policy "qdev/app" none ≡ ok app
unfolding repository
listed = refl

abbrev detail : Fields
detail =
    Json.field "disk_free_gib" (Json.float (of_int (pos 80)))
      (Json.field "concurrency" (Json.int (pos 2)) Json.end)

authorize_agrees_example :
    (authorize_worker_resources policy "qdev/app"
          (get_or detail "disk_free_gib" Json.null)
          (get_or detail "concurrency" Json.null)
        ≡ ok tt
      → repository_worker_allowed detail
          (lookup (lower app.full_name) policy.repository_min_disk_free_gib)
          (lookup (lower app.full_name) policy.repository_max_concurrency)
        ≡ true)
    × (repository_worker_allowed detail
            (lookup (lower app.full_name) policy.repository_min_disk_free_gib)
            (lookup (lower app.full_name) policy.repository_max_concurrency)
          ≡ true
        → authorize_worker_resources policy "qdev/app"
            (get_or detail "disk_free_gib" Json.null)
            (get_or detail "concurrency" Json.null)
          ≡ ok tt)
authorize_agrees_example = authorize_agrees policy "qdev/app" app detail listed

chosen : profile_for_labels policy "qdev/app" ("Self-Hosted" ∷ "qdev-ci" ∷ []) ≡ ok ci
unfolding profile_for_labels
chosen = refl

profile_sound_example :
    (repo : RepositoryPolicy) × (repository policy "qdev/app" none ≡ ok repo)
    × (selects repo (map lower ("Self-Hosted" ∷ "qdev-ci" ∷ [])) ci ≡ true)
    × (subset (map lower ci.labels) (map lower ("Self-Hosted" ∷ "qdev-ci" ∷ [])) ≡ true)
    × ((other : Profile)
        → In other (map (λ (e : String × Profile). e.1) policy.profiles)
        → selects repo (map lower ("Self-Hosted" ∷ "qdev-ci" ∷ [])) other ≡ true
        → other ≡ ci)
profile_sound_example = profile_sound policy "qdev/app" ("Self-Hosted" ∷ "qdev-ci" ∷ []) chosen

abbrev host : Capacity
host = record {
  allowed = true;
  disk_used_pct = of_int (pos 50);
  disk_free_gib = of_int (pos 80);
  memory_available_gib = of_int (pos 8);
  load_15 = of_int (pos 1);
  cpu_psi_avg10 = of_int (pos 0);
  cpus = 4;
  blockers = [];
}

abbrev limits : Thresholds
limits = record {
  min_disk_free_gib = of_int (pos 30);
  max_disk_used_pct = of_int (pos 85);
  min_memory_available_gib = of_int (pos 2);
  max_load_per_cpu = of_int (pos 1);
  max_cpu_psi_avg10 = none;
}

-- A host with more free disk and a lower load.
abbrev better : Capacity
better = record host { disk_free_gib = of_int (pos 90); load_15 = of_int (pos 0) }

better-NoWorse : NoWorse better host
better-NoWorse = record {
  used = refl;
  free = refl;
  memory = refl;
  load = refl;
  psi = refl;
  cpus = refl;
}

admitted : (evaluate host limits).allowed ≡ true
unfolding evaluate blockers_of
admitted = refl

evaluate_monotone_example :
    ((evaluate better limits).allowed ≡ true) × ((evaluate better limits).blockers ≡ [])
evaluate_monotone_example = evaluate_monotone better host limits better-NoWorse admitted

paced : All IsPaced schedules
paced = ((ground arith, ground arith), tt)

upsert_registers_example :
    (t' : Schedules) × (s : Schedule) × (upsert_test_schedule key 9 3600
        (some 5000)
        true
        2000
        schedules
      ≡ ok (t', s))
    × In s t'
    × IsRegistered key 9 3600 5000 true s
    × ((x : Schedule) → In x schedules → has_key key x ≡ false → In x t')
    × All IsPaced t'
upsert_registers_example =
    upsert_registers key 9 3600 (some 5000) true 2000 schedules (ground arith) (ground arith) paced

abbrev scope : ClaimScope
scope = record {
  scope_id = "scope-1";
  worker_name = "w1";
  tier = "primary";
  repository = "qdev/app";
  head_sha = "abc";
  expires_at = 600000000;
  jobs =
      (record {
        job_id = 1;
        profile = "qdev-ci";
        repository = some "qdev/app";
        run_id = some 101;
        attempt = some (pos 1);
        exact_sha = some "abc";
      })
      ∷ [];
  worker_certificate_sha256 = none;
  schema = schema_v2;
  host = none;
  runner = none;
  correlation_id = none;
  fifo_skipped = [];
  fifo_exception = none;
}

resolved :
    resolve_claim_scope
      (("scope-1", scope) ∷ [])
      (some " scope-1")
      "w1"
      "primary"
      ("qdev-ci" ∷ [])
      5
    ≡ ok (some scope)
unfolding resolve_claim_scope
resolved = refl

resolve_live_example :
    (found : ClaimScope) × (some scope ≡ some found)
    × (lookup_scope (strip " scope-1") (("scope-1", scope) ∷ []) ≡ some found)
    × (found.worker_name ≡ "w1")
    × (found.tier ≡ "primary")
    × (5 < found.expires_at)
    × (found.schema ≡ schema_v2
        → (found.expires_at ≤ 5 + max_ttl)
          × (subset (map (λ (item : ScopedJob). item.profile) found.jobs) ("qdev-ci" ∷ []) ≡ true))
resolve_live_example =
    resolve_live (("scope-1", scope) ∷ []) " scope-1" "w1" "primary" ("qdev-ci" ∷ []) 5 resolved
