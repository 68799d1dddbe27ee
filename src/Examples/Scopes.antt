-- ===== src/Examples/Scopes.antt =====
-- A scope document on a small input. The stand-in for a clock text is a row of `1`s.
use qdev_runner_control_plan.Prelude.{
  ℕ, zero, suc, String, ◌≡◌, refl, sym, ◌∙◌, ap, true, false, Option, none, some, [], ◌∷◌, ok, pos,
  ◌==◌, string_eq, all_chars, is_alnum, text_length, strip-alnum, arith, Bool-cases, inl, inr, ==→≡,
}
use qdev_runner_control_plan.Json
use qdev_runner_control_plan.Json.{Json, Fields}
use qdev_runner_control_plan.ClaimScope.{ScopedJob, ScopedFifoSkip, ClaimScope, schema_v2}
use qdev_runner_control_plan.ClaimScope.Container.{parse_scope, scope_entry, load, upsert}
use qdev_runner_control_plan.ClaimScope.Looks.{IsClock}
use qdev_runner_control_plan.ClaimScope.Written.{parse_scope-scope_entry}
use qdev_runner_control_plan.ClaimScope.Upsert.{load-upsert}

unfoldable iso : ℕ → String
iso zero = "1"
iso (suc n) = String.◌∷◌ "1" (iso n)

abbrev before : ℕ → ℕ
before zero = zero
before (suc n) = n

unfoldable read_time : String → Option (Option ℕ)
unfolding text_length
read_time s = some (some (before (text_length s)))

length-iso : (n : ℕ) → text_length (iso n) ≡ suc n
unfolding iso text_length
length-iso zero = refl
length-iso (suc n) = ap suc (length-iso n)

alnum-iso : (n : ℕ) → all_chars is_alnum (iso n) ≡ true
unfolding iso all_chars is_alnum
alnum-iso zero = refl
alnum-iso (suc n) = alnum-iso n

iso-full : (n : ℕ) → (iso n == "") ≡ false
unfolding text_length
iso-full n = elim (Bool-cases (iso n == "")) [
  | inl y ↦
      absurd
        (let e : suc n ≡ 0 = sym (length-iso n) ∙ ap text_length (==→≡ (iso n) "" y) in omega arith)
  | inr f ↦ f
]

clock : IsClock read_time iso
unfolding read_time
clock at = (rw (length-iso at) refl, strip-alnum (iso at) (alnum-iso at), iso-full at)

abbrev job : ScopedJob
job = record {
  job_id = 3;
  profile = "qdev-ci";
  repository = some "belilovsky/qazgeo";
  run_id = some 103;
  attempt = some (pos 1);
  exact_sha = some "0123456789abcdef0123456789abcdef01234567";
}

abbrev skip : ScopedFifoSkip
skip = record {
  job_id = 4;
  profile = "qdev-ci";
  repository = "qdev/app";
  run_id = 104;
  attempt = pos 1;
  exact_sha = "0123456789abcdef0123456789abcdef01234567";
  managed_registry_entry = none;
  reason = "managed-production-candidate-not-active";
}

abbrev scope : ClaimScope
scope = record {
  scope_id = "scope-1";
  worker_name = "worker-reserve";
  tier = "reserve";
  repository = "belilovsky/qazgeo";
  head_sha = "0123456789abcdef0123456789abcdef01234567";
  expires_at = 5;
  jobs = job ∷ [];
  worker_certificate_sha256 = none;
  schema = schema_v2;
  host = some "host";
  runner = some "runner";
  correlation_id = some "run-1";
  fifo_skipped = skip ∷ [];
  fifo_exception = some "managed-exact-candidate";
}

parsed : parse_scope read_time iso schema_v2 (scope_entry read_time iso scope) ≡ ok scope
unfolding parse_scope scope_entry read_time iso
parsed = refl

abbrev written : Json
written = Json.obj (
    Json.field "schema" (Json.str "qdev-runner-claim-scopes-v2") (
      Json.field "scopes" (Json.arr (Json.cons (scope_entry read_time iso scope) Json.nil))
        Json.end))

upserted : upsert read_time iso scope none ≡ ok written
unfolding upsert scope_entry read_time iso
upserted = refl

parse_scope-scope_entry_example :
    parse_scope read_time iso schema_v2 (scope_entry read_time iso scope) ≡ ok scope
parse_scope-scope_entry_example =
    parse_scope-scope_entry read_time iso (scope_entry read_time iso scope) scope clock parsed

load-upsert_example :
    (x : ClaimScope) × (parse_scope read_time iso schema_v2 (scope_entry read_time iso scope)
      ≡ ok x)
    × (load read_time iso (some written) ≡ ok ((x.scope_id, x) ∷ []))
load-upsert_example = load-upsert read_time iso scope written upserted
