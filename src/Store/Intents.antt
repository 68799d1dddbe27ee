-- ===== src/Store/Intents.antt =====
-- The dispatches of tests in src/qdev_runner/store.py: the table `test_dispatch_intents`, with
-- the provider's answer as a value.
pub mod Once
use qdev_runner_control_plan.Prelude.{
  ℕ, suc, ◌+◌, String, Bool, true, false, ◌&&◌, ◌||◌, not, Option, none, some, List, [], ◌∷◌, ◌++◌,
  if◌then◌else◌, ◌==◌, ◌!=◌, nat_eq, string_eq, option_eq, leb, ltb, count, find, any, select,
  length, lower, take_text, Result, ok, raise, refuse, value_error, integrity_error, ◌>>=◌, ◌>>◌,
}
use qdev_runner_control_plan.Json
use qdev_runner_control_plan.Json.{Fields, put}
use qdev_runner_control_plan.Sql.{update, order_by}

pub data IntentState : Type 0 where
  pending dispatched ambiguous error : IntentState

abbrev pub is_pending_intent : IntentState → Bool
is_pending_intent pending = true
is_pending_intent _ = false

-- A row of `test_dispatch_intents`.
pub record Intent : Type 0 where
  pub id : String
  pub repository : String
  pub workflow : String
  pub suite : String
  pub ref : String
  pub installation_id : ℕ
  pub slot : ℕ
  pub expected_sha : Option String
  pub correlation_id : String
  pub state : IntentState
  pub provider_run_id : Option ℕ
  pub provider_job_id : Option ℕ
  pub provider_response : Fields
  pub last_error : Option String
  pub created_at : ℕ
  pub updated_at : ℕ

-- What the caller of `create_dispatch_intent` gives.
pub record NewIntent : Type 0 where
  pub id : String
  pub repository : String
  pub workflow : String
  pub suite : String
  pub ref : String
  pub installation_id : ℕ
  pub slot : ℕ
  pub expected_sha : Option String
  pub correlation_id : String

abbrev pub Intents : Type 0
Intents = List Intent

unfoldable pub intent_row : NewIntent → ℕ → Intent
intent_row n now = record {
  id = n.id;
  repository = n.repository;
  workflow = n.workflow;
  suite = n.suite;
  ref = n.ref;
  installation_id = n.installation_id;
  slot = n.slot;
  expected_sha = n.expected_sha;
  correlation_id = n.correlation_id;
  state = pending;
  provider_run_id = none;
  provider_job_id = none;
  provider_response = Json.end;
  last_error = none;
  created_at = now;
  updated_at = now;
}

-- A second row with the same id violates the primary key, which raises sqlite3.IntegrityError and
-- rolls back.
unfoldable pub insert_intent : NewIntent → ℕ → Intents → Result (Intents × Intent × Bool)
unfolding intent_row any
insert_intent n now t =
    if any (λ i. i.id == n.id) t
    then raise integrity_error
    else ok (t ++ (intent_row n now ∷ []), intent_row n now, false)

-- The intent of the correlation id and True if it was there.
unfoldable pub answer_intent :
    NewIntent → ℕ → Intents → Option Intent → Result (Intents × Intent × Bool)
unfolding insert_intent
answer_intent n now t (some existing) = ok (t, existing, true)
answer_intent n now t none = insert_intent n now t

unfoldable pub has_correlation : String → Intent → Bool
has_correlation c i = i.correlation_id == c

unfoldable pub create_dispatch_intent : NewIntent → ℕ → Intents → Result (Intents × Intent × Bool)
unfolding answer_intent has_correlation find
create_dispatch_intent n now t = answer_intent n now t (find (has_correlation n.correlation_id) t)

-- (error or "")[:4000] or None
abbrev error_text : Option String → Option String
error_text none = none
error_text (some e) = if e == "" then none else some (take_text 4000 e)

unfoldable pub update_dispatch_intent :
    String
    → IntentState
    → Option Fields
    → Option ℕ
    → Option ℕ
    → Option String
    → ℕ
    → Intents
    → Intents × Option Intent
unfolding update find take_text
update_dispatch_intent id state response run_id job_id message now t =
    let t' : Intents =
      update (λ i. i.id == id)
        (λ i. record i {
          state = state;
          provider_response = elim response [ none ↦ i.provider_response | some r ↦ r ];
          provider_run_id = run_id;
          provider_job_id = job_id;
          last_error = error_text message;
          updated_at = now;
        })
        t in
    (t', find (λ i. i.id == id) t')

-- WHERE id=? AND state='pending'
unfoldable pub open_intent : String → Intent → Bool
open_intent id i = i.id == id && is_pending_intent i.state

unfoldable pub in_flight : ℕ → Intent → Intent
in_flight now i = record i {
  state = ambiguous;
  last_error = some "provider request in flight";
  updated_at = now;
}

unfoldable pub begin_dispatch_intent : String → ℕ → Intents → Intents × Option Intent
unfolding open_intent in_flight update count find
begin_dispatch_intent id now t =
    let t' : Intents = update (open_intent id) (in_flight now) t in
    (t', if count (open_intent id) t == 1 then find (λ i. i.id == id) t' else none)

unfoldable pub dispatch_intent : String → Intents → Option Intent
unfolding has_correlation find
dispatch_intent correlation_id t = find (has_correlation correlation_id) t
