-- ===== src/Store/Intents/Once.antt =====
-- Intents that are created again, and dispatches that are reserved again
-- (`create_dispatch_intent` and `begin_dispatch_intent` of src/qdev_runner/store.py).
use qdev_runner_control_plan.Prelude.{
  ℕ, String, ◌≡◌, refl, sym, ap, subst, Bool, true, false, Option, none, some, [], ◌∷◌, ◌++◌, arith,
  if◌then◌else◌, ◌==◌, nat_eq, string_eq, count, find, any, Bool-cases, inl, inr, ==-refl, All, ok,
  raise, integrity_error,
}
use qdev_runner_control_plan.Sql.{update}
use qdev_runner_control_plan.Store.Intents.{
  Intent, NewIntent, Intents, intent_row, has_correlation, insert_intent, answer_intent,
  create_dispatch_intent, open_intent, in_flight, begin_dispatch_intent,
}

-- A reserved row is not open.
closed_after :
    (id : String) (now : ℕ) (i : Intent)
    → open_intent id (if open_intent id i then in_flight now i else i) ≡ false
unfolding open_intent in_flight
closed_after id now i = elim (Bool-cases (open_intent id i)) [
  | inl t ↦ rw (t, open_intent) (ground arith)
  | inr f ↦ rw f f
]

none_open :
    (id : String) (now : ℕ) (t : Intents)
    → All (λ (i : Intent). open_intent id i ≡ false) (update (open_intent id) (in_flight now) t)
unfolding update
none_open id now [] = tt
none_open id now (i ∷ t) = (closed_after id now i, none_open id now t)

-- An UPDATE that no row meets.
update_none :
    (id : String) (now : ℕ) (t : Intents)
    → All (λ (i : Intent). open_intent id i ≡ false) t
    → update (open_intent id) (in_flight now) t ≡ t
unfolding update
update_none id now [] h = refl
update_none id now (i ∷ t) h = rw (h.0, update_none id now t h.1) refl

count_none :
    (id : String) (t : Intents)
    → All (λ (i : Intent). open_intent id i ≡ false) t
    → count (open_intent id) t ≡ 0
unfolding count
count_none id [] h = refl
count_none id (i ∷ t) h = rw (h.0) (count_none id t h.1)

find-snoc :
    (p : Intent → Bool) (xs : Intents) (x : Intent)
    → find p xs ≡ none
    → p x ≡ true
    → find p (xs ++ x ∷ []) ≡ some x
unfolding find
find-snoc p [] x h t = rw t refl
find-snoc p (y ∷ ys) x h t = elim (Bool-cases (p y)) [
  | inl s ↦ absurd (let e : some y ≡ none = rw s at h in cc)
  | inr s ↦ rw (s, find-snoc p ys x (rw s at h) t) refl
]

-- A request that was reserved once is not reserved again while nothing sets it back to `pending`:
-- right after a reservation that succeeded, every other one of the same intent fails and changes
-- nothing.
pub begin_once :
    (id : String) (now now' : ℕ) (t : Intents) {t' : Intents} {i : Intent}
    → begin_dispatch_intent id now t ≡ (t', some i)
    → begin_dispatch_intent id now' t' ≡ (t', none)
unfolding begin_dispatch_intent
begin_once id now now' t {t'} h =
    let e : t' ≡ update (open_intent id) (in_flight now) t =
      sym (ap (λ (r : Intents × Option Intent). r.0) h) in
    let closed =
      subst (All (λ (i : Intent). open_intent id i ≡ false)) (sym e) (none_open id now t) in
    rw (update_none id now' t' closed, count_none id t' closed) refl

row_correlation :
    (n : NewIntent) (now : ℕ) → has_correlation n.correlation_id (intent_row n now) ≡ true
unfolding has_correlation intent_row
row_correlation n now = ==-refl n.correlation_id

answer_some :
    (n : NewIntent) (now : ℕ) (t : Intents) (old : Intent) {t' : Intents} {i : Intent}
    {existed : Bool}
    → answer_intent n now t (some old) ≡ ok (t', i, existed)
    → (t ≡ t') × (old ≡ i)
unfolding answer_intent
answer_some n now t old h = (ground arith, ground arith)

answer_again :
    (n : NewIntent) (now : ℕ) (t : Intents) (old i : Intent)
    → old ≡ i
    → answer_intent n now t (some old) ≡ ok (t, i, true)
unfolding answer_intent
answer_again n now t old i e = rw e refl

insert_eq :
    (n : NewIntent) (now : ℕ) (t : Intents) {t' : Intents} {i : Intent} {existed : Bool}
    → answer_intent n now t none ≡ ok (t', i, existed)
    → (t' ≡ t ++ (intent_row n now ∷ [])) × (intent_row n now ≡ i)
unfolding answer_intent insert_intent
insert_eq n now t h = elim (Bool-cases (any (λ j. j.id == n.id) t)) [
  | inl b ↦ absurd (let e : raise integrity_error ≡ ok (_, _, _) = rw b at h in ground arith)
  | inr b ↦
      (let h' : ok (t ++ (intent_row n now ∷ []), intent_row n now, false) ≡ ok (_, _, _) =
          rw b at h in
        (ground arith, ground arith))
]

-- Asking twice for the dispatch of one slot makes one intent: a second call with the correlation id
-- of one that returned changes nothing and answers with the intent that is there.
pub create_idempotent :
    (n n' : NewIntent) (now now' : ℕ) (t : Intents) {t' : Intents} {i : Intent} {existed : Bool}
    → create_dispatch_intent n now t ≡ ok (t', i, existed)
    → n'.correlation_id ≡ n.correlation_id
    → create_dispatch_intent n' now' t' ≡ ok (t', i, true)
unfolding create_dispatch_intent
create_idempotent n n' now now' t {t'} {i} {existed} h e =
    subst (λ c. answer_intent n' now' t' (find (has_correlation c) t') ≡ ok (t', i, true)) (sym e)
      (answered (find (has_correlation n.correlation_id) t) refl h)
  where
    answered :
        (o : Option Intent)
        → find (has_correlation n.correlation_id) t ≡ o
        → answer_intent n now t o ≡ ok (t', i, existed)
        → answer_intent n' now' t' (find (has_correlation n.correlation_id) t') ≡ ok (t', i, true)
    answered (some old) f h' =
        let (same_t, same_i) = answer_some n now t old h' in
        rw (← same_t, f) (answer_again n' now' t old i same_i)
    answered none f h' =
        let (same_t, same_i) = insert_eq n now t h' in
        let found =
          find-snoc (has_correlation n.correlation_id) t (intent_row n now) f
            (row_correlation n now) in
        rw (same_t, found)
          (answer_again n' now' (t ++ (intent_row n now ∷ [])) (intent_row n now) i same_i)
