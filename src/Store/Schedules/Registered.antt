-- ===== src/Store/Schedules/Registered.antt =====
-- The registration of a schedule (`upsert_test_schedule` of src/qdev_runner/store.py).
use qdev_runner_control_plan.Prelude.{
  ℕ, ◌≤◌, ◌≡◌, refl, sym, ◌∙◌, ap, subst, Bool, true, false, Option, none, some, [], ◌∷◌, ◌++◌,
  arith, if◌then◌else◌, string_eq, any, find, In, here, there, find-In, All, ok, Bool-cases, inl,
  inr, find-eq-some, any-eq-false, any-eq-true, ==-refl, leb,
}
use qdev_runner_control_plan.Sql.{update, All-update, update-In, In-update}
use qdev_runner_control_plan.Store.Schedules.{
  Key, Schedule, Schedules, has_key, interval_allowed, schedule_row, registered_row, upserted_row,
  upsert_test_schedule,
}

-- The interval of a row is between a minute and a week.
abbrev pub IsPaced : Schedule → Type 0
IsPaced s = (60 ≤ s.interval_seconds) × (s.interval_seconds ≤ 604800)

-- What the caller of a registration asked for.
pub record IsRegistered (k : Key) (installation interval at : ℕ) (enabled : Bool) (s : Schedule)
    : Type 0 where
  pub key : has_key k s ≡ true
  pub installation_id : s.installation_id ≡ installation
  pub interval_seconds : s.interval_seconds ≡ interval
  pub next_run_at : s.next_run_at ≡ at
  pub switched : s.enabled ≡ enabled
  pub last_error : s.last_error ≡ none

All-snoc : (xs : Schedules) (s : Schedule) → All IsPaced xs → IsPaced s → All IsPaced (xs ++ s ∷ [])
All-snoc [] s h p = (p, tt)
All-snoc (x ∷ xs) s h p = (h.0, All-snoc xs s h.1 p)

has_key_refl :
    (k : Key) (i n at : ℕ) (e : Bool) (now : ℕ) → has_key k (schedule_row k i n at e now) ≡ true
unfolding has_key schedule_row
has_key_refl k i n at e now =
    rw (==-refl k.repository, ==-refl k.workflow, ==-refl k.suite, ==-refl k.ref) refl

registered-key :
    (k : Key) (i n at : ℕ) (e : Bool) (now : ℕ) (s : Schedule)
    → has_key k (registered_row i n at e now s) ≡ has_key k s
unfolding has_key registered_row
registered-key k i n at e now s = refl

-- The row that is found after the UPDATE was updated.
find-IsRegistered :
    (k : Key) (i n at : ℕ) (e : Bool) (now : ℕ) (t : Schedules) {s : Schedule}
    → find (has_key k) (update (has_key k) (registered_row i n at e now) t) ≡ some s
    → IsRegistered k i n at e s
unfolding registered_row
find-IsRegistered k i n at e now t {s} h =
    let (m, keyed) =
      find-eq-some (has_key k) (update (has_key k) (registered_row i n at e now) t) h in
    let (old, o, from) = update-In (has_key k) (registered_row i n at e now) t m in
    elim (Bool-cases (has_key k old)) [
      | inl y ↦
          let from' : s ≡ registered_row i n at e now old = rw y at from in
          subst (IsRegistered k i n at e) (sym from') (record {
            key = registered-key k i n at e now old ∙ y;
            installation_id = refl;
            interval_seconds = refl;
            next_run_at = refl;
            switched = refl;
            last_error = refl;
          })
      | inr f ↦
          let from' : s ≡ old = rw f at from in
          absurd (let other : has_key k s ≡ false = ap (has_key k) from' ∙ f in cc)
    ]

schedule_row-IsRegistered :
    (k : Key) (i n at : ℕ) (e : Bool) (now : ℕ)
    → IsRegistered k i n at e (schedule_row k i n at e now)
unfolding schedule_row
schedule_row-IsRegistered k i n at e now = record {
  key = has_key_refl k i n at e now;
  installation_id = refl;
  interval_seconds = refl;
  next_run_at = refl;
  switched = refl;
  last_error = refl;
}

find-appended :
    (p : Schedule → Bool) (t : Schedules) (s : Schedule)
    → All (λ x. p x ≡ false) t
    → p s ≡ true
    → find p (t ++ s ∷ []) ≡ some s
unfolding find
find-appended p [] s h y = rw y refl
find-appended p (x ∷ t) s h y = rw (h.0) (find-appended p t s h.1 y)

-- The table that a registration leaves.
abbrev registered : Key → ℕ → ℕ → ℕ → Bool → ℕ → Schedules → Schedules
registered k i n at e now t =
    if any (has_key k) t
    then update (has_key k) (registered_row i n at e now) t
    else t ++ (schedule_row k i n at e now ∷ [])

In-left : {x : Schedule} (xs ys : Schedules) → In x xs → In x (xs ++ ys)
In-left [] ys m = elim m [ ]
In-left (x ∷ xs) ys (here e) = here e
In-left (x ∷ xs) ys (there m) = there (In-left xs ys m)

-- The row with the key, the intervals and the other rows of that table.
module _ (k : Key) (i n at : ℕ) (e : Bool) (now : ℕ) (t : Schedules) where
  updated :
      {x : Schedule}
      → In x t
      → has_key k x ≡ true
      → (s : Schedule) × (find (has_key k) (update (has_key k) (registered_row i n at e now) t)
          ≡ some s)
  updated {x} m y =
      let moved : In (if has_key k x then registered_row i n at e now x else x)
          (update (has_key k) (registered_row i n at e now) t) =
        In-update (has_key k) (registered_row i n at e now) t m in
      let there_is : In (registered_row i n at e now x)
          (update (has_key k) (registered_row i n at e now) t) =
        rw y at moved in
      find-In (has_key k) _ there_is (registered-key k i n at e now x ∙ y)

  registered-row :
      (s : Schedule) × (find (has_key k) (registered k i n at e now t) ≡ some s)
      × IsRegistered k i n at e s
  registered-row = elim (Bool-cases (any (has_key k) t)) [
    | inl y ↦
        let (x, m, keyed) = any-eq-true (has_key k) t y in
        let (s, found) = updated m keyed in
        rw y (s, found, find-IsRegistered k i n at e now t found)
    | inr f ↦ rw f (
      schedule_row k i n at e now,
      find-appended (has_key k) t (schedule_row k i n at e now) (any-eq-false (has_key k) t f)
          (has_key_refl k i n at e now),
      schedule_row-IsRegistered k i n at e now,
    )
  ]

  registered-IsPaced :
      IsPaced (schedule_row k i n at e now)
      → All IsPaced t
      → All IsPaced (registered k i n at e now t)
  unfolding registered_row schedule_row
  registered-IsPaced p h = elim (Bool-cases (any (has_key k) t)) [
    | inl y ↦ rw y (All-update (has_key k) (registered_row i n at e now) (λ a _ _. p) t h)
    | inr f ↦ rw f (All-snoc t (schedule_row k i n at e now) h p)
  ]

  registered-other :
      (x : Schedule) → In x t → has_key k x ≡ false → In x (registered k i n at e now t)
  registered-other x m f = elim (Bool-cases (any (has_key k) t)) [
    | inl y ↦
        let moved : In (if has_key k x then registered_row i n at e now x else x)
            (update (has_key k) (registered_row i n at e now) t) =
          In-update (has_key k) (registered_row i n at e now) t m in
        rw y (rw f at moved)
    | inr g ↦ rw g (In-left t _ m)
  ]

-- In a table whose intervals are all between a minute and a week, a registration with such an
-- interval returns, whether the key was there or not. The answer is a row of the new table with the
-- key, the installation, the interval, the time and the switch that were asked for, and without an
-- error. The rows of other keys stay, and every interval is again between a minute and a week.
pub upsert_registers :
    (k : Key) (installation interval : ℕ) (next : Option ℕ) (enabled : Bool) (now : ℕ)
    (t : Schedules)
    → 60 ≤ interval
    → interval ≤ 604800
    → All IsPaced t
    → (t' : Schedules) × (s : Schedule) × (upsert_test_schedule k installation interval next enabled
          now t
        ≡ ok (t', s))
      × In s t'
      × IsRegistered k installation interval (elim next [ none ↦ now | some at ↦ at ]) enabled s
      × ((x : Schedule) → In x t → has_key k x ≡ false → In x t')
      × All IsPaced t'
unfolding upsert_test_schedule interval_allowed upserted_row schedule_row
upsert_registers k i n next e now t low high h =
    let at : ℕ = elim next [ none ↦ now | some at ↦ at ] in
    let (s, found, asked) = registered-row k i n at e now t in
    let low' : leb 60 n ≡ true = ground arith in
    let high' : leb n 604800 ≡ true = ground arith in
    (
      registered k i n at e now t,
      s,
      rw (low', high', found) refl,
      (find-eq-some (has_key k) (registered k i n at e now t) found).0,
      asked,
      registered-other k i n at e now t,
      registered-IsPaced k i n at e now t (low, high) h,
    )
