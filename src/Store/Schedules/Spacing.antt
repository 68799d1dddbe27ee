-- ===== src/Store/Schedules/Spacing.antt =====
-- The slots of a schedule over its claims and advances.
use qdev_runner_control_plan.Prelude.{
  ℕ, ◌+◌, ◌≤◌, ◌<◌, ◌≡◌, sym, ◌∙◌, ap, subst, Bool, true, false, Option, none, some, arith,
  if◌then◌else◌, ◌==◌, nat_eq, count, find, In, find-eq-some, Bool-cases, Option-cases, inl, inr,
  &&-elim, none-ne-some,
}
use qdev_runner_control_plan.Sql.{update, update-In, In-update}
use qdev_runner_control_plan.Store.Tables.{seconds}
use qdev_runner_control_plan.Store.Schedules.{
  Key, Schedule, Schedules, has_key, is_due, due_key, dispatched_row, dispatched_answer, next_slot,
  claim_test_schedule, advanced_slot, advance_test_schedule,
}

-- The primary key: at most one row has it.
abbrev pub IsKey : Key → Schedules → Type 0
IsKey k t = (a b : Schedule) → In a t → In b t → has_key k a ≡ true → has_key k b ≡ true → a ≡ b

-- A claim that returns a row read it, and advanced it in the table.
claimed_from :
    (k : Key) (now : ℕ) (t : Schedules) {t' : Schedules} {s' : Schedule}
    → claim_test_schedule k now t ≡ (t', some s')
    → (s : Schedule) × In s t
      × (due_key k now s ≡ true)
      × (s' ≡ dispatched_answer (next_slot now s) now s)
      × (t' ≡ update (due_key k now) (dispatched_row (next_slot now s) now) t)
unfolding claim_test_schedule
claimed_from k now t {t'} {s'} h = elim (Option-cases (find (due_key k now) t)) [
  | inl e ↦
      (let e' : (t, none) ≡ (t', some s') = rw (e, claim_test_schedule) at h in
        absurd (none-ne-some (ap (λ (r : Schedules × Option Schedule). r.1) e')))
  | inr (s, e) ↦
      let h' : (
        update (due_key k now) (dispatched_row (next_slot now s) now) t,
        if count (due_key k now) t == 1
            then some (dispatched_answer (next_slot now s) now s)
            else none,
      )
          ≡ (t', some s') =
        rw (e, claim_test_schedule) at h in
      let (m, d) = find-eq-some (due_key k now) t e in
      (
        s,
        m,
        d,
        answered (count (due_key k now) t == 1) (ap (λ (r : Schedules × Option Schedule). r.1) h'),
        sym (ap (λ (r : Schedules × Option Schedule). r.0) h'),
      )
]
  where
    answered : {a : Schedule} (b : Bool) → (if b then some a else none) ≡ some s' → s' ≡ a
    answered true e = ground arith
    answered false e = absurd (ground arith)

-- The row that has the key after a claim is the advanced one.
after_claim :
    (k : Key) (now : ℕ) (t : Schedules) (s : Schedule)
    → IsKey k t
    → In s t
    → due_key k now s ≡ true
    → (later : Schedule)
    → In later (update (due_key k now) (dispatched_row (next_slot now s) now) t)
    → has_key k later ≡ true
    → later.next_run_at ≡ next_slot now s
unfolding due_key dispatched_row has_key
after_claim k now t s unique m d later n h =
    let (old, o, e) = update-In (due_key k now) (dispatched_row (next_slot now s) now) t n in
    elim (Bool-cases (due_key k now old)) [
      | inl t ↦
          ap (λ (x : Schedule). x.next_run_at)
            (let e' : later ≡ dispatched_row (next_slot now s) now old = rw t at e in e')
      | inr f ↦
          let e' : later ≡ old = rw f at e in
          let same : old ≡ s =
            unique old s o m (rw e' at h) (&&-elim (has_key k s) (is_due now s) d).0 in
          let f' : due_key k now s ≡ false = rw same at f in
          let impossible : true ≡ false = sym d ∙ f' in absurd (let e = impossible in cc)
    ]

next_slot-late : (now : ℕ) (s : Schedule) → now + seconds s.interval_seconds ≤ next_slot now s
unfolding next_slot
next_slot-late now s = ground arith

-- Two successful claims of one schedule are at least its interval apart: where a claim at `now`
-- hands out a schedule and the next claim of the same key, at `now'`, hands it out again, `now'` is
-- no earlier than `now` plus the interval.
pub claims_spaced :
    (k : Key) (now now' : ℕ) (t : Schedules) {t₁ t₂ : Schedules} {s₁ s₂ : Schedule}
    → IsKey k t
    → claim_test_schedule k now t ≡ (t₁, some s₁)
    → claim_test_schedule k now' t₁ ≡ (t₂, some s₂)
    → now + seconds s₁.interval_seconds ≤ now'
unfolding due_key is_due dispatched_answer
claims_spaced k now now' t {t₁} {t₂} {s₁} unique h h' =
    let (s, m, d, e, e') = claimed_from k now t h in
    let (later, n, d', _, _) = claimed_from k now' t₁ h' in
    let (keyed, due) = &&-elim (has_key k later) (is_due now' later) d' in
    let slot = after_claim k now t s unique m d later (subst (In later) e' n) keyed in
    let same_interval : s₁.interval_seconds ≡ s.interval_seconds =
      ap (λ (x : Schedule). x.interval_seconds) e in
    let late = next_slot-late now s in
    let due' : later.next_run_at ≤ now' = ground arith in
    rw same_interval
      (by_order now now' s.interval_seconds later.next_run_at (next_slot now s) late slot due')
  where
    by_order : (a b i r n : ℕ) → a + seconds i ≤ n → r ≡ n → r ≤ b → a + seconds i ≤ b
    by_order a b i r n x y z = omega arith

-- An advance confirms a dispatch without moving the schedule backwards: the row that it read keeps
-- its slot if an operator moved it past the dispatched one, and otherwise its next slot is at least
-- the interval after the clock and after the dispatched slot.
pub advance_forward :
    (k : Key) (due_at now : ℕ) (t : Schedules) {t' : Schedules} {s' : Schedule}
    → advance_test_schedule k due_at now t ≡ (t', some s')
    → (s : Schedule) × In s t
      × (has_key k s ≡ true)
      × (s.next_run_at ≤ due_at + 1 → now + seconds s.interval_seconds ≤ s'.next_run_at)
      × (s.next_run_at ≤ due_at + 1 → due_at + seconds s.interval_seconds ≤ s'.next_run_at)
      × (due_at + 1 < s.next_run_at → s'.next_run_at ≡ s.next_run_at)
      × In (dispatched_row s'.next_run_at now s) t'
unfolding advance_test_schedule dispatched_answer advanced_slot
advance_forward k due_at now t {t'} {s'} h = elim (Option-cases (find (has_key k) t)) [
  | inl e ↦
      (let e' : (t, none) ≡ (t', some s') = rw (e, advance_test_schedule) at h in
        absurd (none-ne-some (ap (λ (r : Schedules × Option Schedule). r.1) e')))
  | inr (s, e) ↦
      let slot = advanced_slot due_at now s in
      let h' : (
        update (has_key k) (dispatched_row slot now) t,
        if count (has_key k) t == 1 then some (dispatched_answer slot now s) else none,
      )
          ≡ (t', some s') =
        rw (e, advance_test_schedule) at h in
      let (m, d) = find-eq-some (has_key k) t e in
      let run : s'.next_run_at ≡ slot =
        ap (λ (x : Schedule). x.next_run_at)
          (answered (count (has_key k) t == 1)
            (ap (λ (r : Schedules × Option Schedule). r.1) h')) in
      let row : In (dispatched_row slot now s) (update (has_key k) (dispatched_row slot now) t) =
        rw d at (In-update (has_key k) (dispatched_row slot now) t m) in
      (
        s,
        m,
        d,
        (λ early. rw run (after_clock s early)),
        (λ early. rw run (after_slot s early)),
        (λ late. run ∙ unmoved s late),
        rw (run, ← ap (λ (r : Schedules × Option Schedule). r.0) h') row,
      )
]
  where
    answered : {a : Schedule} (b : Bool) → (if b then some a else none) ≡ some s' → s' ≡ a
    answered true e = ground arith
    answered false e = absurd (ground arith)

    after_clock :
        (s : Schedule)
        → s.next_run_at ≤ due_at + 1
        → now + seconds s.interval_seconds ≤ advanced_slot due_at now s
    after_clock s early = ground arith

    after_slot :
        (s : Schedule)
        → s.next_run_at ≤ due_at + 1
        → due_at + seconds s.interval_seconds ≤ advanced_slot due_at now s
    after_slot s early = ground arith

    unmoved :
        (s : Schedule) → due_at + 1 < s.next_run_at → advanced_slot due_at now s ≡ s.next_run_at
    unmoved s late = ground arith
