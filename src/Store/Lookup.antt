-- ===== src/Store/Lookup.antt =====
-- Reads of the table `jobs` by its primary key, after an UPDATE and of row counts.
use qdev_runner_control_plan.Prelude.{
  ℕ, suc, ◌≡◌, ◌≢◌, refl, sym, ◌∙◌, ap, Bool, true, false, some, List, [], ◌∷◌, if◌then◌else◌, ◌==◌,
  nat_eq, count, find, In, here, there, All, All-In, All-map, Bool-cases, inl, inr, ==-refl, ==→≡,
}
use qdev_runner_control_plan.Sql.{update}
use qdev_runner_control_plan.Store.Tables.{Job, has_id}
use qdev_runner_control_plan.Store.Invariant.{Unique}

pub has_id_refl : (row : Job) → has_id row.job_id row ≡ true
has_id_refl row = ==-refl row.job_id

other-id : (k : ℕ) (row : Job) → k ≢ row.job_id → has_id k row ≡ false
other-id k row n = elim (Bool-cases (has_id k row)) [
  | inl t ↦ absurd (n (sym (==→≡ row.job_id k t)))
  | inr f ↦ f
]

-- The key finds the row.
pub find-id :
    (jobs : List Job) (row : Job)
    → Unique jobs
    → In row jobs
    → find (has_id row.job_id) jobs ≡ some row
unfolding find
find-id [] row u m = elim m [ ]
find-id (x ∷ xs) row u (here e) = rw (← e, has_id_refl row) refl
find-id (x ∷ xs) row u (there m) =
    let n : x.job_id ≢ row.job_id = All-In (λ (y : Job). x.job_id ≢ y.job_id) u.0 m in
    rw (other-id row.job_id x (λ e. n (sym e)), find-id xs row u.1 m) refl

-- After an UPDATE that keeps ids, the key finds the updated row.
pub find-update :
    (p : Job → Bool) (f : Job → Job) (jobs : List Job) (row : Job)
    → ((a : Job) → (f a).job_id ≡ a.job_id)
    → Unique jobs
    → In row jobs
    → find (has_id row.job_id) (update p f jobs) ≡ some (if p row then f row else row)
unfolding find update
find-update p f [] row same u m = elim m [ ]
find-update p f (x ∷ xs) row same u (here e) = rw (← e, own (p row)) refl
  where
    own : (b : Bool) → has_id row.job_id (if b then f row else row) ≡ true
    own true = rw (same row) (==-refl row.job_id)
    own false = ==-refl row.job_id
find-update p f (x ∷ xs) row same u (there m) =
    let n : x.job_id ≢ row.job_id = All-In (λ (y : Job). x.job_id ≢ y.job_id) u.0 m in
    rw (other (p x) n, find-update p f xs row same u.1 m) refl
  where
    other : (b : Bool) → x.job_id ≢ row.job_id → has_id row.job_id (if b then f x else x) ≡ false
    other true n = other-id row.job_id (f x) (λ e. n (sym (e ∙ same x)))
    other false n = other-id row.job_id x (λ e. n (sym e))

count-none :
    (p : Job → Bool) (jobs : List Job) → All (λ (y : Job). p y ≡ false) jobs → count p jobs ≡ 0
unfolding count
count-none p [] h = refl
count-none p (x ∷ xs) h = rw (h.0) (count-none p xs h.1)

-- A condition with the key meets one row.
pub count-one :
    (p : Job → Bool) (jobs : List Job) (row : Job)
    → ((a : Job) → p a ≡ true → a.job_id ≡ row.job_id)
    → Unique jobs
    → In row jobs
    → p row ≡ true
    → count p jobs ≡ 1
unfolding count
count-one p [] row keyed u m t = elim m [ ]
count-one p (x ∷ xs) row keyed u (here e) t =
    rw (← e, t) (ap suc (count-none p xs (All-map never xs u.0)))
  where
    never : (y : Job) → x.job_id ≢ y.job_id → p y ≡ false
    never y n = elim (Bool-cases (p y)) [
      | inl s ↦ absurd (n (sym (keyed y s ∙ ap (λ (j : Job). j.job_id) e)))
      | inr f ↦ f
    ]
count-one p (x ∷ xs) row keyed u (there m) t = elim (Bool-cases (p x)) [
  | inl s ↦ absurd (All-In (λ (y : Job). x.job_id ≢ y.job_id) u.0 m (keyed x s))
  | inr f ↦ rw f (count-one p xs row keyed u.1 m t)
]

-- The state of a row's job after an operation.
pub count-eq-one-beq : (n : ℕ) → n ≡ 1 → (n == 1) ≡ true
count-eq-one-beq n e = rw e refl
