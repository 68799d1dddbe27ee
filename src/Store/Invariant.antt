-- ===== src/Store/Invariant.antt =====
-- What holds of the `jobs` table between two calls of the queue's methods.
use qdev_runner_control_plan.Prelude.{
  ℕ, ◌≤◌, ◌≡◌, refl, sym, ◌∙◌, ◌≢◌, inl, inr, Bool, true, false, none, some, List, [], ◌∷◌, ◌++◌,
  arith, if◌then◌else◌, nat_eq, string_eq, ==→≡, nat_beq_iff, find, In, here, there, All, All-In,
  find-eq-some, ap, Bool-cases,
}
use qdev_runner_control_plan.Sql.{update, All-update}
use qdev_runner_control_plan.Store.Tables.{is_pending, QueuedJob, Job, has_id}
use qdev_runner_control_plan.Store.Queue.{max_infrastructure_retries, new_row, conflicts}

-- Every row has its own id.
abbrev pub Unique : List Job → Type 0
Unique [] = Unit
Unique (x ∷ xs) = All (λ (y : Job). x.job_id ≢ y.job_id) xs × Unique xs

-- A row that is consistent by itself: the retry budget is kept, and a queued row belongs to nobody.
pub record IsSound (row : Job) : Type 0 where
  pub retries : row.infra_retries ≤ max_infrastructure_retries
  pub unclaimed :
      is_pending row.status ≡ true
      → (row.worker_name ≡ none)
        × (row.claim_scope_id ≡ none)
        × (row.profile ≡ none)
        × (row.claimed_at ≡ none)

pub record IsValid (jobs : List Job) : Type 0 where
  pub unique : Unique jobs
  pub sound : All IsSound jobs

-- A change of columns that keeps the ids keeps them distinct.
module _ (p : Job → Bool) (f : Job → Job)
    (same : (row : Job) → p row ≡ true → (f row).job_id ≡ row.job_id) where
  All-ne-update :
      (k : ℕ) (xs : List Job)
      → All (λ (y : Job). k ≢ y.job_id) xs
      → All (λ (y : Job). k ≢ y.job_id) (update p f xs)
  All-ne-update k xs h = All-update p f (λ row n t e. n (e ∙ same row t)) xs h

  id-if : (x : Job) → (if p x then f x else x).job_id ≡ x.job_id
  id-if x = elim (Bool-cases (p x)) [ inl t ↦ rw t (same x t) | inr n ↦ rw n ]

  pub Unique-update : (xs : List Job) → Unique xs → Unique (update p f xs)
  unfolding update
  Unique-update [] h = tt
  Unique-update (x ∷ xs) h = (rw (id-if x) (All-ne-update x.job_id xs h.0), Unique-update xs h.1)

pub Unique-snoc :
    (row : Job) (xs : List Job)
    → Unique xs
    → All (λ (y : Job). y.job_id ≢ row.job_id) xs
    → Unique (xs ++ row ∷ [])
Unique-snoc row [] u h = (tt, tt)
Unique-snoc row (x ∷ xs) u h = (All-snoc xs u.0 h.0, Unique-snoc row xs u.1 h.1)
  where
    All-snoc :
        {k : ℕ} (ys : List Job)
        → All (λ (y : Job). k ≢ y.job_id) ys
        → k ≢ row.job_id
        → All (λ (y : Job). k ≢ y.job_id) (ys ++ row ∷ [])
    All-snoc [] a n = (n, tt)
    All-snoc (y ∷ ys) a n = (a.0, All-snoc ys a.1 n)

-- The primary key determines the row.
pub unique_row :
    (jobs : List Job) {a b : Job}
    → Unique jobs
    → In a jobs
    → In b jobs
    → a.job_id ≡ b.job_id
    → a ≡ b
unique_row [] u m n e = elim m [ ]
unique_row (x ∷ xs) u (here p) (here q) e = p ∙ sym q
unique_row (x ∷ xs) u (here p) (there n) e =
    absurd
      (All-In (λ (y : Job). x.job_id ≢ y.job_id) u.0 n (ap (λ (y : Job). y.job_id) (sym p) ∙ e))
unique_row (x ∷ xs) u (there m) (here q) e =
    absurd
      (All-In (λ (y : Job). x.job_id ≢ y.job_id) u.0 m (ap (λ (y : Job). y.job_id) (sym q) ∙ sym e))
unique_row (x ∷ xs) u (there m) (there n) e = unique_row xs u.1 m n e

pub new_row-IsSound : (job : QueuedJob) (now : ℕ) → IsSound (new_row job now)
unfolding new_row
new_row-IsSound job now = record {
  retries = omega arith;
  unclaimed = λ _. (refl, refl, refl, refl);
}

pub All-snoc-IsSound :
    (xs : List Job) (row : Job) → All IsSound xs → IsSound row → All IsSound (xs ++ row ∷ [])
All-snoc-IsSound [] row h r = (r, tt)
All-snoc-IsSound (x ∷ xs) row h r = (h.0, All-snoc-IsSound xs row h.1 r)

pub no-conflict :
    (job : QueuedJob) (now : ℕ) (row : Job)
    → conflicts job row ≡ false
    → row.job_id ≢ (new_row job now).job_id
unfolding conflicts new_row
no-conflict job now row h e = grind (arith, nat_beq_iff)

-- The row that an UPDATE by id touches is the one that was read.
pub found_row :
    (k : ℕ) (jobs : List Job) {row other : Job}
    → Unique jobs
    → find (has_id k) jobs ≡ some row
    → In other jobs
    → has_id k other ≡ true
    → other ≡ row
found_row k jobs {row} {other} u e m h =
    let (n, t) = find-eq-some (has_id k) jobs e in
    unique_row jobs u m n (==→≡ other.job_id k h ∙ sym (==→≡ row.job_id k t))
