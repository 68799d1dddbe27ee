-- ===== src/Store/Changes.antt =====
-- What each method does to the table `jobs`: it leaves it, updates rows or appends one. The
-- invariants of the queue are proved over these changes, once for all methods.
use qdev_runner_control_plan.Prelude.{
  ℕ, ◌≤◌, ◌≡◌, refl, ◌∙◌, ap, Bool, true, false, List, [], ◌∷◌, ◌++◌, arith, if◌then◌else◌, nat_eq,
  any, In, here, there, All-map, any-eq-false, ltb, string_eq,
}
use qdev_runner_control_plan.Sql.{update, In-update, All-update_In}
use qdev_runner_control_plan.Store.Tables.{QueuedJob, Job}
use qdev_runner_control_plan.Store.Queue.{new_row, conflicts}
use qdev_runner_control_plan.Store.Payload.{minimum_queue_timestamp}
use qdev_runner_control_plan.Store.Invariant.{
  IsSound, Unique, IsValid, Unique-update, Unique-snoc, All-snoc-IsSound, new_row-IsSound,
  no-conflict,
}

-- The job that a row was made from.
abbrev pub queued : Job → QueuedJob
queued row = record {
  delivery_id = row.delivery_id;
  job_id = row.job_id;
  run_id = row.run_id;
  repository = row.repository;
  repository_id = row.repository_id;
  installation_id = row.installation_id;
  labels = row.labels;
  head_sha = row.head_sha;
  head_branch = row.head_branch;
  payload = row.payload;
}

-- The row `b` is the row `a` at a later time.
pub record Continues (a b : Job) : Type 0 where
  pub job : queued b ≡ queued a
  pub attempts : a.attempts ≤ b.attempts
  pub infra_retries : a.infra_retries ≤ b.infra_retries
  pub created_at : ltb minimum_queue_timestamp a.created_at ≡ true → b.created_at ≡ a.created_at

-- A change of other columns only.
pub kept :
    (a b : Job)
    → queued b ≡ queued a
    → b.attempts ≡ a.attempts
    → b.infra_retries ≡ a.infra_retries
    → b.created_at ≡ a.created_at
    → Continues a b
kept a b e m n c = record {
  job = e;
  attempts = omega arith;
  infra_retries = omega arith;
  created_at = λ _. c;
}

pub Continues-refl : (a : Job) → Continues a a
Continues-refl a = kept a a refl refl refl refl

pub Continues-trans : (a b c : Job) → Continues a b → Continues b c → Continues a c
Continues-trans a b c h k = record {
  job = k.job ∙ h.job;
  attempts = (let x = h.attempts in let y = k.attempts in omega arith);
  infra_retries = (let x = h.infra_retries in let y = k.infra_retries in omega arith);
  created_at = λ t. (let e = h.created_at t in k.created_at (rw e t) ∙ e);
}

-- One UPDATE or INSERT after another.
pub data Change : List Job → List Job → Type 0 where
  same : {xs : List Job} → Change xs xs
  rows :
      {xs : List Job} (p : Job → Bool) (f : Job → Job)
      → ((a : Job) → p a ≡ true → Continues a (f a))
      → ((a : Job) → Unique xs → In a xs → IsSound a → p a ≡ true → IsSound (f a))
      → Change xs (update p f xs)
  insert :
      {xs : List Job} (job : QueuedJob) (now : ℕ)
      → any (conflicts job) xs ≡ false
      → Change xs (xs ++ new_row job now ∷ [])
  both : {xs ys zs : List Job} → Change xs ys → Change ys zs → Change xs zs

-- Every change keeps the table valid.
pub Change-IsValid : {xs ys : List Job} → Change xs ys → IsValid xs → IsValid ys
Change-IsValid same v = v
Change-IsValid {xs} (rows p f grows sound) v = record {
  unique = Unique-update p f (λ a t. ap (λ (j : QueuedJob). j.job_id) (grows a t).job) xs v.unique;
  sound = All-update_In p f xs (λ a m. sound a v.unique m) v.sound;
}
Change-IsValid {xs} (insert job now fresh) v = record {
  unique =
      Unique-snoc (new_row job now) xs v.unique
        (All-map (no-conflict job now) xs (any-eq-false (conflicts job) xs fresh));
  sound = All-snoc-IsSound xs (new_row job now) v.sound (new_row-IsSound job now);
}
Change-IsValid (both c d) v = Change-IsValid d (Change-IsValid c v)

In-append : {row : Job} (xs ys : List Job) → In row xs → In row (xs ++ ys)
In-append [] ys m = elim m [ ]
In-append (x ∷ xs) ys (here e) = here e
In-append (x ∷ xs) ys (there m) = there (In-append xs ys m)

-- Every change continues each row.
pub Change-Continues :
    {xs ys : List Job} → Change xs ys → (a : Job) → In a xs → (b : Job) × In b ys × Continues a b
Change-Continues same a m = (a, m, Continues-refl a)
Change-Continues {xs} (rows p f grows sound) a m =
    (if p a then f a else a, In-update p f xs m, updated (p a) (grows a))
  where
    updated : (b : Bool) → (b ≡ true → Continues a (f a)) → Continues a (if b then f a else a)
    updated true h = h refl
    updated false h = Continues-refl a
Change-Continues {xs} (insert job now fresh) a m = (a, In-append xs _ m, Continues-refl a)
Change-Continues (both c d) a m =
    let (b, n, h) = Change-Continues c a m in
    let (e, o, k) = Change-Continues d b n in (e, o, Continues-trans a b e h k)
