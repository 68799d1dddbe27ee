-- ===== src/Store/Claim/Fifo.antt =====
-- The FIFO head of each profile, for a claim bound to a scope, a repository or a SHA.
use qdev_runner_control_plan.Prelude.{
  lookup, ℕ, String, ◌≡◌, refl, ap, subst, sym, ◌∙◌, inl, inr, Bool, true, false, Option, none,
  some, List, [], ◌∷◌, ◌++◌, arith, ◌&&◌, ◌||◌, if◌then◌else◌, ◌==◌, nat_eq, string_eq, option_eq,
  Bool-cases, ==→≡, ==-refl, In, here, there, All, All-In, lower, some-eq-some, ok, ◌>>=◌,
  >>=-eq-ok,
}
use qdev_runner_control_plan.Json.{Python}
use qdev_runner_control_plan.Sql.{Ordered}
use qdev_runner_control_plan.Store.Tables.{Job, Db}
use qdev_runner_control_plan.Store.Queue.{pending_jobs, queued_before}
use qdev_runner_control_plan.Store.Claim.Order.{
  job_position, queued_before_self, pending_jobs-Ordered, is_fifo, scan_order_fifo,
}
use qdev_runner_control_plan.Store.Claim.Request.{ClaimRequest, is_v2, revalidated_skips}
use qdev_runner_control_plan.Store.Claim.Selection.{
  head_entry, skipped, matching_profile, differs, profile_heads, enforces_profile_fifo, scan_order,
}
use qdev_runner_control_plan.Store.Claim.{claim, fifo_heads}
use qdev_runner_control_plan.Store.Payload.{
  needs_repair, repaired_row, repair_invalid_queue_timestamps,
}
use qdev_runner_control_plan.Store.Invariant.{Unique, Unique-update, unique_row}
use qdev_runner_control_plan.Store.Claim.Outcome.{Selected, claim-Selected}
use qdev_runner_control_plan.Store.Claim.Eligible.{queue_allows-true}
use qdev_runner_control_plan.Store.Claim.Facts.{
  repaired, In-middle, pending_jobs-In, selected_pending, selected_profile, selected_Eligible,
}

module _ (py : Python) (req : ClaimRequest) (skip_ids : List ℕ) where
  -- The row counts towards the head of the profile that is `key` in lower case.
  abbrev pub Counts : String → Job → Type 0
  Counts key row = head_entry py req skip_ids row ≡ ok (some (key, row.job_id))

  -- `head` is the first row that counts for `key`.
  pub record IsHead (key : String) (rows : List Job) (head : Job) : Type 0 where
    pub before : List Job
    pub after : List Job
    pub split : rows ≡ before ++ head ∷ after
    pub counts : Counts key head
    pub first : All (λ (r : Job). ¬ Counts key r) before

  IsHead-cons :
      (key : String) (r : Job) {rows : List Job} {head : Job}
      → ¬ Counts key r
      → IsHead key rows head
      → IsHead key (r ∷ rows) head
  IsHead-cons key r n h = record {
    before = r ∷ h.before;
    after = h.after;
    split = ap (◌∷◌ r) h.split;
    counts = h.counts;
    first = (n, h.first);
  }

  -- An entry is the row's own id under some key.
  entry_id :
      (row : Job) {entry : Option (String × ℕ)} {key : String} {k : ℕ}
      → head_entry py req skip_ids row ≡ ok entry
      → entry ≡ some (key, k)
      → k ≡ row.job_id
  unfolding head_entry
  entry_id row {entry} {key} {k} h e =
      by_scope
        (is_v2 req.claim_scope
          && (differs req.repository row.repository || differs req.head_sha row.head_sha))
        h
    where
      entry_of :
          (p : String) (skip : Bool)
          → ok (if skip then none else some (lower p, row.job_id)) ≡ ok entry
          → k ≡ row.job_id
      entry_of p true m = ground arith
      entry_of p false m = ground arith

      by_profile :
          (o : Option String)
          → (elim o [
            | none ↦ ok none
            | some p ↦ (do
              skip ← skipped py req skip_ids row p
              ok (if skip then none else some (lower p, row.job_id)))
          ])
            ≡ ok entry
          → k ≡ row.job_id
      by_profile none m = ground arith
      by_profile (some p) m =
          let (skip, _, n) = >>=-eq-ok (skipped py req skip_ids row p) _ m in entry_of p skip n

      by_scope :
          (b : Bool)
          → (if b then ok none else elim (matching_profile req.profiles row) [
            | none ↦ ok none
            | some p ↦ (do
              skip ← skipped py req skip_ids row p
              ok (if skip then none else some (lower p, row.job_id)))
          ])
            ≡ ok entry
          → k ≡ row.job_id
      by_scope true m = ground arith
      by_scope false m = by_profile (matching_profile req.profiles row) m

  -- One row, and the rest of the loop.
  lookup-IsHead_step :
      (key : String) (row : Job) (rows : List Job) (entry : Option (String × ℕ))
      (rest : List (String × ℕ)) {k : ℕ}
      → head_entry py req skip_ids row ≡ ok entry
      → lookup key (elim entry [ none ↦ rest | some e ↦ e ∷ rest ]) ≡ some k
      → (lookup key rest ≡ some k → (head : Job) × (head.job_id ≡ k) × IsHead key rows head)
      → (head : Job) × (head.job_id ≡ k) × IsHead key (row ∷ rows) head
  unfolding lookup
  lookup-IsHead_step key row rows none rest e l later =
      let (head, i, found) = later l in (head, i, IsHead-cons key row (λ c. ground arith) found)
  lookup-IsHead_step key row rows (some (key', k')) rest {k} e l later =
      elim (Bool-cases (key' == key)) [
        | inl t ↦
            let own : k' ≡ row.job_id = entry_id row e refl in
            let same : key' ≡ key = ==→≡ key' key t in
            let found : some k' ≡ some k = rw t at l in
            let same_id : row.job_id ≡ k = sym own ∙ some-eq-some found in
            (
              row,
              same_id,
              record {
                before = [];
                after = rows;
                split = refl;
                counts = rw (e, same, own) refl;
                first = tt;
              },
            )
        | inr f ↦
            let (head, i, found) = later (rw f at l) in
            (head, i, IsHead-cons key row (λ c. other_key f e c) found)
      ]
    where
      other_key :
          (key' == key) ≡ false
          → head_entry py req skip_ids row ≡ ok (some (key', k'))
          → Counts key row
          → ⊥
      other_key f e c =
          let same : key' ≡ key = ground arith in let self = ==-refl key in cc (f, same, self)

  -- The looked-up entry is the first row that counts.
  pub lookup-IsHead :
      (key : String) (rows : List Job) {heads : List (String × ℕ)} {k : ℕ}
      → profile_heads py req skip_ids rows ≡ ok heads
      → lookup key heads ≡ some k
      → (head : Job) × (head.job_id ≡ k) × IsHead key rows head
  unfolding profile_heads lookup
  lookup-IsHead key [] h l = absurd (ground arith)
  lookup-IsHead key (row ∷ rows) {heads} {k} h l =
      let (entry, e, h₁) = >>=-eq-ok (head_entry py req skip_ids row) _ h in
      let (rest, r, h₂) = >>=-eq-ok (profile_heads py req skip_ids rows) _ h₁ in
      let same : (elim entry [ none ↦ rest | some p ↦ p ∷ rest ]) ≡ heads = ground arith in
      lookup-IsHead_step key row rows entry rest e (rw same l) (lookup-IsHead key rows r)

-- In a sorted list, the first row with a property stands before all others with it.
first_before :
    (Q : Job → Type 0) (before : List Job) (head : Job) (after : List Job) (other : Job)
    → All (λ (r : Job). ¬ Q r) before
    → Q other
    → Ordered queued_before (before ++ head ∷ after)
    → In other (before ++ head ∷ after)
    → queued_before head other ≡ true
first_before Q [] head after other n q o (here e) =
    subst (λ x. queued_before x other ≡ true) e (queued_before_self other)
first_before Q [] head after other n q o (there m) = All-In (λ y. queued_before head y ≡ true) o.0 m
first_before Q (x ∷ before) head after other n q o (here e) = absurd (n.0 (subst Q e q))
first_before Q (x ∷ before) head after other n q o (there m) =
    first_before Q before head after other n.1 q o.1 m

repaired-Unique :
    (py : Python) (now : ℕ) (db : Db) → Unique db.jobs → Unique (repaired py now db).jobs
unfolding repair_invalid_queue_timestamps
repaired-Unique py now db u =
    Unique-update needs_repair (repaired_row py now) (λ row _. unfold repaired_row in refl) db.jobs
      u

bound_heads :
    (py : Python) (req : ClaimRequest) (skip_ids : List ℕ) (rows : List Job)
    (heads : Option (List (String × ℕ))) (profile : String) {k : ℕ}
    → enforces_profile_fifo req ≡ true
    → fifo_heads py req skip_ids rows ≡ ok heads
    → (elim heads [ none ↦ true | some found ↦ lookup (lower profile) found == some k ]) ≡ true
    → (found : List (String × ℕ)) × (profile_heads py req skip_ids rows ≡ ok found)
      × (lookup (lower profile) found ≡ some k)
unfolding fifo_heads
bound_heads py req skip_ids rows heads profile {k} enforced h l =
    let h₁ : (profile_heads py req skip_ids rows >>= λ found. ok (some found)) ≡ ok heads =
      rw enforced at h in
    let (found, e, same) = >>=-eq-ok (profile_heads py req skip_ids rows) _ h₁ in
    let same' : heads ≡ some found = ground arith in
    let l' : (lookup (lower profile) found == some k) ≡ true = rw same' at l in
    (found, e, ==→≡ (lookup (lower profile) found) (some k) l')

-- No claim jumps the head of a profile: where a claim without a scope or under a v2 scope enforces
-- the FIFO order of profiles and hands out a job, the queue puts that job before every other
-- pending job that counts for its profile. A job counts if it is of the bound repository and SHA
-- (under a v2 scope), its labels match the profile, and the scope's revalidated skips do not name it.
pub claim_fifo_head :
    (py : Python) (req : ClaimRequest) (now : ℕ) (db : Db) {db' : Db} {job : Job} (profile : String)
    → Unique db.jobs
    → is_fifo req.claim_scope ≡ true
    → enforces_profile_fifo req ≡ true
    → claim py req now db ≡ ok (db', some job)
    → job.profile ≡ some profile
    → (skip_ids : List ℕ) × (revalidated_skips req ≡ ok skip_ids)
      × ((other : Job)
          → In other (pending_jobs (repaired py now db))
          → Counts py req skip_ids (lower profile) other
          → queued_before job other ≡ true)
claim_fifo_head py req now db {db'} {job} profile unique fifo enforced h named =
    let s = claim-Selected py req now db h in
    (s.skip_ids, s.revalidated, λ other m c. head_first s other m c)
  where
    head_first :
        (s : Selected py req now db db' job) (other : Job)
        → In other (pending_jobs (repaired py now db))
        → Counts py req s.skip_ids (lower profile) other
        → queued_before job other ≡ true
    head_first s other m c =
        let rows = pending_jobs (repaired py now db) in
        let straight : scan_order req.claim_scope rows ≡ rows =
          scan_order_fifo req.claim_scope rows fifo in
        let same_profile : s.profile ≡ profile = some-eq-some (sym (selected_profile s) ∙ named) in
        let (free, scoped, bound) =
          queue_allows-true py req s.ev s.heads (repaired py now db) s.row s.profile
            (selected_Eligible s).queue in
        let (found, e, l) =
          bound_heads py req s.skip_ids rows s.heads s.profile enforced
            (subst (λ xs. fifo_heads py req s.skip_ids xs ≡ ok s.heads) straight s.fifo) bound in
        let (head, i, is_head) = lookup-IsHead py req s.skip_ids (lower s.profile) rows e l in
        let in_rows : In head rows =
          subst (In head) (sym is_head.split) (In-middle is_head.before head is_head.after) in
        let same_row : head ≡ s.row =
          unique_row (repaired py now db).jobs (repaired-Unique py now db unique)
            (pending_jobs-In (repaired py now db) in_rows).0 (selected_pending s).0 i in
        let first : queued_before head other ≡ true =
          first_before (Counts py req s.skip_ids (lower s.profile)) is_head.before head
            is_head.after other is_head.first (rw same_profile c)
            (subst (Ordered queued_before) is_head.split
              (pending_jobs-Ordered (repaired py now db)))
            (subst (In other) is_head.split m) in
        rw (job_position s other, ← same_row) first
