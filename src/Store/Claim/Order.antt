-- ===== src/Store/Claim/Order.antt =====
-- The order in which claims take jobs, and the jobs that runner holds keep.
use qdev_runner_control_plan.Prelude.{
  ℕ, String, ◌≡◌, refl, ap, subst, sym, ◌∙◌, ◌⊎◌, inl, inr, Bool, true, false, ◌&&◌, Option, none,
  some, List, [], ◌∷◌, ◌++◌, arith, ◌==◌, ◌!=◌, nat_eq, string_eq, option_eq, Bool-cases,
  Option-cases, In, here, there, All-In, In-select, select, find, some-eq-some, ok,
}
use qdev_runner_control_plan.Json.{Python}
use qdev_runner_control_plan.ClaimScope.{ClaimScope, schema_v2}
use qdev_runner_control_plan.Sql.{Ordered, order_by-Ordered, In-order_by}
use qdev_runner_control_plan.Store.Tables.{is_pending, is_claimed, Job, Db}
use qdev_runner_control_plan.Store.Queue.{pending_jobs, queued_before}
use qdev_runner_control_plan.Store.Release.{is_held}
use qdev_runner_control_plan.Store.Claim.Request.{
  ClaimRequest, Evidence, revalidated_skips, gather_evidence,
}
use qdev_runner_control_plan.Store.Claim.Selection.{scan_order, held_rows, profile_is, held_back}
use qdev_runner_control_plan.Store.Claim.Scan.{skip, consider}
use qdev_runner_control_plan.Store.Claim.Outcome.{Selected, claim-Selected}
use qdev_runner_control_plan.Store.Claim.Eligible.{queue_allows-true}
use qdev_runner_control_plan.Store.Claim.Facts.{repaired, selected_answer, selected_Eligible}
use qdev_runner_control_plan.Store.Claim.{claim, answer, fifo_heads}

pub queued_before_trans :
    (x y z : Job) → queued_before x y ≡ true → queued_before y z ≡ true → queued_before x z ≡ true
unfolding queued_before
queued_before_trans x y z h k = ground arith

pub queued_before_total : (x y : Job) → queued_before x y ≡ false → queued_before y x ≡ true
unfolding queued_before
queued_before_total x y h = ground arith

-- No scope, or a v2 scope: the rows are scanned in the order of the queue.
unfoldable pub is_fifo : Option ClaimScope → Bool
is_fifo none = true
is_fifo (some scope) = scope.schema == schema_v2

pub scan_order_fifo :
    (scope : Option ClaimScope) (rows : List Job)
    → is_fifo scope ≡ true
    → scan_order scope rows ≡ rows
unfolding is_fifo scan_order
scan_order_fifo none rows h = refl
scan_order_fifo (some scope) rows h = rw h

-- In a sorted list, what is not behind the middle stands before it.
before_middle :
    (before : List Job) (row : Job) (after : List Job) {other : Job}
    → Ordered queued_before (before ++ row ∷ after)
    → In other (before ++ row ∷ after)
    → queued_before row other ≡ false
    → In other before ⊎ (other ≡ row)
before_middle [] row after o (here e) h = inr e
before_middle [] row after o (there m) h =
    let t = All-In (λ y. queued_before row y ≡ true) o.0 m in cc
before_middle (x ∷ before) row after o (here e) h = inl (here e)
before_middle (x ∷ before) row after o (there m) h = elim (before_middle before row after o.1 m h) [
  | inl n ↦ inl (there n)
  | inr e ↦ inr e
]

pub pending_jobs-Ordered : (db : Db) → Ordered queued_before (pending_jobs db)
unfolding pending_jobs
pending_jobs-Ordered db =
    order_by-Ordered queued_before queued_before_trans queued_before_total
      (select (λ row. is_pending row.status) db.jobs)

pub queued_before_self : (x : Job) → queued_before x x ≡ true
unfolding queued_before
queued_before_self x = ground arith

module _ {py : Python} {req : ClaimRequest} {now : ℕ} {db db' : Db} {job : Job}
    (s : Selected py req now db db' job) where
  pub job_position : (other : Job) → queued_before job other ≡ queued_before s.row other
  unfolding answer queued_before
  job_position other = rw (selected_answer s)

  older_skipped :
      is_fifo req.claim_scope ≡ true
      → (other : Job) → In other (pending_jobs (repaired py now db))
      → queued_before job other ≡ false
      → consider py req s.ev s.heads now (repaired py now db) other ≡ ok skip
  older_skipped fifo other m late =
      let split : pending_jobs (repaired py now db) ≡ s.found.before ++ s.row ∷ s.found.after =
        sym (scan_order_fifo req.claim_scope (pending_jobs (repaired py now db)) fifo)
        ∙ s.found.split in
      let behind : queued_before s.row other ≡ false = sym (job_position other) ∙ late in
      elim (before_middle s.found.before s.row s.found.after
        (subst (Ordered queued_before) split (pending_jobs-Ordered (repaired py now db)))
        (subst (In other) split m) behind) [
          | inl n ↦
              All-In (λ r. consider py req s.ev s.heads now (repaired py now db) r ≡ ok skip)
                s.found.passed_over n
          | inr e ↦
              let itself : queued_before other other ≡ false =
                subst (λ x. queued_before x other ≡ false) (sym e) behind in
              cc (queued_before_self other, itself)
        ]

-- First in, first out: when a claim without a scope, or under a v2 scope, hands out a job, every
-- pending job that the queue puts strictly before it was considered with the same evidence about
-- the worker and the same FIFO heads, and was found to be one that the worker may not take.
pub claim_oldest :
    (py : Python) (req : ClaimRequest) (now : ℕ) (db : Db) {db' : Db} {job : Job}
    → is_fifo req.claim_scope ≡ true
    → claim py req now db ≡ ok (db', some job)
    → (skip_ids : List ℕ) × (ev : Evidence) × (heads : Option (List (String × ℕ)))
      × (revalidated_skips req ≡ ok skip_ids)
      × (gather_evidence py req now (repaired py now db) ≡ ok (some ev))
      × (fifo_heads py req skip_ids (pending_jobs (repaired py now db)) ≡ ok heads)
      × ((other : Job)
          → In other (pending_jobs (repaired py now db))
          → queued_before job other ≡ false
          → consider py req ev heads now (repaired py now db) other ≡ ok skip)
claim_oldest py req now db fifo h =
    let s = claim-Selected py req now db h in
    let straight = scan_order_fifo req.claim_scope (pending_jobs (repaired py now db)) fifo in
    (
      s.skip_ids,
      s.ev,
      s.heads,
      s.revalidated,
      s.evidence,
      subst (λ rows. fifo_heads py req s.skip_ids rows ≡ ok s.heads) straight s.fifo,
      λ other m late. older_skipped s fifo other m late,
    )

-- The head that `held_back` compares with stands before every held row of the profile.
held_head_first :
    (profile : String) (rows : List Job) (held : Job)
    → Ordered queued_before rows
    → In held rows
    → profile_is profile held ≡ true
    → (head : Job) × (find (profile_is profile) rows ≡ some head) × (queued_before head held ≡ true)
unfolding find
held_head_first profile [] held o m p = elim m [ ]
held_head_first profile (x ∷ rows) held o (here e) p = (held, rw (← e, p), queued_before_self held)
held_head_first profile (x ∷ rows) held o (there m) p = elim (Bool-cases (profile_is profile x)) [
  | inl t ↦ (x, rw t, All-In (λ y. queued_before x y ≡ true) o.0 m)
  | inr f ↦ let (head, e, q) = held_head_first profile rows held o.1 m p in (head, rw f e, q)
]

held_rows-In :
    (db : Db) (held : Job)
    → In held db.jobs
    → is_held db held ≡ true
    → is_claimed held.status ≡ true
    → (held.profile != none) ≡ true
    → In held (held_rows db)
unfolding held_rows
held_rows-In db held m h c p = In-order_by queued_before _ (
    In-select (λ row. is_held db row && is_claimed row.status && row.profile != none) m
      (rw (h, c) p))

held_rows-Ordered : (db : Db) → Ordered queued_before (held_rows db)
unfolding held_rows
held_rows-Ordered db =
    order_by-Ordered queued_before queued_before_trans queued_before_total
      (select (λ row. is_held db row && is_claimed row.status && row.profile != none) db.jobs)

-- A held row of the profile that is not behind `row` holds it back.
held_back_by :
    (db : Db) (profile : String) (row held : Job)
    → In held (held_rows db)
    → profile_is profile held ≡ true
    → queued_before held row ≡ true
    → held_back db profile row ≡ true
unfolding held_back
held_back_by db profile row held m p before =
    let (head, e, first) = held_head_first profile (held_rows db) held (held_rows-Ordered db) m p in
    rw (e, held_back) (queued_before_trans head held row first before)

not_held_back :
    {py : Python} {req : ClaimRequest} {now : ℕ} {db db' : Db} {job : Job}
    (s : Selected py req now db db' job) (profile : String) (held : Job)
    → job.profile ≡ some profile
    → In held (repaired py now db).jobs
    → is_held (repaired py now db) held ≡ true
    → is_claimed held.status ≡ true
    → (held.profile != none) ≡ true
    → profile_is profile held ≡ true
    → queued_before held job ≡ true
    → ⊥
unfolding answer queued_before
not_held_back {py} {req} {now} {db} {db'} {job} s profile held named m is_h is_c has same before =
    let (free, scoped, head) =
      queue_allows-true py req s.ev s.heads (repaired py now db) s.row s.profile
        (selected_Eligible s).queue in
    let same_profile : s.profile ≡ profile =
      some-eq-some (sym (ap (λ (j : Job). j.profile) (selected_answer s)) ∙ named) in
    let before_row : queued_before held s.row ≡ true = rw (selected_answer s) at before in
    let back =
      held_back_by (repaired py now db) s.profile s.row held
        (held_rows-In (repaired py now db) held m is_h is_c has) (rw (sym same_profile) at same)
        before_row in
    cc (free, back)

profile_is-named :
    (profile : String) (held : Job) → profile_is profile held ≡ true → (held.profile != none) ≡ true
unfolding profile_is
profile_is-named profile held h = elim (Option-cases held.profile) [
  | inl e ↦ (let impossible : false ≡ true = rw (e, profile_is) at h in cc)
  | inr (p, e) ↦ rw e refl
]

-- No claim jumps a runner hold: where a claimed row with an active hold has the profile of the job
-- that a claim hands out, the queue puts that row strictly behind the job.
pub claim_behind_holds :
    (py : Python) (req : ClaimRequest) (now : ℕ) (db : Db) {db' : Db} {job : Job} (profile : String)
    (held : Job)
    → claim py req now db ≡ ok (db', some job)
    → job.profile ≡ some profile
    → In held (repaired py now db).jobs
    → is_held (repaired py now db) held ≡ true
    → is_claimed held.status ≡ true
    → profile_is profile held ≡ true
    → queued_before held job ≡ false
claim_behind_holds py req now db {db'} {job} profile held h named m is_h is_c same =
    let has = profile_is-named profile held same in
    let s = claim-Selected py req now db h in
    elim (Bool-cases (queued_before held job)) [
      | inr later ↦ later
      | inl before ↦ absurd (not_held_back s profile held named m is_h is_c has same before)
    ]
