-- ===== src/Store/Claim/Reserve.antt =====
-- Claims of workers of the reserve tier.
use qdev_runner_control_plan.Prelude.{
  ℕ, ◌+◌, ◌*◌, String, ◌≡◌, refl, Bool, true, false, some, List, [], ◌∷◌, arith, if◌then◌else◌,
  ◌==◌, string_eq, In, here, there, In-select, leb, Result, ok, >>=-eq-ok,
}
use qdev_runner_control_plan.Json.{Python}
use qdev_runner_control_plan.Store.Tables.{Worker, Job, Db}
use qdev_runner_control_plan.Store.Workers.{first_open, slot_open, has_available_tier_slot}
use qdev_runner_control_plan.Store.Payload.{repair_invalid_queue_timestamps}
use qdev_runner_control_plan.Store.Claim.Request.{ClaimRequest}
use qdev_runner_control_plan.Store.Claim.Scan.{slot_query, left_to_primary}
use qdev_runner_control_plan.Store.Claim.Outcome.{claim-Selected}
use qdev_runner_control_plan.Store.Claim.Facts.{repaired, selected_answer, selected_Eligible}
use qdev_runner_control_plan.Store.Claim.{claim, answer}

-- Where no row is open, each row was asked and refused.
first_open-false :
    (py : Python) (opens : Worker → Result Bool) (ws : List Worker) {w : Worker}
    → first_open py opens ws ≡ ok false
    → In w ws
    → opens w ≡ ok false
unfolding first_open
first_open-false py opens [] h m = elim m [ ]
first_open-false py opens (x ∷ ws) h m =
    let (found, e, k) = >>=-eq-ok (opens x) _ h in
    by_answer found e k m (λ k' n. first_open-false py opens ws k' n)
  where
    by_answer :
        {v : Worker} (found : Bool)
        → opens x ≡ ok found
        → (if found then ok true else first_open py opens ws) ≡ ok false
        → In v (x ∷ ws)
        → (first_open py opens ws ≡ ok false → In v ws → opens v ≡ ok false)
        → opens v ≡ ok false
    by_answer true e k m' later = absurd (ground arith)
    by_answer false e k (here same) later = rw same e
    by_answer false e k (there n) later = later k n

-- A reserve worker takes only what no primary worker could take: when a claim of the reserve tier
-- hands out a job, no worker with a heartbeat within the claim's age limit has an open slot of the
-- primary tier for it, under that job's own requirements.
pub claim_reserve :
    (py : Python) (req : ClaimRequest) (now : ℕ) (db : Db) {db' : Db} {job : Job}
    → req.tier ≡ "reserve"
    → claim py req now db ≡ ok (db', some job)
    → (row : Job) × (profile : String) × (job ≡ answer py req row profile)
      × ((w : Worker)
          → In w db.workers
          → leb now (w.last_seen + req.primary_max_age_seconds * 1000000) ≡ true
          → slot_open py (repaired py now db) "primary" (slot_query py req row profile) w
            ≡ ok false)
unfolding left_to_primary has_available_tier_slot repair_invalid_queue_timestamps
claim_reserve py req now db {db'} {job} reserve h =
    let s = claim-Selected py req now db h in
    let closed = of_reserve (req.tier == "reserve") (rw reserve refl) (selected_Eligible s).last in
    (
      s.row,
      s.profile,
      selected_answer s,
      λ w m fresh.
          first_open-false py
            (slot_open py (repaired py now db) "primary" (slot_query py req s.row s.profile)) _
            closed
            (In-select
              (λ (x : Worker). leb now (x.last_seen + req.primary_max_age_seconds * 1000000)) m
              fresh),
    )
  where
    of_reserve :
        {a : Result Bool} (b : Bool)
        → b ≡ true
        → (if b then a else ok false) ≡ ok false
        → a ≡ ok false
    of_reserve true e k = k
    of_reserve false e k = absurd (ground arith)
