-- ===== src/Store/Retries/Linking.antt =====
-- The links between provider jobs and retries (`link_retry_provider_job`).
use qdev_runner_control_plan.Prelude.{
  find-In, ℕ, String, ◌≡◌, refl, sym, ◌∙◌, ap, subst, true, false, ◌||◌, Option, none, some, List,
  [], ◌∷◌, ◌==◌, nat_eq, string_eq, option_eq, ltb, find, find-eq-some, select, lower, In,
  Bool-cases, Option-cases, inl, inr, ◌⊎◌, ==-refl, &&-elim, ==→≡,
}
use qdev_runner_control_plan.Sql.{update, update-In}
use qdev_runner_control_plan.Store.Retries.{
  Retry, Retries, has_request, is_linked, is_candidate, linked_row, link_candidates,
  link_retry_provider_job,
}

-- A linked row is linked.
linked_self :
    (run_id job_id now : ℕ) (r : Retry)
    → is_linked run_id job_id (linked_row run_id job_id now r) ≡ true
unfolding is_linked linked_row
linked_self run_id job_id now r = rw (==-refl run_id, ==-refl job_id) refl

-- The row that is read back after the link is linked.
linked_back :
    (request_id : String) (run_id job_id now : ℕ) (t : Retries) {r : Retry}
    → find
        (has_request request_id)
        (update (has_request request_id) (linked_row run_id job_id now) t)
      ≡ some r
    → is_linked run_id job_id r ≡ true
linked_back request_id run_id job_id now t {r} h =
    let (m, own) =
      find-eq-some (has_request request_id)
        (update (has_request request_id) (linked_row run_id job_id now) t) h in
    let (a, _, e) = update-In (has_request request_id) (linked_row run_id job_id now) t m in
    elim (Bool-cases (has_request request_id a)) [
      | inl y ↦
          let same : r ≡ linked_row run_id job_id now a = rw y at e in
          ap (is_linked run_id job_id) same ∙ linked_self run_id job_id now a
      | inr n ↦ absurd (
          let same : r ≡ a = rw n at e in
          let k : true ≡ false = sym own ∙ ap (has_request request_id) same ∙ n in cc)
    ]

-- The two ways in which a link answers a row.
data Linked (repository expected_sha : String) (run_id job_id now : ℕ) (t t' : Retries) (r : Retry)
    : Type 0 where
  already :
      find (is_linked run_id job_id) t ≡ some r
      → t' ≡ t
      → Linked repository expected_sha run_id job_id now t t' r
  single :
      (c : Retry)
      → find (is_linked run_id job_id) t ≡ none
      → select (is_candidate repository (lower expected_sha)) t ≡ c ∷ []
      → t' ≡ update (has_request c.request_id) (linked_row run_id job_id now) t
      → find (has_request c.request_id) t' ≡ some r
      → Linked repository expected_sha run_id job_id now t t' r

candidates-Linked :
    (repository expected_sha : String) (run_id job_id now : ℕ) (t : Retries) (cs : List Retry)
    {t' : Retries} {r : Retry}
    → find (is_linked run_id job_id) t ≡ none
    → select (is_candidate repository (lower expected_sha)) t ≡ cs
    → link_candidates run_id job_id now t cs ≡ (t', some r)
    → Linked repository expected_sha run_id job_id now t t' r
unfolding link_candidates
candidates-Linked repository expected_sha run_id job_id now t [] n e h =
    absurd (let k = ap (λ (p : Retries × Option Retry). p.1) h in cc)
candidates-Linked repository expected_sha run_id job_id now t (c ∷ []) {t'} {r} n e h =
    let written : update (has_request c.request_id) (linked_row run_id job_id now) t ≡ t' =
      ap (λ (p : Retries × Option Retry). p.0) h in
    let found = ap (λ (p : Retries × Option Retry). p.1) h in
    single c n e (sym written) (ap (find (has_request c.request_id)) (sym written) ∙ found)
candidates-Linked repository expected_sha run_id job_id now t (c ∷ d ∷ cs) n e h =
    absurd (let k = ap (λ (p : Retries × Option Retry). p.1) h in cc)

link-Linked :
    (repository expected_sha : String) (run_id job_id now : ℕ) (t : Retries) {t' : Retries}
    {r : Retry}
    → link_retry_provider_job repository expected_sha run_id job_id now t ≡ (t', some r)
    → Linked repository expected_sha run_id job_id now t t' r
      × ((ltb run_id 1 || ltb job_id 1) ≡ false)
unfolding link_retry_provider_job
link-Linked repository expected_sha run_id job_id now t {t'} {r} h =
    elim (Bool-cases (ltb run_id 1 || ltb job_id 1)) [
      | inl y ↦ absurd (let k = ap (λ (p : Retries × Option Retry). p.1) (rw y at h) in cc)
      | inr n ↦ elim (Option-cases (find (is_linked run_id job_id) t)) [
        | inl e ↦ (
          candidates-Linked repository expected_sha run_id job_id now t
              (select (is_candidate repository (lower expected_sha)) t) e refl (rw (n, e) at h),
          n,
        )
        | inr (existing, e) ↦
            let k = rw (n, e) at h in
            let same : t ≡ t' = ap (λ (p : Retries × Option Retry). p.0) k in
            let row : some existing ≡ some r = ap (λ (p : Retries × Option Retry). p.1) k in
            (already (e ∙ row) (sym same), n)
      ]
    ]

Linked-row :
    {repository expected_sha : String} {run_id job_id now : ℕ} {t t' : Retries} {r : Retry}
    → Linked repository expected_sha run_id job_id now t t' r
    → (is_linked run_id job_id r ≡ true) × In r t'
Linked-row {run_id = run_id} {job_id = job_id} {t = t} {r = r} (already found same) =
    let (m, y) = find-eq-some (is_linked run_id job_id) t found in
    (y, subst (λ (u : Retries). In r u) (sym same) m)
Linked-row {run_id = run_id} {job_id = job_id} {now = now} {t = t} {t' = t'}
      (single c n e written found) =
    (
      linked_back c.request_id run_id job_id now t
          (ap (find (has_request c.request_id)) (sym written) ∙ found),
      (find-eq-some (has_request c.request_id) t' found).0,
    )

-- A link answers only rows of the run and the job that it was given, and unless the two were linked
-- before, it answers only where exactly one outstanding retry is of the repository and the SHA.
pub link_single :
    (repository expected_sha : String) (run_id job_id now : ℕ) (t t' : Retries) (r : Retry)
    → link_retry_provider_job repository expected_sha run_id job_id now t ≡ (t', some r)
    → (r.provider_run_id ≡ some run_id)
      × (r.provider_job_id ≡ some job_id)
      × ((find (is_linked run_id job_id) t ≡ some r)
          ⊎ ((c : Retry) × (select (is_candidate repository (lower expected_sha)) t ≡ c ∷ [])))
unfolding is_linked
link_single repository expected_sha run_id job_id now t t' r h =
    let (l, _) = link-Linked repository expected_sha run_id job_id now t h in
    let (y, _) = Linked-row l in
    let (a, b) = &&-elim (r.provider_run_id == some run_id) (r.provider_job_id == some job_id) y in
    (==→≡ r.provider_run_id (some run_id) a, ==→≡ r.provider_job_id (some job_id) b, way l)
  where
    way :
        {t' : Retries} {r : Retry}
        → Linked repository expected_sha run_id job_id now t t' r
        → (find (is_linked run_id job_id) t ≡ some r)
          ⊎ ((c : Retry) × (select (is_candidate repository (lower expected_sha)) t ≡ c ∷ []))
    way (already found same) = inl found
    way (single c n e written found) = inr (c, e)

-- A link that answered a row answers again: the same link made right after, with no call between and
-- whatever the clock reads, changes nothing and answers a row that is linked to the run and the job.
pub link_repeated :
    (repository expected_sha : String) (run_id job_id now later : ℕ) (t t' : Retries) (r : Retry)
    → link_retry_provider_job repository expected_sha run_id job_id now t ≡ (t', some r)
    → (again : Retry) × (link_retry_provider_job repository expected_sha run_id job_id later t'
        ≡ (t', some again))
      × (is_linked run_id job_id again ≡ true)
unfolding link_retry_provider_job
link_repeated repository expected_sha run_id job_id now later t t' r h =
    let (l, positive) = link-Linked repository expected_sha run_id job_id now t h in
    let (y, m) = Linked-row l in
    let (again, e) = find-In (is_linked run_id job_id) t' m y in
    (again, rw (positive, e) refl, (find-eq-some (is_linked run_id job_id) t' e).1)
