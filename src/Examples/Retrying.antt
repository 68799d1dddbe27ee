-- ===== src/Examples/Retrying.antt =====
-- A retry that is linked to a provider job.
use qdev_runner_control_plan.Prelude.{◌≡◌, refl, true, some, [], ◌∷◌, find, select, lower, ◌⊎◌}
use qdev_runner_control_plan.Store.Retries.{
  Retry, retry_row, is_linked, is_candidate, linked_row, link_retry_provider_job,
}
use qdev_runner_control_plan.Store.Retries.Linking.{link_single, link_repeated}

abbrev wanted : Retry
wanted =
    retry_row
      (record {
        request_id = "request";
        source_job_id = 3;
        repository = "qdev/app";
        source_run_id = 103;
        source_job_attempt = 1;
        expected_sha = "ABC";
        requested_by = "operator";
        reason = "flaky";
      })
      1 10

abbrev linked : Retry
linked = linked_row 104 4 20 wanted

linked_now :
    link_retry_provider_job "qdev/app" "abc" 104 4 20 (wanted ∷ []) ≡ (linked ∷ [], some linked)
unfolding link_retry_provider_job retry_row
linked_now = refl

link_single_example :
    (linked.provider_run_id ≡ some 104)
    × (linked.provider_job_id ≡ some 4)
    × ((find (is_linked 104 4) (wanted ∷ []) ≡ some linked)
        ⊎ ((c : Retry) × (select (is_candidate "qdev/app" (lower "abc")) (wanted ∷ []) ≡ c ∷ [])))
link_single_example =
    link_single "qdev/app" "abc" 104 4 20 (wanted ∷ []) (linked ∷ []) linked linked_now

link_repeated_example :
    (again : Retry) × (link_retry_provider_job "qdev/app" "abc" 104 4 30 (linked ∷ [])
      ≡ (linked ∷ [], some again))
    × (is_linked 104 4 again ≡ true)
link_repeated_example =
    link_repeated "qdev/app" "abc" 104 4 20 30 (wanted ∷ []) (linked ∷ []) linked linked_now
