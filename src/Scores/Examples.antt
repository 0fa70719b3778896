-- ===== src/Scores/Examples.antt =====
-- A selection at concrete results.
use firm_arbiter.Prelude.{
  ℕ, ◌+◌, String, ◌≡◌, refl, Bool, true, false, Option, none, some, List, [], ◌∷◌, map, ℕ-Eq,
  String-Eq, pair-Eq, Option-Eq, length, count_of,
}
use firm_arbiter.Json.{Json, Items, text, array, object, field, end, cons, nil, get, is_text}
use firm_arbiter.Scores.{
  RunResult, rank_le, latest, add_to_group, group_from, place_le, place, sorted_results, filtered,
  select_attempts, nested, statuses, first_available, list_status,
}
use firm_arbiter.Scores.Summary.{
  Row, is_completed, is_success, add_row, group_rows, insert_group, sorted_groups, completed_rows,
  percentage, summary_of, compute_summary,
}
use firm_arbiter.Scores.Summary.Accounts.{total_of, compute_summary-accounts}
use firm_arbiter.Scores.Newest.{IsNewest, select_attempts-IsNewest}

abbrev attempt_of : String → String → ℕ → String → RunResult
attempt_of case_id adapter_id number completed_at = record {
  experiment_id = "pilot";
  case_id = case_id;
  adapter_id = adapter_id;
  attempt = some number;
  completed_at = completed_at;
  created_at = "";
}

abbrev results : List RunResult
results =
    attempt_of "b" "firmae" 1 "10:00"
    ∷ attempt_of "a" "firmae" 2 "11:00"
    ∷ attempt_of "b" "firmae" 2 "09:00"
    ∷ attempt_of "a" "emba" 1 "08:00"
    ∷ record (attempt_of "a" "emba" 3 "12:00") { experiment_id = "other" }
    ∷ []

abbrev selected : List RunResult
selected =
    attempt_of "a" "emba" 1 "08:00"
    ∷ attempt_of "a" "firmae" 2 "11:00"
    ∷ attempt_of "b" "firmae" 2 "09:00"
    ∷ []

select_attempts-IsNewest_example : IsNewest results "pilot" selected
unfolding select_attempts filtered group_from add_to_group latest rank_le sorted_results place
    place_le
select_attempts-IsNewest_example = select_attempts-IsNewest results selected "pilot" refl

-- An inconclusive measurement behind a probe error.
abbrev measured : String → Items → Items
measured status rest =
    cons (object (field "independent_measurement" (object (field "status" (text status) end)) end))
      rest

abbrev shown : Json → String
shown (text t) = t
shown _ = ""

inconclusive_hidden :
    list_status shown (array (measured "inconclusive" (measured "probe_error" nil))) ≡ "probe_error"
unfolding list_status statuses first_available nested get is_text
inconclusive_hidden = refl

indeterminate_first :
    list_status shown (array (measured "indeterminate" (measured "probe_error" nil)))
    ≡ "indeterminate"
unfolding list_status statuses first_available nested get is_text
indeterminate_first = refl

-- Two adapters, one with a run that was not set up.
abbrev row_of : String → String → Option Bool → Row
row_of adapter_id overall_status booted = record {
  adapter_id = adapter_id;
  overall_status = overall_status;
  unpack_success = some true;
  boot_success = booted;
  endpoint_claimed = some true;
  service_reachable = none;
  service_authentic = none;
  service_stable = none;
  cleanup_clean = some true;
  compute_status = some "partial";
  environment_status = some "measured";
  residue_detected = some true;
  endpoint_claim_count = 1;
  reachability_measurement_count = 0;
  authenticity_measurement_count = 0;
  stability_measurement_count = 0;
}

abbrev rows : List Row
rows =
    row_of "firmae" "completed" (some true)
    ∷ row_of "emba" "completed" none
    ∷ row_of "firmae" "setup_failed" (some false)
    ∷ []

groups_sorted :
    map {B = String × ℕ × Option (ℕ × ℕ)}
      (λ s. (s.adapter_id, s.runs, s.boot_success_pct))
      (compute_summary rows)
    ≡ ("emba", 1, none) ∷ ("firmae", 2, some (1, 2)) ∷ []
unfolding compute_summary summary_of sorted_groups insert_group group_rows add_row completed_rows
    percentage
groups_sorted = refl

compute_summary-accounts_example :
    (total_of (λ s. s.runs) (compute_summary rows) ≡ length rows)
    × (total_of (λ s. s.completed_runs + s.non_completed_runs) (compute_summary rows) ≡ length rows)
    × (total_of (λ s. s.completed_runs) (compute_summary rows) ≡ count_of is_completed rows)
    × (total_of (λ s. s.residue_detected_count) (compute_summary rows)
        ≡ count_of (λ r. is_success r.residue_detected) rows)
compute_summary-accounts_example = compute_summary-accounts rows
