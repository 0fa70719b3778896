-- ===== src/Scores/Summary.antt =====
-- `percentage` and `compute_summary` of score_aggregator.py, on the rows of `flatten_result`. A share
-- stands as its two numbers, since its quotient is rounded in floating point, and the averages of the
-- measured times and sizes, which are floating point numbers, are left out.
pub mod Accounts
pub mod Counts
use firm_arbiter.Prelude.{
  ℕ, ◌-◌, String, Bool, true, false, ◌||◌, Option, none, some, List, [], ◌∷◌, ◌++◌, map, ltb,
  if◌then◌else◌, ℕ-Eq, String-Eq, ◌==◌, pair-Eq, Option-Eq, length, count_of, text_le,
}

-- What the summary reads of a row.
pub record Row : Type 0 where
  pub adapter_id : String
  pub overall_status : String
  pub unpack_success : Option Bool
  pub boot_success : Option Bool
  pub endpoint_claimed : Option Bool
  pub service_reachable : Option Bool
  pub service_authentic : Option Bool
  pub service_stable : Option Bool
  pub cleanup_clean : Option Bool
  pub compute_status : Option String
  pub environment_status : Option String
  pub residue_detected : Option Bool
  pub endpoint_claim_count : ℕ
  pub reachability_measurement_count : ℕ
  pub authenticity_measurement_count : ℕ
  pub stability_measurement_count : ℕ

abbrev pub is_measured : Option Bool → Bool
is_measured none = false
is_measured (some b) = true

abbrev pub is_success : Option Bool → Bool
is_success (some true) = true
is_success _ = false

-- `percentage`: None without a measurement, or else the successes and the measurements.
unfoldable pub percentage : List Row → (Row → Option Bool) → Option (ℕ × ℕ)
percentage rows field_of =
    let measured = count_of (λ r. is_measured (field_of r)) rows in
    if measured == 0 then none else some (count_of (λ r. is_success (field_of r)) rows, measured)

-- `grouped[str(row["adapter_id"])].append(row)`
unfoldable pub add_row : Row → List (String × List Row) → List (String × List Row)
add_row r [] = (r.adapter_id, r ∷ []) ∷ []
add_row r ((id, rows) ∷ gs) =
    let rest = add_row r gs in
    if id == r.adapter_id then (id, rows ++ r ∷ []) ∷ gs else (id, rows) ∷ rest

unfoldable pub group_rows : List (String × List Row) → List Row → List (String × List Row)
unfolding add_row
group_rows gs [] = gs
group_rows gs (r ∷ rows) = group_rows (add_row r gs) rows

-- `sorted(grouped.items())`; the adapters differ, so the rows are never compared.
unfoldable pub insert_group :
    String × List Row → List (String × List Row) → List (String × List Row)
insert_group g [] = g ∷ []
insert_group g (h ∷ gs) =
    let rest = insert_group g gs in if text_le g.0 h.0 then g ∷ h ∷ gs else h ∷ rest

unfoldable pub sorted_groups : List (String × List Row) → List (String × List Row)
unfolding insert_group
sorted_groups [] = []
sorted_groups (g ∷ gs) = insert_group g (sorted_groups gs)

abbrev pub is_completed : Row → Bool
is_completed r = r.overall_status == "completed"

unfoldable pub completed_rows : List Row → List Row
completed_rows [] = []
completed_rows (r ∷ rows) =
    let rest = completed_rows rows in if is_completed r then r ∷ rest else rest

abbrev pub text_is : Option String → String → Bool
text_is none s = false
text_is (some t) s = t == s

pub record Summary : Type 0 where
  pub adapter_id : String
  pub runs : ℕ
  pub completed_runs : ℕ
  pub non_completed_runs : ℕ
  pub unpack_success_pct : Option (ℕ × ℕ)
  pub boot_success_pct : Option (ℕ × ℕ)
  pub endpoint_claim_pct : Option (ℕ × ℕ)
  pub service_reachable_pct : Option (ℕ × ℕ)
  pub service_authentic_pct : Option (ℕ × ℕ)
  pub service_stable_pct : Option (ℕ × ℕ)
  pub cleanup_clean_pct : Option (ℕ × ℕ)
  pub compute_observed_pct : ℕ × ℕ
  pub endpoint_claim_runs : ℕ
  pub reachability_measured_runs : ℕ
  pub authenticity_measured_runs : ℕ
  pub stability_measured_runs : ℕ
  pub cleanup_measured_runs : ℕ
  pub cleanup_partial_probe_count : ℕ
  pub setup_failed_count : ℕ
  pub orchestration_error_count : ℕ
  pub residue_detected_count : ℕ

-- The body of the loop over the adapters.
unfoldable pub summary_of : String × List Row → Summary
unfolding percentage
summary_of (adapter_id, rows) =
    let completed = completed_rows rows in
    record {
      adapter_id = adapter_id;
      runs = length rows;
      completed_runs = length completed;
      non_completed_runs = length rows - length completed;
      unpack_success_pct = percentage rows (λ r. r.unpack_success);
      boot_success_pct = percentage rows (λ r. r.boot_success);
      endpoint_claim_pct = percentage completed (λ r. r.endpoint_claimed);
      service_reachable_pct = percentage rows (λ r. r.service_reachable);
      service_authentic_pct = percentage rows (λ r. r.service_authentic);
      service_stable_pct = percentage rows (λ r. r.service_stable);
      cleanup_clean_pct = percentage rows (λ r. r.cleanup_clean);
      compute_observed_pct = (
        count_of (λ r. text_is r.compute_status "complete" || text_is r.compute_status "partial")
            rows,
        length rows,
      );
      endpoint_claim_runs = count_of (λ r. ltb 0 r.endpoint_claim_count) rows;
      reachability_measured_runs = count_of (λ r. ltb 0 r.reachability_measurement_count) rows;
      authenticity_measured_runs = count_of (λ r. ltb 0 r.authenticity_measurement_count) rows;
      stability_measured_runs = count_of (λ r. ltb 0 r.stability_measurement_count) rows;
      cleanup_measured_runs = count_of (λ r. is_measured r.cleanup_clean) rows;
      cleanup_partial_probe_count =
          count_of (λ r. text_is r.environment_status "partial_probe") rows;
      setup_failed_count = count_of (λ r. r.overall_status == "setup_failed") rows;
      orchestration_error_count = count_of (λ r. r.overall_status == "orchestration_error") rows;
      residue_detected_count = count_of (λ r. is_success r.residue_detected) rows;
    }

-- `compute_summary`
unfoldable pub compute_summary : List Row → List Summary
unfolding summary_of sorted_groups group_rows
compute_summary rows = map summary_of (sorted_groups (group_rows [] rows))
