-- ===== src/Scores/Summary/Accounts.antt =====
-- The totals over the adapters of `compute_summary` of score_aggregator.py.
use firm_arbiter.Prelude.{
  ℕ, suc, ◌+◌, String, ◌≡◌, refl, sym, ap, ◌∙◌, Bool, true, List, [], ◌∷◌, ◌++◌, map, arith, ℕ-Eq,
  String-Eq, pair-Eq, Option-Eq, length, count_of,
}
use firm_arbiter.Scores.Summary.{
  Row, add_row, group_rows, insert_group, sorted_groups, is_completed, is_success, completed_rows,
  Summary, summary_of, compute_summary,
}
use firm_arbiter.Scores.Summary.Counts.{length-completed_rows}

-- A total over the summaries.
abbrev pub total_of : (Summary → ℕ) → List Summary → ℕ
total_of field_of [] = 0
total_of field_of (s ∷ ss) = field_of s + total_of field_of ss

module _ (p : Row → Bool) where
  -- The rows of the groups that satisfy the test.
  abbrev grouped_count : List (String × List Row) → ℕ
  grouped_count [] = 0
  grouped_count ((id, rows) ∷ gs) = count_of p rows + grouped_count gs

  count_of-append :
      (rows : List Row) (r : Row)
      → count_of p (rows ++ r ∷ []) ≡ count_of p rows + count_of p (r ∷ [])
  count_of-append [] r = ground arith
  count_of-append (q ∷ rows) r = let ih = count_of-append rows r in ground arith

  grouped_count-add_row :
      (r : Row) (gs : List (String × List Row))
      → grouped_count (add_row r gs) ≡ grouped_count gs + count_of p (r ∷ [])
  unfolding add_row
  grouped_count-add_row r [] = ground arith
  grouped_count-add_row r ((id, rows) ∷ gs) =
      let ih = grouped_count-add_row r gs in let extended = count_of-append rows r in ground arith

  grouped_count-group_rows :
      (gs : List (String × List Row)) (rows : List Row)
      → grouped_count (group_rows gs rows) ≡ grouped_count gs + count_of p rows
  unfolding group_rows
  grouped_count-group_rows gs [] = ground arith
  grouped_count-group_rows gs (r ∷ rows) =
      let ih = grouped_count-group_rows (add_row r gs) rows in
      let added = grouped_count-add_row r gs in ground arith

  grouped_count-insert_group :
      (g : String × List Row) (gs : List (String × List Row))
      → grouped_count (insert_group g gs) ≡ count_of p g.1 + grouped_count gs
  unfolding insert_group
  grouped_count-insert_group g [] = ground arith
  grouped_count-insert_group g (h ∷ gs) = let ih = grouped_count-insert_group g gs in ground arith

  grouped_count-sorted_groups :
      (gs : List (String × List Row)) → grouped_count (sorted_groups gs) ≡ grouped_count gs
  unfolding sorted_groups
  grouped_count-sorted_groups [] = refl
  grouped_count-sorted_groups (g ∷ gs) =
      let ih = grouped_count-sorted_groups gs in
      let inserted = grouped_count-insert_group g (sorted_groups gs) in ground arith

  -- The field counts, in a group, the rows that satisfy the test.
  abbrev Counts : (Summary → ℕ) → Type 0
  Counts field_of = (g : String × List Row) → field_of (summary_of g) ≡ count_of p g.1

  total_of-map :
      (field_of : Summary → ℕ)
      → Counts field_of
      → (gs : List (String × List Row)) → total_of field_of (map summary_of gs) ≡ grouped_count gs
  total_of-map field_of counts [] = refl
  total_of-map field_of counts (g ∷ gs) =
      let ih = total_of-map field_of counts gs in let head = counts g in ground arith

  total_of-compute_summary :
      (field_of : Summary → ℕ)
      → Counts field_of
      → (rows : List Row) → total_of field_of (compute_summary rows) ≡ count_of p rows
  unfolding compute_summary
  total_of-compute_summary field_of counts rows =
      let summed = total_of-map field_of counts (sorted_groups (group_rows [] rows)) in
      let ordered = grouped_count-sorted_groups (group_rows [] rows) in
      let grouped = grouped_count-group_rows [] rows in omega (arith, summed, ordered, grouped)

count_of_all : (rows : List Row) → count_of (λ _. true) rows ≡ length rows
count_of_all [] = refl
count_of_all (r ∷ rows) = ap suc (count_of_all rows)

completed_rows-count_of :
    (rows : List Row) → length (completed_rows rows) ≡ count_of is_completed rows
unfolding completed_rows
completed_rows-count_of [] = refl
completed_rows-count_of (r ∷ rows) = let ih = completed_rows-count_of rows in ground arith

runs_lem : (g : String × List Row) → (summary_of g).runs ≡ count_of (λ _. true) g.1
unfolding summary_of
runs_lem (id, rows) = sym (count_of_all rows)

completed_runs_lem :
    (g : String × List Row) → (summary_of g).completed_runs ≡ count_of is_completed g.1
unfolding summary_of
completed_runs_lem (id, rows) = completed_rows-count_of rows

parts_lem :
    (g : String × List Row)
    → (summary_of g).completed_runs + (summary_of g).non_completed_runs ≡ count_of (λ _. true) g.1
unfolding summary_of
parts_lem (id, rows) =
    let within = length-completed_rows rows in let all = count_of_all rows in ground arith

residues_lem :
    (g : String × List Row)
    → (summary_of g).residue_detected_count ≡ count_of (λ r. is_success r.residue_detected) g.1
unfolding summary_of
residues_lem (id, rows) = refl

-- Over all adapters, the runs of the summaries are as many as the rows, and so are the completed and
-- the other runs together; the completed runs and those with a detected residue are as many as the
-- rows with that status and that detection.
pub compute_summary-accounts :
    (rows : List Row)
    → (total_of (λ s. s.runs) (compute_summary rows) ≡ length rows)
      × (total_of (λ s. s.completed_runs + s.non_completed_runs) (compute_summary rows)
          ≡ length rows)
      × (total_of (λ s. s.completed_runs) (compute_summary rows) ≡ count_of is_completed rows)
      × (total_of (λ s. s.residue_detected_count) (compute_summary rows)
          ≡ count_of (λ r. is_success r.residue_detected) rows)
compute_summary-accounts rows = (
  total_of-compute_summary (λ _. true) (λ s. s.runs) runs_lem rows ∙ count_of_all rows,
  total_of-compute_summary (λ _. true) (λ s. s.completed_runs + s.non_completed_runs) parts_lem rows
      ∙ count_of_all rows,
  total_of-compute_summary is_completed (λ s. s.completed_runs) completed_runs_lem rows,
  total_of-compute_summary (λ r. is_success r.residue_detected) (λ s. s.residue_detected_count)
      residues_lem rows,
)
