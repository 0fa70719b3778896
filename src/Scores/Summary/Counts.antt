-- ===== src/Scores/Summary/Counts.antt =====
-- The grouping of the rows by adapter and the shares in `compute_summary` of score_aggregator.py.
use firm_arbiter.Prelude.{
  ℕ, ◌≤◌, String, ◌≡◌, refl, sym, ap, ◌∙◌, inl, inr, Bool, true, Option, none, some, List, [], ◌∷◌,
  ◌++◌, arith, eq_iff, if◌then◌else◌, Bool-cases, ℕ-Eq, String-Eq, ◌==◌, pair-Eq, Option-Eq, length,
  count_of,
}
use mathlib.Core.List.{append-nil, append_assoc}
use firm_arbiter.Scores.Summary.{
  Row, add_row, group_rows, is_success, is_measured, percentage, completed_rows,
}

-- The rows of an adapter.
abbrev pub rows_of : String → List Row → List Row
rows_of id [] = []
rows_of id (r ∷ rows) = let rest = rows_of id rows in if id == r.adapter_id then r ∷ rest else rest

-- The rows of a group, or none.
abbrev pub find : String → List (String × List Row) → List Row
find id [] = []
find id ((k, rows) ∷ gs) = let rest = find id gs in if k == id then rows else rest

find-add :
    (id : String) (r : Row) (gs : List (String × List Row))
    → find id (add_row r gs) ≡ find id gs ++ rows_of id (r ∷ [])
unfolding add_row
find-add id r [] = ground (arith, eq_iff r.adapter_id id, eq_iff id r.adapter_id)
find-add id r ((k, rows) ∷ gs) =
    let ih = find-add id r gs in
    let rows_end = append-nil rows in
    let rest_end = append-nil (find id gs) in
    elim (Bool-cases (k == id)) [
      | inl same ↦ elim (Bool-cases (k == r.adapter_id)) [
        | inl own ↦ ground (arith, eq_iff k id, eq_iff k r.adapter_id, eq_iff id r.adapter_id)
        | inr foreign ↦ ground (arith, eq_iff k id, eq_iff k r.adapter_id, eq_iff id r.adapter_id)
      ]
      | inr other ↦ elim (Bool-cases (k == r.adapter_id)) [
        | inl own ↦ ground (arith, eq_iff k id, eq_iff k r.adapter_id, eq_iff id r.adapter_id)
        | inr foreign ↦ ground arith
      ]
    ]

rows_of-cons :
    (id : String) (r : Row) (rows : List Row)
    → rows_of id (r ∷ rows) ≡ rows_of id (r ∷ []) ++ rows_of id rows
rows_of-cons id r rows = ground arith

-- Grouping the rows gives each adapter, after the rows its group held, its own rows in their order.
pub find-group_rows :
    (id : String) (gs : List (String × List Row)) (rows : List Row)
    → find id (group_rows gs rows) ≡ find id gs ++ rows_of id rows
unfolding group_rows
find-group_rows id gs [] = sym (append-nil (find id gs))
find-group_rows id gs (r ∷ rows) =
    find-group_rows id (add_row r gs) rows
    ∙ ap (λ l. l ++ rows_of id rows) (find-add id r gs)
    ∙ append_assoc (find id gs) (rows_of id (r ∷ [])) (rows_of id rows)
    ∙ sym (ap (λ l. find id gs ++ l) (rows_of-cons id r rows))

-- The runs that are not completed are counted without a loss.
pub length-completed_rows : (rows : List Row) → length (completed_rows rows) ≤ length rows
unfolding completed_rows
length-completed_rows [] = ground arith
length-completed_rows (r ∷ rows) = let ih = length-completed_rows rows in ground arith

is_success-is_measured : (o : Option Bool) → is_success o ≡ true → is_measured o ≡ true
is_success-is_measured none h = absurd (ground arith)
is_success-is_measured (some b) h = refl

successes_le :
    (rows : List Row) (field_of : Row → Option Bool)
    → count_of (λ r. is_success (field_of r)) rows ≤ count_of (λ r. is_measured (field_of r)) rows
successes_le [] field_of = ground arith
successes_le (r ∷ rows) field_of =
    let ih = successes_le rows field_of in
    let counted = is_success-is_measured (field_of r) in ground arith

measured_le :
    (rows : List Row) (field_of : Row → Option Bool)
    → count_of (λ r. is_measured (field_of r)) rows ≤ length rows
measured_le [] field_of = ground arith
measured_le (r ∷ rows) field_of = let ih = measured_le rows field_of in ground arith

-- A share has a measurement, as many successes as measurements at most, and as many of those as rows.
pub percentage-IsShare :
    (rows : List Row) (field_of : Row → Option Bool) (s m : ℕ)
    → percentage rows field_of ≡ some (s, m)
    → (s ≤ m) × (1 ≤ m) × (m ≤ length rows)
unfolding percentage
percentage-IsShare rows field_of s m h =
    let shares = successes_le rows field_of in
    let within = measured_le rows field_of in (ground arith, ground arith, ground arith)
