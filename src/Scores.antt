-- ===== src/Scores.antt =====
-- score_aggregator.py: the selection of a run's attempts for the scores, and the status of a list of
-- measurements.
pub mod Latest
pub mod Grouping
pub mod Selection
pub mod Newest
pub mod Summary
mod Examples
use firm_arbiter.Prelude.{
  ℕ, String, Bool, true, false, Option, none, some, List, [], ◌∷◌, ◌++◌, map, ltb, if◌then◌else◌,
  ℕ-Eq, String-Eq, ◌==◌, pair-Eq, Option-Eq, any_of, Result, text_le, ok, err,
}
use firm_arbiter.Json.{Json, Items, Fields, null, text, array, object, nil, cons, get, is_text}

-- `nested`: None, which is null, for a missing key or a value that is no object.
unfoldable pub nested : Json → List String → Json
nested document [] = document
nested document (component ∷ path) = elim document [
  | object fields ↦ elim (get fields component) [ none ↦ null | some v ↦ nested v path ]
  | _ ↦ null
]

-- `as_bool_status`
unfoldable pub as_bool_status : Json → Option Bool
as_bool_status (Json.boolean b) = some b
as_bool_status (text t) =
    if t == "true" then some true else if t == "false" then some false else none
as_bool_status _ = none

-- The statuses of the records that are objects.
unfoldable pub statuses : Items → List Json
unfolding nested
statuses nil = []
statuses (cons (object fields) rest) =
    nested (object fields) ("independent_measurement" ∷ "status" ∷ []) ∷ statuses rest
statuses (cons _ rest) = statuses rest

-- `status in statuses`
abbrev pub has_status : String → List Json → Bool
has_status s = any_of (λ v. is_text v s)

-- `available[0] if available else "not_reported"`
unfoldable pub first_available : (Json → String) → List Json → String
first_available str [] = "not_reported"
first_available str (null ∷ rest) = first_available str rest
first_available str (v ∷ rest) = str v

-- `list_status`, with `str` of a value.
unfoldable pub list_status : (Json → String) → Json → String
unfolding statuses first_available
list_status str (array (cons item rest)) =
    let found = statuses (cons item rest) in
    if has_status "true" found
    then "true"
    else if has_status "false" found
    then "false"
    else if has_status "indeterminate" found
    then "indeterminate"
    else if has_status "probe_error" found
    then "probe_error"
    else first_available str found
list_status str _ = "not_reported"

-- A result with what the selection reads of it; a missing attempt counts as 0, and the timestamp is
-- that of `result_timestamp`. A result whose attempt is null, at which the selection raises, is none
-- of these.
pub record RunResult : Type 0 where
  pub experiment_id : String
  pub case_id : String
  pub adapter_id : String
  pub attempt : Option ℕ
  pub completed_at : String
  pub created_at : String

pub data AggregationError : Type 0 where
  no_attempt : AggregationError

-- `result_timestamp`, where a missing text is empty.
abbrev pub result_timestamp : RunResult → String
result_timestamp r = if r.completed_at == "" then r.created_at else r.completed_at

-- `int(item["run"].get("attempt", 0))`
abbrev pub attempt_number : RunResult → ℕ
attempt_number r = elim r.attempt [ none ↦ 0 | some n ↦ n ]

-- Whether one result's attempt and timestamp are at most those of another, as tuples.
unfoldable pub rank_le : RunResult → RunResult → Bool
rank_le r s =
    if ltb (attempt_number r) (attempt_number s)
    then true
    else if attempt_number r == attempt_number s
    then text_le (result_timestamp r) (result_timestamp s)
    else false

-- `max(group, key=...)`: the first that no other exceeds.
unfoldable pub latest : RunResult → List RunResult → RunResult
unfolding rank_le
latest best [] = best
latest best (r ∷ rs) = latest (if rank_le r best then best else r) rs

abbrev pub Key : Type 0
Key = String × String

-- `(case_id, adapter_id)`
abbrev pub key_of : RunResult → Key
key_of r = (r.case_id, r.adapter_id)

-- A group has a first member, which made it.
pub record Group : Type 0 where
  pub key : Key
  pub first : RunResult
  pub others : List RunResult

-- `grouped[key].append(result)`
unfoldable pub add_to_group : RunResult → List Group → List Group
add_to_group r [] = record { key = key_of r; first = r; others = [] } ∷ []
add_to_group r (g ∷ gs) =
    let rest = add_to_group r gs in
    if g.key == key_of r then record g { others = g.others ++ r ∷ [] } ∷ gs else g ∷ rest

unfoldable pub group_from : List Group → List RunResult → List Group
unfolding add_to_group
group_from gs [] = gs
group_from gs (r ∷ rs) = group_from (add_to_group r gs) rs

-- The order of `(adapter_id, case_id)`.
unfoldable pub place_le : RunResult → RunResult → Bool
place_le r s =
    if r.adapter_id == s.adapter_id
    then text_le r.case_id s.case_id
    else text_le r.adapter_id s.adapter_id

-- `sorted(selected, key=...)`: a stable insertion.
unfoldable pub place : RunResult → List RunResult → List RunResult
unfolding place_le
place r [] = r ∷ []
place r (s ∷ ss) = let rest = place r ss in if place_le r s then r ∷ s ∷ ss else s ∷ rest

unfoldable pub sorted_results : List RunResult → List RunResult
unfolding place
sorted_results [] = []
sorted_results (r ∷ rs) = place r (sorted_results rs)

unfoldable pub filtered : (RunResult → Bool) → List RunResult → List RunResult
filtered p [] = []
filtered p (r ∷ rs) = let rest = filtered p rs in if p r then r ∷ rest else rest

abbrev pub newest : Group → RunResult
newest g = latest g.first g.others

-- `select_attempts`
unfoldable pub select_attempts :
    List RunResult → String → Option ℕ → Result AggregationError (List RunResult)
unfolding filtered sorted_results group_from latest
select_attempts results experiment_id attempt =
    let experiment_results = filtered (λ r. r.experiment_id == experiment_id) results in
    elim attempt [
      | none ↦ ok (sorted_results (map newest (group_from [] experiment_results)))
      | some n ↦
          let selected =
            filtered (λ r. elim r.attempt [ none ↦ false | some m ↦ m == n ]) experiment_results in
          elim selected [ [] ↦ err no_attempt | r ∷ rs ↦ ok (sorted_results (r ∷ rs)) ]
    ]
