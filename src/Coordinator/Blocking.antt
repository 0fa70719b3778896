-- ===== src/Coordinator/Blocking.antt =====
-- `emulation_blocked_by_unpack` of the coordinator's `execute`, against the candidate's events.
use firm_arbiter.Prelude.{
  ℕ, String, ◌≡◌, refl, ap, ◌∙◌, ◌↔◌, ◌⊎◌, inl, inr, true, Option, none, some, List, [], ◌∷◌, map,
  arith, eq_iff, if◌then◌else◌, Option-cases, ℕ-Eq, String-Eq, ◌==◌, pair-Eq, Option-Eq,
}
use firm_arbiter.Json.{Json, Fields, text, is_text}
use firm_arbiter.Coordinator.{
  StageResult, outcome_is, member, result_of, emulation_blocked_by_unpack, boot_requested,
  derive_candidate_stage_results,
}
use firm_arbiter.Coordinator.Stages.{told, completions, derive_candidate_stage_results-IsTimed}

-- What the first completion of a stage says of its outcome.
abbrev pub first_outcome :
    String
    → List (String × Option Json × Option Json × Option String × Option Json)
    → Option (Option Json)
first_outcome stage [] = none
first_outcome stage ((s, outcome, _, _, _) ∷ rest) =
    let later = first_outcome stage rest in if s == stage then some outcome else later

abbrev outcome_in : Option StageResult → Option (Option Json)
outcome_in none = none
outcome_in (some r) = some r.outcome

result_of-first_outcome :
    (results : List StageResult) (stage : String)
    → outcome_in (result_of results stage) ≡ first_outcome stage (map told results)
unfolding result_of
result_of-first_outcome [] stage = refl
result_of-first_outcome (r ∷ rs) stage = ground (arith, result_of-first_outcome rs stage)

outcome_is_iff :
    (found : Option Json) (s : String) → (outcome_is found s ≡ true) ↔ (found ≡ some (text s))
unfolding is_text
outcome_is_iff none s = ground arith
outcome_is_iff (some (text t)) s = ground (arith, eq_iff t s)
outcome_is_iff (some v) s = ground arith

module _ (parse : String → Option ℕ) (requested_stages : List String) (events : List Fields) where
  abbrev results : List StageResult
  results = derive_candidate_stage_results parse events

  -- The boot is requested exactly if emulation is, and the unpack stage has not been completed or
  -- was first completed as "succeeded".
  pub boot_requested_exact : (boot_requested requested_stages results ≡ true) ↔ (
      (member "emulate" requested_stages ≡ true)
      × ((first_outcome "unpack" (completions events) ≡ none)
          ⊎ (first_outcome "unpack" (completions events) ≡ some (some (text "succeeded")))))
  unfolding boot_requested emulation_blocked_by_unpack
  boot_requested_exact =
      let same : outcome_in (result_of results "unpack")
          ≡ first_outcome "unpack" (completions events) =
        result_of-first_outcome results "unpack"
        ∙ ap (first_outcome "unpack") (derive_candidate_stage_results-IsTimed parse events).0 in
      elim (Option-cases (result_of results "unpack")) [
        | inl missing ↦ ground arith
        | inr (r, found) ↦ ground (arith, outcome_is_iff r.outcome "succeeded")
      ]
