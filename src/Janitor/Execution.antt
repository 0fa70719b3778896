-- ===== src/Janitor/Execution.antt =====
-- `EnvironmentJanitor.execute` of firmarbiter_core/environment_janitor.py: a plan against a container
-- backend.
use firm_arbiter.Prelude.{
  ℕ, ◌+◌, String, Bool, true, false, not, ◌||◌, Option, none, some, List, [], ◌∷◌, ltb,
  if◌then◌else◌, ℕ-Eq, String-Eq, pair-Eq, Option-Eq, length, count_of, Result, ok, err,
}
use firm_arbiter.Json.{Json, Fields, object, end, field, text, get, is_text}
use firm_arbiter.Janitor.{
  ResourceType, ActionKind, Reason, RemediationAction, RemediationPlan, container_is_owned, Texts,
  docker_container, remove, preserve, no_executor, no_longer_existed, identity_changed,
  labels_do_not_match, removed_after_revalidation, removal_failed,
}

-- An exception's type name and text.
pub record Exception : Type 0 where
  pub type_name : String
  pub message : String

-- What the backend answers at each step of the plan. Both calls may raise.
pub record JanitorBackend : Type 0 where
  pub inspect_container : ℕ → String → Result Exception Fields
  pub remove_container : ℕ → String → Option Exception

pub data ResultStatus : Type 0 where
  removed preserved missing failed : ResultStatus

pub record RemediationActionResult : Type 0 where
  pub resource_type : ResourceType
  pub resource_identity : String
  pub action : ActionKind
  pub status : ResultStatus
  pub reason : Reason
  pub error : Option Exception

-- `inspection.get("Id") == container_id`
unfoldable pub is_same : Fields → String → Bool
is_same inspection container_id = elim (get inspection "Id") [
  | none ↦ false
  | some v ↦ is_text v container_id
]

abbrev pub container_result :
    String → ResultStatus → Reason → Option Exception → RemediationActionResult
container_result container_id status reason error = record {
  resource_type = docker_container;
  resource_identity = container_id;
  action = remove;
  status = status;
  reason = reason;
  error = error;
}

abbrev pub is_preserve : ActionKind → Bool
is_preserve preserve = true
is_preserve remove = false

abbrev pub is_container : ResourceType → Bool
is_container docker_container = true
is_container _ = false

abbrev pub kept : RemediationAction → Reason → RemediationActionResult
kept action reason = record {
  resource_type = action.resource_type;
  resource_identity = action.resource_identity;
  action = action.action;
  status = preserved;
  reason = reason;
  error = none;
}

-- `value if isinstance(value, dict) else {}`
abbrev pub as_dict : Option Json → Fields
as_dict (some (object d)) = d
as_dict _ = end

module _ (texts : Texts) where
  -- `str(value)`
  unfoldable pub text_of : Json → String
  text_of (text t) = t
  text_of v = texts.value v

  unfoldable pub normalised_labels : Fields → List (String × String)
  unfolding text_of
  normalised_labels end = []
  normalised_labels (field key value rest) = (key, text_of value) ∷ normalised_labels rest

  unfoldable pub labels_of : Fields → List (String × String)
  labels_of inspection =
      normalised_labels (as_dict (get (as_dict (get inspection "Config")) "Labels"))

  -- The part of the loop from the inspection on; the second part is the call of
  -- `remove_container`, if it is made.
  unfoldable pub remediate_container :
      JanitorBackend → String → ℕ → String → RemediationActionResult × Option String
  remediate_container backend run_id step container_id =
      elim (backend.inspect_container step container_id) [
        | err e ↦ (container_result container_id missing no_longer_existed (some e), none)
        | ok inspection ↦
            if not (is_same inspection container_id)
            then (container_result container_id preserved identity_changed none, none)
            else if not (container_is_owned (labels_of inspection) run_id)
            then (container_result container_id preserved labels_do_not_match none, none)
            else elim (backend.remove_container step container_id) [
              | none ↦ (
                container_result container_id removed removed_after_revalidation none,
                some container_id,
              )
              | some e ↦
                  (container_result container_id failed removal_failed (some e), some container_id)
            ]
      ]

  -- The body of the loop of `execute`.
  unfoldable pub execute_action :
      JanitorBackend → String → ℕ → RemediationAction → RemediationActionResult × Option String
  execute_action backend run_id step action =
      if not action.authorised || is_preserve action.action
      then (kept action action.reason, none)
      else if not (is_container action.resource_type) || is_preserve action.action
      then (kept action no_executor, none)
      else remediate_container backend run_id step action.resource_identity

  -- The loop of `execute`: the results, and the calls of `remove_container` with their steps.
  unfoldable pub execute_actions :
      JanitorBackend
      → String
      → ℕ
      → List RemediationAction
      → List RemediationActionResult × List (ℕ × String)
  execute_actions backend run_id step [] = ([], [])
  execute_actions backend run_id step (action ∷ actions) =
      let (result, call) = execute_action backend run_id step action in
      let (results, calls) = execute_actions backend run_id (step + 1) actions in
      (
        result ∷ results,
        elim call [ none ↦ calls | some container_id ↦ (step, container_id) ∷ calls ],
      )

pub data Verdict : Type 0 where
  partial_failure manual_review_required remediated already_clean no_action_required : Verdict

-- `metric` is a constant, and `reason` is the text that goes with the status.
pub record RemediationObservation : Type 0 where
  pub run_id : String
  pub status : Verdict
  pub started_at : String
  pub completed_at : String
  pub attempted_actions : ℕ
  pub removed_resources : ℕ
  pub preserved_resources : ℕ
  pub missing_resources : ℕ
  pub failed_actions : ℕ
  pub results : List RemediationActionResult

abbrev pub is_status : ResultStatus → RemediationActionResult → Bool
is_status removed r = elim r.status [ removed ↦ true | _ ↦ false ]
is_status preserved r = elim r.status [ preserved ↦ true | _ ↦ false ]
is_status missing r = elim r.status [ missing ↦ true | _ ↦ false ]
is_status failed r = elim r.status [ failed ↦ true | _ ↦ false ]

unfoldable pub verdict : ℕ → ℕ → ℕ → ℕ → Verdict
verdict removed_count preserved_count missing_count failed_count =
    if ltb 0 failed_count
    then partial_failure
    else if ltb 0 preserved_count
    then manual_review_required
    else if ltb 0 removed_count
    then remediated
    else if ltb 0 missing_count
    then already_clean
    else no_action_required

-- `EnvironmentJanitor.execute`, with the calls of `remove_container`. The observation is written to
-- the artifacts, which changes no answer.
unfoldable pub execute :
    Texts
    → JanitorBackend
    → RemediationPlan
    → String
    → String
    → RemediationObservation × List (ℕ × String)
execute texts backend plan started_at completed_at =
    let (results, calls) = execute_actions texts backend plan.run_id 0 plan.actions in
    let n_removed = count_of (is_status removed) results in
    let n_preserved = count_of (is_status preserved) results in
    let n_missing = count_of (is_status missing) results in
    let n_failed = count_of (is_status failed) results in
    (
      record {
        run_id = plan.run_id;
        status = verdict n_removed n_preserved n_missing n_failed;
        started_at = started_at;
        completed_at = completed_at;
        attempted_actions = length results;
        removed_resources = n_removed;
        preserved_resources = n_preserved;
        missing_resources = n_missing;
        failed_actions = n_failed;
        results = results;
      },
      calls,
    )
