-- ===== src/Coordinator.antt =====
-- firmarbiter_core/run_coordinator.py: the policy of a run, what the candidate's stage events mean,
-- and the status that the run gets.
pub mod Stages
pub mod Readiness
pub mod Unblocked
pub mod Teardown
pub mod Blocking
pub mod Verdict
pub mod Leaks
mod Examples
use firm_arbiter.Prelude.{
  ℕ, ◌-◌, String, Bool, true, false, not, ◌&&◌, ◌||◌, Option, none, some, List, [], ◌∷◌, ◌++◌, ltb,
  leb, if◌then◌else◌, ℕ-Eq, String-Eq, ◌==◌, pair-Eq, Option-Eq, any_of, Result, ◌>>=◌, ◌>>◌,
  raise_if,
}
use firm_arbiter.Json.{Json, Fields, text, get, is_text, says}
use firm_arbiter.Watchdog.Ending.{Outcome, Observation}

-- `RunPolicy`; the floats count in millionths.
pub record RunPolicy : Type 0 where
  pub experiment_id : String
  pub attempt : ℕ
  pub requested_stages : List String
  pub timeout_seconds : ℕ
  pub heartbeat_interval_seconds : ℕ
  pub heartbeat_timeout_seconds : ℕ
  pub shutdown_grace_seconds : ℕ
  pub boot_wait_timeout : ℕ
  pub cpu_cores : ℕ
  pub memory_bytes : ℕ
  pub pids_limit : ℕ
  pub endpoint_wait_timeout : ℕ
  pub stability_sample_count : ℕ
  pub stability_interval : ℕ
  pub stability_probe_timeout : ℕ
  pub compute_sample_interval : ℕ

pub data PolicyError : Type 0 where
  no_experiment no_attempt no_stages bad_timeout bad_heartbeat_interval : PolicyError
  bad_heartbeat_timeout bad_shutdown_grace bad_boot_wait bad_cpu_cores bad_memory : PolicyError
  bad_pids_limit bad_endpoint_wait bad_sample_count bad_probe_timeout : PolicyError
  bad_sample_interval : PolicyError

abbrev pub is_empty {ℓ} : {A : Type ℓ} → List A → Bool
is_empty [] = true
is_empty (x ∷ xs) = false

-- `__post_init__`, on numbers that are not negative.
unfoldable pub check_policy : RunPolicy → Result PolicyError (Unit {0})
check_policy p = do
  raise_if (p.experiment_id == "") no_experiment
  raise_if (ltb p.attempt 1) no_attempt
  raise_if (is_empty p.requested_stages) no_stages
  raise_if (ltb p.timeout_seconds 1) bad_timeout
  raise_if (ltb p.heartbeat_interval_seconds 1) bad_heartbeat_interval
  raise_if (leb p.heartbeat_timeout_seconds p.heartbeat_interval_seconds) bad_heartbeat_timeout
  raise_if (ltb p.shutdown_grace_seconds 1) bad_shutdown_grace
  raise_if (leb p.boot_wait_timeout 0) bad_boot_wait
  raise_if (leb p.cpu_cores 0) bad_cpu_cores
  raise_if (ltb p.memory_bytes 1048576) bad_memory
  raise_if (ltb p.pids_limit 1) bad_pids_limit
  raise_if (leb p.endpoint_wait_timeout 0) bad_endpoint_wait
  raise_if (ltb p.stability_sample_count 1) bad_sample_count
  raise_if (leb p.stability_probe_timeout 0) bad_probe_timeout
  raise_if (leb p.compute_sample_interval 0) bad_sample_interval

-- `stage in stages`
abbrev pub member : String → List String → Bool
member stage = any_of (λ s. s == stage)

-- `event.get("stage") in stages`
unfoldable pub stage_in : Fields → List String → Bool
stage_in event stages = elim (get event "stage") [ some (text s) ↦ member s stages | _ ↦ false ]

-- `candidate_stage_blocks_following_work`
unfoldable pub candidate_stage_blocks_following_work : Fields → List String → Bool
unfolding stage_in
candidate_stage_blocks_following_work event stages =
    if not (says event "event" "stage_completed") || not (stage_in event stages)
    then false
    else if says event "stage" "emulate" && says event "stage_outcome" "inconclusive"
    then false
    else not (says event "stage_outcome" "succeeded")

-- `isinstance(value, str)` of `event.get(key)`
unfoldable pub text_at : Fields → String → Option String
text_at event key = elim (get event key) [ some (text s) ↦ some s | _ ↦ none ]

pub record StageResult : Type 0 where
  pub stage : String
  pub outcome : Option Json
  pub message : Option Json
  pub started_at : Option String
  pub completed_at : Option String
  pub elapsed : Option ℕ
  pub event_sequence : Option Json

-- `starts`, a dictionary.
abbrev pub Starts : Type 0
Starts = List (String × String)

unfoldable pub start_at : Starts → String → Option String
start_at [] stage = none
start_at ((s, time) ∷ starts) stage =
    let rest = start_at starts stage in if s == stage then some time else rest

-- `starts.setdefault(stage, time)`
unfoldable pub set_default : String → String → Starts → Starts
unfolding start_at
set_default stage time starts = elim (start_at starts stage) [
  | some _ ↦ starts
  | none ↦ starts ++ (stage, time) ∷ []
]

-- `elapsed_seconds` in microseconds; `parse` is `_parse_event_timestamp` of a text, as a time.
unfoldable pub elapsed_between : (String → Option ℕ) → Option String → Option String → Option ℕ
elapsed_between parse (some started) (some completed) = elim (parse started) [
  | none ↦ none
  | some s ↦ elim (parse completed) [ none ↦ none | some c ↦ some (c - s) ]
]
elapsed_between parse _ _ = none

-- `outcome == "..."`
abbrev pub outcome_is : Option Json → String → Bool
outcome_is none s = false
outcome_is (some v) s = is_text v s

-- What a completed stage adds to `starts`.
unfoldable pub starts_after : StageResult → Starts → Starts
unfolding set_default
starts_after r starts = elim r.completed_at [
  | none ↦ starts
  | some time ↦
      if r.stage == "unpack" && outcome_is r.outcome "succeeded"
      then set_default "emulate" time starts
      else if r.stage == "emulate"
          && (outcome_is r.outcome "succeeded" || outcome_is r.outcome "inconclusive")
      then set_default "endpoint-discovery" time starts
      else starts
]

unfoldable pub stage_result : (String → Option ℕ) → Starts → Fields → String → StageResult
unfolding elapsed_between text_at start_at
stage_result parse starts event stage =
    let completed_at = text_at event "timestamp" in
    record {
      stage = stage;
      outcome = get event "stage_outcome";
      message = get event "message";
      started_at = start_at starts stage;
      completed_at = completed_at;
      elapsed = elapsed_between parse (start_at starts stage) completed_at;
      event_sequence = get event "sequence";
    }

-- The time of a `candidate_started`, and the stage of a `stage_completed`.
unfoldable pub candidate_start : Fields → Option String
unfolding text_at
candidate_start event =
    if says event "event" "candidate_started" then text_at event "timestamp" else none

unfoldable pub completed_stage : Fields → Option String
unfolding text_at
completed_stage event = if says event "event" "stage_completed" then text_at event "stage" else none

-- The loop of `derive_candidate_stage_results`.
unfoldable pub derive_from : (String → Option ℕ) → Starts → List Fields → List StageResult
unfolding stage_result starts_after candidate_start completed_stage
derive_from parse starts [] = []
derive_from parse starts (event ∷ events) = elim (candidate_start event) [
  | some time ↦ derive_from parse (set_default "unpack" time starts) events
  | none ↦ elim (completed_stage event) [
    | none ↦ derive_from parse starts events
    | some stage ↦
        let r = stage_result parse starts event stage in
        r ∷ derive_from parse (starts_after r starts) events
  ]
]

-- `derive_candidate_stage_results`
unfoldable pub derive_candidate_stage_results : (String → Option ℕ) → List Fields → List StageResult
unfolding derive_from
derive_candidate_stage_results parse = derive_from parse []

-- `_stage_result`: the first of a stage.
unfoldable pub result_of : List StageResult → String → Option StageResult
result_of [] stage = none
result_of (r ∷ rs) stage =
    let rest = result_of rs stage in if r.stage == stage then some r else rest

-- `emulation_blocked_by_unpack`
unfoldable pub emulation_blocked_by_unpack : List String → List StageResult → Bool
unfolding result_of
emulation_blocked_by_unpack requested_stages results =
    member "emulate" requested_stages && elim (result_of results "unpack") [
      | none ↦ false
      | some r ↦ not (outcome_is r.outcome "succeeded")
    ]

-- `requested`, as the coordinator passes it to the boot validation.
unfoldable pub boot_requested : List String → List StageResult → Bool
boot_requested requested_stages results =
    member "emulate" requested_stages && not (emulation_blocked_by_unpack requested_stages results)

-- `candidate_claims`
abbrev pub is_claim : Fields → Bool
is_claim event =
    says event "event" "extraction_complete"
    || says event "event" "candidate_boot_reported"
    || says event "event" "endpoint_reported"

unfoldable pub candidate_claims : List Fields → List Fields
candidate_claims [] = []
candidate_claims (event ∷ events) =
    let rest = candidate_claims events in if is_claim event then event ∷ rest else rest

pub data OverallStatus : Type 0 where
  orchestration_error run_incomplete : OverallStatus
  lifecycle : Outcome → OverallStatus

-- `overall_status`, on whether there is a runtime error, and the lifecycle's observation.
unfoldable pub overall_status : Bool → Option Observation → OverallStatus
overall_status true observation = orchestration_error
overall_status false none = run_incomplete
overall_status false (some o) = lifecycle o.run_outcome
