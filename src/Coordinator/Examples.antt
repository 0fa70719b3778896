-- ===== src/Coordinator/Examples.antt =====
-- Runs of the coordinator's parts at concrete inputs.
use firm_arbiter.Prelude.{
  String, ◌≡◌, refl, ◌≢◌, ◌⊎◌, true, false, Option, none, some, List, [], ◌∷◌, ◌++◌, map, ℕ-Eq,
  String-Eq, pair-Eq, Option-Eq, any_of, Result, ok, err,
}
use firm_arbiter.Json.{Json, Fields, end, field, text, get, is_text, says, as_int, pos, ℤ_eq}
use firm_arbiter.Docker.{
  Trace, device_unavailable, run, start_container, container_running, inspect_container, inspected,
  state_of,
}
use firm_arbiter.Docker.Simulation.{host, request, image}
use firm_arbiter.Docker.Requirements.{
  insert, sorted, require_device, requirement_argument, arguments_of, requirement_arguments, dashed,
  strip_left, strip_right, squeeze, safe_container_component,
}
use firm_arbiter.Docker.Sidecar.{
  CreatedContainer, create, create_run_network, create_dind_sidecar, address_in,
  get_container_network_ip, daemon_answers, dind_ready, wait_for_dind_ready, start_sidecar,
  set_up_dind,
}
use firm_arbiter.Docker.Arguments.{network_arguments, create_arguments}
use firm_arbiter.Supervisor.{docker_error, Supervisor, new, World, start}
use firm_arbiter.Watchdog.{
  returned, benchmark_complete, WatchdogError, sync, sync_event, terminal_step, terminal_from, beat,
  scan, judge, poll_loop,
}
use firm_arbiter.Watchdog.Ending.{
  Observation, graceful_shutdown, request_stop, shutdown, last_sync, classify, observe, conclude,
  wait,
}
use firm_arbiter.Watchdog.Ending as Ending
use firm_arbiter.Watchdog.Waiting.{Wake, first_match, wait_for_matching_event}
use firm_arbiter.Watchdog.Examples.{watchdog, polls, ending}
use firm_arbiter.Probes.Boot.{console_evidence, inspect_guest_console, match_patterns, read_blocks}
use firm_arbiter.Probes.Boot as Boot
use firm_arbiter.Probes.Boot.Judging.{
  no_lifecycle, lifecycle_outcome, booted, boot_not_attempted, BootObservation, boot_methods,
  judge_boot, validate_boot_evidence, reason_or,
}
use firm_arbiter.Probes.Boot.Examples.{python, console, observed}
use firm_arbiter.Coordinator.{
  derive_candidate_stage_results, derive_from, candidate_start, completed_stage, text_at,
  stage_result, candidate_stage_blocks_following_work, stage_in, member, result_of,
  emulation_blocked_by_unpack, boot_requested, overall_status,
}
use firm_arbiter.Coordinator.Readiness.{
  completes, readiness_predicate, endpoint_predicate, Readiness, is_none, await_readiness,
  await_endpoints, await_static_analysis, await_stages,
}
use firm_arbiter.Coordinator.Unblocked.{HasSucceeded, await_stages-HasSucceeded}
use firm_arbiter.Coordinator.Blocking.{first_outcome}
use firm_arbiter.Coordinator.Verdict.{overall_status-completed, validate_boot_evidence-unblocked}
use firm_arbiter.Coordinator.Stages.{
  told, completions, IsTimed, derive_candidate_stage_results-IsTimed,
}
use firm_arbiter.Coordinator.Teardown.{close, teardown}
use firm_arbiter.Coordinator.Leaks.{network_commands, sidecar_commands, teardown-trace, start_leaks}

abbrev completion : String → String → String → Fields
completion stage outcome time = field "event" (text "stage_completed") (
    field "stage" (text stage)
      (field "stage_outcome" (text outcome) (field "timestamp" (text time) end)))

-- An unpacking and an emulation without a network.
abbrev events : List Fields
events =
    completion "unpack" "succeeded" "10:00"
    ∷ completion "emulate" "inconclusive" "10:05"
    ∷ completion "endpoint-discovery" "succeeded" "10:06"
    ∷ []

derive_candidate_stage_results-IsTimed_example :
    (map told (derive_candidate_stage_results (λ s. some 0) events) ≡ completions events)
    × IsTimed [] (derive_candidate_stage_results (λ s. some 0) events)
derive_candidate_stage_results-IsTimed_example =
    derive_candidate_stage_results-IsTimed (λ s. some 0) events

abbrev nested : CreatedContainer
nested = record {
  container_id = "candidate";
  container_name = "c";
  image_id = "i";
  sidecar_container_id = some "sidecar";
  network_name = some "network";
}

abbrev supervisor : Supervisor
supervisor = record (new "r" "a") { container = some nested }

teardown-trace_example :
    (ending : Trace) × (teardown host (some supervisor) none []
      ≡ network_commands nested
        ++ (("container" ∷ "rm" ∷ "--force" ∷ "candidate" ∷ [])
            ∷ (ending ++ (sidecar_commands (some "sidecar") ++ close host none []))))
teardown-trace_example = teardown-trace host supervisor nested none [] refl

-- The network and the sidecar of a run whose container needs a device that the host lacks.
abbrev fresh : World
fresh = record { self = new "r" "a"; trace = [] }

abbrev left : Trace
left = (set_up_dind host 1 "run-1" []).0

abbrev sidecar : CreatedContainer
sidecar = record {
  container_id = "id";
  container_name = "firmarbiter-dind-0123456789ab";
  image_id = "docker:dind@sha256:3f3c01aaaebf7cce837356b688b7c059a4749f10bd7660dec7c58fc454a283f0";
  sidecar_container_id = none;
  network_name = none;
}

start_leaks_example :
    (start host 1 (ok (request ("nested-containers" ∷ "kvm" ∷ []))) "/run" image fresh
      ≡ (record fresh { trace = left }, err (docker_error (device_unavailable "/dev/kvm"))))
    × (teardown host (some fresh.self) none left ≡ left)
unfolding create_arguments network_arguments requirement_arguments arguments_of sorted insert
    requirement_argument require_device safe_container_component dashed strip_left strip_right
    squeeze create set_up_dind create_run_network create_dind_sidecar start_sidecar
    wait_for_dind_ready dind_ready daemon_answers get_container_network_ip address_in
    start_container container_running inspect_container inspected state_of run get ℤ_eq
start_leaks_example =
    start_leaks host 1 (request ("nested-containers" ∷ "kvm" ∷ [])) "/run" image fresh left
      ("firmarbiter-dind-net-0123456789ab", sidecar) (device_unavailable "/dev/kvm") refl refl refl
      refl

abbrev stages : List String
stages = "unpack" ∷ "emulate" ∷ "endpoint-discovery" ∷ []

abbrev emulated : Fields
emulated = completion "emulate" "inconclusive" "10:05"

abbrev discovered : Fields
discovered = completion "endpoint-discovery" "succeeded" "10:06"

abbrev wakes : List Wake
wakes = record { observed_events = events; finished = false; now = 1 } ∷ []

abbrev second : Result WatchdogError Fields
second = ok discovered

abbrev readiness : Readiness
readiness = await_stages stages (ok emulated) second (ok emulated)

await_stages-HasSucceeded_example :
    ((event : Fields) × (readiness.observed_event ≡ some event) × HasSucceeded "emulate" event)
    × (member "endpoint-discovery" stages ≡ true
        → is_none readiness.endpoint_wait_error ≡ true
        → (event : Fields) × (second ≡ ok event)
          × (completes "endpoint-discovery" event ≡ true)
          × (says event "stage_outcome" "succeeded" ≡ true))
unfolding await_stages await_readiness await_endpoints await_static_analysis readiness_predicate
    endpoint_predicate wait_for_matching_event first_match candidate_stage_blocks_following_work
    stage_in says get is_text
await_stages-HasSucceeded_example =
    await_stages-HasSucceeded stages (ok emulated) second (ok emulated) 10 10 wakes wakes refl refl
      refl refl refl

abbrev ran : Ending.Thread
ran = Ending.run 0 "start" watchdog polls ending

overall_status-completed_example :
    (false ≡ false)
    × (ending.persist ≡ returned)
    × ((o : Observation) × (wait (some ran) ≡ ok o)
        × (o.trigger ≡ benchmark_complete)
        × (o.termination_mode ≡ graceful_shutdown)
        × (o.shutdown_requested ≡ true)
        × (o.force_termination_used ≡ false)
        × (any_of (λ d. says d "event" "cleanup_complete") ran.watchdog.observed_events ≡ true)
        × (any_of (λ d. says d "event" "adapter_stopped") ran.watchdog.observed_events ≡ true)
        × (o.final_adapter_outcome ≡ some "completed")
        × (ending.exit_code ≡ some (pos 0)))
unfolding overall_status wait Ending.run poll_loop sync sync_event scan beat judge conclude shutdown
    request_stop last_sync classify observe terminal_from terminal_step says get is_text as_int ℤ_eq
overall_status-completed_example =
    overall_status-completed 0 "start" watchdog polls ending false refl

-- A failed unpacking, on a console that shows a boot.
abbrev failed_unpack : List Fields
failed_unpack = completion "unpack" "failed" "10:00" ∷ []

abbrev unattempted : BootObservation
unattempted = record (observed false) {
  status = boot_not_attempted;
  methods = [];
  reason = reason_or (some "blocked");
}

validate_boot_evidence-unblocked_example :
    ((found : Option Json)
      → member "emulate" stages ≡ true
      → first_outcome "unpack" (completions failed_unpack) ≡ some found
      → found ≢ some (text "succeeded")
      → unattempted.status ≡ boot_not_attempted)
    × (unattempted.status ≡ booted
        → (member "emulate" stages ≡ true)
          × ((first_outcome "unpack" (completions failed_unpack) ≡ none)
              ⊎ (first_outcome "unpack" (completions failed_unpack)
                  ≡ some (some (text "succeeded")))))
unfolding validate_boot_evidence inspect_guest_console judge_boot boot_methods console_evidence
    match_patterns Boot.insert read_blocks lifecycle_outcome says get is_text boot_requested
    emulation_blocked_by_unpack result_of derive_candidate_stage_results derive_from candidate_start
    completed_stage text_at stage_result
validate_boot_evidence-unblocked_example =
    validate_boot_evidence-unblocked python "guest-console.log" console stages (λ s. some 0)
      failed_unpack no_lifecycle [] (some "blocked") "now" unattempted refl
