-- ===== src/Watchdog/Examples.antt =====
-- Runs of the watchdog at concrete inputs.
use firm_arbiter.Prelude.{
  ℕ, String, ◌≡◌, refl, ◌⊎◌, Bool, true, false, none, some, List, [], ◌∷◌, ◌++◌, arith, ℕ-Eq,
  String-Eq, pair-Eq, Option-Eq, any_of, ok, err,
}
use firm_arbiter.Json.{Fields, end, field, text, integer, get, is_text, says, as_int, ℤ_eq, pos}
use firm_arbiter.Watchdog.{
  returned, Watchdog, failed, sync_event, sync, terminal_step, terminal_from, benchmark_complete,
  experiment_timeout, heartbeat_lost, measurements_completed, no_valid_heartbeat, shut_down_cleanly,
  Poll, Beat, beat, scan, judge, broke, poll_loop,
}
use firm_arbiter.Watchdog.Ending.{
  Ending, graceful_shutdown, completed, Observation, request_stop, shutdown, last_sync, classify,
  observe, conclude, run, wait,
}
use firm_arbiter.Watchdog.Waiting.{
  Wake, first_match, wait_for_matching_event, Ended, wait_for_matching_event-Ended,
}
use firm_arbiter.Watchdog.Sync.{IsSynced, sync-IsSynced}
use firm_arbiter.Watchdog.Triggers.{new_events, judged}
use firm_arbiter.Watchdog.Deadlines.{Drawn, poll_loop-Drawn}
use firm_arbiter.Watchdog.Heartbeats.{is_heartbeat, heartbeat_lost_silent}
use firm_arbiter.Watchdog.Verdict.{run-completed, run_settles}

abbrev pub event : ℕ → String → Fields
event n name = field "sequence" (integer n) (field "event" (text name) end)

abbrev pub stopped_event : Fields
stopped_event =
    field "sequence" (integer 4)
      (field "event" (text "adapter_stopped") (field "outcome" (text "completed") end))

abbrev pub watchdog : Watchdog
watchdog = record {
  experiment_timeout = 100;
  heartbeat_timeout = 10;
  shutdown_grace = 5;
  observed_events = [];
  known_sequences = [];
}

abbrev pub poll : List Fields → ℕ → Bool → Poll
poll events now core = record {
  drained = returned;
  events = events;
  now = now;
  utc_now = "now";
  core_set = λ i. core;
  container_running = true;
}

-- A start and a heartbeat; then the core asks for the end.
abbrev pub first_events : List Fields
first_events = event 1 "adapter_started" ∷ event 2 "heartbeat" ∷ []

abbrev pub polls : List Poll
polls = poll first_events 1 false ∷ poll first_events 5 true ∷ []

abbrev pub ending : Ending
ending = record {
  container_running = true;
  request_shutdown = returned;
  wait_for_exit = returned;
  events_after_wait = event 3 "cleanup_complete" ∷ stopped_event ∷ [];
  force_terminate = returned;
  events_after_force = [];
  last_drain = returned;
  last_events = [];
  exit_code = some (pos 0);
  exit_code_call = returned;
  now = 6;
  utc_now = "end";
  persist = returned;
}

abbrev all_events : List Fields
all_events =
    event 1 "adapter_started"
    ∷ event 2 "heartbeat"
    ∷ event 3 "cleanup_complete"
    ∷ stopped_event
    ∷ []

abbrev pub clean_observation : Observation
clean_observation = record {
  run_outcome = completed;
  trigger = benchmark_complete;
  termination_mode = graceful_shutdown;
  started_at = "start";
  completed_at = "end";
  elapsed = 6;
  experiment_timeout_us = 100;
  heartbeat_timeout_us = 10;
  shutdown_grace_us = 5;
  heartbeats_received = 1;
  last_heartbeat_received_at = some "now";
  shutdown_requested = true;
  cleanup_complete_seen = true;
  adapter_stopped_seen = true;
  final_adapter_outcome = some "completed";
  exit_code = some (pos 0);
  force_termination_used = false;
  reason = shut_down_cleanly;
}

pub clean_run_result : (run 0 "start" watchdog polls ending).result ≡ some clean_observation
unfolding run poll_loop sync sync_event scan beat judge conclude shutdown request_stop last_sync
    classify observe terminal_from terminal_step says get is_text as_int ℤ_eq
clean_run_result = refl

run-completed_example :
    let o = clean_observation in
    let t = run 0 "start" watchdog polls ending in
    (o.trigger ≡ benchmark_complete)
    × (o.termination_mode ≡ graceful_shutdown)
    × (o.shutdown_requested ≡ true)
    × (o.force_termination_used ≡ false)
    × (any_of (λ d. says d "event" "cleanup_complete") t.watchdog.observed_events ≡ true)
    × (any_of (λ d. says d "event" "adapter_stopped") t.watchdog.observed_events ≡ true)
    × (o.final_adapter_outcome ≡ some "completed")
    × (ending.exit_code ≡ some (pos 0))
run-completed_example =
    run-completed 0 "start" watchdog polls ending clean_observation clean_run_result refl

abbrev late : Poll
late = poll first_events 100 false

run_settles_example :
    let t = run 0 "start" watchdog (poll first_events 1 false ∷ late ∷ []) ending in
    (t.finished ≡ true)
    × (((o : Observation) × (wait (some t) ≡ ok o)) ⊎ (wait (some t) ≡ err failed))
run_settles_example =
    run_settles 0 "start" watchdog (poll first_events 1 false ∷ []) late [] ending (omega arith)

abbrev beginning : Beat
beginning = record { heartbeats_received = 0; last_heartbeat = 0; last_received_at = none }

abbrev one_beat : Beat
one_beat = record { heartbeats_received = 1; last_heartbeat = 1; last_received_at = some "now" }

abbrev after_first : Watchdog
after_first = record watchdog {
  observed_events = first_events;
  known_sequences = pos 2 ∷ pos 1 ∷ [];
}

polls_end :
    poll_loop 0 watchdog beginning polls
    ≡ broke after_first one_beat benchmark_complete measurements_completed
unfolding poll_loop sync sync_event scan beat judge says get is_text as_int ℤ_eq
polls_end = refl

poll_loop-Drawn_example : Drawn 0 watchdog beginning polls benchmark_complete
poll_loop-Drawn_example =
    poll_loop-Drawn 0 watchdog beginning polls after_first one_beat benchmark_complete
      measurements_completed polls_end

silent_judged :
    judged 0 after_first (poll first_events 50 false) one_beat
    ≡ some (heartbeat_lost, no_valid_heartbeat)
unfolding judge sync sync_event scan beat says get is_text as_int ℤ_eq
silent_judged = refl

scanned :
    (scan
      (poll first_events 50 false)
      0
      one_beat
      (new_events after_first (poll first_events 50 false))).1
    ≡ false
unfolding sync sync_event scan beat says get is_text as_int ℤ_eq
scanned = refl

heartbeat_lost_silent_example :
    any_of is_heartbeat (new_events after_first (poll first_events 50 false)) ≡ false
heartbeat_lost_silent_example =
    heartbeat_lost_silent 0 after_first (poll first_events 50 false) one_beat no_valid_heartbeat
      (omega arith) scanned silent_judged

watchdog-IsSynced : IsSynced watchdog
watchdog-IsSynced = record { numbered = refl; distinct = tt }

sync-IsSynced_example : IsSynced (sync watchdog (first_events ++ first_events)).0
sync-IsSynced_example = sync-IsSynced watchdog (first_events ++ first_events) watchdog-IsSynced

abbrev wakes : List Wake
wakes =
    record { observed_events = []; finished = false; now = 1 }
    ∷ record { observed_events = first_events; finished = true; now = 2 }
    ∷ []

heartbeat_found : wait_for_matching_event is_heartbeat 10 wakes ≡ some (ok (event 2 "heartbeat"))
unfolding wait_for_matching_event first_match says get is_text
heartbeat_found = refl

wait_for_matching_event-Ended_example : Ended is_heartbeat 10 wakes (ok (event 2 "heartbeat"))
wait_for_matching_event-Ended_example =
    wait_for_matching_event-Ended is_heartbeat 10 wakes (ok (event 2 "heartbeat")) heartbeat_found
