-- ===== src/Watchdog/Ending.antt =====
-- The part of `LifecycleWatchdog._run` behind the loop: the shutdown, the last events, the outcome;
-- and what a caller of `wait` gets.
use firm_arbiter.Prelude.{
  ℕ, ◌-◌, String, Bool, true, false, not, ◌&&◌, Option, none, some, List, if◌then◌else◌, ◌==◌, ℕ-Eq,
  String-Eq, Result, ok, err,
}
use firm_arbiter.Json.{Fields, ℤ, ℤ-Eq, pos}
use firm_arbiter.Watchdog.{
  Failure, docker_supervisor_error, other_error, Call, returned, raised, Watchdog, WatchdogError,
  not_started, wait_timed_out, failed, no_observation, sync, Terminal, terminal_event_state,
  Trigger, contract_error, unexpected_exit, benchmark_complete, experiment_timeout, heartbeat_lost,
  Reason, shut_down_cleanly, no_graceful_shutdown, Beat, Poll, polling, broke, failed_with,
  poll_loop,
}

-- What the calls behind the loop return, in their order. The two `container_running` and event
-- readings that a path does not make are not looked at. A reading of the container does not raise.
pub record Ending : Type 0 where
  pub container_running : Bool
  pub request_shutdown : Call
  pub wait_for_exit : Call
  pub events_after_wait : List Fields
  pub force_terminate : Call
  pub events_after_force : List Fields
  pub last_drain : Call
  pub last_events : List Fields
  pub exit_code : Option ℤ
  pub exit_code_call : Call
  pub now : ℕ
  pub utc_now : String
  pub persist : Call

pub data Mode : Type 0 where
  already_exited graceful_shutdown incomplete_shutdown forced_termination : Mode

pub data Outcome : Type 0 where
  completed shutdown_failed unexpected_early_exit lost_heartbeat timed_out broken_contract : Outcome

pub record Observation : Type 0 where
  pub run_outcome : Outcome
  pub trigger : Trigger
  pub termination_mode : Mode
  pub started_at : String
  pub completed_at : String
  pub elapsed : ℕ
  pub experiment_timeout_us : ℕ
  pub heartbeat_timeout_us : ℕ
  pub shutdown_grace_us : ℕ
  pub heartbeats_received : ℕ
  pub last_heartbeat_received_at : Option String
  pub shutdown_requested : Bool
  pub cleanup_complete_seen : Bool
  pub adapter_stopped_seen : Bool
  pub final_adapter_outcome : Option String
  pub exit_code : Option ℤ
  pub force_termination_used : Bool
  pub reason : Reason

-- The variables that the shutdown sets.
pub record Stop : Type 0 where
  pub mode : Mode
  pub shutdown_requested : Bool
  pub force_termination_used : Bool

abbrev pub is_unexpected : Trigger → Bool
is_unexpected unexpected_exit = true
is_unexpected _ = false

-- `except DockerSupervisorError`
unfoldable pub force : Watchdog → Ending → Watchdog × Result Failure Stop
force w e = elim e.force_terminate [
  | raised f ↦ (w, err f)
  | returned ↦ (
    (sync w e.events_after_force).0,
    ok (record {
      mode = forced_termination;
      shutdown_requested = true;
      force_termination_used = true;
    }),
  )
]

-- From `request_shutdown` on.
unfoldable pub request_stop : Watchdog → Ending → Watchdog × Result Failure Stop
unfolding force
request_stop w e = elim e.request_shutdown [
  | raised f ↦ (w, err f)
  | returned ↦ elim e.wait_for_exit [
    | returned ↦
        let w' = (sync w e.events_after_wait).0 in
        let t = terminal_event_state w' in
        (
          w',
          ok (record {
            mode =
                if t.cleanup_seen && t.stopped_seen then graceful_shutdown else incomplete_shutdown;
            shutdown_requested = true;
            force_termination_used = false;
          }),
        )
    | raised docker_supervisor_error ↦ force w e
    | raised f ↦ (w, err f)
  ]
]

unfoldable pub shutdown : Watchdog → Trigger → Ending → Watchdog × Result Failure Stop
unfolding request_stop
shutdown w trigger e =
    if is_unexpected trigger && not e.container_running
    then (
      w,
      ok (record {
        mode = already_exited;
        shutdown_requested = false;
        force_termination_used = false;
      }),
    )
    else request_stop w e

-- The second `_drain_and_sync`: two of the exceptions are swallowed.
unfoldable pub last_sync : Watchdog → Ending → Watchdog × Result Failure (Unit {0})
last_sync w e = elim e.last_drain [
  | returned ↦ ((sync w e.last_events).0, ok tt)
  | raised other_error ↦ (w, err other_error)
  | raised _ ↦ (w, ok tt)
]

abbrev pub says_completed : Option String → Bool
says_completed none = false
says_completed (some outcome) = outcome == "completed"

abbrev pub is_zero : Option ℤ → Bool
is_zero none = false
is_zero (some code) = code == pos 0

abbrev pub is_graceful : Mode → Bool
is_graceful graceful_shutdown = true
is_graceful _ = false

-- The `if`/`elif` over the trigger.
unfoldable pub classify : Trigger → Reason → Mode → Terminal → Option ℤ → Outcome × Reason
classify benchmark_complete reason mode t exit_code =
    if is_graceful mode
      && t.cleanup_seen
      && t.stopped_seen
      && says_completed t.final_outcome
      && is_zero exit_code
    then (completed, shut_down_cleanly)
    else (shutdown_failed, no_graceful_shutdown)
classify unexpected_exit reason mode t exit_code = (unexpected_early_exit, reason)
classify heartbeat_lost reason mode t exit_code = (lost_heartbeat, reason)
classify experiment_timeout reason mode t exit_code = (timed_out, reason)
classify contract_error reason mode t exit_code = (broken_contract, reason)

-- The observation that is built at the end.
unfoldable pub observe :
    Watchdog → ℕ → String → Beat → Trigger → Reason → Stop → Ending → Observation
observe w started started_at b trigger reason s e =
    let t = terminal_event_state w in
    let (outcome, why) = classify trigger reason s.mode t e.exit_code in
    record {
      run_outcome = outcome;
      trigger = trigger;
      termination_mode = s.mode;
      started_at = started_at;
      completed_at = e.utc_now;
      elapsed = e.now - started;
      experiment_timeout_us = w.experiment_timeout;
      heartbeat_timeout_us = w.heartbeat_timeout;
      shutdown_grace_us = w.shutdown_grace;
      heartbeats_received = b.heartbeats_received;
      last_heartbeat_received_at = b.last_received_at;
      shutdown_requested = s.shutdown_requested;
      cleanup_complete_seen = t.cleanup_seen;
      adapter_stopped_seen = t.stopped_seen;
      final_adapter_outcome = t.final_outcome;
      exit_code = e.exit_code;
      force_termination_used = s.force_termination_used;
      reason = why;
    }

-- The attributes that the thread leaves: `_result` is set before the result is persisted.
pub record Thread : Type 0 where
  pub watchdog : Watchdog
  pub finished : Bool
  pub result : Option Observation
  pub thread_error : Option Failure

abbrev stopped : Watchdog → Failure → Thread
stopped w f = record { watchdog = w; finished = true; result = none; thread_error = some f }

unfoldable pub conclude : ℕ → String → Watchdog → Beat → Trigger → Reason → Ending → Thread
conclude started started_at w b trigger reason e =
    let (w', stop) = shutdown w trigger e in
    elim stop [
      | err f ↦ stopped w' f
      | ok s ↦
          let (w'', drained) = last_sync w' e in
          elim drained [
            | err f ↦ stopped w'' f
            | ok _ ↦ elim e.exit_code_call [
              | raised f ↦ stopped w'' f
              | returned ↦ record {
                watchdog = w'';
                finished = true;
                result = some (observe w'' started started_at b trigger reason s e);
                thread_error = elim e.persist [ returned ↦ none | raised f ↦ some f ];
              }
            ]
          ]
    ]

-- `_run`
unfoldable pub run : ℕ → String → Watchdog → List Poll → Ending → Thread
run started started_at w polls e =
    let begin : Beat = record {
      heartbeats_received = 0;
      last_heartbeat = started;
      last_received_at = none;
    } in
    elim (poll_loop started w begin polls) [
      | polling w' _ ↦ record {
        watchdog = w';
        finished = false;
        result = none;
        thread_error = none;
      }
      | broke w' b trigger reason ↦ conclude started started_at w' b trigger reason e
      | failed_with w' f ↦ stopped w' f
    ]

-- `wait`, on the thread as it is when the wait ends; `none` if `start` was not called.
unfoldable pub wait : Option Thread → Result WatchdogError Observation
wait none = err not_started
wait (some t) = if not t.finished then err wait_timed_out else elim t.thread_error [
  | some _ ↦ err failed
  | none ↦ elim t.result [ none ↦ err no_observation | some o ↦ ok o ]
]
