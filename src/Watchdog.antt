-- ===== src/Watchdog.antt =====
-- `LifecycleWatchdog` of firmarbiter_core/lifecycle_watchdog.py. What the supervised container, the
-- clock and the core's thread do is given as readings: one `Poll` for each round of the loop, and
-- one `Ending` for the calls behind it. Times are monotonic clock readings in microseconds.
pub mod Ending
pub mod Waiting
pub mod Deadlines
pub mod Heartbeats
pub mod Sync
pub mod Triggers
mod Concluding
pub mod Verdict
pub mod Examples
use firm_arbiter.Prelude.{
  ℕ, ◌+◌, ◌-◌, String, Bool, true, false, not, ◌&&◌, Option, none, some, List, [], ◌∷◌, ◌++◌, leb,
  if◌then◌else◌, ◌==◌, ℕ-Eq, String-Eq, length, any_of, Result, ok, err,
}
use firm_arbiter.Json.{Fields, ℤ, ℤ-Eq, text, get, as_int, says}

-- The exceptions that a call of the supervisor may raise.
pub data Failure : Type 0 where
  event_protocol_error docker_supervisor_error other_error : Failure

pub data Call : Type 0 where
  returned : Call
  raised : Failure → Call

pub data WatchdogError : Type 0 where
  bad_poll_interval already_started not_started wait_timed_out failed no_observation : WatchdogError
  lifecycle_ended event_timed_out : WatchdogError

pub record Watchdog : Type 0 where
  pub experiment_timeout : ℕ
  pub heartbeat_timeout : ℕ
  pub shutdown_grace : ℕ
  pub observed_events : List Fields
  pub known_sequences : List ℤ

-- `__init__`
unfoldable pub new : ℕ → ℕ → ℕ → ℕ → Result WatchdogError Watchdog
new poll_interval timeout heartbeat grace =
    if leb poll_interval 0
    then err bad_poll_interval
    else ok (record {
      experiment_timeout = timeout;
      heartbeat_timeout = heartbeat;
      shutdown_grace = grace;
      observed_events = [];
      known_sequences = [];
    })

-- `sequence in self._known_sequences`
abbrev pub known : ℤ → List ℤ → Bool
known k = any_of (λ j. j == k)

-- The body of the loop of `_sync_supervisor_events`.
unfoldable pub sync_event : Watchdog → Fields → Watchdog × Bool
sync_event w event = elim (get event "sequence") [
  | none ↦ (w, false)
  | some sequence ↦ elim (as_int sequence) [
    | none ↦ (w, false)
    | some k ↦ if known k w.known_sequences then (w, false) else (
      record w {
        observed_events = w.observed_events ++ event ∷ [];
        known_sequences = k ∷ w.known_sequences;
      },
      true,
    )
  ]
]

-- `_sync_supervisor_events`: the newly observed events.
unfoldable pub sync : Watchdog → List Fields → Watchdog × List Fields
sync w [] = (w, [])
sync w (event ∷ events) =
    let (w', is_new) = sync_event w event in
    let (w'', newly) = sync w' events in (w'', if is_new then event ∷ newly else newly)

-- `_terminal_event_state`
pub record Terminal : Type 0 where
  pub cleanup_seen : Bool
  pub stopped_seen : Bool
  pub final_outcome : Option String

unfoldable pub terminal_step : Terminal → Fields → Terminal
terminal_step s event =
    let t : Terminal =
      if says event "event" "cleanup_complete" then record s { cleanup_seen = true } else s in
    if says event "event" "adapter_stopped"
    then elim (get event "outcome") [
      | some (text outcome) ↦ record t { stopped_seen = true; final_outcome = some outcome }
      | _ ↦ record t { stopped_seen = true }
    ]
    else t

unfoldable pub terminal_from : Terminal → List Fields → Terminal
terminal_from s [] = s
terminal_from s (event ∷ events) = terminal_from (terminal_step s event) events

abbrev pub terminal_event_state : Watchdog → Terminal
terminal_event_state w =
    terminal_from (record { cleanup_seen = false; stopped_seen = false; final_outcome = none })
      w.observed_events

pub data Trigger : Type 0 where
  contract_error unexpected_exit benchmark_complete experiment_timeout heartbeat_lost : Trigger

-- The texts of `trigger_reason` and `reason`.
pub data Reason : Type 0 where
  not_initialised stopped_before_request measurements_completed container_exited : Reason
  timeout_reached no_valid_heartbeat shut_down_cleanly no_graceful_shutdown : Reason

-- One round of the loop: what `drain_events` did, the supervisor's events after it, the clock, the
-- core's shutdown flag as each newly observed event is looked at and after the last, and whether
-- the container runs. That reading of the container is one that does not raise.
pub record Poll : Type 0 where
  pub drained : Call
  pub events : List Fields
  pub now : ℕ
  pub utc_now : String
  pub core_set : ℕ → Bool
  pub container_running : Bool

pub record Beat : Type 0 where
  pub heartbeats_received : ℕ
  pub last_heartbeat : ℕ
  pub last_received_at : Option String

-- `if event_name == "heartbeat": ...`
unfoldable pub beat : Poll → Beat → Fields → Beat
beat p b event =
    if says event "event" "heartbeat"
    then record {
      heartbeats_received = b.heartbeats_received + 1;
      last_heartbeat = p.now;
      last_received_at = some p.utc_now;
    }
    else b

-- The loop over the newly observed events; `true` if it breaks with `unexpected_exit`.
unfoldable pub scan : Poll → ℕ → Beat → List Fields → Beat × Bool
scan p i b [] = (b, false)
scan p i b (event ∷ events) =
    let rest = scan p (i + 1) (beat p b event) events in
    if says event "event" "adapter_stopped" && not (p.core_set i)
    then (beat p b event, true)
    else rest

-- The tests behind that loop, in order; `none` sleeps and goes on.
unfoldable pub judge : Watchdog → ℕ → Poll → ℕ → Beat → Option (Trigger × Reason)
judge w started p seen b =
    if p.core_set seen
    then some (benchmark_complete, measurements_completed)
    else if not p.container_running
    then some (unexpected_exit, container_exited)
    else if leb w.experiment_timeout (p.now - started)
    then some (experiment_timeout, timeout_reached)
    else if leb w.heartbeat_timeout (p.now - b.last_heartbeat)
    then some (heartbeat_lost, no_valid_heartbeat)
    else none

pub data LoopEnd : Type 0 where
  polling : Watchdog → Beat → LoopEnd
  broke : Watchdog → Beat → Trigger → Reason → LoopEnd
  failed_with : Watchdog → Failure → LoopEnd

-- The `while True` of `_run`, over the rounds that happen.
unfoldable pub poll_loop : ℕ → Watchdog → Beat → List Poll → LoopEnd
poll_loop started w b [] = polling w b
poll_loop started w b (p ∷ ps) = elim p.drained [
  | raised f ↦ failed_with w f
  | returned ↦
      let (w', newly) = sync w p.events in
      let (b', stopped) = scan p 0 b newly in
      let rest = poll_loop started w' b' ps in
      elim stopped [
        | true ↦ broke w' b' unexpected_exit stopped_before_request
        | false ↦ elim (judge w' started p (length newly) b') [
          | some (t, r) ↦ broke w' b' t r
          | none ↦ rest
        ]
      ]
]
