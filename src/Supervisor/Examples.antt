-- ===== src/Supervisor/Examples.antt =====
-- Runs of the supervisor at concrete inputs.
use firm_arbiter.Prelude.{
  ℕ, String, ◌≡◌, refl, ◌≢◌, ◌⊎◌, true, none, some, List, [], ◌∷◌, if◌then◌else◌, ℕ-Eq, String-Eq,
  ◌==◌, pair-Eq, Option-Eq, ok, err,
}
use firm_arbiter.Json.{Json, end, field, text, integer, object, get, has, is_text, is_number, ℤ_eq}
use firm_arbiter.EventStream.{
  Codec, EventError, init, item, checks, start_order, misplaced_field, validate_document, readline,
  ends_with_newline, parse_line, take_line, read_loop, read_new,
}
use firm_arbiter.EventStream.Protocol.{waiting, phase, Follows}
use firm_arbiter.Docker.{
  timed_out, command_timed_out, Host, stop_command, kill_command, logs_command, run, container_logs,
  stop_container, kill_container, inspect_container, inspected, state_of,
}
use firm_arbiter.Docker as Docker
use firm_arbiter.Docker.Simulation.{second, host, answer}
use firm_arbiter.Docker.Sidecar.{CreatedContainer}
use firm_arbiter.Supervisor.{
  protocol_error, docker_error, new, World, container_running, save_logs, force_terminate,
  drain_events,
}
use firm_arbiter.Supervisor.Draining.{drain_growing, grown, drain_growing-refines}
use firm_arbiter.Supervisor.Failing.{Terminated, after_read, drain_events_raises}
use firm_arbiter.Supervisor.Stopping.{tested, force_terminate-trace}
use firm_arbiter.Supervisor.Interrupting.{Interrupted, force_terminate-Interrupted}

abbrev document : String → ℕ → Json
document name n = object (
    field "run_id" (text "r") (
      field "adapter_id" (text "a") (field "sequence" (integer n) (field "event" (text name) end))))

-- A line with one byte is a start, one with two bytes another event.
abbrev codec : Codec
codec = record {
  decode = λ line. elim line [
    | [] ↦ none
    | b ∷ bs ↦ elim bs [ [] ↦ none | c ∷ cs ↦ elim cs [ [] ↦ some "start" | _ ↦ some "beat" ] ]
  ];
  loads = λ s.
      if s == "start" then some (document "adapter_started" 1) else some (document "heartbeat" 2);
  accepts = λ doc. true;
}

abbrev container : CreatedContainer
container = record {
  container_id = "id";
  container_name = "c";
  image_id = "i";
  sidecar_container_id = none;
  network_name = none;
}

abbrev fresh : World
fresh = record { self = new "r" "a"; trace = [] }

abbrev running : World
running = record fresh { self = record (new "r" "a") { container = some container } }

-- A line in two pieces, and another line.
abbrev pieces : List (List ℕ)
pieces = (1 ∷ []) ∷ (10 ∷ []) ∷ (1 ∷ 2 ∷ 10 ∷ []) ∷ []

abbrev drained : World
drained = (drain_growing host codec [] pieces fresh).0

drain_growing-refines_example :
    (read_new codec (init "r" "a") (some (grown host codec [] pieces))
      ≡ (drained.self.stream, ok drained.self.events))
    × Follows codec "r" "a" waiting 1 drained.self.events
        (phase drained.self.stream)
        drained.self.stream.next_sequence
unfolding drain_events read_new read_loop readline ends_with_newline take_line parse_line
    validate_document checks item start_order misplaced_field get has is_text is_number
drain_growing-refines_example =
    drain_growing-refines host codec "r" "a" pieces fresh drained refl refl refl

abbrev terminated : World
terminated = (force_terminate host running).0

force_terminate-trace_example :
    let stopped = tested host "id" (stop_command "id") [] in
    let killed = tested host "id" (kill_command "id") stopped in
    (terminated.trace ≡ logs_command "id" ∷ killed)
    × (terminated.self.logs ≢ none)
    × (terminated.self.container ≡ some container)
unfolding force_terminate container_running Docker.container_running inspect_container inspected
    state_of stop_container kill_container save_logs container_logs run get ℤ_eq
force_terminate-trace_example = force_terminate-trace host container running terminated refl refl

-- A docker whose stop does not come to an end.
abbrev slow : Host
slow = record host {
  answer = λ t command. if second command == "stop" then timed_out else answer t command;
}

abbrev interrupted : World
interrupted = (force_terminate slow running).0

force_terminate-Interrupted_example :
    (interrupted.self ≡ running.self)
    × Interrupted slow "id" (docker_error command_timed_out) [] interrupted.trace
unfolding force_terminate container_running Docker.container_running inspect_container inspected
    state_of stop_container run get ℤ_eq
force_terminate-Interrupted_example =
    force_terminate-Interrupted slow container running interrupted (docker_error command_timed_out)
      refl refl

-- A line that is no JSON, while docker does not stop.
abbrev broken : Codec
broken = record codec { loads = λ s. none }

abbrev masked : World
masked = (drain_events slow broken (some (1 ∷ 10 ∷ [])) running).0

drain_events_raises_example :
    (e : EventError) × (read_new broken running.self.stream (some (1 ∷ 10 ∷ []))
      ≡ (masked.self.stream, err e))
    × (masked.self.events ≡ running.self.events)
    × (masked.self.container ≡ running.self.container)
    × (running.self.container ≡ none
        → (docker_error command_timed_out ≡ protocol_error e) × (masked.trace ≡ running.trace))
    × ((c : CreatedContainer)
        → running.self.container ≡ some c
        → ((force_terminate slow (after_read slow broken running (some (1 ∷ 10 ∷ [])))
              ≡ (masked, ok tt))
            × (docker_error command_timed_out ≡ protocol_error e)
            × Terminated slow c running.trace masked.trace)
          ⊎ ((force_terminate slow (after_read slow broken running (some (1 ∷ 10 ∷ [])))
                ≡ (masked, err (docker_error command_timed_out)))
              × Interrupted slow c.container_id
                  (docker_error command_timed_out)
                  running.trace
                  masked.trace))
unfolding drain_events force_terminate container_running Docker.container_running inspect_container
    inspected state_of stop_container run get ℤ_eq read_new read_loop readline ends_with_newline
    take_line parse_line
drain_events_raises_example =
    drain_events_raises slow broken running masked (some (1 ∷ 10 ∷ []))
      (docker_error command_timed_out) refl
