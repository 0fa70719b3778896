-- ===== src/Supervisor/Waiting.antt =====
-- `wait_for_event` and `wait_for_exit`, over the rounds that begin before the deadline.
use firm_arbiter.Prelude.{
  ℕ, String, Bool, false, not, Option, none, some, List, [], ◌∷◌, if◌then◌else◌, ℕ-Eq, String-Eq,
  pair-Eq, Option-Eq, ok,
}
use firm_arbiter.Json.{Fields, ℤ, says}
use firm_arbiter.EventStream.{Codec}
use firm_arbiter.Docker.{Host, exit_code}
use firm_arbiter.Supervisor.{
  event_timed_out, exit_timed_out, exited_early, Method, return, raise, ◌>>=◌, ◌>>◌, call,
  container_id, container_running, save_logs, drain_events,
}

-- The content of the file of events at the first and at the second read of a round.
pub record Round : Type 0 where
  pub content : Option (List ℕ)
  pub content_after : Option (List ℕ)

-- `for event in self.drain_events(): if event["event"] == event_name: return event`
unfoldable pub first_named : String → List Fields → Option Fields
first_named name [] = none
first_named name (event ∷ events) =
    let rest = first_named name events in if says event "event" name then some event else rest

module _ (h : Host) (lib : Codec) where
  abbrev pub drain_only : Option (List ℕ) → Method (Unit {0})
  drain_only content = do docs ← drain_events h lib content; return tt

  abbrev pub final_code : Method ℤ
  final_code = do id ← container_id; call (exit_code h id)

  -- The test behind the events: `true` if a container was created and does not run.
  abbrev pub has_exited : Method Bool
  has_exited = do
    running ← container_running h
    λ w. (w, ok (elim w.self.container [ none ↦ false | some _ ↦ not running ]))

  -- `wait_for_event`
  unfoldable pub wait_for_event : String → List Round → Method Fields
  wait_for_event name [] = raise event_timed_out
  wait_for_event name (round ∷ rounds) = do
    docs ← drain_events h lib round.content
    elim (first_named name docs) [
      | some event ↦ return event
      | none ↦ do
        exited ← has_exited
        if exited
            then (do drain_only round.content_after; code ← final_code; raise (exited_early code))
            else wait_for_event name rounds
    ]

  -- `wait_for_exit`
  unfoldable pub wait_for_exit : List Round → Method ℤ
  wait_for_exit [] = raise exit_timed_out
  wait_for_exit (round ∷ rounds) = do
    drain_only round.content
    running ← container_running h
    if not running
        then (do drain_only round.content_after; save_logs h; final_code)
        else wait_for_exit rounds
