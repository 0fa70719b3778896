-- ===== src/Coordinator/Readiness.antt =====
-- The waits of `execute` for the candidate's stages, and what the event that ends one means.
use firm_arbiter.Prelude.{
  String, Bool, true, false, not, ◌&&◌, ◌||◌, Option, none, some, List, [], ◌∷◌, if◌then◌else◌,
  ℕ-Eq, String-Eq, pair-Eq, Option-Eq, Result, ok, err,
}
use firm_arbiter.Json.{Fields, says}
use firm_arbiter.Watchdog.{WatchdogError}
use firm_arbiter.Coordinator.{member, candidate_stage_blocks_following_work}

-- `event.get("event") == "stage_completed" and event.get("stage") == stage`
abbrev pub completes : String → Fields → Bool
completes stage event = says event "event" "stage_completed" && says event "stage" stage

-- `readiness_predicate`, for the stages that were requested.
unfoldable pub readiness_predicate : List String → Fields → Bool
unfolding candidate_stage_blocks_following_work
readiness_predicate requested event =
    if member "emulate" requested
    then completes "emulate" event || candidate_stage_blocks_following_work event ("unpack" ∷ [])
    else if member "unpack" requested
    then completes "unpack" event
    else says event "event" "candidate_started"

-- The predicates of the other two waits.
unfoldable pub endpoint_predicate : Fields → Bool
unfolding candidate_stage_blocks_following_work
endpoint_predicate event =
    completes "endpoint-discovery" event
    || candidate_stage_blocks_following_work event ("unpack" ∷ "emulate" ∷ [])

unfoldable pub static_predicate : Fields → Bool
unfolding candidate_stage_blocks_following_work
static_predicate event =
    completes "static-analysis" event || candidate_stage_blocks_following_work event ("unpack" ∷ [])

-- The variables that the waits set; an error is that of the watchdog.
pub record Readiness : Type 0 where
  pub observed_event : Option Fields
  pub blocking_event : Option Fields
  pub wait_error : Option WatchdogError
  pub endpoint_wait_error : Option WatchdogError
  pub static_wait_error : Option WatchdogError

abbrev pub blocking_of : Fields → List String → Option Fields
blocking_of event stages =
    if candidate_stage_blocks_following_work event stages then some event else none

-- The first wait.
unfoldable pub await_readiness : Result WatchdogError Fields → Readiness
await_readiness (ok event) = record {
  observed_event = some event;
  blocking_event = blocking_of event ("unpack" ∷ "emulate" ∷ []);
  wait_error = none;
  endpoint_wait_error = none;
  static_wait_error = none;
}
await_readiness (err e) = record {
  observed_event = none;
  blocking_event = none;
  wait_error = some e;
  endpoint_wait_error = none;
  static_wait_error = none;
}

abbrev pub is_none {ℓ} : {A : Type ℓ} → Option A → Bool
is_none none = true
is_none (some x) = false

-- `readiness_wait_error is None and blocking_stage_event is None and stage in requested_stages`
abbrev pub goes_on : List String → String → Readiness → Bool
goes_on requested stage r =
    is_none r.wait_error && is_none r.blocking_event && member stage requested

-- The second wait.
unfoldable pub await_endpoints : List String → Result WatchdogError Fields → Readiness → Readiness
await_endpoints requested answer r =
    if not (goes_on requested "endpoint-discovery" r) then r else elim answer [
      | err e ↦ record r { endpoint_wait_error = some e }
      | ok event ↦ record r {
        blocking_event = blocking_of event ("unpack" ∷ "emulate" ∷ "endpoint-discovery" ∷ []);
      }
    ]

-- The third wait, for which only the error counts.
unfoldable pub await_static_analysis :
    List String → Result WatchdogError Fields → Readiness → Readiness
await_static_analysis requested answer r =
    if not (goes_on requested "static-analysis" r)
    then r
    else elim answer [ err e ↦ record r { static_wait_error = some e } | ok event ↦ r ]

-- The three waits, on what each returns or raises; the answer to a wait that is not made is not
-- looked at.
unfoldable pub await_stages :
    List String
    → Result WatchdogError Fields
    → Result WatchdogError Fields
    → Result WatchdogError Fields
    → Readiness
unfolding await_readiness await_endpoints await_static_analysis
await_stages requested first second third =
    await_static_analysis requested third (await_endpoints requested second (await_readiness first))
