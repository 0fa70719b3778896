-- ===== src/Probes/Orchestrator.antt =====
-- `IndependentProbeOrchestrator` of firmarbiter_core/probe_orchestrator.py: the probes that the
-- candidate's endpoint claims set off. What the two probes return is given for each call.
mod Probing
pub mod Attribution
mod Examples
use firm_arbiter.Prelude.{
  ℕ, ◌+◌, String, Bool, not, Option, none, some, List, [], ◌∷◌, ◌++◌, if◌then◌else◌, ℕ-Eq,
  String-Eq, ◌==◌, pair-Eq, Option-Eq, any_of, Result, ◌>>=◌, ◌>>◌, ok, err,
}
use firm_arbiter.Json.{
  Json, Fields, ℤ, ℤ-Eq, end, field, text, object, integer, negative, pos, negsuc, get, as_int,
  says,
}
use firm_arbiter.Probes.Reachability.{Convert, reachable, ReachabilityObservation}
use firm_arbiter.Probes.Reachability as Reachability
use firm_arbiter.Probes.Stability.{
  Slot, StabilityError, StabilityObservation, measure_endpoint_stability,
}
use firm_arbiter.Probes.Authenticity.{
  HttpServiceSnapshot, AuthenticityObservation, evaluate_http_authenticity,
}

-- A probe raised, or the claim has no sequence number or no endpoint.
pub data OrchestratorError : Type 0 where
  probe_failed no_sequence no_endpoint : OrchestratorError
  stability_failed : StabilityError → OrchestratorError

pub record EndpointProbeRecord : Type 0 where
  pub source_event_sequence : ℤ
  pub candidate_claim : Fields
  pub independent_measurement : ReachabilityObservation
  pub active_http_snapshot : Option HttpServiceSnapshot

pub record EndpointStabilityRecord : Type 0 where
  pub source_event_sequence : ℤ
  pub candidate_claim : Fields
  pub independent_measurement : StabilityObservation

pub record EndpointAuthenticityRecord : Type 0 where
  pub source_event_sequence : ℤ
  pub candidate_claim : Fields
  pub active_snapshot : HttpServiceSnapshot
  pub post_shutdown_snapshot : HttpServiceSnapshot
  pub independent_measurement : AuthenticityObservation

-- What the probes return for an event, at the call that the number counts.
pub record Callables : Type 0 where
  pub reachability : ℕ → Fields → Result OrchestratorError ReachabilityObservation
  pub snapshot : ℕ → Fields → Result OrchestratorError HttpServiceSnapshot

-- `if reachability.status == "true": ...`
unfoldable pub active_snapshot :
    Callables
    → ℕ
    → Fields
    → ReachabilityObservation
    → Result OrchestratorError (Option HttpServiceSnapshot)
active_snapshot probes i event observed = elim observed.status [
  | reachable ↦ (do s ← probes.snapshot i event; ok (some s))
  | _ ↦ ok none
]

-- `int(event["sequence"])` and `dict(event["endpoint"])`
unfoldable pub sequence_of : Fields → Result OrchestratorError ℤ
sequence_of event = elim (get event "sequence") [
  | none ↦ err no_sequence
  | some v ↦ elim (as_int v) [ none ↦ err no_sequence | some n ↦ ok n ]
]

unfoldable pub endpoint_of : Fields → Result OrchestratorError Fields
endpoint_of event = elim (get event "endpoint") [
  | some (object claim) ↦ ok claim
  | _ ↦ err no_endpoint
]

-- `handle_event`: the records that it adds.
unfoldable pub handle_event :
    Callables → ℕ → Fields → Result OrchestratorError (List EndpointProbeRecord)
handle_event probes i event = if not (says event "event" "endpoint_reported") then ok [] else (do
  observed ← probes.reachability i event
  active ← active_snapshot probes i event observed
  sequence ← sequence_of event
  claim ← endpoint_of event
  ok (
      record {
        source_event_sequence = sequence;
        candidate_claim = claim;
        independent_measurement = observed;
        active_http_snapshot = active;
      }
      ∷ []))

-- `sequence in handled_sequences`
abbrev pub handled : ℤ → List ℤ → Bool
handled k = any_of (λ j. j == k)

-- The sequence of a claim that was not yet handled.
unfoldable pub new_claim : List ℤ → Fields → Option ℤ
new_claim seen event =
    if not (says event "event" "endpoint_reported") then none else elim (get event "sequence") [
      | none ↦ none
      | some v ↦ elim (as_int v) [ none ↦ none | some k ↦ if handled k seen then none else some k ]
    ]

-- The coordinator's loop over the observed events; what was recorded before an exception stays.
unfoldable pub handle_events :
    Callables
    → ℕ
    → List ℤ
    → List EndpointProbeRecord
    → List Fields
    → List EndpointProbeRecord × Result OrchestratorError (Unit {0})
unfolding new_claim handle_event
handle_events probes i seen records [] = (records, ok tt)
handle_events probes i seen records (event ∷ events) = elim (new_claim seen event) [
  | none ↦ handle_events probes (i + 1) seen records events
  | some k ↦ elim (handle_event probes i event) [
    | err e ↦ (records, err e)
    | ok added ↦ handle_events probes (i + 1) (k ∷ seen) (records ++ added) events
  ]
]

-- The event that is made again from a record.
abbrev pub integer_of : ℤ → Json
integer_of (pos n) = integer n
integer_of (negsuc n) = negative n

abbrev pub event_of_record : EndpointProbeRecord → Fields
event_of_record r = field "event" (text "endpoint_reported") (
    field "sequence" (integer_of r.source_event_sequence)
      (field "endpoint" (object r.candidate_claim) end))

-- `measure_stability`, with the times and slots of each record's samples.
unfoldable pub measure_stability :
    Convert
    → ℕ
    → ℤ
    → ℕ
    → (ℕ → ℕ × (ℕ → Slot))
    → ℕ
    → List EndpointProbeRecord
    → Result OrchestratorError (List EndpointStabilityRecord)
measure_stability py sample_count interval timeout samples i [] = ok []
measure_stability py sample_count interval timeout samples i (r ∷ rs) =
    let rest = measure_stability py sample_count interval timeout samples (i + 1) rs in
    let (started, slots) = samples i in
    elim (measure_endpoint_stability py (event_of_record r) sample_count interval timeout started
      slots) [
        | err e ↦ err (stability_failed e)
        | ok observed ↦ (do
          others ← rest
          ok (
              record {
                source_event_sequence = r.source_event_sequence;
                candidate_claim = r.candidate_claim;
                independent_measurement = observed;
              }
              ∷ others))
      ]

-- `finalize_authenticity`; a record without a snapshot is passed over.
unfoldable pub finalize_authenticity :
    (String → String)
    → Callables
    → List Json
    → (ℕ → String)
    → ℕ
    → List EndpointProbeRecord
    → Result OrchestratorError (List EndpointAuthenticityRecord)
finalize_authenticity lower probes trusted now i [] = ok []
finalize_authenticity lower probes trusted now i (r ∷ rs) =
    let rest = finalize_authenticity lower probes trusted now (i + 1) rs in
    elim r.active_http_snapshot [
      | none ↦ rest
      | some active ↦ (do
        after ← probes.snapshot i (event_of_record r)
        others ← rest
        ok (
            record {
              source_event_sequence = r.source_event_sequence;
              candidate_claim = r.candidate_claim;
              active_snapshot = active;
              post_shutdown_snapshot = after;
              independent_measurement =
                  evaluate_http_authenticity lower active after trusted (now i);
            }
            ∷ others))
    ]
