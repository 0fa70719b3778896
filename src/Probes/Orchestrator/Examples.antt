-- ===== src/Probes/Orchestrator/Examples.antt =====
-- A claim, its snapshot and its attribution.
use firm_arbiter.Prelude.{
  String, refl, false, none, some, List, [], ◌∷◌, ℕ-Eq, String-Eq, pair-Eq, Option-Eq, All, Result,
  ok,
}
use firm_arbiter.Json.{
  Fields, end, field, text, integer, object, get, is_text, says, as_int, ℤ_eq, pos,
}
use firm_arbiter.Probes.Reachability.{reachable, no_error, ReachabilityObservation}
use firm_arbiter.Probes.Authenticity.{HttpServiceSnapshot, evaluate_http_authenticity}
use firm_arbiter.Probes.Orchestrator.{
  OrchestratorError, EndpointProbeRecord, EndpointAuthenticityRecord, Callables, active_snapshot,
  sequence_of, endpoint_of, handle_event, new_claim, handle_events, finalize_authenticity,
}
use firm_arbiter.Probes.Orchestrator.Attribution.{IfAttributed, finalize_authenticity-IsAttributed}

abbrev fold : String → String
fold s = s

abbrev seen : ReachabilityObservation
seen = record {
  status = reachable;
  observed_at = "now";
  host = "10.0.0.1";
  port = 80;
  protocol = "http";
  attempts = 1;
  latency_ms = some 3;
  error = no_error;
}

abbrev captured : HttpServiceSnapshot
captured = record { status = "captured"; body_sha256 = some "abc"; body_truncated = some false }

abbrev live : Callables
live = record { reachability = λ i event. ok seen; snapshot = λ i event. ok captured }

abbrev after : Callables
after = record live {
  snapshot =
      λ i event. ok (record { status = "unreachable"; body_sha256 = none; body_truncated = none });
}

-- The same claim twice.
abbrev claim : Fields
claim =
    field "event" (text "endpoint_reported")
      (field "sequence" (integer 4) (field "endpoint" (object end) end))

abbrev recorded : List EndpointProbeRecord × Result OrchestratorError (Unit {0})
recorded = handle_events live 0 [] [] (claim ∷ claim ∷ [])

abbrev found : EndpointAuthenticityRecord
found = record {
  source_event_sequence = pos 4;
  candidate_claim = end;
  active_snapshot = captured;
  post_shutdown_snapshot = record {
    status = "unreachable";
    body_sha256 = none;
    body_truncated = none;
  };
  independent_measurement =
      evaluate_http_authenticity fold captured
        (record { status = "unreachable"; body_sha256 = none; body_truncated = none })
        (text "abc" ∷ []) "now";
}

finalize_authenticity-IsAttributed_example :
    All
      (IfAttributed fold live after (text "abc" ∷ []) (λ i. "now") (claim ∷ claim ∷ []) recorded.0)
      (found ∷ [])
unfolding finalize_authenticity handle_events handle_event new_claim active_snapshot sequence_of
    endpoint_of says get is_text as_int ℤ_eq
finalize_authenticity-IsAttributed_example =
    finalize_authenticity-IsAttributed fold live after (text "abc" ∷ []) (λ i. "now")
      (claim ∷ claim ∷ []) recorded.0 recorded.1 (found ∷ []) refl refl
