-- ===== src/Probes/Examples.antt =====
-- The probes at concrete inputs.
use firm_arbiter.Prelude.{
  ℕ, ◌≤◌, String, ◌≡◌, refl, ◌≢◌, ◌↔◌, true, false, Option, none, some, List, [], ◌∷◌, ◌++◌,
  if◌then◌else◌, ℕ-Eq, String-Eq, ◌==◌, pair-Eq, Option-Eq, length, ok, err,
}
use firm_arbiter.Json.{Json, Fields, end, field, text, integer, object, get, is_text, says, pos}
use firm_arbiter.Probes.Reachability.{
  Convert, Connect, connected, refused, OsError, ReachabilityObservation, is_tcp, no_error,
  endpoint_object, parse_claim, probe_endpoint_event, reachable, not_applicable, try_connect,
}
use firm_arbiter.Probes.Reachability.Attempts.{Tells, probe_endpoint_event-Tells}
use firm_arbiter.Probes.Stability.{
  Reachability, Slot, StabilitySample, streak_from, longest_failure_streak, plain_sample,
  take_sample, sample_loop, StabilityObservation, conclude, claimed_protocol, measure,
  measure_endpoint_stability, claimed_protocol, not_applicable, unstable,
}
use firm_arbiter.Probes.Stability.Streaks.{HasRun, Failing, longest_failure_streak_exact}
use firm_arbiter.Probes.Stability.Window.{IsConsistent, measure_endpoint_stability-IsConsistent}
use firm_arbiter.Probes.Authenticity.{
  HttpServiceSnapshot, attributed, trusted_hashes, trusted_match, evaluate_http_authenticity,
}
use firm_arbiter.Probes.Authenticity.Evidence.{IsTrusted, attributed_means}

abbrev endpoint_event : Fields
endpoint_event = field "event" (text "endpoint_reported") (
    field "endpoint"
      (object (
        field "host" (text "10.0.0.1")
          (field "port" (integer 23) (field "protocol" (text "telnet") end))))
      end)

abbrev text_of_json : Json → String
text_of_json (text t) = t
text_of_json _ = "?"

abbrev number_of_json : Json → Option ℕ
number_of_json (integer n) = some n
number_of_json _ = none

abbrev convert : Convert
convert = record { text_of = text_of_json; number_of = number_of_json }

abbrev refusal : OsError
refusal = record { type_name = "ConnectionRefusedError"; message = "refused" }

-- The second attempt is answered.
abbrev connect : ℕ → Connect
connect n = if n == 2 then connected 5 else refused refusal

abbrev second_answers : ReachabilityObservation
second_answers = record {
  status = reachable;
  observed_at = "now";
  host = "10.0.0.1";
  port = 23;
  protocol = "telnet";
  attempts = 2;
  latency_ms = some 5;
  error = no_error;
}

abbrev one_sleep : ℕ
one_sleep = 1

second_attempt :
    probe_endpoint_event convert "now" connect endpoint_event 3 ≡ ok (second_answers, 1)
unfolding probe_endpoint_event parse_claim endpoint_object try_connect is_tcp says get is_text
second_attempt = refl

probe_endpoint_event-Tells_example :
    (1 ≤ 23)
    × (23 ≤ 65535)
    × (if is_tcp "telnet"
        then Tells connect 3 1 second_answers 1
        else (second_answers.status ≡ not_applicable)
          × (second_answers.attempts ≡ 0)
          × (one_sleep ≡ 0))
probe_endpoint_event-Tells_example =
    probe_endpoint_event-Tells convert "now" connect endpoint_event 3 second_answers 1
      second_attempt

-- The service answers the first of two samples.
abbrev answer : ℕ → Reachability
answer n = record {
  status = if n == 1 then "true" else "false";
  latency_ms = none;
  error_type = none;
  error_message = none;
}

abbrev slot : ℕ → Slot
slot n = record {
  continues_before = true;
  now = 0;
  continues_after = true;
  reachability = ok (answer n);
  snapshot = err refusal;
  utc_now = "now";
}

abbrev samples : List StabilitySample
samples = take_sample "telnet" 1 (slot 1) ∷ take_sample "telnet" 2 (slot 2) ∷ []

abbrev unstable_service : StabilityObservation
unstable_service = record {
  status = unstable;
  requested_samples = 2;
  completed_samples = 2;
  successful_samples = 1;
  failed_samples = 1;
  availability_ratio = some (1, 2);
  longest_failure_streak = 1;
  interval = pos 10;
  samples = samples;
}

two_samples :
    measure_endpoint_stability convert endpoint_event 2 (pos 10) 5 0 slot ≡ ok unstable_service
unfolding measure_endpoint_stability measure claimed_protocol conclude sample_loop take_sample
    longest_failure_streak streak_from plain_sample is_tcp says get is_text
two_samples = refl

measure_endpoint_stability-IsConsistent_example :
    IsConsistent unstable_service
    × ((protocol : String) × (claimed_protocol convert endpoint_event ≡ ok protocol)
        × ((unstable_service.status ≡ not_applicable) ↔ (is_tcp protocol ≡ false)))
measure_endpoint_stability-IsConsistent_example =
    measure_endpoint_stability-IsConsistent convert endpoint_event 2 (pos 10) 5 0 slot
      unstable_service two_samples

longest_failure_streak_exact_example :
    HasRun samples (longest_failure_streak samples)
    × ((a b c : List StabilitySample)
        → samples ≡ a ++ (b ++ c)
        → Failing b
        → length b ≤ longest_failure_streak samples)
longest_failure_streak_exact_example = longest_failure_streak_exact samples

abbrev fold : String → String
fold s = if s == "ABC" then "abc" else s

abbrev active : HttpServiceSnapshot
active = record { status = "captured"; body_sha256 = some "ABC"; body_truncated = some false }

abbrev gone : HttpServiceSnapshot
gone = record { status = "unreachable"; body_sha256 = none; body_truncated = none }

matched : (evaluate_http_authenticity fold active gone (text "abc" ∷ []) "now").status ≡ attributed
unfolding evaluate_http_authenticity trusted_match trusted_hashes
matched = refl

attributed_means_example :
    let o = evaluate_http_authenticity fold active gone (text "abc" ∷ []) "now" in
    (active.status ≡ "captured")
    × (gone.status ≡ "unreachable")
    × (o.endpoint_disappeared_after_shutdown ≡ some true)
    × ((hash : String) × (active.body_sha256 ≡ some hash)
        × (o.matched_sha256 ≡ some hash)
        × (active.body_truncated ≢ some true)
        × IsTrusted fold hash (text "abc" ∷ []))
attributed_means_example = attributed_means fold active gone (text "abc" ∷ []) "now" matched
