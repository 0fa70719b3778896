-- ===== src/Probes/Stability.antt =====
-- firmarbiter_core/probes/service_stability.py: an endpoint measured again and again. What the
-- lifecycle, the clock and the two probes answer for each sample is given. Times are monotonic clock
-- readings in microseconds; a ratio is given by the two numbers whose quotient it is, rounded.
pub mod Streaks
pub mod Window
use Prim.Native.Nat.{max}
use firm_arbiter.Prelude.{
  ℕ, zero, suc, ◌+◌, ◌-◌, ◌*◌, ◌/◌, ◌%◌, String, Bool, true, false, not, ◌&&◌, ◌||◌, Option, none,
  some, List, [], ◌∷◌, ltb, leb, if◌then◌else◌, ◌==◌, ℕ-Eq, String-Eq, pair-Eq, Option-Eq, length,
  any_of, count_of, Result, ◌>>=◌, ◌>>◌, raise_if, ok, err,
}
use firm_arbiter.Json.{Json, Fields, object, get, says, ℤ, pos, negsuc}
use firm_arbiter.Probes.Reachability.{Convert, OsError, is_tcp}

pub data StabilityError : Type 0 where
  not_an_endpoint_event no_endpoint_object no_protocol : StabilityError
  bad_sample_count negative_interval bad_timeout : StabilityError

-- What the reachability probe and the HTTP snapshot return, or raise.
pub record Reachability : Type 0 where
  pub status : String
  pub latency_ms : Option ℕ
  pub error_type : Option String
  pub error_message : Option String

pub record Snapshot : Type 0 where
  pub status : String
  pub http_status : Option ℕ
  pub response_fingerprint : Option String
  pub error_type : Option String
  pub error_message : Option String

-- The readings for one sample: `should_continue()` before and after the delay (true if there is no
-- such callback), the clock, the probes, and the time of the observation.
pub record Slot : Type 0 where
  pub continues_before : Bool
  pub now : ℕ
  pub continues_after : Bool
  pub reachability : Result OsError Reachability
  pub snapshot : Result OsError Snapshot
  pub utc_now : String

pub record StabilitySample : Type 0 where
  pub sample_number : ℕ
  pub observed_at : String
  pub available : Bool
  pub reachability_status : String
  pub latency_ms : Option ℕ
  pub http_snapshot_status : Option String
  pub http_status : Option ℕ
  pub response_fingerprint : Option String
  pub error_type : Option String
  pub error_message : Option String

-- `_longest_failure_streak`: its loop, and the function.
unfoldable pub streak_from : ℕ → ℕ → List StabilitySample → ℕ
streak_from longest current [] = longest
streak_from longest current (sample ∷ samples) =
    streak_from (if sample.available then longest else max longest (current + 1))
      (if sample.available then 0 else current + 1) samples

unfoldable pub longest_failure_streak : List StabilitySample → ℕ
longest_failure_streak samples = streak_from 0 0 samples

-- `except Exception`
unfoldable pub failed_sample : ℕ → Slot → OsError → StabilitySample
failed_sample number s x = record {
  sample_number = number;
  observed_at = s.utc_now;
  available = false;
  reachability_status = "probe_error";
  latency_ms = none;
  http_snapshot_status = none;
  http_status = none;
  response_fingerprint = none;
  error_type = some x.type_name;
  error_message = some x.message;
}

unfoldable pub plain_sample : ℕ → Slot → Reachability → Bool → StabilitySample
plain_sample number s r available = record {
  sample_number = number;
  observed_at = s.utc_now;
  available = available;
  reachability_status = r.status;
  latency_ms = r.latency_ms;
  http_snapshot_status = none;
  http_status = none;
  response_fingerprint = none;
  error_type = r.error_type;
  error_message = r.error_message;
}

unfoldable pub http_sample : ℕ → Slot → Reachability → Snapshot → StabilitySample
http_sample number s r p = record {
  sample_number = number;
  observed_at = s.utc_now;
  available = p.status == "captured";
  reachability_status = r.status;
  latency_ms = r.latency_ms;
  http_snapshot_status = some p.status;
  http_status = p.http_status;
  response_fingerprint = p.response_fingerprint;
  error_type = if p.status == "captured" then r.error_type else p.error_type;
  error_message = if p.status == "captured" then r.error_message else p.error_message;
}

-- The `try` block of the loop.
unfoldable pub take_sample : String → ℕ → Slot → StabilitySample
unfolding failed_sample plain_sample http_sample
take_sample protocol number s = elim s.reachability [
  | err x ↦ failed_sample number s x
  | ok r ↦
      if r.status == "true" && (protocol == "http" || protocol == "https")
      then elim s.snapshot [ err x ↦ failed_sample number s x | ok p ↦ http_sample number s r p ]
      else plain_sample number s r (r.status == "true")
]

pub record Sampling : Type 0 where
  pub samples : List StabilitySample
  pub interrupted : Bool
  pub sleeps : List ℕ

-- The loop from sample `number` on, with `left` samples to go and the next one due at `due`. The
-- delay before each sample is kept.
unfoldable pub sample_loop : String → ℕ → (ℕ → Slot) → ℕ → ℕ → ℕ → Sampling
sample_loop protocol interval slots zero number due = record {
  samples = [];
  interrupted = false;
  sleeps = [];
}
sample_loop protocol interval slots (suc left) number due =
    let s = slots number in
    let rest = sample_loop protocol interval slots left (number + 1) (due + interval) in
    if not s.continues_before
    then record { samples = []; interrupted = true; sleeps = [] }
    else if not s.continues_after
    then record { samples = []; interrupted = true; sleeps = (due - s.now) ∷ [] }
    else record {
      samples = take_sample protocol number s ∷ rest.samples;
      interrupted = rest.interrupted;
      sleeps = (due - s.now) ∷ rest.sleeps;
    }

pub data Status : Type 0 where
  not_applicable not_attempted inconclusive probe_error stable unstable : Status

-- `metric` is a constant, and `reason` is the text that goes with the status.
pub record StabilityObservation : Type 0 where
  pub status : Status
  pub requested_samples : ℕ
  pub completed_samples : ℕ
  pub successful_samples : ℕ
  pub failed_samples : ℕ
  pub availability_ratio : Option (ℕ × ℕ)
  pub longest_failure_streak : ℕ
  pub interval : ℤ
  pub samples : List StabilitySample

abbrev pub is_available : StabilitySample → Bool
is_available sample = sample.available

abbrev pub is_probe_error : StabilitySample → Bool
is_probe_error sample = sample.reachability_status == "probe_error"

-- What is built from the samples.
unfoldable pub conclude : ℕ → ℤ → Sampling → StabilityObservation
conclude sample_count interval s =
    let completed = length s.samples in
    let successful = count_of is_available s.samples in
    let failed = completed - successful in
    record {
      status =
          if completed == 0
          then not_attempted
          else if s.interrupted || ltb completed sample_count
          then inconclusive
          else if any_of is_probe_error s.samples
          then probe_error
          else if failed == 0
          then stable
          else unstable;
      requested_samples = sample_count;
      completed_samples = completed;
      successful_samples = successful;
      failed_samples = failed;
      availability_ratio = if ltb 0 completed then some (successful, completed) else none;
      longest_failure_streak = longest_failure_streak s.samples;
      interval = interval;
      samples = s.samples;
    }

unfoldable pub nothing_to_measure : ℕ → ℤ → StabilityObservation
nothing_to_measure sample_count interval = record {
  status = not_applicable;
  requested_samples = sample_count;
  completed_samples = 0;
  successful_samples = 0;
  failed_samples = 0;
  availability_ratio = none;
  longest_failure_streak = 0;
  interval = interval;
  samples = [];
}

-- `str(endpoint["protocol"])` of the event's endpoint.
unfoldable pub claimed_protocol : Convert → Fields → Result StabilityError String
claimed_protocol py event =
    if not (says event "event" "endpoint_reported")
    then err not_an_endpoint_event
    else elim (get event "endpoint") [
      | some (object endpoint) ↦ elim (get endpoint "protocol") [
        | none ↦ err no_protocol
        | some v ↦ ok (py.text_of v)
      ]
      | _ ↦ err no_endpoint_object
    ]

-- The checks of the settings and the measurement, from the clock reading `started`. A count or a
-- timeout below 0 is given as 0, which is refused alike.
unfoldable pub measure :
    ℕ → ℤ → ℕ → ℕ → (ℕ → Slot) → String → Result StabilityError StabilityObservation
measure sample_count interval timeout started slots protocol =
    if ltb sample_count 1 then err bad_sample_count else elim interval [
      | negsuc _ ↦ err negative_interval
      | pos step ↦
          if leb timeout 0
          then err bad_timeout
          else ok (
              if not (is_tcp protocol)
              then nothing_to_measure sample_count (pos step)
              else conclude sample_count (pos step)
                  (sample_loop protocol step slots sample_count 1 started))
    ]

-- `measure_endpoint_stability`
unfoldable pub measure_endpoint_stability :
    Convert → Fields → ℕ → ℤ → ℕ → ℕ → (ℕ → Slot) → Result StabilityError StabilityObservation
measure_endpoint_stability py event sample_count interval timeout started slots = do
  protocol ← claimed_protocol py event
  measure sample_count interval timeout started slots protocol
