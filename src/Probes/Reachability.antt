-- ===== src/Probes/Reachability.antt =====
-- firmarbiter_core/probes/service_reachability.py: a TCP connection to a claimed endpoint, tried a
-- number of times. What each attempt to connect does is given.
pub mod Attempts
use firm_arbiter.Prelude.{
  ℕ, zero, suc, ◌+◌, String, Bool, not, ◌&&◌, ◌||◌, Option, none, some, ltb, leb, if◌then◌else◌,
  ◌==◌, ℕ-Eq, String-Eq, pair-Eq, Option-Eq, Result, ◌>>=◌, ◌>>◌, raise_if, ok, err,
}
use firm_arbiter.Json.{Json, Fields, object, get, says}

pub data ProbeError : Type 0 where
  not_an_endpoint_event no_endpoint_object malformed_claim empty_host port_out_of_range : ProbeError
  no_attempts : ProbeError

-- What Python's `str(value)` and `int(value)` return for a JSON value; `none` if they raise
-- `TypeError` or `ValueError`. A port below 0 is given as 0, which is as far out of range.
pub record Convert : Type 0 where
  pub text_of : Json → String
  pub number_of : Json → Option ℕ

-- An exception's type name and text.
pub record OsError : Type 0 where
  pub type_name : String
  pub message : String

-- One attempt: the time that a connection took, in milliseconds, or the OSError. Any other exception,
-- as of a host name that cannot be encoded, leaves the probe without an answer and is not modelled.
pub data Connect : Type 0 where
  connected : ℕ → Connect
  refused : OsError → Connect

-- `error_type` and `error_message`.
pub data Note : Type 0 where
  no_error : Note
  os_error : OsError → Note
  not_applicable_to : String → Note

pub data Status : Type 0 where
  reachable unreachable not_applicable : Status

pub record ReachabilityObservation : Type 0 where
  pub status : Status
  pub observed_at : String
  pub host : String
  pub port : ℕ
  pub protocol : String
  pub attempts : ℕ
  pub latency_ms : Option ℕ
  pub error : Note

pub record Endpoint : Type 0 where
  pub host : String
  pub port : ℕ
  pub protocol : String

-- `protocol in TCP_PROTOCOLS`
unfoldable pub is_tcp : String → Bool
is_tcp protocol =
    protocol == "tcp"
    || protocol == "http"
    || protocol == "https"
    || protocol == "ssh"
    || protocol == "telnet"

abbrev pub or_raise {ℓ} : {A : Type ℓ} → Option A → ProbeError → Result ProbeError A
or_raise none e = err e
or_raise (some a) e = ok a

-- `event["endpoint"]` as a dictionary.
unfoldable pub endpoint_object : Fields → Result ProbeError Fields
endpoint_object event =
    if not (says event "event" "endpoint_reported")
    then err not_an_endpoint_event
    else elim (get event "endpoint") [
      | some (object endpoint) ↦ ok endpoint
      | _ ↦ err no_endpoint_object
    ]

-- The checks of `probe_endpoint_event` before the protocol is looked at.
unfoldable pub parse_claim : Convert → Fields → ℕ → Result ProbeError Endpoint
unfolding endpoint_object
parse_claim py event attempts = do
  endpoint ← endpoint_object event
  host ← or_raise (get endpoint "host") malformed_claim
  port ← or_raise (get endpoint "port") malformed_claim
  number ← or_raise (py.number_of port) malformed_claim
  protocol ← or_raise (get endpoint "protocol") malformed_claim
  raise_if (py.text_of host == "") empty_host
  raise_if (not (leb 1 number && leb number 65535)) port_out_of_range
  raise_if (ltb attempts 1) no_attempts
  ok (record { host = py.text_of host; port = number; protocol = py.text_of protocol })

abbrev pub observe : Endpoint → String → Status → ℕ → Option ℕ → Note → ReachabilityObservation
observe e now status attempts latency error = record {
  status = status;
  observed_at = now;
  host = e.host;
  port = e.port;
  protocol = e.protocol;
  attempts = attempts;
  latency_ms = latency;
  error = error;
}

-- The loop over the attempts, from number `n` on with `left` to go: the observation, and the number
-- of times that it sleeps.
unfoldable pub try_connect :
    Endpoint → String → (ℕ → Connect) → ℕ → ℕ → ℕ → Note → ReachabilityObservation × ℕ
try_connect e now connect attempts zero n final = (observe e now unreachable attempts none final, 0)
try_connect e now connect attempts (suc left) n final = elim (connect n) [
  | connected latency ↦ (observe e now reachable n (some latency) no_error, 0)
  | refused x ↦
      let (o, sleeps) = try_connect e now connect attempts left (n + 1) (os_error x) in
      (o, if ltb n attempts then suc sleeps else sleeps)
]

-- `probe_endpoint_event`, with the number of sleeps between the attempts.
unfoldable pub probe_endpoint_event :
    Convert → String → (ℕ → Connect) → Fields → ℕ → Result ProbeError (ReachabilityObservation × ℕ)
unfolding try_connect
probe_endpoint_event py now connect event attempts = do
  e ← parse_claim py event attempts
  ok (
      if not (is_tcp e.protocol)
      then (observe e now not_applicable 0 none (not_applicable_to e.protocol), 0)
      else try_connect e now connect attempts attempts 1 no_error)
