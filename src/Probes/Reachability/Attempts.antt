-- ===== src/Probes/Reachability/Attempts.antt =====
-- What the reachability probe's answer says of the attempts that were made.
use firm_arbiter.Prelude.{
  ℕ, zero, suc, ◌+◌, ◌≤◌, ◌<◌, String, ◌≡◌, refl, ◌≢◌, inl, inr, Bool, true, false, none, some,
  arith, ltb, if◌then◌else◌, Bool-cases, ℕ-Eq, String-Eq, pair-Eq, Option-Eq, Result-cases, ok,
}
use mathlib.Core.Path.{subst}
use native.Mathlib.Decide.{ℕ_discrete}
use firm_arbiter.Json.{Fields}
use firm_arbiter.Probes.Reachability.{
  Convert, OsError, Connect, connected, refused, Note, no_error, os_error, not_applicable_to,
  reachable, unreachable, not_applicable, ReachabilityObservation, Endpoint, is_tcp, parse_claim,
  observe, try_connect, probe_endpoint_event,
}

abbrev pub is_refused : Connect → Bool
is_refused (connected latency) = false
is_refused (refused x) = true

-- What an observation after `attempts` attempts numbered from `n` must show.
pub record Tells (connect : ℕ → Connect) (attempts n : ℕ) (o : ReachabilityObservation) (sleeps : ℕ)
    : Type 0 where
  -- reached: at the attempt that the observation names, and at none before it
  pub yes :
      o.status ≡ reachable
      → (n ≤ o.attempts)
        × (o.attempts ≤ attempts)
        × ((l : ℕ) × (connect o.attempts ≡ connected l) × (o.latency_ms ≡ some l))
        × (o.error ≡ no_error)
  -- not reached: every attempt was made and refused
  pub no :
      o.status ≡ unreachable
      → (o.attempts ≡ attempts) × (o.latency_ms ≡ none) × (is_refused (connect attempts) ≡ true)
  pub before : (k : ℕ) → n ≤ k → k < o.attempts → is_refused (connect k) ≡ true
  pub made : o.status ≢ not_applicable
  -- one sleep between two attempts, and none behind the last
  pub slept : sleeps + n ≡ o.attempts

module _ (e : Endpoint) (now : String) (connect : ℕ → Connect) (attempts : ℕ) where
  reached :
      (left n l : ℕ) (final : Note)
      → n + left ≡ attempts
      → connect n ≡ connected l
      → Tells connect attempts n (observe e now reachable n (some l) no_error) 0
  reached left n l final h c = record {
    yes = λ s. (omega arith, omega arith, (l, c, refl), refl);
    no = λ s. absurd (ground arith);
    before = λ k low high. absurd (omega arith);
    made = ground arith;
    slept = omega arith;
  }

  exhausted :
      (n : ℕ) (x : OsError)
      → n + 0 ≡ attempts
      → connect n ≡ refused x
      → Tells connect attempts n (observe e now unreachable attempts none (os_error x)) 0
  exhausted n x h c =
      let same : n ≡ attempts = omega arith in
      record {
        yes = λ s. absurd (ground arith);
        no = λ s. (refl, refl, rw (← same, c) refl);
        before = λ k low high. absurd (omega arith);
        made = ground arith;
        slept = omega arith;
      }

  retried :
      (n sleeps : ℕ) (x : OsError) (o : ReachabilityObservation)
      → connect n ≡ refused x
      → n + 1 ≤ o.attempts
      → Tells connect attempts (n + 1) o sleeps
      → Tells connect attempts n o (suc sleeps)
  retried n sleeps x o c more t = record {
    yes = λ s.
        let (low, high, latency, none_noted) = t.yes s in (omega arith, high, latency, none_noted);
    no = t.no;
    before = λ k low high. elim (ℕ_discrete k n) [
      | yes here ↦ rw (here, c) refl
      | no later ↦ t.before k (omega arith) high
    ];
    made = t.made;
    slept = omega (arith, t.slept);
  }

  try_hit :
      (left n l : ℕ) (final : Note)
      → connect n ≡ connected l
      → try_connect e now connect attempts (suc left) n final
        ≡ (observe e now reachable n (some l) no_error, 0)
  unfolding try_connect
  try_hit left n l final c = ground arith

  try_miss :
      (left n : ℕ) (x : OsError) (final : Note)
      → connect n ≡ refused x
      → let rest = try_connect e now connect attempts left (n + 1) (os_error x) in
        try_connect e now connect attempts (suc left) n final
        ≡ (rest.0, if ltb n attempts then suc rest.1 else rest.1)
  unfolding try_connect
  try_miss left n x final c = ground arith

  abbrev Claim : ℕ → ℕ → Note → Type 0
  Claim left n final =
      Tells connect attempts n (try_connect e now connect attempts (suc left) n final).0
        (try_connect e now connect attempts (suc left) n final).1

  try_connect-Tells : (left n : ℕ) (final : Note) → n + left ≡ attempts → Claim left n final
  try_connect-Tells zero n final h = last (connect n) refl
    where
      last : (c : Connect) → connect n ≡ c → Claim 0 n final
      last (connected l) c = rw (try_hit 0 n l final c) (reached 0 n l final h c)
      last (refused x) c =
          let late : ltb n attempts ≡ false = ground arith in
          rw (try_miss 0 n x final c, late) (unfold try_connect in exhausted n x h c)
  try_connect-Tells (suc left) n final h =
      step (λ x. try_connect-Tells left (n + 1) (os_error x) (omega arith)) (connect n) refl
    where
      step :
          ((x : OsError) → Claim left (n + 1) (os_error x))
          → (c : Connect) → connect n ≡ c
          → Claim (suc left) n final
      step ih (connected l) c =
          rw (try_hit (suc left) n l final c) (reached (suc left) n l final h c)
      step ih (refused x) c =
          let early : ltb n attempts ≡ true = ground arith in
          rw (try_miss (suc left) n x final c, early)
            (retried n _ x _ c (omega (arith, (ih x).slept)) (ih x))

parse_claim-ok :
    (py : Convert) (event : Fields) (attempts : ℕ) (e : Endpoint)
    → parse_claim py event attempts ≡ ok e
    → (1 ≤ e.port) × (e.port ≤ 65535) × (1 ≤ attempts)
unfolding parse_claim
parse_claim-ok py event attempts e h = ground arith

try_connect-same :
    (e : Endpoint) (now : String) (connect : ℕ → Connect) (attempts left n : ℕ) (final : Note)
    → let o = (try_connect e now connect attempts left n final).0 in
      (o.port ≡ e.port) × (o.protocol ≡ e.protocol)
unfolding try_connect
try_connect-same e now connect attempts zero n final = (refl, refl)
try_connect-same e now connect attempts (suc left) n final =
    go (λ x. try_connect-same e now connect attempts left (n + 1) (os_error x)) (connect n) refl
  where
    go :
        ((x : OsError)
          → let o = (try_connect e now connect attempts left (n + 1) (os_error x)).0 in
            (o.port ≡ e.port) × (o.protocol ≡ e.protocol))
        → (c : Connect) → connect n ≡ c
        → let o = (try_connect e now connect attempts (suc left) n final).0 in
          (o.port ≡ e.port) × (o.protocol ≡ e.protocol)
    go ih (connected l) c = ground arith
    go ih (refused x) c = ground (arith, ih x)

-- The claim of `probe_endpoint_event-Tells`.
abbrev Answer : (ℕ → Connect) → ℕ → ReachabilityObservation × ℕ → Type 0
Answer connect attempts (o, sleeps) =
    (1 ≤ o.port)
    × (o.port ≤ 65535)
    × (if is_tcp o.protocol
        then Tells connect attempts 1 o sleeps
        else (o.status ≡ not_applicable) × (o.attempts ≡ 0) × (sleeps ≡ 0))

try_connect-Answer :
    (e : Endpoint) (now : String) (connect : ℕ → Connect) (attempts : ℕ)
    → 1 ≤ e.port
    → e.port ≤ 65535
    → 1 ≤ attempts
    → is_tcp e.protocol ≡ true
    → Answer connect attempts (try_connect e now connect attempts attempts 1 no_error)
try_connect-Answer e now connect zero low high more tcp = absurd (omega arith)
try_connect-Answer e now connect (suc left) low high more tcp =
    let (port, protocol) = try_connect-same e now connect (suc left) (suc left) 1 no_error in
    (
      rw port low,
      rw port high,
      rw (protocol, tcp) (try_connect-Tells e now connect (suc left) left 1 no_error (omega arith)),
    )

-- A probe that answers for a TCP protocol tells of its attempts, numbered from 1: reachable at the
-- attempt that it names, with that attempt's latency, all before it refused; or unreachable, with
-- every attempt made and refused. It sleeps once between two attempts and not behind the last. For
-- another protocol it answers that it does not apply, and makes no attempt.
pub probe_endpoint_event-Tells :
    (py : Convert) (now : String) (connect : ℕ → Connect) (event : Fields) (attempts : ℕ)
    (o : ReachabilityObservation) (sleeps : ℕ)
    → probe_endpoint_event py now connect event attempts ≡ ok (o, sleeps)
    → (1 ≤ o.port)
      × (o.port ≤ 65535)
      × (if is_tcp o.protocol
          then Tells connect attempts 1 o sleeps
          else (o.status ≡ not_applicable) × (o.attempts ≡ 0) × (sleeps ≡ 0))
unfolding probe_endpoint_event
probe_endpoint_event-Tells py now connect event attempts o sleeps h =
    elim (Result-cases (parse_claim py event attempts)) [
      | inl (x, bad) ↦ absurd (ground arith)
      | inr (e, parsed) ↦
          let (low, high, some_attempt) = parse_claim-ok py event attempts e parsed in
          elim (Bool-cases (is_tcp e.protocol)) [
            | inl tcp ↦
                let seen : try_connect e now connect attempts attempts 1 no_error ≡ (o, sleeps) =
                  ground arith in
                subst (Answer connect attempts) seen
                  (try_connect-Answer e now connect attempts low high some_attempt tcp)
            | inr other ↦
                let seen : (observe e now not_applicable 0 none (not_applicable_to e.protocol), 0)
                    ≡ (o, sleeps) =
                  ground arith in
                subst (Answer connect attempts) seen (low, high, rw other (refl, refl, refl))
          ]
    ]
