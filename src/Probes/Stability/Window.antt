-- ===== src/Probes/Stability/Window.antt =====
-- What a stability observation says of the observation window.
use firm_arbiter.Prelude.{
  ℕ, zero, suc, ◌+◌, ◌≤◌, ◌<◌, String, ◌≡◌, refl, ap, ◌↔◌, ◌⊎◌, inl, inr, true, false, not, none,
  some, List, [], ◌∷◌, ◌++◌, arith, if◌then◌else◌, Bool-cases, ℕ-Eq, String-Eq, pair-Eq, Option-Eq,
  length, any_of, count_of, length-append, Result-cases, ok,
}
use firm_arbiter.Json.{Fields, ℤ, pos, negsuc}
use firm_arbiter.Probes.Reachability.{Convert, is_tcp}
use firm_arbiter.Probes.Stability.{
  Slot, StabilitySample, sample_loop, not_attempted, inconclusive, stable, unstable, not_applicable,
  probe_error, is_probe_error, StabilityObservation, is_available, longest_failure_streak, conclude,
  nothing_to_measure, claimed_protocol, measure, measure_endpoint_stability,
}
use firm_arbiter.Probes.Stability.Streaks.{Failing, longest_failure_streak_exact}

sample_loop-length :
    (protocol : String) (interval : ℕ) (slots : ℕ → Slot) (left number due : ℕ)
    → let s = sample_loop protocol interval slots left number due in
      (s.interrupted ≡ true → length s.samples < left)
      × (s.interrupted ≡ false → length s.samples ≡ left)
unfolding sample_loop
sample_loop-length protocol interval slots zero number due = ground arith
sample_loop-length protocol interval slots (suc left) number due =
    ground (arith, sample_loop-length protocol interval slots left (number + 1) (due + interval))

count_of-le : (samples : List StabilitySample) → count_of is_available samples ≤ length samples
count_of-le [] = omega arith
count_of-le (s ∷ samples) = ground (arith, count_of-le samples)

count_of-append :
    (a b : List StabilitySample)
    → count_of is_available (a ++ b) ≡ count_of is_available a + count_of is_available b
count_of-append [] b = omega arith
count_of-append (s ∷ a) b = ground (arith, count_of-append a b)

Failing-none : (run : List StabilitySample) → Failing run → count_of is_available run ≡ 0
Failing-none [] h = refl
Failing-none (s ∷ run) (down, h) = rw down (Failing-none run h)

streak-le-failed :
    (samples : List StabilitySample)
    → longest_failure_streak samples + count_of is_available samples ≤ length samples
streak-le-failed samples =
    let r = (longest_failure_streak_exact samples).0 in
    omega (
      arith,
      r.size,
      ap length r.split,
      ap (count_of is_available) r.split,
      length-append r.before (r.run ++ r.after),
      length-append r.run r.after,
      count_of-append r.before (r.run ++ r.after),
      count_of-append r.run r.after,
      Failing-none r.run r.failing,
      count_of-le r.before,
      count_of-le r.after,
    )

-- What the counters of an observation say, and what each status says of them.
pub record IsConsistent (o : StabilityObservation) : Type 0 where
  pub accounts : o.successful_samples + o.failed_samples ≡ o.completed_samples
  pub within : o.completed_samples ≤ o.requested_samples
  pub streak : o.longest_failure_streak ≤ o.failed_samples
  pub is_stable :
      o.status ≡ stable
      → (o.completed_samples ≡ o.requested_samples) × (o.successful_samples ≡ o.requested_samples)
  pub is_unstable :
      o.status ≡ unstable → (o.completed_samples ≡ o.requested_samples) × (0 < o.failed_samples)
  pub is_inconclusive :
      o.status ≡ inconclusive
      → (0 < o.completed_samples) × (o.completed_samples < o.requested_samples)
  pub is_not_attempted : o.status ≡ not_attempted → o.completed_samples ≡ 0
  pub is_not_applicable : o.status ≡ not_applicable → o.samples ≡ []
  pub is_error :
      o.status ≡ probe_error
      → (o.completed_samples ≡ o.requested_samples) × (any_of is_probe_error o.samples ≡ true)
  pub no_error :
      (o.status ≡ stable) ⊎ (o.status ≡ unstable) → any_of is_probe_error o.samples ≡ false
  pub completed : o.completed_samples ≡ length o.samples
  pub successful : o.successful_samples ≡ count_of is_available o.samples
  pub no_ratio : o.completed_samples ≡ 0 → o.availability_ratio ≡ none
  pub ratio :
      0 < o.completed_samples
      → o.availability_ratio ≡ some (o.successful_samples, o.completed_samples)

conclude-IsConsistent :
    (protocol : String) (interval : ℕ) (slots : ℕ → Slot) (n due : ℕ)
    → 0 < n
    → IsConsistent (conclude n (pos interval) (sample_loop protocol interval slots n 1 due))
unfolding conclude
conclude-IsConsistent protocol interval slots n due some_requested =
    let s = sample_loop protocol interval slots n 1 due in
    let (short, full) = sample_loop-length protocol interval slots n 1 due in
    let fits : length s.samples ≤ n = elim (Bool-cases s.interrupted) [
      | inl i ↦ omega (arith, short i)
      | inr i ↦ omega (arith, full i)
    ] in
    ground (arith, fits, short, full, count_of-le s.samples, streak-le-failed s.samples)

nothing-IsConsistent : (n step : ℕ) → IsConsistent (nothing_to_measure n (pos step))
unfolding nothing_to_measure
nothing-IsConsistent n step = ground arith

conclude-applicable :
    (protocol : String) (step : ℕ) (slots : ℕ → Slot) (n due : ℕ)
    → let o : StabilityObservation =
        if not (is_tcp protocol)
        then nothing_to_measure n (pos step)
        else conclude n (pos step) (sample_loop protocol step slots n 1 due) in
      (o.status ≡ not_applicable) ↔ (is_tcp protocol ≡ false)
unfolding conclude nothing_to_measure
conclude-applicable protocol step slots n due = ground arith

-- The observation of an admitted request, by the protocol.
measure-parts :
    (n : ℕ) (interval : ℤ) (timeout started : ℕ) (slots : ℕ → Slot) (protocol : String)
    (o : StabilityObservation)
    → measure n interval timeout started slots protocol ≡ ok o
    → (step : ℕ) × (0 < n)
      × (o ≡ (
          if not (is_tcp protocol)
          then nothing_to_measure n (pos step)
          else conclude n (pos step) (sample_loop protocol step slots n 1 started)))
unfolding measure
measure-parts n (pos step) timeout started slots protocol o h = (step, ground arith, ground arith)
measure-parts n (negsuc m) timeout started slots protocol o h = absurd (ground arith)

-- In every observation that the probe returns the successes and failures add up to the samples
-- taken, which are at most those requested, and the longest streak of failures is at most their
-- number. A stable service answered every requested sample; an unstable one was sampled to the end
-- of the window and failed at least once, and neither has a sample at which the probe failed; a probe
-- error has such a sample in a full window; an inconclusive window has samples, but too few; nothing is
-- measured exactly for a protocol without TCP, and nothing attempted has no samples; and the
-- availability ratio is that of the successes to the samples taken, if there are any.
pub measure_endpoint_stability-IsConsistent :
    (py : Convert) (event : Fields) (n : ℕ) (interval : ℤ) (timeout started : ℕ) (slots : ℕ → Slot)
    (o : StabilityObservation)
    → measure_endpoint_stability py event n interval timeout started slots ≡ ok o
    → IsConsistent o
      × ((protocol : String) × (claimed_protocol py event ≡ ok protocol)
          × ((o.status ≡ not_applicable) ↔ (is_tcp protocol ≡ false)))
unfolding measure_endpoint_stability
measure_endpoint_stability-IsConsistent py event n interval timeout started slots o h =
    elim (Result-cases (claimed_protocol py event)) [
      | inl (x, bad) ↦ absurd (ground arith)
      | inr (protocol, claimed) ↦
          let (step, positive, shape) =
            measure-parts n interval timeout started slots protocol o (ground arith) in
          (
            rw shape (elim (Bool-cases (is_tcp protocol)) [
              | inl tcp ↦ rw tcp (conclude-IsConsistent protocol step slots n started positive)
              | inr other ↦ rw other (nothing-IsConsistent n step)
            ]),
            (protocol, claimed, rw shape (conclude-applicable protocol step slots n started)),
          )
    ]
