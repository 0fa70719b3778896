-- ===== src/Probes/Stability/Streaks.antt =====
-- `_longest_failure_streak` is the length of the longest run of failures among the samples.
use Prim.Native.Nat.{max}
use firm_arbiter.Prelude.{
  ℕ, suc, ◌+◌, ◌≤◌, ◌≡◌, refl, ap, inl, inr, false, List, [], ◌∷◌, ◌++◌, arith, leb, if◌then◌else◌,
  Bool-cases, ℕ-Eq, String-Eq, pair-Eq, Option-Eq, length, All,
}
use firm_arbiter.Probes.Stability.{StabilitySample, streak_from, longest_failure_streak}

abbrev pub Failing : List StabilitySample → Type 0
Failing = All (λ s. s.available ≡ false)

-- A run of `n` failures that starts at the front.
leading : List StabilitySample → ℕ
leading [] = 0
leading (s ∷ samples) = if s.available then 0 else suc (leading samples)

-- The longest run anywhere.
longest_run : List StabilitySample → ℕ
longest_run [] = 0
longest_run (s ∷ samples) = max (leading (s ∷ samples)) (longest_run samples)

leading-le-longest_run : (samples : List StabilitySample) → leading samples ≤ longest_run samples
unfolding leading longest_run
leading-le-longest_run [] = omega arith
leading-le-longest_run (s ∷ samples) = omega arith

streak_from-eq :
    (longest current : ℕ) (samples : List StabilitySample)
    → current ≤ longest
    → streak_from longest current samples
      ≡ max longest (max (current + leading samples) (longest_run samples))
unfolding streak_from leading longest_run
streak_from-eq longest current [] h = omega arith
streak_from-eq longest current (s ∷ samples) h = elim (Bool-cases s.available) [
  | inl up ↦ rw up (
      omega (arith, streak_from-eq longest 0 samples (omega arith), leading-le-longest_run samples))
  | inr down ↦ rw down (
      omega (
        arith,
        streak_from-eq (max longest (current + 1)) (current + 1) samples (omega arith),
        leading-le-longest_run samples,
      ))
]

leading-le : (a b : List StabilitySample) → Failing a → length a ≤ leading (a ++ b)
unfolding leading
leading-le [] b h = omega arith
leading-le (s ∷ a) b (bad, h) = rw bad (omega (arith, leading-le a b h))

longest_run-le : (a b c : List StabilitySample) → Failing b → length b ≤ longest_run (a ++ (b ++ c))
unfolding longest_run
longest_run-le [] b c h = omega (arith, leading-le b c h, leading-le-longest_run (b ++ c))
longest_run-le (s ∷ a) b c h = omega (arith, longest_run-le a b c h)

-- The samples with a run of failures of the given length inside.
pub record HasRun (samples : List StabilitySample) (n : ℕ) : Type 0 where
  pub before : List StabilitySample
  pub run : List StabilitySample
  pub after : List StabilitySample
  pub split : samples ≡ before ++ (run ++ after)
  pub failing : Failing run
  pub size : length run ≡ n

leading-HasRun :
    (samples : List StabilitySample)
    → (run : List StabilitySample) × (after : List StabilitySample) × (samples ≡ run ++ after)
      × Failing run
      × (length run ≡ leading samples)
unfolding leading
leading-HasRun [] = ([], [], refl, tt, refl)
leading-HasRun (s ∷ samples) = elim (Bool-cases s.available) [
  | inl up ↦ ([], s ∷ samples, refl, tt, rw up refl)
  | inr down ↦
      let (run, after, split, failing, size) = leading-HasRun samples in
      (s ∷ run, after, ap (λ l. s ∷ l) split, (down, failing), rw down (ap suc size))
]

longest_run-HasRun : (samples : List StabilitySample) → HasRun samples (longest_run samples)
unfolding longest_run
longest_run-HasRun [] = record {
  before = [];
  run = [];
  after = [];
  split = refl;
  failing = tt;
  size = refl;
}
longest_run-HasRun (s ∷ samples) =
    let r = longest_run-HasRun samples in
    let (run, after, split, failing, size) = leading-HasRun (s ∷ samples) in
    elim (Bool-cases (leb (leading (s ∷ samples)) (longest_run samples))) [
      | inl later ↦ record {
        before = s ∷ r.before;
        run = r.run;
        after = r.after;
        split = ap (λ l. s ∷ l) r.split;
        failing = r.failing;
        size = ground (arith, r.size);
      }
      | inr here ↦ record {
        before = [];
        run = run;
        after = after;
        split = split;
        failing = failing;
        size = ground (arith, size);
      }
    ]

-- The streak that is reported is the length of some run of successive failed samples, and no run of
-- successive failed samples is longer.
pub longest_failure_streak_exact :
    (samples : List StabilitySample)
    → HasRun samples (longest_failure_streak samples)
      × ((a b c : List StabilitySample)
          → samples ≡ a ++ (b ++ c)
          → Failing b
          → length b ≤ longest_failure_streak samples)
unfolding longest_failure_streak
longest_failure_streak_exact samples =
    let same : streak_from 0 0 samples ≡ longest_run samples =
      omega (arith, streak_from-eq 0 0 samples, leading-le-longest_run samples) in
    rw same (longest_run-HasRun samples, λ a b c e h. rw e (longest_run-le a b c h))
