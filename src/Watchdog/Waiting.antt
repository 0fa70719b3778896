-- ===== src/Watchdog/Waiting.antt =====
-- `start`, `wait_for_matching_event` and `wait_for_event` of `LifecycleWatchdog`. A wait is woken
-- again and again: what it finds each time is a `Wake`.
use firm_arbiter.Prelude.{
  ℕ, ◌-◌, ◌≤◌, ◌<◌, String, ◌≡◌, refl, ◌↔◌, ◌⊎◌, inl, inr, Bool, true, false, Option, none, some,
  List, [], ◌∷◌, arith, leb, if◌then◌else◌, Bool-cases, Option-cases, any_of, Result, ok, err,
}
use firm_arbiter.Json.{Fields, says}
use firm_arbiter.Watchdog.{WatchdogError, already_started, lifecycle_ended, event_timed_out}

-- `start`, on whether there is a thread already.
unfoldable pub start : Bool → Result WatchdogError Bool
start has_thread = if has_thread then err already_started else ok true

pub record Wake : Type 0 where
  pub observed_events : List Fields
  pub finished : Bool
  pub now : ℕ

unfoldable pub first_match : (Fields → Bool) → List Fields → Option Fields
first_match predicate [] = none
first_match predicate (event ∷ events) =
    if predicate event then some event else first_match predicate events

-- The `while True` of `wait_for_matching_event` over the wakes that happen; `none` waits on.
unfoldable pub wait_for_matching_event :
    (Fields → Bool) → ℕ → List Wake → Option (Result WatchdogError Fields)
wait_for_matching_event predicate deadline [] = none
wait_for_matching_event predicate deadline (w ∷ ws) =
    let rest = wait_for_matching_event predicate deadline ws in
    elim (first_match predicate w.observed_events) [
      | some event ↦ some (ok event)
      | none ↦
          if w.finished
          then some (err lifecycle_ended)
          else if leb (deadline - w.now) 0
          then some (err event_timed_out)
          else rest
    ]

unfoldable pub wait_for_event : String → ℕ → List Wake → Option (Result WatchdogError Fields)
unfolding wait_for_matching_event
wait_for_event event_name deadline =
    wait_for_matching_event (λ event. says event "event" event_name) deadline

first_match-none :
    (predicate : Fields → Bool) (events : List Fields)
    → (first_match predicate events ≡ none) ↔ (any_of predicate events ≡ false)
unfolding first_match
first_match-none predicate [] = (λ _. refl, λ _. refl)
first_match-none predicate (event ∷ events) = ground (arith, first_match-none predicate events)

first_match-some :
    (predicate : Fields → Bool) (events : List Fields) (event : Fields)
    → first_match predicate events ≡ some event
    → predicate event ≡ true
unfolding first_match
first_match-some predicate [] event h = cc
first_match-some predicate (e ∷ events) event h =
    ground (arith, first_match-some predicate events event)

-- The wake at which a wait ends, and why.
abbrev pub Ended : (Fields → Bool) → ℕ → List Wake → Result WatchdogError Fields → Type 0
Ended predicate deadline [] r = ⊥
Ended predicate deadline (w ∷ ws) r =
    ((event : Fields) × (r ≡ ok event)
      × (predicate event ≡ true)
      × (first_match predicate w.observed_events ≡ some event))
    ⊎ ((any_of predicate w.observed_events ≡ false)
        × (((w.finished ≡ true) × (r ≡ err lifecycle_ended))
            ⊎ (((w.finished ≡ false) × (deadline ≤ w.now) × (r ≡ err event_timed_out))
                ⊎ ((w.finished ≡ false) × (w.now < deadline) × Ended predicate deadline ws r))))

-- A wait that ends returns the first observed event that satisfies the predicate, or raises at a
-- wake at which no observed event does: because the lifecycle has ended, or else because the
-- deadline is reached. At the wakes before it no event matched, nothing had ended and time was left.
pub wait_for_matching_event-Ended :
    (predicate : Fields → Bool) (deadline : ℕ) (ws : List Wake) (r : Result WatchdogError Fields)
    → wait_for_matching_event predicate deadline ws ≡ some r
    → Ended predicate deadline ws r
unfolding wait_for_matching_event
wait_for_matching_event-Ended predicate deadline [] r h = cc
wait_for_matching_event-Ended predicate deadline (w ∷ ws) r h =
    elim (Option-cases (first_match predicate w.observed_events)) [
      | inr (event, found) ↦
          inl (event, ground arith, first_match-some predicate w.observed_events event found, found)
      | inl missing ↦ inr (
        (first_match-none predicate w.observed_events).0 missing,
        elim (Bool-cases w.finished) [
          | inl over ↦ inl (over, ground arith)
          | inr going ↦ inr (elim (Bool-cases (leb (deadline - w.now) 0)) [
            | inl late ↦ inl (going, ground arith, ground arith)
            | inr early ↦ inr (
              going,
              ground arith,
              wait_for_matching_event-Ended predicate deadline ws r (ground arith),
            )
          ])
        ],
      )
    ]
