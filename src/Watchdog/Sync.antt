-- ===== src/Watchdog/Sync.antt =====
-- `_sync_supervisor_events` observes each sequence number once.
use firm_arbiter.Prelude.{
  ◌≡◌, refl, sym, ◌∙◌, inl, inr, true, false, Option, none, some, List, [], ◌∷◌, ◌++◌, map, arith,
  Bool-cases, Option-cases, All,
}
use mathlib.Core.List.{append_assoc, append-nil, reverse, reverse-append}
use firm_arbiter.Json.{Fields, get, as_int, ℤ, ℤ-Eq, ℤ_eq_iff}
use firm_arbiter.Watchdog.{Watchdog, known, sync_event, sync}

-- The sequence number by which an event is known.
abbrev pub key : Fields → Option ℤ
key event = elim (get event "sequence") [ none ↦ none | some v ↦ as_int v ]

abbrev pub Distinct : List ℤ → Type 0
Distinct [] = Unit
Distinct (k ∷ ks) = (known k ks ≡ false) × Distinct ks

-- The numbers of the observed events, the last one first, are the known ones, and are distinct.
pub record IsSynced (w : Watchdog) : Type 0 where
  pub numbered : map key (reverse w.observed_events) ≡ map some w.known_sequences
  pub distinct : Distinct w.known_sequences

-- One event is passed over, or is new and observed.
pub data Meeting (w : Watchdog) (event : Fields) : Type 0 where
  passed :
      ((k : ℤ) → key event ≡ some k → known k w.known_sequences ≡ true)
      → sync_event w event ≡ (w, false)
      → Meeting w event
  met :
      (k : ℤ)
      → key event ≡ some k
      → known k w.known_sequences ≡ false
      → sync_event w event ≡ (
        record w {
          observed_events = w.observed_events ++ event ∷ [];
          known_sequences = k ∷ w.known_sequences;
        },
        true,
      )
      → Meeting w event

pub sync_event-Meeting : (w : Watchdog) (event : Fields) → Meeting w event
unfolding sync_event
sync_event-Meeting w event = elim (Option-cases (key event)) [
  | inl missing ↦ Meeting.passed (λ k found. absurd (ground arith)) (ground arith)
  | inr (k, found) ↦ elim (Bool-cases (known k w.known_sequences)) [
    | inl old ↦
        Meeting.passed (λ j f. let same : k ≡ j = ground arith in rw (← same) old) (ground arith)
    | inr unseen ↦ Meeting.met k found unseen (ground arith)
  ]
]

sync_event-IsSynced : (w : Watchdog) (event : Fields) → IsSynced w → IsSynced (sync_event w event).0
sync_event-IsSynced w event h = go (sync_event-Meeting w event)
  where
    go : Meeting w event → IsSynced (sync_event w event).0
    go (Meeting.passed old e) = rw e h
    go (Meeting.met k found unseen e) = rw e (record {
      numbered = rw (reverse-append w.observed_events (event ∷ [])) (cc (h.numbered, found));
      distinct = (unseen, h.distinct);
    })

-- Whatever events the supervisor holds, the sequence numbers of the observed events stay distinct,
-- and they stay the known ones: no sequence number is observed twice.
pub sync-IsSynced : (w : Watchdog) (events : List Fields) → IsSynced w → IsSynced (sync w events).0
unfolding sync
sync-IsSynced w [] h = h
sync-IsSynced w (event ∷ events) h =
    sync-IsSynced (sync_event w event).0 events (sync_event-IsSynced w event h)

known-sync_event :
    (w : Watchdog) (event : Fields) (j : ℤ)
    → known j w.known_sequences ≡ true
    → known j (sync_event w event).0.known_sequences ≡ true
unfolding sync_event
known-sync_event w event j h = ground arith

known-sync :
    (w : Watchdog) (events : List Fields) (j : ℤ)
    → known j w.known_sequences ≡ true
    → known j (sync w events).0.known_sequences ≡ true
unfolding sync
known-sync w [] j h = h
known-sync w (event ∷ events) j h =
    known-sync (sync_event w event).0 events j (known-sync_event w event j h)

-- Every event with a number is known afterwards.
abbrev AllKnown : Watchdog → List Fields → Type 0
AllKnown w = All (λ event. (k : ℤ) → key event ≡ some k → known k w.known_sequences ≡ true)

sync-AllKnown : (w : Watchdog) (events : List Fields) → AllKnown (sync w events).0 events
unfolding sync
sync-AllKnown w [] = tt
sync-AllKnown w (event ∷ events) = (
  λ k found.
      known-sync (sync_event w event).0 events k (after k found (sync_event-Meeting w event)),
  sync-AllKnown (sync_event w event).0 events,
)
  where
    after :
        (k : ℤ)
        → key event ≡ some k
        → Meeting w event
        → known k (sync_event w event).0.known_sequences ≡ true
    after k found (Meeting.passed old e) = rw e (old k found)
    after k found (Meeting.met j f unseen e) = rw e (ground (arith, ℤ_eq_iff j k))

sync_known : (w : Watchdog) (events : List Fields) → AllKnown w events → sync w events ≡ (w, [])
unfolding sync
sync_known w [] h = refl
sync_known w (event ∷ events) (k, ks) = go (sync_known w events ks) (sync_event-Meeting w event)
  where
    go : sync w events ≡ (w, []) → Meeting w event → sync w (event ∷ events) ≡ (w, [])
    go ih (Meeting.passed old e) = rw e (rw ih)
    go ih (Meeting.met j f unseen e) = absurd (ground (arith, k j f))

-- Syncing again with the same events observes nothing new and changes nothing.
pub sync_twice :
    (w : Watchdog) (events : List Fields) → sync (sync w events).0 events ≡ ((sync w events).0, [])
sync_twice w events = sync_known (sync w events).0 events (sync-AllKnown w events)

-- A sync appends what it returns to the observed events.
pub observed-sync :
    (w : Watchdog) (events : List Fields)
    → (sync w events).0.observed_events ≡ w.observed_events ++ (sync w events).1
unfolding sync
observed-sync w [] = sym (append-nil w.observed_events)
observed-sync w (event ∷ events) =
    go (observed-sync (sync_event w event).0 events) (sync_event-Meeting w event)
  where
    go :
        ((sync (sync_event w event).0 events).0.observed_events
          ≡ (sync_event w event).0.observed_events ++ (sync (sync_event w event).0 events).1)
        → Meeting w event
        → (sync w (event ∷ events)).0.observed_events
          ≡ w.observed_events ++ (sync w (event ∷ events)).1
    go ih (Meeting.passed old e) = rw e (rw e at ih)
    go ih (Meeting.met k f unseen e) =
        rw e ((rw e at ih) ∙ append_assoc w.observed_events (event ∷ []) _)
