-- ===== src/Probes/Orchestrator/Probing.antt =====
-- What a record of IndependentProbeOrchestrator holds, and of which event.
use mathlib.Core.Path.{subst}
use firm_arbiter.Prelude.{
  ℕ, ◌+◌, ◌≡◌, refl, sym, ap, ◌∙◌, ◌⊎◌, inl, inr, true, some, List, [], ◌∷◌, ◌++◌, arith,
  Bool-cases, Option-cases, ℕ-Eq, String-Eq, pair-Eq, Option-Eq, length, All, length-append,
  All-append, Result, Result-cases, ok,
}
use mathlib.Core.List.{append_assoc}
use firm_arbiter.Json.{Fields, ℤ, says}
use firm_arbiter.Probes.Reachability.{reachable, ReachabilityObservation}
use firm_arbiter.Probes.Authenticity.{HttpServiceSnapshot}
use firm_arbiter.Probes.Orchestrator.{
  OrchestratorError, EndpointProbeRecord, Callables, active_snapshot, sequence_of, endpoint_of,
  handle_event, new_claim, handle_events,
}

-- A record is of a claim among the events: it holds what the reachability probe returned at that
-- event, and a snapshot only of a service that was reached, as it was returned at that event.
pub record IsProbed (live : Callables) (events : List Fields) (r : EndpointProbeRecord)
    : Type 0 where
  pub before : List Fields
  pub event : Fields
  pub after : List Fields
  pub split : events ≡ before ++ event ∷ after
  pub claimed : says event "event" "endpoint_reported" ≡ true
  pub numbered : sequence_of event ≡ ok r.source_event_sequence
  pub placed : endpoint_of event ≡ ok r.candidate_claim
  pub measured : live.reachability (length before) event ≡ ok r.independent_measurement
  pub reached :
      (s : HttpServiceSnapshot)
      → r.active_http_snapshot ≡ some s
      → (r.independent_measurement.status ≡ reachable)
        × (live.snapshot (length before) event ≡ ok s)

module _ (probes : Callables) where
  active_snapshot-reachable :
      (i : ℕ) (event : Fields) (observed : ReachabilityObservation) (s : HttpServiceSnapshot)
      → active_snapshot probes i event observed ≡ ok (some s)
      → (observed.status ≡ reachable) × (probes.snapshot i event ≡ ok s)
  unfolding active_snapshot
  active_snapshot-reachable i event observed s h = ground arith

  handle_event-parts :
      (i : ℕ) (event : Fields) (added : List EndpointProbeRecord)
      → handle_event probes i event ≡ ok added
      → (added ≡ [])
        ⊎ ((r : EndpointProbeRecord) × (added ≡ r ∷ [])
            × (says event "event" "endpoint_reported" ≡ true)
            × (sequence_of event ≡ ok r.source_event_sequence)
            × (endpoint_of event ≡ ok r.candidate_claim)
            × (probes.reachability i event ≡ ok r.independent_measurement)
            × (active_snapshot probes i event r.independent_measurement
                ≡ ok r.active_http_snapshot))
  unfolding handle_event
  handle_event-parts i event added h = elim (Bool-cases (says event "event" "endpoint_reported")) [
    | inr other ↦ inl (ground arith)
    | inl claimed ↦ elim (Result-cases (probes.reachability i event)) [
      | inl (e, raised) ↦ absurd (ground arith)
      | inr (observed, reach) ↦ elim (Result-cases (active_snapshot probes i event observed)) [
        | inl (e, raised) ↦ absurd (ground arith)
        | inr (active, taken) ↦ elim (Result-cases (sequence_of event)) [
          | inl (e, raised) ↦ absurd (ground arith)
          | inr (sequence, numbered) ↦ elim (Result-cases (endpoint_of event)) [
            | inl (e, raised) ↦ absurd (ground arith)
            | inr (claim, placed) ↦ inr (
              record {
                source_event_sequence = sequence;
                candidate_claim = claim;
                independent_measurement = observed;
                active_http_snapshot = active;
              },
              ground arith,
              claimed,
              numbered,
              placed,
              reach,
              taken,
            )
          ]
        ]
      ]
    ]
  ]

  handle_event-IsProbed :
      (past : List Fields) (event : Fields) (rest : List Fields) (added : List EndpointProbeRecord)
      → handle_event probes (length past) event ≡ ok added
      → All (IsProbed probes (past ++ event ∷ rest)) added
  handle_event-IsProbed past event rest added h =
      elim (handle_event-parts (length past) event added h) [
        | inl nothing ↦ rw nothing tt
        | inr (r, same, claimed, numbered, placed, reach, active) ↦ rw same (
          record {
            before = past;
            event = event;
            after = rest;
            split = refl;
            measured = reach;
            claimed = claimed;
            numbered = numbered;
            placed = placed;
            reached = λ s found.
                active_snapshot-reachable (length past) event r.independent_measurement s
                  (active ∙ ap ok found);
          },
          tt,
        )
      ]

  module _ (events : List Fields) where
    pub handle_events-IsProbed :
        (past rest : List Fields) (seen : List ℤ) (before after : List EndpointProbeRecord)
        (r : Result OrchestratorError (Unit {0}))
        → events ≡ past ++ rest
        → All (IsProbed probes events) before
        → handle_events probes (length past) seen before rest ≡ (after, r)
        → All (IsProbed probes events) after
    unfolding handle_events
    handle_events-IsProbed past [] seen before after r split f h =
        subst (All (IsProbed probes events))
          (ap (λ (p : List EndpointProbeRecord × Result OrchestratorError (Unit {0})). p.0) h) f
    handle_events-IsProbed past (event ∷ rest) seen before after r split f h =
        let further : events ≡ (past ++ event ∷ []) ++ rest =
          split ∙ sym (append_assoc past (event ∷ []) rest) in
        let size : length past + 1 ≡ length (past ++ event ∷ []) =
          omega (arith, length-append past (event ∷ [])) in
        elim (Option-cases (new_claim seen event)) [
          | inl passed ↦
              handle_events-IsProbed (past ++ event ∷ []) rest seen before after r further f
                (rw (← size) (ground arith))
          | inr (k, new) ↦ elim (Result-cases (handle_event probes (length past) event)) [
            | inl (e, raised) ↦
                let same : before ≡ after = ground arith in
                subst (All (IsProbed probes events)) same f
            | inr (added, done) ↦
                handle_events-IsProbed (past ++ event ∷ []) rest (k ∷ seen) (before ++ added) after
                  r further
                  (All-append (IsProbed probes events) before added f
                    (rw split (handle_event-IsProbed past event rest added done)))
                  (rw (← size) (ground arith))
          ]
        ]
