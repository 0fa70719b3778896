-- ===== src/Probes/Orchestrator/Attribution.antt =====
-- What an attributed service has shown: the way from the claims to the authenticity records.
use firm_arbiter.Prelude.{
  ℕ, ◌+◌, String, ◌≡◌, refl, sym, ◌∙◌, ◌≢◌, inl, inr, true, some, List, [], ◌∷◌, ◌++◌, arith,
  Option-cases, ℕ-Eq, String-Eq, pair-Eq, Option-Eq, length, All, length-append, Result,
  Result-cases, ok,
}
use mathlib.Core.List.{append_assoc}
use firm_arbiter.Json.{Json, Fields}
use firm_arbiter.Probes.Reachability.{reachable}
use firm_arbiter.Probes.Authenticity.{attributed, evaluate_http_authenticity}
use firm_arbiter.Probes.Authenticity.Evidence.{IsTrusted, attributed_means}
use firm_arbiter.Probes.Orchestrator.{
  OrchestratorError, EndpointProbeRecord, EndpointAuthenticityRecord, Callables, handle_events,
  event_of_record, finalize_authenticity,
}
use firm_arbiter.Probes.Orchestrator.Probing.{IsProbed, handle_events-IsProbed}

-- What is known of an attributed service: the record that it was probed with, at the place that the
-- record has among all, and what the snapshots have shown.
pub record IsAttributed (lower : String → String) (trusted : List Json) (live probes : Callables)
    (events : List Fields) (records : List EndpointProbeRecord) (a : EndpointAuthenticityRecord)
    : Type 0 where
  pub front : List EndpointProbeRecord
  pub probed : EndpointProbeRecord
  pub back : List EndpointProbeRecord
  pub recorded : records ≡ front ++ probed ∷ back
  pub evidence : IsProbed live events probed
  pub same_sequence : probed.source_event_sequence ≡ a.source_event_sequence
  pub same_claim : probed.candidate_claim ≡ a.candidate_claim
  pub same_snapshot : probed.active_http_snapshot ≡ some a.active_snapshot
  pub was_reached : probed.independent_measurement.status ≡ reachable
  pub captured : a.active_snapshot.status ≡ "captured"
  pub measured_again :
      probes.snapshot (length front) (event_of_record probed) ≡ ok a.post_shutdown_snapshot
  pub gone : a.post_shutdown_snapshot.status ≡ "unreachable"
  pub hash : String
  pub shown : a.active_snapshot.body_sha256 ≡ some hash
  pub whole : a.active_snapshot.body_truncated ≢ some true
  pub trusty : IsTrusted lower hash trusted

module _ (lower : String → String) (live probes : Callables) (trusted : List Json)
    (now : ℕ → String) (events : List Fields) (records : List EndpointProbeRecord) where
  abbrev pub IfAttributed : EndpointAuthenticityRecord → Type 0
  IfAttributed a =
      a.independent_measurement.status ≡ attributed
      → IsAttributed lower trusted live probes events records a

  finalize_authenticity-All :
      (past rest : List EndpointProbeRecord) (found : List EndpointAuthenticityRecord)
      → records ≡ past ++ rest
      → All (IsProbed live events) rest
      → finalize_authenticity lower probes trusted now (length past) rest ≡ ok found
      → All IfAttributed found
  unfolding finalize_authenticity
  finalize_authenticity-All past [] found split f h =
      let same : [] ≡ found = ground arith in rw (← same) tt
  finalize_authenticity-All past (r ∷ rs) found split f h =
      let further : records ≡ (past ++ r ∷ []) ++ rs =
        split ∙ sym (append_assoc past (r ∷ []) rs) in
      let size : length past + 1 ≡ length (past ++ r ∷ []) =
        omega (arith, length-append past (r ∷ [])) in
      elim (Option-cases r.active_http_snapshot) [
        | inl none_taken ↦
            finalize_authenticity-All (past ++ r ∷ []) rs found further f.1
              (rw (← size) (ground arith))
        | inr (active, taken) ↦
            elim (Result-cases (probes.snapshot (length past) (event_of_record r))) [
              | inl (e, raised) ↦ absurd (ground arith)
              | inr (after, seen) ↦
                  elim (Result-cases
                    (finalize_authenticity lower probes trusted now (length past + 1) rs)) [
                      | inl (e, raised) ↦ absurd (ground arith)
                      | inr (others, rest) ↦
                          let a : EndpointAuthenticityRecord = record {
                            source_event_sequence = r.source_event_sequence;
                            candidate_claim = r.candidate_claim;
                            active_snapshot = active;
                            post_shutdown_snapshot = after;
                            independent_measurement =
                                evaluate_http_authenticity lower active after trusted
                                  (now (length past));
                          } in
                          let same : found ≡ a ∷ others = ground arith in
                          rw same (
                            λ is.
                                let (captured, gone, _, proof) =
                                  attributed_means lower active after trusted (now (length past))
                                    is in
                                let (hash, shown, _, whole, trusty) = proof in
                                record {
                                  front = past;
                                  probed = r;
                                  back = rs;
                                  recorded = split;
                                  evidence = f.0;
                                  same_sequence = refl;
                                  same_claim = refl;
                                  same_snapshot = taken;
                                  was_reached = (f.0.reached active taken).0;
                                  captured = captured;
                                  measured_again = seen;
                                  gone = gone;
                                  hash = hash;
                                  shown = shown;
                                  whole = whole;
                                  trusty = trusty;
                                },
                            finalize_authenticity-All (past ++ r ∷ []) rs others further f.1
                                (rw (← size) rest),
                          )
                    ]
            ]
      ]

  -- If the claims among the observed events were handled, and the authenticity of what was recorded
  -- was finalised, then every record that is attributed comes from one of those records, with its
  -- claim and its snapshot. That one was made of an endpoint claim among the events, by the probes'
  -- answers at this claim: the endpoint was reachable, and only then the snapshot was taken. It was
  -- captured whole with a trusted hash, and the snapshot after the shutdown, taken for the same record,
  -- found the service unreachable.
  pub finalize_authenticity-IsAttributed :
      (handled : Result OrchestratorError (Unit {0})) (found : List EndpointAuthenticityRecord)
      → handle_events live 0 [] [] events ≡ (records, handled)
      → finalize_authenticity lower probes trusted now 0 records ≡ ok found
      → All IfAttributed found
  finalize_authenticity-IsAttributed handled found h f =
      finalize_authenticity-All [] records found refl
        (handle_events-IsProbed live events [] events [] [] records handled refl tt h) f
