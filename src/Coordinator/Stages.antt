-- ===== src/Coordinator/Stages.antt =====
-- What `derive_candidate_stage_results` makes of the candidate's events.
use firm_arbiter.Prelude.{
  ℕ, String, ◌≡◌, refl, inl, inr, Bool, true, false, ◌&&◌, ◌||◌, Option, none, some, List, [], ◌∷◌,
  ◌++◌, map, arith, eq_iff, if◌then◌else◌, Option-cases, ℕ-Eq, String-Eq, ◌==◌, pair-Eq, Option-Eq,
}
use firm_arbiter.Json.{Json, Fields, get}
use firm_arbiter.Coordinator.{
  Starts, StageResult, start_at, set_default, outcome_is, starts_after, stage_result,
  candidate_start, completed_stage, derive_from, derive_candidate_stage_results, text_at,
}

-- What a result takes over from its event.
abbrev pub told : StageResult → String × Option Json × Option Json × Option String × Option Json
told r = (r.stage, r.outcome, r.message, r.completed_at, r.event_sequence)

-- The events that give a result, with what it takes over.
abbrev pub completions :
    List Fields → List (String × Option Json × Option Json × Option String × Option Json)
completions [] = []
completions (event ∷ events) = elim (candidate_start event) [
  | some _ ↦ completions events
  | none ↦ elim (completed_stage event) [
    | none ↦ completions events
    | some stage ↦
        (
          stage,
          get event "stage_outcome",
          get event "message",
          text_at event "timestamp",
          get event "sequence",
        )
        ∷ completions events
  ]
]

derive_from-told :
    (parse : String → Option ℕ) (starts : Starts) (events : List Fields)
    → map told (derive_from parse starts events) ≡ completions events
unfolding derive_from stage_result
derive_from-told parse starts [] = refl
derive_from-told parse starts (event ∷ events) = elim (Option-cases (candidate_start event)) [
  | inr (time, started) ↦
      ground (arith, derive_from-told parse (set_default "unpack" time starts) events)
  | inl other ↦ elim (Option-cases (completed_stage event)) [
    | inl skipped ↦ ground (arith, derive_from-told parse starts events)
    | inr (stage, done) ↦ ground (
      arith,
      derive_from-told parse (starts_after (stage_result parse starts event stage) starts) events,
    )
  ]
]

-- The time of the first of some results that passes a opens and has one.
abbrev pub first_time : (StageResult → Bool) → List StageResult → Option String
first_time opens [] = none
first_time opens (r ∷ rs) =
    let rest = first_time opens rs in
    if opens r then (elim r.completed_at [ some time ↦ some time | none ↦ rest ]) else rest

abbrev pub opens_emulation : StageResult → Bool
opens_emulation r = r.stage == "unpack" && outcome_is r.outcome "succeeded"

abbrev pub opens_discovery : StageResult → Bool
opens_discovery r =
    r.stage == "emulate"
    && (outcome_is r.outcome "succeeded" || outcome_is r.outcome "inconclusive")

-- A start, given the results before it: that of emulation is the time of the first successful
-- unpacking, and that of endpoint discovery the time of the first emulation that did not fail.
abbrev pub IsTimed : List StageResult → List StageResult → Type 0
IsTimed earlier [] = Unit
IsTimed earlier (r ∷ rs) =
    (r.stage ≡ "emulate" → r.started_at ≡ first_time opens_emulation earlier)
    × (r.stage ≡ "endpoint-discovery" → r.started_at ≡ first_time opens_discovery earlier)
    × IsTimed (earlier ++ r ∷ []) rs

record Knows (starts : Starts) (earlier : List StageResult) : Type 0 where
  emulation : start_at starts "emulate" ≡ first_time opens_emulation earlier
  discovery : start_at starts "endpoint-discovery" ≡ first_time opens_discovery earlier

start_at-append :
    (starts : Starts) (stage name time : String)
    → start_at (starts ++ (name, time) ∷ []) stage ≡ elim (start_at starts stage) [
      | some t ↦ some t
      | none ↦ if name == stage then some time else none
    ]
unfolding start_at
start_at-append [] stage name time = refl
start_at-append ((s, t) ∷ starts) stage name time =
    ground (arith, start_at-append starts stage name time)

start_at-set_default :
    (starts : Starts) (stage name time : String)
    → start_at (set_default name time starts) stage ≡ elim (start_at starts stage) [
      | some t ↦ some t
      | none ↦ if name == stage then some time else none
    ]
unfolding set_default
start_at-set_default starts stage name time =
    ground (arith, start_at-append starts stage name time, eq_iff name stage)

first_time-append :
    (opens : StageResult → Bool) (rs : List StageResult) (r : StageResult)
    → first_time opens (rs ++ r ∷ []) ≡ elim (first_time opens rs) [
      | some t ↦ some t
      | none ↦ if opens r then r.completed_at else none
    ]
first_time-append opens [] r = ground arith
first_time-append opens (q ∷ rs) r = ground (arith, first_time-append opens rs r)

one_stage : (s : String) → s == "unpack" ≡ true → s == "emulate" ≡ false
one_stage s h = rw ((eq_iff s "unpack").0 h) refl

Knows-stage :
    (r : StageResult) (starts : Starts) (earlier : List StageResult)
    → Knows starts earlier
    → Knows (starts_after r starts) (earlier ++ r ∷ [])
unfolding starts_after
Knows-stage r starts earlier k = elim (Option-cases r.completed_at) [
  | inl undated ↦ record {
    emulation = ground (arith, k.emulation, first_time-append opens_emulation earlier r);
    discovery = ground (arith, k.discovery, first_time-append opens_discovery earlier r);
  }
  | inr (time, dated) ↦ record {
    emulation = ground (
      arith,
      k.emulation,
      first_time-append opens_emulation earlier r,
      start_at-set_default starts "emulate" "emulate" time,
      start_at-set_default starts "emulate" "endpoint-discovery" time,
    );
    discovery = ground (
      arith,
      k.discovery,
      first_time-append opens_discovery earlier r,
      one_stage r.stage,
      start_at-set_default starts "endpoint-discovery" "emulate" time,
      start_at-set_default starts "endpoint-discovery" "endpoint-discovery" time,
    );
  }
]

Knows-start :
    (time : String) (starts : Starts) (earlier : List StageResult)
    → Knows starts earlier
    → Knows (set_default "unpack" time starts) earlier
Knows-start time starts earlier k = record {
  emulation = ground (arith, k.emulation, start_at-set_default starts "emulate" "unpack" time);
  discovery =
      ground (arith, k.discovery, start_at-set_default starts "endpoint-discovery" "unpack" time);
}

derive_from-IsTimed :
    (parse : String → Option ℕ) (starts : Starts) (events : List Fields)
    (earlier : List StageResult)
    → Knows starts earlier
    → IsTimed earlier (derive_from parse starts events)
unfolding derive_from stage_result
derive_from-IsTimed parse starts [] earlier k = tt
derive_from-IsTimed parse starts (event ∷ events) earlier k =
    elim (Option-cases (candidate_start event)) [
      | inr (time, started) ↦
          let starts' = set_default "unpack" time starts in
          let rest =
            derive_from-IsTimed parse starts' events earlier (Knows-start time starts earlier k) in
          let same : derive_from parse starts (event ∷ events) ≡ derive_from parse starts' events =
            ground arith in
          rw same rest
      | inl other ↦ elim (Option-cases (completed_stage event)) [
        | inl skipped ↦
            let rest = derive_from-IsTimed parse starts events earlier k in
            let same : derive_from parse starts (event ∷ events) ≡ derive_from parse starts events =
              ground arith in
            rw same rest
        | inr (stage, done) ↦
            let r = stage_result parse starts event stage in
            let rest =
              derive_from-IsTimed parse (starts_after r starts) events (earlier ++ r ∷ [])
                (Knows-stage r starts earlier k) in
            let same : derive_from parse starts (event ∷ events)
                ≡ r ∷ derive_from parse (starts_after r starts) events =
              ground arith in
            rw same (λ is. rw is k.emulation, λ is. rw is k.discovery, rest)
      ]
    ]

-- The results are those of the completed stages, in their order and with what their events tell. An
-- emulation has started when the first successful unpacking before it was completed, if its event
-- bore a time, and an endpoint discovery when the first emulation before it was completed that
-- succeeded or was inconclusive; otherwise their starts are unknown.
pub derive_candidate_stage_results-IsTimed :
    (parse : String → Option ℕ) (events : List Fields)
    → (map told (derive_candidate_stage_results parse events) ≡ completions events)
      × IsTimed [] (derive_candidate_stage_results parse events)
unfolding derive_candidate_stage_results start_at
derive_candidate_stage_results-IsTimed parse events = (
  derive_from-told parse [] events,
  derive_from-IsTimed parse [] events [] (record { emulation = refl; discovery = refl }),
)
