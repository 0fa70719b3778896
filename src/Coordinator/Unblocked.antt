-- ===== src/Coordinator/Unblocked.antt =====
-- What is known of the candidate when the waits are over and no stage blocks the work that follows.
use firm_arbiter.Prelude.{
  ℕ, String, ◌≡◌, refl, ap, ◌∙◌, ◌⊎◌, inl, inr, Bool, true, false, some, List, [], ◌∷◌, arith,
  eq_iff, Option-cases, ℕ-Eq, String-Eq, pair-Eq, Option-Eq, Result, ok, err,
}
use firm_arbiter.Json.{Json, Fields, text, get, is_text, says}
use firm_arbiter.Watchdog.{WatchdogError}
use firm_arbiter.Watchdog.Waiting.{
  Wake, wait_for_matching_event, Ended, wait_for_matching_event-Ended,
}
use firm_arbiter.Coordinator.{member, stage_in, candidate_stage_blocks_following_work}
use firm_arbiter.Coordinator.Readiness.{
  completes, readiness_predicate, endpoint_predicate, Readiness, is_none, await_readiness,
  await_endpoints, await_static_analysis, await_stages,
}

Ended-ok :
    (predicate : Fields → Bool) (deadline : ℕ) (ws : List Wake) (event : Fields)
    → Ended predicate deadline ws (ok event)
    → predicate event ≡ true
Ended-ok predicate deadline [] event h = absurd h
Ended-ok predicate deadline (w ∷ ws) event (inl (e, same, matches, _)) = ground arith
Ended-ok predicate deadline (w ∷ ws) event (inr (_, inl (_, e))) = absurd (ground arith)
Ended-ok predicate deadline (w ∷ ws) event (inr (_, inr (inl (_, _, e)))) = absurd (ground arith)
Ended-ok predicate deadline (w ∷ ws) event (inr (_, inr (inr (_, _, rest)))) =
    Ended-ok predicate deadline ws event rest

wait-matches :
    (predicate : Fields → Bool) (deadline : ℕ) (ws : List Wake) (event : Fields)
    → wait_for_matching_event predicate deadline ws ≡ some (ok event)
    → predicate event ≡ true
wait-matches predicate deadline ws event h =
    Ended-ok predicate deadline ws event
      (wait_for_matching_event-Ended predicate deadline ws (ok event) h)

module _ (event : Fields) where
  says-text : (key value : String) → says event key value ≡ true → get event key ≡ some (text value)
  unfolding says is_text
  says-text key value h = elim (Option-cases (get event key)) [
    | inl missing ↦ absurd (ground arith)
    | inr (v, found) ↦ found ∙ ap some (go v (ground arith))
  ]
    where
      go : (v : Json) → is_text v value ≡ true → v ≡ text value
      go (text s) e = ap text ((eq_iff s value).0 e)
      go Json.null e = absurd (ground arith)
      go (Json.boolean b) e = absurd (ground arith)
      go (Json.integer n) e = absurd (ground arith)
      go (Json.negative n) e = absurd (ground arith)
      go (Json.float m t) e = absurd (ground arith)
      go (Json.array is) e = absurd (ground arith)
      go (Json.object fs) e = absurd (ground arith)

  stage_in-member :
      (stage : String) (stages : List String)
      → says event "stage" stage ≡ true
      → stage_in event stages ≡ member stage stages
  unfolding stage_in
  stage_in-member stage stages h = rw (says-text "stage" stage h, stage_in) refl

  -- A completed stage that does not block has succeeded, or is an inconclusive emulation.
  unblocked :
      (stage : String) (stages : List String)
      → completes stage event ≡ true
      → member stage stages ≡ true
      → candidate_stage_blocks_following_work event stages ≡ false
      → (says event "stage_outcome" "succeeded" ≡ true)
        ⊎ ((says event "stage" "emulate" ≡ true)
            × (says event "stage_outcome" "inconclusive" ≡ true))
  unfolding candidate_stage_blocks_following_work
  unblocked stage stages h m b = ground (arith, stage_in-member stage stages)

  -- What blocks for some stages blocks for more.
  unpack_blocks :
      candidate_stage_blocks_following_work event ("unpack" ∷ []) ≡ true
      → candidate_stage_blocks_following_work event ("unpack" ∷ "emulate" ∷ []) ≡ true
  unfolding candidate_stage_blocks_following_work stage_in
  unpack_blocks h = ground arith

  blocks_mono :
      candidate_stage_blocks_following_work event ("unpack" ∷ "emulate" ∷ []) ≡ true
      → candidate_stage_blocks_following_work event
          ("unpack" ∷ "emulate" ∷ "endpoint-discovery" ∷ [])
        ≡ true
  unfolding candidate_stage_blocks_following_work stage_in
  blocks_mono h = ground arith

static_keeps :
    (requested : List String) (answer : Result WatchdogError Fields) (r : Readiness)
    → let r' = await_static_analysis requested answer r in
      (r'.observed_event ≡ r.observed_event)
      × (r'.blocking_event ≡ r.blocking_event)
      × (r'.wait_error ≡ r.wait_error)
      × (r'.endpoint_wait_error ≡ r.endpoint_wait_error)
unfolding await_static_analysis
static_keeps requested (ok event) r = ground arith
static_keeps requested (err e) r = ground arith

-- The second wait keeps what the first found. If nothing blocks behind it, then nothing did before,
-- and the wait, if it was due, returned an event that does not block or set its error.
endpoints_keep :
    (requested : List String) (answer : Result WatchdogError Fields) (r : Readiness)
    → let r' = await_endpoints requested answer r in
      (r'.observed_event ≡ r.observed_event)
      × (r'.wait_error ≡ r.wait_error)
      × (is_none r'.blocking_event ≡ true → is_none r.blocking_event ≡ true)
unfolding await_endpoints
endpoints_keep requested (ok event) r = ground arith
endpoints_keep requested (err e) r = ground arith

endpoints-ok :
    (requested : List String) (answer : Result WatchdogError Fields) (r : Readiness)
    → let r' = await_endpoints requested answer r in
      member "endpoint-discovery" requested ≡ true
      → is_none r'.wait_error ≡ true
      → is_none r'.blocking_event ≡ true
      → is_none r'.endpoint_wait_error ≡ true
      → (event : Fields) × (answer ≡ ok event)
        × (candidate_stage_blocks_following_work event
              ("unpack" ∷ "emulate" ∷ "endpoint-discovery" ∷ [])
            ≡ false)
unfolding await_endpoints
endpoints-ok requested (ok event) r due clear unblocked reached = (event, refl, ground arith)
endpoints-ok requested (err e) r due clear unblocked reached = absurd (ground arith)

readiness-ok :
    (answer : Result WatchdogError Fields)
    → is_none (await_readiness answer).wait_error ≡ true
    → is_none (await_readiness answer).blocking_event ≡ true
    → (event : Fields) × (answer ≡ ok event)
      × ((await_readiness answer).observed_event ≡ some event)
      × (candidate_stage_blocks_following_work event ("unpack" ∷ "emulate" ∷ []) ≡ false)
unfolding await_readiness
readiness-ok (ok event) clear unblocked = (event, refl, refl, ground arith)
readiness-ok (err e) clear unblocked = absurd (ground arith)

-- A stage has come to its end, with an outcome that lets the work go on.
abbrev pub HasSucceeded : String → Fields → Type 0
HasSucceeded stage event =
    (completes stage event ≡ true)
    × ((says event "stage_outcome" "succeeded" ≡ true)
        ⊎ ((says event "stage" "emulate" ≡ true)
            × (says event "stage_outcome" "inconclusive" ≡ true)))

emulate_unblocked :
    (requested : List String) (event : Fields)
    → member "emulate" requested ≡ true
    → readiness_predicate requested event ≡ true
    → candidate_stage_blocks_following_work event ("unpack" ∷ "emulate" ∷ []) ≡ false
    → HasSucceeded "emulate" event
unfolding readiness_predicate
emulate_unblocked requested event emulate matches free =
    let done : completes "emulate" event ≡ true = ground (arith, unpack_blocks event) in
    (done, unblocked event "emulate" ("unpack" ∷ "emulate" ∷ []) done refl free)

other_stage :
    (event : Fields)
    → says event "stage" "emulate" ≡ true
    → says event "stage" "endpoint-discovery" ≡ false
unfolding says is_text
other_stage event h = rw (says-text event "stage" "emulate" h, says) refl

endpoints_unblocked :
    (event : Fields)
    → endpoint_predicate event ≡ true
    → candidate_stage_blocks_following_work event ("unpack" ∷ "emulate" ∷ "endpoint-discovery" ∷ [])
      ≡ false
    → (completes "endpoint-discovery" event ≡ true)
      × (says event "stage_outcome" "succeeded" ≡ true)
unfolding endpoint_predicate
endpoints_unblocked event matches free =
    let done : completes "endpoint-discovery" event ≡ true = ground (arith, blocks_mono event) in
    let succeeded =
      unblocked event "endpoint-discovery" ("unpack" ∷ "emulate" ∷ "endpoint-discovery" ∷ []) done
        refl free in
    (
      done,
      elim succeeded [
        | inl outcome ↦ outcome
        | inr (emulates, _) ↦ absurd (ground (arith, other_stage event emulates))
      ],
    )

module _ (requested : List String) (first second third : Result WatchdogError Fields)
    (deadline₁ deadline₂ : ℕ) (wakes₁ wakes₂ : List Wake)
    (waited₁ : wait_for_matching_event (readiness_predicate requested) deadline₁ wakes₁
      ≡ some first) where
  abbrev readiness : Readiness
  readiness = await_stages requested first second third

  -- If emulation was requested, no wait for it raised, and nothing blocks the work that follows,
  -- then the event that ended the first wait completes the emulation, as succeeded or inconclusive.
  -- If in addition endpoint discovery was requested and its wait did not raise, then the event that
  -- ended that wait completes the endpoint discovery as succeeded.
  pub await_stages-HasSucceeded :
      wait_for_matching_event endpoint_predicate deadline₂ wakes₂ ≡ some second
      → member "emulate" requested ≡ true
      → is_none readiness.wait_error ≡ true
      → is_none readiness.blocking_event ≡ true
      → ((event : Fields) × (readiness.observed_event ≡ some event) × HasSucceeded "emulate" event)
        × (member "endpoint-discovery" requested ≡ true
            → is_none readiness.endpoint_wait_error ≡ true
            → (event : Fields) × (second ≡ ok event)
              × (completes "endpoint-discovery" event ≡ true)
              × (says event "stage_outcome" "succeeded" ≡ true))
  unfolding await_stages
  await_stages-HasSucceeded waited₂ emulate clear unblocked_run =
      let r₁ = await_readiness first in
      let r₂ = await_endpoints requested second r₁ in
      let (seen₃, block₃, error₃, endpoint₃) = static_keeps requested third r₂ in
      let (seen₂, error₂, block₂) = endpoints_keep requested second r₁ in
      let (event, found, shown, free) = readiness-ok first (ground arith) (ground arith) in
      (
        (
          event,
          seen₃ ∙ seen₂ ∙ shown,
          emulate_unblocked requested event emulate
              (wait-matches (readiness_predicate requested) deadline₁ wakes₁ event
                (waited₁ ∙ ap some found))
              free,
        ),
        λ due reached.
            let (e₂, same, free₂) =
              endpoints-ok requested second r₁ due (ground arith) (ground arith) (ground arith) in
            let matches =
              wait-matches endpoint_predicate deadline₂ wakes₂ e₂ (waited₂ ∙ ap some same) in
            let (done, outcome) = endpoints_unblocked e₂ matches free₂ in (e₂, same, done, outcome),
      )
