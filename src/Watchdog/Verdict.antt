-- ===== src/Watchdog/Verdict.antt =====
-- What the watchdog's observation may say, from the whole of `_run`.
use firm_arbiter.Prelude.{
  ℕ, ◌-◌, ◌≤◌, String, ◌≡◌, refl, ap, ◌≢◌, ◌⊎◌, inl, inr, true, false, none, some, List, ◌∷◌, ◌++◌,
  arith, Option-cases, ℕ-Eq, String-Eq, pair-Eq, Option-Eq, any_of, ok, err,
}
use firm_arbiter.Json.{says, pos}
use firm_arbiter.Watchdog.{
  returned, Watchdog, terminal_event_state, Trigger, benchmark_complete, experiment_timeout, Reason,
  Beat, Poll, failed, LoopEnd, polling, broke, failed_with, poll_loop,
}
use firm_arbiter.Watchdog.Deadlines.{poll_loop_ends}
use firm_arbiter.Watchdog.Ending.{
  Ending, graceful_shutdown, completed, Observation, classify, observe, Thread, conclude, run, wait,
}
use firm_arbiter.Watchdog.Concluding.{
  terminal_from-seen, classify-completed, shutdown_modes, run-Concluded,
}

module _ (started : ℕ) (started_at : String) (w : Watchdog) (ps : List Poll) (e : Ending)
    (o : Observation) where
  abbrev ran : Thread
  ran = run started started_at w ps e

  -- A run is reported as completed only if the core asked for its end, the adapter was asked to shut
  -- down and was not forced, an observed event says that cleanup is complete and another that the
  -- adapter has stopped, the last outcome that the adapter gave is "completed", and the container
  -- exited with code 0.
  pub run-completed :
      ran.result ≡ some o
      → o.run_outcome ≡ completed
      → (o.trigger ≡ benchmark_complete)
        × (o.termination_mode ≡ graceful_shutdown)
        × (o.shutdown_requested ≡ true)
        × (o.force_termination_used ≡ false)
        × (any_of (λ d. says d "event" "cleanup_complete") ran.watchdog.observed_events ≡ true)
        × (any_of (λ d. says d "event" "adapter_stopped") ran.watchdog.observed_events ≡ true)
        × (o.final_adapter_outcome ≡ some "completed")
        × (e.exit_code ≡ some (pos 0))
  unfolding observe
  run-completed h done =
      let c = run-Concluded started started_at w ps e o h in
      let t = terminal_event_state ran.watchdog in
      let same : o.run_outcome ≡ (classify c.trigger c.reason c.s.mode t e.exit_code).0 =
        ap (λ (x : Observation). x.run_outcome) c.observed in
      ground (
        arith,
        c.observed,
        same,
        classify-completed c.trigger c.reason c.s.mode t e.exit_code,
        shutdown_modes c.w c.trigger e c.s c.stopping,
        terminal_from-seen
            (record { cleanup_seen = false; stopped_seen = false; final_outcome = none })
            ran.watchdog.observed_events,
      )

wait_returned :
    (t : Thread) (o : Observation)
    → wait (some t) ≡ ok o
    → (t.finished ≡ true) × (t.thread_error ≡ none)
unfolding wait
wait_returned t o h = ground arith

conclude-persisted :
    (started : ℕ) (started_at : String) (w : Watchdog) (b : Beat) (t : Trigger) (r : Reason)
    (e : Ending)
    → (conclude started started_at w b t r e).thread_error ≡ none
    → e.persist ≡ returned
unfolding conclude
conclude-persisted started started_at w b t r e fine = ground arith

run-fine :
    (started : ℕ) (started_at : String) (w : Watchdog) (ps : List Poll) (e : Ending)
    → (run started started_at w ps e).finished ≡ true
    → (run started started_at w ps e).thread_error ≡ none
    → e.persist ≡ returned
unfolding run
run-fine started started_at w ps e fin fine = go (poll_loop started w begin ps) refl
  where
    begin : Beat
    begin = record { heartbeats_received = 0; last_heartbeat = started; last_received_at = none }

    go : (l : LoopEnd) → poll_loop started w begin ps ≡ l → e.persist ≡ returned
    go (polling w' b) q = absurd (ground arith)
    go (failed_with w' f) q = absurd (ground arith)
    go (broke w' b t r) q = conclude-persisted started started_at w' b t r e (rw (q, run) at fine)

-- If `wait` returns, the observation was persisted.
pub run-persisted :
    (started : ℕ) (started_at : String) (w : Watchdog) (ps : List Poll) (e : Ending)
    (o : Observation)
    → wait (some (run started started_at w ps e)) ≡ ok o
    → e.persist ≡ returned
run-persisted started started_at w ps e o h =
    let (fin, fine) = wait_returned (run started started_at w ps e) o h in
    run-fine started started_at w ps e fin fine

conclude_settles :
    (started : ℕ) (started_at : String) (w : Watchdog) (b : Beat) (t : Trigger) (r : Reason)
    (e : Ending)
    → let th = conclude started started_at w b t r e in
      (th.finished ≡ true) × ((th.thread_error ≡ none) → th.result ≢ none)
unfolding conclude
conclude_settles started started_at w b t r e = ground arith

abbrev Settled : Thread → Type 0
Settled t =
    (t.finished ≡ true)
    × (((o : Observation) × (wait (some t) ≡ ok o)) ⊎ (wait (some t) ≡ err failed))

wait-Settled :
    (t : Thread) → t.finished ≡ true → (t.thread_error ≡ none → t.result ≢ none) → Settled t
unfolding wait
wait-Settled t fin some_result = elim (Option-cases t.thread_error) [
  | inl fine ↦ elim (Option-cases t.result) [
    | inl missing ↦ absurd (some_result fine missing)
    | inr (o, found) ↦ (fin, inl (o, ground arith))
  ]
  | inr (f, broken) ↦ (fin, inr (ground arith))
]

-- Once a round at or after the experiment timeout has happened the thread finishes, and a caller of
-- `wait` then gets the observation or the error that the watchdog failed: never a time-out, and
-- never a missing observation.
pub run_settles :
    (started : ℕ) (started_at : String) (w : Watchdog) (before : List Poll) (p : Poll)
    (after : List Poll) (e : Ending)
    → w.experiment_timeout ≤ p.now - started
    → let t = run started started_at w (before ++ p ∷ after) e in
      (t.finished ≡ true)
      × (((o : Observation) × (wait (some t) ≡ ok o)) ⊎ (wait (some t) ≡ err failed))
unfolding run
run_settles started started_at w before p after e late =
    go (poll_loop started w begin (before ++ p ∷ after)) refl
  where
    begin : Beat
    begin = record { heartbeats_received = 0; last_heartbeat = started; last_received_at = none }

    go :
        (l : LoopEnd)
        → poll_loop started w begin (before ++ p ∷ after) ≡ l
        → Settled (run started started_at w (before ++ p ∷ after) e)
    go (polling w' b) q = absurd (poll_loop_ends started w begin before p after w' b late q)
    go (failed_with w' f) q = rw (q, run) (wait-Settled _ refl (λ x. absurd (ground arith)))
    go (broke w' b t r) q =
        let (fin, res) = conclude_settles started started_at w' b t r e in
        rw (q, run) (wait-Settled _ fin res)
