-- ===== src/Watchdog/Triggers.antt =====
-- Why and when the loop of `_run` ends: each trigger's reading, the deadline, and the heartbeats.
use firm_arbiter.Prelude.{
  ℕ, ◌-◌, ◌≤◌, ◌<◌, ◌≡◌, refl, ◌⊎◌, inl, inr, true, false, Option, none, some, List, [], ◌∷◌, arith,
  Bool-cases, length,
}
use firm_arbiter.Json.{Fields}
use firm_arbiter.Watchdog.{
  Failure, Call, returned, raised, Watchdog, sync, sync_event, Trigger, contract_error,
  unexpected_exit, benchmark_complete, experiment_timeout, heartbeat_lost, Reason,
  stopped_before_request, Beat, Poll, scan, judge, LoopEnd, broke, failed_with, poll_loop,
}

-- A round's new watchdog, its newly observed events, and its heartbeats.
abbrev pub seen_by : Watchdog → Poll → Watchdog
seen_by w p = (sync w p.events).0

abbrev pub new_events : Watchdog → Poll → List Fields
new_events w p = (sync w p.events).1

abbrev pub beats_of : Watchdog → Poll → Beat → Beat
beats_of w p b = (scan p 0 b (new_events w p)).0

abbrev pub judged : ℕ → Watchdog → Poll → Beat → Option (Trigger × Reason)
judged started w p b = judge (seen_by w p) started p (length (new_events w p)) (beats_of w p b)

-- The four ways of one round.
pub data Turn (started : ℕ) (w : Watchdog) (b : Beat) (p : Poll) (ps : List Poll) (end : LoopEnd)
    : Type 0 where
  fails : (f : Failure) → p.drained ≡ raised f → end ≡ failed_with w f → Turn started w b p ps end
  stops :
      p.drained ≡ returned
      → (scan p 0 b (new_events w p)).1 ≡ true
      → end ≡ broke (seen_by w p) (beats_of w p b) unexpected_exit stopped_before_request
      → Turn started w b p ps end
  judges :
      (t : Trigger) (r : Reason)
      → p.drained ≡ returned
      → (scan p 0 b (new_events w p)).1 ≡ false
      → judged started w p b ≡ some (t, r)
      → end ≡ broke (seen_by w p) (beats_of w p b) t r
      → Turn started w b p ps end
  goes :
      p.drained ≡ returned
      → (scan p 0 b (new_events w p)).1 ≡ false
      → judged started w p b ≡ none
      → end ≡ poll_loop started (seen_by w p) (beats_of w p b) ps
      → Turn started w b p ps end

pub poll_loop-Turn :
    (started : ℕ) (w : Watchdog) (b : Beat) (p : Poll) (ps : List Poll)
    → Turn started w b p ps (poll_loop started w b (p ∷ ps))
unfolding poll_loop
poll_loop-Turn started w b p ps = by_drain p.drained refl
  where
    by_judge :
        p.drained ≡ returned
        → (scan p 0 b (new_events w p)).1 ≡ false
        → (o : Option (Trigger × Reason)) → judged started w p b ≡ o
        → Turn started w b p ps (poll_loop started w b (p ∷ ps))
    by_judge d q none e = Turn.goes d q e (ground arith)
    by_judge d q (some (t, r)) e = Turn.judges t r d q e (ground arith)

    by_drain : (c : Call) → p.drained ≡ c → Turn started w b p ps (poll_loop started w b (p ∷ ps))
    by_drain (raised f) d = Turn.fails f d (ground arith)
    by_drain returned d = elim (Bool-cases (scan p 0 b (new_events w p)).1) [
      | inl q ↦ Turn.stops d q (ground arith)
      | inr q ↦ by_judge d q (judged started w p b) refl
    ]

-- The readings under which a trigger is drawn, in the order in which the loop asks for them.
abbrev pub Reads : ℕ → Watchdog → Poll → Beat → Trigger → Type 0
Reads started w p b contract_error = ⊥
Reads started w p b unexpected_exit =
    ((scan p 0 b (new_events w p)).1 ≡ true)
    ⊎ ((p.core_set (length (new_events w p)) ≡ false) × (p.container_running ≡ false))
Reads started w p b benchmark_complete = p.core_set (length (new_events w p)) ≡ true
Reads started w p b experiment_timeout =
    (p.core_set (length (new_events w p)) ≡ false)
    × (p.container_running ≡ true)
    × (w.experiment_timeout ≤ p.now - started)
Reads started w p b heartbeat_lost =
    (p.core_set (length (new_events w p)) ≡ false)
    × (p.container_running ≡ true)
    × (p.now - started < w.experiment_timeout)
    × (w.heartbeat_timeout ≤ p.now - (beats_of w p b).last_heartbeat)

-- The settings do not change.
pub sync-same :
    (w : Watchdog) (events : List Fields)
    → ((sync w events).0.experiment_timeout ≡ w.experiment_timeout)
      × ((sync w events).0.heartbeat_timeout ≡ w.heartbeat_timeout)
unfolding sync sync_event
sync-same w [] = (refl, refl)
sync-same w (event ∷ events) = ground (arith, sync-same (sync_event w event).0 events)

pub judge-Reads :
    (started : ℕ) (w : Watchdog) (p : Poll) (b : Beat) (t : Trigger) (r : Reason)
    → judged started w p b ≡ some (t, r)
    → Reads started w p b t
unfolding judge
judge-Reads started w p b contract_error r h = absurd (ground arith)
judge-Reads started w p b unexpected_exit r h = inr (ground arith, ground arith)
judge-Reads started w p b benchmark_complete r h = ground arith
judge-Reads started w p b experiment_timeout r h = ground (arith, sync-same w p.events)
judge-Reads started w p b heartbeat_lost r h = ground (arith, sync-same w p.events)
