-- ===== src/Watchdog/Concluding.antt =====
-- How an observation of `_run` is made in LifecycleWatchdog, from the round that draws its trigger on.
use firm_arbiter.Prelude.{
  ℕ, String, ◌≡◌, refl, sym, ◌∙◌, ◌≢◌, ◌↔◌, ◌⊎◌, inl, inr, true, false, ◌||◌, Option, none, some,
  List, [], ◌∷◌, arith, eq_iff, ℕ-Eq, String-Eq, pair-Eq, Option-Eq, length, any_of, Result-cases,
  ok,
}
use firm_arbiter.Json.{Fields, says, ℤ, pos, ℤ_eq_iff}
use firm_arbiter.Watchdog.{
  raised, docker_supervisor_error, Watchdog, Terminal, terminal_step, terminal_from, Trigger,
  contract_error, unexpected_exit, benchmark_complete, experiment_timeout, heartbeat_lost, Reason,
  Beat, Poll, judge, LoopEnd, polling, broke, failed_with, poll_loop,
}
use firm_arbiter.Watchdog.Triggers.{Turn, poll_loop-Turn, seen_by, beats_of, new_events}
use firm_arbiter.Watchdog.Ending.{
  Ending, Mode, already_exited, graceful_shutdown, forced_termination, completed, shutdown_failed,
  unexpected_early_exit, lost_heartbeat, timed_out, Observation, Stop, shutdown, says_completed,
  is_zero, classify, observe, Thread, conclude, run, says_completed, is_zero,
}

terminal_step-seen :
    (s : Terminal) (event : Fields)
    → ((terminal_step s event).cleanup_seen
        ≡ (s.cleanup_seen || says event "event" "cleanup_complete"))
      × ((terminal_step s event).stopped_seen
          ≡ (s.stopped_seen || says event "event" "adapter_stopped"))
unfolding terminal_step
terminal_step-seen s event = ground arith

-- The two flags say whether such an event was observed.
pub terminal_from-seen :
    (s : Terminal) (events : List Fields)
    → ((terminal_from s events).cleanup_seen
        ≡ (s.cleanup_seen || any_of (λ e. says e "event" "cleanup_complete") events))
      × ((terminal_from s events).stopped_seen
          ≡ (s.stopped_seen || any_of (λ e. says e "event" "adapter_stopped") events))
unfolding terminal_from
terminal_from-seen s [] = ground arith
terminal_from-seen s (event ∷ events) =
    ground (arith, terminal_step-seen s event, terminal_from-seen (terminal_step s event) events)

says_completed-eq : (o : Option String) → says_completed o ≡ true → o ≡ some "completed"
says_completed-eq none h = cc
says_completed-eq (some outcome) h = ground (arith, eq_iff outcome "completed")

is_zero-eq : (code : Option ℤ) → is_zero code ≡ true → code ≡ some (pos 0)
is_zero-eq none h = cc
is_zero-eq (some code) h = ground (arith, ℤ_eq_iff code (pos 0))

pub classify-completed :
    (trigger : Trigger) (reason : Reason) (mode : Mode) (t : Terminal) (code : Option ℤ)
    → (classify trigger reason mode t code).0 ≡ completed
    → (trigger ≡ benchmark_complete)
      × (mode ≡ graceful_shutdown)
      × (t.cleanup_seen ≡ true)
      × (t.stopped_seen ≡ true)
      × (t.final_outcome ≡ some "completed")
      × (code ≡ some (pos 0))
unfolding classify
classify-completed trigger reason mode t code h =
    ground (arith, says_completed-eq t.final_outcome, is_zero-eq code)

pub classify_outcome :
    (trigger : Trigger) (reason : Reason) (mode : Mode) (t : Terminal) (code : Option ℤ)
    → let outcome = (classify trigger reason mode t code).0 in
      (trigger ≡ unexpected_exit → outcome ≡ unexpected_early_exit)
      × (trigger ≡ heartbeat_lost → outcome ≡ lost_heartbeat)
      × (trigger ≡ experiment_timeout → outcome ≡ timed_out)
      × (trigger ≡ benchmark_complete → (outcome ≡ completed) ⊎ (outcome ≡ shutdown_failed))
unfolding classify
classify_outcome trigger reason mode t code = ground arith

-- How an observation was made.
pub record Concluded (t : Thread) (o : Observation) (e : Ending) : Type 0 where
  pub w : Watchdog
  pub started : ℕ
  pub started_at : String
  pub b : Beat
  pub trigger : Trigger
  pub reason : Reason
  pub s : Stop
  pub stopping : (shutdown w trigger e).1 ≡ ok s
  pub observed : o ≡ observe t.watchdog started started_at b trigger reason s e
  pub sane : trigger ≢ contract_error

conclude-Concluded :
    (started : ℕ) (started_at : String) (w : Watchdog) (b : Beat) (trigger : Trigger)
    (reason : Reason) (e : Ending) (o : Observation)
    → trigger ≢ contract_error
    → (conclude started started_at w b trigger reason e).result ≡ some o
    → Concluded (conclude started started_at w b trigger reason e) o e
unfolding conclude
conclude-Concluded started started_at w b trigger reason e o sane h =
    elim (Result-cases (shutdown w trigger e).1) [
      | inl (f, bad) ↦ absurd (ground arith)
      | inr (s, done) ↦ record {
        w = w;
        started = started;
        started_at = started_at;
        b = b;
        trigger = trigger;
        reason = reason;
        s = s;
        stopping = done;
        observed = ground arith;
        sane = sane;
      }
    ]

judge-ne-contract_error :
    (w : Watchdog) (started : ℕ) (p : Poll) (seen : ℕ) (b : Beat) (t : Trigger) (r : Reason)
    → judge w started p seen b ≡ some (t, r)
    → t ≢ contract_error
unfolding judge
judge-ne-contract_error w started p seen b t r h = ground arith

poll_loop-ne-contract_error :
    (started : ℕ) (w : Watchdog) (b : Beat) (ps : List Poll) (w' : Watchdog) (b' : Beat)
    (t : Trigger) (r : Reason)
    → poll_loop started w b ps ≡ broke w' b' t r
    → t ≢ contract_error
unfolding poll_loop
poll_loop-ne-contract_error started w b [] w' b' t r h = cc
poll_loop-ne-contract_error started w b (p ∷ ps) w' b' t r h =
    go (poll_loop-ne-contract_error started (seen_by w p) (beats_of w p b) ps w' b' t r)
      (poll_loop-Turn started w b p ps)
  where
    go :
        (poll_loop started (seen_by w p) (beats_of w p b) ps ≡ broke w' b' t r → t ≢ contract_error)
        → Turn started w b p ps (poll_loop started w b (p ∷ ps))
        → t ≢ contract_error
    go ih (Turn.fails f d e) = absurd (ground arith)
    go ih (Turn.stops d q e) = ground arith
    go ih (Turn.judges t' r' d q j e) = ground (
      arith,
      judge-ne-contract_error (seen_by w p) started p (length (new_events w p)) (beats_of w p b) t'
          r' j,
    )
    go ih (Turn.goes d q j e) = ih (sym e ∙ h)

pub shutdown_modes :
    (w : Watchdog) (trigger : Trigger) (e : Ending) (s : Stop)
    → (shutdown w trigger e).1 ≡ ok s
    → ((s.force_termination_used ≡ true) ↔ (s.mode ≡ forced_termination))
      × ((s.shutdown_requested ≡ false) ↔ (s.mode ≡ already_exited))
      × (s.mode ≡ forced_termination → e.wait_for_exit ≡ raised docker_supervisor_error)
      × (s.mode ≡ already_exited → (trigger ≡ unexpected_exit) × (e.container_running ≡ false))
unfolding shutdown
shutdown_modes w trigger e s h = ground arith

pub run-Concluded :
    (started : ℕ) (started_at : String) (w : Watchdog) (ps : List Poll) (e : Ending)
    (o : Observation)
    → (run started started_at w ps e).result ≡ some o
    → Concluded (run started started_at w ps e) o e
unfolding run
run-Concluded started started_at w ps e o h = go (poll_loop started w begin ps) refl
  where
    begin : Beat
    begin = record { heartbeats_received = 0; last_heartbeat = started; last_received_at = none }

    go :
        (l : LoopEnd)
        → poll_loop started w begin ps ≡ l
        → Concluded (run started started_at w ps e) o e
    go (polling w' b) q = absurd (ground arith)
    go (failed_with w' f) q = absurd (ground arith)
    go (broke w' b t r) q =
        rw (q, run)
          (conclude-Concluded started started_at w' b t r e o
            (poll_loop-ne-contract_error started w begin ps w' b t r q) (rw (q, run) at h))
