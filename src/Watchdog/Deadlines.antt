-- ===== src/Watchdog/Deadlines.antt =====
-- The loop's trigger is the first that a round draws, and the experiment timeout ends the loop.
use firm_arbiter.Prelude.{
  ℕ, ◌-◌, ◌≤◌, ◌≡◌, sym, ◌∙◌, ◌≢◌, ◌⊎◌, inl, inr, false, none, List, [], ◌∷◌, ◌++◌, arith,
}
use mathlib.Core.Path.{subst}
use firm_arbiter.Watchdog.{
  Watchdog, Trigger, Reason, Beat, Poll, judge, polling, broke, poll_loop, scan,
}
use firm_arbiter.Watchdog.Triggers.{
  Turn, poll_loop-Turn, Reads, judge-Reads, seen_by, beats_of, judged, new_events, sync-same,
}

-- Some round draws the trigger, and no round before it draws any.
abbrev pub Drawn : ℕ → Watchdog → Beat → List Poll → Trigger → Type 0
Drawn started w b [] t = ⊥
Drawn started w b (p ∷ ps) t =
    Reads started w p b t
    ⊎ ((judged started w p b ≡ none)
        × ((scan p 0 b (new_events w p)).1 ≡ false)
        × Drawn started (seen_by w p) (beats_of w p b) ps t)

-- If the loop ends with a trigger, then that trigger's readings hold in some round, with the
-- watchdog and heartbeats of that round, and every round before it found nothing to end on.
pub poll_loop-Drawn :
    (started : ℕ) (w : Watchdog) (b : Beat) (ps : List Poll) (w' : Watchdog) (b' : Beat)
    (t : Trigger) (r : Reason)
    → poll_loop started w b ps ≡ broke w' b' t r
    → Drawn started w b ps t
poll_loop-Drawn started w b [] w' b' t r h = absurd (unfold poll_loop in ground arith)
poll_loop-Drawn started w b (p ∷ ps) w' b' t r h =
    go (poll_loop-Drawn started (seen_by w p) (beats_of w p b) ps w' b' t r)
      (poll_loop-Turn started w b p ps)
  where
    go :
        (poll_loop started (seen_by w p) (beats_of w p b) ps ≡ broke w' b' t r
          → Drawn started (seen_by w p) (beats_of w p b) ps t)
        → Turn started w b p ps (poll_loop started w b (p ∷ ps))
        → Drawn started w b (p ∷ ps) t
    go ih (Turn.fails f d e) = absurd (ground arith)
    go ih (Turn.stops d q e) =
        let same : Trigger.unexpected_exit ≡ t = ground arith in
        inl (subst (Reads started w p b) same (inl q))
    go ih (Turn.judges t' r' d q j e) =
        let same : t' ≡ t = ground arith in
        inl (subst (Reads started w p b) same (judge-Reads started w p b t' r' j))
    go ih (Turn.goes d q j e) = inr (j, q, ih (sym e ∙ h))

judged_late :
    (started : ℕ) (w : Watchdog) (p : Poll) (b : Beat)
    → w.experiment_timeout ≤ p.now - started
    → judged started w p b ≢ none
unfolding judge
judged_late started w p b late = ground (arith, sync-same w p.events)

-- The loop does not outlive a round at or after the experiment timeout: with such a round among
-- those that happen, it ends, by a trigger or by an exception, whatever the adapter emits.
pub poll_loop_ends :
    (started : ℕ) (w : Watchdog) (b : Beat) (before : List Poll) (p : Poll) (after : List Poll)
    (w' : Watchdog) (b' : Beat)
    → w.experiment_timeout ≤ p.now - started
    → poll_loop started w b (before ++ p ∷ after) ≢ polling w' b'
poll_loop_ends started w b [] p after w' b' late h = go (poll_loop-Turn started w b p after)
  where
    go : Turn started w b p after (poll_loop started w b (p ∷ after)) → ⊥
    go (Turn.fails f d e) = ground arith
    go (Turn.stops d q e) = ground arith
    go (Turn.judges t r d q j e) = ground arith
    go (Turn.goes d q j e) = judged_late started w p b late j
poll_loop_ends started w b (q ∷ before) p after w' b' late h =
    go
      (poll_loop_ends started (seen_by w q) (beats_of w q b) before p after w' b'
        (omega (arith, sync-same w q.events)))
      (poll_loop-Turn started w b q (before ++ p ∷ after))
  where
    go :
        (poll_loop started (seen_by w q) (beats_of w q b) (before ++ p ∷ after) ≢ polling w' b')
        → Turn started w b q (before ++ p ∷ after) (poll_loop started w b (q ∷ before ++ p ∷ after))
        → ⊥
    go ih (Turn.fails f d e) = ground arith
    go ih (Turn.stops d s e) = ground arith
    go ih (Turn.judges t r d s j e) = ground arith
    go ih (Turn.goes d s j e) = ih (sym e ∙ h)
