-- ===== src/Watchdog/Heartbeats.antt =====
-- The heartbeats that the watchdog counts, and what a heartbeat does to the timeout.
use firm_arbiter.Prelude.{
  ℕ, ◌+◌, ◌≤◌, ◌<◌, ◌≡◌, refl, sym, ◌∙◌, ◌≢◌, Bool, false, some, List, [], ◌∷◌, ◌++◌, arith,
  if◌then◌else◌, any_of, count_of,
}
use firm_arbiter.Json.{Fields, says}
use firm_arbiter.Watchdog.{
  Watchdog, Trigger, heartbeat_lost, Reason, stopped_before_request, Beat, Poll, beat, scan, judge,
  broke, poll_loop,
}
use firm_arbiter.Watchdog.Sync.{observed-sync}
use firm_arbiter.Watchdog.Triggers.{
  Turn, poll_loop-Turn, seen_by, beats_of, judged, new_events, sync-same,
}

abbrev pub is_heartbeat : Fields → Bool
is_heartbeat event = says event "event" "heartbeat"

count_of-append :
    (xs ys : List Fields)
    → count_of is_heartbeat (xs ++ ys) ≡ count_of is_heartbeat xs + count_of is_heartbeat ys
count_of-append [] ys = omega arith
count_of-append (x ∷ xs) ys = ground (arith, count_of-append xs ys)

-- A scan to the end counts every heartbeat, one that breaks may leave some out.
scan-count :
    (p : Poll) (i : ℕ) (b : Beat) (events : List Fields)
    → ((scan p i b events).0.heartbeats_received
        ≤ b.heartbeats_received + count_of is_heartbeat events)
      × ((scan p i b events).1 ≡ false
          → (scan p i b events).0.heartbeats_received
            ≡ b.heartbeats_received + count_of is_heartbeat events)
unfolding scan beat
scan-count p i b [] = (omega arith, λ _. omega arith)
scan-count p i b (event ∷ events) =
    let (most, all) = scan-count p (i + 1) (beat p b event) events in ground (arith, most, all)

-- A heartbeat in a scan to the end sets the last heartbeat to the round's time.
scan-last :
    (p : Poll) (i : ℕ) (b : Beat) (events : List Fields)
    → (scan p i b events).1 ≡ false
    → (scan p i b events).0.last_heartbeat
      ≡ (if any_of is_heartbeat events then p.now else b.last_heartbeat)
unfolding scan beat
scan-last p i b [] h = refl
scan-last p i b (event ∷ events) h = ground (arith, scan-last p (i + 1) (beat p b event) events)

-- The count is that of the observed heartbeats.
abbrev pub Counted : Watchdog → Beat → Type 0
Counted w b = b.heartbeats_received ≡ count_of is_heartbeat w.observed_events

-- If a round to the end draws `heartbeat_lost`, with a timeout that is not 0, then none of the
-- events that it newly observed is a heartbeat.
pub heartbeat_lost_silent :
    (started : ℕ) (w : Watchdog) (p : Poll) (b : Beat) (r : Reason)
    → 0 < w.heartbeat_timeout
    → (scan p 0 b (new_events w p)).1 ≡ false
    → judged started w p b ≡ some (heartbeat_lost, r)
    → any_of is_heartbeat (new_events w p) ≡ false
unfolding judge
heartbeat_lost_silent started w p b r pos full h =
    ground (arith, sync-same w p.events, scan-last p 0 b (new_events w p))

round-Counted :
    (w : Watchdog) (p : Poll) (b : Beat)
    → Counted w b
    → ((beats_of w p b).heartbeats_received ≤ count_of is_heartbeat (seen_by w p).observed_events)
      × ((scan p 0 b (new_events w p)).1 ≡ false → Counted (seen_by w p) (beats_of w p b))
round-Counted w p b h = rw (observed-sync w p.events) (
  omega (
    arith,
    scan-count p 0 b (new_events w p),
    count_of-append w.observed_events (new_events w p),
  ),
  λ full. omega (
    arith,
    (scan-count p 0 b (new_events w p)).1 full,
    count_of-append w.observed_events (new_events w p),
  ),
)

-- From a start at which the count is right, the heartbeats that the loop reports at its end are
-- those among the observed events: all of them unless the loop broke off at an early
-- `adapter_stopped`, and never more.
pub poll_loop-Counted :
    (started : ℕ) (w : Watchdog) (b : Beat) (ps : List Poll) (w' : Watchdog) (b' : Beat)
    (t : Trigger) (r : Reason)
    → Counted w b
    → poll_loop started w b ps ≡ broke w' b' t r
    → (b'.heartbeats_received ≤ count_of is_heartbeat w'.observed_events)
      × (r ≢ stopped_before_request → Counted w' b')
poll_loop-Counted started w b [] w' b' t r c h = absurd (unfold poll_loop in ground arith)
poll_loop-Counted started w b (p ∷ ps) w' b' t r c h =
    go (poll_loop-Counted started (seen_by w p) (beats_of w p b) ps w' b' t r)
      (poll_loop-Turn started w b p ps)
  where
    go :
        (Counted (seen_by w p) (beats_of w p b)
          → poll_loop started (seen_by w p) (beats_of w p b) ps ≡ broke w' b' t r
          → (b'.heartbeats_received ≤ count_of is_heartbeat w'.observed_events)
            × (r ≢ stopped_before_request → Counted w' b'))
        → Turn started w b p ps (poll_loop started w b (p ∷ ps))
        → (b'.heartbeats_received ≤ count_of is_heartbeat w'.observed_events)
          × (r ≢ stopped_before_request → Counted w' b')
    go ih (Turn.fails f d e) = absurd (ground arith)
    go ih (Turn.stops d q e) = ground (arith, round-Counted w p b c)
    go ih (Turn.judges t' r' d q j e) = ground (arith, round-Counted w p b c)
    go ih (Turn.goes d q j e) = ih ((round-Counted w p b c).1 q) (sym e ∙ h)
