-- ===== src/Supervisor/Failing.antt =====
-- A call of `drain_events` that raises, with the termination of the container that it then calls.
use firm_arbiter.Prelude.{
  ℕ, ◌≡◌, ◌⊎◌, inl, inr, Option, none, some, List, ◌∷◌, arith, Option-cases, ℕ-Eq, String-Eq,
  pair-Eq, Option-Eq, Result, Result-cases, ok, err,
}
use firm_arbiter.EventStream.{Codec, EventError, read_new}
use firm_arbiter.Docker.{
  Host, Docker, stop_container, kill_container, Trace, stop_command, kill_command, logs_command,
}
use firm_arbiter.Docker.Sidecar.{CreatedContainer}
use firm_arbiter.Supervisor.{
  SupervisorError, protocol_error, World, container_running, when_running, save_logs,
  force_terminate, drain_events,
}
use firm_arbiter.Supervisor.Stopping.{tested, force_terminate-trace}
use firm_arbiter.Supervisor.Interrupting.{Interrupted, force_terminate-Interrupted}

module _ (h : Host) where
  force_terminate-none :
      (w v : World) (r : Result SupervisorError (Unit {0}))
      → w.self.container ≡ none
      → force_terminate h w ≡ (v, r)
      → (v ≡ w) × (r ≡ ok tt)
  unfolding force_terminate
  force_terminate-none w v r none_made e = ground arith

  -- The attributes that a method leaves as they are.
  abbrev Keeps : World → World → Type 0
  Keeps w v =
      (v.self.stream ≡ w.self.stream)
      × (v.self.events ≡ w.self.events)
      × (v.self.container ≡ w.self.container)

  when_running-Keeps : (m : Docker (Unit {0})) (w : World) → Keeps w (when_running h m w).0
  unfolding container_running
  when_running-Keeps m w = ground arith

  save_logs-Keeps : (w : World) → Keeps w (save_logs h w).0
  unfolding save_logs
  save_logs-Keeps w = ground arith

  force_terminate-Keeps : (w : World) → Keeps w (force_terminate h w).0
  unfolding force_terminate
  force_terminate-Keeps w = elim (Option-cases w.self.container) [
    | inl none_made ↦ ground arith
    | inr (c, made) ↦
        let first = when_running h (stop_container h c.container_id) w in
        let second = when_running h (kill_container h c.container_id) first.0 in
        ground (
          arith,
          when_running-Keeps (stop_container h c.container_id) w,
          when_running-Keeps (kill_container h c.container_id) first.0,
          save_logs-Keeps second.0,
        )
  ]

  -- What a termination that took place has issued.
  abbrev pub Terminated : CreatedContainer → Trace → Trace → Type 0
  Terminated c t u =
      u
      ≡ logs_command c.container_id
        ∷ tested h c.container_id (kill_command c.container_id)
            (tested h c.container_id (stop_command c.container_id) t)

  module _ (lib : Codec) where
    -- What `force_terminate` is called on: the stream has moved, and nothing else.
    abbrev pub after_read : World → Option (List ℕ) → World
    after_read w content = record w {
      self = record w.self { stream = (read_new lib w.self.stream content).0 };
    }

    -- If a drain raises, then the read of the file has raised an error of the protocol. The events
    -- and the container stay, and the stream is the one that the read leaves. Without a container
    -- no command is issued and that error is raised. With one, it is raised behind the whole
    -- termination of the container, and any other exception is the one of `force_terminate`, which
    -- has interrupted the termination.
    pub drain_events_raises :
        (w v : World) (content : Option (List ℕ)) (x : SupervisorError)
        → drain_events h lib content w ≡ (v, err x)
        → (e : EventError) × ((read_new lib w.self.stream content) ≡ (v.self.stream, err e))
          × (v.self.events ≡ w.self.events)
          × (v.self.container ≡ w.self.container)
          × (w.self.container ≡ none → (x ≡ protocol_error e) × (v.trace ≡ w.trace))
          × ((c : CreatedContainer)
              → w.self.container ≡ some c
              → ((force_terminate h (after_read w content) ≡ (v, ok tt))
                  × (x ≡ protocol_error e)
                  × Terminated c w.trace v.trace)
                ⊎ ((force_terminate h (after_read w content) ≡ (v, err x))
                    × Interrupted h c.container_id x w.trace v.trace))
    unfolding drain_events
    drain_events_raises w v content x failed =
        elim (Result-cases (read_new lib w.self.stream content).1) [
          | inr (docs, done) ↦ absurd (ground arith)
          | inl (e, raised) ↦
              let u : World = record w {
                self = record w.self { stream = (read_new lib w.self.stream content).0 };
              } in
              let kept = force_terminate-Keeps u in
              let left : v ≡ (force_terminate h u).0 = ground arith in
              (
                e,
                ground arith,
                ground arith,
                ground arith,
                λ none_made.
                    let (same, returned) =
                      force_terminate-none u v (force_terminate h u).1 none_made (ground arith) in
                    ground arith,
                λ c made. elim (Result-cases (force_terminate h u).1) [
                  | inl (y, masked) ↦
                      inr (
                        ground arith,
                        (force_terminate-Interrupted h c u v x made (ground arith)).1,
                      )
                  | inr (_, ended) ↦ inl (
                    ground arith,
                    ground arith,
                    (force_terminate-trace h c u v made (ground arith)).0,
                  )
                ],
              )
        ]
