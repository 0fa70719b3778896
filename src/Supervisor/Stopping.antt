-- ===== src/Supervisor/Stopping.antt =====
-- What `force_terminate` issues, on every path.
use firm_arbiter.Prelude.{
  String, ◌≡◌, ◌≢◌, ◌⊎◌, inl, inr, Bool, true, false, none, some, List, ◌∷◌, arith, if◌then◌else◌,
  Bool-cases, ℕ-Eq, String-Eq, pair-Eq, Option-Eq, Result-cases, ok, err,
}
use firm_arbiter.Docker.{
  Docker, Trace, DockerError, is_backend_error, Host, inspect_command, stop_command, kill_command,
  logs_command, run, run_only, inspect_container, stop_container, kill_container, container_logs,
}
use firm_arbiter.Docker as Docker
use firm_arbiter.Docker.Sidecar.{CreatedContainer}
use firm_arbiter.Docker.Rollback.{run-trace, run_only-trace}
use firm_arbiter.Supervisor.{
  SupervisorError, docker_error, World, when_running, container_running, save_logs, force_terminate,
}

module _ (h : Host) where
  pub Docker_running-trace :
      (id : String) (t : Trace) → (Docker.container_running h id t).0 ≡ inspect_command id ∷ t
  unfolding Docker.container_running inspect_container
  Docker_running-trace id t = ground (arith, run-trace h true (inspect_command id) t)

  -- Whether the container runs, where an exception counts as no.
  abbrev pub running_at : String → Trace → Bool
  running_at id t = elim (Docker.container_running h id t).1 [ ok b ↦ b | err e ↦ false ]

  -- The commands of `if self.container_running: ...`.
  abbrev pub tested : String → List String → Trace → Trace
  tested id command t =
      if running_at id t then command ∷ inspect_command id ∷ t else inspect_command id ∷ t

  -- The call raises the exception.
  abbrev pub RaisedBy : {A : Type 0} → Docker A → Trace → SupervisorError → Type 0
  RaisedBy m t x = (e : DockerError) × ((m t).1 ≡ err e) × (x ≡ docker_error e)

  module _ (c : CreatedContainer) (w : World) (made : w.self.container ≡ some c) where
    container_running-ok :
        (v : World) (b : Bool)
        → container_running h w ≡ (v, ok b)
        → (v ≡ record w { trace = inspect_command c.container_id ∷ w.trace })
          × (b ≡ running_at c.container_id w.trace)
    unfolding container_running
    container_running-ok v b e = ground (arith, Docker_running-trace c.container_id w.trace)

    container_running-err :
        (v : World) (x : SupervisorError)
        → container_running h w ≡ (v, err x)
        → (v ≡ record w { trace = inspect_command c.container_id ∷ w.trace })
          × RaisedBy (Docker.container_running h c.container_id) w.trace x
    unfolding container_running
    container_running-err v x e =
        elim (Result-cases (Docker.container_running h c.container_id w.trace).1) [
          | inl (y, raised) ↦ (
            ground (arith, Docker_running-trace c.container_id w.trace),
            (y, raised, ground arith),
          )
          | inr (b, seen) ↦ absurd (ground arith)
        ]

    pub when_running-ok :
        (command : List String) (v : World)
        → when_running h (run_only h false command) w ≡ (v, ok tt)
        → v ≡ record w { trace = tested c.container_id command w.trace }
    when_running-ok command v e = elim (Result-cases (container_running h w).1) [
      | inl (x, raised) ↦ absurd (ground arith)
      | inr (b, seen) ↦
          let (same, says) = container_running-ok (container_running h w).0 b (ground arith) in
          elim (Bool-cases b) [
            | inl runs ↦
                ground (arith, run_only-trace h false command (container_running h w).0.trace)
            | inr idle ↦ ground arith
          ]
    ]

    save_logs-ok :
        (v : World)
        → save_logs h w ≡ (v, ok tt)
        → (v.trace ≡ logs_command c.container_id ∷ w.trace)
          × (v.self.logs ≢ none)
          × (v.self.container ≡ some c)
    unfolding save_logs container_logs
    save_logs-ok v e = ground (arith, run-trace h false (logs_command c.container_id) w.trace)

    -- The world behind a test and its command.
    abbrev pub after : List String → World
    after command = record w { trace = tested c.container_id command w.trace }

    pub when_running-err :
        (command : List String) (v : World) (x : SupervisorError)
        → when_running h (run_only h false command) w ≡ (v, err x)
        → (v.self ≡ w.self)
          × ((RaisedBy (Docker.container_running h c.container_id) w.trace x
                × (v.trace ≡ inspect_command c.container_id ∷ w.trace))
              ⊎ ((running_at c.container_id w.trace ≡ true)
                  × RaisedBy (run_only h false command) (inspect_command c.container_id ∷ w.trace) x
                  × (v.trace ≡ command ∷ inspect_command c.container_id ∷ w.trace)))
    when_running-err command v x e = elim (Result-cases (container_running h w).1) [
      | inl (y, raised) ↦
          let (same, (z, raise, is)) =
            container_running-err (container_running h w).0 y (ground arith) in
          (ground arith, inl ((z, raise, ground arith), ground arith))
      | inr (b, seen) ↦
          let (same, says) = container_running-ok (container_running h w).0 b (ground arith) in
          elim (Bool-cases b) [
            | inl runs ↦
                let issued = run_only-trace h false command (container_running h w).0.trace in
                elim (Result-cases
                  (run_only h false command (inspect_command c.container_id ∷ w.trace)).1) [
                    | inl (z, raised) ↦ (
                      ground arith,
                      inr (ground arith, (z, raised, ground arith), ground (arith, issued)),
                    )
                    | inr (_, done) ↦ absurd (ground arith)
                  ]
            | inr idle ↦ absurd (ground arith)
          ]
    ]

  -- If `force_terminate` returns, then it has asked whether the container runs, stopped it if so,
  -- asked again, killed it if it still ran, and saved its logs, and nothing else.
  pub force_terminate-trace :
      (c : CreatedContainer) (w v : World)
      → w.self.container ≡ some c
      → force_terminate h w ≡ (v, ok tt)
      → let stopped = tested c.container_id (stop_command c.container_id) w.trace in
        let killed = tested c.container_id (kill_command c.container_id) stopped in
        (v.trace ≡ logs_command c.container_id ∷ killed)
        × (v.self.logs ≢ none)
        × (v.self.container ≡ some c)
  unfolding force_terminate stop_container kill_container
  force_terminate-trace c w v made e =
      elim (Result-cases (when_running h (stop_container h c.container_id) w).1) [
        | inl (x, raised) ↦ absurd (ground arith)
        | inr (_, stopped) ↦
            let w₁ = after c w made (stop_command c.container_id) in
            let first =
              when_running-ok c w made (stop_command c.container_id)
                (when_running h (stop_container h c.container_id) w).0 (ground arith) in
            elim (Result-cases (when_running h (kill_container h c.container_id) w₁).1) [
              | inl (x, raised) ↦ absurd (ground arith)
              | inr (_, killed) ↦
                  let second =
                    when_running-ok c w₁ made (kill_command c.container_id)
                      (when_running h (kill_container h c.container_id) w₁).0 (ground arith) in
                  let w₂ = after c w₁ made (kill_command c.container_id) in
                  save_logs-ok c w₂ made v (ground arith)
            ]
      ]
