-- ===== src/Supervisor/Interrupting.antt =====
-- Where `force_terminate` stops when it raises.
use firm_arbiter.Prelude.{
  String, ◌≡◌, inl, inr, true, false, some, List, ◌∷◌, arith, ℕ-Eq, String-Eq, pair-Eq, Option-Eq,
  Result-cases, ok, err,
}
use firm_arbiter.Docker.{
  Trace, Host, Docker, run_only, inspect_command, stop_command, kill_command, logs_command,
  stop_container, kill_container, container_logs,
}
use firm_arbiter.Docker as Docker
use firm_arbiter.Docker.Sidecar.{CreatedContainer}
use firm_arbiter.Docker.Rollback.{run-trace}
use firm_arbiter.Supervisor.{
  SupervisorError, World, container_running, when_running, save_logs, force_terminate,
}
use firm_arbiter.Supervisor.Stopping.{
  RaisedBy, Docker_running-trace, running_at, tested, after, when_running-ok, when_running-err,
}

module _ (h : Host) where
  -- If the container runs, the call on it returns.
  pub record Passed (id : String) (m : Docker (Unit {0})) (t : Trace) : Type 0 where
    pub returned : running_at h id t ≡ true → (m (inspect_command id ∷ t)).1 ≡ ok tt

  when_running-Passed :
      (c : CreatedContainer) (w v : World) (command : List String)
      → w.self.container ≡ some c
      → when_running h (run_only h false command) w ≡ (v, ok tt)
      → Passed c.container_id (run_only h false command) w.trace
  unfolding container_running
  when_running-Passed c w v command made e = record {
    returned = λ runs.
        elim (Result-cases
          (run_only h false command (inspect_command c.container_id ∷ w.trace)).1) [
            | inl (x, raised) ↦
                absurd (ground (arith, Docker_running-trace h c.container_id w.trace))
            | inr (_, done) ↦ done
          ];
  }

  -- The call that raised the exception is the last command, and the calls before it have returned.
  pub data Interrupted (id : String) (x : SupervisorError) (t u : Trace) : Type 0 where
    first_test :
        RaisedBy h (Docker.container_running h id) t x
        → u ≡ inspect_command id ∷ t
        → Interrupted id x t u
    at_stop :
        running_at h id t ≡ true
        → RaisedBy h (stop_container h id) (inspect_command id ∷ t) x
        → u ≡ stop_command id ∷ inspect_command id ∷ t
        → Interrupted id x t u
    second_test :
        Passed id (stop_container h id) t
        → RaisedBy h (Docker.container_running h id) (tested h id (stop_command id) t) x
        → u ≡ inspect_command id ∷ tested h id (stop_command id) t
        → Interrupted id x t u
    at_kill :
        Passed id (stop_container h id) t
        → running_at h id (tested h id (stop_command id) t) ≡ true
        → RaisedBy h (kill_container h id) (inspect_command id ∷ tested h id (stop_command id) t) x
        → u ≡ kill_command id ∷ inspect_command id ∷ tested h id (stop_command id) t
        → Interrupted id x t u
    at_logs :
        Passed id (stop_container h id) t
        → Passed id (kill_container h id) (tested h id (stop_command id) t)
        → RaisedBy h
            (container_logs h id)
            (tested h id (kill_command id) (tested h id (stop_command id) t))
            x
        → u ≡ logs_command id ∷ tested h id (kill_command id) (tested h id (stop_command id) t)
        → Interrupted id x t u

  container_logs-trace : (id : String) (t : Trace) → (container_logs h id t).0 ≡ logs_command id ∷ t
  unfolding container_logs
  container_logs-trace id t = ground (arith, run-trace h false (logs_command id) t)

  save_logs-err :
      (c : CreatedContainer) (w v : World) (x : SupervisorError)
      → w.self.container ≡ some c
      → save_logs h w ≡ (v, err x)
      → (v.self ≡ w.self)
        × RaisedBy h (container_logs h c.container_id) w.trace x
        × (v.trace ≡ logs_command c.container_id ∷ w.trace)
  unfolding save_logs
  save_logs-err c w v x made e = elim (Result-cases (container_logs h c.container_id w.trace).1) [
    | inl (y, raised) ↦ (
      ground arith,
      (y, raised, ground arith),
      ground (arith, container_logs-trace c.container_id w.trace),
    )
    | inr (_, done) ↦ absurd (ground arith)
  ]

  -- If `force_terminate` raises on a created container, then its attributes stay, and its commands
  -- are one of five: it stops at the call that raises, and the exception is that of the call. A
  -- second test, and so a kill, only follows if the container did not run or its stop returned, and
  -- the logs are only read if that holds of the kill as well.
  pub force_terminate-Interrupted :
      (c : CreatedContainer) (w v : World) (x : SupervisorError)
      → w.self.container ≡ some c
      → force_terminate h w ≡ (v, err x)
      → (v.self ≡ w.self) × Interrupted c.container_id x w.trace v.trace
  unfolding force_terminate stop_container kill_container
  force_terminate-Interrupted c w v x made e =
      let id = c.container_id in
      elim (Result-cases (when_running h (stop_container h id) w).1) [
        | inl (y, raised) ↦
            let (same, at) = when_running-err h c w made (stop_command id) v x (ground arith) in
            (
              same,
              elim at [
                | inl (raise, unseen) ↦ first_test raise unseen
                | inr (runs, raise, stopped) ↦ at_stop runs raise stopped
              ],
            )
        | inr (_, stopped) ↦
            let w₁ = after h c w made (stop_command id) in
            let passed =
              when_running-Passed c w (when_running h (stop_container h id) w).0 (stop_command id)
                made (ground arith) in
            let first =
              when_running-ok h c w made (stop_command id)
                (when_running h (stop_container h id) w).0 (ground arith) in
            elim (Result-cases (when_running h (kill_container h id) w₁).1) [
              | inl (y, raised) ↦
                  let (same, at) =
                    when_running-err h c w₁ made (kill_command id) v x (ground arith) in
                  (
                    same,
                    elim at [
                      | inl (raise, unseen) ↦ second_test passed raise unseen
                      | inr (runs, raise, killed) ↦ at_kill passed runs raise killed
                    ],
                  )
              | inr (_, killed) ↦
                  let also =
                    when_running-Passed c w₁ (when_running h (kill_container h id) w₁).0
                      (kill_command id) made (ground arith) in
                  let second =
                    when_running-ok h c w₁ made (kill_command id)
                      (when_running h (kill_container h id) w₁).0 (ground arith) in
                  let (same, raise, at) =
                    save_logs-err c (after h c w₁ made (kill_command id)) v x made (ground arith) in
                  (same, at_logs passed also raise at)
            ]
      ]
