-- ===== src/Coordinator/Leaks.antt =====
-- Which containers and networks a run leaves behind.
use firm_arbiter.Prelude.{
  ℕ, String, ◌≡◌, refl, sym, ap, ◌∙◌, inl, inr, true, false, Option, none, some, List, [], ◌∷◌,
  ◌++◌, arith, Bool-cases, Option-cases, ℕ-Eq, String-Eq, pair-Eq, Option-Eq, Result-cases, ok, err,
}
use mathlib.Core.List.{append_assoc}
use firm_arbiter.Docker.{
  Trace, DockerError, Host, inspect_command, stop_command, kill_command, logs_command,
  remove_command, disconnect_command, remove_network_command, run_only, stop_container,
  remove_container, disconnect_network, remove_network,
}
use firm_arbiter.Docker.Rollback.{run_only-trace}
use firm_arbiter.Docker.Requirements.{requires}
use firm_arbiter.Docker.Sidecar.{CreatedContainer, set_up_dind}
use firm_arbiter.Docker.Arguments.{Request, Image, create_arguments}
use firm_arbiter.Docker.Creation.{create_candidate, create_container}
use firm_arbiter.Docker.Probe.{close_probe}
use firm_arbiter.Supervisor.{
  SupervisorError, docker_error, Supervisor, World, force_terminate, remove, start,
}
use firm_arbiter.Supervisor.Stopping.{force_terminate-trace, tested, running_at}
use firm_arbiter.Supervisor.Interrupting.{
  Interrupted, first_test, at_stop, second_test, at_kill, at_logs, force_terminate-Interrupted,
}
use firm_arbiter.Coordinator.Teardown.{
  close, remove_sidecar, disconnect_sidecar, remove_run_network, end_supervisor, teardown,
}

-- The commands of one trace were issued before all others of another.
abbrev pub Extends : Trace → Trace → Type 0
Extends t u = (more : Trace) × (u ≡ more ++ t)

abbrev pub sidecar_commands : Option String → Trace
sidecar_commands none = []
sidecar_commands (some id) = remove_command id ∷ stop_command id ∷ []

abbrev pub disconnections : String → Option String → Trace
disconnections network none = []
disconnections network (some id) = disconnect_command network id ∷ []

abbrev pub network_commands : CreatedContainer → Trace
network_commands c = elim c.network_name [
  | none ↦ []
  | some network ↦
      remove_network_command network ∷ disconnections network c.sidecar_container_id
      ++ disconnect_command network c.container_id ∷ []
]

module _ (h : Host) where
  tested-Extends :
      (id : String) (command : List String) (t : Trace) → Extends t (tested h id command t)
  tested-Extends id command t = elim (Bool-cases (running_at h id t)) [
    | inl runs ↦ (command ∷ inspect_command id ∷ [], ground arith)
    | inr idle ↦ (inspect_command id ∷ [], ground arith)
  ]

  -- The commands of a termination that gets to the logs.
  logged :
      (id : String) (t : Trace)
      → Extends t
          (logs_command id ∷ tested h id (kill_command id) (tested h id (stop_command id) t))
  logged id t =
      let (first, e) = tested-Extends id (stop_command id) t in
      let (second, f) = tested-Extends id (kill_command id) (tested h id (stop_command id) t) in
      (
        logs_command id ∷ second ++ first,
        ap (λ x. logs_command id ∷ x)
            (f ∙ ap (λ x. second ++ x) e ∙ sym (append_assoc second first t)),
      )

  Interrupted-Extends :
      (id : String) (x : SupervisorError) (t u : Trace) → Interrupted h id x t u → Extends t u
  Interrupted-Extends id x t u (first_test raise e) = (inspect_command id ∷ [], e)
  Interrupted-Extends id x t u (at_stop runs raise e) =
      (stop_command id ∷ inspect_command id ∷ [], e)
  Interrupted-Extends id x t u (second_test passed raise e) =
      let (more, same) = tested-Extends id (stop_command id) t in
      (inspect_command id ∷ more, e ∙ ap (λ x. inspect_command id ∷ x) same)
  Interrupted-Extends id x t u (at_kill passed runs raise e) =
      let (more, same) = tested-Extends id (stop_command id) t in
      (
        kill_command id ∷ inspect_command id ∷ more,
        e ∙ ap (λ x. kill_command id ∷ inspect_command id ∷ x) same,
      )
  Interrupted-Extends id x t u (at_logs passed also raise e) = rw e (logged id t)

  -- Whatever `force_terminate` raises, the attributes but the logs stay.
  force_terminate-Extends :
      (c : CreatedContainer) (w : World)
      → w.self.container ≡ some c
      → ((force_terminate h w).0.self.container ≡ some c)
        × Extends w.trace (force_terminate h w).0.trace
  force_terminate-Extends c w made = elim (Result-cases (force_terminate h w).1) [
    | inl (x, raised) ↦
        let (same, i) =
          force_terminate-Interrupted h c w (force_terminate h w).0 x made (ground arith) in
        (ap (λ (s : Supervisor). s.container) same ∙ made, Interrupted-Extends _ _ _ _ i)
    | inr (_, ended) ↦
        let (issued, _, kept) =
          force_terminate-trace h c w (force_terminate h w).0 made (ground arith) in
        (kept, rw issued (logged c.container_id w.trace))
  ]

  remove_sidecar-trace :
      (sidecar : Option String) (t : Trace)
      → remove_sidecar h sidecar t ≡ sidecar_commands sidecar ++ t
  unfolding remove_sidecar stop_container remove_container
  remove_sidecar-trace none t = refl
  remove_sidecar-trace (some id) t =
      rw
        (
          run_only-trace h false (remove_command id) (run_only h false (stop_command id) t).0,
          run_only-trace h false (stop_command id) t,
        )
        refl

  disconnect_sidecar-trace :
      (network : String) (sidecar : Option String) (t : Trace)
      → disconnect_sidecar h network sidecar t ≡ disconnections network sidecar ++ t
  unfolding disconnect_sidecar disconnect_network
  disconnect_sidecar-trace network none t = refl
  disconnect_sidecar-trace network (some id) t =
      run_only-trace h false (disconnect_command network id) t

  remove_run_network-trace :
      (c : CreatedContainer) (t : Trace) → remove_run_network h c t ≡ network_commands c ++ t
  unfolding remove_run_network remove_network disconnect_network
  remove_run_network-trace c t = elim (Option-cases c.network_name) [
    | inl alone ↦ ground arith
    | inr (network, named) ↦
        let first = run_only-trace h false (disconnect_command network c.container_id) t in
        let both =
          disconnect_sidecar-trace network c.sidecar_container_id
            (disconnect_command network c.container_id ∷ t) in
        let last = run_only-trace h false (remove_network_command network) (
          disconnections network c.sidecar_container_id
          ++ disconnect_command network c.container_id ∷ t) in
        ground (
          arith,
          append_assoc (disconnections network c.sidecar_container_id)
              (disconnect_command network c.container_id ∷ []) t,
        )
  ]

  end_supervisor-trace :
      (c : CreatedContainer) (w : World)
      → w.self.container ≡ some c
      → (end_supervisor h w).trace ≡ remove_command c.container_id ∷ (force_terminate h w).0.trace
  unfolding end_supervisor remove remove_container
  end_supervisor-trace c w made =
      let (kept, _) = force_terminate-Extends c w made in
      ground (
        arith,
        run_only-trace h false (remove_command c.container_id) (force_terminate h w).0.trace,
      )

  -- If the supervisor has a container, then the teardown, whatever docker answers, first closes the
  -- probe; then stops and removes the DinD sidecar, if the container has one; then ends the
  -- container and removes it by force; and last disconnects both from the run's network and removes
  -- it, if there is one.
  pub teardown-trace :
      (self : Supervisor) (c : CreatedContainer) (probe : Option CreatedContainer) (t : Trace)
      → self.container ≡ some c
      → (ending : Trace) × (teardown h (some self) probe t
          ≡ network_commands c
            ++ (remove_command c.container_id
                ∷ (ending ++ (sidecar_commands c.sidecar_container_id ++ close h probe t))))
  unfolding teardown
  teardown-trace self c probe t made =
      let t₁ = remove_sidecar h c.sidecar_container_id (close h probe t) in
      let w : World = record { self = self; trace = t₁ } in
      let (_, found) = force_terminate-Extends c w made in
      let (ending, issued) = found in
      let ended = end_supervisor-trace c w made in
      let sidecar = remove_sidecar-trace c.sidecar_container_id (close h probe t) in
      let opened : teardown h (some self) probe t
          ≡ remove_run_network h c (end_supervisor h w).trace =
        ground arith in
      let whole : (end_supervisor h w).trace
          ≡ remove_command c.container_id
            ∷ (ending ++ (sidecar_commands c.sidecar_container_id ++ close h probe t)) =
        ended
        ∙ ap (λ x. remove_command c.container_id ∷ x) (issued ∙ ap (λ x. ending ++ x) sidecar) in
      (ending, rw (opened, remove_run_network-trace c (end_supervisor h w).trace, whole) refl)

  -- If the network and the DinD sidecar of a run were set up, and the arguments of its container
  -- cannot be made, as when a granted device is missing, then `start` raises, and neither it nor the
  -- teardown issues any command behind the setup: the sidecar and the network stay.
  pub start_leaks :
      (rounds : ℕ) (r : Request) (contract_root : String) (image : Image) (w : World) (v : Trace)
      (d : String × CreatedContainer) (e : DockerError)
      → w.self.container ≡ none
      → requires r.requirements "nested-containers" ≡ true
      → set_up_dind h rounds r.run_id w.trace ≡ (v, ok d)
      → create_arguments h v r contract_root image (some d) ≡ err e
      → (start h rounds (ok r) contract_root image w
          ≡ (record w { trace = v }, err (docker_error e)))
        × (teardown h (some w.self) none v ≡ v)
  unfolding start create_container create_candidate teardown close close_probe end_supervisor
      force_terminate remove
  start_leaks rounds r contract_root image w v d e fresh nested set_up refused =
      (ground arith, ground arith)
