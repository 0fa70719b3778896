-- ===== src/Docker/Rollback.antt =====
-- What `create_container` leaves behind when it raises.
use firm_arbiter.Prelude.{
  ℕ, String, ◌≡◌, inl, inr, Bool, true, none, some, ◌∷◌, arith, ℕ-Eq, String-Eq, pair-Eq, Option-Eq,
  Result-cases, ok, err,
}
use firm_arbiter.Docker.{
  Command, Trace, DockerError, Host, run, run_only, stop_container, remove_container,
  remove_network, stop_command, remove_command, remove_network_command,
}
use firm_arbiter.Docker.Sidecar.{
  CreatedContainer, network_of, network_command, create_run_network, create_dind_sidecar,
  start_sidecar, roll_back, set_up_dind,
}

module _ (h : Host) where
  -- Whatever docker answers, the command was issued.
  pub run-trace : (check : Bool) (c : Command) (t : Trace) → (run h check c t).0 ≡ c ∷ t
  unfolding run
  run-trace check c t = ground arith

  pub run_only-trace : (check : Bool) (c : Command) (t : Trace) → (run_only h check c t).0 ≡ c ∷ t
  run_only-trace check c t = ground (arith, run-trace check c t)

  pub roll_back_sidecar :
      (s : CreatedContainer) (network : String) (t : Trace)
      → (roll_back h (some s) network t).0
        ≡ remove_network_command network
          ∷ remove_command s.container_id
          ∷ stop_command s.container_id
          ∷ t
  unfolding roll_back stop_container remove_container remove_network
  roll_back_sidecar s network t = rw (run_only-trace, run_only-trace, run_only-trace)

  pub roll_back_network :
      (network : String) (t : Trace)
      → (roll_back h none network t).0 ≡ remove_network_command network ∷ t
  unfolding roll_back remove_network
  roll_back_network network t = rw (run_only-trace)

  -- How the setup of nested containers may raise, and the commands that it then leaves behind those
  -- of the failing call: whatever was created is removed.
  pub data RolledBack (rounds : ℕ) (run_id : String) (t u : Trace) (e : DockerError) : Type 0 where
    no_network :
        create_run_network h run_id t ≡ (u, err e)
        → u ≡ network_command h run_id ∷ t
        → RolledBack rounds run_id t u e
    no_sidecar :
        (v : Trace)
        → create_dind_sidecar h (network_of h run_id) run_id (network_command h run_id ∷ t)
          ≡ (v, err e)
        → u ≡ remove_network_command (network_of h run_id) ∷ v
        → RolledBack rounds run_id t u e
    no_daemon :
        (v w : Trace) (s : CreatedContainer)
        → create_dind_sidecar h (network_of h run_id) run_id (network_command h run_id ∷ t)
          ≡ (v, ok s)
        → start_sidecar h rounds s (network_of h run_id) v ≡ (w, err e)
        → u
          ≡ remove_network_command (network_of h run_id)
            ∷ remove_command s.container_id
            ∷ stop_command s.container_id
            ∷ w
        → RolledBack rounds run_id t u e

  create_run_network-ok :
      (run_id : String) (t u : Trace) (network : String)
      → create_run_network h run_id t ≡ (u, ok network)
      → (u ≡ network_command h run_id ∷ t) × (network ≡ network_of h run_id)
  unfolding create_run_network
  create_run_network-ok run_id t u network e =
      ground (arith, run_only-trace true (network_command h run_id) t)

  create_run_network-err :
      (run_id : String) (t u : Trace) (e : DockerError)
      → create_run_network h run_id t ≡ (u, err e)
      → u ≡ network_command h run_id ∷ t
  unfolding create_run_network
  create_run_network-err run_id t u e failed =
      ground (arith, run_only-trace true (network_command h run_id) t)

  module _ (rounds : ℕ) (run_id : String) (t u : Trace) (e : DockerError) where
    pub set_up_dind-RolledBack :
        set_up_dind h rounds run_id t ≡ (u, err e) → RolledBack rounds run_id t u e
    unfolding set_up_dind
    set_up_dind-RolledBack failed = elim (Result-cases (create_run_network h run_id t).1) [
      | inl (e', raised) ↦
          RolledBack.no_network (ground arith) (create_run_network-err run_id t u e (ground arith))
      | inr (network, made) ↦
          let (same, named) =
            create_run_network-ok run_id t (create_run_network h run_id t).0 network
              (ground arith) in
          let v =
            create_dind_sidecar h (network_of h run_id) run_id (network_command h run_id ∷ t) in
          elim (Result-cases v.1) [
            | inl (e', raised) ↦
                RolledBack.no_sidecar v.0 (ground arith)
                  (ground (arith, roll_back_network (network_of h run_id) v.0))
            | inr (s, created) ↦
                let w = start_sidecar h rounds s (network_of h run_id) v.0 in
                elim (Result-cases w.1) [
                  | inl (e', raised) ↦
                      RolledBack.no_daemon v.0 w.0 s (ground arith) (ground arith)
                        (ground (arith, roll_back_sidecar s (network_of h run_id) w.0))
                  | inr (_, started) ↦ absurd (ground arith)
                ]
          ]
    ]
