-- ===== src/Coordinator/Teardown.antt =====
-- The `finally` of `execute`: every container and the network of a run are removed, whatever raises.
-- The sampler's thread is left out; it only asks docker for statistics.
use firm_arbiter.Prelude.{String, Option, none, some, ℕ-Eq, String-Eq, pair-Eq, Option-Eq}
use firm_arbiter.Docker.{
  Trace, Host, Docker, stop_container, remove_container, disconnect_network, remove_network,
}
use firm_arbiter.Docker.Sidecar.{CreatedContainer}
use firm_arbiter.Docker.Probe.{close_probe}
use firm_arbiter.Supervisor.{Supervisor, World, Method, force_terminate, remove}

-- `try: ... except Exception: pass`
abbrev pub swallow : {A : Type 0} → Docker A → Trace → Trace
swallow m t = (m t).0

abbrev pub swallow_method : {A : Type 0} → Method A → World → World
swallow_method m w = (m w).0

abbrev pub on_trace : (Trace → Trace) → World → World
on_trace f w = record w { trace = f w.trace }

module _ (h : Host) where
  -- The probe's container.
  unfoldable pub close : Option CreatedContainer → Trace → Trace
  close probe t = (close_probe h probe t).0.1

  -- The DinD sidecar, if there is a supervisor whose container has one.
  unfoldable pub remove_sidecar : Option String → Trace → Trace
  remove_sidecar none t = t
  remove_sidecar (some id) t = swallow (remove_container h id) (swallow (stop_container h id) t)

  -- The network, from which both containers are disconnected first.
  unfoldable pub disconnect_sidecar : String → Option String → Trace → Trace
  disconnect_sidecar network none t = t
  disconnect_sidecar network (some id) t = swallow (disconnect_network h network id) t

  unfoldable pub remove_run_network : CreatedContainer → Trace → Trace
  unfolding disconnect_sidecar
  remove_run_network c t = elim c.network_name [
    | none ↦ t
    | some network ↦ swallow (remove_network h network) (
        disconnect_sidecar network c.sidecar_container_id
          (swallow (disconnect_network h network c.container_id) t))
  ]

  -- `force_terminate` and `remove` of the supervisor.
  unfoldable pub end_supervisor : World → World
  end_supervisor w = swallow_method (remove h) (swallow_method (force_terminate h) w)

  -- The `finally`, for the supervisor, if there is one, and the probe.
  unfoldable pub teardown : Option Supervisor → Option CreatedContainer → Trace → Trace
  unfolding close remove_sidecar end_supervisor remove_run_network
  teardown none probe t = close probe t
  teardown (some self) probe t = elim self.container [
    | none ↦ (end_supervisor (record { self = self; trace = close probe t })).trace
    | some c ↦
        let t₁ = remove_sidecar c.sidecar_container_id (close probe t) in
        let w = end_supervisor (record { self = self; trace = t₁ }) in remove_run_network c w.trace
  ]
