-- ===== src/Docker/Probe.antt =====
-- `create_network_probe_sidecar`, and `start` and `close` of `DockerNamespaceProbeSidecar` in
-- firmarbiter_core/docker_namespace_probe.py: the container that measures from the network of an
-- adapter without one.
use Prim.Native.String.{◌++◌ as ◌+++◌}
use firm_arbiter.Prelude.{
  ◌*◌, String, Option, none, some, [], ◌∷◌, if◌then◌else◌, ℕ-Eq, String-Eq, pair-Eq, Option-Eq,
  Result, ok, err,
}
use firm_arbiter.Docker.{
  Command, Trace, DockerError, Host, Docker, return, ◌>>=◌, start_container, stop_container,
  remove_container, container_running,
}
use firm_arbiter.Docker.Sidecar.{CreatedContainer, create}

pub data ProbeError : Type 0 where
  not_started already_started exited_at_start : ProbeError
  docker_error : DockerError → ProbeError

module _ (h : Host) where
  abbrev pub probe_name : String → String
  probe_name run_id = "firmarbiter-probe-" +++ h.short_sha256 run_id

  abbrev pub probe_command : String → String → String → Command
  probe_command candidate_id image_id run_id =
      "container"
      ∷ "create"
      ∷ "--name"
      ∷ probe_name run_id
      ∷ "--init"
      ∷ "--label"
      ∷ "firmarbiter.managed=true"
      ∷ "--label"
      ∷ "firmarbiter.role=neutral-network-probe"
      ∷ "--label"
      ∷ ("firmarbiter.run_id=" +++ run_id)
      ∷ "--network"
      ∷ ("container:" +++ candidate_id)
      ∷ "--read-only"
      ∷ "--env"
      ∷ "PYTHONDONTWRITEBYTECODE=1"
      ∷ "--tmpfs"
      ∷ "/tmp:rw,noexec,nosuid,size=16m"
      ∷ "--cap-drop"
      ∷ "ALL"
      ∷ "--security-opt"
      ∷ "no-new-privileges"
      ∷ "--cpus"
      ∷ "0.25"
      ∷ "--memory"
      ∷ h.number (128 * 1024 * 1024)
      ∷ "--memory-swap"
      ∷ h.number (128 * 1024 * 1024)
      ∷ "--pids-limit"
      ∷ "64"
      ∷ "--entrypoint"
      ∷ "/usr/bin/python3"
      ∷ image_id
      ∷ "-c"
      ∷ ("import signal,sys,time;" +++ "signal.signal(signal.SIGTERM,lambda *_:sys.exit(0));"
          +++ "time.sleep(604800)")
      ∷ []

  unfoldable pub create_network_probe_sidecar : String → String → String → Docker CreatedContainer
  create_network_probe_sidecar candidate_id image_id run_id = do
    container_id ← create h (probe_command candidate_id image_id run_id)
    return (record {
      container_id = container_id;
      container_name = probe_name run_id;
      image_id = image_id;
      sidecar_container_id = none;
      network_name = none;
    })

  -- `start`, on the probe's container, which is kept before it is started.
  unfoldable pub start_probe :
      String
      → String
      → String
      → Option CreatedContainer
      → Trace
      → (Option CreatedContainer × Trace) × Result ProbeError (Unit {0})
  unfolding create_network_probe_sidecar
  start_probe candidate_id image_id run_id (some c) t = ((some c, t), err already_started)
  start_probe candidate_id image_id run_id none t =
      let (t₁, created) = create_network_probe_sidecar candidate_id image_id run_id t in
      elim created [
        | err e ↦ ((none, t₁), err (docker_error e))
        | ok c ↦
            let (t₂, started) = start_container h c.container_id t₁ in
            elim started [
              | err e ↦ ((some c, t₂), err (docker_error e))
              | ok _ ↦
                  let (t₃, running) = container_running h c.container_id t₂ in
                  (
                    (some c, t₃),
                    elim running [
                      | err e ↦ err (docker_error e)
                      | ok b ↦ if b then ok tt else err exited_at_start
                    ],
                  )
            ]
      ]

  -- `close`: the removal is in a `finally`. If it raises, the container is kept.
  unfoldable pub close_probe :
      Option CreatedContainer
      → Trace
      → (Option CreatedContainer × Trace) × Result DockerError (Unit {0})
  close_probe none t = ((none, t), ok tt)
  close_probe (some c) t =
      let (t₁, running) = container_running h c.container_id t in
      let (t₂, stopped) : Trace × Result DockerError (Unit {0}) = elim running [
        | err e ↦ (t₁, err e)
        | ok b ↦ if b then stop_container h c.container_id t₁ else (t₁, ok tt)
      ] in
      let (t₃, removed) = remove_container h c.container_id t₂ in
      elim removed [ err e ↦ ((some c, t₃), err e) | ok _ ↦ ((none, t₃), stopped) ]
