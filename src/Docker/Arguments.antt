-- ===== src/Docker/Arguments.antt =====
-- The arguments of `docker container create` for the adapter's container.
use Prim.Native.String.{◌++◌ as ◌+++◌}
use firm_arbiter.Prelude.{
  String, Bool, not, Option, none, some, List, [], ◌∷◌, ◌++◌, if◌then◌else◌, ℕ-Eq, String-Eq, ◌==◌,
  pair-Eq, Option-Eq, Result, ◌>>=◌, ok, err,
}
use firm_arbiter.Docker.{Trace, DockerError, unsupported_network, isolated_not_implemented, Host}
use firm_arbiter.Docker.Requirements.{requires, requirement_arguments, safe_container_component}
use firm_arbiter.Docker.Sidecar.{CreatedContainer}

-- What `create_container` reads of the request, with the resources as texts.
pub record Request : Type 0 where
  pub run_id : String
  pub experiment_id : String
  pub adapter_id : String
  pub cpu_cores : String
  pub memory_bytes : String
  pub pids_limit : String
  pub network : String
  pub run_as_root : Bool
  pub requirements : List String

-- `BuiltAdapterImage`
pub record Image : Type 0 where
  pub reference : String
  pub image_id : String

-- The parts of the container that the setup gives.
abbrev pub sidecar_id : Option (String × CreatedContainer) → Option String
sidecar_id none = none
sidecar_id (some (_, s)) = some s.container_id

abbrev pub network_name_of : Option (String × CreatedContainer) → Option String
network_name_of none = none
network_name_of (some (n, _)) = some n

module _ (h : Host) where
  -- The choice of the network.
  unfoldable pub network_arguments : Option String → String → Result DockerError (List String)
  network_arguments (some network) mode = ok ("--network" ∷ network ∷ [])
  network_arguments none mode =
      if mode == "none"
      then ok ("--network" ∷ "none" ∷ [])
      else if mode == "host"
      then ok ("--network" ∷ "host" ∷ [])
      else if mode == "isolated"
      then err isolated_not_implemented
      else err (unsupported_network mode)

  abbrev pub container_name : Request → String
  container_name r =
      "firmarbiter-" +++ safe_container_component h r.adapter_id +++ "-" +++ h.short_sha256 r.run_id

  -- `type=bind,src=...,dst=...`
  abbrev pub bind : String → String → String
  bind source target = "type=bind,src=" +++ source +++ ",dst=" +++ target

  abbrev pub base_arguments : Request → String → List String
  base_arguments r contract_root =
      "container"
      ∷ "create"
      ∷ "--name"
      ∷ container_name r
      ∷ "--init"
      ∷ "--label"
      ∷ "firmarbiter.managed=true"
      ∷ "--label"
      ∷ ("firmarbiter.run_id=" +++ r.run_id)
      ∷ "--label"
      ∷ ("firmarbiter.experiment_id=" +++ r.experiment_id)
      ∷ "--label"
      ∷ ("firmarbiter.adapter_id=" +++ r.adapter_id)
      ∷ "--cpus"
      ∷ r.cpu_cores
      ∷ "--memory"
      ∷ r.memory_bytes
      ∷ "--memory-swap"
      ∷ r.memory_bytes
      ∷ "--pids-limit"
      ∷ r.pids_limit
      ∷ "--mount"
      ∷ bind (contract_root +++ "/input") "/firmarbiter/input,readonly"
      ∷ "--mount"
      ∷ bind (contract_root +++ "/work") "/firmarbiter/work"
      ∷ "--mount"
      ∷ bind (contract_root +++ "/artifacts") "/firmarbiter/artifacts"
      ∷ "--mount"
      ∷ bind (contract_root +++ "/events") "/firmarbiter/events"
      ∷ "--mount"
      ∷ bind (contract_root +++ "/control") "/firmarbiter/control"
      ∷ []

  -- The arguments of `docker container create`, in their order.
  unfoldable pub create_arguments :
      Trace
      → Request
      → String
      → Image
      → Option (String × CreatedContainer)
      → Result DockerError (List String)
  create_arguments t r contract_root image dind = do
    network ← network_arguments (network_name_of dind) r.network
    granted ← requirement_arguments h t r.requirements
    ok (
        base_arguments r contract_root
        ++ (if requires r.requirements "docker-socket"
            then "--env"
              ∷ ("FIRMARBITER_HOST_ARTIFACTS_PATH=" +++ contract_root +++ "/artifacts")
              ∷ []
            else [])
        ++ network
        ++ (if not r.run_as_root then "--user" ∷ h.user ∷ [] else [])
        ++ granted
        ++ elim dind [
          | none ↦ []
          | some (_, sidecar) ↦
              "--env" ∷ ("DOCKER_HOST=tcp://" +++ sidecar.container_name +++ ":2375") ∷ []
        ]
        ++ image.reference ∷ "/firmarbiter/input/request.json" ∷ [])
