-- ===== src/Docker/Examples.antt =====
-- Runs of the backend against a docker that is given by a function.
use firm_arbiter.Prelude.{
  String, ◌≡◌, refl, ◌↔◌, ◌⊎◌, true, false, none, some, [], ◌∷◌, ℕ-Eq, String-Eq, pair-Eq,
  Option-Eq, Result, ok, err,
}
use firm_arbiter.Json.{get, ℤ_eq}
use firm_arbiter.Docker.Simulation.{host, request, image}
use firm_arbiter.Docker.{
  Trace, Host, DockerError, device_unavailable, unsupported_requirement, run, container_running,
  inspect_container, inspected, state_of, start_container,
}
use firm_arbiter.Docker.Requirements.{
  requires, insert, sorted, require_device, requirement_argument, arguments_of,
  requirement_arguments, dashed, strip_left, strip_right, squeeze, safe_container_component,
}
use firm_arbiter.Docker.Requirements.Grants.{IsGranted, requirement_arguments-IsGranted}
use firm_arbiter.Docker.Capabilities.{key_error, status_for, status_for_exact}
use firm_arbiter.Docker.Sidecar.{
  CreatedContainer, create, create_run_network, create_dind_sidecar, address_in,
  get_container_network_ip, daemon_answers, dind_ready, wait_for_dind_ready, start_sidecar,
  set_up_dind,
}
use firm_arbiter.Docker.Arguments.{network_arguments, create_arguments}
use firm_arbiter.Docker.Creation.{create_candidate, create_container}
use firm_arbiter.Docker.Outcomes.{Created, Raised, create_container_raises, create_container-ok}

abbrev equipped : Host
equipped = record host { exists = λ t path. true }

-- Privileges, which make the rule for the loop devices superfluous.
requirement_arguments-IsGranted_example :
    IsGranted true
      ("--privileged" ∷ "--device" ∷ "/dev/loop-control" ∷ [])
      ("loop-devices" ∷ "full-privileged" ∷ [])
unfolding requirement_arguments arguments_of sorted requirement_argument insert require_device
requirement_arguments-IsGranted_example =
    requirement_arguments-IsGranted equipped [] ("loop-devices" ∷ "full-privileged" ∷ [])
      ("--privileged" ∷ "--device" ∷ "/dev/loop-control" ∷ []) refl

-- Nested containers, and a device that the host lacks.
abbrev set_up : Trace × Result DockerError (String × CreatedContainer)
set_up = set_up_dind host 1 "run-1" []

create_container_raises_example :
    Raised host "/run" image 1
      (ok (request ("nested-containers" ∷ "kvm" ∷ [])))
      []
      set_up.0
      (device_unavailable "/dev/kvm")
unfolding create_container create_candidate create_arguments network_arguments requirement_arguments
    arguments_of sorted insert requirement_argument require_device safe_container_component dashed
    strip_left strip_right squeeze create set_up_dind create_run_network create_dind_sidecar
    start_sidecar wait_for_dind_ready dind_ready daemon_answers get_container_network_ip address_in
    start_container container_running inspect_container inspected state_of run get ℤ_eq
create_container_raises_example =
    create_container_raises host "/run" image 1 (ok (request ("nested-containers" ∷ "kvm" ∷ []))) []
      set_up.0 (device_unavailable "/dev/kvm") refl

abbrev created : Trace × Result DockerError CreatedContainer
created = create_container host 1 (ok (request ("net-admin" ∷ []))) "/run" image []

abbrev container : CreatedContainer
container = record {
  container_id = "id";
  container_name = "firmarbiter-a-0123456789ab";
  image_id = "sha256:1";
  sidecar_container_id = none;
  network_name = none;
}

create_container-ok_example :
    ((requires ("net-admin" ∷ []) "nested-containers" ≡ false)
      × Created host "/run" image (request ("net-admin" ∷ [])) none [] created.0 container)
    ⊎ ((v : Trace) × (d : String × CreatedContainer) × (requires
            ("net-admin" ∷ [])
            "nested-containers"
          ≡ true)
        × (set_up_dind host 1 "run-1" [] ≡ (v, ok d))
        × Created host "/run" image (request ("net-admin" ∷ [])) (some d) v created.0 container)
unfolding create_container create_candidate create_arguments network_arguments requirement_arguments
    arguments_of sorted insert requirement_argument safe_container_component dashed strip_left
    strip_right squeeze create run ℤ_eq
create_container-ok_example =
    create_container-ok host "/run" image 1 (request ("net-admin" ∷ [])) [] created.0 container refl

status_for_exact_example :
    (status_for "gpu" ≡ err (key_error "gpu"))
    ↔ (requirement_argument host [] false "gpu" ≡ err (unsupported_requirement "gpu"))
status_for_exact_example = status_for_exact host [] false "gpu"
