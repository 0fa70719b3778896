-- ===== src/Docker/Creation.antt =====
-- `create_container`. The request is what `load_and_validate_request` returns.
use firm_arbiter.Prelude.{
  ℕ, String, Option, none, some, if◌then◌else◌, ℕ-Eq, String-Eq, pair-Eq, Option-Eq, Result, ok,
  err,
}
use firm_arbiter.Docker.{DockerError, Host, Docker, return, ◌>>=◌}
use firm_arbiter.Docker.Requirements.{requires}
use firm_arbiter.Docker.Sidecar.{CreatedContainer, create, set_up_dind}
use firm_arbiter.Docker.Arguments.{
  Request, Image, container_name, create_arguments, sidecar_id, network_name_of,
}

module _ (h : Host) where
  -- What follows the setup.
  unfoldable pub create_candidate :
      Request → String → Image → Option (String × CreatedContainer) → Docker CreatedContainer
  create_candidate r contract_root image dind = do
    arguments ← λ t. (t, create_arguments h t r contract_root image dind)
    container_id ← create h arguments
    return (record {
      container_id = container_id;
      container_name = container_name h r;
      image_id = image.image_id;
      sidecar_container_id = sidecar_id dind;
      network_name = network_name_of dind;
    })

  -- `create_container`
  unfoldable pub create_container :
      ℕ → Result DockerError Request → String → Image → Docker CreatedContainer
  create_container rounds loaded contract_root image t = elim loaded [
    | err e ↦ (t, err e)
    | ok r ↦
        if requires r.requirements "nested-containers"
        then (let (u, s) = set_up_dind h rounds r.run_id t in
            elim s [
              | err e ↦ (u, err e)
              | ok d ↦ create_candidate r contract_root image (some d) u
            ])
        else create_candidate r contract_root image none t
  ]
