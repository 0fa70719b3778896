-- ===== src/Docker/Sidecar.antt =====
-- The private network and the DinD sidecar of a run with nested containers: `create_run_network`,
-- `create_dind_sidecar`, `_wait_for_dind_ready`, and the part of `create_container` that calls them
-- and rolls back.
use Prim.Native.String.{◌++◌ as ◌+++◌}
use firm_arbiter.Prelude.{
  ℕ, zero, suc, String, Bool, true, false, not, Option, none, some, List, [], ◌∷◌, if◌then◌else◌,
  ℕ-Eq, String-Eq, ◌==◌, pair-Eq, Option-Eq, Result, ok, err,
}
use firm_arbiter.Json.{object, null, text, get, pos, ℤ-Eq}
use firm_arbiter.Docker.{
  Command, finished, DockerError, no_container_id, sidecar_exited, sidecar_not_ready, no_ip_address,
  other_exception, is_backend_error, Host, Docker, return, raise, ◌>>=◌, ◌>>◌, run, run_only,
  start_container, stop_container, remove_container, remove_network, container_running,
}

pub record CreatedContainer : Type 0 where
  pub container_id : String
  pub container_name : String
  pub image_id : String
  pub sidecar_container_id : Option String
  pub network_name : Option String

abbrev pub dind_image : String
dind_image = "docker:dind@sha256:3f3c01aaaebf7cce837356b688b7c059a4749f10bd7660dec7c58fc454a283f0"

module _ (h : Host) where
  -- `completed.stdout.strip()`, which must not be empty.
  unfoldable pub create : List String → Docker String
  create arguments = do
    completed ← run h true arguments
    let container_id = h.strip completed.stdout
    if container_id == "" then raise no_container_id else return container_id

  abbrev pub network_of : String → String
  network_of run_id = "firmarbiter-dind-net-" +++ h.short_sha256 run_id

  abbrev pub network_command : String → Command
  network_command run_id =
      "network"
      ∷ "create"
      ∷ "--label"
      ∷ "firmarbiter.managed=true"
      ∷ "--label"
      ∷ ("firmarbiter.run_id=" +++ run_id)
      ∷ network_of run_id
      ∷ []

  unfoldable pub create_run_network : String → Docker String
  create_run_network run_id = do
    run_only h true (network_command run_id)
    return (network_of run_id)

  abbrev pub sidecar_name : String → String
  sidecar_name run_id = "firmarbiter-dind-" +++ h.short_sha256 run_id

  abbrev pub sidecar_command : String → String → Command
  sidecar_command network run_id =
      "container"
      ∷ "create"
      ∷ "--name"
      ∷ sidecar_name run_id
      ∷ "--label"
      ∷ "firmarbiter.managed=true"
      ∷ "--label"
      ∷ "firmarbiter.role=nested-containers-sidecar"
      ∷ "--label"
      ∷ ("firmarbiter.run_id=" +++ run_id)
      ∷ "--network"
      ∷ network
      ∷ "--privileged"
      ∷ "--env"
      ∷ "DOCKER_TLS_CERTDIR="
      ∷ dind_image
      ∷ []

  unfoldable pub create_dind_sidecar : String → String → Docker CreatedContainer
  unfolding create
  create_dind_sidecar network run_id = do
    container_id ← create (sidecar_command network run_id)
    return (record {
      container_id = container_id;
      container_name = sidecar_name run_id;
      image_id = dind_image;
      sidecar_container_id = none;
      network_name = none;
    })

  -- The address in the answer; null has no `get`, and a missing address is empty.
  unfoldable pub address_in : String → Result DockerError String
  address_in stdout = elim (h.loads (h.strip stdout)) [
    | some (object info) ↦ elim (get info "IPAddress") [
      | none ↦ err no_ip_address
      | some (text address) ↦ if address == "" then err no_ip_address else ok address
      | some null ↦ err no_ip_address
      | some _ ↦ err other_exception
    ]
    | _ ↦ err other_exception
  ]

  unfoldable pub get_container_network_ip : String → String → Docker String
  unfolding address_in
  get_container_network_ip id network = do
    completed ← run h true (
        "inspect"
        ∷ "--format"
        ∷ ("{{json (index .NetworkSettings.Networks \"" +++ network +++ "\")}}")
        ∷ id
        ∷ [])
    λ t. (t, address_in completed.stdout)

  abbrev pub version_command : String → Command
  version_command address =
      "-H"
      ∷ ("tcp://" +++ address +++ ":2375")
      ∷ "version"
      ∷ "--format"
      ∷ "{{.Server.Version}}"
      ∷ []

  -- `subprocess.run` of the version command, outside `_run`.
  unfoldable pub daemon_answers : String → Docker Bool
  daemon_answers address t =
      let command = version_command address in
      let u = command ∷ t in
      elim (h.answer t command) [
        | finished c ↦ (u, ok (c.returncode == pos 0))
        | _ ↦ (u, err other_exception)
      ]

  -- One round of `_wait_for_dind_ready`: whether the daemon is ready.
  unfoldable pub dind_ready : CreatedContainer → String → Docker Bool
  unfolding daemon_answers
  dind_ready sidecar network = do
    running ← container_running h sidecar.container_id
    if not running then raise sidecar_exited else λ t.
        let (u, r) = get_container_network_ip sidecar.container_id network t in
        elim r [
          | ok address ↦ daemon_answers address u
          | err e ↦ if is_backend_error e then (u, ok false) else (u, err e)
        ]

  -- `_wait_for_dind_ready`, with the rounds that begin before the deadline.
  unfoldable pub wait_for_dind_ready : ℕ → CreatedContainer → String → Docker (Unit {0})
  wait_for_dind_ready zero sidecar network = raise sidecar_not_ready
  wait_for_dind_ready (suc rounds) sidecar network = do
    ready ← dind_ready sidecar network
    if ready then return tt else wait_for_dind_ready rounds sidecar network

  -- A call whose exceptions are swallowed.
  abbrev pub attempt : Docker (Unit {0}) → Docker (Unit {0})
  attempt m t = ((m t).0, ok tt)

  -- The `try` behind the creation of the sidecar.
  unfoldable pub start_sidecar : ℕ → CreatedContainer → String → Docker (Unit {0})
  start_sidecar rounds sidecar network = do
    start_container h sidecar.container_id
    running ← container_running h sidecar.container_id
    if not running then raise sidecar_exited else wait_for_dind_ready rounds sidecar network

  -- The `except`: the sidecar, if there is one, and the network are removed.
  unfoldable pub roll_back : Option CreatedContainer → String → Docker (Unit {0})
  roll_back none network = attempt (remove_network h network)
  roll_back (some sidecar) network = do
    attempt (stop_container h sidecar.container_id)
    attempt (remove_container h sidecar.container_id)
    attempt (remove_network h network)

  -- The setup of a run with nested containers: the network and the sidecar.
  unfoldable pub set_up_dind : ℕ → String → Docker (String × CreatedContainer)
  unfolding create_run_network roll_back
  set_up_dind rounds run_id t =
      let (t₁, made) = create_run_network run_id t in
      elim made [
        | err e ↦ (t₁, err e)
        | ok network ↦
            let (t₂, created) = create_dind_sidecar network run_id t₁ in
            elim created [
              | err e ↦ ((roll_back none network t₂).0, err e)
              | ok sidecar ↦
                  let (t₃, started) = start_sidecar rounds sidecar network t₂ in
                  elim started [
                    | err e ↦ ((roll_back (some sidecar) network t₃).0, err e)
                    | ok _ ↦ (t₃, ok (network, sidecar))
                  ]
            ]
      ]
