-- ===== src/Docker/Outcomes.antt =====
-- How `create_container` returns and raises, and the commands that it has then issued.
use firm_arbiter.Prelude.{
  ℕ, String, ◌≡◌, refl, ◌≢◌, ◌⊎◌, inl, inr, true, false, Option, none, some, List, ◌∷◌, arith,
  eq_iff, Bool-cases, ℕ-Eq, String-Eq, pair-Eq, Option-Eq, Result, Result-cases, ok, err,
}
use firm_arbiter.Docker.{Command, Trace, DockerError, Host}
use firm_arbiter.Docker.Requirements.{requires}
use firm_arbiter.Docker.Sidecar.{CreatedContainer, create, set_up_dind}
use firm_arbiter.Docker.Arguments.{Request, Image, create_arguments, sidecar_id, network_name_of}
use firm_arbiter.Docker.Creation.{create_candidate, create_container}
use firm_arbiter.Docker.Rollback.{run-trace, RolledBack, set_up_dind-RolledBack}

module _ (h : Host) (contract_root : String) (image : Image) where
  -- The last command creates the adapter's container, with the arguments of the request.
  pub record Created (r : Request) (dind : Option (String × CreatedContainer)) (t u : Trace)
      (c : CreatedContainer) : Type 0 where
    pub arguments : List String
    pub granted : create_arguments h t r contract_root image dind ≡ ok arguments
    pub last : u ≡ arguments ∷ t
    pub named : c.container_id ≢ ""
    pub sidecar : c.sidecar_container_id ≡ sidecar_id dind
    pub network : c.network_name ≡ network_name_of dind

  create-ok :
      (arguments : Command) (t u : Trace) (id : String)
      → create h arguments t ≡ (u, ok id)
      → (u ≡ arguments ∷ t) × (id ≢ "")
  unfolding create
  create-ok arguments t u id e = ground (arith, run-trace h true arguments t, eq_iff id "")

  create-err :
      (arguments : Command) (t u : Trace) (e : DockerError)
      → create h arguments t ≡ (u, err e)
      → u ≡ arguments ∷ t
  unfolding create
  create-err arguments t u e failed = ground (arith, run-trace h true arguments t)

  -- What follows the setup raises: the arguments of the request cannot be made, and no command is
  -- issued; or the container cannot be created with them, which is the last command.
  pub data Ended (r : Request) (dind : Option (String × CreatedContainer)) (t u : Trace)
      (e : DockerError) : Type 0 where
    no_arguments :
        create_arguments h t r contract_root image dind ≡ err e → u ≡ t → Ended r dind t u e
    no_container :
        (arguments : Command)
        → create_arguments h t r contract_root image dind ≡ ok arguments
        → create h arguments t ≡ (u, err e)
        → u ≡ arguments ∷ t
        → Ended r dind t u e

  module _ (r : Request) (dind : Option (String × CreatedContainer)) (t u : Trace) where
    create_candidate-Created :
        (c : CreatedContainer)
        → create_candidate h r contract_root image dind t ≡ (u, ok c)
        → Created r dind t u c
    unfolding create_candidate
    create_candidate-Created c e =
        elim (Result-cases (create_arguments h t r contract_root image dind)) [
          | inl (e', refused) ↦ absurd (ground arith)
          | inr (arguments, given) ↦ elim (Result-cases (create h arguments t).1) [
            | inl (e', raised) ↦ absurd (ground arith)
            | inr (id, made) ↦
                let (last, named) =
                  create-ok arguments t (create h arguments t).0 id (ground arith) in
                record {
                  arguments = arguments;
                  granted = given;
                  last = ground arith;
                  named = ground arith;
                  sidecar = ground arith;
                  network = ground arith;
                }
          ]
        ]

    create_candidate-err :
        (e : DockerError)
        → create_candidate h r contract_root image dind t ≡ (u, err e)
        → Ended r dind t u e
    unfolding create_candidate
    create_candidate-err e failed =
        elim (Result-cases (create_arguments h t r contract_root image dind)) [
          | inl (e', refused) ↦ no_arguments (ground arith) (ground arith)
          | inr (arguments, given) ↦ elim (Result-cases (create h arguments t).1) [
            | inl (e', raised) ↦
                no_container arguments given (ground arith)
                  (create-err arguments t u e (ground arith))
            | inr (id, made) ↦ absurd (ground arith)
          ]
        ]

  -- The ways to raise, for what the request was read as. `late` is the one behind a setup.
  pub data Raised (rounds : ℕ) (loaded : Result DockerError Request) (t u : Trace) (e : DockerError)
      : Type 0 where
    not_loaded : loaded ≡ err e → u ≡ t → Raised rounds loaded t u e
    plain :
        (r : Request)
        → loaded ≡ ok r
        → requires r.requirements "nested-containers" ≡ false
        → Ended r none t u e
        → Raised rounds loaded t u e
    setup :
        (r : Request)
        → loaded ≡ ok r
        → requires r.requirements "nested-containers" ≡ true
        → RolledBack h rounds r.run_id t u e
        → Raised rounds loaded t u e
    late :
        (r : Request) (v : Trace) (d : String × CreatedContainer)
        → loaded ≡ ok r
        → requires r.requirements "nested-containers" ≡ true
        → set_up_dind h rounds r.run_id t ≡ (v, ok d)
        → Ended r (some d) v u e
        → Raised rounds loaded t u e

  -- If `create_container` raises, then in one of four ways: the request was not accepted, that error
  -- is raised, and no command was issued; or it asks for no nested containers, and its arguments
  -- cannot be made or the command that creates the container with them fails; or it asks for nested
  -- containers, and their setup raises, which removes what it has created; or that setup succeeds,
  -- and its arguments cannot be made, with no further command, or the command with them fails.
  pub create_container_raises :
      (rounds : ℕ) (loaded : Result DockerError Request) (t u : Trace) (e : DockerError)
      → create_container h rounds loaded contract_root image t ≡ (u, err e)
      → Raised rounds loaded t u e
  unfolding create_container
  create_container_raises rounds (err x) t u e failed = not_loaded (ground arith) (ground arith)
  create_container_raises rounds (ok r) t u e failed =
      elim (Bool-cases (requires r.requirements "nested-containers")) [
        | inr alone ↦ plain r refl alone (create_candidate-err r none t u e (ground arith))
        | inl nested ↦ elim (Result-cases (set_up_dind h rounds r.run_id t).1) [
          | inl (e', raised) ↦
              setup r refl nested (set_up_dind-RolledBack h rounds r.run_id t u e (ground arith))
          | inr (d, ready) ↦
              late r (set_up_dind h rounds r.run_id t).0 d refl nested (ground arith) (
                create_candidate-err r (some d) (set_up_dind h rounds r.run_id t).0 u e
                  (ground arith))
        ]
      ]

  -- If `create_container` returns a container for a request, then its id is not empty, the last
  -- command creates it with the arguments of the request, and it has the sidecar and the network of
  -- the setup before it, which was made exactly if nested containers were granted.
  pub create_container-ok :
      (rounds : ℕ) (r : Request) (t u : Trace) (c : CreatedContainer)
      → create_container h rounds (ok r) contract_root image t ≡ (u, ok c)
      → ((requires r.requirements "nested-containers" ≡ false) × Created r none t u c)
        ⊎ ((v : Trace) × (d : String × CreatedContainer) × (requires r.requirements
                "nested-containers"
              ≡ true)
            × (set_up_dind h rounds r.run_id t ≡ (v, ok d))
            × Created r (some d) v u c)
  unfolding create_container
  create_container-ok rounds r t u c made =
      elim (Bool-cases (requires r.requirements "nested-containers")) [
        | inr alone ↦ inl (alone, create_candidate-Created r none t u c (ground arith))
        | inl nested ↦ elim (Result-cases (set_up_dind h rounds r.run_id t).1) [
          | inl (e', raised) ↦ absurd (ground arith)
          | inr (d, ready) ↦
              let v = (set_up_dind h rounds r.run_id t).0 in
              inr (
                v,
                d,
                nested,
                ground arith,
                create_candidate-Created r (some d) v u c (ground arith),
              )
        ]
      ]
