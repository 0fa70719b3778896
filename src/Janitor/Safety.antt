-- ===== src/Janitor/Safety.antt =====
-- Nothing is removed whose ownership was not proved, and proved again at the moment of removal.
use firm_arbiter.Prelude.{
  ℕ, suc, ◌+◌, String, ◌≡◌, refl, sym, ◌∙◌, inl, inr, true, false, Option, none, some, List, [],
  ◌∷◌, map, arith, ℕ-Eq, String-Eq, pair-Eq, Option-Eq, All, get_elem?, All-get_elem?, All-imp,
  All-append, Result-cases, ok,
}
use mathlib.Core.Path.{subst}
use firm_arbiter.Json.{Fields}
use firm_arbiter.Residue.{ContainerRecord, ResidueObservation}
use firm_arbiter.Janitor.{
  docker_container, remove, RemediationAction, RemediationPlan, container_is_owned, Texts,
  container_action, process_action, interface_action, loop_action, mapper_action, planned_actions,
  build_remediation_plan,
}
use firm_arbiter.Janitor.Execution.{
  JanitorBackend, labels_of, is_same, remediate_container, execute_action, execute_actions, execute,
}

All-call :
    (P : ℕ × String → Type 0) (step : ℕ) (call : Option String) (calls : List (ℕ × String))
    → ((id : String) → call ≡ some id → P (step, id))
    → All P calls
    → All P (elim call [ none ↦ calls | some container_id ↦ (step, container_id) ∷ calls ])
All-call P step none calls here rest = rest
All-call P step (some id) calls here rest = (here id refl, rest)

module _ (texts : Texts) (backend : JanitorBackend) (run_id : String) where
  -- At this step the backend showed a container of this very identity, with the labels of this run.
  pub record Revalidated (step : ℕ) (container_id : String) : Type 0 where
    pub inspection : Fields
    pub inspected : backend.inspect_container step container_id ≡ ok inspection
    pub same : is_same inspection container_id ≡ true
    pub owned : container_is_owned (labels_of texts inspection) run_id ≡ true

  -- The action that a removal carries out.
  pub record Authorised (action : RemediationAction) (container_id : String) : Type 0 where
    pub authority : action.authorised ≡ true
    pub removal : action.action ≡ remove
    pub container : action.resource_type ≡ docker_container
    pub identity : action.resource_identity ≡ container_id

  remediate_container-Revalidated :
      (step : ℕ) (container_id removed_id : String)
      → (remediate_container texts backend run_id step container_id).1 ≡ some removed_id
      → Revalidated step removed_id × (container_id ≡ removed_id)
  unfolding remediate_container
  remediate_container-Revalidated step container_id removed_id h =
      elim (Result-cases (backend.inspect_container step container_id)) [
        | inl (e, bad) ↦ absurd (ground arith)
        | inr (inspection, shown) ↦
            let same : container_id ≡ removed_id = ground arith in
            (
              subst (Revalidated step) same (record {
                inspection = inspection;
                inspected = shown;
                same = ground arith;
                owned = ground arith;
              }),
              same,
            )
      ]

  execute_action-parts :
      (step : ℕ) (action : RemediationAction) (removed_id : String)
      → (execute_action texts backend run_id step action).1 ≡ some removed_id
      → (action.authorised ≡ true)
        × (action.action ≡ remove)
        × (action.resource_type ≡ docker_container)
        × ((remediate_container texts backend run_id step action.resource_identity).1
            ≡ some removed_id)
  unfolding execute_action
  execute_action-parts step action removed_id h = ground arith

  -- A call at a step stems from the plan's action at that step.
  pub record Justified (base : ℕ) (actions : List RemediationAction) (call : ℕ × String)
      : Type 0 where
    pub index : ℕ
    pub action : RemediationAction
    pub step : call.0 ≡ base + index
    pub planned : get_elem? actions index ≡ some action
    pub authorised : Authorised action call.1
    pub revalidated : Revalidated call.0 call.1

  execute_action-Justified :
      (step : ℕ) (action : RemediationAction) (actions : List RemediationAction)
      (removed_id : String)
      → (execute_action texts backend run_id step action).1 ≡ some removed_id
      → Justified step (action ∷ actions) (step, removed_id)
  execute_action-Justified step action actions removed_id h =
      let (authority, removal, container, called) = execute_action-parts step action removed_id h in
      let (revalidated, same) =
        remediate_container-Revalidated step action.resource_identity removed_id called in
      record {
        index = 0;
        action = action;
        step = omega arith;
        planned = refl;
        authorised = record {
          authority = authority;
          removal = removal;
          container = container;
          identity = same;
        };
        revalidated = revalidated;
      }

  Justified-cons :
      (base : ℕ) (action : RemediationAction) (actions : List RemediationAction) (call : ℕ × String)
      → Justified (base + 1) actions call
      → Justified base (action ∷ actions) call
  Justified-cons base action actions call j = record {
    index = suc j.index;
    action = j.action;
    step = omega (arith, j.step);
    planned = j.planned;
    authorised = j.authorised;
    revalidated = j.revalidated;
  }

  pub execute_actions-Justified :
      (base : ℕ) (actions : List RemediationAction)
      → All (Justified base actions) (execute_actions texts backend run_id base actions).1
  unfolding execute_actions
  execute_actions-Justified base [] = tt
  execute_actions-Justified base (action ∷ actions) =
      All-call _ base (execute_action texts backend run_id base action).1
        (execute_actions texts backend run_id (base + 1) actions).1
        (execute_action-Justified base action actions)
        (All-imp _ _ (execute_actions texts backend run_id (base + 1) actions).1
          (Justified-cons base action actions) (execute_actions-Justified (base + 1) actions))

-- What gives a planned action its authority: an added container with the labels of the run.
pub record Owner (run_id : String) (residue : ResidueObservation) (action : RemediationAction)
    : Type 0 where
  pub index : ℕ
  pub container : ContainerRecord
  pub added : get_elem? residue.added_containers index ≡ some container
  pub named : action.resource_identity ≡ container.container_id
  pub owned : container_is_owned container.labels run_id ≡ true

-- Only an owned container gets an authorised action.
abbrev HasOwner : String → ResidueObservation → RemediationAction → Type 0
HasOwner run_id residue action = action.authorised ≡ true → Owner run_id residue action

module _ (texts : Texts) (run_id : String) (residue : ResidueObservation) where
  containers-HasOwner :
      (base : ℕ) (containers : List ContainerRecord)
      → ((i : ℕ) (c : ContainerRecord)
          → get_elem? containers i ≡ some c
          → get_elem? residue.added_containers (base + i) ≡ some c)
      → All (HasOwner run_id residue) (map (container_action texts run_id) containers)
  unfolding container_action
  containers-HasOwner base [] h = tt
  containers-HasOwner base (c ∷ containers) h = (
    λ auth. record {
      index = base + 0;
      container = c;
      added = h 0 c refl;
      named = ground arith;
      owned = ground arith;
    },
    containers-HasOwner (base + 1) containers (λ i d e.
        let shift : base + 1 + i ≡ base + suc i = omega arith in rw shift (h (suc i) d e)),
  )

  kept-HasOwner {ℓ} :
      {A : Type ℓ} (f : A → RemediationAction)
      → ((x : A) → (f x).authorised ≡ false)
      → (xs : List A) → All (HasOwner run_id residue) (map f xs)
  kept-HasOwner f h [] = tt
  kept-HasOwner f h (x ∷ xs) = (λ auth. absurd (cc (h x)), kept-HasOwner f h xs)

  planned_actions-HasOwner : All (HasOwner run_id residue) (planned_actions texts run_id residue)
  unfolding planned_actions process_action interface_action loop_action mapper_action
  planned_actions-HasOwner =
      All-append _ (map (container_action texts run_id) residue.added_containers) _
        (containers-HasOwner 0 residue.added_containers
          (λ i c e. let same : i ≡ 0 + i = omega arith in rw (← same) e))
        (All-append _ (map (process_action texts) residue.added_qemu_processes) _
          (kept-HasOwner (process_action texts) (λ x. refl) residue.added_qemu_processes)
          (All-append _ (map (interface_action texts) residue.added_tun_tap_interfaces) _
            (kept-HasOwner (interface_action texts) (λ x. refl) residue.added_tun_tap_interfaces)
            (All-append _ (map (loop_action texts) residue.added_loop_devices) _
              (kept-HasOwner (loop_action texts) (λ x. refl) residue.added_loop_devices)
              (kept-HasOwner (mapper_action texts) (λ x. refl)
                residue.added_device_mapper_entries))))

  build_remediation_plan-parts :
      (now : String) (plan : RemediationPlan)
      → build_remediation_plan texts run_id residue now ≡ ok plan
      → (plan.run_id ≡ run_id) × (plan.actions ≡ planned_actions texts run_id residue)
  unfolding build_remediation_plan
  build_remediation_plan-parts now plan h = ground arith

  -- What a removal rests on: a container that was added between the snapshots and bore the labels of
  -- the run, and that showed the same identity and labels again when it was inspected at this step.
  pub record Owned (backend : JanitorBackend) (call : ℕ × String) : Type 0 where
    pub index : ℕ
    pub container : ContainerRecord
    pub added : get_elem? residue.added_containers index ≡ some container
    pub named : call.1 ≡ container.container_id
    pub owned : container_is_owned container.labels run_id ≡ true
    pub revalidated : Revalidated texts backend run_id call.0 call.1

  -- Every call of `remove_container` that the execution of a plan makes names a container that was
  -- added between the two snapshots and bore the labels of this run then; and in the same step,
  -- before the call, the backend showed a container of that identity with the labels of this run.
  -- No process, interface, loop device or mapper entry is ever removed.
  pub execute-Owned :
      (backend : JanitorBackend) (plan : RemediationPlan) (now t u : String)
      → build_remediation_plan texts run_id residue now ≡ ok plan
      → All (Owned backend) (execute texts backend plan t u).1
  unfolding execute
  execute-Owned backend plan now t u h =
      let (same_run, same_actions) = build_remediation_plan-parts now plan h in
      rw (same_run, same_actions)
        (All-imp _ _
          (execute_actions texts backend run_id 0 (planned_actions texts run_id residue)).1
          (λ call j.
            let o =
              All-get_elem? (HasOwner run_id residue) (planned_actions texts run_id residue) j.index
                j.action planned_actions-HasOwner j.planned j.authorised.authority in
            record {
              index = o.index;
              container = o.container;
              added = o.added;
              named = sym j.authorised.identity ∙ o.named;
              owned = o.owned;
              revalidated = j.revalidated;
            })
          (execute_actions-Justified texts backend run_id 0 (planned_actions texts run_id residue)))
