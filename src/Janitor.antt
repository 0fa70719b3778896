-- ===== src/Janitor.antt =====
-- firmarbiter_core/environment_janitor.py: the remediation plan that follows from a residue
-- observation. Its execution is in Execution.
pub mod Execution
pub mod Safety
pub mod Accounting
mod Examples
use firm_arbiter.Prelude.{
  ℕ, ◌+◌, String, Bool, true, false, not, ◌&&◌, ◌||◌, Option, none, some, List, [], ◌∷◌, ◌++◌, map,
  ltb, if◌then◌else◌, ℕ-Eq, String-Eq, ◌==◌, pair-Eq, Option-Eq, length, count_of, Result, ◌>>=◌,
  ◌>>◌, raise_if, ok, err,
}
use Prim.Native.String.{◌++◌ as ◌+++◌}
use firm_arbiter.Json.{Json, Fields, object, end, field, text, get, is_text}
use firm_arbiter.Residue.{
  ProcessRecord, NetworkInterfaceRecord, LoopDeviceRecord, DeviceMapperRecord, ContainerRecord,
  ResidueObservation,
}

pub data JanitorError : Type 0 where
  empty_run_id : JanitorError

pub data ResourceType : Type 0 where
  docker_container qemu_process tun_tap_interface loop_device device_mapper : ResourceType

pub data ActionKind : Type 0 where
  remove preserve : ActionKind

-- The texts of `reason`.
pub data Reason : Type 0 where
  owned_container unproven_container unproven_process unproven_interface unproven_loop : Reason
  unproven_mapper no_executor no_longer_existed identity_changed labels_do_not_match : Reason
  removed_after_revalidation removal_failed : Reason

pub record RemediationAction : Type 0 where
  pub resource_type : ResourceType
  pub resource_identity : String
  pub action : ActionKind
  pub authorised : Bool
  pub reason : Reason

pub record RemediationPlan : Type 0 where
  pub run_id : String
  pub created_at : String
  pub actions : List RemediationAction

-- `labels.get(key)` of a dictionary of texts.
unfoldable pub label : List (String × String) → String → Option String
label [] key = none
label ((k, v) ∷ labels) key = if k == key then some v else label labels key

abbrev pub equals : Option String → String → Bool
equals none s = false
equals (some t) s = t == s

-- `_container_is_owned`
unfoldable pub container_is_owned : List (String × String) → String → Bool
container_is_owned labels run_id =
    equals (label labels "firmarbiter.managed") "true"
    && equals (label labels "firmarbiter.run_id") run_id

-- What the module takes from Python: the texts of a number, of an optional number and of a JSON
-- value that is no text.
pub record Texts : Type 0 where
  pub number : ℕ → String
  pub optional_number : Option ℕ → String
  pub value : Json → String

module _ (texts : Texts) where
  unfoldable pub container_action : String → ContainerRecord → RemediationAction
  container_action run_id container =
      if container_is_owned container.labels run_id
      then record {
        resource_type = docker_container;
        resource_identity = container.container_id;
        action = remove;
        authorised = true;
        reason = owned_container;
      }
      else record {
        resource_type = docker_container;
        resource_identity = container.container_id;
        action = preserve;
        authorised = false;
        reason = unproven_container;
      }

  -- An action that keeps a resource, with no authority to do more.
  abbrev pub keep : ResourceType → Reason → String → RemediationAction
  keep kind why identity = record {
    resource_type = kind;
    resource_identity = identity;
    action = preserve;
    authorised = false;
    reason = why;
  }

  unfoldable pub process_action : ProcessRecord → RemediationAction
  process_action process =
      keep qemu_process unproven_process
        (texts.number process.pid +++ ":" +++ texts.number process.start_time_ticks)

  unfoldable pub interface_action : NetworkInterfaceRecord → RemediationAction
  interface_action interface =
      keep tun_tap_interface unproven_interface
        (interface.name +++ ":" +++ texts.optional_number interface.ifindex)

  unfoldable pub loop_action : LoopDeviceRecord → RemediationAction
  loop_action device = keep loop_device unproven_loop device.name

  unfoldable pub mapper_action : DeviceMapperRecord → RemediationAction
  mapper_action mapper = keep device_mapper unproven_mapper mapper.name

  -- The five loops of `build_remediation_plan`.
  unfoldable pub planned_actions : String → ResidueObservation → List RemediationAction
  planned_actions run_id residue =
      map (container_action run_id) residue.added_containers
      ++ (map process_action residue.added_qemu_processes
          ++ (map interface_action residue.added_tun_tap_interfaces
              ++ (map loop_action residue.added_loop_devices
                  ++ map mapper_action residue.added_device_mapper_entries)))

  -- `build_remediation_plan`
  unfoldable pub build_remediation_plan :
      String → ResidueObservation → String → Result JanitorError RemediationPlan
  build_remediation_plan run_id residue now = do
    raise_if (run_id == "") empty_run_id
    ok (record { run_id = run_id; created_at = now; actions = planned_actions run_id residue })
