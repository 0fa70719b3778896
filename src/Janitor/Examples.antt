-- ===== src/Janitor/Examples.antt =====
-- A plan and its execution at concrete inputs.
use firm_arbiter.Prelude.{
  ◌+◌, ◌<◌, String, ◌≡◌, refl, ◌↔◌, true, none, List, [], ◌∷◌, arith, ℕ-Eq, String-Eq, pair-Eq,
  Option-Eq, length, All, ok, err,
}
use firm_arbiter.Json.{Fields, end, field, text, object}
use firm_arbiter.Residue.{ContainerRecord, ResidueObservation, residue_found}
use firm_arbiter.Janitor.{
  RemediationPlan, docker_container, remove, owned_container, label, container_is_owned, Texts,
  container_action, planned_actions, build_remediation_plan,
}
use firm_arbiter.Janitor.Execution.{
  Exception, JanitorBackend, partial_failure, manual_review_required, remediated, already_clean,
  no_action_required, execute,
}
use firm_arbiter.Janitor.Safety.{Owned, execute-Owned}
use firm_arbiter.Janitor.Accounting.{down_already_clean, execute_verdict}

abbrev texts : Texts
texts = record { number = λ n. "7"; optional_number = λ n. "None"; value = λ v. "?" }

abbrev owned_labels : List (String × String)
owned_labels = ("firmarbiter.managed", "true") ∷ ("firmarbiter.run_id", "run-1") ∷ []

abbrev leftover : ContainerRecord
leftover = record {
  container_id = "c1";
  name = "adapter";
  image = "firmae";
  state = "exited";
  labels = owned_labels;
}

abbrev residue : ResidueObservation
residue = record {
  status = residue_found;
  observed_at = "11:00";
  residue_detected = true;
  added_qemu_processes = [];
  added_tun_tap_interfaces = [];
  added_loop_devices = [];
  added_device_mapper_entries = [];
  added_containers = leftover ∷ [];
  removed_qemu_processes = [];
  removed_tun_tap_interfaces = [];
  removed_loop_devices = [];
  removed_device_mapper_entries = [];
  removed_containers = [];
  source_errors = [];
}

abbrev inspection : Fields
inspection = field "Id" (text "c1") (
    field "Config"
      (object (
        field "Labels"
          (object (
            field "firmarbiter.managed" (text "true")
              (field "firmarbiter.run_id" (text "run-1") end)))
          end))
      end)

abbrev backend : JanitorBackend
backend = record {
  inspect_container = λ step id. ok inspection;
  remove_container = λ step id. none;
}

abbrev plan : RemediationPlan
plan = record {
  run_id = "run-1";
  created_at = "11:01";
  actions =
      record {
        resource_type = docker_container;
        resource_identity = "c1";
        action = remove;
        authorised = true;
        reason = owned_container;
      }
      ∷ [];
}

plan_built : build_remediation_plan texts "run-1" residue "11:01" ≡ ok plan
unfolding build_remediation_plan planned_actions container_action container_is_owned label
plan_built = refl

execute-Owned_example :
    All (Owned texts "run-1" residue backend) (execute texts backend plan "11:02" "11:03").1
execute-Owned_example =
    execute-Owned texts "run-1" residue backend plan "11:01" "11:02" "11:03" plan_built

execute_verdict_example :
    let o = (execute texts backend plan "11:02" "11:03").0 in
    ((o.status ≡ partial_failure) ↔ (0 < o.failed_actions))
    × ((o.status ≡ manual_review_required) ↔ ((o.failed_actions ≡ 0) × (0 < o.preserved_resources)))
    × ((o.status ≡ remediated)
        ↔ ((0 < o.removed_resources) × (o.removed_resources + o.missing_resources ≡ 1)))
    × ((o.status ≡ already_clean) ↔ ((0 < 1) × (o.missing_resources ≡ 1)))
    × ((o.status ≡ no_action_required) ↔ (length plan.actions ≡ 0))
execute_verdict_example = execute_verdict texts backend plan "11:02" "11:03"

abbrev refusal : Exception
refusal = record { type_name = "DockerBackendError"; message = "docker is down" }

abbrev down : JanitorBackend
down = record { inspect_container = λ step id. err refusal; remove_container = λ step id. none }

down_already_clean_example :
    ((execute texts down plan "11:02" "11:03").0.status ≡ already_clean)
    × ((execute texts down plan "11:02" "11:03").0.missing_resources ≡ 1)
    × ((execute texts down plan "11:02" "11:03").1 ≡ [])
down_already_clean_example =
    down_already_clean texts down (λ step id. (refusal, refl)) plan "11:02" "11:03"
      ((refl, refl, refl), tt) (omega arith)
