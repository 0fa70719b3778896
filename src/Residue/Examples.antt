-- ===== src/Residue/Examples.antt =====
-- Two snapshots around a run, at concrete inputs.
use firm_arbiter.Prelude.{
  ℕ, ◌≡◌, refl, ◌↔◌, ◌⊎◌, some, List, [], ◌∷◌, ℕ-Eq, String-Eq, pair-Eq, Option-Eq, ok, err,
}
use firm_arbiter.Residue.{
  ContainerRecord, ProcessRecord, NetworkInterfaceRecord, LoopDeviceRecord, DeviceMapperRecord,
  process_identity, interface_identity, loop_identity, mapper_identity, container_identity,
  HostEnvironmentSnapshot, Collected, records_of, note_error, snapshot, listed, unlisted,
  added_records, removed_records, residue_found, clean, prefixed, failed_sources, residue_status,
  evaluate_environment_residue,
}
use firm_arbiter.Residue.Records.{Occurs, AreExact, evaluate_environment_residue_exact}
use firm_arbiter.Residue.Evaluation.{Measured, Within, clean_means, failed_before_added}

abbrev process : ℕ → ProcessRecord
process pid = record {
  pid = pid;
  start_time_ticks = 100;
  executable = some "qemu-system-arm";
  command = "qemu-system-arm" ∷ [];
}

abbrev quiet : List ProcessRecord → Collected
quiet processes = record {
  qemu_processes = ok processes;
  tun_tap_interfaces = ok [];
  loop_devices = ok [];
  device_mapper_entries = ok [];
  containers = ok [];
}

abbrev two : Collected
two = quiet (process 7 ∷ process 8 ∷ [])

abbrev one : Collected
one = quiet (process 8 ∷ [])

abbrev earlier : HostEnvironmentSnapshot
earlier = snapshot two "10:00"

abbrev later : HostEnvironmentSnapshot
later = snapshot one "11:00"

clean_run : (evaluate_environment_residue earlier later "11:01").status ≡ clean
unfolding evaluate_environment_residue residue_status snapshot records_of note_error added_records
    removed_records unlisted listed prefixed failed_sources
clean_run = refl

clean_means_example :
    Measured two
    × Measured one
    × Within process_identity earlier.qemu_processes later.qemu_processes
    × Within interface_identity earlier.tun_tap_interfaces later.tun_tap_interfaces
    × Within loop_identity earlier.loop_devices later.loop_devices
    × Within mapper_identity earlier.device_mapper_entries later.device_mapper_entries
    × Within container_identity earlier.containers later.containers
clean_means_example = clean_means two one "10:00" "11:00" "11:01" clean_run

-- The second of the two processes before the run stays.
evaluate_environment_residue_exact_example :
    let o = evaluate_environment_residue earlier later "11:01" in
    AreExact process_identity earlier.qemu_processes later.qemu_processes o.added_qemu_processes
      o.removed_qemu_processes
    × AreExact interface_identity earlier.tun_tap_interfaces later.tun_tap_interfaces
        o.added_tun_tap_interfaces o.removed_tun_tap_interfaces
    × AreExact loop_identity earlier.loop_devices later.loop_devices o.added_loop_devices
        o.removed_loop_devices
    × AreExact mapper_identity earlier.device_mapper_entries later.device_mapper_entries
        o.added_device_mapper_entries o.removed_device_mapper_entries
    × AreExact container_identity earlier.containers later.containers o.added_containers
        o.removed_containers
    × ((o.status ≡ residue_found) ↔ (
        ((r : ProcessRecord) × Occurs r o.added_qemu_processes)
        ⊎ ((r : NetworkInterfaceRecord) × Occurs r o.added_tun_tap_interfaces)
        ⊎ ((r : LoopDeviceRecord) × Occurs r o.added_loop_devices)
        ⊎ ((r : DeviceMapperRecord) × Occurs r o.added_device_mapper_entries)
        ⊎ ((r : ContainerRecord) × Occurs r o.added_containers)))
evaluate_environment_residue_exact_example =
    evaluate_environment_residue_exact earlier later "11:01"

abbrev container : ContainerRecord
container = record {
  container_id = "c1";
  name = "database";
  image = "postgres";
  state = "running";
  labels = [];
}

abbrev no_docker : Collected
no_docker = record (quiet []) { containers = err "docker is down" }

abbrev one_container : Collected
one_container = record (quiet []) { containers = ok (container ∷ []) }

failed_before_added_example :
    let o =
      evaluate_environment_residue
        (snapshot no_docker "10:00")
        (snapshot one_container "11:00")
        "11:01" in
    (o.added_containers ≡ container ∷ []) × (o.status ≡ residue_found)
failed_before_added_example =
    failed_before_added no_docker one_container "10:00" "11:00" "11:01" "docker is down" container
      [] refl refl
