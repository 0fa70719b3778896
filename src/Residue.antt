-- ===== src/Residue.antt =====
-- firmarbiter_core/environment_residue.py: the host state before and after a run, the difference of
-- two such snapshots, and the verdict on it. What the five collectors return is given.
pub mod Difference
pub mod Evaluation
pub mod Records
mod Examples
use firm_arbiter.Prelude.{
  ℕ, suc, ◌-◌, String, Bool, true, false, ◌||◌, Option, List, [], ◌∷◌, ◌++◌, leb, if◌then◌else◌, Eq,
  ◌==◌, ℕ-Eq, String-Eq, pair-Eq, Option-Eq, any_of, Result, ok, err,
}

pub record ProcessRecord : Type 0 where
  pub pid : ℕ
  pub start_time_ticks : ℕ
  pub executable : Option String
  pub command : List String

pub record NetworkInterfaceRecord : Type 0 where
  pub name : String
  pub ifindex : Option ℕ
  pub kind : Option String
  pub tun_flags : Option String

pub record LoopDeviceRecord : Type 0 where
  pub name : String
  pub backing_file : Option String
  pub offset_bytes : Option ℕ
  pub autoclear : Option Bool

pub record DeviceMapperRecord : Type 0 where
  pub name : String
  pub uuid : Option String
  pub major : Option ℕ
  pub minor : Option ℕ

pub record ContainerRecord : Type 0 where
  pub container_id : String
  pub name : String
  pub image : String
  pub state : String
  pub labels : List (String × String)

-- The `identity` properties.
abbrev pub process_identity : ProcessRecord → ℕ × ℕ
process_identity r = (r.pid, r.start_time_ticks)

abbrev pub interface_identity : NetworkInterfaceRecord → String × Option ℕ
interface_identity r = (r.name, r.ifindex)

abbrev pub loop_identity : LoopDeviceRecord → String × (Option String × Option ℕ)
loop_identity r = (r.name, (r.backing_file, r.offset_bytes))

abbrev pub mapper_identity : DeviceMapperRecord → String × (Option String × (Option ℕ × Option ℕ))
mapper_identity r = (r.name, (r.uuid, (r.major, r.minor)))

abbrev pub container_identity : ContainerRecord → String
container_identity r = r.container_id

pub record HostEnvironmentSnapshot : Type 0 where
  pub observed_at : String
  pub qemu_processes : List ProcessRecord
  pub tun_tap_interfaces : List NetworkInterfaceRecord
  pub loop_devices : List LoopDeviceRecord
  pub device_mapper_entries : List DeviceMapperRecord
  pub containers : List ContainerRecord
  pub source_errors : List (String × String)

-- What each `_collect_...` returns, or the text of the exception that it raises.
pub record Collected : Type 0 where
  pub qemu_processes : Result String (List ProcessRecord)
  pub tun_tap_interfaces : Result String (List NetworkInterfaceRecord)
  pub loop_devices : Result String (List LoopDeviceRecord)
  pub device_mapper_entries : Result String (List DeviceMapperRecord)
  pub containers : Result String (List ContainerRecord)

module _ {ℓ} {A : Type ℓ} where
  -- `try: ... except Exception`: the records, and the error under the source's name.
  unfoldable pub records_of : Result String (List A) → List A
  records_of (ok records) = records
  records_of (err e) = []

  unfoldable pub note_error :
      String → Result String (List A) → List (String × String) → List (String × String)
  note_error source (ok records) errors = errors
  note_error source (err e) errors = errors ++ (source, e) ∷ []

-- `HostEnvironmentCollector.snapshot`
unfoldable pub snapshot : Collected → String → HostEnvironmentSnapshot
unfolding records_of note_error
snapshot c now = record {
  observed_at = now;
  qemu_processes = records_of c.qemu_processes;
  tun_tap_interfaces = records_of c.tun_tap_interfaces;
  loop_devices = records_of c.loop_devices;
  device_mapper_entries = records_of c.device_mapper_entries;
  containers = records_of c.containers;
  source_errors = note_error "containers" c.containers (
      note_error "device_mapper_entries" c.device_mapper_entries (
        note_error "loop_devices" c.loop_devices (
          note_error "tun_tap_interfaces" c.tun_tap_interfaces
            (note_error "qemu_processes" c.qemu_processes []))));
}

module _ {ℓ κ} {A : Type ℓ} {K : Type κ} ⦃e : Eq K⦄ (identity : A → K) where
  -- `identity in {record.identity for record in records}`
  unfoldable pub listed : K → List A → Bool
  listed k [] = false
  listed k (r ∷ rs) = identity r == k || listed k rs

  -- The records whose identity is not among those of `known`.
  unfoldable pub unlisted : List A → List A → List A
  unlisted known [] = []
  unlisted known (r ∷ rs) =
      let rest = unlisted known rs in if listed (identity r) known then rest else r ∷ rest

  -- `_added_records`
  unfoldable pub added_records : List A → List A → List A
  unfolding unlisted
  added_records before after = unlisted before after

  -- `_removed_records`
  unfoldable pub removed_records : List A → List A → List A
  unfolding unlisted
  removed_records before after = unlisted after before

pub data Status : Type 0 where
  residue_found probe_error partial_probe clean : Status

pub data Side : Type 0 where
  before after : Side

-- `metric` is a constant, and `reason` is the text that goes with the status.
pub record ResidueObservation : Type 0 where
  pub status : Status
  pub observed_at : String
  pub residue_detected : Bool
  pub added_qemu_processes : List ProcessRecord
  pub added_tun_tap_interfaces : List NetworkInterfaceRecord
  pub added_loop_devices : List LoopDeviceRecord
  pub added_device_mapper_entries : List DeviceMapperRecord
  pub added_containers : List ContainerRecord
  pub removed_qemu_processes : List ProcessRecord
  pub removed_tun_tap_interfaces : List NetworkInterfaceRecord
  pub removed_loop_devices : List LoopDeviceRecord
  pub removed_device_mapper_entries : List DeviceMapperRecord
  pub removed_containers : List ContainerRecord
  pub source_errors : List ((Side × String) × String)

-- The truth of a tuple.
abbrev pub nonempty {ℓ} : {A : Type ℓ} → List A → Bool
nonempty [] = false
nonempty (x ∷ xs) = true

-- The keys `before.<source>` and `after.<source>`.
unfoldable pub prefixed : Side → List (String × String) → List ((Side × String) × String)
prefixed side [] = []
prefixed side ((source, e) ∷ errors) = ((side, source), e) ∷ prefixed side errors

-- The number of sources among the keys, each counted once: `key.split(".", 1)[-1]` drops the side.
unfoldable pub failed_sources : List ((Side × String) × String) → ℕ
failed_sources [] = 0
failed_sources (((side, source), e) ∷ errors) =
    if any_of (λ r. r.0.1 == source) errors
    then failed_sources errors
    else suc (failed_sources errors)

unfoldable pub residue_status : Bool → List ((Side × String) × String) → Status
residue_status residue_detected source_errors =
    if residue_detected
    then residue_found
    else if leb (5 - failed_sources source_errors) 0
    then probe_error
    else if nonempty source_errors
    then partial_probe
    else clean

-- `evaluate_environment_residue`
unfoldable pub evaluate_environment_residue :
    HostEnvironmentSnapshot → HostEnvironmentSnapshot → String → ResidueObservation
evaluate_environment_residue b a now =
    let qemu = added_records process_identity b.qemu_processes a.qemu_processes in
    let interfaces = added_records interface_identity b.tun_tap_interfaces a.tun_tap_interfaces in
    let loops = added_records loop_identity b.loop_devices a.loop_devices in
    let mapper = added_records mapper_identity b.device_mapper_entries a.device_mapper_entries in
    let containers = added_records container_identity b.containers a.containers in
    let detected =
      nonempty qemu
      || nonempty interfaces
      || nonempty loops
      || nonempty mapper
      || nonempty containers in
    let errors = prefixed before b.source_errors ++ prefixed after a.source_errors in
    record {
      status = residue_status detected errors;
      observed_at = now;
      residue_detected = detected;
      added_qemu_processes = qemu;
      added_tun_tap_interfaces = interfaces;
      added_loop_devices = loops;
      added_device_mapper_entries = mapper;
      added_containers = containers;
      removed_qemu_processes = removed_records process_identity b.qemu_processes a.qemu_processes;
      removed_tun_tap_interfaces =
          removed_records interface_identity b.tun_tap_interfaces a.tun_tap_interfaces;
      removed_loop_devices = removed_records loop_identity b.loop_devices a.loop_devices;
      removed_device_mapper_entries =
          removed_records mapper_identity b.device_mapper_entries a.device_mapper_entries;
      removed_containers = removed_records container_identity b.containers a.containers;
      source_errors = errors;
    }
