-- ===== src/Probes/Unpack/Judging.antt =====
-- The anchor groups, the verdict and `validate_unpack_export` of
-- firmarbiter_core/probes/unpack_validation.py.
use firm_arbiter.Prelude.{
  ℕ, ◌+◌, String, Bool, true, false, not, ◌&&◌, ◌||◌, Option, none, some, List, [], ◌∷◌, ltb, leb,
  if◌then◌else◌, ℕ-Eq, String-Eq, ◌==◌, pair-Eq, Option-Eq, length, any_of, Result, ◌>>◌, raise_if,
  ok,
}
use firm_arbiter.Probes.Boot.{insert}
use firm_arbiter.Probes.Unpack.{
  Answer, DirectoryEntry, Hashing, Gap, unexpected, Walk, WalkEnd, finished, raised, out_of_fuel,
  walk, tree_digest,
}

pub data UnpackValidationError : Type 0 where
  anchors_not_positive entries_not_positive : UnpackValidationError

abbrev pub anchor_groups : List (String × List String)
anchor_groups =
    ("initialisation", "init" ∷ "bin/init" ∷ "sbin/init" ∷ "etc/inittab" ∷ "etc/init.d" ∷ [])
    ∷ ("shell", "bin/sh" ∷ "bin/ash" ∷ "bin/bash" ∷ "bin/busybox" ∷ [])
    ∷ ("configuration", "etc/passwd" ∷ "etc/group" ∷ "etc/os-release" ∷ [])
    ∷ ("libraries", "lib" ∷ "lib64" ∷ "usr/lib" ∷ [])
    ∷ ("executable_tree", "bin" ∷ "sbin" ∷ "usr/bin" ∷ "usr/sbin" ∷ [])
    ∷ []

-- `candidates.intersection(paths)`
abbrev pub meets : List String → List String → Bool
meets paths = any_of (λ c. any_of (λ p. p == c) paths)

-- `_detect_anchor_groups`, over the rest of the groups.
unfoldable pub detect_anchor_groups : List String → List (String × List String) → List String
detect_anchor_groups paths [] = []
detect_anchor_groups paths ((name, candidates) ∷ groups) =
    let rest = detect_anchor_groups paths groups in
    if meets paths candidates then insert name rest else rest

pub data UnpackStatus : Type 0 where
  unpack_not_attempted unpacked not_unpacked unpack_probe_error unpack_inconclusive : UnpackStatus

-- `metric` is a constant, and `reason` a text that says which of the conditions failed.
pub record UnpackObservation : Type 0 where
  pub status : UnpackStatus
  pub observed_at : String
  pub entry_count : ℕ
  pub regular_files : ℕ
  pub directories : ℕ
  pub symlinks : ℕ
  pub special_files : ℕ
  pub total_regular_bytes : ℕ
  pub elf_files : ℕ
  pub shebang_scripts : ℕ
  pub anchor_groups_detected : List String
  pub required_anchor_groups : ℕ
  pub tree_sha256 : Option String
  pub inventory_complete : Bool
  pub errors : List Gap
  pub content_read_errors : List (String × String)

abbrev pub no_gaps : List Gap → Bool
no_gaps [] = true
no_gaps (g ∷ gaps) = false

-- What an observation takes from a walk.
abbrev pub observed :
    UnpackStatus
    → String
    → ℕ
    → Walk
    → List String
    → Option String
    → Bool
    → List Gap
    → UnpackObservation
observed status now required w groups digest complete errors = record {
  status = status;
  observed_at = now;
  entry_count = length w.inventory;
  regular_files = w.regular_files;
  directories = w.directories;
  symlinks = w.symlinks;
  special_files = w.special_files;
  total_regular_bytes = w.total_regular_bytes;
  elf_files = w.elf_files;
  shebang_scripts = w.shebang_scripts;
  anchor_groups_detected = groups;
  required_anchor_groups = required;
  tree_sha256 = digest;
  inventory_complete = complete;
  errors = errors;
  content_read_errors = w.content_read_errors;
}

abbrev pub start_walk : List String → Walk
start_walk pending = record {
  inventory = [];
  discovered_paths = [];
  errors = [];
  content_read_errors = [];
  regular_files = 0;
  directories = 0;
  symlinks = 0;
  special_files = 0;
  total_regular_bytes = 0;
  elf_files = 0;
  shebang_scripts = 0;
  pending = pending;
}

-- The verdict on a finished walk.
unfoldable pub judge_walk : Hashing → String → ℕ → Walk → UnpackObservation
judge_walk py now required w =
    let groups = detect_anchor_groups w.discovered_paths anchor_groups in
    let sufficient = leb required (length groups) in
    let executable = ltb 0 w.elf_files || ltb 0 w.shebang_scripts in
    let digest : String = elim w.inventory [
      | [] ↦ py.sha256 []
      | _ ∷ _ ↦ tree_digest py w.inventory
    ] in
    observed
      (if not (no_gaps w.errors)
        then unpack_inconclusive
        else if ltb 0 w.regular_files && executable && sufficient
        then unpacked
        else not_unpacked)
      now required w groups (some digest) (no_gaps w.errors) w.errors

unfoldable pub end_walk : Hashing → String → ℕ → WalkEnd → Option UnpackObservation
unfolding judge_walk
end_walk py now required (finished w) = some (judge_walk py now required w)
end_walk py now required (raised w e) =
    some (observed unpack_probe_error now required w [] none false (unexpected e ∷ []))
end_walk py now required out_of_fuel = none

-- What is at the place of the export.
pub data Export : Type 0 where
  nothing no_directory tree : Export

-- `validate_unpack_export`. Each round of the walk takes one directory off the pending ones, and a
-- directory other than the root is in the inventory, which the limit bounds. `none` is never
-- returned with this fuel.
unfoldable pub validate_unpack_export :
    Hashing
    → (String → Answer (List DirectoryEntry))
    → Export
    → Bool
    → ℕ
    → ℕ
    → String
    → Result UnpackValidationError (Option UnpackObservation)
unfolding walk end_walk
validate_unpack_export py scandir export requested required max_entries now = do
  raise_if (ltb required 1) anchors_not_positive
  raise_if (ltb max_entries 1) entries_not_positive
  ok (
      if not requested
      then some (observed unpack_not_attempted now required (start_walk []) [] none false [])
      else elim export [
        | nothing ↦ some (observed not_unpacked now required (start_walk []) [] none true [])
        | no_directory ↦ some (observed not_unpacked now required (start_walk []) [] none true [])
        | tree ↦
            end_walk py now required
              (walk py scandir max_entries (max_entries + 2) (start_walk ("" ∷ [])))
      ])
