-- ===== src/Probes/Unpack/Examples.antt =====
-- The validation of a small root file system.
use firm_arbiter.Prelude.{
  String, ◌≡◌, refl, true, some, List, [], ◌∷◌, arith, if◌then◌else◌, ℕ-Eq, String-Eq, ◌==◌,
  pair-Eq, Option-Eq, ok,
}
use firm_arbiter.Probes.Boot.{insert}
use firm_arbiter.Probes.Unpack.{
  Answer, got, os_error, is_directory, is_regular, DirectoryEntry, Hashing, starts_with, read_file,
  visit_regular, visit, visit_all, insert_by, sorted_by, walk, lines, tree_digest,
}
use firm_arbiter.Probes.Unpack.Judging.{
  detect_anchor_groups, unpacked, UnpackObservation, judge_walk, end_walk, tree,
  validate_unpack_export,
}
use firm_arbiter.Probes.Unpack.Verdict.{
  IsSound, validate_unpack_export-IsSound, validate_unpack_export_answers,
}

abbrev hashing : Hashing
hashing = record { sha256 = λ bytes. "digest"; document = λ e. [] }

-- `/bin/sh`, an ELF file.
abbrev scandir : String → Answer (List DirectoryEntry)
scandir path =
    if path == ""
    then got (record { name = "bin"; metadata = got (is_directory 493) } ∷ [])
    else if path == "bin"
    then got (
        record {
          name = "sh";
          metadata = got (is_regular 493 5 (got ((127 ∷ 69 ∷ 76 ∷ 70 ∷ 1 ∷ []) ∷ [])));
        }
        ∷ [])
    else os_error "missing"

abbrev two_entries : UnpackObservation
two_entries = record {
  status = unpacked;
  observed_at = "now";
  entry_count = 2;
  regular_files = 1;
  directories = 1;
  symlinks = 0;
  special_files = 0;
  total_regular_bytes = 5;
  elf_files = 1;
  shebang_scripts = 0;
  anchor_groups_detected = "executable_tree" ∷ "shell" ∷ [];
  required_anchor_groups = 2;
  tree_sha256 = some "digest";
  inventory_complete = true;
  errors = [];
  content_read_errors = [];
}

small_tree : validate_unpack_export hashing scandir tree true 2 3 "now" ≡ ok (some two_entries)
unfolding validate_unpack_export walk visit_all visit visit_regular sorted_by insert_by end_walk
    judge_walk detect_anchor_groups insert tree_digest lines read_file starts_with
small_tree = refl

validate_unpack_export-IsSound_example : IsSound 2 3 two_entries
validate_unpack_export-IsSound_example =
    validate_unpack_export-IsSound hashing "now" 2 3 scandir tree true two_entries small_tree

validate_unpack_export_answers_example :
    (o : UnpackObservation) × (validate_unpack_export hashing scandir tree true 1 1 "now"
      ≡ ok (some o))
validate_unpack_export_answers_example =
    validate_unpack_export_answers hashing "now" 1 1 scandir tree true (omega arith) (omega arith)
