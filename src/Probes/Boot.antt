-- ===== src/Probes/Boot.antt =====
-- firmarbiter_core/probes/boot_validation.py: the inspection of the guest console. The verdict on
-- whether the firmware booted is in Judging.
pub mod Judging
pub mod Markers
pub mod Verdict
pub mod Examples
use Prim.Native.Nat.{Ordering}
use Prim.Native.String.{compare as compare_text}
use firm_arbiter.Prelude.{
  ℕ, ◌-◌, ◌*◌, ◌/◌, String, Bool, true, false, not, ◌&&◌, ◌||◌, Option, none, some, List, [], ◌∷◌,
  ◌++◌, ltb, if◌then◌else◌, ℕ-Eq, String-Eq, ◌==◌, pair-Eq, Option-Eq, length, take, any_of,
  count_of, Result, ◌>>=◌, ◌>>◌, ok, err,
}
use firm_arbiter.Json.{Json, Fields, text, object, get, says}

pub record GuestConsoleEvidence : Type 0 where
  pub path : String
  pub exists : Bool
  pub size_bytes : Option ℕ
  pub sha256 : Option String
  pub bytes_examined : ℕ
  pub truncated : Bool
  pub kernel_markers : List String
  pub userspace_markers : List String
  pub failure_markers : List String
  pub errors : List String

pub data BootValidationError : Type 0 where
  limit_not_positive : BootValidationError

-- What the module takes from Python: whether a pattern, with `re.IGNORECASE`, matches somewhere in a
-- text; decoding with `errors="replace"`; and the SHA-256 digest.
pub record Python : Type 0 where
  pub search : String → String → Bool
  pub decode : List ℕ → String
  pub sha256 : List ℕ → String

-- The name and the regular expression of each marker.
abbrev pub kernel_patterns : List (String × String)
kernel_patterns =
    ("linux_version", "\\bLinux version\\s+\\S+")
    ∷ ("booting_linux_cpu", "Booting Linux on physical CPU")
    ∷ ("kernel_command_line", "\\bKernel command line:")
    ∷ ("freeing_kernel_memory", "Freeing unused kernel (?:image )?memory")
    ∷ []

abbrev pub userspace_patterns : List (String × String)
userspace_patterns =
    ("run_init", "Run /(?:sbin/)?init as init process")
    ∷ ("starting_init", "\\bStarting init:")
    ∷ ("busybox_init", "init started:\\s*BusyBox")
    ∷ ("login_prompt", "(?:^|\\s)[A-Za-z0-9._-]+\\s+login:\\s*$")
    ∷ ("system_welcome", "^\\s*Welcome to\\s+")
    ∷ []

abbrev pub failure_patterns : List (String × String)
failure_patterns =
    ("kernel_panic", "Kernel panic\\s*-\\s*not syncing")
    ∷ ("rootfs_mount_failure", "VFS:\\s*Unable to mount root fs")
    ∷ ("no_working_init", "No working init found")
    ∷ ("init_execution_failure", "Failed to execute\\s+/(?:sbin/)?init")
    ∷ ("init_killed", "Attempted to kill init")
    ∷ []

-- The place of a name in a sorted tuple without repetition.
unfoldable pub insert : String → List String → List String
insert name [] = name ∷ []
insert name (n ∷ names) =
    let rest = insert name names in
    elim (compare_text name n) [
      | Ordering.lt ↦ name ∷ n ∷ names
      | Ordering.eq ↦ n ∷ names
      | Ordering.gt ↦ n ∷ rest
    ]

-- `_match_patterns`
unfoldable pub match_patterns : Python → String → List (String × String) → List String
match_patterns py s [] = []
match_patterns py s ((name, pattern) ∷ patterns) =
    let rest = match_patterns py s patterns in
    if py.search pattern s then insert name rest else rest

-- What is found at the console's path: nothing, no regular file, an `OSError` behind some blocks, or
-- a file with its size and the blocks that are read from it.
pub data ConsoleFile : Type 0 where
  missing irregular : ConsoleFile
  unreadable : String → List (List ℕ) → ConsoleFile
  readable : ℕ → List (List ℕ) → ConsoleFile

-- The loop over the blocks: the bytes examined and the bytes digested.
unfoldable pub read_blocks : ℕ → List ℕ → List ℕ → List (List ℕ) → List ℕ × List ℕ
read_blocks limit examined digested [] = (examined, digested)
read_blocks limit examined digested (block ∷ blocks) =
    let remaining = limit - length examined in
    read_blocks limit (if ltb 0 remaining then examined ++ take remaining block else examined)
      (digested ++ block) blocks

abbrev pub no_markers : String → Bool → ℕ → List String → GuestConsoleEvidence
no_markers path exists examined errors = record {
  path = path;
  exists = exists;
  size_bytes = none;
  sha256 = none;
  bytes_examined = examined;
  truncated = false;
  kernel_markers = [];
  userspace_markers = [];
  failure_markers = [];
  errors = errors;
}

unfoldable pub console_evidence : Python → String → ConsoleFile → ℕ → GuestConsoleEvidence
console_evidence py path missing limit = no_markers path false 0 []
console_evidence py path irregular limit =
    no_markers path true 0 ("Guest console export is not a regular file" ∷ [])
console_evidence py path (unreadable e blocks) limit =
    no_markers path true (length (read_blocks limit [] [] blocks).0) (e ∷ [])
console_evidence py path (readable size blocks) limit =
    let (examined, digested) = read_blocks limit [] [] blocks in
    let s = py.decode examined in
    record {
      path = path;
      exists = true;
      size_bytes = some size;
      sha256 = some (py.sha256 digested);
      bytes_examined = length examined;
      truncated = ltb limit size;
      kernel_markers = match_patterns py s kernel_patterns;
      userspace_markers = match_patterns py s userspace_patterns;
      failure_markers = match_patterns py s failure_patterns;
      errors = [];
    }

-- `inspect_guest_console`
unfoldable pub inspect_guest_console :
    Python → String → ConsoleFile → ℕ → Result BootValidationError GuestConsoleEvidence
inspect_guest_console py path file limit =
    if ltb limit 1 then err limit_not_positive else ok (console_evidence py path file limit)
