-- ===== src/Probes/Unpack.antt =====
-- firmarbiter_core/probes/unpack_validation.py: the inventory of an exported root file system and
-- the verdict on it. What the calls on the file system return is given by path.
pub mod Judging
pub mod Inventory
pub mod Verdict
mod Examples
use Prim.Native.Nat.{Ordering}
use Prim.Native.String.{compare as compare_text, ◌++◌ as ◌+++◌}
use firm_arbiter.Prelude.{
  ℕ, zero, suc, ◌+◌, ◌-◌, String, Bool, true, false, not, ◌&&◌, ◌||◌, Option, none, some, List, [],
  ◌∷◌, ◌++◌, ltb, leb, if◌then◌else◌, ℕ-Eq, String-Eq, ◌==◌, pair-Eq, Option-Eq, length, take,
  any_of, Result, ◌>>=◌, ◌>>◌, raise_if, ok,
}

-- A call that may raise an `OSError` or another exception.
pub data Answer {ℓ} (A : Type ℓ) : Type ℓ where
  got : A → Answer A
  os_error : String → Answer A
  other_error : String → Answer A

pub data EntryType : Type 0 where
  directory regular_file symlink special : EntryType

pub record InventoryEntry : Type 0 where
  pub relative_path : String
  pub entry_type : EntryType
  pub mode : ℕ
  pub size_bytes : Option ℕ
  pub content_sha256 : Option String
  pub symlink_target : Option String

-- What `stat` and the calls that follow it find: the permission mode with, for a regular file, its
-- size and the blocks of its content, and for a link its target.
pub data Node : Type 0 where
  is_directory : ℕ → Node
  is_regular : ℕ → ℕ → Answer (List (List ℕ)) → Node
  is_symlink : ℕ → Answer String → Node
  is_special : ℕ → Node

pub record DirectoryEntry : Type 0 where
  pub name : String
  pub metadata : Answer Node

-- What the module takes from Python: the digest of bytes, and the canonical JSON of an entry.
pub record Hashing : Type 0 where
  pub sha256 : List ℕ → String
  pub document : InventoryEntry → List ℕ

-- The items of `errors`.
pub data Gap : Type 0 where
  at_path : String → String → Gap
  limit_reached : ℕ → Gap
  unexpected : String → Gap

pub record Walk : Type 0 where
  pub inventory : List InventoryEntry
  pub discovered_paths : List String
  pub errors : List Gap
  pub content_read_errors : List (String × String)
  pub regular_files : ℕ
  pub directories : ℕ
  pub symlinks : ℕ
  pub special_files : ℕ
  pub total_regular_bytes : ℕ
  pub elf_files : ℕ
  pub shebang_scripts : ℕ
  pub pending : List String

-- `prefix.startswith(...)`
unfoldable pub starts_with : List ℕ → List ℕ → Bool
starts_with bytes [] = true
starts_with [] (b ∷ bs) = false
starts_with (a ∷ bytes) (b ∷ bs) = let rest = starts_with bytes bs in if a == b then rest else false

-- The loop of `_read_regular_file`: the first four bytes, the size, and the bytes digested.
unfoldable pub read_file : List ℕ → ℕ → List ℕ → List (List ℕ) → List ℕ × ℕ × List ℕ
read_file prefix size digested [] = (prefix, size, digested)
read_file prefix size digested (block ∷ blocks) =
    read_file (if ltb (length prefix) 4 then prefix ++ take (4 - length prefix) block else prefix)
      (size + length block) (digested ++ block) blocks

abbrev pub entry :
    String → EntryType → ℕ → Option ℕ → Option String → Option String → InventoryEntry
entry path kind mode size hash target = record {
  relative_path = path;
  entry_type = kind;
  mode = mode;
  size_bytes = size;
  content_sha256 = hash;
  symlink_target = target;
}

abbrev pub add : Walk → InventoryEntry → Walk
add w e = record w { inventory = w.inventory ++ e ∷ [] }

abbrev pub note : Walk → String → String → Walk
note w path e = record w { errors = w.errors ++ at_path path e ∷ [] }

abbrev pub one_if : Bool → ℕ
one_if true = 1
one_if false = 0

module _ (py : Hashing) where
  -- The branch for a regular file, with its count already made.
  unfoldable pub visit_regular :
      Walk → String → ℕ → ℕ → Answer (List (List ℕ)) → Walk × Option String
  visit_regular w path mode st_size (got blocks) =
      let (prefix, size, digested) = read_file [] 0 [] blocks in
      (
        record (add w (entry path regular_file mode (some size) (some (py.sha256 digested)) none)) {
          total_regular_bytes = w.total_regular_bytes + size;
          elf_files = w.elf_files + one_if (starts_with prefix (127 ∷ 69 ∷ 76 ∷ 70 ∷ []));
          shebang_scripts = w.shebang_scripts + one_if (starts_with prefix (35 ∷ 33 ∷ []));
        },
        none,
      )
  visit_regular w path mode st_size (os_error e) = (
    record (add w (entry path regular_file mode (some st_size) none none)) {
      content_read_errors = w.content_read_errors ++ (path, e) ∷ [];
    },
    none,
  )
  visit_regular w path mode st_size (other_error e) = (w, some e)

  unfoldable pub visit_symlink : Walk → String → ℕ → Answer String → Walk × Option String
  visit_symlink w path mode (got target) =
      (add w (entry path symlink mode none none (some target)), none)
  visit_symlink w path mode (os_error e) =
      (add (note w path e) (entry path symlink mode none none none), none)
  visit_symlink w path mode (other_error e) = (w, some e)

  -- One directory entry, from its `stat` on; the second part is an exception that ends the walk.
  unfoldable pub visit : Walk → String → Answer Node → Walk × Option String
  unfolding visit_regular visit_symlink
  visit w path (os_error e) = (note w path e, none)
  visit w path (other_error e) = (w, some e)
  visit w path (got (is_directory mode)) = (
    record (add w (entry path directory mode none none none)) {
      directories = w.directories + 1;
      pending = path ∷ w.pending;
    },
    none,
  )
  visit w path (got (is_regular mode st_size content)) =
      visit_regular (record w { regular_files = w.regular_files + 1 }) path mode st_size content
  visit w path (got (is_symlink mode target)) =
      visit_symlink (record w { symlinks = w.symlinks + 1 }) path mode target
  visit w path (got (is_special mode)) = (
    record (add w (entry path special mode none none none)) { special_files = w.special_files + 1 },
    none,
  )

  -- The root is the empty path.
  abbrev pub child : String → String → String
  child dir name = if dir == "" then name else dir +++ "/" +++ name

  -- The loop over the entries of a directory.
  unfoldable pub visit_all : ℕ → Walk → String → List DirectoryEntry → Walk × Option String
  unfolding visit
  visit_all max_entries w dir [] = (w, none)
  visit_all max_entries w dir (e ∷ entries) = elim (leb max_entries (length w.inventory)) [
    | true ↦ (record w { errors = w.errors ++ limit_reached max_entries ∷ []; pending = [] }, none)
    | false ↦
        let path = child dir e.name in
        let (w', x) =
          visit (record w { discovered_paths = path ∷ w.discovered_paths }) path e.metadata in
        elim x [ some failure ↦ (w', some failure) | none ↦ visit_all max_entries w' dir entries ]
  ]

-- `sorted(..., key=...)`: a stable insertion.
module _ {ℓ} {A : Type ℓ} (key : A → String) where
  unfoldable pub insert_by : A → List A → List A
  insert_by x [] = x ∷ []
  insert_by x (y ∷ ys) =
      let rest = insert_by x ys in
      elim (compare_text (key x) (key y)) [ Ordering.gt ↦ y ∷ rest | _ ↦ x ∷ y ∷ ys ]

  unfoldable pub sorted_by : List A → List A
  unfolding insert_by
  sorted_by [] = []
  sorted_by (x ∷ xs) = insert_by x (sorted_by xs)

pub data WalkEnd : Type 0 where
  finished : Walk → WalkEnd
  raised : Walk → String → WalkEnd
  out_of_fuel : WalkEnd

-- The `while pending_directories`; the last directory in is the first out.
unfoldable pub walk : Hashing → (String → Answer (List DirectoryEntry)) → ℕ → ℕ → Walk → WalkEnd
unfolding visit_all sorted_by
walk py scandir max_entries zero w = out_of_fuel
walk py scandir max_entries (suc fuel) w = elim w.pending [
  | [] ↦ finished w
  | dir ∷ dirs ↦ elim (scandir dir) [
    | other_error e ↦ raised (record w { pending = dirs }) e
    | os_error e ↦ walk py scandir max_entries fuel (note (record w { pending = dirs }) dir e)
    | got entries ↦
        let (w', x) =
          visit_all py max_entries (record w { pending = dirs }) dir
            (sorted_by (λ d. d.name) entries) in
        elim x [ some e ↦ raised w' e | none ↦ walk py scandir max_entries fuel w' ]
  ]
]

-- The bytes of `_tree_digest`: the entries in the order of their paths, one line each.
unfoldable pub lines : Hashing → List InventoryEntry → List ℕ
lines py [] = []
lines py (e ∷ entries) = py.document e ++ 10 ∷ lines py entries

-- `_tree_digest`
unfoldable pub tree_digest : Hashing → List InventoryEntry → String
unfolding lines sorted_by
tree_digest py entries = py.sha256 (lines py (sorted_by (λ e. e.relative_path) entries))
