-- ===== src/Probes/Unpack/Inventory.antt =====
-- The walk ends, counts what it lists, and keeps to its limit.
use firm_arbiter.Prelude.{
  ℕ, zero, suc, ◌+◌, ◌≤◌, ◌<◌, String, ◌≡◌, refl, ap, ◌≢◌, inl, inr, Bool, true, false, Option,
  none, some, List, [], ◌∷◌, ◌++◌, arith, leb, Bool-cases, Option-cases, ℕ-Eq, String-Eq, pair-Eq,
  Option-Eq, length, length-append,
}
use mathlib.Core.Path.{subst}
use firm_arbiter.Probes.Unpack.{
  Answer, got, os_error, other_error, Node, is_directory, is_regular, is_symlink, is_special,
  DirectoryEntry, Hashing, starts_with, one_if, read_file, entry, directory, regular_file, symlink,
  special, InventoryEntry, limit_reached, Walk, visit_regular, visit_symlink, visit, child,
  visit_all, sorted_by, walk, note, WalkEnd, finished, out_of_fuel,
}

-- The counters add up to the inventory, which is within the limit, and no directory is missing from
-- it.
pub record IsCounted (max_entries : ℕ) (w : Walk) : Type 0 where
  pub total : length w.inventory ≡ w.regular_files + w.directories + w.symlinks + w.special_files
  pub within : length w.inventory ≤ max_entries
  pub elf : w.elf_files ≤ w.regular_files
  pub shebang : w.shebang_scripts ≤ w.regular_files

-- What a part of the walk does to the counters: directories are added as they become pending.
record Progress (max_entries : ℕ) (w w' : Walk) : Type 0 where
  counted : IsCounted max_entries w'
  pushed : length w'.pending + w.directories ≤ length w.pending + w'.directories

one_if-le : (b : Bool) → one_if b ≤ 1
one_if-le true = omega arith
one_if-le false = omega arith

length-add :
    (w : Walk) (e : InventoryEntry) → length (w.inventory ++ e ∷ []) ≡ length w.inventory + 1
length-add w e = length-append w.inventory (e ∷ [])

module _ (py : Hashing) (max_entries : ℕ) where
  arrive :
      {w : Walk} (x w' : Walk)
      → ◌≡◌ {A = Walk × Option String} (x, none) (w', none)
      → Progress max_entries w x
      → Progress max_entries w w'
  arrive {w = w} x w' e p =
      subst (Progress max_entries w) (ap (λ (q : Walk × Option String). q.0) e) p

  visit-Progress :
      (w w' : Walk) (path : String) (metadata : Answer Node)
      → IsCounted max_entries w
      → length w.inventory < max_entries
      → visit py w path metadata ≡ (w', none)
      → Progress max_entries w w'
  unfolding visit visit_regular visit_symlink
  visit-Progress w w' path (os_error e) h room v = arrive _ w' v (ground (arith, h, length-add w))
  visit-Progress w w' path (other_error e) h room v = absurd (ground arith)
  visit-Progress w w' path (got (is_directory mode)) h room v =
      arrive _ w' v (ground (arith, h, length-add w (entry path directory mode none none none)))
  visit-Progress w w' path (got (is_regular mode st_size (got blocks))) h room v = arrive _ w' v (
      ground (
        arith,
        h,
        length-add w (
            entry path regular_file mode (some (read_file [] 0 [] blocks).1)
              (some (py.sha256 (read_file [] 0 [] blocks).2)) none),
        one_if-le (starts_with (read_file [] 0 [] blocks).0 (127 ∷ 69 ∷ 76 ∷ 70 ∷ [])),
        one_if-le (starts_with (read_file [] 0 [] blocks).0 (35 ∷ 33 ∷ [])),
      ))
  visit-Progress w w' path (got (is_regular mode st_size (os_error e))) h room v =
      arrive _ w' v
        (ground (arith, h, length-add w (entry path regular_file mode (some st_size) none none)))
  visit-Progress w w' path (got (is_regular mode st_size (other_error e))) h room v =
      absurd (ground arith)
  visit-Progress w w' path (got (is_symlink mode (got target))) h room v =
      arrive _ w' v
        (ground (arith, h, length-add w (entry path symlink mode none none (some target))))
  visit-Progress w w' path (got (is_symlink mode (os_error e))) h room v =
      arrive _ w' v (ground (arith, h, length-add w (entry path symlink mode none none none)))
  visit-Progress w w' path (got (is_symlink mode (other_error e))) h room v = absurd (ground arith)
  visit-Progress w w' path (got (is_special mode)) h room v =
      arrive _ w' v (ground (arith, h, length-add w (entry path special mode none none none)))

  visit_all-Progress :
      (w w' : Walk) (dir : String) (entries : List DirectoryEntry)
      → IsCounted max_entries w
      → visit_all py max_entries w dir entries ≡ (w', none)
      → Progress max_entries w w'
  unfolding visit_all
  visit_all-Progress w w' dir [] h v = arrive _ w' v (record { counted = h; pushed = omega arith })
  visit_all-Progress w w' dir (e ∷ entries) h v =
      elim (Bool-cases (leb max_entries (length w.inventory))) [
        | inl full ↦
            let same : record w {
              errors = w.errors ++ limit_reached max_entries ∷ [];
              pending = [];
            }
                ≡ w' =
              ground arith in
            subst (Progress max_entries w) same (ground (arith, h))
        | inr room ↦
            let path = child py dir e.name in
            let w₁ : Walk = record w { discovered_paths = path ∷ w.discovered_paths } in
            elim (Option-cases (visit py w₁ path e.metadata).1) [
              | inr (failure, bad) ↦ absurd (ground arith)
              | inl fine ↦
                  let w₂ = (visit py w₁ path e.metadata).0 in
                  let one : Progress max_entries w₁ w₂ =
                    visit-Progress w₁ w₂ path e.metadata (ground (arith, h)) (ground arith)
                      (ground arith) in
                  let rest = visit_all-Progress w₂ w' dir entries one.counted (ground arith) in
                  record { counted = rest.counted; pushed = omega (arith, one.pushed, rest.pushed) }
            ]
      ]

-- A walk that ends so has not run out of fuel, and has kept the count if it is finished.
abbrev pub EndsWell : ℕ → WalkEnd → Type 0
EndsWell max_entries end =
    (end ≢ out_of_fuel) × ((w : Walk) → end ≡ finished w → IsCounted max_entries w)

module _ (py : Hashing) (scandir : String → Answer (List DirectoryEntry)) (max_entries : ℕ) where
  -- The fuel covers the pending directories and the places that are left for directories.
  pub walk-EndsWell :
      (fuel : ℕ) (w : Walk)
      → IsCounted max_entries w
      → length w.pending + max_entries < fuel + w.directories
      → EndsWell max_entries (walk py scandir max_entries fuel w)
  unfolding walk
  walk-EndsWell zero w h enough = absurd (omega (arith, h.total, h.within))
  walk-EndsWell (suc fuel) w h enough = by_pending (walk-EndsWell fuel) w.pending refl
    where
      by_scan :
          ((v : Walk)
            → IsCounted max_entries v
            → length v.pending + max_entries < fuel + v.directories
            → EndsWell max_entries (walk py scandir max_entries fuel v))
          → (dir : String) (dirs : List String) → w.pending ≡ dir ∷ dirs
          → (answer : Answer (List DirectoryEntry)) → scandir dir ≡ answer
          → EndsWell max_entries (walk py scandir max_entries (suc fuel) w)
      by_scan ih dir dirs e (other_error x) a =
          (λ bad. absurd (ground arith), λ v bad. absurd (ground arith))
      by_scan ih dir dirs e (os_error x) a =
          let v = note (record w { pending = dirs }) dir x in
          let same : walk py scandir max_entries fuel v ≡ walk py scandir max_entries (suc fuel) w =
            ground arith in
          subst (EndsWell max_entries) same
            (ih v (ground (arith, h)) (omega (arith, enough, ap length e)))
      by_scan ih dir dirs e (got entries) a =
          let v : Walk = record w { pending = dirs } in
          let listed = sorted_by (λ (d : DirectoryEntry). d.name) entries in
          elim (Option-cases (visit_all py max_entries v dir listed).1) [
            | inr (x, bad) ↦ (λ end. absurd (ground arith), λ u end. absurd (ground arith))
            | inl fine ↦
                let u = (visit_all py max_entries v dir listed).0 in
                let step : Progress max_entries v u =
                  visit_all-Progress py max_entries v u dir listed (ground (arith, h))
                    (ground arith) in
                let same : walk py scandir max_entries fuel u
                    ≡ walk py scandir max_entries (suc fuel) w =
                  ground arith in
                subst (EndsWell max_entries) same
                  (ih u step.counted (omega (arith, enough, ap length e, step.pushed)))
          ]

      by_pending :
          ((v : Walk)
            → IsCounted max_entries v
            → length v.pending + max_entries < fuel + v.directories
            → EndsWell max_entries (walk py scandir max_entries fuel v))
          → (dirs : List String) → w.pending ≡ dirs
          → EndsWell max_entries (walk py scandir max_entries (suc fuel) w)
      by_pending ih [] e =
          let same : finished w ≡ walk py scandir max_entries (suc fuel) w = ground arith in
          subst (EndsWell max_entries) same (
            λ bad. ground arith,
            λ v f. let equal : w ≡ v = ground arith in subst (IsCounted max_entries) equal h,
          )
      by_pending ih (dir ∷ dirs) e = by_scan ih dir dirs e (scandir dir) refl
