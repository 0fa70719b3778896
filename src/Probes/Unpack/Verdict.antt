-- ===== src/Probes/Unpack/Verdict.antt =====
-- What the verdict on an exported root file system says of its inventory.
use mathlib.Core.Path.{subst}
use firm_arbiter.Prelude.{
  ℕ, ◌+◌, ◌≤◌, ◌<◌, String, ◌≡◌, refl, ◌≢◌, ◌↔◌, ◌⊎◌, inl, inr, Bool, true, false, none, some, List,
  [], ◌∷◌, arith, Option-cases, ℕ-Eq, String-Eq, pair-Eq, Option-Eq, length, ok,
}
use firm_arbiter.Probes.Unpack.{
  Answer, DirectoryEntry, Hashing, Gap, Walk, WalkEnd, finished, raised, out_of_fuel, walk,
}
use firm_arbiter.Probes.Unpack.Inventory.{IsCounted, EndsWell, walk-EndsWell}
use firm_arbiter.Probes.Unpack.Judging.{
  unpacked, unpack_probe_error, unpack_not_attempted, not_unpacked, UnpackObservation, no_gaps,
  observed, start_walk, judge_walk, end_walk, Export, nothing, no_directory, tree,
  validate_unpack_export,
}

no_gaps_iff : (gaps : List Gap) → (no_gaps gaps ≡ true) ↔ (gaps ≡ [])
no_gaps_iff [] = (λ h. refl, λ h. refl)
no_gaps_iff (g ∷ gaps) = (λ h. absurd (ground arith), λ h. absurd (ground arith))

start_walk-IsCounted :
    (max_entries : ℕ) (pending : List String) → IsCounted max_entries (start_walk pending)
start_walk-IsCounted max_entries pending = record {
  total = omega arith;
  within = omega arith;
  elf = omega arith;
  shebang = omega arith;
}

-- What an observation says: when it confirms the export, and that its counters add up.
pub record IsSound (required max_entries : ℕ) (o : UnpackObservation) : Type 0 where
  pub confirmed : (o.status ≡ unpacked) ↔ (
      (o.errors ≡ [])
      × (0 < o.regular_files)
      × ((0 < o.elf_files) ⊎ (0 < o.shebang_scripts))
      × (required ≤ length o.anchor_groups_detected))
  pub total :
      o.status ≢ unpack_probe_error
      → (o.entry_count ≡ o.regular_files + o.directories + o.symlinks + o.special_files)
  pub within :
      o.status ≢ unpack_probe_error
      → (o.entry_count ≤ max_entries)
        × (o.elf_files ≤ o.regular_files)
        × (o.shebang_scripts ≤ o.regular_files)

module _ (py : Hashing) (now : String) (required max_entries : ℕ) where
  judge_walk-IsSound :
      (w : Walk)
      → IsCounted max_entries w
      → IsSound required max_entries (judge_walk py now required w)
  unfolding judge_walk
  judge_walk-IsSound w h = ground (arith, h, no_gaps_iff w.errors)

  end_walk-IsSound :
      (end : WalkEnd) (o : UnpackObservation)
      → EndsWell max_entries end
      → end_walk py now required end ≡ some o
      → IsSound required max_entries o
  unfolding end_walk
  end_walk-IsSound (finished w) o (_, counted) h =
      let same : judge_walk py now required w ≡ o = ground arith in
      subst (IsSound required max_entries) same (judge_walk-IsSound w (counted w refl))
  end_walk-IsSound (raised w e) o ends h = ground arith
  end_walk-IsSound out_of_fuel o ends h = absurd (ground arith)

  end_walk_answers :
      (end : WalkEnd) → EndsWell max_entries end → end_walk py now required end ≢ none
  unfolding end_walk
  end_walk_answers (finished w) ends h = ground arith
  end_walk_answers (raised w e) ends h = ground arith
  end_walk_answers out_of_fuel (fuelled, _) h = fuelled refl

  module _ (scandir : String → Answer (List DirectoryEntry)) where
    export-EndsWell :
        EndsWell max_entries (walk py scandir max_entries (max_entries + 2) (start_walk ("" ∷ [])))
    export-EndsWell =
        walk-EndsWell py scandir max_entries (max_entries + 2) (start_walk ("" ∷ []))
          (start_walk-IsCounted max_entries ("" ∷ [])) (omega arith)

    -- Every observation of the validation is sound: it confirms the export exactly if there is no
    -- gap, a regular file, an ELF file or a script, and the required number of anchor groups; and
    -- unless the probe failed its entries are the files, directories, links and special files that
    -- it counts, within the limit.
    pub validate_unpack_export-IsSound :
        (export : Export) (requested : Bool) (o : UnpackObservation)
        → validate_unpack_export py scandir export requested required max_entries now ≡ ok (some o)
        → IsSound required max_entries o
    unfolding validate_unpack_export
    validate_unpack_export-IsSound export false o h = ground arith
    validate_unpack_export-IsSound nothing true o h = ground arith
    validate_unpack_export-IsSound no_directory true o h = ground arith
    validate_unpack_export-IsSound tree true o h =
        end_walk-IsSound _ o export-EndsWell (ground arith)

    -- With positive limits the validation always returns an observation: whatever the directories
    -- hold, and even if they have no end, the walk does not run out of its fuel.
    pub validate_unpack_export_answers :
        (export : Export) (requested : Bool)
        → 0 < required
        → 0 < max_entries
        → (o : UnpackObservation) × (validate_unpack_export py scandir export requested required
              max_entries now
            ≡ ok (some o))
    unfolding validate_unpack_export
    validate_unpack_export_answers export requested r m =
        elim (Option-cases (
          end_walk py now required
            (walk py scandir max_entries (max_entries + 2) (start_walk ("" ∷ []))))) [
              | inl none_made ↦ absurd (end_walk_answers _ export-EndsWell none_made)
              | inr (made, e) ↦ by_export export requested made e
            ]
      where
        by_export :
            (x : Export) (asked : Bool) (made : UnpackObservation)
            → end_walk py now required
                (walk py scandir max_entries (max_entries + 2) (start_walk ("" ∷ [])))
              ≡ some made
            → (o : UnpackObservation) × (validate_unpack_export py scandir x asked required
                  max_entries now
                ≡ ok (some o))
        by_export x false made e = (
          observed unpack_not_attempted now required (start_walk []) [] none false [],
          ground (arith, r, m),
        )
        by_export nothing true made e = (
          observed not_unpacked now required (start_walk []) [] none true [],
          ground (arith, r, m),
        )
        by_export no_directory true made e = (
          observed not_unpacked now required (start_walk []) [] none true [],
          ground (arith, r, m),
        )
        by_export tree true made e = (made, ground (arith, r, m))
