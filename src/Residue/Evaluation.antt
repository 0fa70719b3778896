-- ===== src/Residue/Evaluation.antt =====
-- What the status of a residue observation means for the two snapshots, and for the collectors.
use firm_arbiter.Prelude.{
  ◌≤◌, ◌<◌, String, ◌≡◌, refl, ap, ◌≢◌, ◌↔◌, Bool, true, false, ◌||◌, List, [], ◌∷◌, ◌++◌, arith,
  Eq, ℕ-Eq, String-Eq, pair-Eq, Option-Eq, Result, ok, err,
}
use firm_arbiter.Residue.{
  unlisted, records_of, ContainerRecord, process_identity, interface_identity, loop_identity,
  mapper_identity, container_identity, HostEnvironmentSnapshot, Collected, note_error, snapshot,
  listed, added_records, residue_found, probe_error, partial_probe, clean, Side, before, after,
  nonempty, prefixed, failed_sources, residue_status, evaluate_environment_residue,
}
use firm_arbiter.Residue.Difference.{listed-difference}

-- Everything listed after was listed before.
abbrev pub Within {ℓ κ} : {A : Type ℓ} {K : Type κ} ⦃e : Eq K⦄ → (A → K) → List A → List A → Type κ
Within {K = K} identity b a = (k : K) → listed identity k a ≡ true → listed identity k b ≡ true

not-nonempty {ℓ} : {A : Type ℓ} (l : List A) → nonempty l ≡ false → l ≡ []
not-nonempty [] h = refl
not-nonempty (x ∷ l) h = cc

module _ {ℓ κ} {A : Type ℓ} {K : Type κ} ⦃e : Eq K⦄ (identity : A → K) where
  added_none : (b a : List A) → nonempty (added_records identity b a) ≡ false → Within identity b a
  unfolding listed
  added_none b a h k there =
      let none_added : listed identity k (added_records identity b a) ≡ false =
        rw (not-nonempty (added_records identity b a) h) in
      ground (arith, listed-difference identity b a k)

pub residue_status_exact :
    (found : Bool) (errors : List ((Side × String) × String))
    → ((residue_status found errors ≡ residue_found) ↔ (found ≡ true))
      × ((residue_status found errors ≡ probe_error)
          ↔ ((found ≡ false) × (5 ≤ failed_sources errors)))
      × ((residue_status found errors ≡ partial_probe)
          ↔ ((found ≡ false) × (failed_sources errors < 5) × (errors ≢ [])))
      × ((residue_status found errors ≡ clean) ↔ ((found ≡ false) × (errors ≡ [])))
unfolding residue_status failed_sources
residue_status_exact found [] = ground arith
residue_status_exact found (e ∷ errors) = ground arith

-- The status is decided by whether something was added and by the sources that failed before or
-- after, each counted once: residue exactly if something was added; else a probe error exactly if
-- five sources failed, partial exactly if fewer but some did, and clean exactly if none did.
pub status_exact :
    (b a : HostEnvironmentSnapshot) (now : String)
    → let o = evaluate_environment_residue b a now in
      ((o.status ≡ residue_found) ↔ (o.residue_detected ≡ true))
      × ((o.status ≡ probe_error)
          ↔ ((o.residue_detected ≡ false) × (5 ≤ failed_sources o.source_errors)))
      × ((o.status ≡ partial_probe) ↔ (
          (o.residue_detected ≡ false)
          × (failed_sources o.source_errors < 5)
          × (o.source_errors ≢ [])))
      × ((o.status ≡ clean) ↔ ((o.residue_detected ≡ false) × (o.source_errors ≡ [])))
unfolding evaluate_environment_residue
status_exact b a now = residue_status_exact _ _

abbrev pub is_ok {ℓ} : {A : Type ℓ} → Result String A → Bool
is_ok (ok x) = true
is_ok (err e) = false

-- Every source was measured.
abbrev pub Measured : Collected → Type 0
Measured c =
    (is_ok c.qemu_processes ≡ true)
    × (is_ok c.tun_tap_interfaces ≡ true)
    × (is_ok c.loop_devices ≡ true)
    × (is_ok c.device_mapper_entries ≡ true)
    × (is_ok c.containers ≡ true)

append_nil_parts {ℓ} : {A : Type ℓ} (xs ys : List A) → xs ++ ys ≡ [] → (xs ≡ []) × (ys ≡ [])
append_nil_parts [] ys h = (refl, h)
append_nil_parts (x ∷ xs) ys h = cc

prefixed-nil :
    (side : Side) (errors : List (String × String)) → prefixed side errors ≡ [] → errors ≡ []
unfolding prefixed
prefixed-nil side [] h = refl
prefixed-nil side ((s, e) ∷ errors) h = cc

note_error-nil {ℓ} :
    {A : Type ℓ} (source : String) (r : Result String (List A)) (errors : List (String × String))
    → note_error source r errors ≡ []
    → (is_ok r ≡ true) × (errors ≡ [])
unfolding note_error
note_error-nil source (ok x) errors h = (refl, h)
note_error-nil source (err e) errors h =
    absurd (let (_, bad) = append_nil_parts errors ((source, e) ∷ []) h in cc)

snapshot-Measured :
    (c : Collected) (now : String) → (snapshot c now).source_errors ≡ [] → Measured c
unfolding snapshot
snapshot-Measured c now h =
    let (containers, h₁) = note_error-nil _ c.containers _ h in
    let (mapper, h₂) = note_error-nil _ c.device_mapper_entries _ h₁ in
    let (loops, h₃) = note_error-nil _ c.loop_devices _ h₂ in
    let (interfaces, h₄) = note_error-nil _ c.tun_tap_interfaces _ h₃ in
    let (qemu, _) = note_error-nil _ c.qemu_processes [] h₄ in
    (qemu, interfaces, loops, mapper, containers)

five_false :
    (a b c d e : Bool)
    → (a || b || c || d || e) ≡ false
    → (a ≡ false) × (b ≡ false) × (c ≡ false) × (d ≡ false) × (e ≡ false)
five_false a b c d e h = ground arith

-- A run is reported as clean only if all five sources were measured before and after, and every
-- process, interface, loop device, mapper entry and container that was seen after the run had been
-- seen, by its identity, before it.
pub clean_means :
    (c d : Collected) (t u now : String)
    → (evaluate_environment_residue (snapshot c t) (snapshot d u) now).status ≡ clean
    → Measured c
      × Measured d
      × Within process_identity (snapshot c t).qemu_processes (snapshot d u).qemu_processes
      × Within interface_identity
          (snapshot c t).tun_tap_interfaces
          (snapshot d u).tun_tap_interfaces
      × Within loop_identity (snapshot c t).loop_devices (snapshot d u).loop_devices
      × Within mapper_identity
          (snapshot c t).device_mapper_entries
          (snapshot d u).device_mapper_entries
      × Within container_identity (snapshot c t).containers (snapshot d u).containers
unfolding evaluate_environment_residue
clean_means c d t u now h =
    let b = snapshot c t in
    let a = snapshot d u in
    let (none_found, no_errors) = (residue_status_exact _ _).3.0 h in
    let (eb, ea) = append_nil_parts (prefixed before b.source_errors) _ no_errors in
    let (q, i, l, m, k) = five_false _ _ _ _ _ none_found in
    (
      snapshot-Measured c t (prefixed-nil before b.source_errors eb),
      snapshot-Measured d u (prefixed-nil after a.source_errors ea),
      added_none process_identity b.qemu_processes a.qemu_processes q,
      added_none interface_identity b.tun_tap_interfaces a.tun_tap_interfaces i,
      added_none loop_identity b.loop_devices a.loop_devices l,
      added_none mapper_identity b.device_mapper_entries a.device_mapper_entries m,
      added_none container_identity b.containers a.containers k,
    )

unlisted_nil {ℓ κ} :
    {A : Type ℓ} {K : Type κ} ⦃e : Eq K⦄ (identity : A → K) (rs : List A)
    → unlisted identity [] rs ≡ rs
unfolding unlisted listed
unlisted_nil identity [] = refl
unlisted_nil identity (r ∷ rs) = ap (λ l. r ∷ l) (unlisted_nil identity rs)

-- If the containers could not be measured before the run, then every container that is measured
-- after it counts as added, whenever it was created, and with one such container residue is reported.
pub failed_before_added :
    (c d : Collected) (t u now e : String) (r : ContainerRecord) (rs : List ContainerRecord)
    → c.containers ≡ err e
    → d.containers ≡ ok (r ∷ rs)
    → let o = evaluate_environment_residue (snapshot c t) (snapshot d u) now in
      (o.added_containers ≡ r ∷ rs) × (o.status ≡ residue_found)
unfolding evaluate_environment_residue snapshot records_of added_records residue_status
failed_before_added c d t u now e r rs failed there =
    let all : unlisted container_identity [] (r ∷ rs) ≡ r ∷ rs =
      unlisted_nil container_identity (r ∷ rs) in
    (ground (arith, all), ground (arith, all))
