-- ===== src/Residue/Records.antt =====
-- The records of an observation by `evaluate_environment_residue` of environment_residue.py.
use firm_arbiter.Prelude.{
  String, ◌≡◌, refl, sym, ap, ◌≢◌, ◌↔◌, ◌⊎◌, inl, inr, Bool, true, false, ◌||◌, List, [], ◌∷◌,
  arith, Bool-cases, Eq, ℕ-Eq, String-Eq, pair-Eq, Option-Eq,
}
use mathlib.Core.Path.{subst}
use firm_arbiter.Residue.Evaluation.{residue_status_exact}
use firm_arbiter.Residue.{
  ProcessRecord, NetworkInterfaceRecord, LoopDeviceRecord, DeviceMapperRecord, ContainerRecord,
  process_identity, interface_identity, loop_identity, mapper_identity, container_identity,
  HostEnvironmentSnapshot, listed, unlisted, added_records, removed_records, nonempty,
  residue_found, evaluate_environment_residue,
}

abbrev pub Occurs : {A : Type 0} → A → List A → Type 0
Occurs r [] = ⊥
Occurs r (q ∷ rs) = (r ≡ q) ⊎ Occurs r rs

module _ {A K : Type 0} ⦃e : Eq K⦄ (identity : A → K) where
  -- No record of the list has the identity.
  abbrev pub Absent : K → List A → Type 0
  Absent k rs = (q : A) → Occurs q rs → identity q ≢ k

  listed-Absent : (k : K) (rs : List A) → (listed identity k rs ≡ false) ↔ Absent k rs
  unfolding listed
  listed-Absent k [] = (λ h q o. absurd o, λ h. refl)
  listed-Absent k (r ∷ rs) =
      let ih = listed-Absent k rs in
      (
        λ h q o. elim o [
          | inl same ↦
              λ same_k. absurd (ground (arith, same_k, e.agrees (identity r) k, ap identity same))
          | inr later ↦ ih.0 (ground arith) q later
        ],
        λ absent.
            let rest = ih.1 (λ q o. absent q (inr o)) in
            let other = absent r (inl refl) in ground (arith, e.agrees (identity r) k),
      )

  unlisted_exact :
      (known rs : List A) (r : A)
      → Occurs r (unlisted identity known rs) ↔ (Occurs r rs × Absent (identity r) known)
  unfolding unlisted
  unlisted_exact known [] r = (λ o. absurd o, λ p. absurd p.0)
  unlisted_exact known (x ∷ rs) r =
      let ih = unlisted_exact known rs r in
      elim (Bool-cases (listed identity (identity x) known)) [
        | inl old ↦ rw old (
          λ o. let (there, absent) = ih.0 o in (inr there, absent),
          λ p. elim p.0 [
            | inl same ↦ absurd (
                let fresh =
                  (listed-Absent (identity x) known).1
                    (subst (λ y. Absent (identity y) known) same p.1) in
                ground arith)
            | inr there ↦ ih.1 (there, p.1)
          ],
        )
        | inr new ↦ rw new (
          λ o. elim o [
            | inl same ↦ (
              inl same,
              subst (λ y. Absent (identity y) known) (sym same)
                  ((listed-Absent (identity x) known).0 new),
            )
            | inr rest ↦ let (there, absent) = ih.0 rest in (inr there, absent)
          ],
          λ p. elim p.0 [ inl same ↦ inl same | inr there ↦ inr (ih.1 (there, p.1)) ],
        )
      ]

  -- The added records are those after whose identity no record before has, and the removed ones
  -- those before whose identity no record after has.
  abbrev pub AreExact : List A → List A → List A → List A → Type 0
  AreExact before after added removed =
      (r : A)
      → (Occurs r added ↔ (Occurs r after × Absent (identity r) before))
        × (Occurs r removed ↔ (Occurs r before × Absent (identity r) after))

  records_exact :
      (before after : List A)
      → AreExact before after
          (added_records identity before after)
          (removed_records identity before after)
  unfolding added_records removed_records
  records_exact before after r = (unlisted_exact before after r, unlisted_exact after before r)

nonempty-Occurs : {A : Type 0} (l : List A) → (nonempty l ≡ true) ↔ ((r : A) × Occurs r l)
nonempty-Occurs [] = (λ h. absurd (ground arith), λ p. absurd p.1)
nonempty-Occurs (x ∷ l) = (λ h. (x, inl refl), λ p. refl)

any_of_five :
    {P Q R S T : Type 0} (a b c d e : Bool)
    → (a ≡ true) ↔ P
    → (b ≡ true) ↔ Q
    → (c ≡ true) ↔ R
    → (d ≡ true) ↔ S
    → (e ≡ true) ↔ T
    → ((a || b || c || d || e) ≡ true) ↔ (P ⊎ Q ⊎ R ⊎ S ⊎ T)
any_of_five a b c d e p q r s t = ground arith

-- For each of the five sources, a record is reported as added exactly if it was seen after the run
-- and no record seen before has its identity, and as removed exactly if it was seen before and no
-- record seen after has its identity. Residue is reported exactly if a record of some source is.
pub evaluate_environment_residue_exact :
    (b a : HostEnvironmentSnapshot) (now : String)
    → let o = evaluate_environment_residue b a now in
      AreExact process_identity b.qemu_processes a.qemu_processes o.added_qemu_processes
        o.removed_qemu_processes
      × AreExact interface_identity b.tun_tap_interfaces a.tun_tap_interfaces
          o.added_tun_tap_interfaces o.removed_tun_tap_interfaces
      × AreExact loop_identity b.loop_devices a.loop_devices o.added_loop_devices
          o.removed_loop_devices
      × AreExact mapper_identity b.device_mapper_entries a.device_mapper_entries
          o.added_device_mapper_entries o.removed_device_mapper_entries
      × AreExact container_identity b.containers a.containers o.added_containers
          o.removed_containers
      × ((o.status ≡ residue_found) ↔ (
          ((r : ProcessRecord) × Occurs r o.added_qemu_processes)
          ⊎ ((r : NetworkInterfaceRecord) × Occurs r o.added_tun_tap_interfaces)
          ⊎ ((r : LoopDeviceRecord) × Occurs r o.added_loop_devices)
          ⊎ ((r : DeviceMapperRecord) × Occurs r o.added_device_mapper_entries)
          ⊎ ((r : ContainerRecord) × Occurs r o.added_containers)))
unfolding evaluate_environment_residue
evaluate_environment_residue_exact b a now =
    let found =
      any_of_five _ _ _ _ _
        (nonempty-Occurs (added_records process_identity b.qemu_processes a.qemu_processes))
        (nonempty-Occurs
          (added_records interface_identity b.tun_tap_interfaces a.tun_tap_interfaces))
        (nonempty-Occurs (added_records loop_identity b.loop_devices a.loop_devices))
        (nonempty-Occurs
          (added_records mapper_identity b.device_mapper_entries a.device_mapper_entries))
        (nonempty-Occurs (added_records container_identity b.containers a.containers)) in
    (
      records_exact process_identity b.qemu_processes a.qemu_processes,
      records_exact interface_identity b.tun_tap_interfaces a.tun_tap_interfaces,
      records_exact loop_identity b.loop_devices a.loop_devices,
      records_exact mapper_identity b.device_mapper_entries a.device_mapper_entries,
      records_exact container_identity b.containers a.containers,
      (
        λ h. found.0 ((residue_status_exact _ _).0.0 h),
        λ p. (residue_status_exact _ _).0.1 (found.1 p),
      ),
    )
