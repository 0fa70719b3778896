-- ===== src/Probes/Boot/Verdict.antt =====
-- On what evidence the verdict on a boot rests.
use firm_arbiter.Prelude.{
  ℕ, ◌<◌, String, ◌≡◌, refl, ◌≢◌, ◌↔◌, ◌⊎◌, Bool, true, false, Option, List, [], ◌∷◌, arith, ℕ-Eq,
  String-Eq, pair-Eq, Option-Eq, any_of, count_of, ok,
}
use firm_arbiter.Json.{Fields}
use firm_arbiter.Probes.Boot.{
  GuestConsoleEvidence, Python, ConsoleFile, console_evidence, inspect_guest_console,
}
use firm_arbiter.Probes.Boot.Judging.{
  Lifecycle, lifecycle_outcome, AuthenticityRecord, booted, BootObservation, is_authenticated,
  is_boot_claim, is_nonempty, boot_methods, judge_boot, validate_boot_evidence,
}

not-nonempty {ℓ} : {A : Type ℓ} (l : List A) → (is_nonempty l ≡ true) ↔ (l ≢ [])
not-nonempty [] = (λ h. absurd (ground arith), λ h. absurd (h refl))
not-nonempty (x ∷ l) = (λ h e. ground arith, λ h. refl)

nil_or_not {ℓ} : {A : Type ℓ} (l : List A) → (is_nonempty l ≡ false) ↔ (l ≡ [])
nil_or_not [] = (λ h. refl, λ h. refl)
nil_or_not (x ∷ l) = (λ h. absurd (ground arith), λ h. absurd (cc))

boot_methods-nonempty :
    (console : GuestConsoleEvidence) (count : ℕ)
    → (is_nonempty (boot_methods console count) ≡ true)
      ↔ (((console.kernel_markers ≢ []) × (console.userspace_markers ≢ [])) ⊎ (0 < count))
unfolding boot_methods
boot_methods-nonempty console count =
    let k = not-nonempty console.kernel_markers in
    let u = not-nonempty console.userspace_markers in (ground (arith, k, u), ground (arith, k, u))

judge_boot-booted :
    (console : GuestConsoleEvidence) (requested claim : Bool) (count : ℕ)
    (outcome reason : Option String) (now : String)
    → let o = judge_boot console requested claim count outcome reason now in
      (o.status ≡ booted) ↔ (
        (requested ≡ true)
        × (o.console.errors ≡ [])
        × (((o.console.kernel_markers ≢ []) × (o.console.userspace_markers ≢ [])) ⊎ (0 < count)))
unfolding judge_boot
judge_boot-booted console requested claim count outcome reason now =
    let m = boot_methods-nonempty console count in
    let e = not-nonempty console.errors in
    let d = nil_or_not console.errors in (ground (arith, m, e, d), ground (arith, m, e, d))

module _ (py : Python) (path : String) (file : ConsoleFile) (requested : Bool)
    (lifecycle : Lifecycle) (records : List AuthenticityRecord) (reason : Option String)
    (now : String) where
  -- The validation never raises, since its limit is positive, and it answers for the evidence that
  -- the console gives and for the number of services whose authenticity is "true", on every branch.
  pub validate_boot_evidence_answers :
      (events : List Fields)
      → (o : BootObservation) × (validate_boot_evidence py path file requested events lifecycle
            records reason now
          ≡ ok o)
        × (o.console ≡ console_evidence py path file 33554432)
        × (o.authenticated_service_count ≡ count_of is_authenticated records)
        × (o.candidate_boot_claim_present ≡ any_of is_boot_claim events)
        × (o.lifecycle_outcome ≡ lifecycle_outcome lifecycle)
  unfolding validate_boot_evidence inspect_guest_console boot_methods
  validate_boot_evidence_answers events =
      (_, refl, ground arith, ground arith, ground arith, ground arith)

  -- A boot is confirmed exactly if one was requested, the console was inspected without an error,
  -- and there is guest-level evidence: kernel and userspace markers, or an authenticated service.
  pub booted_exact :
      (events : List Fields) (o : BootObservation)
      → validate_boot_evidence py path file requested events lifecycle records reason now ≡ ok o
      → (o.status ≡ booted) ↔ (
          (requested ≡ true)
          × (o.console.errors ≡ [])
          × (((o.console.kernel_markers ≢ []) × (o.console.userspace_markers ≢ []))
              ⊎ (0 < count_of is_authenticated records)))
  unfolding validate_boot_evidence inspect_guest_console
  booted_exact events o h =
      let same : judge_boot (console_evidence py path file 33554432) requested
            (any_of is_boot_claim events) (count_of is_authenticated records)
            (lifecycle_outcome lifecycle) reason now
          ≡ o =
        ground arith in
      rw (← same) (judge_boot-booted _ requested _ _ _ reason now)

  -- What the candidate claims changes neither the status nor the methods nor the count.
  claim_ignored :
      (events claimed : List Fields) (o p : BootObservation)
      → validate_boot_evidence py path file requested events lifecycle records reason now ≡ ok o
      → validate_boot_evidence py path file requested claimed lifecycle records reason now ≡ ok p
      → (o.status ≡ p.status)
        × (o.methods ≡ p.methods)
        × (o.authenticated_service_count ≡ p.authenticated_service_count)
  unfolding validate_boot_evidence inspect_guest_console
  claim_ignored events claimed o p h g = ground arith
