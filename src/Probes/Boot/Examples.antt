-- ===== src/Probes/Boot/Examples.antt =====
-- A boot validation at concrete inputs.
use firm_arbiter.Prelude.{
  ◌<◌, String, ◌≡◌, refl, ◌≢◌, ◌↔◌, ◌⊎◌, Bool, true, false, ◌||◌, none, some, List, [], ◌∷◌, ℕ-Eq,
  String-Eq, ◌==◌, pair-Eq, Option-Eq, count_of, ok,
}
use firm_arbiter.Json.{Fields, end, field, text, get, is_text, says}
use firm_arbiter.Probes.Boot.{
  Python, ConsoleFile, readable, insert, match_patterns, read_blocks, console_evidence,
  inspect_guest_console,
}
use firm_arbiter.Probes.Boot.Judging.{
  no_lifecycle, lifecycle_outcome, AuthenticityRecord, record_object, booted, BootObservation,
  is_authenticated, boot_methods, judge_boot, validate_boot_evidence,
  linux_kernel_and_userspace_console, independent_evidence,
}
use firm_arbiter.Probes.Boot.Verdict.{booted_exact}

-- Two patterns are found in every text.
abbrev pub found_in : String → String → Bool
found_in pattern s = pattern == "\\bKernel command line:" || pattern == "\\bStarting init:"

abbrev pub python : Python
python = record { search = found_in; decode = λ bytes. "console"; sha256 = λ bytes. "digest" }

abbrev pub console : ConsoleFile
console = readable 3 ((1 ∷ 2 ∷ []) ∷ (3 ∷ []) ∷ [])

abbrev pub claim : List Fields
claim = field "event" (text "candidate_boot_reported") end ∷ []

abbrev pub observed : Bool → BootObservation
observed claimed = record {
  status = booted;
  observed_at = "now";
  methods = linux_kernel_and_userspace_console ∷ [];
  candidate_boot_claim_present = claimed;
  authenticated_service_count = 0;
  lifecycle_outcome = none;
  console = console_evidence python "guest-console.log" console 33554432;
  reason = independent_evidence;
}

boot_without_claim :
    validate_boot_evidence python "guest-console.log" console true [] no_lifecycle [] none "now"
    ≡ ok (observed false)
unfolding validate_boot_evidence inspect_guest_console judge_boot boot_methods console_evidence
    match_patterns insert read_blocks lifecycle_outcome
boot_without_claim = refl

boot_with_claim :
    validate_boot_evidence python "guest-console.log" console true claim no_lifecycle [] none "now"
    ≡ ok (observed true)
unfolding validate_boot_evidence inspect_guest_console judge_boot boot_methods console_evidence
    match_patterns insert read_blocks lifecycle_outcome says get is_text
boot_with_claim = refl

booted_exact_example :
    let o = observed false in
    (o.status ≡ booted) ↔ (
      (true ≡ true)
      × (o.console.errors ≡ [])
      × (((o.console.kernel_markers ≢ []) × (o.console.userspace_markers ≢ []))
          ⊎ (0 < count_of is_authenticated [])))
booted_exact_example =
    booted_exact python "guest-console.log" console true no_lifecycle [] none "now" []
      (observed false) boot_without_claim

abbrev records : List AuthenticityRecord
records = record_object (some (text "true")) ∷ record_object none ∷ []
