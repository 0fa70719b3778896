-- ===== src/Probes/Boot/Judging.antt =====
-- `validate_boot_evidence` of firmarbiter_core/probes/boot_validation.py: the verdict on a boot.
use firm_arbiter.Prelude.{
  ℕ, ◌*◌, String, Bool, true, false, not, ◌&&◌, ◌||◌, Option, none, some, List, [], ◌∷◌, ◌++◌, ltb,
  if◌then◌else◌, ℕ-Eq, String-Eq, ◌==◌, pair-Eq, Option-Eq, any_of, count_of, Result, ◌>>=◌, ok,
}
use firm_arbiter.Json.{Json, Fields, text, object, get, says}
use firm_arbiter.Probes.Boot.{
  GuestConsoleEvidence, BootValidationError, Python, ConsoleFile, inspect_guest_console,
}

-- A lifecycle record: none, a dictionary, or an object with this attribute `run_outcome`.
pub data Lifecycle : Type 0 where
  no_lifecycle : Lifecycle
  lifecycle_document : Fields → Lifecycle
  lifecycle_object : Option Json → Lifecycle

-- `value if isinstance(value, str) else None`
abbrev pub as_text : Option Json → Option String
as_text (some (text t)) = some t
as_text _ = none

-- `_lifecycle_outcome`
unfoldable pub lifecycle_outcome : Lifecycle → Option String
lifecycle_outcome no_lifecycle = none
lifecycle_outcome (lifecycle_document d) = as_text (get d "run_outcome")
lifecycle_outcome (lifecycle_object value) = as_text value

-- An authenticity record: a dictionary, or an object whose `independent_measurement` has this
-- attribute `status`, if both are there.
pub data AuthenticityRecord : Type 0 where
  record_document : Fields → AuthenticityRecord
  record_object : Option Json → AuthenticityRecord

-- `_authenticity_status`
unfoldable pub authenticity_status : AuthenticityRecord → Option String
authenticity_status (record_document d) = elim (get d "independent_measurement") [
  | some (object measurement) ↦ as_text (get measurement "status")
  | _ ↦ none
]
authenticity_status (record_object status) = as_text status

pub data BootStatus : Type 0 where
  boot_not_attempted boot_probe_error booted not_booted boot_inconclusive : BootStatus

pub data BootMethod : Type 0 where
  guest_console linux_kernel_and_userspace_console authenticated_firmware_service : BootMethod
  guest_console_failure lifecycle_observation : BootMethod

-- The texts of `reason`.
pub data BootReason : Type 0 where
  given : String → BootReason
  not_requested console_not_inspected independent_evidence explicit_failure : BootReason
  ended_without_evidence insufficient_truncated claim_only insufficient_console : BootReason
  nothing_available : BootReason

-- `metric` is a constant.
pub record BootObservation : Type 0 where
  pub status : BootStatus
  pub observed_at : String
  pub methods : List BootMethod
  pub candidate_boot_claim_present : Bool
  pub authenticated_service_count : ℕ
  pub lifecycle_outcome : Option String
  pub console : GuestConsoleEvidence
  pub reason : BootReason

abbrev pub is_authenticated : AuthenticityRecord → Bool
is_authenticated r = elim (authenticity_status r) [ none ↦ false | some s ↦ s == "true" ]

abbrev pub is_boot_claim : Fields → Bool
is_boot_claim event = says event "event" "candidate_boot_reported"

abbrev pub is_nonempty {ℓ} : {A : Type ℓ} → List A → Bool
is_nonempty [] = false
is_nonempty (x ∷ xs) = true

-- `not_attempted_reason or "..."`
abbrev pub reason_or : Option String → BootReason
reason_or none = not_requested
reason_or (some s) = if s == "" then not_requested else given s

-- `methods`
unfoldable pub boot_methods : GuestConsoleEvidence → ℕ → List BootMethod
boot_methods console count =
    (if is_nonempty console.kernel_markers && is_nonempty console.userspace_markers
      then linux_kernel_and_userspace_console ∷ []
      else [])
    ++ (if ltb 0 count then authenticated_firmware_service ∷ [] else [])

abbrev pub ended_early : Option String → Bool
ended_early none = false
ended_early (some outcome) = outcome == "experiment_timeout" || outcome == "unexpected_early_exit"

unfoldable pub inconclusive_reason : GuestConsoleEvidence → Bool → BootReason
inconclusive_reason console candidate_claim =
    if console.truncated
    then insufficient_truncated
    else if candidate_claim
    then claim_only
    else if console.exists
    then insufficient_console
    else nothing_available

-- The status, the methods, the count and the reason of `validate_boot_evidence`, from what it has
-- gathered.
unfoldable pub judge_boot :
    GuestConsoleEvidence
    → Bool
    → Bool
    → ℕ
    → Option String
    → Option String
    → String
    → BootObservation
unfolding boot_methods inconclusive_reason
judge_boot console requested candidate_claim count outcome not_attempted_reason now =
    let observation : BootStatus → List BootMethod → ℕ → BootReason → BootObservation =
      λ status methods n reason. record {
        status = status;
        observed_at = now;
        methods = methods;
        candidate_boot_claim_present = candidate_claim;
        authenticated_service_count = n;
        lifecycle_outcome = outcome;
        console = console;
        reason = reason;
      } in
    if not requested
    then observation boot_not_attempted [] count (reason_or not_attempted_reason)
    else if is_nonempty console.errors
    then observation boot_probe_error (guest_console ∷ []) count console_not_inspected
    else if is_nonempty (boot_methods console count)
    then observation booted (boot_methods console count) count independent_evidence
    else if is_nonempty console.failure_markers
    then observation not_booted (guest_console_failure ∷ []) 0 explicit_failure
    else if ended_early outcome
    then observation not_booted (lifecycle_observation ∷ []) 0 ended_without_evidence
    else observation boot_inconclusive [] 0 (inconclusive_reason console candidate_claim)

-- `validate_boot_evidence`
unfoldable pub validate_boot_evidence :
    Python
    → String
    → ConsoleFile
    → Bool
    → List Fields
    → Lifecycle
    → List AuthenticityRecord
    → Option String
    → String
    → Result BootValidationError BootObservation
unfolding judge_boot
validate_boot_evidence py path file requested events lifecycle records reason now = do
  console ← inspect_guest_console py path file (32 * 1024 * 1024)
  ok (
      judge_boot console requested (any_of is_boot_claim events) (count_of is_authenticated records)
        (lifecycle_outcome lifecycle) reason now)
