-- ===== src/Docker/Capabilities.antt =====
-- firmarbiter_core/runtime_requirements.py: which requirements the backend supports, and that this
-- agrees with what `_requirement_arguments` accepts.
use firm_arbiter.Prelude.{
  String, ◌≡◌, refl, ◌↔◌, inl, inr, Bool, true, false, List, [], ◌∷◌, arith, if◌then◌else◌,
  Bool-cases, ℕ-Eq, String-Eq, ◌==◌, pair-Eq, Option-Eq, any_of, Result, ◌>>=◌, ok, err,
}
use firm_arbiter.Docker.{Trace, unsupported_requirement, Host}
use firm_arbiter.Docker.Requirements.{require_device, requirement_argument}

pub data CapabilityStatus : Type 0 where
  supported experimental unsupported : CapabilityStatus

pub data RequirementError : Type 0 where
  key_error : String → RequirementError

-- `DOCKER_BACKEND_CAPABILITIES`, without the notes.
abbrev pub capabilities : List (String × CapabilityStatus)
capabilities =
    ("kvm", supported)
    ∷ ("loop-devices", supported)
    ∷ ("device-mapper", supported)
    ∷ ("tun-tap", supported)
    ∷ ("net-admin", supported)
    ∷ ("ptrace", supported)
    ∷ ("docker-socket", supported)
    ∷ ("full-privileged", supported)
    ∷ ("nested-containers", experimental)
    ∷ ("loop-device-partitions", supported)
    ∷ []

unfoldable pub status_in :
    String → List (String × CapabilityStatus) → Result RequirementError CapabilityStatus
status_in requirement [] = err (key_error requirement)
status_in requirement ((name, status) ∷ rest) =
    let found = status_in requirement rest in if requirement == name then ok status else found

-- `status_for`
abbrev pub status_for : String → Result RequirementError CapabilityStatus
status_for requirement = status_in requirement capabilities

abbrev pub is_unsupported : CapabilityStatus → Bool
is_unsupported unsupported = true
is_unsupported _ = false

abbrev pub is_experimental : CapabilityStatus → Bool
is_experimental experimental = true
is_experimental _ = false

-- `[r for r in requirements if status_for(r).status is ...]`
unfoldable pub with_status :
    (CapabilityStatus → Bool) → List String → Result RequirementError (List String)
with_status p [] = ok []
with_status p (r ∷ rs) = do
  status ← status_for r
  rest ← with_status p rs
  ok (if p status then r ∷ rest else rest)

unfoldable pub unsupported_requirements : List String → Result RequirementError (List String)
unfolding with_status
unsupported_requirements = with_status is_unsupported

unfoldable pub experimental_requirements : List String → Result RequirementError (List String)
unfolding with_status
experimental_requirements = with_status is_experimental

status_in-err :
    (r : String) (table : List (String × CapabilityStatus))
    → (status_in r table ≡ err (key_error r)) ↔ (any_of (λ c. r == c.0) table ≡ false)
unfolding status_in
status_in-err r [] = (λ _. refl, λ _. refl)
status_in-err r ((name, status) ∷ table) = ground (arith, status_in-err r table)

module _ (h : Host) (t : Trace) (b : Bool) (r : String) where
  refused_unknown :
      requirement_argument h t b r ≡ err (unsupported_requirement r)
      → any_of (λ c. r == c.0) capabilities ≡ false
  unfolding requirement_argument require_device
  refused_unknown e = elim (Bool-cases (r == "kvm")) [
    | inl same ↦ absurd (ground arith)
    | inr other0 ↦ elim (Bool-cases (r == "tun-tap")) [
      | inl same ↦ absurd (ground arith)
      | inr other1 ↦ elim (Bool-cases (r == "device-mapper")) [
        | inl same ↦ absurd (ground arith)
        | inr other2 ↦ elim (Bool-cases (r == "net-admin")) [
          | inl same ↦ absurd (ground arith)
          | inr other3 ↦ elim (Bool-cases (r == "ptrace")) [
            | inl same ↦ absurd (ground arith)
            | inr other4 ↦ elim (Bool-cases (r == "full-privileged")) [
              | inl same ↦ absurd (ground arith)
              | inr other5 ↦ elim (Bool-cases (r == "loop-devices")) [
                | inl same ↦ absurd (ground arith)
                | inr other6 ↦ elim (Bool-cases (r == "loop-device-partitions")) [
                  | inl same ↦ absurd (ground arith)
                  | inr other7 ↦ elim (Bool-cases (r == "docker-socket")) [
                    | inl same ↦ absurd (ground arith)
                    | inr other8 ↦ elim (Bool-cases (r == "nested-containers")) [
                      | inl same ↦ absurd (ground arith)
                      | inr other9 ↦ ground arith
                    ]
                  ]
                ]
              ]
            ]
          ]
        ]
      ]
    ]
  ]

  unknown_refused :
      any_of (λ c. r == c.0) capabilities ≡ false
      → requirement_argument h t b r ≡ err (unsupported_requirement r)
  unfolding requirement_argument
  unknown_refused e = ground arith

  -- The registry lacks a requirement exactly if the backend refuses it as unsupported.
  pub status_for_exact :
      (status_for r ≡ err (key_error r))
      ↔ (requirement_argument h t b r ≡ err (unsupported_requirement r))
  status_for_exact =
      let known = status_in-err r capabilities in
      (λ e. unknown_refused (known.0 e), λ e. known.1 (refused_unknown e))
