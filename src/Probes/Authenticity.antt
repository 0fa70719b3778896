-- ===== src/Probes/Authenticity.antt =====
-- firmarbiter_core/probes/service_authenticity.py: whether an HTTP response can be attributed to the
-- candidate's firmware, from a snapshot while it ran and one after its shutdown.
pub mod Evidence
use firm_arbiter.Prelude.{
  String, Bool, true, false, not, ◌&&◌, Option, none, some, List, [], ◌∷◌, if◌then◌else◌, ◌==◌,
  ℕ-Eq, String-Eq, pair-Eq, Option-Eq, any_of,
}
use firm_arbiter.Json.{Json, text}

-- The part of an `HttpServiceSnapshot` that the evaluation looks at.
pub record HttpServiceSnapshot : Type 0 where
  pub status : String
  pub body_sha256 : Option String
  pub body_truncated : Option Bool

pub data AuthenticityStatus : Type 0 where
  not_applicable not_attempted probe_error attributed not_attributed inconclusive :
      AuthenticityStatus

pub data Method : Type 0 where
  content_and_lifecycle content_match_and_disappearance : Method

-- `metric` is a constant, and `reason` is the text that goes with the status.
pub record AuthenticityObservation : Type 0 where
  pub status : AuthenticityStatus
  pub observed_at : String
  pub method : Method
  pub trusted_content_match : Option Bool
  pub endpoint_disappeared_after_shutdown : Option Bool
  pub matched_sha256 : Option String

-- `lower` is `str.lower`.
module _ (lower : String → String) where
  -- The set of the lower-case trusted hashes; a value that is no text is left out.
  unfoldable pub trusted_hashes : List Json → List String
  trusted_hashes [] = []
  trusted_hashes (text value ∷ values) = lower value ∷ trusted_hashes values
  trusted_hashes (_ ∷ values) = trusted_hashes values

  -- `trusted_match`
  unfoldable pub trusted_match : HttpServiceSnapshot → List Json → Bool
  unfolding trusted_hashes
  trusted_match active trusted = elim active.body_sha256 [
    | none ↦ false
    | some active_hash ↦
        elim active.body_truncated [ some true ↦ false | _ ↦ true ]
        && any_of (λ h. h == lower active_hash) (trusted_hashes trusted)
  ]

  abbrev pub unmeasured : AuthenticityStatus → String → AuthenticityObservation
  unmeasured status now = record {
    status = status;
    observed_at = now;
    method = content_and_lifecycle;
    trusted_content_match = none;
    endpoint_disappeared_after_shutdown = none;
    matched_sha256 = none;
  }

  -- `evaluate_http_authenticity`
  unfoldable pub evaluate_http_authenticity :
      HttpServiceSnapshot → HttpServiceSnapshot → List Json → String → AuthenticityObservation
  unfolding trusted_match
  evaluate_http_authenticity active post_shutdown trusted now =
      let matched = trusted_match active trusted in
      if active.status == "not_applicable"
      then unmeasured not_applicable now
      else if not (active.status == "captured")
      then unmeasured not_attempted now
      else if post_shutdown.status == "probe_error"
      then unmeasured probe_error now
      else if post_shutdown.status == "captured"
      then record {
        status = not_attributed;
        observed_at = now;
        method = content_and_lifecycle;
        trusted_content_match = some matched;
        endpoint_disappeared_after_shutdown = some false;
        matched_sha256 = if matched then active.body_sha256 else none;
      }
      else if post_shutdown.status == "unreachable"
      then (if matched
          then record {
            status = attributed;
            observed_at = now;
            method = content_match_and_disappearance;
            trusted_content_match = some true;
            endpoint_disappeared_after_shutdown = some true;
            matched_sha256 = active.body_sha256;
          }
          else record {
            status = inconclusive;
            observed_at = now;
            method = content_and_lifecycle;
            trusted_content_match = some false;
            endpoint_disappeared_after_shutdown = some true;
            matched_sha256 = none;
          })
      else unmeasured probe_error now
