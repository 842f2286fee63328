-- ===== src/Protocol/Verification.antt =====
-- protocol/verification.go, lines 11 to 95, 501 to 524 and 545 to 565: the subject of a
-- verification, and references.
pub mod Live
pub mod Record
pub mod Policy
pub mod Projection
pub mod Replay
pub mod Once
mod Samples
use mission_control_edge.Common.{
  ℕ, Bool, true, false, ◌&&◌, ◌||◌, not, Option, none, some, List, [], ◌∷◌, eqb, is_empty, length,
  ltb, ◌==◌, bytes_eq, Bytes, bytes, Outcome, ok, err, Check, ◌>>=◌, ◌>>◌, reject_if, all_of,
}
use mission_control_edge.Protocol.Error.{GoError, plain}
use mission_control_edge.Protocol.Text.{Time, validate_id, validate_time}
use mission_control_edge.Protocol.Identity.{validate_digest}
use mission_control_edge.Protocol.Signed.{
  validate_protocol, validate_version, ArtifactIdentity, validate_signed_artifact,
  validate_safe_ascii, validate_nonce, validate_unique_strings, equal_strings,
}
use mission_control_edge.Protocol.Capability.Catalog.{valid_capability_name}
use mission_control_edge.Protocol.Distinct.{distinct_from}
use mission_control_edge.Protocol.Approval.{equal_artifact, sort_strings, validate_scopes}
use mission_control_edge.Protocol.Manifest.{Platform, platform_equal, validate_platform}
use mission_control_edge.Protocol.Evidence.{
  Signature, Cryptography, validate_metadata, validate_signature, validate_data_mode,
  validate_evidence_times, signing_preimage,
}

-- The constants of `VerificationTier` and `VerificationResult`, Go strings.
abbrev pub tier_unverified : Bytes
tier_unverified = bytes "unverified"

abbrev pub tier_native_contract_tested : Bytes
tier_native_contract_tested = bytes "native_contract_tested"

abbrev pub tier_live_verified : Bytes
tier_live_verified = bytes "live_verified"

abbrev pub verification_passed : Bytes
verification_passed = bytes "passed"

abbrev pub verification_failed : Bytes
verification_failed = bytes "failed"

abbrev pub purpose_live_run_authorization : Bytes
purpose_live_run_authorization = bytes "live-run-authorization"

abbrev pub purpose_live_run_receipt : Bytes
purpose_live_run_receipt = bytes "live-run-receipt"

pub record VerificationSubject : Type 0 where
  pub provider : ArtifactIdentity
  pub native_artifact : ArtifactIdentity
  pub platform : Platform
  pub capabilities : List Bytes
  pub cases : List Bytes
  pub suite_version : Bytes
  pub suite_digest : Bytes
  pub configuration_digest : Bytes
  pub data_modes : List Bytes

-- The method `Validate` of `VerificationSubject`.
unfoldable pub validate_subject : VerificationSubject → Check GoError
validate_subject s = do
  validate_signed_artifact s.provider
  validate_signed_artifact s.native_artifact
  validate_platform s.platform
  reject_if (is_empty s.capabilities || is_empty s.cases || is_empty s.data_modes)
      (plain "verification subject scope is incomplete")
  reject_if (not (all_of valid_capability_name s.capabilities))
      (plain "verification capability is invalid")
  validate_unique_strings s.capabilities
  validate_unique_strings s.cases
  validate_scopes s.cases
  validate_version s.suite_version
  validate_safe_ascii 1 128 s.suite_version
  validate_digest s.suite_digest
  validate_digest s.configuration_digest
  distinct_from (λ m. m) validate_data_mode "data_modes contains a duplicate" [] s.data_modes

-- canonicalVerificationSubject
unfoldable pub canonical_subject : VerificationSubject → VerificationSubject
canonical_subject s = record {
  provider = s.provider;
  native_artifact = s.native_artifact;
  platform = s.platform;
  capabilities = sort_strings s.capabilities;
  cases = sort_strings s.cases;
  suite_version = s.suite_version;
  suite_digest = s.suite_digest;
  configuration_digest = s.configuration_digest;
  data_modes = sort_strings s.data_modes;
}

-- equalVerificationSubject; two lists of one length are compared by `equal_strings`.
unfoldable pub equal_subject : VerificationSubject → VerificationSubject → Bool
unfolding canonical_subject
equal_subject a b =
    equal_artifact a.provider b.provider
    && equal_artifact a.native_artifact b.native_artifact
    && platform_equal a.platform b.platform
    && a.suite_version == b.suite_version
    && a.suite_digest == b.suite_digest
    && a.configuration_digest == b.configuration_digest
    && equal_strings (sort_strings a.capabilities) (sort_strings b.capabilities)
    && equal_strings (sort_strings a.data_modes) (sort_strings b.data_modes)
    && equal_strings (sort_strings a.cases) (sort_strings b.cases)

-- The loop of `validateOpaqueReference`; the flag says that a byte came before.
unfoldable pub opaque_from : Bool → Bytes → Check GoError
opaque_from later [] = err (plain "value must be an opaque typed reference")
opaque_from later (b ∷ bs) = do
  reject_if (eqb b 0 || eqb b 13 || eqb b 10) (plain "value is invalid")
  let rest = opaque_from true bs
  elim (eqb b b':' && later) [ true ↦ ok tt | false ↦ rest ]

-- validateOpaqueReference
unfoldable pub validate_opaque_reference : Bytes → Check GoError
unfolding opaque_from
validate_opaque_reference value = do
  reject_if (is_empty value || ltb 1024 (length value)) (plain "value is invalid")
  opaque_from false value

-- validateSignedReference
unfoldable pub validate_signed_reference : Bytes → Check GoError
unfolding validate_opaque_reference
validate_signed_reference value = do
  validate_opaque_reference value
  validate_safe_ascii 3 1024 value
