-- ===== src/Protocol/Evidence/Custody.antt =====
-- protocol/custody.go, lines 102 to 226: evidence of custody, and VerifyCustody.
use Prim.Native.String.{String}
use mission_control_edge.Common.{
  ℕ, Bool, ◌&&◌, not, Option, List, [], eqb, is_empty, ◌==◌, bytes_eq, Bytes, Outcome, ok, err,
  Check, ◌>>=◌, ◌>>◌, reject_if, or_else,
}
use mission_control_edge.Protocol.Error.{
  GoError, plain, protocol_error, invalid_argument, conflict, replay,
}
use mission_control_edge.Protocol.Text.{Time, validate_id}
use mission_control_edge.Protocol.Identity.{validate_native_id, validate_digest}
use mission_control_edge.Protocol.Signed.{
  validate_protocol, ArtifactIdentity, validate_signed_artifact, validate_safe_ascii,
  validate_nonce, validate_unique_strings,
}
use mission_control_edge.Protocol.Approval.{
  Consume, equal_artifact, equal_string_sets, sort_strings, validate_scopes,
}
use mission_control_edge.Protocol.Evidence.{
  Signature, Cryptography, Trust, validate_metadata, validate_signature, validate_evidence_times,
  validate_data_mode, signing_preimage, verify_evidence_signature, purpose_custody_evidence,
}

-- `CustodyBinding`
pub record EvidenceBinding : Type 0 where
  pub session_id : Bytes
  pub policy_revision : ℕ
  pub gateway_id : Bytes
  pub gateway_key_id : Bytes
  pub provider : ArtifactIdentity
  pub native_environment_id : Bytes
  pub configuration_digest : Bytes
  pub image_digest : Bytes
  pub controls : List Bytes
  pub data_mode : Bytes

-- The method `Validate` of `CustodyBinding`. The source takes the three identifiers from a map, in
-- an order that Go leaves open; only the name in the message depends on it.
unfoldable pub validate_evidence_binding : String → EvidenceBinding → Check GoError
validate_evidence_binding required b = do
  validate_id b.session_id
  validate_id b.gateway_id
  validate_id b.gateway_key_id
  reject_if (eqb b.policy_revision 0) (plain "policy_revision must be positive")
  validate_signed_artifact b.provider
  validate_native_id b.native_environment_id
  validate_safe_ascii 1 1024 b.native_environment_id
  validate_digest b.configuration_digest
  validate_digest b.image_digest
  reject_if (is_empty b.controls) (plain required)
  validate_unique_strings b.controls
  validate_scopes b.controls
  validate_data_mode b.data_mode

-- equalCustodyBinding
unfoldable pub equal_evidence_binding : EvidenceBinding → EvidenceBinding → Bool
equal_evidence_binding a b =
    a.session_id == b.session_id
    && eqb a.policy_revision b.policy_revision
    && a.gateway_id == b.gateway_id
    && a.gateway_key_id == b.gateway_key_id
    && equal_artifact a.provider b.provider
    && a.native_environment_id == b.native_environment_id
    && a.configuration_digest == b.configuration_digest
    && a.image_digest == b.image_digest
    && a.data_mode == b.data_mode
    && equal_string_sets a.controls b.controls

-- `ContentCustodyEvidence`
pub record Evidence : Type 0 where
  pub version : Bytes
  pub evidence_id : Bytes
  pub nonce : Bytes
  pub binding : EvidenceBinding
  pub issued_at : Time
  pub expires_at : Time
  pub signature : Signature

-- The method `validateFields` of `ContentCustodyEvidence`.
unfoldable pub validate_evidence_fields : String → Evidence → Check GoError
unfolding validate_evidence_binding
validate_evidence_fields required e = do
  validate_protocol e.version
  validate_id e.evidence_id
  validate_nonce e.nonce
  validate_evidence_binding required e.binding
  validate_evidence_times e.issued_at e.expires_at

-- The method `Validate` of `ContentCustodyEvidence`.
unfoldable pub validate_evidence : Cryptography → String → Bytes → Evidence → Check GoError
unfolding validate_evidence_fields
validate_evidence crypto required purpose e = do
  validate_evidence_fields required e
  validate_signature crypto e.signature purpose

-- `e` with the controls sorted and an empty signature value: what the signature is made over.
unfoldable pub unsigned : Evidence → Evidence
unsigned e = record {
  version = e.version;
  evidence_id = e.evidence_id;
  nonce = e.nonce;
  binding = record {
    session_id = e.binding.session_id;
    policy_revision = e.binding.policy_revision;
    gateway_id = e.binding.gateway_id;
    gateway_key_id = e.binding.gateway_key_id;
    provider = e.binding.provider;
    native_environment_id = e.binding.native_environment_id;
    configuration_digest = e.binding.configuration_digest;
    image_digest = e.binding.image_digest;
    controls = sort_strings e.binding.controls;
    data_mode = e.binding.data_mode;
  };
  issued_at = e.issued_at;
  expires_at = e.expires_at;
  signature = record {
    algorithm = e.signature.algorithm;
    purpose = e.signature.purpose;
    issuer = e.signature.issuer;
    key_id = e.signature.key_id;
    value = [];
  };
}

-- The method `SigningBytes`, with the JSON encoder of the type.
unfoldable pub signing_bytes :
    ℕ → (Evidence → Option Bytes) → String → Bytes → Evidence → Outcome GoError Bytes
unfolding validate_evidence_fields unsigned
signing_bytes max_int marshal required purpose e = do
  validate_evidence_fields required e
  validate_metadata e.signature purpose
  signing_preimage max_int purpose (marshal (unsigned e))

-- What the caller of `VerifyCustody` brings: the platform's largest `int`, the cryptography, the
-- JSON of the evidence, and the trust, `none` if it is nil.
pub record Verifier : Type 1 where
  pub max_int : ℕ
  pub crypto : Cryptography
  pub marshal : Evidence → Option Bytes
  pub trust : Option (Trust crypto.Key)

-- The checks of `VerifyCustody` before the nonce is consumed. An error of `SigningBytes` is replaced.
unfoldable pub check_evidence :
    String → Bytes → Verifier → Evidence → EvidenceBinding → Time → Check GoError
unfolding validate_evidence equal_evidence_binding signing_bytes
check_evidence required purpose verifier e expected now = do
  or_else (validate_evidence verifier.crypto required purpose e) (protocol_error invalid_argument)
  or_else (validate_evidence_binding required expected) (protocol_error invalid_argument)
  reject_if (not (equal_evidence_binding e.binding expected)) (protocol_error conflict)
  payload ←
      or_else (signing_bytes verifier.max_int verifier.marshal required purpose e)
        (protocol_error invalid_argument)
  verify_evidence_signature verifier.crypto e.signature e.binding.gateway_id
      e.binding.gateway_key_id verifier.trust payload now e.issued_at e.expires_at

-- A nonce, after checks that must succeed first: the state of the consumer and the answer.
unfoldable pub after_checks :
    {Nonces : Type 0} → Consume Nonces → Nonces → Bytes → Check GoError → Nonces × Check GoError
after_checks consume nonces nonce (err e) = (nonces, err e)
after_checks consume nonces nonce (ok _) =
    let (after_use, fresh) = consume nonces nonce in
    (after_use, reject_if (not fresh) (protocol_error replay))

-- VerifyCustody, with a consumer that is not nil.
unfoldable pub verify_custody :
    {Nonces : Type 0}
    → Consume Nonces
    → Verifier
    → Nonces
    → Evidence
    → EvidenceBinding
    → Time
    → Nonces × Check GoError
unfolding check_evidence after_checks
verify_custody consume verifier nonces e expected now = after_checks consume nonces e.nonce (
    check_evidence "custody controls are required" purpose_custody_evidence verifier e expected now)
