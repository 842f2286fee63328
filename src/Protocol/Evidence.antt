-- ===== src/Protocol/Evidence.antt =====
-- protocol/custody.go: signatures of evidence, their times and the bytes they are made over. Ed25519,
-- base64 and JSON are parameters.
pub mod Custody
pub mod Isolation
pub mod Preimage
pub mod Attested
mod Samples
use Prim.Native.String.{String}
use mission_control_edge.Common.{
  ℕ, ◌+◌, ◌-◌, Bool, true, false, ◌&&◌, ◌||◌, not, Option, none, some, List, [], ◌∷◌, ◌++◌, ltb,
  eqb, length, is_empty, ◌==◌, bytes_eq, Bytes, bytes, Outcome, ok, err, Check, ◌>>=◌, ◌>>◌,
  reject_if, or_else, present,
}
use mission_control_edge.Common.Int.{ℤ, pos, pos_part, ltb_ℤ}
use mission_control_edge.Protocol.Error.{
  GoError, plain, protocol_error, invalid_argument, conflict, expired, unauthenticated, replay,
}
use mission_control_edge.Protocol.Text.{Time, after, before, validate_id, validate_time}
use mission_control_edge.Protocol.Identity.{validate_native_id, validate_digest}
use mission_control_edge.Protocol.Signed.{
  protocol_version, validate_protocol, ArtifactIdentity, validate_signed_artifact,
  validate_safe_ascii, validate_nonce, validate_unique_strings,
}
use mission_control_edge.Protocol.Approval.{
  Consume, equal_artifact, equal_string_sets, sort_strings, validate_scopes,
}

-- The method `Validate` of `DataMode`, a Go string.
unfoldable pub validate_data_mode : Bytes → Check GoError
validate_data_mode m =
    reject_if
      (not (
        m == bytes "full"
        || m == bytes "ephemeral-transcript"
        || m == bytes "metadata-only"
        || m == bytes "local-control"))
      (plain "data mode is unsupported")

-- The method `Validate` of `Sensitivity`, a Go string.
unfoldable pub validate_sensitivity : Bytes → Check GoError
validate_sensitivity s =
    reject_if
      (not (
        s == bytes "public"
        || s == bytes "metadata"
        || s == bytes "internal"
        || s == bytes "confidential"
        || s == bytes "restricted"))
      (plain "sensitivity is unsupported")

abbrev pub purpose_isolation_evidence : Bytes
purpose_isolation_evidence = bytes "isolation-evidence"

abbrev pub purpose_custody_evidence : Bytes
purpose_custody_evidence = bytes "custody-evidence"

abbrev pub signing_domain_prefix : Bytes
signing_domain_prefix = protocol_version ++ (0 ∷ [])

pub record Signature : Type 0 where
  pub algorithm : Bytes
  pub purpose : Bytes
  pub issuer : Bytes
  pub key_id : Bytes
  pub value : Bytes

-- What the code uses of `encoding/base64` and `crypto/ed25519`.
pub record Cryptography : Type 1 where
  pub Key : Type 0
  pub key_size : Key → ℕ
  pub decode_base64 : Bytes → Option Bytes
  pub verify : Key → Bytes → Bytes → Bool

-- A `SignatureTrust` of the caller: the key of an issuer, a key name and a purpose.
abbrev pub Trust : Type 0 → Type 0
Trust Key = Bytes → Bytes → Bytes → Option Key

-- The method `validateMetadata` of `Signature`.
unfoldable pub validate_metadata : Signature → Bytes → Check GoError
validate_metadata s expected = do
  reject_if (not (s.algorithm == bytes "ed25519") || not (s.purpose == expected))
      (plain "signature algorithm or purpose is invalid")
  validate_id s.issuer
  validate_id s.key_id

-- The method `validate` of `Signature`.
unfoldable pub validate_signature : Cryptography → Signature → Bytes → Check GoError
unfolding validate_metadata
validate_signature crypto s expected = do
  validate_metadata s expected
  decoded ← present (crypto.decode_base64 s.value) (plain "signature value is invalid")
  reject_if (not (eqb (length decoded) 64)) (plain "signature value is invalid")

-- validateEvidenceTimes
unfoldable pub validate_evidence_times : Time → Time → Check GoError
validate_evidence_times issued_at expires_at = do
  validate_time issued_at
  validate_time expires_at
  reject_if (not (after expires_at issued_at)) (plain "evidence expiry must follow issue time")

-- The loop of `checkedAllocationSize`; `max_int` is the largest `int` of the platform.
unfoldable pub allocation_from : ℕ → ℕ → List ℤ → Outcome GoError ℕ
allocation_from max_int total [] = ok total
allocation_from max_int total (size ∷ rest) = do
  reject_if (ltb_ℤ size (pos 0) || ltb_ℤ (pos (max_int - total)) size)
      (plain "allocation size exceeds platform limit")
  allocation_from max_int (total + pos_part size) rest

-- checkedAllocationSize
unfoldable pub checked_allocation_size : ℕ → List ℤ → Outcome GoError ℕ
unfolding allocation_from
checked_allocation_size max_int parts = allocation_from max_int 0 parts

-- signingPreimage, where `payload` is the document as JSON, or missing if it has none.
unfoldable pub signing_preimage : ℕ → Bytes → Option Bytes → Outcome GoError Bytes
unfolding checked_allocation_size
signing_preimage max_int purpose payload = do
  validate_safe_ascii 1 128 purpose
  document ← present payload (plain "the document has no JSON")
  capacity ← checked_allocation_size max_int (
      pos (length signing_domain_prefix)
      ∷ pos (length purpose)
      ∷ pos 1
      ∷ pos (length document)
      ∷ [])
  ok (signing_domain_prefix ++ (purpose ++ (0 ∷ document)))

-- verifyEvidenceSignature; a `trust` that is nil is `none`. Its keys have the size that Ed25519 wants:
-- with another, `ed25519.Verify` panics.
unfoldable pub verify_evidence_signature :
    (crypto : Cryptography)
    → Signature
    → Bytes
    → Bytes
    → Option (Trust crypto.Key)
    → Bytes
    → Time
    → Time
    → Time
    → Check GoError
verify_evidence_signature crypto signature issuer key_id trust payload now issued_at expires_at = do
  reject_if (before now issued_at) (protocol_error unauthenticated)
  reject_if (not (before now expires_at)) (protocol_error expired)
  reject_if (not (signature.issuer == issuer) || not (signature.key_id == key_id))
      (protocol_error unauthenticated)
  keys ← present trust (protocol_error unauthenticated)
  key ←
      present (keys signature.issuer signature.key_id signature.purpose)
        (protocol_error unauthenticated)
  value ← present (crypto.decode_base64 signature.value) (protocol_error unauthenticated)
  reject_if (not (crypto.verify key payload value)) (protocol_error unauthenticated)
