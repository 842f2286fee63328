-- ===== src/Protocol/Verification/Record.antt =====
-- protocol/verification.go, lines 258 to 344 and 484 to 499: the evidence of a verification.
use mission_control_edge.Common.{
  ℕ, Bool, ◌&&◌, ◌||◌, not, Option, none, some, eqb, ◌==◌, bytes_eq, Bytes, bytes, Outcome, ok, err,
  Check, ◌>>=◌, ◌>>◌, reject_if, if◌then◌else◌,
}
use mission_control_edge.Protocol.Error.{GoError, plain}
use mission_control_edge.Protocol.Text.{Time, before, validate_id}
use mission_control_edge.Protocol.Signed.{validate_protocol}
use mission_control_edge.Protocol.Evidence.{
  Signature, Cryptography, validate_metadata, validate_signature, validate_evidence_times,
  signing_preimage,
}
use mission_control_edge.Protocol.Verification.{
  VerificationSubject, validate_subject, canonical_subject, equal_subject,
  validate_signed_reference, tier_native_contract_tested, tier_live_verified,
}
use mission_control_edge.Protocol.Verification.Live.{
  LiveVerificationAuthorization, LiveVerificationReceipt, validate_authorization, validate_receipt,
  with_authorization, with_receipt, without_value, unsupported_result, is_missing,
}

abbrev pub purpose_contract_verification : Bytes
purpose_contract_verification = bytes "contract-verification"

abbrev pub purpose_live_verification : Bytes
purpose_live_verification = bytes "live-verification"

pub record VerificationEvidence : Type 0 where
  pub version : Bytes
  pub evidence_id : Bytes
  pub tier : Bytes
  pub subject : VerificationSubject
  pub result : Bytes
  pub reference : Bytes
  pub issued_at : Time
  pub expires_at : Time
  pub trust_epoch : ℕ
  pub live_authorization : Option LiveVerificationAuthorization
  pub live_receipt : Option LiveVerificationReceipt
  pub signature : Signature

-- liveReceiptMatchesAuthorization
unfoldable pub receipt_matches : LiveVerificationReceipt → LiveVerificationAuthorization → Bool
receipt_matches r a =
    r.authorization_id == a.authorization_id
    && equal_subject r.subject a.subject
    && r.tenant_id == a.tenant_id
    && r.gateway_id == a.gateway_id
    && r.signature.key_id == a.gateway_key_id
    && r.correlation_id == a.correlation_id
    && r.run_nonce == a.run_nonce
    && r.budget_reference == a.budget_reference
    && r.credential_reference == a.credential_reference

-- liveComponentsMatch
unfoldable pub live_components_match :
    VerificationEvidence → LiveVerificationAuthorization → LiveVerificationReceipt → Bool
unfolding receipt_matches
live_components_match e a r =
    eqb e.trust_epoch a.trust_epoch
    && e.result == r.result
    && equal_subject e.subject a.subject
    && receipt_matches r a

-- The part of `validateFields` about the records of a live run.
unfoldable pub validate_live : Cryptography → VerificationEvidence → Check GoError
unfolding live_components_match
validate_live crypto e = elim e.live_authorization [
  | none ↦ err (plain "live authorization and receipt are required")
  | some a ↦ elim e.live_receipt [
    | none ↦ err (plain "live authorization and receipt are required")
    | some r ↦ do
      validate_authorization crypto a
      validate_receipt crypto r
      reject_if (not (live_components_match e a r))
          (plain "live verification components do not match")
      reject_if
          (before r.issued_at a.issued_at
            || not (before r.issued_at a.expires_at)
            || before e.issued_at r.issued_at)
          (plain "live verification timestamps are inconsistent")
  ]
]

-- The two branches of `validateFields` on the tier, with the purpose that each gives.
unfoldable pub validate_tier : Cryptography → VerificationEvidence → Outcome GoError Bytes
unfolding validate_live
validate_tier crypto e =
    if e.tier == tier_live_verified
    then (validate_live crypto e >> ok purpose_live_verification)
    else (reject_if (not (is_missing e.live_authorization) || not (is_missing e.live_receipt))
          (plain "native contract evidence cannot contain live records")
        >> ok purpose_contract_verification)

-- The method `validateFields` of `VerificationEvidence`: the purpose of the signature.
unfoldable pub validate_verification_fields :
    Cryptography → VerificationEvidence → Outcome GoError Bytes
unfolding validate_tier
validate_verification_fields crypto e = do
  validate_protocol e.version
  validate_id e.evidence_id
  reject_if (not (e.tier == tier_native_contract_tested) && not (e.tier == tier_live_verified))
      (plain "verification evidence tier is not issuable")
  validate_subject e.subject
  reject_if (unsupported_result e.result) (plain "verification result is unsupported")
  validate_signed_reference e.reference
  validate_evidence_times e.issued_at e.expires_at
  reject_if (eqb e.trust_epoch 0) (plain "trust_epoch must be positive")
  validate_tier crypto e

-- The method `Validate` of `VerificationEvidence`.
unfoldable pub validate_verification : Cryptography → VerificationEvidence → Check GoError
unfolding validate_verification_fields
validate_verification crypto e = do
  purpose ← validate_verification_fields crypto e
  validate_signature crypto e.signature purpose

abbrev canonical_authorization :
    Option LiveVerificationAuthorization → Option LiveVerificationAuthorization
canonical_authorization none = none
canonical_authorization (some a) = some (with_authorization a a.signature)

abbrev canonical_receipt : Option LiveVerificationReceipt → Option LiveVerificationReceipt
canonical_receipt none = none
canonical_receipt (some r) = some (with_receipt r r.signature)

-- canonicalVerificationEvidence, and then the signature without its value.
unfoldable pub canonical_evidence : VerificationEvidence → VerificationEvidence
canonical_evidence e = record {
  version = e.version;
  evidence_id = e.evidence_id;
  tier = e.tier;
  subject = canonical_subject e.subject;
  result = e.result;
  reference = e.reference;
  issued_at = e.issued_at;
  expires_at = e.expires_at;
  trust_epoch = e.trust_epoch;
  live_authorization = canonical_authorization e.live_authorization;
  live_receipt = canonical_receipt e.live_receipt;
  signature = without_value e.signature;
}

-- The method `SigningBytes` of `VerificationEvidence`, with its JSON encoder.
unfoldable pub verification_bytes :
    ℕ
    → Cryptography
    → (VerificationEvidence → Option Bytes)
    → VerificationEvidence
    → Outcome GoError Bytes
unfolding validate_verification_fields canonical_evidence
verification_bytes max_int crypto marshal e = do
  purpose ← validate_verification_fields crypto e
  validate_metadata e.signature purpose
  signing_preimage max_int purpose (marshal (canonical_evidence e))
