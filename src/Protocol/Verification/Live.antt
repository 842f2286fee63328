-- ===== src/Protocol/Verification/Live.antt =====
-- protocol/verification.go, lines 97 to 256: the authorization and the receipt of one live run. Base64,
-- Ed25519 and JSON are parameters.
use mission_control_edge.Common.{
  ℕ, Bool, true, false, ◌&&◌, not, Option, none, some, [], eqb, ◌==◌, bytes_eq, Bytes, Outcome,
  Check, ◌>>◌, reject_if,
}
use mission_control_edge.Protocol.Error.{GoError, plain}
use mission_control_edge.Protocol.Text.{Time, validate_id, validate_time}
use mission_control_edge.Protocol.Signed.{validate_protocol, validate_nonce}
use mission_control_edge.Protocol.Evidence.{
  Signature, Cryptography, validate_metadata, validate_signature, validate_evidence_times,
  signing_preimage,
}
use mission_control_edge.Protocol.Verification.{
  VerificationSubject, validate_subject, canonical_subject, validate_signed_reference,
  purpose_live_run_authorization, purpose_live_run_receipt, verification_passed,
  verification_failed,
}

-- A signature without its value.
abbrev pub without_value : Signature → Signature
without_value s = record {
  algorithm = s.algorithm;
  purpose = s.purpose;
  issuer = s.issuer;
  key_id = s.key_id;
  value = [];
}

pub record LiveVerificationAuthorization : Type 0 where
  pub version : Bytes
  pub authorization_id : Bytes
  pub subject : VerificationSubject
  pub tenant_id : Bytes
  pub gateway_id : Bytes
  pub gateway_key_id : Bytes
  pub correlation_id : Bytes
  pub run_nonce : Bytes
  pub budget_reference : Bytes
  pub credential_reference : Bytes
  pub issued_at : Time
  pub expires_at : Time
  pub trust_epoch : ℕ
  pub signature : Signature

-- The method `validateFields` of `LiveVerificationAuthorization`.
unfoldable pub validate_authorization_fields : LiveVerificationAuthorization → Check GoError
validate_authorization_fields a = do
  validate_protocol a.version
  validate_id a.authorization_id
  validate_id a.tenant_id
  validate_id a.gateway_id
  validate_id a.gateway_key_id
  validate_id a.correlation_id
  validate_subject a.subject
  validate_nonce a.run_nonce
  validate_signed_reference a.budget_reference
  validate_signed_reference a.credential_reference
  validate_evidence_times a.issued_at a.expires_at
  reject_if (eqb a.trust_epoch 0) (plain "trust_epoch must be positive")

-- The method `Validate` of `LiveVerificationAuthorization`.
unfoldable pub validate_authorization : Cryptography → LiveVerificationAuthorization → Check GoError
unfolding validate_authorization_fields
validate_authorization crypto a = do
  validate_authorization_fields a
  validate_signature crypto a.signature purpose_live_run_authorization

-- The authorization with the canonical subject; `SigningBytes` also drops the signature value.
abbrev pub with_authorization :
    LiveVerificationAuthorization → Signature → LiveVerificationAuthorization
with_authorization a signature = record {
  version = a.version;
  authorization_id = a.authorization_id;
  subject = canonical_subject a.subject;
  tenant_id = a.tenant_id;
  gateway_id = a.gateway_id;
  gateway_key_id = a.gateway_key_id;
  correlation_id = a.correlation_id;
  run_nonce = a.run_nonce;
  budget_reference = a.budget_reference;
  credential_reference = a.credential_reference;
  issued_at = a.issued_at;
  expires_at = a.expires_at;
  trust_epoch = a.trust_epoch;
  signature = signature;
}

-- The method `SigningBytes` of `LiveVerificationAuthorization`, with its JSON encoder.
unfoldable pub authorization_bytes :
    ℕ
    → (LiveVerificationAuthorization → Option Bytes)
    → LiveVerificationAuthorization
    → Outcome GoError Bytes
unfolding validate_authorization_fields
authorization_bytes max_int marshal a = do
  validate_authorization_fields a
  validate_metadata a.signature purpose_live_run_authorization
  signing_preimage max_int purpose_live_run_authorization
      (marshal (with_authorization a (without_value a.signature)))

pub record Usage : Type 0 where
  pub input_tokens : ℕ
  pub output_tokens : ℕ
  pub cost_microunits : ℕ

pub record LiveVerificationReceipt : Type 0 where
  pub version : Bytes
  pub receipt_id : Bytes
  pub authorization_id : Bytes
  pub subject : VerificationSubject
  pub tenant_id : Bytes
  pub gateway_id : Bytes
  pub correlation_id : Bytes
  pub run_nonce : Bytes
  pub budget_reference : Bytes
  pub credential_reference : Bytes
  pub result : Bytes
  pub usage : Option Usage
  pub audit_event_id : Bytes
  pub issued_at : Time
  pub signature : Signature

-- The test of a `VerificationResult`.
abbrev pub unsupported_result : Bytes → Bool
unsupported_result r = not (r == verification_passed) && not (r == verification_failed)

abbrev pub is_missing : {A : Type 0} → Option A → Bool
is_missing none = true
is_missing (some a) = false

-- The method `validateFields` of `LiveVerificationReceipt`.
unfoldable pub validate_receipt_fields : LiveVerificationReceipt → Check GoError
validate_receipt_fields r = do
  validate_protocol r.version
  validate_id r.receipt_id
  validate_id r.authorization_id
  validate_id r.tenant_id
  validate_id r.gateway_id
  validate_id r.correlation_id
  validate_id r.audit_event_id
  validate_subject r.subject
  validate_nonce r.run_nonce
  validate_signed_reference r.budget_reference
  validate_signed_reference r.credential_reference
  reject_if (unsupported_result r.result) (plain "verification result is unsupported")
  reject_if (is_missing r.usage) (plain "live verification usage is required")
  validate_time r.issued_at

-- The method `Validate` of `LiveVerificationReceipt`.
unfoldable pub validate_receipt : Cryptography → LiveVerificationReceipt → Check GoError
unfolding validate_receipt_fields
validate_receipt crypto r = do
  validate_receipt_fields r
  validate_signature crypto r.signature purpose_live_run_receipt
  reject_if (not (r.signature.issuer == r.gateway_id))
      (plain "live verification receipt signer does not match gateway")

-- The receipt with the canonical subject.
abbrev pub with_receipt : LiveVerificationReceipt → Signature → LiveVerificationReceipt
with_receipt r signature = record {
  version = r.version;
  receipt_id = r.receipt_id;
  authorization_id = r.authorization_id;
  subject = canonical_subject r.subject;
  tenant_id = r.tenant_id;
  gateway_id = r.gateway_id;
  correlation_id = r.correlation_id;
  run_nonce = r.run_nonce;
  budget_reference = r.budget_reference;
  credential_reference = r.credential_reference;
  result = r.result;
  usage = r.usage;
  audit_event_id = r.audit_event_id;
  issued_at = r.issued_at;
  signature = signature;
}

-- The method `SigningBytes` of `LiveVerificationReceipt`, with its JSON encoder.
unfoldable pub receipt_bytes :
    ℕ → (LiveVerificationReceipt → Option Bytes) → LiveVerificationReceipt → Outcome GoError Bytes
unfolding validate_receipt_fields
receipt_bytes max_int marshal r = do
  validate_receipt_fields r
  validate_metadata r.signature purpose_live_run_receipt
  signing_preimage max_int purpose_live_run_receipt
      (marshal (with_receipt r (without_value r.signature)))
