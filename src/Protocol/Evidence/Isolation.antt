-- ===== src/Protocol/Evidence/Isolation.antt =====
-- protocol/isolation.go: its two types have the fields of the evidence of custody, and its code is that
-- of protocol/custody.go but for the purpose and for the words of one message.
use mission_control_edge.Common.{ℕ, Bool, Option, Bytes, Outcome, Check}
use mission_control_edge.Protocol.Error.{GoError}
use mission_control_edge.Protocol.Text.{Time}
use mission_control_edge.Protocol.Approval.{Consume}
use mission_control_edge.Protocol.Evidence.{Cryptography, purpose_isolation_evidence}
use mission_control_edge.Protocol.Evidence.Custody.{
  EvidenceBinding, Evidence, Verifier, validate_evidence_binding, validate_evidence_fields,
  validate_evidence, equal_evidence_binding, signing_bytes, check_evidence, after_checks,
}

abbrev pub IsolationBinding : Type 0
IsolationBinding = EvidenceBinding

abbrev pub IsolationEvidence : Type 0
IsolationEvidence = Evidence

-- The method `Validate` of `IsolationBinding`.
unfoldable pub validate_isolation_binding : IsolationBinding → Check GoError
unfolding validate_evidence_binding
validate_isolation_binding b = validate_evidence_binding "isolation controls are required" b

-- The method `validateFields` of `IsolationEvidence`.
unfoldable pub validate_isolation_fields : IsolationEvidence → Check GoError
unfolding validate_evidence_fields
validate_isolation_fields e = validate_evidence_fields "isolation controls are required" e

-- The method `Validate` of `IsolationEvidence`.
unfoldable pub validate_isolation : Cryptography → IsolationEvidence → Check GoError
unfolding validate_evidence
validate_isolation crypto e =
    validate_evidence crypto "isolation controls are required" purpose_isolation_evidence e

-- The method `SigningBytes` of `IsolationEvidence`.
unfoldable pub isolation_signing_bytes :
    ℕ → (IsolationEvidence → Option Bytes) → IsolationEvidence → Outcome GoError Bytes
unfolding signing_bytes
isolation_signing_bytes max_int marshal e =
    signing_bytes max_int marshal "isolation controls are required" purpose_isolation_evidence e

-- equalIsolationBinding
unfoldable pub equal_isolation_binding : IsolationBinding → IsolationBinding → Bool
unfolding equal_evidence_binding
equal_isolation_binding a b = equal_evidence_binding a b

-- VerifyIsolation, with a consumer that is not nil.
unfoldable pub verify_isolation :
    {Nonces : Type 0}
    → Consume Nonces
    → Verifier
    → Nonces
    → IsolationEvidence
    → IsolationBinding
    → Time
    → Nonces × Check GoError
unfolding check_evidence after_checks
verify_isolation consume verifier nonces e expected now = after_checks consume nonces e.nonce (
    check_evidence "isolation controls are required" purpose_isolation_evidence verifier e expected
      now)
