-- ===== src/Protocol/Verification/Policy.antt =====
-- protocol/verification.go, lines 346 to 482 and 526 to 534: what the caller expects, and
-- EvaluateVerification.
use mission_control_edge.Common.{
  ℕ, Bool, true, false, ◌&&◌, ◌||◌, not, Option, some, List, [], ◌∷◌, eqb, is_empty, ◌==◌, bytes_eq,
  Bytes, Outcome, ok, err, Check, ◌>>◌, if◌then◌else◌, is_ok, is_some_and,
}
use mission_control_edge.Protocol.Error.{GoError}
use mission_control_edge.Protocol.Text.{Time, before, validate_id}
use mission_control_edge.Protocol.Signed.{validate_nonce}
use mission_control_edge.Protocol.Distinct.{holds}
use mission_control_edge.Protocol.Evidence.{Signature, Cryptography, Trust, validate_signature}
use mission_control_edge.Protocol.Verification.{
  VerificationSubject, validate_subject, equal_subject, validate_signed_reference, tier_unverified,
  tier_live_verified, verification_passed, purpose_live_run_authorization, purpose_live_run_receipt,
}
use mission_control_edge.Protocol.Verification.Live.{
  LiveVerificationAuthorization, LiveVerificationReceipt, authorization_bytes, receipt_bytes,
}
use mission_control_edge.Protocol.Verification.Record.{
  VerificationEvidence, validate_verification, verification_bytes, receipt_matches,
  purpose_contract_verification, purpose_live_verification,
}

pub record VerificationExpectation : Type 0 where
  pub subject : VerificationSubject
  pub tenant_id : Bytes
  pub gateway_id : Bytes
  pub gateway_key_id : Bytes
  pub correlation_id : Bytes
  pub authorization_id : Bytes
  pub run_nonce : Bytes
  pub budget_reference : Bytes
  pub credential_reference : Bytes

-- The method `hasLiveScope` of `VerificationExpectation`.
unfoldable pub has_live_scope : VerificationExpectation → Bool
has_live_scope e =
    not (is_empty e.tenant_id)
    || not (is_empty e.gateway_id)
    || not (is_empty e.gateway_key_id)
    || not (is_empty e.correlation_id)
    || not (is_empty e.authorization_id)
    || not (is_empty e.run_nonce)
    || not (is_empty e.budget_reference)
    || not (is_empty e.credential_reference)

-- The part of `Validate` about a live scope.
unfoldable pub validate_live_scope : VerificationExpectation → Check GoError
validate_live_scope e = do
  validate_id e.tenant_id
  validate_id e.gateway_id
  validate_id e.gateway_key_id
  validate_id e.correlation_id
  validate_id e.authorization_id
  validate_nonce e.run_nonce
  validate_signed_reference e.budget_reference
  validate_signed_reference e.credential_reference

-- The method `Validate` of `VerificationExpectation`.
unfoldable pub validate_expectation : VerificationExpectation → Check GoError
unfolding has_live_scope validate_live_scope
validate_expectation e = do
  validate_subject e.subject
  let live = validate_live_scope e
  if has_live_scope e then live else ok tt

-- What the caller of `EvaluateVerification` brings: its platform's largest `int`, the cryptography,
-- the JSON of the three documents, and the policy, whose trust is not nil.
pub record VerificationPolicy : Type 1 where
  pub max_int : ℕ
  pub crypto : Cryptography
  pub marshal_evidence : VerificationEvidence → Option Bytes
  pub marshal_authorization : LiveVerificationAuthorization → Option Bytes
  pub marshal_receipt : LiveVerificationReceipt → Option Bytes
  pub trust : Trust crypto.Key
  pub current_trust_epoch : ℕ
  pub revoked_evidence_ids : List Bytes
  pub superseded_evidence_ids : List Bytes

-- A `VerificationReplayGuard` of the caller: a state, and the method `Accept` on a nonce and an
-- evidence identifier.
abbrev pub Accept : Type 0 → Type 0
Accept Guards = Guards → Bytes → Bytes → Guards × Bool

-- verifyTrustedSignature, on the bytes that were to be signed, if there are any.
unfoldable pub verify_trusted_signature :
    (policy : VerificationPolicy) → Signature → Bytes → Outcome GoError Bytes → Bool
verify_trusted_signature policy s purpose (err e) = false
verify_trusted_signature policy s purpose (ok payload) =
    is_ok (validate_signature policy.crypto s purpose)
    && is_some_and (policy.trust s.issuer s.key_id purpose) λ key.
      is_some_and (policy.crypto.decode_base64 s.value)
        λ value. eqb (policy.crypto.key_size key) 32 && policy.crypto.verify key payload value

-- signaturePurposeForTier
unfoldable pub purpose_for_tier : Bytes → Bytes
purpose_for_tier tier =
    if tier == tier_live_verified then purpose_live_verification else purpose_contract_verification

-- liveAuthorizationMatchesExpectation
unfoldable pub authorization_matches :
    LiveVerificationAuthorization → VerificationExpectation → Bool
authorization_matches a e =
    equal_subject a.subject e.subject
    && a.tenant_id == e.tenant_id
    && a.gateway_id == e.gateway_id
    && a.gateway_key_id == e.gateway_key_id
    && a.correlation_id == e.correlation_id
    && a.authorization_id == e.authorization_id
    && a.run_nonce == e.run_nonce
    && a.budget_reference == e.budget_reference
    && a.credential_reference == e.credential_reference

-- The tests of `verificationApplies` that every evidence must pass.
unfoldable pub generally_applies :
    VerificationPolicy → VerificationExpectation → Time → VerificationEvidence → Bool
unfolding verify_trusted_signature purpose_for_tier
generally_applies policy expected now e =
    is_ok (validate_verification policy.crypto e)
    && (e.result == verification_passed)
    && eqb e.trust_epoch policy.current_trust_epoch
    && not (before now e.issued_at)
    && before now e.expires_at
    && equal_subject e.subject expected.subject
    && not (holds policy.revoked_evidence_ids e.evidence_id)
    && not (holds policy.superseded_evidence_ids e.evidence_id)
    && verify_trusted_signature policy e.signature (purpose_for_tier e.tier)
        (verification_bytes policy.max_int policy.crypto policy.marshal_evidence e)

-- The tests of a live run, before the replay guard is asked.
unfoldable pub live_applies :
    VerificationPolicy
    → VerificationExpectation
    → Time
    → LiveVerificationAuthorization
    → LiveVerificationReceipt
    → Bool
unfolding authorization_matches verify_trusted_signature
live_applies policy expected now a r =
    authorization_matches a expected
    && receipt_matches r a
    && not (before now a.issued_at)
    && before now a.expires_at
    && not (before now r.issued_at)
    && verify_trusted_signature policy a.signature purpose_live_run_authorization
        (authorization_bytes policy.max_int policy.marshal_authorization a)
    && (r.signature.issuer == r.gateway_id)
    && verify_trusted_signature policy r.signature purpose_live_run_receipt
        (receipt_bytes policy.max_int policy.marshal_receipt r)

-- The end of `verificationApplies`, for evidence of the live tier.
unfoldable pub admit_live :
    {Guards : Type 0}
    → Accept Guards
    → VerificationPolicy
    → VerificationExpectation
    → Time
    → Guards
    → VerificationEvidence
    → Option LiveVerificationAuthorization
    → Option LiveVerificationReceipt
    → Guards × Bool
unfolding live_applies
admit_live accept policy expected now guards e (some a) (some r) =
    let (answered, fresh) = accept guards r.run_nonce e.evidence_id in
    if has_live_scope expected && live_applies policy expected now a r
    then (answered, fresh)
    else (guards, false)
admit_live accept policy expected now guards e _ _ = (guards, false)

-- verificationApplies, with a replay guard that is not nil.
unfoldable pub verification_applies :
    {Guards : Type 0}
    → Accept Guards
    → VerificationPolicy
    → VerificationExpectation
    → Time
    → Guards
    → VerificationEvidence
    → Guards × Bool
unfolding generally_applies admit_live
verification_applies accept policy expected now guards e =
    let live = admit_live accept policy expected now guards e e.live_authorization e.live_receipt in
    if not (generally_applies policy expected now e)
    then (guards, false)
    else if not (e.tier == tier_live_verified)
    then (guards, true)
    else live

pub record VerificationProjection : Type 0 where
  pub tier : Bytes
  pub evidence_id : Bytes

-- A candidate that applies, against the projection so far.
unfoldable pub promote : VerificationEvidence → VerificationProjection → VerificationProjection
promote e projection =
    if (e.tier == tier_live_verified) || (projection.tier == tier_unverified)
    then record { tier = e.tier; evidence_id = e.evidence_id }
    else projection

-- The loop of `EvaluateVerification`.
unfoldable pub evaluate_from :
    {Guards : Type 0}
    → Accept Guards
    → VerificationPolicy
    → VerificationExpectation
    → Time
    → Guards
    → VerificationProjection
    → List VerificationEvidence
    → Guards × VerificationProjection
unfolding verification_applies promote
evaluate_from accept policy expected now guards projection [] = (guards, projection)
evaluate_from accept policy expected now guards projection (e ∷ rest) =
    let (after, applies) = verification_applies accept policy expected now guards e in
    evaluate_from accept policy expected now after
      (if applies then promote e projection else projection) rest

abbrev pub unverified : VerificationProjection
unverified = record { tier = tier_unverified; evidence_id = [] }

-- EvaluateVerification
unfoldable pub evaluate_verification :
    {Guards : Type 0}
    → Accept Guards
    → VerificationPolicy
    → VerificationExpectation
    → Time
    → Guards
    → List VerificationEvidence
    → Guards × VerificationProjection
unfolding evaluate_from
evaluate_verification accept policy expected now guards evidence =
    let evaluated = evaluate_from accept policy expected now guards unverified evidence in
    if not (is_ok (validate_expectation expected)) || eqb policy.current_trust_epoch 0
    then (guards, unverified)
    else evaluated
