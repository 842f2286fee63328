-- ===== src/Protocol/Verification/Projection.antt =====
-- What stands behind the tier that EvaluateVerification gives.
use mission_control_edge.Common.{
  ◌≡◌, refl, sym, ◌∙◌, ap, subst, ◌⊎◌, inl, inr, Bool, true, false, ◌&&◌, Option, none, some, eqb,
  arith, Bool-cases, and-eq-true, true-not-false, is_some_and-eq-true, ◌==◌, bytes_eq,
  bytes_beq_iff, Bytes, ok, Outcome, err, is_ok, is_ok-eq-ok,
}
use mission_control_edge.Protocol.Error.{GoError}
use mission_control_edge.Protocol.Text.{Time, before}
use mission_control_edge.Protocol.Distinct.{holds}
use mission_control_edge.Protocol.Evidence.{Signature, validate_signature}
use mission_control_edge.Protocol.Verification.{
  equal_subject, tier_live_verified, verification_passed, purpose_live_run_authorization,
  purpose_live_run_receipt,
}
use mission_control_edge.Protocol.Verification.Live.{
  LiveVerificationAuthorization, LiveVerificationReceipt, authorization_bytes, receipt_bytes,
}
use mission_control_edge.Protocol.Verification.Record.{
  VerificationEvidence, validate_verification, verification_bytes, receipt_matches,
}
use mission_control_edge.Protocol.Verification.Policy.{
  VerificationExpectation, VerificationPolicy, Accept, has_live_scope, verify_trusted_signature,
  purpose_for_tier, authorization_matches, generally_applies, live_applies, admit_live,
  verification_applies,
}

-- A signature of a trusted key over the bytes.
pub Trusted : VerificationPolicy → Signature → Bytes → Outcome GoError Bytes → Type 0
Trusted policy s purpose encoded =
    (payload value : Bytes) × (key : policy.crypto.Key) × (encoded ≡ ok payload)
    × (policy.trust s.issuer s.key_id purpose ≡ some key)
    × (policy.crypto.decode_base64 s.value ≡ some value)
    × (policy.crypto.verify key payload value ≡ true)

verified-Trusted :
    (policy : VerificationPolicy) (s : Signature) (purpose : Bytes)
    (encoded : Outcome GoError Bytes)
    → verify_trusted_signature policy s purpose encoded ≡ true
    → Trusted policy s purpose encoded
unfolding verify_trusted_signature Trusted
verified-Trusted policy s purpose (err e) h = cc
verified-Trusted policy s purpose (ok payload) h =
    let (_, h) = and-eq-true (is_ok (validate_signature policy.crypto s purpose)) _ h in
    let (key, known, h) = is_some_and-eq-true (policy.trust s.issuer s.key_id purpose) _ h in
    let (value, decoded, h) = is_some_and-eq-true (policy.crypto.decode_base64 s.value) _ h in
    let (_, genuine) = and-eq-true (eqb (policy.crypto.key_size key) 32) _ h in
    (payload, value, key, refl, known, decoded, genuine)

-- What evidence that applies has in any case.
pub record Applies (policy : VerificationPolicy) (expected : VerificationExpectation) (now : Time)
    (e : VerificationEvidence) : Type 0 where
  pub valid : validate_verification policy.crypto e ≡ ok tt
  pub passed : e.result ≡ verification_passed
  pub epoch : e.trust_epoch ≡ policy.current_trust_epoch
  pub issued : before now e.issued_at ≡ false
  pub current : before now e.expires_at ≡ true
  pub subject : equal_subject e.subject expected.subject ≡ true
  pub not_revoked : holds policy.revoked_evidence_ids e.evidence_id ≡ false
  pub not_superseded : holds policy.superseded_evidence_ids e.evidence_id ≡ false
  pub trusted :
      Trusted policy e.signature
        (purpose_for_tier e.tier)
        (verification_bytes policy.max_int policy.crypto policy.marshal_evidence e)

generally-Applies :
    (policy : VerificationPolicy) (expected : VerificationExpectation) (now : Time)
    (e : VerificationEvidence)
    → generally_applies policy expected now e ≡ true
    → Applies policy expected now e
unfolding generally_applies
generally-Applies policy expected now e h = record {
  valid = is_ok-eq-ok (validate_verification policy.crypto e) (ground arith);
  passed = ground (arith, bytes_beq_iff e.result verification_passed);
  epoch = ground arith;
  issued = ground arith;
  current = ground arith;
  subject = ground arith;
  not_revoked = ground arith;
  not_superseded = ground arith;
  trusted = verified-Trusted policy e.signature (purpose_for_tier e.tier) _ (ground arith);
}

-- What stands behind the live tier besides.
pub record LiveApplies (policy : VerificationPolicy) (expected : VerificationExpectation)
    (now : Time) (e : VerificationEvidence) : Type 0 where
  pub authorization : LiveVerificationAuthorization
  pub receipt : LiveVerificationReceipt
  pub has_authorization : e.live_authorization ≡ some authorization
  pub has_receipt : e.live_receipt ≡ some receipt
  pub expected_run : authorization_matches authorization expected ≡ true
  pub same_run : receipt_matches receipt authorization ≡ true
  pub nonce : receipt.run_nonce ≡ expected.run_nonce
  pub current : before now authorization.expires_at ≡ true
  pub by_gateway : receipt.signature.issuer ≡ receipt.gateway_id
  pub authorization_trusted :
      Trusted policy authorization.signature purpose_live_run_authorization
        (authorization_bytes policy.max_int policy.marshal_authorization authorization)
  pub receipt_trusted :
      Trusted policy receipt.signature purpose_live_run_receipt
        (receipt_bytes policy.max_int policy.marshal_receipt receipt)

live-nonce :
    (policy : VerificationPolicy) (expected : VerificationExpectation) (now : Time)
    (a : LiveVerificationAuthorization) (r : LiveVerificationReceipt)
    → live_applies policy expected now a r ≡ true
    → r.run_nonce ≡ expected.run_nonce
unfolding live_applies authorization_matches receipt_matches
live-nonce policy expected now a r h =
    ground
      (arith, bytes_beq_iff r.run_nonce a.run_nonce, bytes_beq_iff a.run_nonce expected.run_nonce)

live-LiveApplies :
    (policy : VerificationPolicy) (expected : VerificationExpectation) (now : Time)
    (e : VerificationEvidence) (a : LiveVerificationAuthorization) (r : LiveVerificationReceipt)
    → e.live_authorization ≡ some a
    → e.live_receipt ≡ some r
    → live_applies policy expected now a r ≡ true
    → LiveApplies policy expected now e
unfolding live_applies authorization_matches receipt_matches
live-LiveApplies policy expected now e a r ha hr h = record {
  authorization = a;
  receipt = r;
  has_authorization = ha;
  has_receipt = hr;
  expected_run = ground arith;
  same_run = ground arith;
  nonce = live-nonce policy expected now a r h;
  current = ground arith;
  by_gateway = ground (arith, bytes_beq_iff r.signature.issuer r.gateway_id);
  authorization_trusted =
      verified-Trusted policy a.signature purpose_live_run_authorization _ (ground arith);
  receipt_trusted = verified-Trusted policy r.signature purpose_live_run_receipt _ (ground arith);
}

module _ {Guards : Type 0} (accept : Accept Guards) (policy : VerificationPolicy)
    (expected : VerificationExpectation) (now : Time) where
  -- The answer of the guard that admitted evidence of the live tier.
  unfoldable pub Admitted : Guards → VerificationEvidence → Guards × Bool → Type 0
  Admitted guards e v =
      LiveApplies policy expected now e
      × ((accept guards expected.run_nonce e.evidence_id).1 ≡ true)
      × (v.0 ≡ (accept guards expected.run_nonce e.evidence_id).0)

  admit_live-accept :
      (guards : Guards) (e : VerificationEvidence) (a : LiveVerificationAuthorization)
      (r : LiveVerificationReceipt)
      → (has_live_scope expected && live_applies policy expected now a r) ≡ true
      → admit_live accept policy expected now guards e (some a) (some r)
        ≡ accept guards r.run_nonce e.evidence_id
  unfolding admit_live
  admit_live-accept guards e a r h = rw h refl

  admit_live-Admitted :
      (guards : Guards) (e : VerificationEvidence) (la : Option LiveVerificationAuthorization)
      (lr : Option LiveVerificationReceipt)
      → e.live_authorization ≡ la
      → e.live_receipt ≡ lr
      → (admit_live accept policy expected now guards e la lr).1 ≡ true
      → Admitted guards e (admit_live accept policy expected now guards e la lr)
  unfolding admit_live Admitted
  admit_live-Admitted guards e none lr ha hr h = absurd (ground arith)
  admit_live-Admitted guards e (some a) none ha hr h = absurd (ground arith)
  admit_live-Admitted guards e (some a) (some r) ha hr h =
      elim (Bool-cases (has_live_scope expected && live_applies policy expected now a r)) [
        | inr fails ↦ absurd (ground arith)
        | inl passes ↦
            let (_, live) = and-eq-true (has_live_scope expected) _ passes in
            let same_nonce = live-nonce policy expected now a r live in
            let answer = admit_live-accept guards e a r passes in
            let fresh = subst (λ v. v.1 ≡ true) answer h in
            (
              live-LiveApplies policy expected now e a r ha hr live,
              subst (λ n. (accept guards n e.evidence_id).1 ≡ true) same_nonce fresh,
              ap (λ v. v.0) answer ∙ ap (λ n. (accept guards n e.evidence_id).0) same_nonce,
            )
      ]

  verification_applies-not :
      (guards : Guards) (e : VerificationEvidence)
      → generally_applies policy expected now e ≡ false
      → verification_applies accept policy expected now guards e ≡ (guards, false)
  unfolding verification_applies
  verification_applies-not guards e fails = rw (verification_applies, fails) refl

  verification_applies-live :
      (guards : Guards) (e : VerificationEvidence)
      → generally_applies policy expected now e ≡ true
      → (e.tier == tier_live_verified) ≡ true
      → verification_applies accept policy expected now guards e
        ≡ admit_live accept policy expected now guards e e.live_authorization e.live_receipt
  unfolding verification_applies
  verification_applies-live guards e general live = rw (verification_applies, general, live) refl

  -- Evidence that applies, with the answer of the guard if it is of the live tier.
  pub verification_applies-true :
      (guards : Guards) (e : VerificationEvidence)
      → (verification_applies accept policy expected now guards e).1 ≡ true
      → Applies policy expected now e
        × (((e.tier == tier_live_verified) ≡ false)
            ⊎ Admitted guards e (verification_applies accept policy expected now guards e))
  verification_applies-true guards e h =
      elim (Bool-cases (generally_applies policy expected now e)) [
        | inr fails ↦
            absurd
              (true-not-false (sym h ∙ ap (λ v. v.1) (verification_applies-not guards e fails)))
        | inl general ↦ (
          generally-Applies policy expected now e general,
          elim (Bool-cases (e.tier == tier_live_verified)) [
            | inr native ↦ inl native
            | inl live ↦
                let same = verification_applies-live guards e general live in
                inr (
                  subst (Admitted guards e) (sym same) (
                    admit_live-Admitted guards e e.live_authorization e.live_receipt refl refl
                      (subst (λ v. v.1 ≡ true) same h)))
          ],
        )
      ]

  -- The guard is asked at most once, about the identifier of the evidence.
  admit_live-guards :
      (guards : Guards) (e : VerificationEvidence) (la : Option LiveVerificationAuthorization)
      (lr : Option LiveVerificationReceipt)
      → ((admit_live accept policy expected now guards e la lr).0 ≡ guards)
        ⊎ ((n : Bytes) × ((admit_live accept policy expected now guards e la lr).0
              ≡ (accept guards n e.evidence_id).0))
  unfolding admit_live
  admit_live-guards guards e none lr = inl refl
  admit_live-guards guards e (some a) none = inl refl
  admit_live-guards guards e (some a) (some r) =
      elim (Bool-cases (has_live_scope expected && live_applies policy expected now a r)) [
        | inr fails ↦ inl (rw fails refl)
        | inl passes ↦ inr (r.run_nonce, rw passes refl)
      ]

  pub verification_applies-guards :
      (guards : Guards) (e : VerificationEvidence)
      → ((verification_applies accept policy expected now guards e).0 ≡ guards)
        ⊎ ((n : Bytes) × ((verification_applies accept policy expected now guards e).0
              ≡ (accept guards n e.evidence_id).0))
  unfolding verification_applies
  verification_applies-guards guards e =
      elim (Bool-cases (generally_applies policy expected now e)) [
        | inr fails ↦ inl (rw (verification_applies, fails) refl)
        | inl general ↦ elim (Bool-cases (e.tier == tier_live_verified)) [
          | inr native ↦ inl (rw (verification_applies, general, native) refl)
          | inl live ↦
              rw (verification_applies, general, live)
                (admit_live-guards guards e e.live_authorization e.live_receipt)
        ]
      ]
