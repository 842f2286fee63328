-- ===== src/Protocol/Verification/Replay.antt =====
-- EvaluateVerification over its candidates, and one evidence for a run nonce.
use mission_control_edge.Common.{
  ◌≡◌, refl, ◌∙◌, ◌⊎◌, inl, inr, Bool, true, false, ◌||◌, not, List, [], ◌∷◌, eqb, Bool-cases, ◌==◌,
  bytes_eq, is_ok, if◌then◌else◌,
}
use mission_control_edge.Protocol.Text.{Time}
use mission_control_edge.Protocol.Verification.{tier_unverified, tier_live_verified}
use mission_control_edge.Protocol.Verification.Record.{VerificationEvidence}
use mission_control_edge.Protocol.Verification.Policy.{
  VerificationExpectation, VerificationPolicy, VerificationProjection, Accept, validate_expectation,
  verification_applies, promote, evaluate_from, unverified, evaluate_verification,
}
use mission_control_edge.Protocol.Verification.Projection.{
  Applies, LiveApplies, Admitted, verification_applies-true,
}

-- The evidence stands in the list.
pub Among : VerificationEvidence → List VerificationEvidence → Type 0
Among e [] = ⊥
Among e (x ∷ rest) = (e ≡ x) ⊎ Among e rest

-- What stands behind a projection: nothing, or evidence of the list that applies.
pub Backed :
    VerificationPolicy
    → VerificationExpectation
    → Time
    → List VerificationEvidence
    → VerificationProjection
    → Type 0
Backed policy expected now l p =
    (p ≡ unverified)
    ⊎ ((e : VerificationEvidence) × Among e l
        × (p ≡ record { tier = e.tier; evidence_id = e.evidence_id })
        × Applies policy expected now e
        × (((e.tier == tier_live_verified) ≡ false) ⊎ LiveApplies policy expected now e))

-- A candidate either leaves the projection or takes its place, and then it applies.
pub next-cases :
    (e : VerificationEvidence) (p : VerificationProjection) (applies : Bool)
    → ((if applies then promote e p else p) ≡ p)
      ⊎ ((applies ≡ true)
          × ((if applies then promote e p else p)
              ≡ record { tier = e.tier; evidence_id = e.evidence_id }))
unfolding promote
next-cases e p false = inl refl
next-cases e p true =
    elim (Bool-cases ((e.tier == tier_live_verified) || (p.tier == tier_unverified))) [
      | inl taken ↦ inr (refl, rw (promote, taken) refl)
      | inr kept ↦ inl (rw (promote, kept) refl)
    ]

module _ {Guards : Type 0} (accept : Accept Guards) (policy : VerificationPolicy)
    (expected : VerificationExpectation) (now : Time) where
  abbrev judge : Guards → VerificationEvidence → Guards × Bool
  judge = verification_applies accept policy expected now

  -- The projection that a loop starts with, or evidence of its list that applies.
  Source : List VerificationEvidence → VerificationProjection → VerificationProjection → Type 0
  Source l start p =
      (p ≡ start)
      ⊎ ((e : VerificationEvidence) × Among e l
          × (p ≡ record { tier = e.tier; evidence_id = e.evidence_id })
          × Applies policy expected now e
          × (((e.tier == tier_live_verified) ≡ false) ⊎ LiveApplies policy expected now e))

  backing :
      (guards : Guards) (e : VerificationEvidence)
      → (((e.tier == tier_live_verified) ≡ false)
          ⊎ Admitted accept policy expected now guards e (judge guards e))
      → ((e.tier == tier_live_verified) ≡ false) ⊎ LiveApplies policy expected now e
  unfolding Admitted
  backing guards e (inl native) = inl native
  backing guards e (inr admitted) = inr admitted.0

  evaluate_from-Source :
      (guards : Guards) (start : VerificationProjection) (l : List VerificationEvidence)
      → Source l start (evaluate_from accept policy expected now guards start l).1
  unfolding evaluate_from Source Among
  evaluate_from-Source guards start [] = inl refl
  evaluate_from-Source guards start (e ∷ rest) =
      let v = judge guards e in
      elim (evaluate_from-Source v.0 (if v.1 then promote e start else start) rest) [
        | inr (x, among, same, applies, tier) ↦ inr (x, inr among, same, applies, tier)
        | inl stays ↦ elim (next-cases e start v.1) [
          | inl kept ↦ inl (stays ∙ kept)
          | inr (taken, same) ↦
              let (applies, tier) =
                verification_applies-true accept policy expected now guards e taken in
              inr (e, inl refl, stays ∙ same, applies, backing guards e tier)
        ]
      ]

  -- A projection is `unverified`, or it is the tier and the identifier of evidence of the list that
  -- passes validation, was signed by a trusted key for its tier, passed, is of the current epoch, in
  -- its time, on the expected subject and neither revoked nor superseded; for the live tier its
  -- authorization and its receipt are of the expected run and signed by trusted keys as well.
  pub evaluate_verification-Backed :
      (guards : Guards) (l : List VerificationEvidence)
      → Backed policy expected now l (evaluate_verification accept policy expected now guards l).1
  unfolding evaluate_verification Source Backed
  evaluate_verification-Backed guards l =
      elim (Bool-cases
        (not (is_ok (validate_expectation expected)) || eqb policy.current_trust_epoch 0)) [
          | inl refused ↦ inl (rw (evaluate_verification, refused) refl)
          | inr allowed ↦
              rw (evaluate_verification, allowed) (evaluate_from-Source guards unverified l)
        ]
