-- ===== src/Protocol/Verification/Once.antt =====
-- One evidence for a run nonce, over any evaluations with one replay guard.
use mission_control_edge.Common.{
  ◌≡◌, refl, sym, ◌∙◌, subst, ◌⊎◌, inl, inr, Bool, true, false, ◌||◌, not, Option, some, List, [],
  ◌∷◌, eqb, Bool-cases, some-injective, true-not-false, ◌==◌, bytes_eq, bytes_beq_iff, Bytes, is_ok,
  if◌then◌else◌,
}
use mission_control_edge.Protocol.Text.{Time}
use mission_control_edge.Protocol.Verification.{tier_live_verified}
use mission_control_edge.Protocol.Verification.Record.{VerificationEvidence}
use mission_control_edge.Protocol.Verification.Policy.{
  VerificationExpectation, VerificationPolicy, VerificationProjection, Accept, validate_expectation,
  verification_applies, promote, evaluate_from, unverified, evaluate_verification,
}
use mission_control_edge.Protocol.Verification.Projection.{
  Admitted, verification_applies-true, verification_applies-guards,
}
use mission_control_edge.Protocol.Verification.Replay.{next-cases}

-- What the caller's replay guard promises: the evidence that a nonce was accepted for is bound to it,
-- and stays bound, whatever else is accepted.
pub record AcceptsOnce {Guards : Type 0} (accept : Accept Guards) : Type 0 where
  pub bound : Guards → Bytes → Option Bytes
  pub binds :
      (s : Guards) (n i : Bytes) → (accept s n i).1 ≡ true → bound (accept s n i).0 n ≡ some i
  pub keeps :
      (s : Guards) (n m i j : Bytes) → bound s n ≡ some i → bound (accept s m j).0 n ≡ some i

-- A call of `EvaluateVerification`.
pub record Evaluation : Type 1 where
  pub policy : VerificationPolicy
  pub expected : VerificationExpectation
  pub now : Time
  pub evidence : List VerificationEvidence

module _ {Guards : Type 0} (accept : Accept Guards) (once : AcceptsOnce accept) where
  abbrev pub evaluate : Guards → Evaluation → Guards × VerificationProjection
  evaluate s v = evaluate_verification accept v.policy v.expected v.now s v.evidence

  -- The guard after a sequence of calls.
  unfoldable pub run_evaluations : Guards → List Evaluation → Guards
  run_evaluations s [] = s
  run_evaluations s (v ∷ rest) = run_evaluations (evaluate s v).0 rest

  module _ (policy : VerificationPolicy) (expected : VerificationExpectation) (now : Time) where
    abbrev judge : Guards → VerificationEvidence → Guards × Bool
    judge = verification_applies accept policy expected now

    judge-keeps :
        (s : Guards) (e : VerificationEvidence) (n i : Bytes)
        → once.bound s n ≡ some i
        → once.bound (judge s e).0 n ≡ some i
    judge-keeps s e n i h = elim (verification_applies-guards accept policy expected now s e) [
      | inl same ↦ subst (λ t. once.bound t n ≡ some i) (sym same) h
      | inr (m, same) ↦
          subst (λ t. once.bound t n ≡ some i) (sym same) (once.keeps s n m i e.evidence_id h)
    ]

    evaluate_from-keeps :
        (s : Guards) (p : VerificationProjection) (l : List VerificationEvidence) (n i : Bytes)
        → once.bound s n ≡ some i
        → once.bound (evaluate_from accept policy expected now s p l).0 n ≡ some i
    unfolding evaluate_from
    evaluate_from-keeps s p [] n i h = h
    evaluate_from-keeps s p (e ∷ rest) n i h =
        evaluate_from-keeps (judge s e).0 _ rest n i (judge-keeps s e n i h)

    -- A projection of the live tier is bound to the expected nonce.
    Bound : Guards → VerificationProjection → Type 0
    Bound s p =
        ((p.tier == tier_live_verified) ≡ false)
        ⊎ (once.bound s expected.run_nonce ≡ some p.evidence_id)

    kept-Bound :
        (s : Guards) (e : VerificationEvidence) (p : VerificationProjection)
        → Bound s p
        → Bound (judge s e).0 p
    unfolding Bound
    kept-Bound s e p (inl native) = inl native
    kept-Bound s e p (inr h) = inr (judge-keeps s e expected.run_nonce p.evidence_id h)

    taken-Bound :
        (s : Guards) (e : VerificationEvidence)
        → ((e.tier == tier_live_verified) ≡ false)
          ⊎ Admitted accept policy expected now s e (judge s e)
        → Bound (judge s e).0 (record { tier = e.tier; evidence_id = e.evidence_id })
    unfolding Bound Admitted
    taken-Bound s e (inl native) = inl native
    taken-Bound s e (inr (_, fresh, after)) = inr (
        subst (λ t. once.bound t expected.run_nonce ≡ some e.evidence_id) (sym after)
          (once.binds s expected.run_nonce e.evidence_id fresh))

    judge-Bound :
        (s : Guards) (e : VerificationEvidence) (p : VerificationProjection)
        → Bound s p
        → Bound (judge s e).0 (if (judge s e).1 then promote e p else p)
    unfolding Bound
    judge-Bound s e p b = elim (next-cases e p (judge s e).1) [
      | inl kept ↦ subst (Bound (judge s e).0) (sym kept) (kept-Bound s e p b)
      | inr (taken, same) ↦
          subst (Bound (judge s e).0) (sym same)
            (taken-Bound s e (verification_applies-true accept policy expected now s e taken).1)
    ]

    evaluate_from-Bound :
        (s : Guards) (p : VerificationProjection) (l : List VerificationEvidence)
        → Bound s p
        → Bound
            (evaluate_from accept policy expected now s p l).0
            (evaluate_from accept policy expected now s p l).1
    unfolding evaluate_from
    evaluate_from-Bound s p [] b = b
    evaluate_from-Bound s p (e ∷ rest) b =
        evaluate_from-Bound (judge s e).0 (if (judge s e).1 then promote e p else p) rest
          (judge-Bound s e p b)

    evaluate_verification-cases :
        (s : Guards) (l : List VerificationEvidence)
        → (evaluate_verification accept policy expected now s l ≡ (s, unverified))
          ⊎ (evaluate_verification accept policy expected now s l
              ≡ evaluate_from accept policy expected now s unverified l)
    unfolding evaluate_verification
    evaluate_verification-cases s l =
        elim (Bool-cases
          (not (is_ok (validate_expectation expected)) || eqb policy.current_trust_epoch 0)) [
            | inl refused ↦ inl (rw (evaluate_verification, refused) refl)
            | inr allowed ↦ inr (rw (evaluate_verification, allowed) refl)
          ]

    evaluate_verification-keeps :
        (s : Guards) (l : List VerificationEvidence) (n i : Bytes)
        → once.bound s n ≡ some i
        → once.bound (evaluate_verification accept policy expected now s l).0 n ≡ some i
    evaluate_verification-keeps s l n i h = elim (evaluate_verification-cases s l) [
      | inl e ↦ subst (λ t. once.bound t.0 n ≡ some i) (sym e) h
      | inr e ↦
          subst (λ t. once.bound t.0 n ≡ some i) (sym e) (evaluate_from-keeps s unverified l n i h)
    ]

    evaluate_verification-Bound :
        (s : Guards) (l : List VerificationEvidence)
        → Bound
            (evaluate_verification accept policy expected now s l).0
            (evaluate_verification accept policy expected now s l).1
    unfolding Bound
    evaluate_verification-Bound s l = elim (evaluate_verification-cases s l) [
      | inl e ↦ subst (λ t. Bound t.0 t.1) (sym e) (inl refl)
      | inr e ↦ subst (λ t. Bound t.0 t.1) (sym e) (evaluate_from-Bound s unverified l (inl refl))
    ]

    live-bound :
        (s : Guards) (l : List VerificationEvidence)
        → (evaluate_verification accept policy expected now s l).1.tier ≡ tier_live_verified
        → once.bound (evaluate_verification accept policy expected now s l).0 expected.run_nonce
          ≡ some (evaluate_verification accept policy expected now s l).1.evidence_id
    unfolding Bound
    live-bound s l live = elim (evaluate_verification-Bound s l) [
      | inr h ↦ h
      | inl native ↦
          absurd (true-not-false (sym ((bytes_beq_iff _ tier_live_verified).1 live) ∙ native))
    ]

  run-keeps :
      (s : Guards) (l : List Evaluation) (n i : Bytes)
      → once.bound s n ≡ some i
      → once.bound (run_evaluations s l) n ≡ some i
  unfolding run_evaluations
  run-keeps s [] n i h = h
  run-keeps s (v ∷ rest) n i h =
      run-keeps (evaluate s v).0 rest n i
        (evaluate_verification-keeps v.policy v.expected v.now s v.evidence n i h)

  -- With a replay guard that keeps its promise: two evaluations that expect the same run nonce and
  -- that both give the live tier give it to evidence of one identifier, after any evaluations in
  -- between.
  pub live_once :
      (s : Guards) (first later : Evaluation) (between : List Evaluation)
      → (evaluate s first).1.tier ≡ tier_live_verified
      → (evaluate (run_evaluations (evaluate s first).0 between) later).1.tier ≡ tier_live_verified
      → later.expected.run_nonce ≡ first.expected.run_nonce
      → (evaluate (run_evaluations (evaluate s first).0 between) later).1.evidence_id
        ≡ (evaluate s first).1.evidence_id
  live_once s first later between h k same =
      let first_state = (evaluate s first).0 in
      let state = run_evaluations first_state between in
      let bound_first =
        run-keeps first_state between first.expected.run_nonce (evaluate s first).1.evidence_id
          (live-bound first.policy first.expected first.now s first.evidence h) in
      let still =
        evaluate_verification-keeps later.policy later.expected later.now state later.evidence
          first.expected.run_nonce (evaluate s first).1.evidence_id bound_first in
      let bound_later = live-bound later.policy later.expected later.now state later.evidence k in
      some-injective (
        sym (
          subst
            (λ n. once.bound (evaluate state later).0 n ≡ some (evaluate state later).1.evidence_id)
            same bound_later)
        ∙ still)
