-- ===== src/Protocol/Approval/Nonces.antt =====
-- One use of a nonce, over any sequence of decisions at one consumer.
use mission_control_edge.Common.{
  ◌≡◌, sym, true, false, List, [], ◌∷◌, arith, Bytes, ok, subst, check-cases, inl, inr, bytes_eq,
}
use mission_control_edge.Protocol.Text.{Time}
use mission_control_edge.Protocol.Approval.{
  ApprovalBinding, ApprovalDecision, Consume, check_decision, validate_approval_decision,
}
use mission_control_edge.Protocol.Approval.Decision.{accepted-parts}

-- What the caller's consumer promises: a nonce that was consumed stays used, whatever else is
-- consumed, and a used nonce is refused.
pub record ConsumesOnce {Nonces : Type 0} (consume : Consume Nonces) : Type 1 where
  pub Used : Nonces → Bytes → Type 0
  pub marks : (s : Nonces) (n : Bytes) → (consume s n).1 ≡ true → Used (consume s n).0 n
  pub refuses : (s : Nonces) (n : Bytes) → Used s n → (consume s n).1 ≡ false
  pub keeps : (s : Nonces) (n m : Bytes) → Used s n → Used (consume s m).0 n

-- A call of `ValidateApprovalDecision`.
pub record Attempt : Type 0 where
  pub decision : ApprovalDecision
  pub expected : ApprovalBinding
  pub now : Time

-- The consumer after a sequence of calls.
pub run_attempts : {Nonces : Type 0} → Consume Nonces → Nonces → List Attempt → Nonces
run_attempts consume s [] = s
run_attempts consume s (a ∷ rest) =
    run_attempts consume (validate_approval_decision consume s a.decision a.expected a.now).0 rest

module _ {Nonces : Type 0} (consume : Consume Nonces) (once : ConsumesOnce consume) where
  validate-keeps :
      (s : Nonces) (n : Bytes) (a : Attempt)
      → once.Used s n
      → once.Used (validate_approval_decision consume s a.decision a.expected a.now).0 n
  unfolding validate_approval_decision
  validate-keeps s n a u = elim (check-cases (check_decision a.decision a.expected a.now)) [
    | inl e ↦ rw (validate_approval_decision, e) (once.keeps s n a.expected.nonce u)
    | inr (x, e) ↦ rw (validate_approval_decision, e) u
  ]

  run-keeps :
      (s : Nonces) (n : Bytes) (l : List Attempt)
      → once.Used s n
      → once.Used (run_attempts consume s l) n
  unfolding run_attempts
  run-keeps s n [] u = u
  run-keeps s n (a ∷ rest) u =
      run-keeps (validate_approval_decision consume s a.decision a.expected a.now).0 n rest
        (validate-keeps s n a u)

  used-refused :
      (s : Nonces) (a : Attempt)
      → once.Used s a.expected.nonce
      → ¬ ((validate_approval_decision consume s a.decision a.expected a.now).1 ≡ ok tt)
  used-refused s a u h =
      let (_, fresh, _) = accepted-parts consume s a.decision a.expected a.now h in
      ground (arith, once.refuses s a.expected.nonce u)

  -- With a consumer that keeps its promise: once a decision is accepted, no later call that expects
  -- the same nonce is accepted, after any sequence of calls in between.
  pub nonce_once :
      (s : Nonces) (first later : Attempt) (between : List Attempt)
      → (validate_approval_decision consume s first.decision first.expected first.now).1 ≡ ok tt
      → later.expected.nonce ≡ first.expected.nonce
      → ¬ (
          (validate_approval_decision consume
            (run_attempts consume
              (validate_approval_decision consume s first.decision first.expected first.now).0
              between)
            later.decision
            later.expected
            later.now).1
          ≡ ok tt)
  nonce_once s first later between h same =
      let (_, fresh, after_use) =
        accepted-parts consume s first.decision first.expected first.now h in
      let used =
        subst (λ t. once.Used t first.expected.nonce) (sym after_use)
          (once.marks s first.expected.nonce fresh) in
      used-refused _ later
        (subst (once.Used _) (sym same) (run-keeps _ first.expected.nonce between used))
