-- ===== src/Protocol/Approval/Decision.antt =====
-- What an accepted decision has established, and that a nonce serves once.
use mission_control_edge.Common.{
  ◌≡◌, refl, true, false, ◌||◌, not, Option, none, some, arith, ◌==◌, bytes_eq, bytes_beq_iff,
  Bytes, ok, or_else, check-bind-ok, reject_if-bind-ok, reject_if-eq-ok, or_else-eq-ok, check-cases,
  inl, inr, ap,
}
use mission_control_edge.Protocol.Error.{protocol_error, invalid_argument, replay}
use mission_control_edge.Protocol.Text.{Time, after, before}
use mission_control_edge.Protocol.Signed.{ArtifactIdentity}
use mission_control_edge.Common.Multiset.{count}
use mission_control_edge.Protocol.Approval.Scopes.{equal_string_sets_iff}
use mission_control_edge.Protocol.Approval.{
  ApprovalBinding, ApprovalDecision, ApprovalProviderSelection, outcome_approved, outcome_expired,
  validate_decision, validate_binding, equal_binding, equal_selection, equal_runtime,
  equal_artifact, check_decision, Consume, validate_approval_decision,
}

pub equal_artifact_iff : (a b : ArtifactIdentity) → equal_artifact a b ≡ true → a ≡ b
equal_artifact_iff a b h = ground (
  arith,
  bytes_beq_iff a.id b.id,
  bytes_beq_iff a.version b.version,
  bytes_beq_iff a.digest b.digest,
)

equal_selection_iff : (a b : ApprovalProviderSelection) → equal_selection a b ≡ true → a ≡ b
equal_selection_iff a b h =
    ground (arith, bytes_beq_iff a.role b.role, equal_artifact_iff a.provider b.provider)

equal_runtime_iff : (a b : Option ApprovalProviderSelection) → equal_runtime a b ≡ true → a ≡ b
equal_runtime_iff none none h = refl
equal_runtime_iff none (some b) h = cc
equal_runtime_iff (some a) none h = cc
equal_runtime_iff (some a) (some b) h = ap some (equal_selection_iff a b h)

-- Two bindings that agree in everything but the order of the scopes and the zone of the time; the
-- instant at which they expire is the same.
pub record SameBinding (a b : ApprovalBinding) : Type 0 where
  pub command_digest : a.command_digest ≡ b.command_digest
  pub session_id : a.session_id ≡ b.session_id
  pub session_revision : a.session_revision ≡ b.session_revision
  pub work_item_revision : a.work_item_revision ≡ b.work_item_revision
  pub resource_revision : a.resource_revision ≡ b.resource_revision
  pub context_version : a.context_version ≡ b.context_version
  pub policy_revision : a.policy_revision ≡ b.policy_revision
  pub environment : a.environment ≡ b.environment
  pub runtime : a.runtime ≡ b.runtime
  pub harness : a.harness ≡ b.harness
  pub gateway_id : a.gateway_id ≡ b.gateway_id
  pub scopes : (z : Bytes) → count z a.scopes ≡ count z b.scopes
  pub expires_at : a.expires_at.instant ≡ b.expires_at.instant
  pub nonce : a.nonce ≡ b.nonce

equal_binding-SameBinding : (a b : ApprovalBinding) → equal_binding a b ≡ true → SameBinding a b
unfolding equal_binding
equal_binding-SameBinding a b h = record {
  command_digest = ground (arith, bytes_beq_iff a.command_digest b.command_digest);
  session_id = ground (arith, bytes_beq_iff a.session_id b.session_id);
  session_revision = ground arith;
  work_item_revision = ground arith;
  resource_revision = ground arith;
  context_version = ground (arith, bytes_beq_iff a.context_version b.context_version);
  policy_revision = ground arith;
  environment = equal_selection_iff a.environment b.environment (ground arith);
  runtime = equal_runtime_iff a.runtime b.runtime (ground arith);
  harness = equal_selection_iff a.harness b.harness (ground arith);
  gateway_id = ground (arith, bytes_beq_iff a.gateway_id b.gateway_id);
  scopes = (equal_string_sets_iff a.scopes b.scopes).0 (ground arith);
  expires_at = ground arith;
  nonce = ground (arith, bytes_beq_iff a.nonce b.nonce);
}

-- What an accepted decision is.
pub record Authorizes (decision : ApprovalDecision) (expected : ApprovalBinding) (now : Time)
    : Type 0 where
  pub valid : validate_decision decision ≡ ok tt
  pub expected_valid : validate_binding expected ≡ ok tt
  pub same : SameBinding decision.binding expected
  pub approved : decision.outcome ≡ outcome_approved
  pub current : before now expected.expires_at ≡ true
  pub own_current : before now decision.binding.expires_at ≡ true
  pub decided : after decision.decided_at now ≡ false
  pub in_time : after decision.decided_at expected.expires_at ≡ false

check_decision-Authorizes :
    (decision : ApprovalDecision) (expected : ApprovalBinding) (now : Time)
    → check_decision decision expected now ≡ ok tt
    → Authorizes decision expected now
unfolding check_decision
check_decision-Authorizes decision expected now h =
    let (v, h1) =
      check-bind-ok (or_else (validate_decision decision) (protocol_error invalid_argument)) _ h in
    let (w, h2) =
      check-bind-ok (or_else (validate_binding expected) (protocol_error invalid_argument)) _ h1 in
    let (same, h3) = reject_if-bind-ok (not (equal_binding decision.binding expected)) _ _ h2 in
    let (time, h4) =
      reject_if-bind-ok
        (not (before now expected.expires_at) || decision.outcome == outcome_expired) _ _ h3 in
    let (decided, h5) =
      reject_if-bind-ok
        (after decision.decided_at now || after decision.decided_at expected.expires_at) _ _ h4 in
    let approved = reject_if-eq-ok (not (decision.outcome == outcome_approved)) _ h5 in
    let bindings = equal_binding-SameBinding decision.binding expected (ground arith) in
    record {
      valid = or_else-eq-ok (validate_decision decision) _ v;
      expected_valid = or_else-eq-ok (validate_binding expected) _ w;
      same = bindings;
      approved = (bytes_beq_iff decision.outcome outcome_approved).0 (ground arith);
      current = ground arith;
      own_current = rw bindings.expires_at (ground arith);
      decided = ground arith;
      in_time = ground arith;
    }

module _ {Nonces : Type 0} (consume : Consume Nonces) where
  pub accepted-parts :
      (s : Nonces) (decision : ApprovalDecision) (expected : ApprovalBinding) (now : Time)
      → (validate_approval_decision consume s decision expected now).1 ≡ ok tt
      → (check_decision decision expected now ≡ ok tt)
        × ((consume s expected.nonce).1 ≡ true)
        × ((validate_approval_decision consume s decision expected now).0
            ≡ (consume s expected.nonce).0)
  unfolding validate_approval_decision
  accepted-parts s decision expected now =
      elim (check-cases (check_decision decision expected now)) [
        | inl e ↦
            rw (validate_approval_decision, e)
              (λ h. (
                refl,
                ground (
                  arith,
                  reject_if-eq-ok (not (consume s expected.nonce).1) (protocol_error replay) h,
                ),
                refl,
              ))
        | inr (x, e) ↦ rw (validate_approval_decision, e) (λ h. cc)
      ]

  -- A decision that is accepted is valid, approves exactly the expected command, revisions and
  -- providers, with the same scopes in some order and the same instant of expiry, was made at most
  -- now, and is not expired, neither by the expected binding nor by its own; and its nonce was
  -- consumed by this very call.
  pub validate_approval_decision-Authorizes :
      (s : Nonces) (decision : ApprovalDecision) (expected : ApprovalBinding) (now : Time)
      → (validate_approval_decision consume s decision expected now).1 ≡ ok tt
      → Authorizes decision expected now × ((consume s expected.nonce).1 ≡ true)
  validate_approval_decision-Authorizes s decision expected now h =
      let (checked, fresh, _) = accepted-parts s decision expected now h in
      (check_decision-Authorizes decision expected now checked, fresh)
