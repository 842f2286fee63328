-- ===== src/Protocol/Approval/Samples.antt =====
-- A decision, and a consumer that keeps the list of the nonces it has seen.
use mission_control_edge.Common.{
  ◌≡◌, refl, true, false, none, List, [], ◌∷◌, ◌++◌, arith, Bytes, bytes, ok, replicate, any_of,
  ◌==◌, bytes_eq, if◌then◌else◌, ◌↔◌, bytes_beq_iff,
}
use mission_control_edge.Common.Int.{pos}
use mission_control_edge.Protocol.Text.{Time, validate_id, validate_time}
use mission_control_edge.Protocol.Identity.{
  validate_digest, validate_role, role_execution_environment, role_agent_harness,
}
use mission_control_edge.Protocol.Signed.{
  protocol_version, validate_protocol, validate_signed_artifact, validate_nonce,
  validate_unique_strings, validate_version, equal_strings,
}
use mission_control_edge.Protocol.Approval.{
  ApprovalBinding, ApprovalDecision, ApprovalProviderSelection, Consume, outcome_approved,
  validate_approval_decision, check_decision, equal_binding, equal_string_sets, validate_decision,
  validate_binding, sort_strings,
}
use mission_control_edge.Common.Multiset.{count}
use mission_control_edge.Protocol.Approval.Scopes.{equal_string_sets_iff}
use mission_control_edge.Protocol.Approval.Decision.{
  Authorizes, validate_approval_decision-Authorizes,
}
use mission_control_edge.Protocol.Approval.Nonces.{ConsumesOnce, Attempt, run_attempts, nonce_once}

abbrev digest : Bytes
digest = bytes "sha256:" ++ replicate 64 b'0'

abbrev provider : Bytes → ApprovalProviderSelection
provider role = record {
  role = role;
  provider = record { id = bytes "p"; version = bytes "1"; digest = digest };
}

abbrev binding : List Bytes → ApprovalBinding
binding scopes = record {
  command_digest = digest;
  session_id = bytes "s";
  session_revision = 1;
  work_item_revision = 2;
  resource_revision = 3;
  context_version = bytes "v";
  policy_revision = 4;
  environment = provider role_execution_environment;
  runtime = none;
  harness = provider role_agent_harness;
  gateway_id = bytes "g";
  scopes = scopes;
  expires_at = record { instant = pos 100; is_utc = true };
  nonce = replicate 22 b'n';
}

abbrev expected : ApprovalBinding
expected = binding (bytes "read" ∷ bytes "write" ∷ [])

-- The scopes come in another order.
abbrev decision : ApprovalDecision
decision = record {
  version = protocol_version;
  approval_id = bytes "a";
  outcome = outcome_approved;
  binding = binding (bytes "write" ∷ bytes "read" ∷ []);
  decision_revision = 1;
  decided_at = record { instant = pos 40; is_utc = true };
}

abbrev now : Time
now = record { instant = pos 50; is_utc = true }

abbrev remember : Consume (List Bytes)
remember s n = if any_of (λ m. m == n) s then (s, false) else (n ∷ s, true)

remember-ConsumesOnce : ConsumesOnce remember
remember-ConsumesOnce = record {
  Used = λ s n. any_of (λ m. m == n) s ≡ true;
  marks = λ s n h. ground (arith, bytes_beq_iff n n);
  refuses = λ s n h. ground arith;
  keeps = λ s n m h. ground arith;
}

accepted : (validate_approval_decision remember [] decision expected now).1 ≡ ok tt
unfolding validate_approval_decision check_decision equal_binding equal_string_sets sort_strings
    equal_strings validate_decision validate_binding validate_id validate_time validate_digest
    validate_role validate_protocol validate_signed_artifact validate_nonce validate_unique_strings
    validate_version
accepted = refl

validate_approval_decision-Authorizes_example :
    Authorizes decision expected now × ((remember [] expected.nonce).1 ≡ true)
validate_approval_decision-Authorizes_example =
    validate_approval_decision-Authorizes remember [] decision expected now accepted

abbrev attempt : Attempt
attempt = record { decision = decision; expected = expected; now = now }

nonce_once_example : ¬ (
    (validate_approval_decision remember
      (run_attempts remember
        (validate_approval_decision remember [] decision expected now).0
        (attempt ∷ []))
      decision
      expected
      now).1
    ≡ ok tt)
nonce_once_example =
    nonce_once remember remember-ConsumesOnce [] attempt attempt (attempt ∷ []) accepted refl

equal_string_sets_iff_example :
    (equal_string_sets decision.binding.scopes expected.scopes ≡ true)
    ↔ ((z : Bytes) → count z decision.binding.scopes ≡ count z expected.scopes)
equal_string_sets_iff_example = equal_string_sets_iff decision.binding.scopes expected.scopes
