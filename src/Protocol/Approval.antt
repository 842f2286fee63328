-- ===== src/Protocol/Approval.antt =====
-- protocol/approval.go: the decision on an approval, bound to a command and to revisions, used once.
pub mod Scopes
pub mod Decision
pub mod Nonces
mod Samples
use mission_control_edge.Common.{
  ℕ, Bool, true, false, ◌&&◌, ◌||◌, not, Option, none, some, List, [], ◌∷◌, ltb, leb, eqb, length,
  if◌then◌else◌, is_empty, ◌==◌, bytes_eq, Bytes, bytes, ok, err, Check, Outcome, ◌>>=◌, ◌>>◌,
  reject_if, or_else,
}
use mission_control_edge.Common.Int.{eqb_ℤ}
use mission_control_edge.Protocol.Error.{
  GoError, plain, protocol_error, invalid_argument, conflict, expired, permission_denied, replay,
}
use mission_control_edge.Protocol.Text.{Time, after, before, validate_id, validate_time}
use mission_control_edge.Protocol.Identity.{
  validate_digest, validate_role, role_execution_environment, role_session_runtime,
  role_agent_harness,
}
use mission_control_edge.Protocol.Signed.{
  ArtifactIdentity, validate_signed_artifact, validate_protocol, validate_nonce,
  validate_unique_strings, validate_safe_ascii, equal_strings,
}

-- The constants of `ApprovalOutcome`, a Go string.
abbrev pub outcome_approved : Bytes
outcome_approved = bytes "approved"

abbrev pub outcome_rejected : Bytes
outcome_rejected = bytes "rejected"

abbrev pub outcome_expired : Bytes
outcome_expired = bytes "expired"

pub record ApprovalProviderSelection : Type 0 where
  pub role : Bytes
  pub provider : ArtifactIdentity

-- The method `validate` of `ApprovalProviderSelection`.
unfoldable pub validate_selection : ApprovalProviderSelection → Bytes → Check GoError
validate_selection s expected = do
  reject_if (not (s.role == expected)) (plain "approval provider role does not match selection")
  validate_role s.role
  validate_signed_artifact s.provider

pub record ApprovalBinding : Type 0 where
  pub command_digest : Bytes
  pub session_id : Bytes
  pub session_revision : ℕ
  pub work_item_revision : ℕ
  pub resource_revision : ℕ
  pub context_version : Bytes
  pub policy_revision : ℕ
  pub environment : ApprovalProviderSelection
  pub runtime : Option ApprovalProviderSelection
  pub harness : ApprovalProviderSelection
  pub gateway_id : Bytes
  pub scopes : List Bytes
  pub expires_at : Time
  pub nonce : Bytes

-- `if b.Runtime != nil { b.Runtime.validate(RoleSessionRuntime) }`
unfoldable pub validate_runtime : Option ApprovalProviderSelection → Check GoError
unfolding validate_selection
validate_runtime none = ok tt
validate_runtime (some s) = validate_selection s role_session_runtime

unfoldable pub validate_scopes : List Bytes → Check GoError
validate_scopes [] = ok tt
validate_scopes (scope ∷ rest) = do validate_safe_ascii 1 128 scope; validate_scopes rest

-- The method `Validate` of `ApprovalBinding`. The source takes the three identifiers from a map, in an
-- order that Go leaves open; only the name in the message depends on it.
unfoldable pub validate_binding : ApprovalBinding → Check GoError
unfolding validate_runtime validate_scopes validate_selection
validate_binding b = do
  validate_digest b.command_digest
  validate_id b.session_id
  validate_id b.context_version
  validate_id b.gateway_id
  reject_if
      (eqb b.session_revision 0
        || eqb b.work_item_revision 0
        || eqb b.resource_revision 0
        || eqb b.policy_revision 0)
      (plain "approval revisions must be positive")
  validate_selection b.environment role_execution_environment
  validate_runtime b.runtime
  validate_selection b.harness role_agent_harness
  reject_if (is_empty b.scopes) (plain "approval scopes are required")
  validate_unique_strings b.scopes
  validate_scopes b.scopes
  validate_time b.expires_at
  validate_nonce b.nonce

pub record ApprovalDecision : Type 0 where
  pub version : Bytes
  pub approval_id : Bytes
  pub outcome : Bytes
  pub binding : ApprovalBinding
  pub decision_revision : ℕ
  pub decided_at : Time

-- The switch over the outcomes.
unfoldable pub validate_outcome : Bytes → Check GoError
validate_outcome o =
    reject_if (not (o == outcome_approved || o == outcome_rejected || o == outcome_expired))
      (plain "approval outcome is unsupported")

-- The method `Validate` of `ApprovalDecision`.
unfoldable pub validate_decision : ApprovalDecision → Check GoError
unfolding validate_outcome validate_binding
validate_decision d = do
  validate_protocol d.version
  validate_id d.approval_id
  validate_outcome d.outcome
  validate_binding d.binding
  reject_if (eqb d.decision_revision 0) (plain "decision_revision must be positive")
  validate_time d.decided_at

-- Go's order of strings: byte by byte.
pub leb_string : Bytes → Bytes → Bool
leb_string [] ys = true
leb_string (x ∷ xs) [] = false
leb_string (x ∷ xs) (y ∷ ys) =
    let rest = leb_string xs ys in if ltb x y then true else if ltb y x then false else rest

pub insert_sorted : Bytes → List Bytes → List Bytes
unfolding leb_string
insert_sorted x [] = x ∷ []
insert_sorted x (y ∷ ys) =
    let rest = insert_sorted x ys in if leb_string x y then x ∷ y ∷ ys else y ∷ rest

-- sort.Strings
unfoldable pub sort_strings : List Bytes → List Bytes
unfolding insert_sorted
sort_strings [] = []
sort_strings (x ∷ xs) = insert_sorted x (sort_strings xs)

-- equalStringSets
unfoldable pub equal_string_sets : List Bytes → List Bytes → Bool
unfolding sort_strings equal_strings
equal_string_sets a b =
    if not (eqb (length a) (length b))
    then false
    else equal_strings (sort_strings a) (sort_strings b)

-- `==` on `ArtifactIdentity`.
abbrev pub equal_artifact : ArtifactIdentity → ArtifactIdentity → Bool
equal_artifact a b = a.id == b.id && a.version == b.version && a.digest == b.digest

-- equalApprovalProviderSelection
abbrev pub equal_selection : ApprovalProviderSelection → ApprovalProviderSelection → Bool
equal_selection a b = a.role == b.role && equal_artifact a.provider b.provider

-- equalOptionalApprovalProviderSelection
abbrev pub equal_runtime :
    Option ApprovalProviderSelection → Option ApprovalProviderSelection → Bool
equal_runtime none none = true
equal_runtime (some a) (some b) = equal_selection a b
equal_runtime _ _ = false

-- equalApprovalBinding
pub equal_binding : ApprovalBinding → ApprovalBinding → Bool
equal_binding a b =
    a.command_digest == b.command_digest
    && a.session_id == b.session_id
    && eqb a.session_revision b.session_revision
    && eqb a.work_item_revision b.work_item_revision
    && eqb a.resource_revision b.resource_revision
    && a.context_version == b.context_version
    && eqb a.policy_revision b.policy_revision
    && equal_selection a.environment b.environment
    && equal_runtime a.runtime b.runtime
    && equal_selection a.harness b.harness
    && a.gateway_id == b.gateway_id
    && equal_string_sets a.scopes b.scopes
    && eqb_ℤ a.expires_at.instant b.expires_at.instant
    && a.nonce == b.nonce

-- The checks of `ValidateApprovalDecision` before the nonce is consumed.
pub check_decision : ApprovalDecision → ApprovalBinding → Time → Check GoError
unfolding equal_binding
check_decision decision expected now = do
  or_else (validate_decision decision) (protocol_error invalid_argument)
  or_else (validate_binding expected) (protocol_error invalid_argument)
  reject_if (not (equal_binding decision.binding expected)) (protocol_error conflict)
  reject_if (not (before now expected.expires_at) || decision.outcome == outcome_expired)
      (protocol_error expired)
  reject_if (after decision.decided_at now || after decision.decided_at expected.expires_at)
      (protocol_error invalid_argument)
  reject_if (not (decision.outcome == outcome_approved)) (protocol_error permission_denied)

-- A `NonceConsumer` of the caller: a state, and the method `Consume`.
abbrev pub Consume : Type 0 → Type 0
Consume Nonces = Nonces → Bytes → Nonces × Bool

-- ValidateApprovalDecision, with a consumer that is not nil.
unfoldable pub validate_approval_decision :
    {Nonces : Type 0}
    → Consume Nonces
    → Nonces
    → ApprovalDecision
    → ApprovalBinding
    → Time
    → Nonces × Check GoError
validate_approval_decision consume nonces decision expected now =
    elim (check_decision decision expected now) [
      | err e ↦ (nonces, err e)
      | ok _ ↦
          let (after_use, fresh) = consume nonces expected.nonce in
          (after_use, reject_if (not fresh) (protocol_error replay))
    ]
