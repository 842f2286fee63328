-- ===== src/Protocol/Capability/Catalog.antt =====
-- The capability catalog of protocol/capability.go, and the functions that look into it.
use mission_control_edge.Common.{
  Bool, true, false, ◌||◌, not, Option, none, some, List, [], ◌∷◌, is_empty, ◌==◌, bytes_eq, Bytes,
  Check, ◌>>◌, reject_if,
}
use mission_control_edge.Protocol.Error.{GoError, plain}
use mission_control_edge.Protocol.Identity.{
  validate_role, role_provider, role_agent_harness, role_session_runtime,
  role_execution_environment,
}
use mission_control_edge.Protocol.Capability.{
  CapabilityDescriptor, observes, changes, provider_idempotent, state_reconciled, at_most_once,
  find_capability, extension_capability_pattern,
}

-- capabilityCatalog
abbrev pub capability_catalog : List CapabilityDescriptor
capability_catalog =
    observes "provider.capabilities" role_provider
    ∷ observes "provider.health" role_provider
    ∷ observes "provider.initialize" role_provider
    ∷ changes "provider.shutdown" role_provider provider_idempotent
    ∷ observes "events.subscribe" role_provider
    ∷ changes "events.unsubscribe" role_provider provider_idempotent
    ∷ observes "command.get_result" role_provider
    ∷ observes "environment.health" role_execution_environment
    ∷ observes "environment.inspect" role_execution_environment
    ∷ changes "environment.mount" role_execution_environment state_reconciled
    ∷ changes "environment.provision" role_execution_environment state_reconciled
    ∷ changes "environment.shutdown" role_execution_environment provider_idempotent
    ∷ observes "runtime.list_sessions" role_session_runtime
    ∷ observes "runtime.get_session" role_session_runtime
    ∷ changes "runtime.create_session" role_session_runtime state_reconciled
    ∷ changes "runtime.stop_session" role_session_runtime provider_idempotent
    ∷ changes "runtime.terminate_session" role_session_runtime at_most_once
    ∷ changes "runtime.attach" role_session_runtime state_reconciled
    ∷ changes "runtime.detach" role_session_runtime provider_idempotent
    ∷ observes "runtime.snapshot" role_session_runtime
    ∷ changes "runtime.checkpoint" role_session_runtime provider_idempotent
    ∷ changes "runtime.restore" role_session_runtime state_reconciled
    ∷ changes "runtime.adopt" role_session_runtime state_reconciled
    ∷ changes "runtime.resume" role_session_runtime state_reconciled
    ∷ changes "runtime.clone" role_session_runtime state_reconciled
    ∷ changes "runtime.fork" role_session_runtime state_reconciled
    ∷ changes "runtime.migrate" role_session_runtime state_reconciled
    ∷ changes "runtime.export" role_session_runtime provider_idempotent
    ∷ changes "runtime.import" role_session_runtime state_reconciled
    ∷ changes "runtime.archive" role_session_runtime provider_idempotent
    ∷ observes "terminal.read" role_session_runtime
    ∷ observes "terminal.subscribe" role_session_runtime
    ∷ changes "terminal.send_input" role_session_runtime at_most_once
    ∷ changes "terminal.send_keys" role_session_runtime at_most_once
    ∷ changes "terminal.resize" role_session_runtime state_reconciled
    ∷ changes "terminal.attach" role_session_runtime state_reconciled
    ∷ changes "terminal.detach" role_session_runtime provider_idempotent
    ∷ observes "workspace.list" role_session_runtime
    ∷ observes "workspace.get" role_session_runtime
    ∷ changes "workspace.create" role_session_runtime state_reconciled
    ∷ changes "workspace.close" role_session_runtime provider_idempotent
    ∷ observes "topology.get" role_session_runtime
    ∷ observes "topology.subscribe" role_session_runtime
    ∷ observes "pane.list" role_session_runtime
    ∷ observes "pane.get" role_session_runtime
    ∷ changes "pane.create" role_session_runtime state_reconciled
    ∷ changes "pane.split" role_session_runtime state_reconciled
    ∷ changes "pane.focus" role_session_runtime state_reconciled
    ∷ changes "pane.resize" role_session_runtime state_reconciled
    ∷ changes "pane.close" role_session_runtime provider_idempotent
    ∷ observes "harness.list" role_agent_harness
    ∷ observes "harness.inspect" role_agent_harness
    ∷ changes "harness.launch" role_agent_harness at_most_once
    ∷ changes "harness.resume" role_agent_harness at_most_once
    ∷ changes "harness.stop" role_agent_harness provider_idempotent
    ∷ changes "agent.send_message" role_agent_harness at_most_once
    ∷ changes "agent.interrupt" role_agent_harness at_most_once
    ∷ changes "agent.cancel" role_agent_harness at_most_once
    ∷ observes "agent.get_state" role_agent_harness
    ∷ observes "agent.get_usage" role_agent_harness
    ∷ observes "agent.get_pending_approvals" role_agent_harness
    ∷ observes "agent.get_tools" role_agent_harness
    ∷ observes "agent.get_native_identity" role_agent_harness
    ∷ changes "context.deliver" role_agent_harness at_most_once
    ∷ observes "context.confirm" role_agent_harness
    ∷ observes "approval.list" role_agent_harness
    ∷ changes "approval.approve" role_agent_harness at_most_once
    ∷ changes "approval.reject" role_agent_harness at_most_once
    ∷ changes "approval.expire" role_agent_harness at_most_once
    ∷ observes "artifact.list" role_agent_harness
    ∷ changes "artifact.register" role_agent_harness provider_idempotent
    ∷ []

-- The function `Capability`.
unfoldable pub capability : Bytes → Option CapabilityDescriptor
unfolding find_capability
capability name = find_capability capability_catalog name

-- validCapabilityName
unfoldable pub valid_capability_name : Bytes → Bool
unfolding capability extension_capability_pattern
valid_capability_name name = elim (capability name) [
  | some known ↦ true
  | none ↦ extension_capability_pattern name
]

-- validDeliveryClass
unfoldable pub valid_delivery_class : Bytes → Bool
valid_delivery_class class =
    class == provider_idempotent || class == state_reconciled || class == at_most_once

-- The delivery class that goes with a mutating capability, and with no other.
abbrev validate_delivery : Bool → Bytes → Check GoError
validate_delivery true class =
    reject_if (not (valid_delivery_class class))
      (plain "mutating capability requires a delivery class")
validate_delivery false class =
    reject_if (not (is_empty class)) (plain "read-only capability cannot declare a delivery class")

-- The method `Validate` of `CapabilityDescriptor`.
unfoldable pub validate_descriptor : CapabilityDescriptor → Check GoError
unfolding valid_delivery_class
validate_descriptor c = do
  reject_if (not (valid_capability_name c.name)) (plain "capability name is invalid")
  validate_role c.role
  validate_delivery c.mutating c.delivery_class
