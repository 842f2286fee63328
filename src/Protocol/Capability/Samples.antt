-- ===== src/Protocol/Capability/Samples.antt =====
-- Names of the catalog and of extensions.
use mission_control_edge.Common.{◌≡◌, refl, true, false, some, bytes, ok}
use mission_control_edge.Protocol.Capability.{extension_capability_pattern, observes}
use mission_control_edge.Protocol.Identity.{role_session_runtime}
use mission_control_edge.Protocol.Capability.Catalog.{
  capability, valid_capability_name, validate_descriptor,
}
use mission_control_edge.Protocol.Capability.Entries.{capability-Valid}

pane_get : capability (bytes "pane.get") ≡ some (observes "pane.get" role_session_runtime)
unfolding capability
pane_get = refl

capability-Valid_example :
    (bytes "pane.get" ≡ bytes "pane.get")
    × (validate_descriptor (observes "pane.get" role_session_runtime) ≡ ok tt)
    × (extension_capability_pattern (bytes "pane.get") ≡ false)
capability-Valid_example = capability-Valid (bytes "pane.get") pane_get

extensions :
    (valid_capability_name (bytes "dev.example/tool.run") ≡ true)
    × (valid_capability_name (bytes "dev/tool.run") ≡ false)
    × (valid_capability_name (bytes "dev.-example/run") ≡ false)
unfolding valid_capability_name
extensions = (refl, refl, refl)
