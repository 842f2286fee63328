-- ===== src/Protocol/Manifest/Samples.antt =====
-- An offer of a gateway, and the answer of a provider of sessions.
use mission_control_edge.Common.{◌≡◌, refl, some, true, false, [], ◌∷◌, bytes, ok, none}
use mission_control_edge.Protocol.Text.{validate_id, validate_text, validate_token, utf8_valid}
use mission_control_edge.Protocol.Identity.{role_session_runtime, validate_role}
use mission_control_edge.Protocol.Signed.{
  protocol_version, validate_protocol, validate_version, validate_unique_strings,
}
use mission_control_edge.Protocol.Capability.{observes}
use mission_control_edge.Protocol.Capability.Catalog.{
  capability, valid_capability_name, validate_descriptor,
}
use mission_control_edge.Protocol.Content.{null, JsonLibrary, other, reject_reserved_extensions}
use mission_control_edge.Protocol.Distinct.{holds, distinct_from}
use mission_control_edge.Protocol.Manifest.{
  Platform, ProviderManifest, validate_platform, validate_concern, validate_executable, has_dots,
  validate_local_schema_ref, extension_pattern, extensions_size, validate_extensions,
  validate_token_set, equal_capability_definition, validate_provided, validate_roles,
  validate_manifest_capabilities, validate_manifest, supports,
}
use mission_control_edge.Protocol.Manifest.Negotiation.{
  ProviderInitializeRequest, ProviderInitializeResult, validate_versions, validate_sizes,
  validate_request, validate_result, validate_provider_negotiation,
}
use mission_control_edge.Protocol.Manifest.Compatible.{
  Compatible, validate_provider_negotiation-Compatible,
}

abbrev pub platform : Platform
platform = record { os = bytes "linux"; architecture = bytes "amd64" }

abbrev pub manifest : ProviderManifest
manifest = record {
  version_of_protocol = protocol_version;
  id = bytes "p1";
  roles = role_session_runtime ∷ [];
  name = bytes "Panes";
  version = bytes "1.0";
  executable = bytes "panes";
  platforms = platform ∷ [];
  capabilities =
      observes "pane.get" role_session_runtime ∷ observes "pane.list" role_session_runtime ∷ [];
  interaction_modes = bytes "terminal" ∷ [];
  permissions = [];
  configuration_schema = bytes "schema/panes.json";
  extensions = [];
}

abbrev pub request : ProviderInitializeRequest
request = record {
  supported_protocol_versions = bytes "v0" ∷ protocol_version ∷ [];
  gateway_version = bytes "2.1";
  platform = platform;
  required_capabilities = bytes "pane.list" ∷ [];
  maximum_message_bytes = 65536;
  maximum_chunk_bytes = 4096;
  replay_supported = true;
  authentication_modes = bytes "none" ∷ [];
  experimental_features = [];
}

abbrev result : ProviderInitializeResult
result = record {
  version = protocol_version;
  manifest = manifest;
  native_runtime_version = [];
  maximum_message_bytes = 65536;
  maximum_chunk_bytes = 2048;
  replay_supported = false;
  authentication_mode = bytes "none";
  experimental_features = [];
}

abbrev pub library : JsonLibrary
library = record {
  scan = λ content. record { tokens = other ∷ []; clean = true };
  decode = λ content. some null;
  valid = λ content. true;
  fields = λ content. none;
  string = λ content. none;
}

accepted : validate_provider_negotiation library request result ≡ ok tt
unfolding validate_provider_negotiation validate_request validate_result validate_manifest
    validate_versions validate_sizes validate_platform validate_concern validate_executable has_dots
    validate_local_schema_ref extensions_size validate_extensions validate_token_set
    equal_capability_definition validate_provided validate_roles validate_manifest_capabilities
    supports holds distinct_from validate_id validate_text validate_token utf8_valid validate_role
    validate_protocol validate_version validate_unique_strings capability valid_capability_name
    validate_descriptor reject_reserved_extensions
accepted = refl

validate_provider_negotiation-Compatible_example : Compatible request result
validate_provider_negotiation-Compatible_example =
    validate_provider_negotiation-Compatible library request result accepted

extension_keys :
    (extension_pattern (bytes "dev.example/name") ≡ true)
    × (extension_pattern (bytes "example/name") ≡ false)
unfolding extension_pattern
extension_keys = (refl, refl)
