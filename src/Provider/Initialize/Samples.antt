-- ===== src/Provider/Initialize/Samples.antt =====
-- The offer of the samples of the manifest, answered by a server that has no handler of its own.
use mission_control_edge.Common.{◌≡◌, refl, ◌≤◌, none, false, ◌||◌, [], ◌∷◌, bytes, ok}
use mission_control_edge.Protocol.Text.{validate_id, validate_text, validate_token, utf8_valid}
use mission_control_edge.Protocol.Identity.{validate_role}
use mission_control_edge.Protocol.Signed.{
  protocol_version, validate_protocol, validate_version, validate_unique_strings,
}
use mission_control_edge.Protocol.Capability.Catalog.{
  capability, valid_capability_name, validate_descriptor,
}
use mission_control_edge.Protocol.Content.{reject_reserved_extensions}
use mission_control_edge.Protocol.Distinct.{holds, distinct_from}
use mission_control_edge.Protocol.Manifest.{
  validate_platform, validate_concern, validate_executable, has_dots, validate_local_schema_ref,
  extensions_size, validate_extensions, validate_token_set, equal_capability_definition,
  validate_provided, validate_roles, validate_manifest_capabilities, validate_manifest, supports,
}
use mission_control_edge.Protocol.Manifest.Negotiation.{
  ProviderInitializeResult, validate_versions, validate_sizes, validate_request, validate_result,
  validate_provider_negotiation,
}
use mission_control_edge.Protocol.Manifest.Compatible.{Compatible}
use mission_control_edge.Protocol.Manifest.Samples.{manifest, request, library}
use mission_control_edge.Provider.Initialize.{
  ServerConfig, Initializer, require_all, choose_authentication, choose_features, built_in_result,
  finish_built_in, finish_initialize, initialize, Negotiated, begin_initialization,
  prepare_initialization, execute_initialize,
}
use mission_control_edge.Provider.Initialize.Agreed.{Within, execute_initialize-Agreed}

abbrev config : ServerConfig
config = record {
  manifest = manifest;
  native_runtime_version = bytes "7";
  authentication_modes = bytes "token" ∷ bytes "none" ∷ [];
  experimental_features = [];
  replay_supported = false;
  max_envelope_bytes = 32768;
}

abbrev plain_server : Initializer
plain_server = record { library = library; marshal = λ m. none; custom = none }

abbrev fresh : Negotiated
fresh = record {
  initialized = false;
  initializing = false;
  maximum = 32768;
  maximum_chunk = 262144;
  replay_supported = false;
}

abbrev answer : ProviderInitializeResult
answer = record {
  version = protocol_version;
  manifest = manifest;
  native_runtime_version = bytes "7";
  maximum_message_bytes = 32768;
  maximum_chunk_bytes = 4096;
  replay_supported = false;
  authentication_mode = bytes "none";
  experimental_features = [];
}

answered : (execute_initialize plain_server config fresh request).1 ≡ ok answer
unfolding execute_initialize begin_initialization initialize finish_initialize finish_built_in
    built_in_result choose_authentication choose_features require_all validate_provider_negotiation
    validate_request validate_result validate_manifest validate_versions validate_sizes
    validate_platform validate_concern validate_executable has_dots validate_local_schema_ref
    extensions_size validate_extensions validate_token_set equal_capability_definition
    validate_provided validate_roles validate_manifest_capabilities supports holds distinct_from
    validate_id validate_text validate_token utf8_valid validate_role validate_protocol
    validate_version validate_unique_strings capability valid_capability_name validate_descriptor
    reject_reserved_extensions
answered = refl

execute_initialize-Agreed_example :
    ((fresh.initialized || fresh.initializing) ≡ false)
    × (validate_provider_negotiation library request answer ≡ ok tt)
    × Compatible request answer
    × Within plain_server config answer
    × ((prepare_initialization config answer).maximum ≤ config.max_envelope_bytes)
    × ((prepare_initialization config answer).maximum ≤ request.maximum_message_bytes)
    × ((prepare_initialization config answer).maximum_chunk ≤ request.maximum_chunk_bytes)
execute_initialize-Agreed_example =
    execute_initialize-Agreed plain_server config fresh request answer answered
