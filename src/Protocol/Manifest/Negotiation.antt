-- ===== src/Protocol/Manifest/Negotiation.antt =====
-- protocol/manifest.go, lines 142 to 283: the offer of the gateway, the answer of the provider, and
-- ValidateProviderNegotiation; and lines 305 to 350, the answer about capabilities.
use mission_control_edge.Common.{
  ℕ, Bool, ◌&&◌, ◌||◌, not, List, [], ◌∷◌, ltb, eqb, length, all_of, is_empty, bytes_eq, Bytes, ok,
  Check, ◌>>◌, reject_if, or_else,
}
use mission_control_edge.Protocol.Error.{GoError, plain}
use mission_control_edge.Protocol.Text.{validate_id, validate_token}
use mission_control_edge.Protocol.Signed.{
  validate_protocol, validate_version, validate_unique_strings,
}
use mission_control_edge.Protocol.Capability.{CapabilityDescriptor}
use mission_control_edge.Protocol.Capability.Catalog.{valid_capability_name}
use mission_control_edge.Protocol.Content.{JsonLibrary}
use mission_control_edge.Protocol.Distinct.{holds, distinct_from}
use mission_control_edge.Protocol.Terminal.{max_message_bytes, max_terminal_chunk_bytes}
use mission_control_edge.Protocol.Manifest.{
  Platform, platform_eq, ProviderManifest, validate_platform, validate_manifest, validate_token_set,
  validate_roles, validate_manifest_capabilities, supports,
}

pub record ProviderInitializeRequest : Type 0 where
  pub supported_protocol_versions : List Bytes
  pub gateway_version : Bytes
  pub platform : Platform
  pub required_capabilities : List Bytes
  pub maximum_message_bytes : ℕ
  pub maximum_chunk_bytes : ℕ
  pub replay_supported : Bool
  pub authentication_modes : List Bytes
  pub experimental_features : List Bytes

-- The loop over the versions of the protocol.
unfoldable pub validate_versions : List Bytes → Check GoError
validate_versions [] = ok tt
validate_versions (v ∷ rest) = do validate_version v; validate_versions rest

-- The tests of the two sizes, which the offer and the answer both make.
unfoldable pub validate_sizes : ℕ → ℕ → Check GoError
validate_sizes message chunk = do
  reject_if (eqb message 0 || ltb max_message_bytes message)
      (plain "maximum message size is invalid")
  reject_if (eqb chunk 0 || ltb max_terminal_chunk_bytes chunk)
      (plain "maximum chunk size is invalid")
  reject_if (ltb message chunk) (plain "maximum chunk size exceeds the message size")

abbrev pub check_required : Bytes → Check GoError
check_required name =
    reject_if (not (valid_capability_name name)) (plain "required capability is invalid")

-- The method `Validate` of `ProviderInitializeRequest`.
unfoldable pub validate_request : ProviderInitializeRequest → Check GoError
unfolding validate_versions validate_sizes
validate_request r = do
  reject_if (is_empty r.supported_protocol_versions || ltb 8 (length r.supported_protocol_versions))
      (plain "supported protocol versions are invalid")
  validate_unique_strings r.supported_protocol_versions
  validate_versions r.supported_protocol_versions
  validate_version r.gateway_version
  validate_platform r.platform
  reject_if (ltb 256 (length r.required_capabilities)) (plain "too many required capabilities")
  distinct_from (λ c. c) check_required "required capability is duplicated" []
      r.required_capabilities
  validate_sizes r.maximum_message_bytes r.maximum_chunk_bytes
  reject_if (is_empty r.authentication_modes) (plain "authentication modes are required")
  validate_token_set 16 r.authentication_modes
  validate_token_set 64 r.experimental_features

pub record ProviderInitializeResult : Type 0 where
  pub version : Bytes
  pub manifest : ProviderManifest
  pub native_runtime_version : Bytes
  pub maximum_message_bytes : ℕ
  pub maximum_chunk_bytes : ℕ
  pub replay_supported : Bool
  pub authentication_mode : Bytes
  pub experimental_features : List Bytes

-- An optional version: the empty text stands for none.
abbrev pub validate_native_version : Bytes → Check GoError
validate_native_version [] = ok tt
validate_native_version (b ∷ bs) = validate_version (b ∷ bs)

-- The method `Validate` of `ProviderInitializeResult`.
unfoldable pub validate_result : JsonLibrary → ProviderInitializeResult → Check GoError
unfolding validate_sizes
validate_result library r = do
  validate_protocol r.version
  validate_manifest library r.manifest
  validate_native_version r.native_runtime_version
  validate_sizes r.maximum_message_bytes r.maximum_chunk_bytes
  validate_token r.authentication_mode
  validate_token_set 64 r.experimental_features

-- The loop over the required capabilities.
abbrev pub supports_all : ProviderManifest → List Bytes → Bool
supports_all m = all_of (supports m)

-- ValidateProviderNegotiation
unfoldable pub validate_provider_negotiation :
    JsonLibrary → ProviderInitializeRequest → ProviderInitializeResult → Check GoError
validate_provider_negotiation library request result = do
  or_else (validate_request request) (plain "provider initialization request is invalid")
  or_else (validate_result library result) (plain "provider initialization result is invalid")
  reject_if (not (holds request.supported_protocol_versions result.version))
      (plain "provider selected an unsupported protocol version")
  reject_if (not (holds result.manifest.platforms request.platform))
      (plain "provider does not support the gateway platform")
  reject_if (not (supports_all result.manifest request.required_capabilities))
      (plain "provider does not support a required capability")
  reject_if
      (ltb request.maximum_message_bytes result.maximum_message_bytes
        || ltb request.maximum_chunk_bytes result.maximum_chunk_bytes)
      (plain "provider selected a limit above the gateway offer")
  reject_if (result.replay_supported && not request.replay_supported)
      (plain "provider selected unsupported replay behavior")
  reject_if (not (holds request.authentication_modes result.authentication_mode))
      (plain "provider selected an unsupported authentication mode")
  reject_if (not (all_of (holds request.experimental_features) result.experimental_features))
      (plain "provider selected an unoffered experimental feature")

pub record ProviderCapabilitiesResult : Type 0 where
  pub provider_id : Bytes
  pub roles : List Bytes
  pub capabilities : List CapabilityDescriptor

-- The method `Validate` of `ProviderCapabilitiesResult`.
unfoldable pub validate_capabilities_result : ProviderCapabilitiesResult → Check GoError
validate_capabilities_result r = do
  validate_id r.provider_id
  validate_roles r.roles
  validate_manifest_capabilities "provider capabilities are required" r.roles r.capabilities
