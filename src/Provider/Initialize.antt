-- ===== src/Provider/Initialize.antt =====
-- provider/server.go, lines 433 to 491, 669 to 757, 1046 to 1053, 1083 to 1090 and 1123 to 1143: the
-- server's answer to the offer of a gateway, and the state of a connection that it sets.
pub mod Agreed
mod Samples
use mission_control_edge.Common.{
  ℕ, min, Bool, true, false, ◌&&◌, ◌||◌, not, Option, none, some, List, [], ◌∷◌, ltb, eqb, all_of,
  map, if◌then◌else◌, ◌==◌, bytes_eq, Bytes, bytes, Outcome, ok, err, Check, ◌>>=◌, ◌>>◌, reject_if,
  or_else, is_ok,
}
use mission_control_edge.Protocol.Error.{
  Error, GoError, not_supported_error, structured, invalid_argument, unauthenticated, conflict,
  bare, not_supported,
}
use mission_control_edge.Protocol.Error.Validity.{validate_error}
use mission_control_edge.Protocol.Signed.{protocol_version}
use mission_control_edge.Protocol.Distinct.{holds}
use mission_control_edge.Protocol.Approval.{sort_strings}
use mission_control_edge.Protocol.Capability.{CapabilityDescriptor}
use mission_control_edge.Protocol.Content.{JsonLibrary}
use mission_control_edge.Protocol.Terminal.{max_terminal_chunk_bytes}
use mission_control_edge.Protocol.Manifest.{ProviderManifest, supports}
use mission_control_edge.Protocol.Manifest.Negotiation.{
  ProviderInitializeRequest, ProviderInitializeResult, validate_request,
  validate_provider_negotiation,
}
use mission_control_edge.Provider.RpcError.{sdk_error}

-- What the server is configured with, as far as the negotiation reads it.
pub record ServerConfig : Type 0 where
  pub manifest : ProviderManifest
  pub native_runtime_version : Bytes
  pub authentication_modes : List Bytes
  pub experimental_features : List Bytes
  pub replay_supported : Bool
  pub max_envelope_bytes : ℕ

-- manifestCapabilities
unfoldable pub manifest_capabilities : ProviderManifest → List Bytes
manifest_capabilities m = sort_strings (map (λ (c : CapabilityDescriptor). c.name) m.capabilities)

-- The structured error of `protocol.NotSupported`.
abbrev pub unsupported : Bytes → List Bytes → Error
unsupported capability advertised = record {
  code = not_supported;
  message = "required capability is not supported";
  required_capability = capability;
  advertised_capabilities = advertised;
}

-- The function `notSupported` of the server.
unfoldable pub server_not_supported : Bytes → List Bytes → GoError
server_not_supported capability advertised =
    if is_ok (validate_error (unsupported capability advertised))
    then structured (unsupported capability advertised)
    else sdk_error invalid_argument

-- The loop over the required capabilities.
unfoldable pub require_all : ProviderManifest → List Bytes → List Bytes → Check GoError
unfolding server_not_supported
require_all m advertised [] = ok tt
require_all m advertised (required ∷ rest) = do
  reject_if (not (supports m required)) (server_not_supported required advertised)
  require_all m advertised rest

-- The first mode of the server that the gateway offers; the empty text if there is none.
unfoldable pub choose_authentication : List Bytes → List Bytes → Bytes
choose_authentication offered [] = []
choose_authentication offered (supported ∷ rest) =
    let later = choose_authentication offered rest in
    if holds offered supported then supported else later

-- The features of the server that the gateway offers.
unfoldable pub choose_features : List Bytes → List Bytes → List Bytes
choose_features offered [] = []
choose_features offered (feature ∷ rest) =
    let later = choose_features offered rest in
    if holds offered feature then feature ∷ later else later

-- Two encodings, equal if both are there.
abbrev pub same_encoding : Option Bytes → Option Bytes → Bool
same_encoding (some a) (some b) = a == b
same_encoding _ _ = false

-- validateCustomNegotiation, with the JSON encoder of manifests.
unfoldable pub validate_custom_negotiation :
    (ProviderManifest → Option Bytes) → ServerConfig → ProviderInitializeResult → Check GoError
validate_custom_negotiation marshal config result = do
  reject_if (not (same_encoding (marshal result.manifest) (marshal config.manifest)))
      (sdk_error conflict)
  reject_if
      (ltb config.max_envelope_bytes result.maximum_message_bytes
        || ltb max_terminal_chunk_bytes result.maximum_chunk_bytes)
      (sdk_error invalid_argument)
  reject_if (not (holds config.authentication_modes result.authentication_mode))
      (sdk_error unauthenticated)
  reject_if (result.replay_supported && not config.replay_supported) (sdk_error invalid_argument)
  reject_if (not (all_of (holds config.experimental_features) result.experimental_features))
      (sdk_error invalid_argument)

-- The answer that the server makes itself, with the mode it has chosen.
unfoldable pub built_in_result :
    ServerConfig → ProviderInitializeRequest → Bytes → ProviderInitializeResult
unfolding choose_features
built_in_result config request mode = record {
  version = protocol_version;
  manifest = config.manifest;
  native_runtime_version = config.native_runtime_version;
  maximum_message_bytes = min request.maximum_message_bytes config.max_envelope_bytes;
  maximum_chunk_bytes =
      min request.maximum_chunk_bytes (
        min max_terminal_chunk_bytes (min request.maximum_message_bytes config.max_envelope_bytes));
  replay_supported = request.replay_supported && config.replay_supported;
  authentication_mode = mode;
  experimental_features =
      choose_features request.experimental_features config.experimental_features;
}

-- What the caller brings: the JSON library, the encoder of manifests, and what the dispatch to the
-- caller's own handler ends with, if it has one.
pub record Initializer : Type 0 where
  pub library : JsonLibrary
  pub marshal : ProviderManifest → Option Bytes
  pub custom : Option (Outcome GoError ProviderInitializeResult)

-- The end of `initialize` when the caller has a handler of its own.
unfoldable pub finish_custom :
    Initializer
    → ServerConfig
    → ProviderInitializeRequest
    → Outcome GoError ProviderInitializeResult
    → Outcome GoError ProviderInitializeResult
unfolding validate_custom_negotiation
finish_custom i config request dispatched = do
  result ← dispatched
  or_else (validate_provider_negotiation i.library request result) (sdk_error invalid_argument)
  validate_custom_negotiation i.marshal config result
  ok result

-- The end of `initialize` when it has none.
unfoldable pub finish_built_in :
    Initializer
    → ServerConfig
    → ProviderInitializeRequest
    → Outcome GoError ProviderInitializeResult
unfolding built_in_result choose_authentication
finish_built_in i config request =
    let mode = choose_authentication request.authentication_modes config.authentication_modes in
    reject_if (mode == []) (sdk_error unauthenticated)
    >> (or_else
          (validate_provider_negotiation i.library request (built_in_result config request mode))
          (sdk_error invalid_argument)
        >> ok (built_in_result config request mode))

unfoldable pub finish_initialize :
    Initializer
    → ServerConfig
    → ProviderInitializeRequest
    → Option (Outcome GoError ProviderInitializeResult)
    → Outcome GoError ProviderInitializeResult
unfolding finish_custom finish_built_in
finish_initialize i config request (some dispatched) = finish_custom i config request dispatched
finish_initialize i config request none = finish_built_in i config request

-- The method `initialize` of `serverConnection`.
unfoldable pub initialize :
    Initializer
    → ServerConfig
    → ProviderInitializeRequest
    → Outcome GoError ProviderInitializeResult
unfolding finish_initialize require_all manifest_capabilities server_not_supported
initialize i config request = do
  or_else (validate_request request) (sdk_error invalid_argument)
  reject_if (not (holds request.supported_protocol_versions protocol_version))
      (server_not_supported (bytes "provider.initialize") (manifest_capabilities config.manifest))
  require_all config.manifest (manifest_capabilities config.manifest) request.required_capabilities
  finish_initialize i config request i.custom

-- The part of a `serverConnection` that an initialization sets; the writer's limit is `maximum`.
pub record Negotiated : Type 0 where
  pub initialized : Bool
  pub initializing : Bool
  pub maximum : ℕ
  pub maximum_chunk : ℕ
  pub replay_supported : Bool

-- The method `beginInitialization`: the state after it, and the answer.
unfoldable pub begin_initialization : Negotiated → Negotiated × Bool
begin_initialization c = if c.initialized || c.initializing then (c, false) else (
  record {
    initialized = c.initialized;
    initializing = true;
    maximum = c.maximum;
    maximum_chunk = c.maximum_chunk;
    replay_supported = c.replay_supported;
  },
  true,
)

-- The method `abortInitialization`.
unfoldable pub abort_initialization : Negotiated → Negotiated
abort_initialization c = record {
  initialized = c.initialized;
  initializing = false;
  maximum = c.maximum;
  maximum_chunk = c.maximum_chunk;
  replay_supported = c.replay_supported;
}

-- The action `prepare` of the answer to an initialization, before it is written.
unfoldable pub prepare_initialization : ServerConfig → ProviderInitializeResult → Negotiated
prepare_initialization config result = record {
  initialized = true;
  initializing = false;
  maximum = min config.max_envelope_bytes result.maximum_message_bytes;
  maximum_chunk = result.maximum_chunk_bytes;
  replay_supported = result.replay_supported;
}

-- The action `rollback`, when the answer could not be written.
unfoldable pub rollback_initialization : ServerConfig → Negotiated
rollback_initialization config = record {
  initialized = false;
  initializing = false;
  maximum = config.max_envelope_bytes;
  maximum_chunk = max_terminal_chunk_bytes;
  replay_supported = false;
}

-- The branch of `execute` for an initialization whose request was decoded: the state of the connection
-- up to the answer, and the answer, whose action sets the state or resets it.
unfoldable pub execute_initialize :
    Initializer
    → ServerConfig
    → Negotiated
    → ProviderInitializeRequest
    → Negotiated × Outcome GoError ProviderInitializeResult
unfolding begin_initialization abort_initialization initialize
execute_initialize i config c request =
    let (begun, admitted) = begin_initialization c in
    let answer = initialize i config request in
    if admitted
    then (if is_ok answer then (begun, answer) else (abort_initialization begun, answer))
    else (begun, err (sdk_error conflict))
