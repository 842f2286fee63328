-- ===== src/Provider/RpcError.antt =====
-- provider/jsonrpc.go: the errors that a peer may see. Any Go error is turned into a structured
-- error with a closed message before it is sent, and is checked when it is received.
pub mod Closed
mod Samples
use Prim.Native.String.{String}
use text.Mathlib.Text.{◌==◌ as ◌same◌}
use mission_control_edge.Common.{
  Bool, true, false, ◌||◌, ◌&&◌, not, Option, none, some, List, [], ◌∷◌, is_empty, Bytes, ok, err,
  Check, Outcome, is_ok, ◌>>=◌, ◌>>◌, reject_if, or_else, if◌then◌else◌,
}
use mission_control_edge.Common.Int.{ℤ, negsuc, eqb_ℤ}
use mission_control_edge.Protocol.Error.{
  ErrorCode, Error, GoError, bare, plain, structured, context_canceled, context_deadline_exceeded,
  invalid_argument, message_too_large, not_supported, sequence_conflict, replay, expired,
  unauthenticated, permission_denied, conflict, deadline_exceeded, cancelled, resource_exhausted,
  unavailable, outcome_unknown, unlisted,
}
use mission_control_edge.Protocol.Error.Validity.{validate_error}

-- -32601, -32602 and -32000
abbrev pub rpc_code_method_not_found : ℤ
rpc_code_method_not_found = negsuc 32600

abbrev pub rpc_code_invalid_params : ℤ
rpc_code_invalid_params = negsuc 32601

abbrev pub rpc_code_server_error : ℤ
rpc_code_server_error = negsuc 31999

pub record RpcError : Type 0 where
  pub code : ℤ
  pub message : String
  pub error_data : Error

-- canonicalProtocolMessage
pub canonical_protocol_message : ErrorCode → String
canonical_protocol_message invalid_argument = "protocol value is invalid"
canonical_protocol_message message_too_large = "protocol message exceeds its limit"
canonical_protocol_message not_supported = "required capability is not supported"
canonical_protocol_message sequence_conflict = "event sequence conflicts with prior content"
canonical_protocol_message replay = "one-use value was already consumed"
canonical_protocol_message expired = "authorization or evidence has expired"
canonical_protocol_message unauthenticated = "protocol identity or signature is not authenticated"
canonical_protocol_message permission_denied = "operation is not authorized"
canonical_protocol_message conflict = "operation conflicts with current state"
canonical_protocol_message deadline_exceeded = "operation deadline was exceeded"
canonical_protocol_message cancelled = "operation was cancelled"
canonical_protocol_message resource_exhausted = "protocol resource limit was exhausted"
canonical_protocol_message unavailable = "provider is unavailable"
canonical_protocol_message outcome_unknown = "operation outcome is unknown"
canonical_protocol_message (unlisted name) = ""

-- `if code == protocol.CodeNotSupported { code = protocol.CodeInvalidArgument }`
not_bare : ErrorCode → ErrorCode
not_bare not_supported = invalid_argument
not_bare code = code

-- newProtocolError
unfoldable pub new_protocol_error : ErrorCode → Error
unfolding canonical_protocol_message not_bare
new_protocol_error code =
    let kept = not_bare code in
    if canonical_protocol_message kept same ""
    then bare invalid_argument (canonical_protocol_message invalid_argument)
    else bare kept (canonical_protocol_message kept)

-- `newProtocolError` as a Go error.
unfoldable pub sdk_error : ErrorCode → GoError
unfolding new_protocol_error
sdk_error code = structured (new_protocol_error code)

-- errorCode
unfoldable pub error_code : GoError → ErrorCode
error_code (structured e) = if is_ok (validate_error e) then e.code else unavailable
error_code context_canceled = cancelled
error_code context_deadline_exceeded = deadline_exceeded
error_code _ = unavailable

-- `structured.Code == protocol.CodeNotSupported && len(structured.AdvertisedCapabilities) == 0`
offers_nothing : ErrorCode → List Bytes → Bool
offers_nothing not_supported advertised = is_empty advertised
offers_nothing _ advertised = false

-- normalizeProtocolError
unfoldable pub normalize_protocol_error : GoError → Error
unfolding offers_nothing error_code
normalize_protocol_error (structured e) =
    if is_ok (validate_error e)
    then (if offers_nothing e.code e.advertised_capabilities
        then new_protocol_error invalid_argument
        else e)
    else new_protocol_error invalid_argument
normalize_protocol_error e = new_protocol_error (error_code e)

-- The switch in `rpcErrorFrom`: the number that is sent with a code.
unfoldable pub sent_rpc_code : ErrorCode → ℤ
sent_rpc_code invalid_argument = rpc_code_invalid_params
sent_rpc_code message_too_large = rpc_code_invalid_params
sent_rpc_code not_supported = rpc_code_method_not_found
sent_rpc_code _ = rpc_code_server_error

-- rpcErrorFrom
pub rpc_error_from : GoError → RpcError
unfolding sent_rpc_code
rpc_error_from e =
    let value = normalize_protocol_error e in
    record { code = sent_rpc_code value.code; message = value.message; error_data = value }

-- The method `protocolError` of `rpcError`, of a pointer that is not nil.
pub protocol_error_of : RpcError → GoError
protocol_error_of e = structured e.error_data

-- The switch in `validate`: the number that a receiver expects with a code.
unfoldable pub expected_rpc_code : ErrorCode → ℤ
expected_rpc_code invalid_argument = rpc_code_invalid_params
expected_rpc_code message_too_large = rpc_code_invalid_params
expected_rpc_code not_supported = rpc_code_method_not_found
expected_rpc_code _ = rpc_code_server_error

-- The method `validate` of `rpcError`.
pub validate_rpc_error : RpcError → Check GoError
unfolding expected_rpc_code
validate_rpc_error e = do
  or_else (validate_error e.error_data) (plain "JSON-RPC error data is invalid")
  reject_if (not (e.message same e.error_data.message))
      (plain "JSON-RPC error message is not canonical")
  reject_if (not (eqb_ℤ e.code (expected_rpc_code e.error_data.code)))
      (plain "JSON-RPC error code is invalid")
