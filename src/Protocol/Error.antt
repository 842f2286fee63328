-- ===== src/Protocol/Error.antt =====
-- protocol/error.go, lines 9 to 133: the closed set of error codes and the structured error.
-- A Go `error` is a value of `GoError`; what an error wraps is not needed, since `errors.Is` and
-- `errors.As` are asked only of the kinds that have a constructor here.
pub mod Validity
use Prim.Native.String.{String}
use mission_control_edge.Common.{Option, none, some, List, [], Bytes}

-- `ErrorCode` is a Go string: `unlisted` stands for every string but the fourteen constants.
pub data ErrorCode : Type 0 where
  invalid_argument message_too_large not_supported sequence_conflict replay expired : ErrorCode
  unauthenticated permission_denied conflict deadline_exceeded cancelled : ErrorCode
  resource_exhausted unavailable outcome_unknown : ErrorCode
  unlisted : Bytes → ErrorCode

-- canonicalErrorMessages
unfoldable pub canonical_message : ErrorCode → Option String
canonical_message invalid_argument = some "protocol value is invalid"
canonical_message message_too_large = some "protocol message exceeds its limit"
canonical_message not_supported = some "required capability is not supported"
canonical_message sequence_conflict = some "event sequence conflicts with prior content"
canonical_message replay = some "one-use value was already consumed"
canonical_message expired = some "authorization or evidence has expired"
canonical_message unauthenticated = some "protocol identity or signature is not authenticated"
canonical_message permission_denied = some "operation is not authorized"
canonical_message conflict = some "operation conflicts with current state"
canonical_message deadline_exceeded = some "operation deadline was exceeded"
canonical_message cancelled = some "operation was cancelled"
canonical_message resource_exhausted = some "protocol resource limit was exhausted"
canonical_message unavailable = some "provider is unavailable"
canonical_message outcome_unknown = some "operation outcome is unknown"
canonical_message (unlisted name) = none

-- The type `Error`. Capability names are Go strings.
pub record Error : Type 0 where
  pub code : ErrorCode
  pub message : String
  pub required_capability : Bytes
  pub advertised_capabilities : List Bytes

pub data GoError : Type 0 where
  plain : String → GoError
  structured : Error → GoError
  context_canceled context_deadline_exceeded end_of_file closed_pipe short_write : GoError
  disconnected crashed frame_too_large : GoError

-- `Error{Code: code, Message: message}`
abbrev pub bare : ErrorCode → String → Error
bare c m = record { code = c; message = m; required_capability = []; advertised_capabilities = [] }

-- An unlisted code is replaced; the content of the second argument is dropped by the code.
unfoldable pub protocol_error : ErrorCode → GoError
unfolding canonical_message
protocol_error c = elim (canonical_message c) [
  | none ↦ structured (bare invalid_argument "protocol value is invalid")
  | some m ↦ structured (bare c m)
]

-- NotSupported
unfoldable pub not_supported_error : Bytes → List Bytes → GoError
not_supported_error required advertised = structured (record {
  code = not_supported;
  message = "required capability is not supported";
  required_capability = required;
  advertised_capabilities = advertised;
})
