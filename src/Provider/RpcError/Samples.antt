-- ===== src/Provider/RpcError/Samples.antt =====
-- Errors on their way to a peer.
use mission_control_edge.Common.{◌≡◌, refl, [], ◌∷◌, bytes, ok}
use mission_control_edge.Protocol.Error.{
  bare, plain, context_canceled, unavailable, not_supported_error,
}
use mission_control_edge.Provider.RpcError.{
  normalize_protocol_error, new_protocol_error, rpc_error_from, protocol_error_of,
  validate_rpc_error,
}
use mission_control_edge.Provider.RpcError.Closed.{
  rpc_error_from-Valid, normalize_protocol_error-protocol_error_of,
}

-- A native message does not reach the peer.
hidden :
    normalize_protocol_error (plain "token abc in /home/user")
    ≡ bare unavailable "provider is unavailable"
unfolding normalize_protocol_error new_protocol_error
hidden = refl

rpc_error_from-Valid_example :
    validate_rpc_error
      (rpc_error_from (not_supported_error (bytes "pane.get") (bytes "pane.list" ∷ [])))
    ≡ ok tt
rpc_error_from-Valid_example =
    rpc_error_from-Valid (not_supported_error (bytes "pane.get") (bytes "pane.list" ∷ []))

normalize_protocol_error-protocol_error_of_example :
    normalize_protocol_error (protocol_error_of (rpc_error_from context_canceled))
    ≡ normalize_protocol_error context_canceled
normalize_protocol_error-protocol_error_of_example =
    normalize_protocol_error-protocol_error_of context_canceled
