-- ===== src/Provider/RpcError/Closed.antt =====
-- Every error that is sent is valid, and the peer reads back what was sent.
use text.Mathlib.TextPositions.{eq_refl}
use mission_control_edge.Common.{
  ◌≡◌, refl, inl, inr, true, false, ok, is_ok, Bool-cases, is_ok-eq-ok,
}
use mission_control_edge.Common.Int.{eqb_ℤ}
use mission_control_edge.Protocol.Error.{
  ErrorCode, Error, GoError, plain, structured, context_canceled, context_deadline_exceeded,
  end_of_file, closed_pipe, short_write, disconnected, crashed, frame_too_large, invalid_argument,
  message_too_large, not_supported, sequence_conflict, replay, expired, unauthenticated,
  permission_denied, conflict, deadline_exceeded, cancelled, resource_exhausted, unavailable,
  outcome_unknown, unlisted,
}
use mission_control_edge.Protocol.Error.Validity.{validate_error}
use mission_control_edge.Provider.RpcError.{
  new_protocol_error, normalize_protocol_error, rpc_error_from, protocol_error_of,
  validate_rpc_error, offers_nothing, sent_rpc_code, expected_rpc_code,
}

-- An error that is normalized once is sent as it is.
abbrev Settled : Error → Type 0
Settled v =
    (is_ok (validate_error v) ≡ true) × (offers_nothing v.code v.advertised_capabilities ≡ false)

normalize_of_Settled : (v : Error) → Settled v → normalize_protocol_error (structured v) ≡ v
unfolding normalize_protocol_error
normalize_of_Settled v s = rw (s.0, s.1) refl

new_protocol_error-Settled : (c : ErrorCode) → Settled (new_protocol_error c)
unfolding validate_error new_protocol_error offers_nothing
new_protocol_error-Settled invalid_argument = (refl, refl)
new_protocol_error-Settled message_too_large = (refl, refl)
new_protocol_error-Settled not_supported = (refl, refl)
new_protocol_error-Settled sequence_conflict = (refl, refl)
new_protocol_error-Settled replay = (refl, refl)
new_protocol_error-Settled expired = (refl, refl)
new_protocol_error-Settled unauthenticated = (refl, refl)
new_protocol_error-Settled permission_denied = (refl, refl)
new_protocol_error-Settled conflict = (refl, refl)
new_protocol_error-Settled deadline_exceeded = (refl, refl)
new_protocol_error-Settled cancelled = (refl, refl)
new_protocol_error-Settled resource_exhausted = (refl, refl)
new_protocol_error-Settled unavailable = (refl, refl)
new_protocol_error-Settled outcome_unknown = (refl, refl)
new_protocol_error-Settled (unlisted name) = (refl, refl)

normalize-Settled : (e : GoError) → Settled (normalize_protocol_error e)
unfolding normalize_protocol_error
normalize-Settled (structured e) = elim (Bool-cases (is_ok (validate_error e))) [
  | inl v ↦ elim (Bool-cases (offers_nothing e.code e.advertised_capabilities)) [
    | inl o ↦ rw (v, o) (new_protocol_error-Settled invalid_argument)
    | inr o ↦ rw (v, o) (v, o)
  ]
  | inr v ↦ rw v (new_protocol_error-Settled invalid_argument)
]
normalize-Settled (plain m) = new_protocol_error-Settled _
normalize-Settled context_canceled = new_protocol_error-Settled _
normalize-Settled context_deadline_exceeded = new_protocol_error-Settled _
normalize-Settled end_of_file = new_protocol_error-Settled _
normalize-Settled closed_pipe = new_protocol_error-Settled _
normalize-Settled short_write = new_protocol_error-Settled _
normalize-Settled disconnected = new_protocol_error-Settled _
normalize-Settled crashed = new_protocol_error-Settled _
normalize-Settled frame_too_large = new_protocol_error-Settled _

-- The switch of the sender and the one of the receiver agree.
sent_code_expected : (c : ErrorCode) → eqb_ℤ (sent_rpc_code c) (expected_rpc_code c) ≡ true
unfolding sent_rpc_code expected_rpc_code
sent_code_expected invalid_argument = refl
sent_code_expected message_too_large = refl
sent_code_expected not_supported = refl
sent_code_expected sequence_conflict = refl
sent_code_expected replay = refl
sent_code_expected expired = refl
sent_code_expected unauthenticated = refl
sent_code_expected permission_denied = refl
sent_code_expected conflict = refl
sent_code_expected deadline_exceeded = refl
sent_code_expected cancelled = refl
sent_code_expected resource_exhausted = refl
sent_code_expected unavailable = refl
sent_code_expected outcome_unknown = refl
sent_code_expected (unlisted name) = refl

-- Whatever the Go error is, the JSON-RPC error built from it passes the checks of the peer: a closed
-- message that belongs to the code, the number that the peer expects with the code, and valid
-- capability names.
pub rpc_error_from-Valid : (e : GoError) → validate_rpc_error (rpc_error_from e) ≡ ok tt
unfolding rpc_error_from validate_rpc_error
rpc_error_from-Valid e =
    rw (is_ok-eq-ok _ (normalize-Settled e).0, eq_refl, sent_code_expected) refl

-- The error that the peer rebuilds is the normalized error, and normalizing it again keeps it: an
-- error that passes on through several providers does not change.
pub normalize_protocol_error-protocol_error_of :
    (e : GoError)
    → normalize_protocol_error (protocol_error_of (rpc_error_from e)) ≡ normalize_protocol_error e
unfolding rpc_error_from protocol_error_of
normalize_protocol_error-protocol_error_of e =
    normalize_of_Settled (normalize_protocol_error e) (normalize-Settled e)
