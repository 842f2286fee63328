-- ===== src/Provider/Admission/Prepare.antt =====
-- provider/subscription.go, lines 118 to 181 and 305 to 331: the answer to a subscription, and the
-- messages that name one.
use mission_control_edge.Common.{
  ℕ, Bool, true, false, ◌&&◌, not, none, some, List, [], ◌∷◌, eqb, length, bytes_eq, nat_eq, Bytes,
  Outcome, ok, err, Check, ◌>>=◌, ◌>>◌, reject_if, or_else,
}
use mission_control_edge.Common.Assoc.{Assoc, lookup, insert}
use mission_control_edge.Protocol.Error.{GoError, invalid_argument, conflict}
use mission_control_edge.Protocol.Identity.{validate_native_id}
use mission_control_edge.Protocol.Terminal.{TerminalChunk}
use mission_control_edge.Provider.RpcError.{sdk_error}
use mission_control_edge.Provider.Flow.{validate_chunk_limit}
use mission_control_edge.Provider.Admission.{
  SubscriptionAdmission, ServerConnection, update, cleanup, is_some,
}

-- What a handler answers to a subscription: what it replays and the identifier of its result.
pub data Subscription : Type 0 where
  event_subscription topology_subscription : ℕ → Bytes → Subscription
  terminal_subscription : List TerminalChunk → Bytes → Subscription
  another_value : Subscription

-- The loop over the replayed chunks.
unfoldable pub check_chunks : ℕ → List TerminalChunk → Check GoError
check_chunks maximum [] = ok tt
check_chunks maximum (chunk ∷ rest) = do
  validate_chunk_limit chunk maximum
  check_chunks maximum rest

-- `len(typed.Replay) > 0 && !a.connection.canReplay()`
abbrev pub check_replay : Bool → ℕ → Check GoError
check_replay allowed replayed =
    reject_if (not (eqb replayed 0) && not allowed) (sdk_error invalid_argument)

-- The switch of `prepare`: the identifier of the subscription.
unfoldable pub subscription_id_of :
    ServerConnection → SubscriptionAdmission → Subscription → Outcome GoError Bytes
unfolding check_chunks
subscription_id_of c a (event_subscription replayed id) =
    check_replay c.replay_supported replayed >> ok id
subscription_id_of c a (topology_subscription replayed id) =
    check_replay c.replay_supported replayed >> ok id
subscription_id_of c a (terminal_subscription chunks id) = do
  reject_if (not (is_some a.terminal)) (sdk_error invalid_argument)
  check_replay c.replay_supported (length chunks)
  check_chunks c.maximum_chunk chunks
  ok id
subscription_id_of c a another_value = err (sdk_error invalid_argument)

-- The checks of `prepare`, up to the one on duplicates.
unfoldable pub check_prepare :
    ServerConnection → SubscriptionAdmission → Subscription → Outcome GoError Bytes
unfolding subscription_id_of
check_prepare c a value = do
  id ← subscription_id_of c a value
  or_else (validate_native_id id) (sdk_error invalid_argument)
  reject_if (is_some (lookup id c.subscription_cancels)) (sdk_error conflict)
  ok id

abbrev pub named : Bytes → SubscriptionAdmission → SubscriptionAdmission
named id a = record {
  subscription_id = id;
  terminal = a.terminal;
  terminal_key = a.terminal_key;
  cancelled = a.cancelled;
  cleaned = a.cleaned;
}

-- The end of `prepare`: the admission is registered under its identifier.
unfoldable pub register : ServerConnection → ℕ → Bytes → ServerConnection
register c n id = record {
  admissions = update n (named id) c.admissions;
  next = c.next;
  subscription_cancels = insert id n c.subscription_cancels;
  terminal_streams = c.terminal_streams;
  subscriptions = c.subscriptions;
  closing = c.closing;
  replay_supported = c.replay_supported;
  maximum_chunk = c.maximum_chunk;
}

-- prepare: the connection after it, and whether the answer has an action.
unfoldable pub prepare :
    ServerConnection → ℕ → Subscription → ServerConnection × Outcome GoError Bool
unfolding check_prepare register
prepare c n value = elim (lookup n c.admissions) [
  | none ↦ (c, ok false)
  | some a ↦ elim (check_prepare c a value) [
    | err e ↦ (cleanup c n, err e)
    | ok id ↦ (register c n id, ok true)
  ]
]

abbrev pub cancel : SubscriptionAdmission → SubscriptionAdmission
cancel a = record {
  subscription_id = a.subscription_id;
  terminal = a.terminal;
  terminal_key = a.terminal_key;
  cancelled = true;
  cleaned = a.cleaned;
}

abbrev pub with_admissions : ServerConnection → Assoc ℕ SubscriptionAdmission → ServerConnection
with_admissions c admissions = record {
  admissions = admissions;
  next = c.next;
  subscription_cancels = c.subscription_cancels;
  terminal_streams = c.terminal_streams;
  subscriptions = c.subscriptions;
  closing = c.closing;
  replay_supported = c.replay_supported;
  maximum_chunk = c.maximum_chunk;
}

-- cancelSubscription
unfoldable pub cancel_subscription : ServerConnection → Bytes → ServerConnection
cancel_subscription c id = elim (lookup id c.subscription_cancels) [
  | none ↦ c
  | some n ↦ with_admissions c (update n cancel c.admissions)
]
