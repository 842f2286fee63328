-- ===== src/Provider/Admission.antt =====
-- provider/subscription.go, lines 45 to 182, 287 to 331: the admission of subscriptions to a
-- connection. An admission is an object that the two maps of the connection and its callers share: it
-- has a number, and `admissions` is the store. Goroutines and contexts are left out, but for the mark
-- that an admission was cancelled; a mutex makes each operation one step.
pub mod Prepare
pub mod Account
mod Samples
use mission_control_edge.Common.{
  ℕ, suc, ◌+◌, ◌-◌, Bool, true, false, ◌&&◌, ◌||◌, not, Option, none, some, List, [], ◌∷◌, ◌++◌,
  leb, ltb, eqb, is_empty, if◌then◌else◌, ◌==◌, bytes_eq, nat_eq, Bytes, Outcome, ok, err, Check,
  ◌>>=◌, ◌>>◌, reject_if, or_else,
}
use mission_control_edge.Common.Assoc.{Assoc, lookup, insert, remove}
use mission_control_edge.Protocol.Error.{GoError, invalid_argument, conflict, resource_exhausted}
use mission_control_edge.Protocol.Identity.{validate_native_id}
use mission_control_edge.Protocol.Terminal.{
  TerminalChunk, TerminalCredit, TerminalSubscribeRequest, validate_subscribe,
}
use mission_control_edge.Provider.RpcError.{sdk_error}
use mission_control_edge.Provider.Flow.{TerminalFlow, new_terminal_flow, validate_chunk_limit}

-- A `subscriptionAdmission`: `cleaned` says that `cleanupOnce` has run.
pub record SubscriptionAdmission : Type 0 where
  pub subscription_id : Bytes
  pub terminal : Option TerminalFlow
  pub terminal_key : Bytes
  pub cancelled : Bool
  pub cleaned : Bool

-- The part of a `serverConnection` that the admissions use.
pub record ServerConnection : Type 0 where
  pub admissions : Assoc ℕ SubscriptionAdmission
  pub next : ℕ
  pub subscription_cancels : Assoc Bytes ℕ
  pub terminal_streams : Assoc Bytes ℕ
  pub subscriptions : ℕ
  pub closing : Bool
  pub replay_supported : Bool
  pub maximum_chunk : ℕ

abbrev pub with_subscriptions : ServerConnection → ℕ → ServerConnection
with_subscriptions c n = record {
  admissions = c.admissions;
  next = c.next;
  subscription_cancels = c.subscription_cancels;
  terminal_streams = c.terminal_streams;
  subscriptions = n;
  closing = c.closing;
  replay_supported = c.replay_supported;
  maximum_chunk = c.maximum_chunk;
}

-- A new admission in the store, registered under its terminal key if it has one.
abbrev pub enter : ServerConnection → SubscriptionAdmission → ServerConnection
enter c a = record {
  admissions = (c.next, a) ∷ c.admissions;
  next = suc c.next;
  subscription_cancels = c.subscription_cancels;
  terminal_streams =
      if is_empty a.terminal_key
      then c.terminal_streams
      else insert a.terminal_key c.next c.terminal_streams;
  subscriptions = suc c.subscriptions;
  closing = c.closing;
  replay_supported = c.replay_supported;
  maximum_chunk = c.maximum_chunk;
}

-- reserveSubscription and releaseSubscription.
unfoldable pub can_reserve : ℕ → ServerConnection → Bool
can_reserve maximum c = not (leb maximum c.subscriptions) && not c.closing

unfoldable pub release_subscription : ServerConnection → ServerConnection
release_subscription c = with_subscriptions c (c.subscriptions - 1)

abbrev pub plain_admission : SubscriptionAdmission
plain_admission = record {
  subscription_id = [];
  terminal = none;
  terminal_key = [];
  cancelled = false;
  cleaned = false;
}

-- beginSubscription: the connection after it, and the number of the admission.
unfoldable pub begin_subscription : ℕ → ServerConnection → ServerConnection × Outcome GoError ℕ
unfolding can_reserve
begin_subscription maximum c =
    if can_reserve maximum c
    then (enter c plain_admission, ok c.next)
    else (c, err (sdk_error resource_exhausted))

abbrev pub terminal_stream_key : TerminalSubscribeRequest → Bytes
terminal_stream_key r = r.native_session_id ++ (0 ∷ r.stream_id)

abbrev pub terminal_admission : ServerConnection → TerminalSubscribeRequest → SubscriptionAdmission
terminal_admission c r = record {
  subscription_id = [];
  terminal = some (new_terminal_flow r c.replay_supported);
  terminal_key = terminal_stream_key r;
  cancelled = false;
  cleaned = false;
}

abbrev pub is_some : {A : Type 0} → Option A → Bool
is_some none = false
is_some (some a) = true

-- beginTerminalSubscription
unfoldable pub begin_terminal_subscription :
    ℕ → ServerConnection → TerminalSubscribeRequest → ServerConnection × Outcome GoError ℕ
begin_terminal_subscription maximum c r = elim (validate_subscribe r) [
  | err e ↦ (c, err (sdk_error invalid_argument))
  | ok _ ↦
      if c.closing || leb maximum c.subscriptions
      then (c, err (sdk_error resource_exhausted))
      else if is_some (lookup (terminal_stream_key r) c.terminal_streams)
      then (c, err (sdk_error conflict))
      else (enter c (terminal_admission c r), ok c.next)
]

-- A change of one object in the store.
unfoldable pub update :
    ℕ
    → (SubscriptionAdmission → SubscriptionAdmission)
    → Assoc ℕ SubscriptionAdmission
    → Assoc ℕ SubscriptionAdmission
update n f [] = []
update n f ((k, a) ∷ rest) =
    let others = update n f rest in if eqb k n then (k, f a) ∷ rest else (k, a) ∷ others

abbrev pub clean_up : SubscriptionAdmission → SubscriptionAdmission
clean_up a = record {
  subscription_id = a.subscription_id;
  terminal = a.terminal;
  terminal_key = a.terminal_key;
  cancelled = true;
  cleaned = true;
}

-- `if key != "" && m[key] == a { delete(m, key) }`
abbrev pub unregister : Bytes → ℕ → Assoc Bytes ℕ → Assoc Bytes ℕ
unregister key n m =
    if not (is_empty key) && (elim (lookup key m) [ none ↦ false | some k ↦ eqb k n ])
    then remove key m
    else m

-- The body of `cleanup`, which runs once; its two sections under the mutex are one step.
unfoldable pub clean_once : ServerConnection → ℕ → SubscriptionAdmission → ServerConnection
unfolding update release_subscription
clean_once c n a = release_subscription (record {
  admissions = update n clean_up c.admissions;
  next = c.next;
  subscription_cancels = unregister a.subscription_id n c.subscription_cancels;
  terminal_streams = unregister a.terminal_key n c.terminal_streams;
  subscriptions = c.subscriptions;
  closing = c.closing;
  replay_supported = c.replay_supported;
  maximum_chunk = c.maximum_chunk;
})

-- cleanup; a number without an object stands for nil.
unfoldable pub cleanup : ServerConnection → ℕ → ServerConnection
unfolding clean_once
cleanup c n = elim (lookup n c.admissions) [
  | none ↦ c
  | some a ↦ if a.cleaned then c else clean_once c n a
]
