-- ===== src/Provider/Limits.antt =====
-- provider/limits.go: the resource limits of both SDK ends, and the options that set them.
-- Go's `int` and `time.Duration` are signed: a configuration may hold negative values.
pub mod Bounds
mod Samples
use mission_control_edge.Common.{
  ℕ, ◌*◌, ◌/◌, ◌^◌, Bool, ◌||◌, Option, none, some, List, [], ◌∷◌, ltb, eqb, Outcome, ok, err,
  Check, ◌>>=◌, reject_if, first_error,
}
use mission_control_edge.Common.Int.{ℤ, pos, ltb_ℤ, leb_ℤ, uint64}
pub use mission_control_edge.Protocol.Terminal.{max_message_bytes}
use mission_control_edge.Protocol.Error.{GoError, plain}

abbrev pub max_queue_entries : ℕ
max_queue_entries = 4096

abbrev pub max_outbound_queue_bytes : ℕ
max_outbound_queue_bytes = 256 * 2 ^ 20

abbrev pub max_in_flight_bytes : ℕ
max_in_flight_bytes = 256 * 2 ^ 20

abbrev pub max_in_flight_requests : ℕ
max_in_flight_requests = 2 ^ 16

abbrev pub max_idempotency_entries : ℕ
max_idempotency_entries = 2 ^ 20

abbrev pub max_idempotency_bytes : ℕ
max_idempotency_bytes = 2 ^ 30

abbrev pub max_subscriptions : ℕ
max_subscriptions = 2 ^ 16

-- Five minutes, in nanoseconds.
abbrev pub max_heartbeat_interval : ℕ
max_heartbeat_interval = 5 * 60 * 1_000_000_000

abbrev pub max_shutdown_timeout : ℕ
max_shutdown_timeout = 5 * 60 * 1_000_000_000

pub record Limits : Type 0 where
  pub max_envelope_bytes : ℕ
  pub max_outbound_queue : ℤ
  pub max_in_flight_requests : ℤ
  pub max_idempotency_entries : ℤ
  pub max_idempotency_bytes : ℕ
  pub max_subscriptions : ℤ
  pub heartbeat_interval : ℤ
  pub shutdown_timeout : ℤ

-- DefaultLimits
abbrev pub default_limits : Limits
default_limits = record {
  max_envelope_bytes = max_message_bytes;
  max_outbound_queue = pos 16;
  max_in_flight_requests = pos 64;
  max_idempotency_entries = pos 4096;
  max_idempotency_bytes = 64 * 2 ^ 20;
  max_subscriptions = pos 256;
  heartbeat_interval = pos (30 * 1_000_000_000);
  shutdown_timeout = pos (5 * 1_000_000_000);
}

-- TestLimits
abbrev pub test_limits : Limits
test_limits = record {
  max_envelope_bytes = 64 * 2 ^ 10;
  max_outbound_queue = pos 16;
  max_in_flight_requests = pos 16;
  max_idempotency_entries = pos 64;
  max_idempotency_bytes = 4 * 2 ^ 20;
  max_subscriptions = pos 16;
  heartbeat_interval = pos (100 * 1_000_000);
  shutdown_timeout = pos 1_000_000_000;
}

-- `value <= 0 || value > maximum`
outside : ℤ → ℕ → Bool
outside value maximum = leb_ℤ value (pos 0) || ltb_ℤ (pos maximum) value

-- The checks of `Validate`, in their order.
abbrev limit_checks : Limits → List (Check GoError)
limit_checks l =
    reject_if (eqb l.max_envelope_bytes 0 || ltb max_message_bytes l.max_envelope_bytes)
      (plain "maximum envelope size is invalid")
    ∷ reject_if (outside l.max_outbound_queue max_queue_entries)
        (plain "maximum outbound queue is invalid")
    ∷ reject_if
        (ltb (max_outbound_queue_bytes / l.max_envelope_bytes) (uint64 l.max_outbound_queue))
        (plain "maximum outbound queue byte exposure is invalid")
    ∷ reject_if (outside l.max_in_flight_requests max_in_flight_requests)
        (plain "maximum in-flight requests is invalid")
    ∷ reject_if (ltb (max_in_flight_bytes / l.max_envelope_bytes) (uint64 l.max_in_flight_requests))
        (plain "maximum in-flight request byte exposure is invalid")
    ∷ reject_if (outside l.max_idempotency_entries max_idempotency_entries)
        (plain "maximum idempotency entries is invalid")
    ∷ reject_if
        (ltb l.max_idempotency_bytes l.max_envelope_bytes
          || ltb max_idempotency_bytes l.max_idempotency_bytes)
        (plain "maximum idempotency bytes is invalid")
    ∷ reject_if (outside l.max_subscriptions max_subscriptions)
        (plain "maximum subscriptions is invalid")
    ∷ reject_if (outside l.heartbeat_interval max_heartbeat_interval)
        (plain "heartbeat interval is invalid")
    ∷ reject_if (outside l.shutdown_timeout max_shutdown_timeout)
        (plain "shutdown timeout is invalid")
    ∷ []

-- The method `Validate` of `Limits`.
pub validate_limits : Limits → Check GoError
validate_limits l = first_error (limit_checks l)

-- A configuration function, `Option` in the source. Its effect is on the limits alone.
abbrev pub Configure : Type 0
Configure = Limits → Outcome GoError Limits

-- WithLimits. The wrapped message keeps the cause in the source.
pub with_limits : Limits → Configure
with_limits limits options = elim (validate_limits limits) [
  | ok _ ↦ ok limits
  | err e ↦ err (plain "provider limits")
]

-- `none` is a nil option.
apply_from : Limits → List (Option Configure) → Outcome GoError Limits
apply_from options [] = elim (validate_limits options) [
  | ok _ ↦ ok options
  | err e ↦ err (plain "provider limits")
]
apply_from options (none ∷ rest) = err (plain "provider option is nil")
apply_from options (some option ∷ rest) = do changed ← option options; apply_from changed rest

-- applyOptions
pub apply_options : List (Option Configure) → Outcome GoError Limits
unfolding apply_from
apply_options options = apply_from default_limits options
