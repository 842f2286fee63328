-- ===== src/Provider/Limits/Bounds.antt =====
-- What the validation of the limits gives: bounds, also on the bytes that full queues can hold.
use native.Mathlib.Nat.{div-add-mod}
use mission_control_edge.Common.{
  ℕ, ◌*◌, ◌/◌, ◌≤◌, ◌<◌, ◌≡◌, ◌↔◌, false, Option, none, some, List, [], ◌∷◌, arith, ltb, eqb, ok,
  reject_if, first_error-ok, first_error_of_All, reject_if-eq-ok, bind-eq-ok, or-eq-false,
}
use mission_control_edge.Common.Int.{ℤ, pos, negsuc, uint64, pos_part}
use mission_control_edge.Protocol.Error.{GoError, plain}
use mission_control_edge.Provider.Limits.{
  Limits, outside, limit_checks, validate_limits, Configure, apply_from, apply_options,
  default_limits, max_message_bytes, max_queue_entries, max_outbound_queue_bytes,
  max_in_flight_bytes, max_in_flight_requests, max_idempotency_entries, max_idempotency_bytes,
  max_subscriptions, max_heartbeat_interval, max_shutdown_timeout,
}

-- What a valid configuration bounds: each limit, and the bytes that full queues can hold.
pub record Bounded (l : Limits) : Type 0 where
  pub envelope_pos : 0 < l.max_envelope_bytes
  pub envelope : l.max_envelope_bytes ≤ max_message_bytes
  pub outbound : 0 < pos_part l.max_outbound_queue
  pub outbound_capped : pos_part l.max_outbound_queue ≤ max_queue_entries
  pub outbound_bytes :
      pos_part l.max_outbound_queue * l.max_envelope_bytes ≤ max_outbound_queue_bytes
  pub in_flight : 0 < pos_part l.max_in_flight_requests
  pub in_flight_capped : pos_part l.max_in_flight_requests ≤ max_in_flight_requests
  pub in_flight_bytes :
      pos_part l.max_in_flight_requests * l.max_envelope_bytes ≤ max_in_flight_bytes
  pub entries : 0 < pos_part l.max_idempotency_entries
  pub entries_capped : pos_part l.max_idempotency_entries ≤ max_idempotency_entries
  pub replies : l.max_envelope_bytes ≤ l.max_idempotency_bytes
  pub replies_capped : l.max_idempotency_bytes ≤ max_idempotency_bytes
  pub subscriptions : 0 < pos_part l.max_subscriptions
  pub subscriptions_capped : pos_part l.max_subscriptions ≤ max_subscriptions
  pub heartbeat : 0 < pos_part l.heartbeat_interval
  pub heartbeat_capped : pos_part l.heartbeat_interval ≤ max_heartbeat_interval
  pub shutdown : 0 < pos_part l.shutdown_timeout
  pub shutdown_capped : pos_part l.shutdown_timeout ≤ max_shutdown_timeout

-- A signed value that a test lets pass.
outside-false :
    (value : ℤ) (maximum : ℕ)
    → outside value maximum ≡ false
    → (0 < pos_part value) × (pos_part value ≤ maximum) × (uint64 value ≡ pos_part value)
unfolding outside
outside-false value maximum h = ground arith

-- `n > total / size` refuses exactly when `n * size` exceeds `total`.
exposure : (n total size : ℕ) → 0 < size → ltb (total / size) n ≡ false → n * size ≤ total
exposure n total size p h = grind (arith, div-add-mod total size)

-- A signed limit and the bytes that so many envelopes take.
exposure_checked :
    (value : ℤ) (maximum total size : ℕ) (e : GoError)
    → 0 < size
    → outside value maximum ≡ false
    → reject_if (ltb (total / size) (uint64 value)) e ≡ ok tt
    → pos_part value * size ≤ total
exposure_checked value maximum total size e p inside h =
    exposure (pos_part value) total size p
      (ground (arith, outside-false value maximum inside, reject_if-eq-ok _ e h))

pub validate_limits-Bounded : (l : Limits) → validate_limits l ≡ ok tt → Bounded l
unfolding validate_limits
validate_limits-Bounded l h =
    let p = first_error-ok (limit_checks l) h in
    let size =
      or-eq-false (eqb l.max_envelope_bytes 0) (ltb max_message_bytes l.max_envelope_bytes)
        (reject_if-eq-ok _ _ p.0) in
    let positive : 0 < l.max_envelope_bytes = ground arith in
    let queue = reject_if-eq-ok _ _ p.1.0 in
    let requests = reject_if-eq-ok _ _ p.1.1.1.0 in
    let entries = reject_if-eq-ok _ _ p.1.1.1.1.1.0 in
    let replies =
      or-eq-false (ltb l.max_idempotency_bytes l.max_envelope_bytes)
        (ltb max_idempotency_bytes l.max_idempotency_bytes) (reject_if-eq-ok _ _ p.1.1.1.1.1.1.0) in
    let subscriptions = reject_if-eq-ok _ _ p.1.1.1.1.1.1.1.0 in
    let heartbeat = reject_if-eq-ok _ _ p.1.1.1.1.1.1.1.1.0 in
    let shutdown = reject_if-eq-ok _ _ p.1.1.1.1.1.1.1.1.1.0 in
    record {
      envelope_pos = positive;
      envelope = ground arith;
      outbound = (outside-false _ _ queue).0;
      outbound_capped = (outside-false _ _ queue).1;
      outbound_bytes =
          exposure_checked _ _ _ _ (plain "maximum outbound queue byte exposure is invalid")
            positive queue p.1.1.0;
      in_flight = (outside-false _ _ requests).0;
      in_flight_capped = (outside-false _ _ requests).1;
      in_flight_bytes =
          exposure_checked _ _ _ _ (plain "maximum in-flight request byte exposure is invalid")
            positive requests p.1.1.1.1.0;
      entries = (outside-false _ _ entries).0;
      entries_capped = (outside-false _ _ entries).1;
      replies = ground arith;
      replies_capped = ground arith;
      subscriptions = (outside-false _ _ subscriptions).0;
      subscriptions_capped = (outside-false _ _ subscriptions).1;
      heartbeat = (outside-false _ _ heartbeat).0;
      heartbeat_capped = (outside-false _ _ heartbeat).1;
      shutdown = (outside-false _ _ shutdown).0;
      shutdown_capped = (outside-false _ _ shutdown).1;
    }

-- Back: a signed value in range passes, and a product in range passes the test by division.
outside_of_range :
    (value : ℤ) (maximum : ℕ)
    → 0 < pos_part value
    → pos_part value ≤ maximum
    → outside value maximum ≡ false
unfolding outside
outside_of_range value maximum p q = ground arith

exposure_of_product :
    (n total size : ℕ) → 0 < size → n * size ≤ total → ltb (total / size) n ≡ false
exposure_of_product n total size p h = grind (arith, div-add-mod total size)

exposure_passed :
    (value : ℤ) (total size : ℕ)
    → 0 < size
    → 0 < pos_part value
    → pos_part value * size ≤ total
    → ltb (total / size) (uint64 value) ≡ false
exposure_passed (pos n) total size p q h = exposure_of_product n total size p h
exposure_passed (negsuc n) total size p q h = elim q [ ]

validate_limits_of_Bounded : (l : Limits) → Bounded l → validate_limits l ≡ ok tt
unfolding validate_limits
validate_limits_of_Bounded l b = first_error_of_All (limit_checks l) (
    ground (
      arith,
      outside_of_range l.max_outbound_queue max_queue_entries b.outbound b.outbound_capped,
      exposure_passed l.max_outbound_queue _ _ b.envelope_pos b.outbound b.outbound_bytes,
      outside_of_range l.max_in_flight_requests max_in_flight_requests b.in_flight
          b.in_flight_capped,
      exposure_passed l.max_in_flight_requests _ _ b.envelope_pos b.in_flight b.in_flight_bytes,
      outside_of_range l.max_idempotency_entries max_idempotency_entries b.entries b.entries_capped,
      outside_of_range l.max_subscriptions max_subscriptions b.subscriptions b.subscriptions_capped,
      outside_of_range l.heartbeat_interval max_heartbeat_interval b.heartbeat b.heartbeat_capped,
      outside_of_range l.shutdown_timeout max_shutdown_timeout b.shutdown b.shutdown_capped,
    ))

-- `Validate` accepts exactly the limits that are bounded: every signed limit is positive and at most
-- its maximum, the envelope size is positive, at most its maximum and at most the idempotency bytes,
-- these are at most their maximum, and a full outbound queue, as well as all requests in flight, take
-- at most 256 MiB of envelopes.
pub validate_limits-ok-Bounded : (l : Limits) → (validate_limits l ≡ ok tt) ↔ Bounded l
validate_limits-ok-Bounded l = (validate_limits-Bounded l, validate_limits_of_Bounded l)

apply_from-Bounded :
    (options : Limits) (rest : List (Option Configure)) {l : Limits}
    → apply_from options rest ≡ ok l
    → Bounded l
unfolding apply_from
apply_from-Bounded options [] h = validate_limits-Bounded _ (ground arith)
apply_from-Bounded options (none ∷ rest) h = cc
apply_from-Bounded options (some option ∷ rest) h =
    let (changed, _, h') = bind-eq-ok (option options) _ h in apply_from-Bounded changed rest h'

-- Whatever options are given, nil ones and ones of a caller's own included, the limits that
-- `applyOptions` returns without an error are bounded.
pub apply_options-Bounded :
    (options : List (Option Configure)) {l : Limits} → apply_options options ≡ ok l → Bounded l
unfolding apply_options
apply_options-Bounded options h = apply_from-Bounded default_limits options h
