-- ===== src/Protocol/Sequence.antt =====
-- protocol/event.go, lines 186 to 290: the tracker that orders provider events of each stream.
-- The mutex makes a call of `Observe` one step; a nil receiver is not modelled. Sequence numbers
-- are uint64, and `highest + 1` wraps.
pub mod Log
pub mod Refinement
pub mod Traces
mod Samples
use mission_control_edge.Common.{
  ℕ, ◌+◌, ◌%◌, ◌^◌, ◌≡◌, ◌↔◌, Bool, true, ◌&&◌, ◌||◌, not, Option, none, some, List, [], ◌∷◌, arith,
  ltb, eqb, if◌then◌else◌, Comparable, ◌==◌, nat_eq, bytes_eq, bytes_beq_iff, eqb_iff, Bytes,
  Outcome, ok, err, Check, ◌>>=◌, ◌>>◌, reject_if, or_else, is_ok,
}
use mission_control_edge.Common.Assoc.{Assoc, lookup, insert}
use mission_control_edge.Protocol.Error.{
  GoError, ErrorCode, invalid_argument, sequence_conflict, protocol_error,
}
use mission_control_edge.Protocol.Text.{validate_id}
use mission_control_edge.Protocol.Identity.{validate_role, validate_digest}

pub record EventCursor : Type 0 where
  pub provider_id : Bytes
  pub role : Bytes
  pub stream_id : Bytes
  pub event_id : Bytes
  pub sequence : ℕ
  pub digest : Bytes

pub data SequenceOutcome : Type 0 where
  accepted duplicate gap : SequenceOutcome

pub record StreamKey : Type 0 where
  pub provider_id : Bytes
  pub role : Bytes
  pub stream_id : Bytes

pub record EventIdKey : Type 0 where
  pub stream : StreamKey
  pub event_id : Bytes

abbrev stream_key_beq : StreamKey → StreamKey → Bool
stream_key_beq a b =
    a.provider_id == b.provider_id && a.role == b.role && a.stream_id == b.stream_id

pub stream_key_beq_iff : (a b : StreamKey) → (stream_key_beq a b ≡ true) ↔ (a ≡ b)
stream_key_beq_iff a b = ground (
  arith,
  bytes_beq_iff a.provider_id b.provider_id,
  bytes_beq_iff a.role b.role,
  bytes_beq_iff a.stream_id b.stream_id,
)

instance abbrev pub stream_key_eq : Comparable StreamKey
stream_key_eq = record { equal = stream_key_beq; equal_iff = stream_key_beq_iff }

abbrev event_id_key_beq : EventIdKey → EventIdKey → Bool
event_id_key_beq a b = a.stream == b.stream && a.event_id == b.event_id

pub event_id_key_beq_iff : (a b : EventIdKey) → (event_id_key_beq a b ≡ true) ↔ (a ≡ b)
event_id_key_beq_iff a b =
    ground (arith, stream_key_beq_iff a.stream b.stream, bytes_beq_iff a.event_id b.event_id)

instance abbrev pub event_id_key_eq : Comparable EventIdKey
event_id_key_eq = record { equal = event_id_key_beq; equal_iff = event_id_key_beq_iff }

abbrev cursor_beq : EventCursor → EventCursor → Bool
cursor_beq a b =
    a.provider_id == b.provider_id
    && a.role == b.role
    && a.stream_id == b.stream_id
    && a.event_id == b.event_id
    && eqb a.sequence b.sequence
    && a.digest == b.digest

pub cursor_beq_iff : (a b : EventCursor) → (cursor_beq a b ≡ true) ↔ (a ≡ b)
cursor_beq_iff a b = ground (
  arith,
  bytes_beq_iff a.provider_id b.provider_id,
  bytes_beq_iff a.role b.role,
  bytes_beq_iff a.stream_id b.stream_id,
  bytes_beq_iff a.event_id b.event_id,
  bytes_beq_iff a.digest b.digest,
)

instance abbrev pub cursor_eq : Comparable EventCursor
cursor_eq = record { equal = cursor_beq; equal_iff = cursor_beq_iff }

abbrev pub stream_key : EventCursor → StreamKey
stream_key c = record { provider_id = c.provider_id; role = c.role; stream_id = c.stream_id }

abbrev pub id_key : EventCursor → EventIdKey
id_key c = record { stream = stream_key c; event_id = c.event_id }

pub record SequenceStream : Type 0 where
  pub highest : ℕ
  pub seen : Assoc ℕ EventCursor

pub record SequenceTracker : Type 0 where
  pub streams : Assoc StreamKey SequenceStream
  pub event_ids : Assoc EventIdKey EventCursor

-- NewSequenceTracker
abbrev pub new_sequence_tracker : SequenceTracker
new_sequence_tracker = record { streams = []; event_ids = [] }

abbrev pub new_stream : SequenceStream
new_stream = record { highest = 0; seen = [] }

-- The checks at the head of `Observe`.
pub validate_cursor : EventCursor → Check GoError
unfolding protocol_error
validate_cursor c = do
  or_else (validate_id c.provider_id) (protocol_error invalid_argument)
  or_else (validate_role c.role) (protocol_error invalid_argument)
  or_else (validate_id c.stream_id) (protocol_error invalid_argument)
  reject_if
      (not (is_ok (validate_id c.event_id))
        || eqb c.sequence 0
        || not (is_ok (validate_digest c.digest)))
      (protocol_error invalid_argument)

-- `stream := t.streams[streamKey]`, with a new stream stored where there is none.
pub stream_for : SequenceTracker → StreamKey → SequenceTracker × SequenceStream
unfolding insert
stream_for t k = elim (lookup k t.streams) [
  | some s ↦ (t, s)
  | none ↦ (record t { streams = insert k new_stream t.streams }, new_stream)
]

-- `outcome` as `Observe` computes it.
next_outcome : ℕ → ℕ → SequenceOutcome
next_outcome highest sequence =
    if not (eqb highest 0) && ltb ((highest + 1) % 2 ^ 64) sequence then gap else accepted

-- The stream after the cursor is stored.
abbrev pub updated : SequenceStream → EventCursor → SequenceStream
updated s c = record {
  highest = if ltb s.highest c.sequence then c.sequence else s.highest;
  seen = insert c.sequence c s.seen;
}

-- The writes after all the checks. The stream is shared by pointer: its update shows in
-- `t.streams`.
commit : SequenceTracker → SequenceStream → EventCursor → SequenceTracker
unfolding insert
commit t s c = record {
  streams = insert (stream_key c) (updated s c) t.streams;
  event_ids = insert (id_key c) c t.event_ids;
}

observe_in :
    SequenceTracker
    → SequenceStream
    → EventCursor
    → SequenceTracker × Outcome GoError SequenceOutcome
observe_in t s c = elim (lookup c.sequence s.seen) [
  | some prior ↦ (
    t,
    if prior.event_id == c.event_id && prior.digest == c.digest
        then ok duplicate
        else err (protocol_error sequence_conflict),
  )
  | none ↦ (commit t s c, ok (next_outcome s.highest c.sequence))
]

observe_valid : SequenceTracker → EventCursor → SequenceTracker × Outcome GoError SequenceOutcome
observe_valid t c = elim (lookup (id_key c) t.event_ids) [
  | some prior ↦ (t, if prior == c then ok duplicate else err (protocol_error sequence_conflict))
  | none ↦ let (t', s) = stream_for t (stream_key c) in observe_in t' s c
]

pub observe : SequenceTracker → EventCursor → SequenceTracker × Outcome GoError SequenceOutcome
observe t c = elim (validate_cursor c) [ err e ↦ (t, err e) | ok _ ↦ observe_valid t c ]
