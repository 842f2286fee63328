-- ===== src/Protocol/Sequence/Log.antt =====
-- What a tracker promises, over the list of the cursors it has accepted, newest first: an event ID
-- and a sequence number are bound once in a stream.
use mission_control_edge.Common.{
  ℕ, ◌+◌, ◌<◌, ◌^◌, ◌≡◌, ◌≢◌, ◌&&◌, not, Option, none, some, List, [], ◌∷◌, arith, ltb, eqb,
  if◌then◌else◌, ◌==◌, nat_eq, bytes_eq, Outcome, ok, err, All,
}
use mission_control_edge.Protocol.Error.{GoError, sequence_conflict, protocol_error}
use mission_control_edge.Protocol.Sequence.{
  EventCursor, SequenceOutcome, accepted, duplicate, gap, StreamKey, stream_key_eq, EventIdKey,
  event_id_key_eq, cursor_eq, stream_key, id_key, stream_key_beq_iff, event_id_key_beq_iff,
  validate_cursor,
}

unfoldable pub find_id : EventIdKey → List EventCursor → Option EventCursor
find_id k [] = none
find_id k (c ∷ log) = if id_key c == k then some c else find_id k log

unfoldable pub find_sequence : StreamKey → ℕ → List EventCursor → Option EventCursor
find_sequence k q [] = none
find_sequence k q (c ∷ log) =
    if stream_key c == k && eqb c.sequence q then some c else find_sequence k q log

-- The greatest sequence number of the stream, and 0 where it has none.
unfoldable pub highest_in : StreamKey → List EventCursor → ℕ
highest_in k [] = 0
highest_in k (c ∷ log) =
    let h = highest_in k log in if stream_key c == k && ltb h c.sequence then c.sequence else h

-- The promise for a valid cursor: the new log and the answer. Nothing wraps here.
unfoldable pub bind_log :
    List EventCursor → EventCursor → List EventCursor × Outcome GoError SequenceOutcome
bind_log log c = elim (find_id (id_key c) log) [
  | some prior ↦ (log, if prior == c then ok duplicate else err (protocol_error sequence_conflict))
  | none ↦ elim (find_sequence (stream_key c) c.sequence log) [
    | some prior ↦ (log, err (protocol_error sequence_conflict))
    | none ↦
        let h = highest_in (stream_key c) log in
        (c ∷ log, ok (if not (eqb h 0) && ltb (h + 1) c.sequence then gap else accepted))
  ]
]

-- The specification of `Observe`.
unfoldable pub observe_log :
    List EventCursor → EventCursor → List EventCursor × Outcome GoError SequenceOutcome
observe_log log c = elim (validate_cursor c) [ err e ↦ (log, err e) | ok _ ↦ bind_log log c ]

-- Below the greatest uint64, so that the next number exists.
abbrev pub InRange : EventCursor → Type 0
InRange c = c.sequence + 1 < 2 ^ 64

pub highest_in-lt :
    (k : StreamKey) (log : List EventCursor) → All InRange log → highest_in k log + 1 < 2 ^ 64
unfolding highest_in
highest_in-lt k [] h = omega arith
highest_in-lt k (c ∷ log) h = ground (arith, highest_in-lt k log h.1)

-- What `find_sequence` finds is in the stream, so its event ID is bound too.
pub find_sequence-bound :
    (k : StreamKey) (q : ℕ) (log : List EventCursor) {c : EventCursor}
    → find_sequence k q log ≡ some c
    → (stream_key c ≡ k) × (find_id (id_key c) log ≢ none)
unfolding find_sequence find_id
find_sequence-bound k q [] h = cc
find_sequence-bound k q (x ∷ log) {c} h = ground (
  arith,
  find_sequence-bound k q log {c = c},
  stream_key_beq_iff (stream_key x) k,
  event_id_key_beq_iff (id_key x) (id_key c),
)
