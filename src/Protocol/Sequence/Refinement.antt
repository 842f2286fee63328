-- ===== src/Protocol/Sequence/Refinement.antt =====
-- `Observe` on the maps of the tracker does what the specification does on the log.
use mission_control_edge.Common.{
  ℕ, ◌+◌, ◌≡◌, refl, ap, ◌∙◌, false, ◌&&◌, not, eqb, ltb, Bool-cases, check-cases, Option, none,
  some, List, [], ◌∷◌, arith, ◌==◌, Outcome, ok, All,
}
use mission_control_edge.Common.{
  nat_eq, bytes_eq, bytes_beq_iff, Option-cases, if◌then◌else◌, inl, inr,
}
use mission_control_edge.Common.Assoc.{Assoc, lookup, insert, lookup-insert}
use mission_control_edge.Protocol.Error.{GoError}
use mission_control_edge.Protocol.Sequence.{
  EventCursor, SequenceOutcome, accepted, gap, StreamKey, EventIdKey, SequenceStream,
  SequenceTracker, stream_key, id_key, new_stream, new_sequence_tracker, stream_key_beq_iff,
  stream_key_eq, event_id_key_eq, validate_cursor, stream_for, commit, observe_in, observe_valid,
  observe, next_outcome, updated,
}
use mission_control_edge.Protocol.Sequence.Log.{
  find_id, find_sequence, highest_in, bind_log, observe_log, InRange, highest_in-lt,
  find_sequence-bound,
}

abbrev or_new : Option SequenceStream → SequenceStream
or_new none = new_stream
or_new (some s) = s

abbrev pub stream_of : SequenceTracker → StreamKey → SequenceStream
stream_of t k = or_new (lookup k t.streams)

-- The maps of `t` hold exactly the cursors of `log`.
pub record Represents (t : SequenceTracker) (log : List EventCursor) : Type 0 where
  pub ids : (k : EventIdKey) → lookup k t.event_ids ≡ find_id k log
  pub highest : (k : StreamKey) → (stream_of t k).highest ≡ highest_in k log
  pub seen : (k : StreamKey) (q : ℕ) → lookup q (stream_of t k).seen ≡ find_sequence k q log

pub new-Represents : Represents new_sequence_tracker []
unfolding lookup find_id find_sequence highest_in
new-Represents = record { ids = λ k. refl; highest = λ k. refl; seen = λ k q. refl }

-- One stream after a write to the streams.
stream_of-insert :
    (j k : StreamKey) (s : SequenceStream) (m : Assoc StreamKey SequenceStream)
    → or_new (lookup k (insert j s m)) ≡ (if j == k then s else or_new (lookup k m))
stream_of-insert j k s m = ground (arith, lookup-insert j k s m)

module _ (t : SequenceTracker) (log : List EventCursor) (c : EventCursor) where
  commit-ids :
      Represents t log
      → (k : EventIdKey)
      → lookup k (commit t (stream_of t (stream_key c)) c).event_ids ≡ find_id k (c ∷ log)
  unfolding commit find_id
  commit-ids r k = ground (arith, lookup-insert (id_key c) k c t.event_ids, r.ids k)

  commit-highest :
      Represents t log
      → (k : StreamKey)
      → (stream_of (commit t (stream_of t (stream_key c)) c) k).highest ≡ highest_in k (c ∷ log)
  unfolding commit highest_in
  commit-highest r k = ground (
    arith,
    stream_of-insert (stream_key c) k (updated (stream_of t (stream_key c)) c) t.streams,
    r.highest k,
    stream_key_beq_iff (stream_key c) k,
  )

  commit-seen :
      Represents t log
      → (k : StreamKey) (q : ℕ)
      → lookup q (stream_of (commit t (stream_of t (stream_key c)) c) k).seen
        ≡ find_sequence k q (c ∷ log)
  unfolding commit find_sequence
  commit-seen r k q = ground (
    arith,
    stream_of-insert (stream_key c) k (updated (stream_of t (stream_key c)) c) t.streams,
    lookup-insert c.sequence q c (stream_of t (stream_key c)).seen,
    r.seen k q,
    stream_key_beq_iff (stream_key c) k,
  )

  commit-Represents :
      Represents t log → Represents (commit t (stream_of t (stream_key c)) c) (c ∷ log)
  commit-Represents r = record {
    ids = commit-ids r;
    highest = commit-highest r;
    seen = commit-seen r;
  }

-- A stream that is stored empty shows nothing new, at any key.
stream_of-stream_for :
    (t : SequenceTracker) (k j : StreamKey) → stream_of (stream_for t k).0 j ≡ stream_of t j
unfolding stream_for
stream_of-stream_for t k j =
    ground (arith, stream_of-insert k j new_stream t.streams, stream_key_beq_iff k j)

pub stream_for_result :
    (t : SequenceTracker) (k : StreamKey)
    → ((stream_for t k).1 ≡ stream_of (stream_for t k).0 k)
      × ((stream_for t k).0.event_ids ≡ t.event_ids)
unfolding stream_for
stream_for_result t k =
    ground (arith, stream_of-insert k k new_stream t.streams, stream_key_beq_iff k k)

pub stream_for-Represents :
    (t : SequenceTracker) (log : List EventCursor) (k : StreamKey)
    → Represents t log
    → Represents (stream_for t k).0 log
stream_for-Represents t log k r = record {
  ids = rw ((stream_for_result t k).1) r.ids;
  highest = λ j. rw (stream_of-stream_for t k j) (r.highest j);
  seen = λ j q. rw (stream_of-stream_for t k j) (r.seen j q);
}

-- The tracker and the log after a call, and the same answer where no number wraps.
abbrev pub Agrees :
    List EventCursor
    → SequenceTracker × Outcome GoError SequenceOutcome
    → List EventCursor × Outcome GoError SequenceOutcome
    → Type 0
Agrees before (t, answer) (log, promised) =
    (All InRange before → answer ≡ promised) × Represents t log

-- The code's test for the gap wraps, the promised one does not; in range they agree.
next_outcome-InRange :
    (k : StreamKey) (log : List EventCursor) (q : ℕ)
    → All InRange log
    → next_outcome (highest_in k log) q
      ≡ (if not (eqb (highest_in k log) 0) && ltb (highest_in k log + 1) q then gap else accepted)
unfolding next_outcome
next_outcome-InRange k log q h = ground (arith, highest_in-lt k log h)

-- A bound sequence number is always a conflict: an equal cursor has its event ID bound.
bound_conflict :
    (log : List EventCursor) (c prior : EventCursor)
    → find_id (id_key c) log ≡ none
    → find_sequence (stream_key c) c.sequence log ≡ some prior
    → (prior.event_id == c.event_id) ≡ false
bound_conflict log c prior fresh e = elim (Bool-cases (prior.event_id == c.event_id)) [
  | inr differs ↦ differs
  | inl same ↦
      let (in_stream, bound) = find_sequence-bound (stream_key c) c.sequence log e in
      absurd (bound (ground (arith, bytes_beq_iff prior.event_id c.event_id)))
]

observe_in-Agrees :
    (t : SequenceTracker) (log : List EventCursor) (c : EventCursor)
    → Represents t log
    → find_id (id_key c) log ≡ none
    → Agrees log (observe_in t (stream_of t (stream_key c)) c) (bind_log log c)
unfolding observe_in bind_log
observe_in-Agrees t log c r fresh =
    elim (Option-cases (find_sequence (stream_key c) c.sequence log)) [
      | inl e ↦
          rw (fresh, bind_log, e, observe_in, r.seen (stream_key c) c.sequence ∙ e)
            (
              λ h.
                  rw (r.highest (stream_key c))
                    (ap ok (next_outcome-InRange (stream_key c) log c.sequence h)),
              commit-Represents t log c r,
            )
      | inr (prior, e) ↦
          rw
            (
              fresh,
              bind_log,
              e,
              observe_in,
              r.seen (stream_key c) c.sequence ∙ e,
              bound_conflict log c prior fresh e,
            )
            (λ _. refl, r)
    ]

observe_valid-Agrees :
    (t : SequenceTracker) (log : List EventCursor) (c : EventCursor)
    → Represents t log
    → Agrees log (observe_valid t c) (bind_log log c)
unfolding observe_valid
observe_valid-Agrees t log c r = elim (Option-cases (find_id (id_key c) log)) [
  | inl e ↦
      rw (r.ids (id_key c) ∙ e, observe_valid, (stream_for_result t (stream_key c)).0)
        (observe_in-Agrees (stream_for t (stream_key c)).0 log c
          (stream_for-Represents t log (stream_key c) r) e)
  | inr (prior, e) ↦
      rw (r.ids (id_key c) ∙ e, observe_valid) (unfold bind_log in rw (e, bind_log) (λ _. refl, r))
]

-- One call: the same answer, and maps that hold the new log.
pub observe-Agrees :
    (t : SequenceTracker) (log : List EventCursor) (c : EventCursor)
    → Represents t log
    → Agrees log (observe t c) (observe_log log c)
unfolding observe observe_log
observe-Agrees t log c r = elim (check-cases (validate_cursor c)) [
  | inl v ↦ rw (v, observe, observe_log) (observe_valid-Agrees t log c r)
  | inr (e, v) ↦ rw (v, observe, observe_log) (λ _. refl, r)
]
