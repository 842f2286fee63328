-- ===== src/Protocol/Sequence/Traces.antt =====
-- What the tracker answers over every history of deliveries, with repeats and out of order.
use mission_control_edge.Common.{
  ◌-◌, ◌≤◌, ◌<◌, ◌^◌, ◌≡◌, refl, sym, ap, ◌∙◌, none, some, List, [], ◌∷◌, arith, Outcome, ok, All,
  Option-cases, check-cases, check-bind-ok, or_else, inl, inr,
}
use mission_control_edge.Protocol.Text.{validate_id}
use mission_control_edge.Protocol.Identity.{validate_role}
use mission_control_edge.Protocol.Error.{GoError}
use mission_control_edge.Protocol.Sequence.{
  EventCursor, SequenceOutcome, duplicate, gap, EventIdKey, SequenceStream, SequenceTracker,
  stream_key, id_key, new_sequence_tracker, validate_cursor, observe, observe_valid, observe_in,
  next_outcome, cursor_eq, cursor_beq_iff, event_id_key_beq_iff,
}
use mission_control_edge.Protocol.Sequence.Log.{
  find_id, find_sequence, highest_in, bind_log, observe_log, InRange,
}
use mission_control_edge.Protocol.Sequence.Refinement.{
  Represents, new-Represents, observe-Agrees, stream_for-Represents, stream_for_result,
}

-- The tracker after a list of deliveries, and the answers in their order.
unfoldable pub observe_all :
    SequenceTracker → List EventCursor → SequenceTracker × List (Outcome GoError SequenceOutcome)
observe_all t [] = (t, [])
observe_all t (c ∷ cs) =
    let (t', answer) = observe t c in
    let (t'', answers) = observe_all t' cs in (t'', answer ∷ answers)

unfoldable pub observe_all_log :
    List EventCursor → List EventCursor → List EventCursor × List (Outcome GoError SequenceOutcome)
observe_all_log log [] = (log, [])
observe_all_log log (c ∷ cs) =
    let (log', answer) = observe_log log c in
    let (log'', answers) = observe_all_log log' cs in (log'', answer ∷ answers)

observe_log-InRange :
    (log : List EventCursor) (c : EventCursor)
    → All InRange log
    → InRange c
    → All InRange (observe_log log c).0
unfolding observe_log bind_log
observe_log-InRange log c h k = ground arith

observe_all_log-InRange :
    (log cs : List EventCursor)
    → All InRange log
    → All InRange cs
    → All InRange (observe_all_log log cs).0
unfolding observe_all_log
observe_all_log-InRange log [] h k = h
observe_all_log-InRange log (c ∷ cs) h k =
    observe_all_log-InRange (observe_log log c).0 cs (observe_log-InRange log c h k.0) k.1

observe_all-refines_from :
    (t : SequenceTracker) (log cs : List EventCursor)
    → Represents t log
    → All InRange log
    → All InRange cs
    → ((observe_all t cs).1 ≡ (observe_all_log log cs).1)
      × Represents (observe_all t cs).0 (observe_all_log log cs).0
unfolding observe_all observe_all_log
observe_all-refines_from t log [] r h k = (refl, r)
observe_all-refines_from t log (c ∷ cs) r h k =
    let (same, r') = observe-Agrees t log c r in
    let (answers, r'') =
      observe_all-refines_from (observe t c).0 (observe_log log c).0 cs r'
        (observe_log-InRange log c h k.0) k.1 in
    (cc (same h, answers), r'')

-- Over every history of cursors whose sequence numbers are below the greatest uint64, the tracker
-- gives the answers of the specification, and its maps hold exactly the cursors of the log.
pub observe_all-refines :
    (cs : List EventCursor)
    → All InRange cs
    → ((observe_all new_sequence_tracker cs).1 ≡ (observe_all_log [] cs).1)
      × Represents (observe_all new_sequence_tracker cs).0 (observe_all_log [] cs).0
observe_all-refines cs h = observe_all-refines_from new_sequence_tracker [] cs new-Represents tt h

-- In the log each event ID, and each sequence number of a stream, is bound once.
abbrev pub BoundOnce : List EventCursor → Type 0
BoundOnce [] = Unit
BoundOnce (c ∷ log) =
    (find_id (id_key c) log ≡ none)
    × (find_sequence (stream_key c) c.sequence log ≡ none)
    × BoundOnce log

pub observe_log-BoundOnce :
    (log : List EventCursor) (c : EventCursor) → BoundOnce log → BoundOnce (observe_log log c).0
unfolding observe_log bind_log
observe_log-BoundOnce log c b = ground arith

observe_all_log-BoundOnce :
    (log cs : List EventCursor) → BoundOnce log → BoundOnce (observe_all_log log cs).0
unfolding observe_all_log
observe_all_log-BoundOnce log [] b = b
observe_all_log-BoundOnce log (c ∷ cs) b =
    observe_all_log-BoundOnce (observe_log log c).0 cs (observe_log-BoundOnce log c b)

observe_all-Represents :
    (t : SequenceTracker) (log cs : List EventCursor)
    → Represents t log
    → Represents (observe_all t cs).0 (observe_all_log log cs).0
unfolding observe_all observe_all_log
observe_all-Represents t log [] r = r
observe_all-Represents t log (c ∷ cs) r =
    observe_all-Represents (observe t c).0 (observe_log log c).0 cs (observe-Agrees t log c r).1

-- A cursor that was answered without an error is bound under its event ID.
find_id-observe_log :
    (log : List EventCursor) (c : EventCursor) {o : SequenceOutcome}
    → (observe_log log c).1 ≡ ok o
    → (validate_cursor c ≡ ok tt) × (find_id (id_key c) (observe_log log c).0 ≡ some c)
unfolding observe_log bind_log find_id
find_id-observe_log log c h = elim (check-cases (validate_cursor c)) [
  | inr (e, v) ↦ absurd (ground (arith, v))
  | inl v ↦ elim (Option-cases (find_id (id_key c) log)) [
    | inr (prior, e) ↦ ground (arith, cursor_beq_iff prior c)
    | inl e ↦ ground (arith, event_id_key_beq_iff (id_key c) (id_key c))
  ]
]

-- What is bound stays bound.
find_id-keeps :
    (k : EventIdKey) (log : List EventCursor) (d : EventCursor) {c : EventCursor}
    → find_id k log ≡ some c
    → find_id k (observe_log log d).0 ≡ some c
unfolding observe_log bind_log find_id
find_id-keeps k log d h = ground (arith, event_id_key_beq_iff (id_key d) k)

find_id-keeps_all :
    (k : EventIdKey) (log ds : List EventCursor) {c : EventCursor}
    → find_id k log ≡ some c
    → find_id k (observe_all_log log ds).0 ≡ some c
unfolding observe_all_log
find_id-keeps_all k log [] h = h
find_id-keeps_all k log (d ∷ ds) h =
    find_id-keeps_all k (observe_log log d).0 ds (find_id-keeps k log d h)

observe_bound :
    (t : SequenceTracker) (log : List EventCursor) (c : EventCursor)
    → Represents t log
    → validate_cursor c ≡ ok tt
    → find_id (id_key c) log ≡ some c
    → observe t c ≡ (t, ok duplicate)
unfolding observe observe_valid
observe_bound t log c r v bound = ground (arith, r.ids (id_key c), cursor_beq_iff c c)

-- A cursor that was once answered without an error, whatever the answer was, is a duplicate at
-- every later delivery, and the delivery leaves the tracker as it is. The deliveries before it
-- carry sequence numbers below the greatest uint64; those between the two are any.
pub redelivery_is_duplicate :
    (cs ds : List EventCursor) (c : EventCursor) {o : SequenceOutcome}
    → All InRange cs
    → let first = observe (observe_all new_sequence_tracker cs).0 c in
      let later = (observe_all first.0 ds).0 in
      first.1 ≡ ok o → observe later c ≡ (later, ok duplicate)
redelivery_is_duplicate cs ds c h answered =
    let t = (observe_all new_sequence_tracker cs).0 in
    let log = (observe_all_log [] cs).0 in
    let r = (observe_all-refines cs h).1 in
    let (same, r') = observe-Agrees t log c r in
    let (v, bound) =
      find_id-observe_log log c (sym (same (observe_all_log-InRange [] cs tt h)) ∙ answered) in
    observe_bound (observe_all (observe t c).0 ds).0 (observe_all_log (observe_log log c).0 ds).0 c
      (observe_all-Represents (observe t c).0 (observe_log log c).0 ds r') v
      (find_id-keeps_all (id_key c) (observe_log log c).0 ds bound)

validate_cursor-pos : (c : EventCursor) → validate_cursor c ≡ ok tt → 0 < c.sequence
unfolding validate_cursor
validate_cursor-pos c v =
    let (_, v₁) = check-bind-ok (or_else (validate_id c.provider_id) _) _ v in
    let (_, v₂) = check-bind-ok (or_else (validate_role c.role) _) _ v₁ in
    let (_, v₃) = check-bind-ok (or_else (validate_id c.stream_id) _) _ v₂ in ground arith

-- The answer to a new cursor of a stream.
observe_new :
    (t : SequenceTracker) (log : List EventCursor) (c : EventCursor)
    → Represents t log
    → validate_cursor c ≡ ok tt
    → find_id (id_key c) log ≡ none
    → find_sequence (stream_key c) c.sequence log ≡ none
    → (observe t c).1 ≡ ok (next_outcome (highest_in (stream_key c) log) c.sequence)
unfolding observe observe_valid observe_in
observe_new t log c r v fresh new =
    let k = stream_key c in
    let r' = stream_for-Represents t log k r in
    rw
      (
        v,
        observe,
        r.ids (id_key c) ∙ fresh,
        observe_valid,
        (stream_for_result t k).0,
        r'.seen k c.sequence ∙ new,
        observe_in,
      )
      (ap (λ h. ok (next_outcome h c.sequence))
        (ap (λ (s : SequenceStream). s.highest) (stream_for_result t k).0 ∙ r'.highest k))

-- Once the greatest uint64 is the highest number of a stream, every new cursor of the stream is
-- answered `gap`, though no uint64 lies beyond that number.
pub gap_at_maximum :
    (t : SequenceTracker) (log : List EventCursor) (c : EventCursor)
    → Represents t log
    → highest_in (stream_key c) log ≡ 2 ^ 64 - 1
    → c.sequence < 2 ^ 64
    → validate_cursor c ≡ ok tt
    → find_id (id_key c) log ≡ none
    → find_sequence (stream_key c) c.sequence log ≡ none
    → ((observe t c).1 ≡ ok gap) × (c.sequence ≤ highest_in (stream_key c) log)
unfolding next_outcome
gap_at_maximum t log c r top small v fresh new =
    (observe_new t log c r v fresh new ∙ ground (arith, validate_cursor-pos c v), omega arith)
