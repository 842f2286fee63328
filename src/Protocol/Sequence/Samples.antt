-- ===== src/Protocol/Sequence/Samples.antt =====
-- Deliveries to a tracker that the source's tests use: repeats, a gap and a conflict.
use mission_control_edge.Common.{
  ℕ, ◌-◌, ◌≤◌, ◌^◌, ◌≡◌, refl, List, [], ◌∷◌, ◌++◌, arith, Bytes, bytes, replicate, ok, err,
}
use mission_control_edge.Common.Assoc.{lookup}
use mission_control_edge.Protocol.Error.{sequence_conflict, protocol_error}
use mission_control_edge.Protocol.Text.{validate_id}
use mission_control_edge.Protocol.Identity.{validate_role, validate_digest, role_agent_harness}
use mission_control_edge.Protocol.Sequence.{
  EventCursor, accepted, duplicate, gap, new_sequence_tracker, validate_cursor, observe,
  observe_valid, observe_in, stream_for, commit, next_outcome, stream_key,
}
use mission_control_edge.Protocol.Sequence.Log.{
  find_id, find_sequence, highest_in, bind_log, observe_log,
}
use mission_control_edge.Protocol.Sequence.Refinement.{observe-Agrees, new-Represents}
use mission_control_edge.Protocol.Sequence.Traces.{
  observe_all, observe_all_log, observe_all-refines, redelivery_is_duplicate, gap_at_maximum,
}

abbrev cursor : Bytes → ℕ → EventCursor
cursor event sequence = record {
  provider_id = bytes "p";
  role = role_agent_harness;
  stream_id = bytes "s";
  event_id = event;
  sequence = sequence;
  digest = bytes "sha256:" ++ replicate 64 b'0';
}

abbrev deliveries : List EventCursor
deliveries =
    cursor (bytes "a") 1
    ∷ cursor (bytes "b") 5
    ∷ cursor (bytes "a") 1
    ∷ cursor (bytes "a") 6
    ∷ cursor (bytes "d") 3
    ∷ []

answers :
    (observe_all new_sequence_tracker deliveries).1
    ≡ ok accepted
      ∷ ok gap
      ∷ ok duplicate
      ∷ err (protocol_error sequence_conflict)
      ∷ ok accepted
      ∷ []
unfolding observe_all observe observe_valid observe_in stream_for commit next_outcome
    validate_cursor validate_id validate_role validate_digest lookup
answers = refl

observe_all-refines_example :
    (observe_all new_sequence_tracker deliveries).1 ≡ (observe_all_log [] deliveries).1
observe_all-refines_example = (observe_all-refines deliveries (omega arith)).0

abbrev last : EventCursor
last = cursor (bytes "a") (2 ^ 64 - 1)

last_answer : (observe (observe_all new_sequence_tracker []).0 last).1 ≡ ok accepted
unfolding observe_all observe observe_valid observe_in stream_for commit next_outcome
    validate_cursor validate_id validate_role validate_digest lookup
last_answer = refl

redelivery_is_duplicate_example :
    let first = observe (observe_all new_sequence_tracker []).0 last in
    let later = (observe_all first.0 deliveries).0 in observe later last ≡ (later, ok duplicate)
redelivery_is_duplicate_example = redelivery_is_duplicate [] deliveries last tt last_answer

abbrev late : EventCursor
late = cursor (bytes "b") 7

late_valid : validate_cursor late ≡ ok tt
unfolding validate_cursor validate_id validate_role validate_digest
late_valid = refl

gap_at_maximum_example :
    ((observe (observe new_sequence_tracker last).0 late).1 ≡ ok gap)
    × (7 ≤ highest_in (stream_key late) (last ∷ []))
unfolding observe_log bind_log validate_cursor validate_id validate_role validate_digest find_id
    find_sequence highest_in
gap_at_maximum_example =
    gap_at_maximum (observe new_sequence_tracker last).0 (last ∷ []) late
      (observe-Agrees new_sequence_tracker [] last new-Represents).1 refl (omega arith) late_valid
      refl refl
