-- ===== src/Provider/Idempotency/Samples.antt =====
-- Two mutations, a repeat, and the end of a connection.
use mission_control_edge.Common.{
  ◌≡◌, ◌≤◌, refl, true, false, none, some, [], Bytes, bytes, ok, err, arith, bytes_eq,
}
use mission_control_edge.Common.Assoc.{lookup, insert, remove}
use mission_control_edge.Protocol.Error.{plain, outcome_unknown}
use mission_control_edge.Provider.Limits.{test_limits}
use mission_control_edge.Provider.RpcError.{new_protocol_error, normalize_protocol_error}
use mission_control_edge.Provider.Idempotency.{
  new_record, Server, MutationMeta, IdempotencyRecord, known, reserved, reserve, reserve_new,
  resolve, record_at, write_at, mutation_record_ids, finalize_mutation, drop_record, delete_same,
  replay_answer, succeeded, failed, unknown_outcome, retained_bytes,
}
use mission_control_edge.Provider.Idempotency.Account.{
  Balanced, Steps, Steps-Balanced, done, reserves, finalizes,
}
use mission_control_edge.Provider.Idempotency.Replay.{reserve-Steps, replay_answer-Steps}
use mission_control_edge.Provider.Idempotency.Keys.{mutation_record_ids-injective, is_attach}
use mission_control_edge.Provider.Idempotency.Release.{
  release_connection, records_of, finalize_all, drop_all,
}
use mission_control_edge.Provider.Idempotency.Release.Loops.{Stands}
use mission_control_edge.Provider.Idempotency.Release.Ended.{closed, release_connection-Stands}
use mission_control_edge.Provider.Idempotency.Execution.{
  Calls, returned, execute, ends, apply_ending, Finalization,
}
use mission_control_edge.Provider.Idempotency.Execution.Honest.{
  execute-dispatched, execute-removed, admission_failed, apply_ending-Balanced, Holds,
}

abbrev empty : Server
empty = record {
  limits = test_limits;
  idempotency = [];
  commands = [];
  idempotency_bytes = 0;
  heap = [];
}

empty-Balanced : Balanced empty
empty-Balanced = record { total = refl; capped = omega arith; in_range = omega arith }

abbrev write_meta : Bytes → Bytes → MutationMeta
write_meta capability command = record {
  capability = capability;
  command_id = command;
  idempotency_key = bytes "k";
  command_digest = bytes "d";
}

abbrev attach : MutationMeta
attach = write_meta (bytes "terminal.attach") (bytes "c1")

abbrev one : Server
one = (reserve empty (bytes "connection-1") attach 100).0

abbrev two : Server
two = finalize_mutation one 0 succeeded (bytes "{}") none false

-- The repeat finds the record, the same key over another connection does not, and the bytes follow.
runs :
    ((reserve two (bytes "connection-1") attach 100).1 ≡ known 0)
    × ((reserve two
          (bytes "connection-2")
          (write_meta (bytes "terminal.attach") (bytes "c2"))
          100).1
        ≡ reserved 1)
    × (one.idempotency_bytes ≡ 100)
    × (two.idempotency_bytes ≡ 2)
    × ((release_connection two (bytes "connection-1")).idempotency_bytes ≡ 0)
    × ((release_connection two (bytes "connection-1")).idempotency ≡ [])
unfolding reserve reserve_new resolve record_at write_at mutation_record_ids finalize_mutation
    drop_record delete_same release_connection records_of finalize_all drop_all lookup insert remove
runs = (refl, refl, refl, refl, refl, refl)

two_fits :
    (r : IdempotencyRecord)
    → record_at 0 one.heap ≡ some r
    → r.finalized ≡ false
    → retained_bytes succeeded (bytes "{}") ≤ r.reserved_bytes
unfolding reserve reserve_new resolve record_at mutation_record_ids lookup
two_fits r at unset = ground arith

-- The reservation and its success, as steps.
two-Steps : Steps empty [] two
two-Steps =
    reserves (bytes "connection-1") attach 100 (omega arith)
      (finalizes 0 succeeded (bytes "{}") none false two_fits (done two))

Steps-Balanced_example : Balanced two
Steps-Balanced_example = Steps-Balanced two-Steps empty-Balanced

abbrev first_record : IdempotencyRecord
first_record = record {
  digest = bytes "d";
  finalized = true;
  result = bytes "{}";
  failure = none;
  status = succeeded;
  reserved_bytes = 2;
  idempotency_id = (mutation_record_ids (bytes "connection-1") attach).0;
  command_id = bytes "c1";
  connection_id = bytes "connection-1";
}

abbrev three : Server
three = (reserve two (bytes "connection-2") (write_meta (bytes "pane.close") (bytes "c2")) 100).0

three-Steps : Steps two [] three
three-Steps =
    reserves (bytes "connection-2") (write_meta (bytes "pane.close") (bytes "c2")) 100 (omega arith)
      (done three)

first_found :
    (lookup (mutation_record_ids (bytes "connection-1") attach).0 two.idempotency ≡ some 0)
    × (record_at 0 two.heap ≡ some first_record)
unfolding reserve reserve_new resolve record_at write_at mutation_record_ids finalize_mutation
    lookup insert remove
first_found = (refl, refl)

reserve-Steps_example : reserve three (bytes "connection-1") attach 100 ≡ (three, known 0)
reserve-Steps_example =
    reserve-Steps two three [] (bytes "connection-1") attach 0 first_record 100 three-Steps refl
      first_found.0 first_found.1

replay_answer-Steps_example :
    (r' : IdempotencyRecord) × (record_at 0 three.heap ≡ some r')
    × (r'.finalized ≡ true)
    × (replay_answer r' ≡ replay_answer first_record)
replay_answer-Steps_example =
    replay_answer-Steps two three [] (bytes "connection-1") attach 0 first_record three-Steps refl
      first_found.0 first_found.1 refl

mutation_record_ids-injective_example :
    (attach.capability ≡ attach.capability)
    × (attach.idempotency_key ≡ attach.idempotency_key)
    × (is_attach attach ≡ true → bytes "connection-1" ≡ bytes "connection-1")
mutation_record_ids-injective_example =
    mutation_record_ids-injective (bytes "connection-1") (bytes "connection-1") attach attach refl
      refl refl refl refl

one-Balanced : Balanced one
one-Balanced =
    Steps-Balanced (reserves (bytes "connection-1") attach 100 (omega arith) (done one))
      empty-Balanced

abbrev pending_record : IdempotencyRecord
pending_record = new_record (bytes "connection-1") attach 100

pending-Stands : Stands one 0 (some 0) pending_record pending_record
unfolding reserve reserve_new resolve record_at mutation_record_ids lookup insert remove
pending-Stands = (refl, refl, refl)

release_connection-Stands_example :
    Balanced (release_connection one (bytes "connection-1"))
    × Stands
        (release_connection one (bytes "connection-1"))
        0
        none
        pending_record
        (closed pending_record)
unfolding mutation_record_ids
release_connection-Stands_example =
    release_connection-Stands one (bytes "connection-1") 0 pending_record one-Balanced
      pending-Stands

-- The handler returns a value that cannot be encoded.
abbrev unencodable : Calls
unencodable = record {
  admission = none;
  setup_error = none;
  dispatch = returned;
  context_error = none;
  prepared = ok tt;
  encoded = none;
  response_checked = ok tt;
  line = none;
}

abbrev unknown : Finalization
unknown = record { status = unknown_outcome; failure = none; remove = false }

unencodable_ending :
    ((execute unencodable 100).dispatched ≡ true)
    × ((execute unencodable 100).ending ≡ ends unknown (new_protocol_error outcome_unknown))
unfolding execute
unencodable_ending = (refl, refl)

execute-dispatched_example :
    (unknown.status ≡ unknown_outcome)
    × (new_protocol_error outcome_unknown ≡ new_protocol_error outcome_unknown)
    × (unknown.remove ≡ false)
execute-dispatched_example =
    execute-dispatched unencodable 100 unencodable_ending.0 refl unencodable_ending.1

abbrev not_admitted : Calls
not_admitted = record unencodable { admission = some (err (plain "full")) }

abbrev removal : Finalization
removal = record {
  status = failed;
  failure = some (normalize_protocol_error (plain "full"));
  remove = true;
}

not_admitted_ending :
    (execute not_admitted 100).ending ≡ ends removal (normalize_protocol_error (plain "full"))
unfolding execute
not_admitted_ending = refl

execute-removed_example :
    (removal.remove ≡ admission_failed not_admitted.admission)
    × (removal.remove ≡ true
        → ((execute not_admitted 100).dispatched ≡ false) × (removal.status ≡ failed))
execute-removed_example = execute-removed not_admitted 100 not_admitted_ending

abbrev encodable : Calls
encodable = record unencodable { encoded = some (bytes "{}"); line = some (bytes "{'result':{}}") }

one-Holds : Holds one 0 100
unfolding reserve reserve_new resolve record_at mutation_record_ids lookup
one-Holds r at unset = ground arith

apply_ending-Balanced_example : Balanced (apply_ending one 0 (execute encodable 100).ending true)
apply_ending-Balanced_example =
    apply_ending-Balanced one 0 100 true encodable (λ raw line e l. ground arith) one-Holds
      (Steps-Balanced (reserves (bytes "connection-1") attach 100 (omega arith) (done one))
        empty-Balanced)
