-- ===== src/Provider/Idempotency.antt =====
-- provider/server.go: the record of mutations that the server keeps, `Server` with its two maps and
-- its count of bytes. The maps hold pointers to records: here addresses into a heap, which only
-- grows. The functions below are the sections of the source that hold the mutex, each one step; a
-- reader that waits for `done` waits outside of them.
pub mod Execution
pub mod Store
pub mod Account
pub mod Lasting
pub mod Replay
pub mod Keys
pub mod Release
mod Samples
use mission_control_edge.Common.{
  ℕ, suc, ◌+◌, ◌-◌, ◌%◌, ◌^◌, Bool, true, false, ◌||◌, ◌&&◌, not, Option, none, some, List, [], ◌∷◌,
  ◌++◌, is_empty, Bytes, bytes, ok, err, Check, Outcome, if◌then◌else◌, ltb, leb, eqb, length, ◌==◌,
  bytes_eq,
}
use mission_control_edge.Common.Int.{ℤ, pos, leb_ℤ}
use mission_control_edge.Common.Assoc.{Assoc, lookup, insert, remove}
use mission_control_edge.Protocol.Error.{
  Error, conflict, unavailable, outcome_unknown, resource_exhausted,
}
use mission_control_edge.Provider.Limits.{Limits}
use mission_control_edge.Provider.RpcError.{new_protocol_error}

-- The constants of `protocol.CommandResultStatus` that the server uses.
pub data CommandResultStatus : Type 0 where
  pending succeeded failed unknown_outcome : CommandResultStatus

-- `finalized` is the state of `done` and of `finalize` together: both change in `finalizeMutation`.
pub record IdempotencyRecord : Type 0 where
  pub digest : Bytes
  pub finalized : Bool
  pub result : Bytes
  pub failure : Option Error
  pub status : CommandResultStatus
  pub reserved_bytes : ℕ
  pub idempotency_id : Bytes
  pub command_id : Bytes
  pub connection_id : Bytes

pub record Server : Type 0 where
  pub limits : Limits
  pub idempotency : Assoc Bytes ℕ
  pub commands : Assoc Bytes ℕ
  pub idempotency_bytes : ℕ
  pub heap : List IdempotencyRecord

-- The fields of `MutationMeta` that the server reads here.
pub record MutationMeta : Type 0 where
  pub capability : Bytes
  pub command_id : Bytes
  pub idempotency_key : Bytes
  pub command_digest : Bytes

-- The newest record stands first; the address of a record is the number of older ones.
unfoldable pub record_at : ℕ → List IdempotencyRecord → Option IdempotencyRecord
record_at a [] = none
record_at a (r ∷ heap) =
    let older = record_at a heap in if eqb a (length heap) then some r else older

unfoldable pub write_at : ℕ → IdempotencyRecord → List IdempotencyRecord → List IdempotencyRecord
write_at a new [] = []
write_at a new (r ∷ heap) =
    let older = write_at a new heap in if eqb a (length heap) then new ∷ heap else r ∷ older

-- Subtraction of uint64.
abbrev pub sub_uint64 : ℕ → ℕ → ℕ
sub_uint64 a b = (a + 2 ^ 64 - b) % 2 ^ 64

-- mutationRecordIDs
unfoldable pub mutation_record_ids : Bytes → MutationMeta → Bytes × Bytes × Bytes
mutation_record_ids connection meta =
    if meta.capability == bytes "terminal.attach"
    then (
      meta.capability ++ 0 ∷ (connection ++ 0 ∷ meta.idempotency_key),
      meta.command_id,
      connection,
    )
    else (meta.capability ++ 0 ∷ meta.idempotency_key, meta.command_id, [])

-- How the first section of `executeMutation` ends.
pub data Admission : Type 0 where
  known : ℕ → Admission
  refused : Error → Admission
  reserved : ℕ → Admission

-- A map entry with the record that it points to; the pointers in the maps are never nil.
pub resolve : List IdempotencyRecord → Option ℕ → Option (ℕ × IdempotencyRecord)
resolve heap none = none
resolve heap (some a) = elim (record_at a heap) [ none ↦ none | some r ↦ some (a, r) ]

-- The record that a new mutation gets.
abbrev pub new_record : Bytes → MutationMeta → ℕ → IdempotencyRecord
new_record connection meta maximum = record {
  digest = meta.command_digest;
  finalized = false;
  result = [];
  failure = none;
  status = pending;
  reserved_bytes = maximum;
  idempotency_id = (mutation_record_ids connection meta).0;
  command_id = (mutation_record_ids connection meta).1;
  connection_id = (mutation_record_ids connection meta).2;
}

-- The state with a new record in both maps.
abbrev pub with_record : Server → IdempotencyRecord → Server
with_record s r = record s {
  idempotency = insert r.idempotency_id (length s.heap) s.idempotency;
  commands = insert r.command_id (length s.heap) s.commands;
  idempotency_bytes = (s.idempotency_bytes + r.reserved_bytes) % 2 ^ 64;
  heap = r ∷ s.heap;
}

-- The tests for a new mutation, when no record has its key.
pub reserve_new : Server → IdempotencyRecord → Server × Admission
unfolding resolve
reserve_new s r = elim (resolve s.heap (lookup r.command_id s.commands)) [
  | some existing ↦ (s, refused (new_protocol_error conflict))
  | none ↦
      if leb_ℤ s.limits.max_idempotency_entries (pos (length s.idempotency))
      then (s, refused (new_protocol_error resource_exhausted))
      else if ltb (sub_uint64 s.limits.max_idempotency_bytes s.idempotency_bytes) r.reserved_bytes
      then (s, refused (new_protocol_error resource_exhausted))
      else (with_record s r, reserved (length s.heap))
]

-- `executeMutation`, up to the end of its first section.
pub reserve : Server → Bytes → MutationMeta → ℕ → Server × Admission
unfolding resolve
reserve s connection meta maximum =
    elim (resolve s.heap (lookup (mutation_record_ids connection meta).0 s.idempotency)) [
      | some (a, prior) ↦
          if not (prior.digest == meta.command_digest)
          then (s, refused (new_protocol_error conflict))
          else (s, known a)
      | none ↦ reserve_new s (new_record connection meta maximum)
    ]

-- `*prior.err`; `finalizeMutation` stores an error whenever it stores the status failed.
abbrev or_unavailable : Option Error → Error
or_unavailable none = new_protocol_error unavailable
or_unavailable (some e) = e

-- What a later request with the same key is answered when the record is finalized.
pub replay_answer : IdempotencyRecord → Outcome Error Bytes
replay_answer r = elim r.status [
  | succeeded ↦ ok r.result
  | failed ↦ err (or_unavailable r.failure)
  | unknown_outcome ↦ err (new_protocol_error outcome_unknown)
  | pending ↦ err (new_protocol_error unavailable)
]

-- `if m[id] == record { delete(m, id) }`
pub delete_same : Bytes → ℕ → Assoc Bytes ℕ → Assoc Bytes ℕ
delete_same id a m = elim (lookup id m) [ none ↦ m | some b ↦ if eqb b a then remove id m else m ]

abbrev pub is_succeeded : CommandResultStatus → Bool
is_succeeded succeeded = true
is_succeeded _ = false

-- What is retained of the bytes reserved.
abbrev pub retained_bytes : CommandResultStatus → Bytes → ℕ
retained_bytes status result = if is_succeeded status then length result else 0

-- `if failure != nil { record.err = &value }`
abbrev or_before : Option Error → Option Error → Option Error
or_before (some e) before = some e
or_before none before = before

-- The record after `finalizeMutation`, less its removal.
abbrev pub settled :
    IdempotencyRecord → CommandResultStatus → Bytes → Option Error → IdempotencyRecord
settled r status result failure = record r {
  finalized = true;
  status = status;
  result = result;
  failure = or_before failure r.failure;
  reserved_bytes = retained_bytes status result;
}

-- The count after a record has given up all but `retained` of the bytes that it reserved.
abbrev pub give_back : ℕ → ℕ → ℕ → ℕ
give_back total before retained =
    if leb retained before then sub_uint64 total (before - retained) else total

-- Out of both maps, with its bytes.
pub drop_record : Server → ℕ → IdempotencyRecord → Server
unfolding delete_same
drop_record s a r = record s {
  idempotency = delete_same r.idempotency_id a s.idempotency;
  commands = delete_same r.command_id a s.commands;
  idempotency_bytes =
      if leb r.reserved_bytes s.idempotency_bytes
      then sub_uint64 s.idempotency_bytes r.reserved_bytes
      else s.idempotency_bytes;
  heap = write_at a (record r { reserved_bytes = 0 }) s.heap;
}

-- The state after the first run of `finalizeMutation` on a record, less its removal.
abbrev pub settle : Server → ℕ → IdempotencyRecord → IdempotencyRecord → Server
settle s a r r' = record s {
  idempotency_bytes = give_back s.idempotency_bytes r.reserved_bytes r'.reserved_bytes;
  heap = write_at a r' s.heap;
}

-- finalizeMutation, on the record at an address.
pub finalize_mutation : Server → ℕ → CommandResultStatus → Bytes → Option Error → Bool → Server
unfolding drop_record
finalize_mutation s a status result failure remove = elim (record_at a s.heap) [
  | none ↦ s
  | some r ↦
      let r' = settled r status result failure in
      if r.finalized
      then s
      else if remove
      then drop_record (settle s a r r') a r'
      else settle s a r r'
]
