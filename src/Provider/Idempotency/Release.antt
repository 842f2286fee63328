-- ===== src/Provider/Idempotency/Release.antt =====
-- The end of a connection and the query for a command's result, in provider/server.go.
pub mod Loops
pub mod Ended
use mission_control_edge.Common.{
  ℕ, arith, Option-cases, inl, inr, false, Option, none, some, List, [], ◌∷◌, Bytes, ok, err,
  Outcome, if◌then◌else◌, ◌==◌, bytes_eq,
}
use mission_control_edge.Common.Assoc.{Assoc, lookup}
use mission_control_edge.Protocol.Error.{Error, unavailable}
use mission_control_edge.Provider.RpcError.{new_protocol_error}
use mission_control_edge.Provider.Idempotency.Account.{
  Balanced, finalize_mutation-Balanced, drop_record-Balanced,
}
use mission_control_edge.Provider.Idempotency.{
  IdempotencyRecord, Server, CommandResultStatus, pending, succeeded, failed, unknown_outcome,
  record_at, resolve, finalize_mutation, drop_record,
}

-- The first loop of `releaseConnection`: the records of the connection in the map.
unfoldable pub records_of : Bytes → List IdempotencyRecord → Assoc Bytes ℕ → List ℕ
records_of connection heap [] = []
records_of connection heap ((id, a) ∷ rest) =
    let others = records_of connection heap rest in
    elim (record_at a heap) [
      | none ↦ others
      | some r ↦ if r.connection_id == connection then a ∷ others else others
    ]

-- The second loop.
unfoldable pub finalize_all : Server → List ℕ → Server
finalize_all s [] = s
finalize_all s (a ∷ rest) = finalize_all (finalize_mutation s a unknown_outcome [] none false) rest

-- The third loop, which holds the mutex throughout.
unfoldable pub drop_all : Server → List ℕ → Server
drop_all s [] = s
drop_all s (a ∷ rest) = elim (record_at a s.heap) [
  | none ↦ drop_all s rest
  | some r ↦ drop_all (drop_record s a r) rest
]

-- releaseConnection, when no other section comes between its own.
unfoldable pub release_connection : Server → Bytes → Server
unfolding records_of finalize_all drop_all
release_connection s connection =
    let records = records_of connection s.heap s.idempotency in
    drop_all (finalize_all s records) records

-- `protocol.CommandResult`, less the time of the observation.
pub record CommandResult : Type 0 where
  pub command_id : Bytes
  pub status : CommandResultStatus
  pub result : Bytes
  pub failure : Option Error

result_of : Bytes → IdempotencyRecord → CommandResult
result_of command r = elim r.status [
  | failed ↦ record { command_id = command; status = failed; result = []; failure = r.failure }
  | succeeded ↦ record {
    command_id = command;
    status = succeeded;
    result = r.result;
    failure = none;
  }
  | unknown_outcome ↦ record {
    command_id = command;
    status = unknown_outcome;
    result = [];
    failure = none;
  }
  | pending ↦ record { command_id = command; status = pending; result = []; failure = none }
]

-- commandResult
pub command_result : Server → Bytes → Outcome Error CommandResult
unfolding resolve result_of
command_result s command = elim (resolve s.heap (lookup command s.commands)) [
  | none ↦ err (new_protocol_error unavailable)
  | some (a, r) ↦
      if r.finalized
      then ok (result_of command r)
      else ok (record { command_id = command; status = pending; result = []; failure = none })
]

finalize_all-Balanced : (s : Server) (l : List ℕ) → Balanced s → Balanced (finalize_all s l)
unfolding finalize_all
finalize_all-Balanced s [] b = b
finalize_all-Balanced s (a ∷ rest) b =
    finalize_all-Balanced (finalize_mutation s a unknown_outcome [] none false) rest
      (finalize_mutation-Balanced s a unknown_outcome [] none false (λ r at unset. ground arith) b)

drop_all-Balanced : (s : Server) (l : List ℕ) → Balanced s → Balanced (drop_all s l)
unfolding drop_all
drop_all-Balanced s [] b = b
drop_all-Balanced s (a ∷ rest) b = elim (Option-cases (record_at a s.heap)) [
  | inl e ↦ rw (drop_all, e) (drop_all-Balanced s rest b)
  | inr (r, e) ↦
      rw (drop_all, e) (drop_all-Balanced (drop_record s a r) rest (drop_record-Balanced s a r e b))
]

-- The loops keep the account of bytes, whatever records they are given.
pub release_connection-Balanced :
    (s : Server) (connection : Bytes) → Balanced s → Balanced (release_connection s connection)
unfolding release_connection
release_connection-Balanced s connection b =
    let records = records_of connection s.heap s.idempotency in
    drop_all-Balanced (finalize_all s records) records (finalize_all-Balanced s records b)
