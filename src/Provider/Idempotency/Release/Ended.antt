-- ===== src/Provider/Idempotency/Release/Ended.antt =====
-- What the end of a connection does to each record, in provider/server.go, `releaseConnection`.
use mission_control_edge.Common.{
  ℕ, none, some, arith, if◌then◌else◌, Bool-cases, inl, inr, Bytes, ◌==◌, bytes_eq,
}
use mission_control_edge.Provider.Idempotency.{IdempotencyRecord, Server}
use mission_control_edge.Provider.Idempotency.Account.{Balanced}
use mission_control_edge.Provider.Idempotency.Release.{
  records_of, finalize_all, release_connection, release_connection-Balanced,
}
use mission_control_edge.Provider.Idempotency.Release.Loops.{
  ended, Stands, finalize_all-others, finalize_all-own, drop_all-others, drop_all-own,
  records_of-own, records_of-others,
}

-- The record after its removal, which gives up its bytes.
abbrev pub closed : IdempotencyRecord → IdempotencyRecord
closed r = record (ended r) { reserved_bytes = 0 }

-- The end of a connection, when no other section comes between its own: the account of bytes is kept;
-- a record of the connection that both maps have under its keys is out of both, holds no bytes, and
-- is finalized, with an unknown outcome unless it was finalized before; a record of no connection or
-- of another one stays as it is, in both maps.
pub release_connection-Stands :
    (s : Server) (connection : Bytes) (a : ℕ) (r : IdempotencyRecord)
    → Balanced s
    → Stands s a (some a) r r
    → Balanced (release_connection s connection)
      × Stands
          (release_connection s connection)
          a
          (if r.connection_id == connection then none else some a)
          r
          (if r.connection_id == connection then closed r else r)
unfolding release_connection
release_connection-Stands s connection a r b h =
    let records = records_of connection s.heap s.idempotency in
    (
      release_connection-Balanced s connection b,
      elim (Bool-cases (r.connection_id == connection)) [
        | inl own ↦ rw own (
            let here =
              records_of-own connection r.idempotency_id s.heap s.idempotency a r h.0 h.2 own in
            drop_all-own a r (finalize_all s records) records (ended r) here (ground arith)
              (ground arith) (finalize_all-own a r s records r here h))
        | inr other ↦ rw other (
            let out = records_of-others connection s.heap s.idempotency a r h.2 other in
            drop_all-others a r (finalize_all s records) records r out
              (finalize_all-others a r s records r out h))
      ],
    )
