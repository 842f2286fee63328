-- ===== src/Provider/Idempotency/Account.antt =====
-- The count of bytes: it is the sum of what the records reserve, it never exceeds the limit, and no
-- subtraction wraps.
use mission_control_edge.Common.{
  ℕ, ◌^◌, ◌<◌, ◌≤◌, ◌≡◌, Bool, true, false, Option, some, List, [], ◌∷◌, arith, if◌then◌else◌,
  Bool-cases, inl, inr, Bytes, ◌==◌, bytes_eq, Option-cases,
}
use mission_control_edge.Common.Assoc.{lookup}
use mission_control_edge.Protocol.Error.{Error}
use mission_control_edge.Provider.Idempotency.{
  IdempotencyRecord, Server, MutationMeta, CommandResultStatus, record_at, resolve, new_record,
  reserve_new, reserve, settled, settle, drop_record, finalize_mutation, retained_bytes,
  mutation_record_ids,
}
use mission_control_edge.Provider.Idempotency.Store.{
  record_at-write_at, reserved_sum, reserved_sum-write_at,
}

-- The account is right, in a range where uint64 holds it.
pub record Balanced (s : Server) : Type 0 where
  pub total : s.idempotency_bytes ≡ reserved_sum s.heap
  pub capped : s.idempotency_bytes ≤ s.limits.max_idempotency_bytes
  pub in_range : s.limits.max_idempotency_bytes < 2 ^ 64

reserve_new-Balanced :
    (s : Server) (r : IdempotencyRecord)
    → r.reserved_bytes < 2 ^ 64
    → Balanced s
    → Balanced (reserve_new s r).0
unfolding reserve_new
reserve_new-Balanced s r p b = record {
  total = ground (arith, b.total, b.capped, b.in_range);
  capped = ground (arith, b.capped, b.in_range);
  in_range = ground (arith, b.in_range);
}

pub reserve-Balanced :
    (s : Server) (connection : Bytes) (meta : MutationMeta) (maximum : ℕ)
    → maximum < 2 ^ 64
    → Balanced s
    → Balanced (reserve s connection meta maximum).0
unfolding reserve
reserve-Balanced s connection meta maximum p b =
    elim (Option-cases
      (resolve s.heap (lookup (mutation_record_ids connection meta).0 s.idempotency))) [
        | inl e ↦ rw (reserve, e) (reserve_new-Balanced s (new_record connection meta maximum) p b)
        | inr ((a, prior), e) ↦ elim (Bool-cases (prior.digest == meta.command_digest)) [
          | inl d ↦ rw (reserve, e, d) b
          | inr d ↦ rw (reserve, e, d) b
        ]
      ]

settle-Balanced :
    (s : Server) (a : ℕ) (r r' : IdempotencyRecord)
    → record_at a s.heap ≡ some r
    → r'.reserved_bytes ≤ r.reserved_bytes
    → Balanced s
    → Balanced (settle s a r r')
settle-Balanced s a r r' e p b = record {
  total = ground (arith, reserved_sum-write_at a r' s.heap e, b.total, b.capped, b.in_range);
  capped = ground (arith, reserved_sum-write_at a r' s.heap e, b.total, b.capped, b.in_range);
  in_range = b.in_range;
}

pub drop_record-Balanced :
    (s : Server) (a : ℕ) (r : IdempotencyRecord)
    → record_at a s.heap ≡ some r
    → Balanced s
    → Balanced (drop_record s a r)
unfolding drop_record
drop_record-Balanced s a r e b = record {
  total = ground (
    arith,
    reserved_sum-write_at a (record r { reserved_bytes = 0 }) s.heap e,
    b.total,
    b.capped,
    b.in_range,
  );
  capped = ground (
    arith,
    reserved_sum-write_at a (record r { reserved_bytes = 0 }) s.heap e,
    b.total,
    b.capped,
    b.in_range,
  );
  in_range = b.in_range;
}

-- After a settlement the record stands at its address.
pub settle-record_at :
    (s : Server) (a : ℕ) (r r' : IdempotencyRecord)
    → record_at a s.heap ≡ some r
    → record_at a (settle s a r r').heap ≡ some r'
settle-record_at s a r r' e = ground (arith, record_at-write_at a a r' s.heap e)

pub finalize_mutation-Balanced :
    (s : Server) (a : ℕ) (status : CommandResultStatus) (result : Bytes) (failure : Option Error)
    (remove : Bool)
    → ((r : IdempotencyRecord)
        → record_at a s.heap ≡ some r
        → r.finalized ≡ false
        → retained_bytes status result ≤ r.reserved_bytes)
    → Balanced s
    → Balanced (finalize_mutation s a status result failure remove)
unfolding finalize_mutation
finalize_mutation-Balanced s a status result failure remove fits b =
    elim (Option-cases (record_at a s.heap)) [
      | inl e ↦ rw (finalize_mutation, e) b
      | inr (r, e) ↦ elim (Bool-cases r.finalized) [
        | inl done ↦ rw (finalize_mutation, e, done) b
        | inr unset ↦
            let r' = settled r status result failure in
            let after = settle-Balanced s a r r' e (fits r e unset) b in
            rw (finalize_mutation, e, unset)
              (elim (Bool-cases remove) [
                | inl m ↦ rw m (
                    drop_record-Balanced (settle s a r r') a r' (settle-record_at s a r r' e) after)
                | inr m ↦ rw m after
              ])
      ]
    ]

-- The sections of the server in any order, with the addresses that are taken out of the maps. A
-- success is finalized only with a result that fits in what the record reserves.
pub data Steps : Server → List ℕ → Server → Type 0 where
  done : (s : Server) → Steps s [] s
  reserves :
      {s t : Server} {dropped : List ℕ} (connection : Bytes) (meta : MutationMeta) (maximum : ℕ)
      → maximum < 2 ^ 64
      → Steps (reserve s connection meta maximum).0 dropped t
      → Steps s dropped t
  finalizes :
      {s t : Server} {dropped : List ℕ} (a : ℕ) (status : CommandResultStatus) (result : Bytes)
      (failure : Option Error) (remove : Bool)
      → ((r : IdempotencyRecord)
          → record_at a s.heap ≡ some r
          → r.finalized ≡ false
          → retained_bytes status result ≤ r.reserved_bytes)
      → Steps (finalize_mutation s a status result failure remove) dropped t
      → Steps s (if remove then a ∷ dropped else dropped) t
  drops :
      {s t : Server} {dropped : List ℕ} (a : ℕ) (r : IdempotencyRecord)
      → record_at a s.heap ≡ some r
      → r.finalized ≡ true
      → Steps (drop_record s a r) dropped t
      → Steps s (a ∷ dropped) t

-- However the requests, finalizations and removals interleave, the count of bytes stays the sum of
-- what all records reserve, and at most the limit.
pub Steps-Balanced : {s t : Server} {dropped : List ℕ} → Steps s dropped t → Balanced s → Balanced t
Steps-Balanced (done s) b = b
Steps-Balanced (reserves connection meta maximum p rest) b =
    Steps-Balanced rest (reserve-Balanced _ connection meta maximum p b)
Steps-Balanced (finalizes a status result failure remove fits rest) b =
    Steps-Balanced rest (finalize_mutation-Balanced _ a status result failure remove fits b)
Steps-Balanced (drops a r e f rest) b = Steps-Balanced rest (drop_record-Balanced _ a r e b)
