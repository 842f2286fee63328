-- ===== src/Provider/Idempotency/Replay.antt =====
-- A key that has a record keeps it, and a finalized record keeps its answer, until it is taken out of
-- the maps.
use mission_control_edge.Common.{
  ℕ, ◌≡◌, refl, Bool, true, false, Option, some, List, arith, if◌then◌else◌, eqb, Bool-cases, inl,
  inr, Bytes, ◌==◌, bytes_eq, Option-cases, any_of, or-eq-false, nat_eq,
}
use mission_control_edge.Common.Assoc.{lookup}
use mission_control_edge.Protocol.Error.{Error, conflict}
use mission_control_edge.Provider.RpcError.{new_protocol_error}
use mission_control_edge.Provider.Idempotency.{
  IdempotencyRecord, Server, MutationMeta, CommandResultStatus, record_at, resolve, new_record,
  reserve, known, refused, settled, settle, finalize_mutation, mutation_record_ids, replay_answer,
}
use mission_control_edge.Provider.Idempotency.Account.{
  Steps, done, reserves, finalizes, drops, settle-record_at,
}
use mission_control_edge.Provider.Idempotency.Lasting.{
  Later-refl, Bound, settled-Later, reserve_new-Bound, other_key, drop_record-Bound, settle-Bound,
}

module _ (id : Bytes) (a : ℕ) (r : IdempotencyRecord) where
  reserve-Bound :
      (s : Server) (connection : Bytes) (meta : MutationMeta) (maximum : ℕ)
      → Bound s id a r
      → Bound (reserve s connection meta maximum).0 id a r
  unfolding reserve resolve
  reserve-Bound s connection meta maximum b =
      elim (Option-cases
        (resolve s.heap (lookup (mutation_record_ids connection meta).0 s.idempotency))) [
          | inl e ↦
              rw (reserve, e)
                (reserve_new-Bound id a r s (new_record connection meta maximum)
                  (other_key id a r s _ b e) b)
          | inr ((c, prior), e) ↦ elim (Bool-cases (prior.digest == meta.command_digest)) [
            | inl d ↦ rw (reserve, e, d) b
            | inr d ↦ rw (reserve, e, d) b
          ]
        ]

  finalize-Bound :
      (s : Server) (c : ℕ) (status : CommandResultStatus) (result : Bytes) (failure : Option Error)
      (remove : Bool)
      → (remove ≡ true → eqb c a ≡ false)
      → Bound s id a r
      → Bound (finalize_mutation s c status result failure remove) id a r
  unfolding finalize_mutation
  finalize-Bound s c status result failure remove other b =
      elim (Option-cases (record_at c s.heap)) [
        | inl e ↦ rw (finalize_mutation, e) b
        | inr (x, e) ↦ elim (Bool-cases x.finalized) [
          | inl fixed ↦ rw (finalize_mutation, e, fixed) b
          | inr unset ↦
              let x' = settled x status result failure in
              let after =
                settle-Bound id a r s c x x' e (settled-Later x status result failure unset) b in
              rw (finalize_mutation, e, unset)
                (elim (Bool-cases remove) [
                  | inl m ↦ rw m (
                      drop_record-Bound id a r (settle s c x x') c x' (other m)
                        (settle-record_at s c x x' e) refl after)
                  | inr m ↦ rw m after
                ])
        ]
      ]

  pub Steps-Bound :
      {s t : Server} {dropped : List ℕ}
      → Steps s dropped t
      → any_of (λ c. eqb c a) dropped ≡ false
      → Bound s id a r
      → Bound t id a r
  Steps-Bound (done s) kept b = b
  Steps-Bound (reserves connection meta maximum p rest) kept b =
      Steps-Bound rest kept (reserve-Bound _ connection meta maximum b)
  Steps-Bound (finalizes c status result failure true fits rest) kept b =
      let (other, kept') = or-eq-false (eqb c a) _ kept in
      Steps-Bound rest kept' (finalize-Bound _ c status result failure true (λ h. other) b)
  Steps-Bound (finalizes c status result failure false fits rest) kept b =
      Steps-Bound rest kept (finalize-Bound _ c status result failure false (λ h. cc) b)
  Steps-Bound (drops c x e f rest) kept b =
      let (other, kept') = or-eq-false (eqb c a) _ kept in
      Steps-Bound rest kept' (drop_record-Bound id a r _ c x other e f b)

-- What a request with the key of a bound record is told: the record, or a conflict if its content
-- differs. It never reserves, so its handler does not run.
known_or_conflict :
    (s : Server) (connection : Bytes) (meta : MutationMeta) (maximum a : ℕ) (r : IdempotencyRecord)
    → Bound s (mutation_record_ids connection meta).0 a r
    → reserve s connection meta maximum ≡ (
      s,
      if r.digest == meta.command_digest then known a else refused (new_protocol_error conflict),
    )
unfolding reserve resolve
known_or_conflict s connection meta maximum a r (e, r', at, later) = ground (arith, later.digest)

module _ (s t : Server) (dropped : List ℕ) (connection : Bytes) (meta : MutationMeta) (a : ℕ)
    (r : IdempotencyRecord) where
  -- Once a key has a record, and until that record is taken out of the maps, a request with the key
  -- reserves nothing, so that no handler runs for it a second time: it is referred to the record when
  -- its content is the same, and answered conflict when it is not, with the state unchanged.
  pub reserve-Steps :
      (maximum : ℕ)
      → Steps s dropped t
      → any_of (λ c. eqb c a) dropped ≡ false
      → lookup (mutation_record_ids connection meta).0 s.idempotency ≡ some a
      → record_at a s.heap ≡ some r
      → reserve t connection meta maximum ≡ (
        t,
        if r.digest == meta.command_digest then known a else refused (new_protocol_error conflict),
      )
  reserve-Steps maximum steps kept e at =
      known_or_conflict t connection meta maximum a r (
        Steps-Bound (mutation_record_ids connection meta).0 a r steps kept (e, r, at, Later-refl r))

  -- A finalized record, until it is taken out of the maps, gives every later request the same answer:
  -- no later finalization changes it.
  pub replay_answer-Steps :
      Steps s dropped t
      → any_of (λ c. eqb c a) dropped ≡ false
      → lookup (mutation_record_ids connection meta).0 s.idempotency ≡ some a
      → record_at a s.heap ≡ some r
      → r.finalized ≡ true
      → (r' : IdempotencyRecord) × (record_at a t.heap ≡ some r')
        × (r'.finalized ≡ true)
        × (replay_answer r' ≡ replay_answer r)
  replay_answer-Steps steps kept e at f =
      let (_, r', at', later) =
        Steps-Bound (mutation_record_ids connection meta).0 a r steps kept
          (e, r, at, Later-refl r) in
      (r', at', later.finalized f, later.answer f)
