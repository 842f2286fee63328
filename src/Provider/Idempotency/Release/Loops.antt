-- ===== src/Provider/Idempotency/Release/Loops.antt =====
-- provider/server.go, the three loops of `releaseConnection`: what they do to one record.
use mission_control_edge.Common.{
  ℕ, ◌≡◌, refl, Bool, true, false, ◌&&◌, Option, none, some, List, [], ◌∷◌, arith, if◌then◌else◌,
  eqb, any_of, Bool-cases, Option-cases, inl, inr, Bytes, ◌==◌, bytes_eq, bytes_beq_iff,
  or-eq-false, sym, subst, true-not-false,
}
use mission_control_edge.Common.Assoc.{Assoc, lookup, lookup-remove}
use mission_control_edge.Provider.Idempotency.{
  IdempotencyRecord, Server, unknown_outcome, record_at, settled, drop_record, delete_same,
  finalize_mutation,
}
use mission_control_edge.Provider.Idempotency.Store.{record_at-write_at}
use mission_control_edge.Provider.Idempotency.Release.{records_of, finalize_all, drop_all}

-- The address is in the list.
abbrev pub among : ℕ → List ℕ → Bool
among a = any_of (λ c. eqb c a)

-- A record whose mutation ends with its connection: unknown, unless it was finalized before.
abbrev pub ended : IdempotencyRecord → IdempotencyRecord
ended r = if r.finalized then r else settled r unknown_outcome [] none

-- What the two maps have under the keys of a record, and the record itself.
abbrev pub Stands : Server → ℕ → Option ℕ → IdempotencyRecord → IdempotencyRecord → Type 0
Stands s a entry keys r =
    (lookup keys.idempotency_id s.idempotency ≡ entry)
    × (lookup keys.command_id s.commands ≡ entry)
    × (record_at a s.heap ≡ some r)

ended_twice :
    (r : IdempotencyRecord) (b : Bool) → (if b then ended (ended r) else ended r) ≡ ended r
ended_twice r b = ground arith

delete_same-lookup :
    (k id : Bytes) (c a : ℕ) (m : Assoc Bytes ℕ)
    → lookup id m ≡ some a
    → lookup id (delete_same k c m) ≡ (if eqb c a && (k == id) then none else some a)
unfolding delete_same
delete_same-lookup k id c a m h = ground (arith, lookup-remove k id m, bytes_beq_iff k id)

delete_same-absent :
    (k id : Bytes) (c : ℕ) (m : Assoc Bytes ℕ)
    → lookup id m ≡ none
    → lookup id (delete_same k c m) ≡ none
unfolding delete_same
delete_same-absent k id c m h = ground (arith, lookup-remove k id m)

module _ (a : ℕ) (keys : IdempotencyRecord) where
  finalize-Stands :
      (s : Server) (c : ℕ) (entry : Option ℕ) (r : IdempotencyRecord)
      → Stands s a entry keys r
      → Stands
          (finalize_mutation s c unknown_outcome [] none false)
          a
          entry
          keys
          (if eqb c a then ended r else r)
  unfolding finalize_mutation
  finalize-Stands s c entry r (e, f, at) = elim (Option-cases (record_at c s.heap)) [
    | inl free ↦ rw (finalize_mutation, free) (e, f, ground arith)
    | inr (x, at') ↦ elim (Bool-cases x.finalized) [
      | inl done ↦ rw (finalize_mutation, at', done) (e, f, ground arith)
      | inr unset ↦
          rw (finalize_mutation, at', unset)
            (
              e,
              f,
              ground (arith, record_at-write_at c a (settled x unknown_outcome [] none) s.heap at'),
            )
    ]
  ]

  drop-other :
      (s : Server) (c : ℕ) (entry : Option ℕ) (r x : IdempotencyRecord)
      → eqb c a ≡ false
      → record_at c s.heap ≡ some x
      → Stands s a (some a) keys r
      → Stands (drop_record s c x) a (some a) keys r
  unfolding drop_record
  drop-other s c entry r x other at' (e, f, at) = (
    ground (arith, delete_same-lookup x.idempotency_id keys.idempotency_id c a s.idempotency e),
    ground (arith, delete_same-lookup x.command_id keys.command_id c a s.commands f),
    ground (arith, record_at-write_at c a (record x { reserved_bytes = 0 }) s.heap at'),
  )

  drop-absent :
      (s : Server) (c : ℕ) (r x : IdempotencyRecord)
      → record_at c s.heap ≡ some x
      → Stands s a none keys (record r { reserved_bytes = 0 })
      → Stands (drop_record s c x) a none keys (record r { reserved_bytes = 0 })
  unfolding drop_record
  drop-absent s c r x at' (e, f, at) = (
    delete_same-absent x.idempotency_id keys.idempotency_id c s.idempotency e,
    delete_same-absent x.command_id keys.command_id c s.commands f,
    ground (arith, record_at-write_at c a (record x { reserved_bytes = 0 }) s.heap at'),
  )

  drop-own :
      (s : Server) (c : ℕ) (r x : IdempotencyRecord)
      → eqb c a ≡ true
      → r.idempotency_id ≡ keys.idempotency_id
      → r.command_id ≡ keys.command_id
      → record_at c s.heap ≡ some x
      → Stands s a (some a) keys r
      → Stands (drop_record s c x) a none keys (record r { reserved_bytes = 0 })
  unfolding drop_record
  drop-own s c r x own i j at' (e, f, at) = (
    ground (
      arith,
      delete_same-lookup x.idempotency_id keys.idempotency_id c a s.idempotency e,
      bytes_beq_iff x.idempotency_id keys.idempotency_id,
    ),
    ground (
      arith,
      delete_same-lookup x.command_id keys.command_id c a s.commands f,
      bytes_beq_iff x.command_id keys.command_id,
    ),
    ground (arith, record_at-write_at c a (record x { reserved_bytes = 0 }) s.heap at'),
  )

  pub finalize_all-others :
      (s : Server) (l : List ℕ) (r : IdempotencyRecord)
      → among a l ≡ false
      → Stands s a (some a) keys r
      → Stands (finalize_all s l) a (some a) keys r
  unfolding finalize_all
  finalize_all-others s [] r out h = h
  finalize_all-others s (c ∷ rest) r out h =
      let (other, out') = or-eq-false (eqb c a) (among a rest) out in
      finalize_all-others (finalize_mutation s c unknown_outcome [] none false) rest r out' (
        subst
          (λ b.
            Stands (finalize_mutation s c unknown_outcome [] none false) a (some a) keys
              (if b then ended r else r))
          other (finalize-Stands s c (some a) r h))

  finalize_all-ended :
      (s : Server) (l : List ℕ) (r : IdempotencyRecord)
      → Stands s a (some a) keys (ended r)
      → Stands (finalize_all s l) a (some a) keys (ended r)
  unfolding finalize_all
  finalize_all-ended s [] r h = h
  finalize_all-ended s (c ∷ rest) r h =
      finalize_all-ended (finalize_mutation s c unknown_outcome [] none false) rest r (
        subst (Stands (finalize_mutation s c unknown_outcome [] none false) a (some a) keys)
          (ended_twice r (eqb c a)) (finalize-Stands s c (some a) (ended r) h))

  pub finalize_all-own :
      (s : Server) (l : List ℕ) (r : IdempotencyRecord)
      → among a l ≡ true
      → Stands s a (some a) keys r
      → Stands (finalize_all s l) a (some a) keys (ended r)
  unfolding finalize_all
  finalize_all-own s [] r here h = absurd (true-not-false (sym here))
  finalize_all-own s (c ∷ rest) r here h =
      let next = finalize_mutation s c unknown_outcome [] none false in
      let step = finalize-Stands s c (some a) r h in
      elim (Bool-cases (eqb c a)) [
        | inl own ↦
            finalize_all-ended next rest r
              (subst (λ b. Stands next a (some a) keys (if b then ended r else r)) own step)
        | inr other ↦
            finalize_all-own next rest r (ground arith)
              (subst (λ b. Stands next a (some a) keys (if b then ended r else r)) other step)
      ]

  pub drop_all-others :
      (s : Server) (l : List ℕ) (r : IdempotencyRecord)
      → among a l ≡ false
      → Stands s a (some a) keys r
      → Stands (drop_all s l) a (some a) keys r
  unfolding drop_all
  drop_all-others s [] r out h = h
  drop_all-others s (c ∷ rest) r out h =
      let (other, out') = or-eq-false (eqb c a) (among a rest) out in
      elim (Option-cases (record_at c s.heap)) [
        | inl free ↦ rw (drop_all, free) (drop_all-others s rest r out' h)
        | inr (x, at) ↦
            rw (drop_all, at)
              (drop_all-others (drop_record s c x) rest r out'
                (drop-other s c (some a) r x other at h))
      ]

  drop_all-absent :
      (s : Server) (l : List ℕ) (r : IdempotencyRecord)
      → Stands s a none keys (record r { reserved_bytes = 0 })
      → Stands (drop_all s l) a none keys (record r { reserved_bytes = 0 })
  unfolding drop_all
  drop_all-absent s [] r h = h
  drop_all-absent s (c ∷ rest) r h = elim (Option-cases (record_at c s.heap)) [
    | inl free ↦ rw (drop_all, free) (drop_all-absent s rest r h)
    | inr (x, at) ↦
        rw (drop_all, at) (drop_all-absent (drop_record s c x) rest r (drop-absent s c r x at h))
  ]

  pub drop_all-own :
      (s : Server) (l : List ℕ) (r : IdempotencyRecord)
      → among a l ≡ true
      → r.idempotency_id ≡ keys.idempotency_id
      → r.command_id ≡ keys.command_id
      → Stands s a (some a) keys r
      → Stands (drop_all s l) a none keys (record r { reserved_bytes = 0 })
  unfolding drop_all
  drop_all-own s [] r here i j h = absurd (true-not-false (sym here))
  drop_all-own s (c ∷ rest) r here i j h = elim (Option-cases (record_at c s.heap)) [
    | inl free ↦ rw (drop_all, free) (drop_all-own s rest r (ground arith) i j h)
    | inr (x, at) ↦ elim (Bool-cases (eqb c a)) [
      | inl own ↦
          rw (drop_all, at)
            (drop_all-absent (drop_record s c x) rest r (drop-own s c r x own i j at h))
      | inr other ↦
          rw (drop_all, at)
            (drop_all-own (drop_record s c x) rest r (ground arith) i j
              (drop-other s c (some a) r x other at h))
    ]
  ]

-- The records that the first loop finds are those of the connection that the map has.
pub records_of-own :
    (connection id : Bytes) (heap : List IdempotencyRecord) (m : Assoc Bytes ℕ) (a : ℕ)
    (r : IdempotencyRecord)
    → lookup id m ≡ some a
    → record_at a heap ≡ some r
    → (r.connection_id == connection) ≡ true
    → among a (records_of connection heap m) ≡ true
unfolding lookup records_of
records_of-own connection id heap [] a r e at own = cc
records_of-own connection id heap ((k, c) ∷ m) a r e at own =
    ground (arith, records_of-own connection id heap m a r)

pub records_of-others :
    (connection : Bytes) (heap : List IdempotencyRecord) (m : Assoc Bytes ℕ) (a : ℕ)
    (r : IdempotencyRecord)
    → record_at a heap ≡ some r
    → (r.connection_id == connection) ≡ false
    → among a (records_of connection heap m) ≡ false
unfolding records_of
records_of-others connection heap [] a r at other = refl
records_of-others connection heap ((k, c) ∷ m) a r at other =
    ground (arith, records_of-others connection heap m a r at other)
