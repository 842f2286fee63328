-- ===== src/Provider/Idempotency/Lasting.antt =====
-- provider/server.go: the later states of a record, and a key that keeps its record in the maps.
use mission_control_edge.Common.{
  ℕ, ◌≡◌, ◌∙◌, sym, subst, ◌⊎◌, refl, true, false, Option, none, some, List, arith, ltb, eqb,
  length, Bool-cases, inl, inr, Bytes, ◌==◌, bytes_eq, bytes_beq_iff, Option-cases, nat_eq,
}
use mission_control_edge.Common.Int.{pos, leb_ℤ}
use mission_control_edge.Common.Assoc.{lookup, lookup-insert, lookup-remove}
use mission_control_edge.Protocol.Error.{Error}
use mission_control_edge.Provider.Idempotency.{
  IdempotencyRecord, Server, CommandResultStatus, record_at, write_at, resolve, with_record,
  reserve_new, settled, settle, sub_uint64, drop_record, delete_same, replay_answer,
}
use mission_control_edge.Provider.Idempotency.Store.{record_at-older, record_at-write_at}

-- A later state of a record.
pub record Later (r r' : IdempotencyRecord) : Type 0 where
  pub digest : r'.digest ≡ r.digest
  pub finalized : r.finalized ≡ true → r'.finalized ≡ true
  pub answer : r.finalized ≡ true → replay_answer r' ≡ replay_answer r
  pub unset : r'.finalized ≡ false → (r.finalized ≡ false) × (r'.reserved_bytes ≡ r.reserved_bytes)

pub Later-refl : (r : IdempotencyRecord) → Later r r
Later-refl r = record {
  digest = refl;
  finalized = λ h. h;
  answer = λ h. refl;
  unset = λ h. (h, refl);
}

-- The key has the record at the address, in a later state.
abbrev pub Bound : Server → Bytes → ℕ → IdempotencyRecord → Type 0
Bound s id a r =
    (lookup id s.idempotency ≡ some a)
    × (r' : IdempotencyRecord) × (record_at a s.heap ≡ some r')
    × Later r r'

Later-trans : (r s t : IdempotencyRecord) → Later r s → Later s t → Later r t
Later-trans r s t l m = record {
  digest = m.digest ∙ l.digest;
  finalized = λ h. m.finalized (l.finalized h);
  answer = λ h. m.answer (l.finalized h) ∙ l.answer h;
  unset = λ h. let (h', same) = m.unset h in let (h'', same') = l.unset h' in (h'', same ∙ same');
}

same_record :
    (a c : ℕ) (heap : List IdempotencyRecord) (r x : IdempotencyRecord)
    → eqb c a ≡ true
    → record_at a heap ≡ some r
    → record_at c heap ≡ some x
    → r ≡ x
same_record a c heap r x h e f = ground arith

-- The two states that the tests for a new mutation end in.
reserve_new-cases :
    (s : Server) (x : IdempotencyRecord)
    → ((reserve_new s x).0 ≡ s) ⊎ ((reserve_new s x).0 ≡ with_record s x)
unfolding reserve_new
reserve_new-cases s x = elim (Option-cases (resolve s.heap (lookup x.command_id s.commands))) [
  | inr (existing, e) ↦ rw (reserve_new, e) (inl refl)
  | inl e ↦
      elim (Bool-cases (leb_ℤ s.limits.max_idempotency_entries (pos (length s.idempotency)))) [
        | inl full ↦ rw (reserve_new, e, full) (inl refl)
        | inr room ↦
            elim (Bool-cases (
              ltb (sub_uint64 s.limits.max_idempotency_bytes s.idempotency_bytes)
                x.reserved_bytes)) [
                  | inl full ↦ rw (reserve_new, e, room, full) (inl refl)
                  | inr fits ↦ rw (reserve_new, e, room, fits) (inr refl)
                ]
      ]
]

pub settled-Later :
    (r : IdempotencyRecord) (status : CommandResultStatus) (result : Bytes) (failure : Option Error)
    → r.finalized ≡ false
    → Later r (settled r status result failure)
settled-Later r status result failure h = record {
  digest = refl;
  finalized = λ f. refl;
  answer = λ f. cc;
  unset = λ f. cc;
}

module _ (id : Bytes) (a : ℕ) (r : IdempotencyRecord) where
  -- A new record takes another key, since this one is found.
  with_record-Bound :
      (s : Server) (x : IdempotencyRecord)
      → (x.idempotency_id == id) ≡ false
      → Bound s id a r
      → Bound (with_record s x) id a r
  with_record-Bound s x other (e, r', at, later) = (
    ground (arith, lookup-insert x.idempotency_id id (length s.heap) s.idempotency),
    r',
    record_at-older a x s.heap at,
    later,
  )

  pub reserve_new-Bound :
      (s : Server) (x : IdempotencyRecord)
      → (x.idempotency_id == id) ≡ false
      → Bound s id a r
      → Bound (reserve_new s x).0 id a r
  reserve_new-Bound s x other b = elim (reserve_new-cases s x) [
    | inl same ↦ subst (λ t. Bound t id a r) (sym same) b
    | inr new ↦ subst (λ t. Bound t id a r) (sym new) (with_record-Bound s x other b)
  ]

  delete_same-other :
      (k : Bytes) (c : ℕ) (s : Server)
      → (eqb c a) ≡ false
      → lookup id s.idempotency ≡ some a
      → lookup id (delete_same k c s.idempotency) ≡ some a
  unfolding delete_same
  delete_same-other k c s other e =
      ground (arith, lookup-remove k id s.idempotency, bytes_beq_iff k id)

  write-Bound :
      (s : Server) (c : ℕ) (x x' : IdempotencyRecord)
      → record_at c s.heap ≡ some x
      → Later x x'
      → Bound s id a r
      → (r' : IdempotencyRecord) × (record_at a (write_at c x' s.heap) ≡ some r') × Later r r'
  write-Bound s c x x' at l (e, r', at', later) = elim (Bool-cases (eqb c a)) [
    | inl same ↦ (
      x',
      ground (arith, record_at-write_at c a x' s.heap at),
      Later-trans r r' x' later
          (subst (λ y. Later y x') (sym (same_record a c s.heap r' x same at' at)) l),
    )
    | inr other ↦ (r', ground (arith, record_at-write_at c a x' s.heap at), later)
  ]

  -- A key under which no record is found is another key.
  pub other_key :
      (s : Server) (k : Bytes)
      → Bound s id a r
      → resolve s.heap (lookup k s.idempotency) ≡ none
      → (k == id) ≡ false
  unfolding resolve
  other_key s k (e, r', at, later) absent = ground (arith, bytes_beq_iff k id)

  pub drop_record-Bound :
      (s : Server) (c : ℕ) (x : IdempotencyRecord)
      → (eqb c a) ≡ false
      → record_at c s.heap ≡ some x
      → x.finalized ≡ true
      → Bound s id a r
      → Bound (drop_record s c x) id a r
  unfolding drop_record replay_answer
  drop_record-Bound s c x other at fixed b =
      let (r', at', later) =
        write-Bound s c x (record x { reserved_bytes = 0 }) at
          (record { digest = refl; finalized = λ h. h; answer = λ h. refl; unset = λ h. cc }) b in
      (delete_same-other x.idempotency_id c s other b.0, r', at', later)

  pub settle-Bound :
      (s : Server) (c : ℕ) (x x' : IdempotencyRecord)
      → record_at c s.heap ≡ some x
      → Later x x'
      → Bound s id a r
      → Bound (settle s c x x') id a r
  settle-Bound s c x x' at l b =
      let (r', at', later) = write-Bound s c x x' at l b in (b.0, r', at', later)
