-- ===== src/Provider/Idempotency/Store.antt =====
-- The laws of the heap of records.
use mission_control_edge.Common.{
  ℕ, ◌+◌, ◌<◌, ◌≡◌, refl, some, List, [], ◌∷◌, arith, if◌then◌else◌, eqb, length, Bool-cases, inl,
  inr,
}
use mission_control_edge.Provider.Idempotency.{IdempotencyRecord, record_at, write_at}

pub record_at-lt :
    (a : ℕ) (heap : List IdempotencyRecord) {r : IdempotencyRecord}
    → record_at a heap ≡ some r
    → a < length heap
unfolding record_at
record_at-lt a [] h = cc
record_at-lt a (x ∷ heap) {r = r} h = elim (Bool-cases (eqb a (length heap))) [
  | inl e ↦ ground arith
  | inr e ↦ ground (arith, record_at-lt a heap {r = r} (ground arith))
]

pub length-write_at :
    (a : ℕ) (r : IdempotencyRecord) (heap : List IdempotencyRecord)
    → length (write_at a r heap) ≡ length heap
unfolding write_at
length-write_at a r [] = refl
length-write_at a r (x ∷ heap) = ground (arith, length-write_at a r heap)

-- A new record leaves the older ones where they are.
pub record_at-older :
    (a : ℕ) (r : IdempotencyRecord) (heap : List IdempotencyRecord) {x : IdempotencyRecord}
    → record_at a heap ≡ some x
    → record_at a (r ∷ heap) ≡ some x
unfolding record_at
record_at-older a r heap h = ground (arith, record_at-lt a heap h)

pub record_at-write_at :
    (a b : ℕ) (new : IdempotencyRecord) (heap : List IdempotencyRecord) {r : IdempotencyRecord}
    → record_at a heap ≡ some r
    → record_at b (write_at a new heap) ≡ (if eqb a b then some new else record_at b heap)
unfolding record_at write_at
record_at-write_at a b new [] h = cc
record_at-write_at a b new (x ∷ heap) {r = r} h = elim (Bool-cases (eqb a (length heap))) [
  | inl e ↦ ground arith
  | inr e ↦ ground (
    arith,
    length-write_at a new heap,
    record_at-write_at a b new heap {r = r} (ground arith),
    record_at-lt a heap,
  )
]

-- The bytes that the records reserve.
abbrev pub reserved_sum : List IdempotencyRecord → ℕ
reserved_sum [] = 0
reserved_sum (r ∷ heap) = r.reserved_bytes + reserved_sum heap

pub reserved_sum-write_at :
    (a : ℕ) (new : IdempotencyRecord) (heap : List IdempotencyRecord) {r : IdempotencyRecord}
    → record_at a heap ≡ some r
    → reserved_sum (write_at a new heap) + r.reserved_bytes ≡ reserved_sum heap + new.reserved_bytes
unfolding record_at write_at
reserved_sum-write_at a new [] h = cc
reserved_sum-write_at a new (x ∷ heap) {r = r} h = elim (Bool-cases (eqb a (length heap))) [
  | inl e ↦ ground arith
  | inr e ↦ ground (arith, reserved_sum-write_at a new heap {r = r} (ground arith))
]
