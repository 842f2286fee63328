-- ===== src/Provider/Idempotency/Keys.antt =====
-- The keys of the map of mutations are told apart: NUL separates their parts.
use mission_control_edge.Common.{
  ◌≡◌, Bool, true, false, [], ◌∷◌, ◌++◌, Bytes, bytes, arith, eqb, any_of, ◌==◌, bytes_eq,
  if◌then◌else◌, Bool-cases, inl, inr, sym, ◌∙◌,
}
use mission_control_edge.Provider.Idempotency.{MutationMeta, mutation_record_ids}

abbrev pub has_nul : Bytes → Bool
has_nul = any_of (λ b. eqb b 0)

-- Texts without NUL before the separator can be read back.
split_at_nul :
    (xs ys u v : Bytes)
    → has_nul xs ≡ false
    → has_nul ys ≡ false
    → xs ++ 0 ∷ u ≡ ys ++ 0 ∷ v
    → (xs ≡ ys) × (u ≡ v)
split_at_nul [] [] u v p q h = ground arith
split_at_nul [] (y ∷ ys) u v p q h = ground arith
split_at_nul (x ∷ xs) [] u v p q h = ground arith
split_at_nul (x ∷ xs) (y ∷ ys) u v p q h = ground (arith, split_at_nul xs ys u v)

abbrev pub is_attach : MutationMeta → Bool
is_attach meta = meta.capability == bytes "terminal.attach"

-- What follows the capability in the key.
abbrev key_tail : Bytes → MutationMeta → Bytes
key_tail connection meta =
    if is_attach meta then connection ++ 0 ∷ meta.idempotency_key else meta.idempotency_key

key_parts :
    (connection : Bytes) (meta : MutationMeta)
    → (mutation_record_ids connection meta).0 ≡ meta.capability ++ 0 ∷ key_tail connection meta
unfolding mutation_record_ids
key_parts connection meta = ground arith

same_tail :
    (connection connection' : Bytes) (meta meta' : MutationMeta)
    → has_nul connection ≡ false
    → has_nul connection' ≡ false
    → meta.capability ≡ meta'.capability
    → key_tail connection meta ≡ key_tail connection' meta'
    → (meta.idempotency_key ≡ meta'.idempotency_key)
      × (is_attach meta ≡ true → connection ≡ connection')
same_tail connection connection' meta meta' q q' same h = elim (Bool-cases (is_attach meta)) [
  | inl attach ↦
      let parts =
        split_at_nul connection connection' meta.idempotency_key meta'.idempotency_key q q'
          (ground arith) in
      (parts.1, λ _. parts.0)
  | inr other ↦ (ground arith, λ attach. cc)
]

-- Two mutations have the same key in the server's map only if they name the same capability and the
-- same idempotency key, and, for attaching a terminal, come over the same connection. Capabilities and
-- connection names hold no NUL.
pub mutation_record_ids-injective :
    (connection connection' : Bytes) (meta meta' : MutationMeta)
    → has_nul meta.capability ≡ false
    → has_nul meta'.capability ≡ false
    → has_nul connection ≡ false
    → has_nul connection' ≡ false
    → (mutation_record_ids connection meta).0 ≡ (mutation_record_ids connection' meta').0
    → (meta.capability ≡ meta'.capability)
      × (meta.idempotency_key ≡ meta'.idempotency_key)
      × (is_attach meta ≡ true → connection ≡ connection')
mutation_record_ids-injective connection connection' meta meta' p p' q q' h =
    let (same, tails) =
      split_at_nul meta.capability meta'.capability (key_tail connection meta)
        (key_tail connection' meta') p p'
        (sym (key_parts connection meta) ∙ h ∙ key_parts connection' meta') in
    let (key, attached) = same_tail connection connection' meta meta' q q' same tails in
    (same, key, attached)
