-- ===== src/Protocol/Evidence/Preimage.antt =====
-- The size that is allocated for the bytes of a signature, and what these bytes determine.
use mission_control_edge.Common.{
  ℕ, ◌+◌, ◌≤◌, ◌≡◌, refl, sym, ◌∙◌, ap, ap₂, ◌↔◌, Bool, true, ◌||◌, not, some, List, [], ◌∷◌, ◌++◌,
  length, drop, all_of, ltb, arith, Bytes, ok, check-bind-ok, bind-eq-ok, reject_if-bind-ok,
  reject_if-eq-ok, All, and-eq-true, not-eq-false,
}
use mission_control_edge.Common.Int.{ℤ, pos, negsuc, pos_part}
use mission_control_edge.Protocol.Text.{is_alphanumeric}
use mission_control_edge.Protocol.Signed.{validate_safe_ascii, is_safe_sign}
use mission_control_edge.Protocol.Evidence.{
  signing_domain_prefix, allocation_from, checked_allocation_size, signing_preimage,
}

-- The sum without bounds.
abbrev pub sum_of : List ℤ → ℕ
sum_of [] = 0
sum_of (size ∷ rest) = pos_part size + sum_of rest

abbrev pub NonNegative : ℤ → Type 0
NonNegative (pos n) = Unit
NonNegative (negsuc n) = ⊥

allocation_from-exact :
    (max_int total n : ℕ) (parts : List ℤ)
    → total ≤ max_int
    → (allocation_from max_int total parts ≡ ok n)
      ↔ (All NonNegative parts × (total + sum_of parts ≡ n) × (n ≤ max_int))
unfolding allocation_from
allocation_from-exact max_int total n [] h =
    (λ q. (tt, ground arith, ground arith), λ q. ap ok (omega (arith, q.1)))
allocation_from-exact max_int total n (pos m ∷ rest) h =
    let grows = allocation_from-exact max_int (total + m) n rest in ground (arith, grows)
allocation_from-exact max_int total n (negsuc m ∷ rest) h = ground arith

-- The function gives a size exactly if every part is at least zero and the sum of the parts is at
-- most the largest int; the size is then that sum, so that no addition overflows.
pub checked_allocation_size-exact :
    (max_int n : ℕ) (parts : List ℤ)
    → (checked_allocation_size max_int parts ≡ ok n)
      ↔ (All NonNegative parts × (sum_of parts ≡ n) × (n ≤ max_int))
unfolding checked_allocation_size
checked_allocation_size-exact max_int n parts =
    ground (arith, allocation_from-exact max_int 0 n parts)

abbrev is_safe : ℕ → Bool
is_safe b = is_alphanumeric b || is_safe_sign b

abbrev head_or : ℕ → Bytes → ℕ
head_or n [] = n
head_or n (b ∷ bs) = b

safe-positive : (b : ℕ) (bs : Bytes) → all_of is_safe (b ∷ bs) ≡ true → ¬ (0 ≡ b)
safe-positive b bs h e = ground arith

-- A text of safe characters up to a zero byte.
split_at_zero :
    (p q d e : Bytes)
    → all_of is_safe p ≡ true
    → all_of is_safe q ≡ true
    → p ++ (0 ∷ d) ≡ q ++ (0 ∷ e)
    → (p ≡ q) × (d ≡ e)
split_at_zero [] [] d e hp hq h = (refl, ap (drop 1) h)
split_at_zero [] (y ∷ q) d e hp hq h = absurd (safe-positive y q hq (ap (head_or 1) h))
split_at_zero (x ∷ p) [] d e hp hq h = absurd (safe-positive x p hp (sym (ap (head_or 1) h)))
split_at_zero (x ∷ p) (y ∷ q) d e hp hq h =
    let tails =
      split_at_zero p q d e (and-eq-true (is_safe x) _ hp).1 (and-eq-true (is_safe y) _ hq).1
        (ap (drop 1) h) in
    (ap₂ (λ a l. a ∷ l) (ap (head_or 1) h) tails.0, tails.1)

-- What a preimage is made of.
signing_preimage-parts :
    (max_int : ℕ) (purpose document x : Bytes)
    → signing_preimage max_int purpose (some document) ≡ ok x
    → (all_of is_safe purpose ≡ true) × (x ≡ signing_domain_prefix ++ (purpose ++ (0 ∷ document)))
unfolding signing_preimage validate_safe_ascii
signing_preimage-parts max_int purpose document x h =
    let (safe, h) = check-bind-ok (validate_safe_ascii 1 128 purpose) _ h in
    let (_, safe) =
      reject_if-bind-ok (ltb (length purpose) 1 || ltb 128 (length purpose)) _ _ safe in
    let (capacity, _, whole) =
      bind-eq-ok
        (checked_allocation_size max_int (
          pos (length signing_domain_prefix)
          ∷ pos (length purpose)
          ∷ pos 1
          ∷ pos (length document)
          ∷ []))
        (λ _. ok (signing_domain_prefix ++ (purpose ++ (0 ∷ document)))) h in
    (not-eq-false _ (reject_if-eq-ok (not (all_of is_safe purpose)) _ safe), cc)

-- The bytes that are signed determine the purpose and the document: a signature that was made for
-- one purpose or document does not serve for another.
pub signing_preimage-injective :
    (max_int : ℕ) (p q d e x : Bytes)
    → signing_preimage max_int p (some d) ≡ ok x
    → signing_preimage max_int q (some e) ≡ ok x
    → (p ≡ q) × (d ≡ e)
signing_preimage-injective max_int p q d e x hp hq =
    let (safe_p, x_p) = signing_preimage-parts max_int p d x hp in
    let (safe_q, x_q) = signing_preimage-parts max_int q e x hq in
    split_at_zero p q d e safe_p safe_q (ap (drop (length signing_domain_prefix)) (sym x_p ∙ x_q))
