-- ===== src/Protocol/Distinct.antt =====
-- The loops that check each value of a list and refuse a repeated key, with the set of those seen:
-- they stand in protocol/manifest.go, and in other validations of lists.
use Prim.Native.String.{String}
use mission_control_edge.Common.{
  ◌≡◌, Bool, false, List, [], ◌∷◌, any_of, Comparable, ◌==◌, All, ok, Check, ◌>>◌, reject_if,
  check-bind-ok, reject_if-bind-ok, map,
}
use mission_control_edge.Protocol.Error.{GoError, plain}

module _ {ℓ} {K : Type ℓ} ⦃e : Comparable K⦄ where
  -- `_, found := set[key]`
  unfoldable pub holds : List K → K → Bool
  holds keys key = any_of (λ k. k == key) keys

  unfoldable pub distinct_from {κ} :
      {A : Type κ} → (A → K) → (A → Check GoError) → String → List K → List A → Check GoError
  unfolding holds
  distinct_from key check message seen [] = ok tt
  distinct_from key check message seen (a ∷ rest) = do
    check a
    reject_if (holds seen (key a)) (plain message)
    distinct_from key check message (key a ∷ seen) rest

  -- No key of the list stands in it twice, nor among those seen.
  pub Fresh : List K → List K → Type 0
  unfolding holds
  Fresh seen [] = Unit
  Fresh seen (k ∷ ks) = (holds seen k ≡ false) × Fresh (k ∷ seen) ks

  pub distinct_from-Fresh {κ} :
      {A : Type κ} (key : A → K) (check : A → Check GoError) (message : String) (seen : List K)
      (l : List A)
      → distinct_from key check message seen l ≡ ok tt
      → All (λ a. check a ≡ ok tt) l × Fresh seen (map key l)
  unfolding distinct_from Fresh
  distinct_from-Fresh key check message seen [] h = (tt, tt)
  distinct_from-Fresh key check message seen (a ∷ rest) h =
      let (checked, others) = check-bind-ok (check a) _ h in
      let (fresh, others) = reject_if-bind-ok (holds seen (key a)) (plain message) _ others in
      let (all_checked, all_fresh) =
        distinct_from-Fresh key check message (key a ∷ seen) rest others in
      ((checked, all_checked), (fresh, all_fresh))
