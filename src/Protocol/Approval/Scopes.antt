-- ===== src/Protocol/Approval/Scopes.antt =====
-- The comparison of scopes is the comparison of multisets.
use mission_control_edge.Common.{
  suc, ◌+◌, ◌<◌, ◌≡◌, ◌↔◌, refl, sym, ap, ap₂, subst, ◌∙◌, true, false, List, [], ◌∷◌, arith,
  length, if◌then◌else◌, ◌==◌, bytes_eq, bytes_beq_iff, Bytes, All, Bool-cases, inl, inr,
}
use mission_control_edge.Common.Multiset.{count}
use mission_control_edge.Protocol.Signed.{equal_strings}
use mission_control_edge.Protocol.Approval.{
  leb_string, insert_sorted, sort_strings, equal_string_sets,
}

count-insert_sorted :
    (x y : Bytes) (ys : List Bytes)
    → count x (insert_sorted y ys) ≡ (if y == x then 1 else 0) + count x ys
unfolding insert_sorted
count-insert_sorted x y [] = refl
count-insert_sorted x y (z ∷ zs) = ground (arith, count-insert_sorted x y zs)

pub count-sort_strings : (x : Bytes) (l : List Bytes) → count x (sort_strings l) ≡ count x l
unfolding sort_strings
count-sort_strings x [] = refl
count-sort_strings x (y ∷ ys) =
    ground (arith, count-insert_sorted x y (sort_strings ys), count-sort_strings x ys)

length-insert_sorted : (y : Bytes) (ys : List Bytes) → length (insert_sorted y ys) ≡ suc (length ys)
unfolding insert_sorted
length-insert_sorted y [] = refl
length-insert_sorted y (z ∷ zs) = ground (arith, length-insert_sorted y zs)

length-sort_strings : (l : List Bytes) → length (sort_strings l) ≡ length l
unfolding sort_strings
length-sort_strings [] = refl
length-sort_strings (y ∷ ys) =
    ground (arith, length-insert_sorted y (sort_strings ys), length-sort_strings ys)

equal_strings_iff : (a b : List Bytes) → (equal_strings a b ≡ true) ↔ (a ≡ b)
unfolding equal_strings
equal_strings_iff [] [] = (λ h. refl, λ h. refl)
equal_strings_iff [] (y ∷ ys) = (λ h. cc, λ h. cc)
equal_strings_iff (x ∷ xs) [] = (λ h. cc, λ h. cc)
equal_strings_iff (x ∷ xs) (y ∷ ys) = ground (arith, equal_strings_iff xs ys, bytes_beq_iff x y)

-- The order of strings is a total order.
leb_string_total : (a b : Bytes) → leb_string a b ≡ false → leb_string b a ≡ true
unfolding leb_string
leb_string_total [] b h = cc
leb_string_total (x ∷ xs) [] h = refl
leb_string_total (x ∷ xs) (y ∷ ys) h = ground (arith, leb_string_total xs ys)

leb_string_antisym : (a b : Bytes) → leb_string a b ≡ true → leb_string b a ≡ true → a ≡ b
unfolding leb_string
leb_string_antisym [] [] h k = refl
leb_string_antisym [] (y ∷ ys) h k = cc
leb_string_antisym (x ∷ xs) [] h k = cc
leb_string_antisym (x ∷ xs) (y ∷ ys) h k = ground (arith, leb_string_antisym xs ys)

leb_string_trans :
    (a b c : Bytes) → leb_string a b ≡ true → leb_string b c ≡ true → leb_string a c ≡ true
unfolding leb_string
leb_string_trans [] b c h k = refl
leb_string_trans (x ∷ xs) [] c h k = cc
leb_string_trans (x ∷ xs) (y ∷ ys) [] h k = cc
leb_string_trans (x ∷ xs) (y ∷ ys) (z ∷ zs) h k = ground (arith, leb_string_trans xs ys zs)

-- Each element is at most the elements after it.
abbrev IsSorted : List Bytes → Type 0
IsSorted [] = Unit {0}
IsSorted (x ∷ xs) = All (λ y. leb_string x y ≡ true) xs × IsSorted xs

-- A bound of a list bounds what is inserted below it.
All-insert_sorted :
    (z y : Bytes) (ys : List Bytes)
    → leb_string z y ≡ true
    → All (λ w. leb_string z w ≡ true) ys
    → All (λ w. leb_string z w ≡ true) (insert_sorted y ys)
unfolding insert_sorted
All-insert_sorted z y [] h a = (h, tt)
All-insert_sorted z y (w ∷ ws) h a = elim (Bool-cases (leb_string y w)) [
  | inl e ↦ rw e (h, a)
  | inr e ↦ rw e (a.0, All-insert_sorted z y ws h a.1)
]

All-weaken :
    (y w : Bytes) (ws : List Bytes)
    → leb_string y w ≡ true
    → All (λ v. leb_string w v ≡ true) ws
    → All (λ v. leb_string y v ≡ true) ws
All-weaken y w [] h a = tt
All-weaken y w (v ∷ vs) h a = (leb_string_trans y w v h a.0, All-weaken y w vs h a.1)

insert_sorted-IsSorted : (y : Bytes) (ys : List Bytes) → IsSorted ys → IsSorted (insert_sorted y ys)
unfolding insert_sorted
insert_sorted-IsSorted y [] s = (tt, tt)
insert_sorted-IsSorted y (w ∷ ws) s = elim (Bool-cases (leb_string y w)) [
  | inl e ↦ rw e ((e, All-weaken y w ws e s.0), s)
  | inr e ↦
      rw e (All-insert_sorted w y ws (leb_string_total y w e) s.0, insert_sorted-IsSorted y ws s.1)
]

sort_strings-IsSorted : (l : List Bytes) → IsSorted (sort_strings l)
unfolding sort_strings
sort_strings-IsSorted [] = tt
sort_strings-IsSorted (x ∷ xs) =
    insert_sorted-IsSorted x (sort_strings xs) (sort_strings-IsSorted xs)

-- What stands in a bounded list is bounded.
bound-count :
    (z x : Bytes) (l : List Bytes)
    → All (λ w. leb_string z w ≡ true) l
    → 0 < count x l
    → leb_string z x ≡ true
bound-count z x [] a p = ground arith
bound-count z x (w ∷ ws) a p = elim (Bool-cases (w == x)) [
  | inl e ↦ subst (λ v. leb_string z v ≡ true) ((bytes_beq_iff w x).0 e) a.0
  | inr e ↦ bound-count z x ws a.1 (ground arith)
]

leb_string_refl : (a : Bytes) → leb_string a a ≡ true
leb_string_refl a = elim (Bool-cases (leb_string a a)) [
  | inl e ↦ e
  | inr e ↦ leb_string_total a a e
]

-- The least elements of sorted lists with the same counts are the same.
head_same :
    (x y : Bytes) (xs ys : List Bytes)
    → IsSorted (x ∷ xs)
    → IsSorted (y ∷ ys)
    → ((z : Bytes) → count z (x ∷ xs) ≡ count z (y ∷ ys))
    → x ≡ y
head_same x y xs ys s t h =
    leb_string_antisym x y
      (bound-count x y (x ∷ xs) (leb_string_refl x, s.0) (ground (arith, h y, bytes_beq_iff y y)))
      (bound-count y x (y ∷ ys) (leb_string_refl y, t.0) (ground (arith, h x, bytes_beq_iff x x)))

sorted_unique :
    (a b : List Bytes) → IsSorted a → IsSorted b → ((z : Bytes) → count z a ≡ count z b) → a ≡ b
sorted_unique [] [] s t h = refl
sorted_unique [] (y ∷ ys) s t h = ground (arith, h y, bytes_beq_iff y y)
sorted_unique (x ∷ xs) [] s t h = ground (arith, h x, bytes_beq_iff x x)
sorted_unique (x ∷ xs) (y ∷ ys) s t h =
    let e = head_same x y xs ys s t h in
    ap₂ (λ u v. u ∷ v) e (sorted_unique xs ys s.1 t.1 (λ z. ground (arith, h z, e)))

-- Two lists of scopes are equal for the source exactly if every text stands equally often in both, in
-- whatever order.
pub equal_string_sets_iff :
    (a b : List Bytes) → (equal_string_sets a b ≡ true) ↔ ((z : Bytes) → count z a ≡ count z b)
unfolding equal_string_sets
equal_string_sets_iff a b = (
  λ h z.
      let same = (equal_strings_iff (sort_strings a) (sort_strings b)).0 (ground arith) in
      sym (count-sort_strings z a) ∙ ap (count z) same ∙ count-sort_strings z b,
  λ h.
      let same =
        sorted_unique (sort_strings a) (sort_strings b) (sort_strings-IsSorted a)
          (sort_strings-IsSorted b)
          (λ z. count-sort_strings z a ∙ h z ∙ sym (count-sort_strings z b)) in
      ground (
        arith,
        (equal_strings_iff (sort_strings a) (sort_strings b)).1 same,
        ap length same,
        length-sort_strings a,
        length-sort_strings b,
      ),
)
