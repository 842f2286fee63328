-- ===== src/Protocol/Content/Keys.antt =====
-- rejectDuplicateKeys, which reads tokens, against the tree of a document.
use mission_control_edge.Common.{
  ℕ, zero, suc, ◌+◌, ◌≤◌, ◌≡◌, refl, ◌∙◌, ap, Bool, true, false, ◌&&◌, not, List, [], ◌∷◌,
  if◌then◌else◌, arith, length, bytes_eq, bytes_beq_iff, Bytes, Outcome, ok, err, ◌>>=◌,
}
use mission_control_edge.Protocol.Error.{GoError, plain}
use mission_control_edge.Protocol.Content.{
  Json, Items, Members, null, boolean, number, text, array, object, no_items, item, no_members,
  member, Token, word, other, open_object, close_object, open_array, close_array, JsonLibrary, more,
  consume_value, consume_members, consume_items, reject_duplicate_keys, is_in,
}

-- The tokens of a document, before those of `rest`.
unfoldable mutual
  pub emit : Json → List Token → List Token
  emit (text t) rest = word t ∷ rest
  emit (array items) rest = open_array ∷ emit_items items rest
  emit (object members) rest = open_object ∷ emit_members members rest
  emit leaf rest = other ∷ rest

  pub emit_items : Items → List Token → List Token
  emit_items no_items rest = close_array ∷ rest
  emit_items (item x xs) rest = emit x (emit_items xs rest)

  pub emit_members : Members → List Token → List Token
  emit_members no_members rest = close_object ∷ rest
  emit_members (member key x xs) rest = word key ∷ emit x (emit_members xs rest)

-- How many they are.
mutual
  weight : Json → ℕ
  weight (array items) = suc (items_weight items)
  weight (object members) = suc (members_weight members)
  weight leaf = 1

  items_weight : Items → ℕ
  items_weight no_items = 1
  items_weight (item x xs) = weight x + items_weight xs

  members_weight : Members → ℕ
  members_weight no_members = 1
  members_weight (member key x xs) = suc (weight x + members_weight xs)

unfoldable pub keys : Members → List Bytes
keys no_members = []
keys (member key x xs) = key ∷ keys xs

unfoldable pub no_repeat : List Bytes → Bool
no_repeat [] = true
no_repeat (k ∷ ks) = not (is_in ks k) && no_repeat ks

-- No object of the document, at any depth, has a key twice.
unfoldable mutual
  unfolding keys no_repeat

  pub distinct : Json → Bool
  distinct (array items) = distinct_items items
  distinct (object members) = no_repeat (keys members) && distinct_values members
  distinct leaf = true

  pub distinct_items : Items → Bool
  distinct_items no_items = true
  distinct_items (item x xs) = distinct x && distinct_items xs

  pub distinct_values : Members → Bool
  distinct_values no_members = true
  distinct_values (member key x xs) = distinct x && distinct_values xs

-- The keys of the list are none of those seen.
apart : List Bytes → List Bytes → Bool
apart seen [] = true
apart seen (k ∷ ks) = not (is_in seen k) && apart seen ks

apart-more :
    (k : Bytes) (seen ks : List Bytes) → apart (k ∷ seen) ks ≡ (not (is_in ks k) && apart seen ks)
unfolding apart is_in
apart-more k seen [] = refl
apart-more k seen (j ∷ ks) =
    ground (arith, apart-more k seen ks, bytes_beq_iff k j, bytes_beq_iff j k)

apart_none : (ks : List Bytes) → apart [] ks ≡ true
unfolding apart is_in
apart_none [] = refl
apart_none (k ∷ ks) = apart_none ks

abbrev repeated : {A : Type 0} → Outcome GoError A
repeated = err (plain "duplicate object key")

abbrev unless_repeated : Bool → List Token → Outcome GoError (List Token)
unless_repeated true rest = ok rest
unless_repeated false rest = repeated

more-emit : (x : Json) (rest : List Token) → more (emit x rest) ≡ true
unfolding emit
more-emit null rest = refl
more-emit (boolean b) rest = refl
more-emit (number n) rest = refl
more-emit (text t) rest = refl
more-emit (array xs) rest = refl
more-emit (object xs) rest = refl

weight-positive : (x : Json) → 1 ≤ weight x
unfolding weight
weight-positive null = omega arith
weight-positive (boolean b) = omega arith
weight-positive (number n) = omega arith
weight-positive (text t) = omega arith
weight-positive (array xs) = omega arith
weight-positive (object xs) = omega arith

items_weight-positive : (xs : Items) → 1 ≤ items_weight xs
unfolding weight
items_weight-positive no_items = omega arith
items_weight-positive (item x xs) = omega (arith, items_weight-positive xs)

members_weight-positive : (xs : Members) → 1 ≤ members_weight xs
unfolding weight
members_weight-positive no_members = omega arith
members_weight-positive (member key x xs) = omega arith

-- A value and then the rest of a loop.
unless_repeated-bind :
    (a b : Bool) (rest last : List Token) (f : List Token → Outcome GoError (List Token))
    → f rest ≡ unless_repeated b last
    → (unless_repeated a rest >>= f) ≡ unless_repeated (a && b) last
unless_repeated-bind true b rest last f h = h
unless_repeated-bind false b rest last f h = refl

-- The test of a key, before the rest of the loop.
key_tested :
    (seen again fresh unique inner others : Bool) (rest : List Token)
    (o : Outcome GoError (List Token))
    → o ≡ unless_repeated (inner && ((again && fresh) && (unique && others))) rest
    → (if seen then repeated else o)
      ≡ unless_repeated (((not seen && fresh) && ((again && unique) && (inner && others)))) rest
key_tested true again fresh unique inner others rest o h = refl
key_tested false again fresh unique inner others rest o h =
    h ∙ ap (λ b. unless_repeated b rest) (ground arith)

mutual
  unfolding consume_value emit weight distinct apart no_repeat keys is_in

  consume_value-emit :
      (n : ℕ) (x : Json) (rest : List Token)
      → weight x ≤ n
      → consume_value n (emit x rest) ≡ unless_repeated (distinct x) rest
  consume_value-emit zero x rest h = absurd (omega (arith, h, weight-positive x))
  consume_value-emit (suc n) null rest h = refl
  consume_value-emit (suc n) (boolean b) rest h = refl
  consume_value-emit (suc n) (number b) rest h = refl
  consume_value-emit (suc n) (text t) rest h = refl
  consume_value-emit (suc n) (array xs) rest h = consume_items-emit n xs rest (omega (arith, h))
  consume_value-emit (suc n) (object xs) rest h =
      consume_members-emit n [] xs rest (omega (arith, h))
      ∙ ap (λ b. unless_repeated (b && (no_repeat (keys xs) && distinct_values xs)) rest)
          (apart_none (keys xs))

  consume_items-emit :
      (n : ℕ) (xs : Items) (rest : List Token)
      → items_weight xs ≤ n
      → consume_items n (emit_items xs rest) ≡ unless_repeated (distinct_items xs) rest
  consume_items-emit zero xs rest h = absurd (omega (arith, h, items_weight-positive xs))
  consume_items-emit (suc n) no_items rest h = refl
  consume_items-emit (suc n) (item x xs) rest h =
      rw
        (
          more-emit x (emit_items xs rest),
          consume_value-emit n x (emit_items xs rest) (omega (arith, h, items_weight-positive xs)),
        )
        (unless_repeated-bind (distinct x) (distinct_items xs) (emit_items xs rest) rest
          (consume_items n) (consume_items-emit n xs rest (omega (arith, h, weight-positive x))))

  consume_members-emit :
      (n : ℕ) (seen : List Bytes) (xs : Members) (rest : List Token)
      → members_weight xs ≤ n
      → consume_members n seen (emit_members xs rest)
        ≡ unless_repeated (apart seen (keys xs) && (no_repeat (keys xs) && distinct_values xs)) rest
  consume_members-emit zero seen xs rest h = absurd (omega (arith, h, members_weight-positive xs))
  consume_members-emit (suc n) seen no_members rest h = refl
  consume_members-emit (suc n) seen (member key x xs) rest h =
      rw (consume_value-emit n x (emit_members xs rest) (omega (arith, h))) (
        key_tested (is_in seen key) (not (is_in (keys xs) key)) (apart seen (keys xs))
          (no_repeat (keys xs)) (distinct x) (distinct_values xs) rest
          (unless_repeated (distinct x) (emit_members xs rest) >>= consume_members n (key ∷ seen))
          (unless_repeated-bind (distinct x) _ (emit_members xs rest) rest
            (consume_members n (key ∷ seen))
            (consume_members-emit n (key ∷ seen) xs rest (omega (arith, h))
              ∙ ap (λ b. unless_repeated (b && (no_repeat (keys xs) && distinct_values xs)) rest)
                  (apart-more key seen (keys xs)))))

mutual
  unfolding emit weight

  length-emit : (x : Json) (rest : List Token) → length (emit x rest) ≡ weight x + length rest
  length-emit null rest = omega arith
  length-emit (boolean b) rest = omega arith
  length-emit (number n) rest = omega arith
  length-emit (text t) rest = omega arith
  length-emit (array xs) rest = omega (arith, length-emit_items xs rest)
  length-emit (object xs) rest = omega (arith, length-emit_members xs rest)

  length-emit_items :
      (xs : Items) (rest : List Token) → length (emit_items xs rest) ≡ items_weight xs + length rest
  length-emit_items no_items rest = omega arith
  length-emit_items (item x xs) rest =
      omega (arith, length-emit x (emit_items xs rest), length-emit_items xs rest)

  length-emit_members :
      (xs : Members) (rest : List Token)
      → length (emit_members xs rest) ≡ members_weight xs + length rest
  length-emit_members no_members rest = omega arith
  length-emit_members (member key x xs) rest =
      omega (arith, length-emit x (emit_members xs rest), length-emit_members xs rest)

-- On the tokens of any document, calls as many as there are tokens are enough, and the function
-- refuses the document exactly if some object in it, at any depth, has a key twice.
pub reject_duplicate_keys-distinct :
    (library : JsonLibrary) (content : Bytes) (value : Json)
    → library.scan content ≡ record { tokens = emit value []; clean = true }
    → reject_duplicate_keys library content
      ≡ (if distinct value then ok tt else err (plain "duplicate object key"))
unfolding reject_duplicate_keys
reject_duplicate_keys-distinct library content value h =
    rw
      (
        h,
        consume_value-emit (length (emit value [])) value [] (omega (arith, length-emit value [])),
      )
      (ground arith)
