-- ===== src/Protocol/Content/Reserved.antt =====
-- rejectReservedProviderContent: its stack against the tree of a document.
use mission_control_edge.Common.{
  ℕ, zero, suc, ◌+◌, ◌≤◌, ◌≡◌, refl, ◌∙◌, inl, inr, Bool, true, false, ◌&&◌, ◌||◌, not, some, List,
  [], ◌∷◌, if◌then◌else◌, arith, Bytes, subst, outcome-cases, Outcome, ok, err, Check,
}
use mission_control_edge.Protocol.Error.{GoError, protocol_error, permission_denied}
use mission_control_edge.Protocol.Content.{
  Json, Items, Members, null, boolean, number, text, array, object, no_items, item, no_members,
  member, Node, root_node, is_in, provider_canonical_authority_keys, provider_review_authority_keys,
  push_members, push_items, push_value, walk, size, items_size, members_size, search_reserved,
}

-- A key that no provider may set, unless it is the root's and allowed there.
unfoldable pub forbidden : List Bytes → Bool → Bytes → Bool
forbidden allowed root key =
    not (root && is_in allowed key)
    && (is_in provider_canonical_authority_keys key || is_in provider_review_authority_keys key)

-- No object at any depth has a forbidden key.
unfoldable mutual
  unfolding forbidden

  pub clean : List Bytes → Bool → Json → Bool
  clean allowed root (array items) = clean_items allowed items
  clean allowed root (object members) = clean_members allowed root members
  clean allowed root leaf = true

  pub clean_items : List Bytes → Items → Bool
  clean_items allowed no_items = true
  clean_items allowed (item child rest) = clean allowed false child && clean_items allowed rest

  pub clean_members : List Bytes → Bool → Members → Bool
  clean_members allowed root no_members = true
  clean_members allowed root (member key child rest) =
      not (forbidden allowed root key)
      && (clean allowed false child && clean_members allowed root rest)

clean_nodes : List Bytes → List Node → Bool
unfolding clean
clean_nodes allowed [] = true
clean_nodes allowed (n ∷ rest) = clean allowed n.root n.value && clean_nodes allowed rest

total : List Node → ℕ
unfolding size
total [] = 0
total (n ∷ rest) = size n.value + total rest

verdict : Bool → Check GoError
verdict true = ok tt
verdict false = err (protocol_error permission_denied)

-- What came onto the stack: `n` values more, or an error because one of them is not clean.
Pushed : List Bytes → ℕ → Bool → List Node → Outcome GoError (List Node) → Type 0
unfolding total clean_nodes
Pushed allowed n fine stack (ok next) =
    (total next ≡ n + total stack)
    × (clean_nodes allowed next ≡ (fine && clean_nodes allowed stack))
Pushed allowed n fine stack (err e) = (e ≡ protocol_error permission_denied) × (fine ≡ false)

and_left_comm : (a b c : Bool) → (a && (b && c)) ≡ ((b && a) && c)
and_left_comm a b c = ground arith

and_false : (a : Bool) → (a && false) ≡ false
and_false a = ground arith

-- One value more, under the others.
Pushed-under :
    (allowed : List Bytes) (n : ℕ) (fine : Bool) (child : Json) (stack : List Node)
    (o : Outcome GoError (List Node))
    → Pushed allowed n fine (record { value = child; root = false } ∷ stack) o
    → Pushed allowed (size child + n) (clean allowed false child && fine) stack o
unfolding Pushed total clean_nodes
Pushed-under allowed n fine child stack (ok next) h =
    (omega (arith, h.0), h.1 ∙ and_left_comm fine (clean allowed false child) _)
Pushed-under allowed n fine child stack (err e) h =
    (h.0, rw h.1 (and_false (clean allowed false child)))

-- The two tests on a key, in front of what is pushed after it.
Pushed-guarded :
    (allowed : List Bytes) (n : ℕ) (fine : Bool) (stack : List Node)
    (o : Outcome GoError (List Node)) (root permitted canonical review : Bool)
    → Pushed allowed n fine stack o
    → Pushed allowed n (not (not (root && permitted) && (canonical || review)) && fine) stack (
        if not root || not permitted
        then (if canonical
            then err (protocol_error permission_denied)
            else if review
            then err (protocol_error permission_denied)
            else o)
        else o)
unfolding Pushed
Pushed-guarded allowed n fine stack o true true canonical review h = h
Pushed-guarded allowed n fine stack o true false true review h = (refl, refl)
Pushed-guarded allowed n fine stack o true false false true h = (refl, refl)
Pushed-guarded allowed n fine stack o true false false false h = h
Pushed-guarded allowed n fine stack o false permitted true review h = (refl, refl)
Pushed-guarded allowed n fine stack o false permitted false true h = (refl, refl)
Pushed-guarded allowed n fine stack o false permitted false false h = h

push_members-Pushed :
    (allowed : List Bytes) (root : Bool) (ms : Members) (stack : List Node)
    → Pushed allowed
        (members_size ms)
        (clean_members allowed root ms)
        stack
        (push_members allowed root ms stack)
unfolding Pushed push_members forbidden size clean
push_members-Pushed allowed root no_members stack = (omega arith, refl)
push_members-Pushed allowed root (member key child rest) stack =
    let pushed = record { value = child; root = false } ∷ stack in
    Pushed-guarded allowed _ (clean allowed false child && clean_members allowed root rest) stack
      (push_members allowed root rest pushed) root (is_in allowed key)
      (is_in provider_canonical_authority_keys key) (is_in provider_review_authority_keys key)
      (Pushed-under allowed (members_size rest) (clean_members allowed root rest) child stack
        (push_members allowed root rest pushed) (push_members-Pushed allowed root rest pushed))

push_items-Pushed :
    (allowed : List Bytes) (xs : Items) (stack : List Node)
    → Pushed allowed (items_size xs) (clean_items allowed xs) stack (ok (push_items xs stack))
unfolding Pushed push_items size clean
push_items-Pushed allowed no_items stack = (omega arith, refl)
push_items-Pushed allowed (item child rest) stack =
    let pushed = record { value = child; root = false } ∷ stack in
    Pushed-under allowed (items_size rest) (clean_items allowed rest) child stack
      (ok (push_items rest pushed)) (push_items-Pushed allowed rest pushed)

push_value-Pushed :
    (allowed : List Bytes) (root : Bool) (value : Json) (stack : List Node)
    → (k : ℕ) × (size value ≡ suc k)
      × Pushed allowed k (clean allowed root value) stack (push_value allowed root value stack)
unfolding Pushed push_value size clean
push_value-Pushed allowed root null stack = (0, refl, (omega arith, refl))
push_value-Pushed allowed root (boolean b) stack = (0, refl, (omega arith, refl))
push_value-Pushed allowed root (number n) stack = (0, refl, (omega arith, refl))
push_value-Pushed allowed root (text t) stack = (0, refl, (omega arith, refl))
push_value-Pushed allowed root (array items) stack =
    (items_size items, refl, push_items-Pushed allowed items stack)
push_value-Pushed allowed root (object members) stack =
    (members_size members, refl, push_members-Pushed allowed root members stack)

-- Turns as many as there are values on the stack and under them are enough.
walk-clean_nodes :
    (n : ℕ) (allowed : List Bytes) (stack : List Node)
    → total stack ≤ n
    → walk n allowed stack ≡ some (verdict (clean_nodes allowed stack))
unfolding walk total clean_nodes verdict Pushed
walk-clean_nodes n allowed [] h = refl
walk-clean_nodes zero allowed (c ∷ stack) h =
    let (k, positive, pushed) = push_value-Pushed allowed c.root c.value stack in
    absurd (omega (arith, h, positive))
walk-clean_nodes (suc n) allowed (c ∷ stack) h =
    let (k, positive, pushed) = push_value-Pushed allowed c.root c.value stack in
    elim (outcome-cases (push_value allowed c.root c.value stack)) [
      | inl (next, e) ↦
          let found = subst (Pushed allowed k (clean allowed c.root c.value) stack) e pushed in
          rw
            (
              walk,
              e,
              walk-clean_nodes n allowed next (omega (arith, found.0, positive, h)),
              found.1,
            )
            refl
      | inr (x, e) ↦
          let found = subst (Pushed allowed k (clean allowed c.root c.value) stack) e pushed in
          rw (walk, e, found.0, found.1) refl
    ]

-- The turns of the loop never run out, and the loop over the stack refuses a document exactly if
-- some object in it, at any depth, has a key of canonical or review authority, but for the keys
-- that the caller allows in the root.
pub search_reserved-clean :
    (allowed : List Bytes) (value : Json)
    → search_reserved allowed value
      ≡ (if clean allowed true value then ok tt else err (protocol_error permission_denied))
unfolding search_reserved clean_nodes total verdict
search_reserved-clean allowed value =
    rw (search_reserved, walk-clean_nodes (size value) allowed (root_node value ∷ []) (omega arith))
      (ground arith)
