-- ===== src/Provider/Admission/Account.antt =====
-- The count of the subscriptions of a connection, over any operations on it.
use mission_control_edge.Common.{
  ℕ, suc, ◌≤◌, ◌≡◌, refl, sym, ◌∙◌, ap, inl, inr, true, false, ◌&&◌, ◌||◌, not, some, List, [], ◌∷◌,
  leb, eqb, if◌then◌else◌, arith, Bool-cases, Option-cases, outcome-cases, check-cases,
  some-injective, nat_eq, bytes_eq, Bytes,
}
use mission_control_edge.Common.Assoc.{Assoc, lookup}
use mission_control_edge.Protocol.Terminal.{TerminalSubscribeRequest, validate_subscribe}
use mission_control_edge.Provider.Admission.{
  SubscriptionAdmission, ServerConnection, enter, can_reserve, plain_admission, terminal_admission,
  terminal_stream_key, is_some, begin_subscription, begin_terminal_subscription, update, clean_up,
  release_subscription, clean_once, cleanup,
}
use mission_control_edge.Provider.Admission.Prepare.{
  Subscription, check_prepare, register, named, prepare, cancel, cancel_subscription,
}

-- The admissions that are not cleaned up.
unfoldable pub live : Assoc ℕ SubscriptionAdmission → ℕ
live [] = 0
live ((n, a) ∷ rest) = if a.cleaned then live rest else suc (live rest)

-- The operations of a connection on subscriptions, in the order of its mutex.
pub data Operation : Type 0 where
  begin : Operation
  begin_terminal : TerminalSubscribeRequest → Operation
  answer : ℕ → Subscription → Operation
  clean : ℕ → Operation
  drop_subscription : Bytes → Operation

unfoldable pub perform : ℕ → ServerConnection → Operation → ServerConnection
perform maximum c begin = (begin_subscription maximum c).0
perform maximum c (begin_terminal r) = (begin_terminal_subscription maximum c r).0
perform maximum c (answer n value) = (prepare c n value).0
perform maximum c (clean n) = cleanup c n
perform maximum c (drop_subscription id) = cancel_subscription c id

unfoldable pub perform_all : ℕ → ServerConnection → List Operation → ServerConnection
unfolding perform
perform_all maximum c [] = c
perform_all maximum c (o ∷ rest) = perform_all maximum (perform maximum c o) rest

-- The counter is the number of the admissions that are not cleaned up, and at most the limit.
unfoldable pub Accounted : ℕ → ServerConnection → Type 0
Accounted maximum c = (live c.admissions ≡ c.subscriptions) × (c.subscriptions ≤ maximum)

-- A change that leaves the mark.
live-update_same :
    (n : ℕ) (f : SubscriptionAdmission → SubscriptionAdmission) (m : Assoc ℕ SubscriptionAdmission)
    → ((a : SubscriptionAdmission) → (f a).cleaned ≡ a.cleaned)
    → live (update n f m) ≡ live m
unfolding live update
live-update_same n f [] h = refl
live-update_same n f ((k, a) ∷ rest) h = elim (Bool-cases (eqb k n)) [
  | inl e ↦ rw (e, h a) refl
  | inr e ↦ rw (e, live-update_same n f rest h) refl
]

lookup-here :
    (n k : ℕ) (b : SubscriptionAdmission) (rest : Assoc ℕ SubscriptionAdmission)
    → eqb k n ≡ true
    → lookup n ((k, b) ∷ rest) ≡ some b
unfolding lookup
lookup-here n k b rest e = rw e refl

lookup-there :
    (n k : ℕ) (b : SubscriptionAdmission) (rest : Assoc ℕ SubscriptionAdmission)
    → eqb k n ≡ false
    → lookup n ((k, b) ∷ rest) ≡ lookup n rest
unfolding lookup
lookup-there n k b rest e = rw e refl

live-clean_up :
    (n : ℕ) (a : SubscriptionAdmission) (m : Assoc ℕ SubscriptionAdmission)
    → lookup n m ≡ some a
    → a.cleaned ≡ false
    → suc (live (update n clean_up m)) ≡ live m
unfolding live update lookup
live-clean_up n a [] h fresh = cc
live-clean_up n a ((k, b) ∷ rest) h fresh = elim (Bool-cases (eqb k n)) [
  | inl e ↦
      let same = some-injective (sym (lookup-here n k b rest e) ∙ h) in
      rw (e, ap (λ x. x.cleaned) same ∙ fresh) refl
  | inr e ↦
      let ih = live-clean_up n a rest (sym (lookup-there n k b rest e) ∙ h) fresh in
      elim (Bool-cases b.cleaned) [
        | inl done ↦ rw (e, done) ih
        | inr open_still ↦ rw (e, open_still) (ap (λ m. suc m) ih)
      ]
]

clean_once-Accounted :
    (maximum : ℕ) (c : ServerConnection) (n : ℕ) (a : SubscriptionAdmission)
    → lookup n c.admissions ≡ some a
    → a.cleaned ≡ false
    → Accounted maximum c
    → Accounted maximum (clean_once c n a)
unfolding clean_once release_subscription Accounted
clean_once-Accounted maximum c n a found fresh h =
    let less = live-clean_up n a c.admissions found fresh in
    (omega (arith, less, h.0), omega (arith, h.1))

cleanup-Accounted :
    (maximum : ℕ) (c : ServerConnection) (n : ℕ)
    → Accounted maximum c
    → Accounted maximum (cleanup c n)
unfolding cleanup
cleanup-Accounted maximum c n h = elim (Option-cases (lookup n c.admissions)) [
  | inl missing ↦ rw (cleanup, missing) h
  | inr (a, found) ↦ elim (Bool-cases a.cleaned) [
    | inl done ↦ rw (cleanup, found, done) h
    | inr fresh ↦ rw (cleanup, found, fresh) (clean_once-Accounted maximum c n a found fresh h)
  ]
]

enter-Accounted :
    (maximum : ℕ) (c : ServerConnection) (a : SubscriptionAdmission)
    → a.cleaned ≡ false
    → leb maximum c.subscriptions ≡ false
    → Accounted maximum c
    → Accounted maximum (enter c a)
unfolding Accounted live
enter-Accounted maximum c a fresh room h = (rw fresh (ap (λ k. suc k) h.0), ground (arith, h))

begin-Accounted :
    (maximum : ℕ) (c : ServerConnection)
    → Accounted maximum c
    → Accounted maximum (begin_subscription maximum c).0
unfolding begin_subscription can_reserve
begin-Accounted maximum c h =
    elim (Bool-cases (not (leb maximum c.subscriptions) && not c.closing)) [
      | inl room ↦
          rw (begin_subscription, can_reserve, room)
            (enter-Accounted maximum c plain_admission refl (ground arith) h)
      | inr full ↦ rw (begin_subscription, can_reserve, full) h
    ]

begin_terminal-Accounted :
    (maximum : ℕ) (c : ServerConnection) (r : TerminalSubscribeRequest)
    → Accounted maximum c
    → Accounted maximum (begin_terminal_subscription maximum c r).0
unfolding begin_terminal_subscription
begin_terminal-Accounted maximum c r h = elim (check-cases (validate_subscribe r)) [
  | inr (e, invalid) ↦ rw (begin_terminal_subscription, invalid) h
  | inl valid ↦ elim (Bool-cases (c.closing || leb maximum c.subscriptions)) [
    | inl full ↦ rw (begin_terminal_subscription, valid, full) h
    | inr room ↦ elim (Bool-cases (is_some (lookup (terminal_stream_key r) c.terminal_streams))) [
      | inl taken ↦ rw (begin_terminal_subscription, valid, room, taken) h
      | inr free ↦
          rw (begin_terminal_subscription, valid, room, free)
            (enter-Accounted maximum c (terminal_admission c r) refl (ground arith) h)
    ]
  ]
]

prepare-Accounted :
    (maximum : ℕ) (c : ServerConnection) (n : ℕ) (value : Subscription)
    → Accounted maximum c
    → Accounted maximum (prepare c n value).0
unfolding prepare register Accounted
prepare-Accounted maximum c n value h = elim (Option-cases (lookup n c.admissions)) [
  | inl missing ↦ rw (prepare, missing) h
  | inr (a, found) ↦ elim (outcome-cases (check_prepare c a value)) [
    | inr (e, refused) ↦ rw (prepare, found, refused) (cleanup-Accounted maximum c n h)
    | inl (id, fine) ↦
        rw (prepare, found, fine)
          (live-update_same n (named id) c.admissions (λ b. refl) ∙ h.0, h.1)
  ]
]

cancel-Accounted :
    (maximum : ℕ) (c : ServerConnection) (id : Bytes)
    → Accounted maximum c
    → Accounted maximum (cancel_subscription c id)
unfolding cancel_subscription Accounted
cancel-Accounted maximum c id h = elim (Option-cases (lookup id c.subscription_cancels)) [
  | inl missing ↦ rw (cancel_subscription, missing) h
  | inr (n, found) ↦
      rw (cancel_subscription, found)
        (live-update_same n cancel c.admissions (λ b. refl) ∙ h.0, h.1)
]

perform-Accounted :
    (maximum : ℕ) (c : ServerConnection) (o : Operation)
    → Accounted maximum c
    → Accounted maximum (perform maximum c o)
unfolding perform
perform-Accounted maximum c begin h = begin-Accounted maximum c h
perform-Accounted maximum c (begin_terminal r) h = begin_terminal-Accounted maximum c r h
perform-Accounted maximum c (answer n value) h = prepare-Accounted maximum c n value h
perform-Accounted maximum c (clean n) h = cleanup-Accounted maximum c n h
perform-Accounted maximum c (drop_subscription id) h = cancel-Accounted maximum c id h

-- Over any operations, with any identifiers, answers and repeated cleanups: the counter stays the
-- number of the admissions that are not cleaned up and at most the limit, so that no capacity is lost
-- or given twice.
pub perform_all-Accounted :
    (maximum : ℕ) (c : ServerConnection) (operations : List Operation)
    → Accounted maximum c
    → Accounted maximum (perform_all maximum c operations)
unfolding perform_all
perform_all-Accounted maximum c [] h = h
perform_all-Accounted maximum c (o ∷ rest) h =
    perform_all-Accounted maximum (perform maximum c o) rest (perform-Accounted maximum c o h)
