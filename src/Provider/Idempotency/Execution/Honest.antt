-- ===== src/Provider/Idempotency/Execution/Honest.antt =====
-- What the endings of `executeMutation` say of the handler, and that a result fits its record.
use mission_control_edge.Common.{
  Option, Check, ℕ, ◌≤◌, ◌≡◌, refl, Bool, true, false, none, some, [], Bytes, ok, arith, length,
  Option-cases, inl, inr, err,
}
use mission_control_edge.Protocol.Error.{Error, GoError, outcome_unknown}
use mission_control_edge.Provider.RpcError.{new_protocol_error}
use mission_control_edge.Provider.Idempotency.{
  succeeded, failed, unknown_outcome, IdempotencyRecord, Server, record_at,
}
use mission_control_edge.Provider.Idempotency.Account.{Balanced, finalize_mutation-Balanced}
use mission_control_edge.Provider.Idempotency.Execution.{
  Dispatched, handler_error, Calls, Finalization, Ending, ends, answers, execute, apply_ending,
  run_handler, finish, encode_result, marshal_envelope,
}

abbrev pub is_handler_error : Dispatched → Bool
is_handler_error (handler_error e) = true
is_handler_error _ = false

-- When the handler has run and has returned a success, also one whose value was then found invalid,
-- the run never ends as failed: an error that it ends with is outcome_unknown, on the record and to the
-- caller, and the record stays in the maps.
pub execute-dispatched :
    (c : Calls) (maximum : ℕ) {f : Finalization} {e : Error}
    → (execute c maximum).dispatched ≡ true
    → is_handler_error c.dispatch ≡ false
    → (execute c maximum).ending ≡ ends f e
    → (f.status ≡ unknown_outcome) × (e ≡ new_protocol_error outcome_unknown) × (f.remove ≡ false)
unfolding execute run_handler finish
execute-dispatched c maximum d r h = ground arith

abbrev pub admission_failed : Option (Check GoError) → Bool
admission_failed (some (err e)) = true
admission_failed _ = false

-- A run that ends with an error takes the record out of the maps exactly when the admission of a
-- subscription failed; then the handler did not run and the status is failed, so that the same key may
-- be tried again.
pub execute-removed :
    (c : Calls) (maximum : ℕ) {f : Finalization} {e : Error}
    → (execute c maximum).ending ≡ ends f e
    → (f.remove ≡ admission_failed c.admission)
      × (f.remove ≡ true → ((execute c maximum).dispatched ≡ false) × (f.status ≡ failed))
unfolding execute run_handler finish
execute-removed c maximum h = (ground arith, λ m. ground arith)

encode_result-fits :
    (c : Calls) (maximum : ℕ) (raw : Bytes)
    → ((raw line : Bytes) → c.encoded ≡ some raw → c.line ≡ some line → length raw ≤ length line)
    → encode_result c maximum ≡ ok raw
    → length raw ≤ maximum
unfolding encode_result marshal_envelope
encode_result-fits c maximum raw json h = elim (Option-cases c.encoded) [
  | inl e ↦ ground arith
  | inr (raw', e) ↦ elim (Option-cases c.line) [
    | inl l ↦ ground arith
    | inr (line, l) ↦ ground (arith, json raw' line e l)
  ]
]

answers-encode_result :
    (c : Calls) (maximum : ℕ) (raw : Bytes)
    → (execute c maximum).ending ≡ answers raw
    → encode_result c maximum ≡ ok raw
unfolding execute run_handler finish
answers-encode_result c maximum raw h = ground arith

-- The record at the address, unless it is finalized, reserves so many bytes.
abbrev pub Holds : Server → ℕ → ℕ → Type 0
Holds s a maximum =
    (r : IdempotencyRecord)
    → record_at a s.heap ≡ some r
    → r.finalized ≡ false
    → r.reserved_bytes ≡ maximum

module _ (s : Server) (a maximum : ℕ) (c : Calls) (holds : Holds s a maximum) (b : Balanced s) where
  ending-Balanced :
      (ending : Ending) (delivered : Bool)
      → ((raw line : Bytes) → c.encoded ≡ some raw → c.line ≡ some line → length raw ≤ length line)
      → (execute c maximum).ending ≡ ending
      → Balanced (apply_ending s a ending delivered)
  unfolding apply_ending
  ending-Balanced (ends f e) delivered json h =
      finalize_mutation-Balanced s a f.status [] f.failure f.remove (λ r at unset. ground arith) b
  ending-Balanced (answers raw) false json h =
      finalize_mutation-Balanced s a unknown_outcome [] none false (λ r at unset. ground arith) b
  ending-Balanced (answers raw) true json h =
      let fits = encode_result-fits c maximum raw json (answers-encode_result c maximum raw h) in
      finalize_mutation-Balanced s a succeeded raw none false
        (λ r at unset. ground (arith, holds r at unset)) b

-- The end of a run keeps the account of bytes, whether its answer reaches the peer or not, when the
-- record reserves the maximum unless it is finalized, and when the JSON of a response contains the
-- result.
pub apply_ending-Balanced :
    (s : Server) (a maximum : ℕ) (delivered : Bool) (c : Calls)
    → ((raw line : Bytes) → c.encoded ≡ some raw → c.line ≡ some line → length raw ≤ length line)
    → Holds s a maximum
    → Balanced s
    → Balanced (apply_ending s a (execute c maximum).ending delivered)
apply_ending-Balanced s a maximum delivered c json holds b =
    ending-Balanced s a maximum c holds b (execute c maximum).ending delivered json refl
