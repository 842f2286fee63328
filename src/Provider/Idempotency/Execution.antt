-- ===== src/Provider/Idempotency/Execution.antt =====
-- `executeMutation` of provider/server.go, after its first section: what the handler and the calls
-- around it answer decides how the record is finalized. The calls into code of the provider and into
-- Go's library are given by their answers, in a record.
pub mod Honest
use mission_control_edge.Common.{
  ℕ, Bool, true, false, ◌||◌, ◌&&◌, not, Option, none, some, List, [], ◌∷◌, Bytes, ok, err, Check,
  Outcome, ◌>>=◌, ◌>>◌, reject_if, or_else, any_of, if◌then◌else◌, ltb, leb, eqb, length,
}
use mission_control_edge.Protocol.Error.{
  Error, GoError, structured, conflict, unavailable, outcome_unknown, resource_exhausted,
  invalid_argument, message_too_large,
}
use mission_control_edge.Provider.Limits.{max_message_bytes}
use mission_control_edge.Provider.RpcError.{
  new_protocol_error, normalize_protocol_error, error_code,
}
use mission_control_edge.Provider.Idempotency.{
  CommandResultStatus, succeeded, failed, unknown_outcome, Server, finalize_mutation,
}

-- The answer of `dispatch`: `post_result` is an error found after the handler returned a success.
pub data Dispatched : Type 0 where
  returned : Dispatched
  handler_error : GoError → Dispatched
  post_result : Dispatched

-- The answers of the calls, in their order. `admission` is `none` where no function `admit` is given;
-- `encoded` is the handler's value as JSON, `response_checked` the outcome of the checks in
-- `marshalResponse`, and `line` the response as JSON.
pub record Calls : Type 0 where
  pub admission : Option (Check GoError)
  pub setup_error : Option GoError
  pub dispatch : Dispatched
  pub context_error : Option GoError
  pub prepared : Check GoError
  pub encoded : Option Bytes
  pub response_checked : Check Error
  pub line : Option Bytes

-- A call of `finalizeMutation` on the record.
pub record Finalization : Type 0 where
  pub status : CommandResultStatus
  pub failure : Option Error
  pub remove : Bool

-- The end of the request: an error, with the record finalized; or an answer, with the encoded result
-- that `commit` finalizes as succeeded and `rollback` forgets.
pub data Ending : Type 0 where
  ends : Finalization → Error → Ending
  answers : Bytes → Ending

-- `cleaned` says that the admission was cleaned up or rolled back.
pub record Execution : Type 0 where
  pub dispatched : Bool
  pub cleaned : Bool
  pub ending : Ending

-- validateMaximumBytes
abbrev pub validate_maximum_bytes : ℕ → Check Error
validate_maximum_bytes maximum =
    reject_if (eqb maximum 0 || ltb max_message_bytes maximum) (new_protocol_error invalid_argument)

abbrev encoded_or : Option Bytes → Error → Outcome Error Bytes
encoded_or none e = err e
encoded_or (some line) e = ok line

-- marshalEnvelope, for a value with the given encoding.
unfoldable pub marshal_envelope : Option Bytes → ℕ → Outcome Error Bytes
marshal_envelope encoded maximum = do
  validate_maximum_bytes maximum
  line ← encoded_or encoded (new_protocol_error invalid_argument)
  reject_if (ltb maximum (length line)) (new_protocol_error message_too_large)
  reject_if (any_of (λ b. eqb b 10) line || any_of (λ b. eqb b 13) line)
      (new_protocol_error invalid_argument)
  ok line

-- The result in its encoding, when the response with it fits.
encode_result : Calls → ℕ → Outcome Error Bytes
unfolding marshal_envelope
encode_result c maximum = do
  raw ← encoded_or c.encoded (new_protocol_error unavailable)
  c.response_checked
  line ← marshal_envelope c.line maximum
  ok raw

abbrev admitted : Option (Check GoError) → Bool
admitted (some (ok _)) = true
admitted _ = false

-- outcome_unknown, for the record and for the caller.
abbrev unknown_ending : Ending
unknown_ending =
    ends (record { status = unknown_outcome; failure = none; remove = false })
      (new_protocol_error outcome_unknown)

-- An error that says that nothing was done.
abbrev failed_ending : GoError → Bool → Ending
failed_ending e admission_failed =
    ends
      (record {
        status = failed;
        failure = some (normalize_protocol_error e);
        remove = admission_failed;
      })
      (normalize_protocol_error e)

-- Once the handler has returned a value and the request's context stands.
finish : Calls → ℕ → Execution
unfolding encode_result
finish c maximum =
    let failing : Execution = record {
      dispatched = true;
      cleaned = admitted c.admission;
      ending = unknown_ending;
    } in
    elim (if admitted c.admission then c.prepared else ok tt) [
      | err e ↦ failing
      | ok _ ↦ elim (encode_result c maximum) [
        | err e ↦ failing
        | ok raw ↦ record { dispatched = true; cleaned = false; ending = answers raw }
      ]
    ]

-- After the admission: the handler runs unless its context has ended.
run_handler : Calls → ℕ → Execution
unfolding finish
run_handler c maximum = elim c.setup_error [
  | some e ↦ record {
    dispatched = false;
    cleaned = admitted c.admission;
    ending = failed_ending (structured (new_protocol_error (error_code e))) false;
  }
  | none ↦ elim c.dispatch [
    | handler_error e ↦ record {
      dispatched = true;
      cleaned = admitted c.admission;
      ending = failed_ending e false;
    }
    | post_result ↦ record {
      dispatched = true;
      cleaned = admitted c.admission;
      ending = unknown_ending;
    }
    | returned ↦ elim c.context_error [
      | some e ↦ record {
        dispatched = true;
        cleaned = admitted c.admission;
        ending = unknown_ending;
      }
      | none ↦ finish c maximum
    ]
  ]
]

-- `executeMutation` from the point where the record is in the maps.
unfoldable pub execute : Calls → ℕ → Execution
unfolding run_handler
execute c maximum = elim c.admission [
  | some (err e) ↦ record { dispatched = false; cleaned = false; ending = failed_ending e true }
  | some (ok _) ↦ run_handler c maximum
  | none ↦ run_handler c maximum
]

-- The record at the end: `delivered` tells whether the answer of a success was written, so that the
-- action is committed, or not, so that it is rolled back.
unfoldable pub apply_ending : Server → ℕ → Ending → Bool → Server
apply_ending s a (ends f e) delivered = finalize_mutation s a f.status [] f.failure f.remove
apply_ending s a (answers raw) true = finalize_mutation s a succeeded raw none false
apply_ending s a (answers raw) false = finalize_mutation s a unknown_outcome [] none false
