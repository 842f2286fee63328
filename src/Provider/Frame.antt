-- ===== src/Provider/Frame.antt =====
-- provider/jsonrpc.go, lines 153 to 175, 346 to 367 and 486 to 572: lines of JSON over a byte stream. `bufio` and
-- `io` are modelled as their documents say: a reader is the bytes that are still to come, the size of
-- its buffer and the error at the end; a writer is a state and a method that takes part of the bytes.
pub mod Reading
pub mod Ending
pub mod Writing
mod Samples
use mission_control_edge.Common.{
  ℕ, zero, suc, ◌+◌, ◌-◌, Bool, true, false, ◌&&◌, ◌||◌, not, Option, none, some, List, [], ◌∷◌,
  ◌++◌, ltb, eqb, length, take, drop, any_of, is_empty, if◌then◌else◌, Bytes, Outcome, ok, err,
  Check, ◌>>=◌, ◌>>◌, reject_if, or_else, present,
}
use mission_control_edge.Common.Int.{ℤ, pos, pos_part, leb_ℤ, ltb_ℤ}
use mission_control_edge.Protocol.Error.{
  GoError, plain, invalid_argument, message_too_large, end_of_file, short_write,
}
use mission_control_edge.Protocol.Content.{Json, null, JsonLibrary, decode_any}
use mission_control_edge.Protocol.Terminal.{max_message_bytes}
use mission_control_edge.Provider.RpcError.{sdk_error}

-- validateMaximumBytes
unfoldable pub validate_maximum : ℕ → Check GoError
validate_maximum maximum =
    reject_if (eqb maximum 0 || ltb max_message_bytes maximum) (sdk_error invalid_argument)

-- bytes.IndexByte(data, b) >= 0
unfoldable pub has_byte : ℕ → Bytes → Bool
has_byte b = any_of (λ c. eqb c b)

-- validateEnvelope
unfoldable pub validate_envelope : Bytes → ℕ → Check GoError
unfolding validate_maximum has_byte
validate_envelope content maximum = do
  validate_maximum maximum
  reject_if (is_empty content) (sdk_error invalid_argument)
  reject_if (ltb maximum (length content)) (sdk_error message_too_large)
  reject_if (has_byte 10 content || has_byte 13 content) (sdk_error invalid_argument)

-- How a call of `ReadSlice` ends: at the delimiter, with a full buffer, or at the end of the stream.
pub data Signal : Type 0 where
  terminated buffer_full ended : Signal

pub record Fragment : Type 0 where
  pub payload : Bytes
  pub signal : Signal
  pub rest : Bytes

abbrev pub after_byte : ℕ → Fragment → Fragment
after_byte b f = record { payload = b ∷ f.payload; signal = f.signal; rest = f.rest }

-- `reader.ReadSlice('\n')`, without the delimiter, where the buffer has room for so many bytes.
unfoldable pub read_slice : ℕ → Bytes → Fragment
read_slice zero input = record { payload = []; signal = buffer_full; rest = input }
read_slice (suc n) [] = record { payload = []; signal = ended; rest = [] }
read_slice (suc n) (b ∷ bs) =
    let next = after_byte b (read_slice n bs) in
    if eqb b 10 then record { payload = []; signal = terminated; rest = bs } else next

pub record Reader : Type 0 where
  pub buffer : ℕ
  pub ending : GoError

-- The end of the stream: a frame that is cut off is an error, and none is the end itself.
abbrev pub at_end : GoError → Bytes → GoError
at_end end_of_file [] = end_of_file
at_end end_of_file (b ∷ bs) = sdk_error invalid_argument
at_end other frame = other

-- One turn of the loop of `readFrame`: a fragment after those in `frame`, and the later turns.
unfoldable pub take_fragment :
    ℕ
    → GoError
    → Bytes
    → Fragment
    → Option (Outcome GoError (Bytes × Bytes))
    → Option (Outcome GoError (Bytes × Bytes))
unfolding has_byte
take_fragment maximum ending frame fragment next =
    let whole = frame ++ fragment.payload in
    if ltb maximum (length frame + length fragment.payload)
    then some (err (sdk_error message_too_large))
    else elim fragment.signal [
      | terminated ↦
          if is_empty whole || has_byte 13 whole
          then some (err (sdk_error invalid_argument))
          else some (ok (whole, fragment.rest))
      | buffer_full ↦ next
      | ended ↦ some (err (at_end ending whole))
    ]

-- The loop, for at most so many turns: the frame and what is still to come.
unfoldable pub read_loop : ℕ → Reader → ℕ → Bytes → Bytes → Option (Outcome GoError (Bytes × Bytes))
unfolding read_slice take_fragment
read_loop zero reader maximum frame input = none
read_loop (suc n) reader maximum frame input =
    let fragment = read_slice reader.buffer input in
    take_fragment maximum reader.ending frame fragment
      (read_loop n reader maximum (frame ++ fragment.payload) fragment.rest)

-- readFrame, on a reader that is not nil; a turn for each byte and one more are enough.
unfoldable pub read_frame : Reader → ℕ → Bytes → Option (Outcome GoError (Bytes × Bytes))
unfolding validate_maximum read_loop
read_frame reader maximum input = elim (validate_maximum maximum) [
  | err e ↦ some (err e)
  | ok _ ↦ read_loop (suc (length input)) reader maximum [] input
]

-- An `io.Writer`: a state, and the method `Write`, which says how many bytes it took and whether it
-- failed.
pub record Writer (W : Type 0) : Type 0 where
  pub write : W → Bytes → W × ℤ × Option GoError

-- The loop of `writeFrame`, for at most so many turns: the state of the writer after it, the bytes
-- that it took, and the result.
unfoldable pub write_loop :
    {W : Type 0} → ℕ → Writer W → W → Bytes → Bytes → Option (W × Bytes × Check GoError)
write_loop n writer w taken [] = some (w, taken, ok tt)
write_loop zero writer w taken (b ∷ bs) = none
write_loop (suc n) writer w taken (b ∷ bs) =
    let (after, written, failed) = writer.write w (b ∷ bs) in
    let count = pos_part written in
    let next = write_loop n writer after (taken ++ take count (b ∷ bs)) (drop count (b ∷ bs)) in
    elim failed [
      | some e ↦ some (after, taken, err e)
      | none ↦
          if leb_ℤ written (pos 0) || ltb_ℤ (pos (length (b ∷ bs))) written
          then some (after, taken, err short_write)
          else next
    ]

abbrev pub is_null : Json → Bool
is_null null = true
is_null value = false

-- validateJSON
unfoldable pub validate_json : JsonLibrary → Bytes → Check GoError
validate_json library content = do
  reject_if (is_empty content) (plain "JSON value is required")
  value ← decode_any library content
  reject_if (is_null value) (plain "JSON value cannot be null")

-- validateObject; a value that is not null does not decode into a map that is nil.
unfoldable pub validate_object : JsonLibrary → Bytes → Check GoError
unfolding validate_json
validate_object library content = do
  validate_json library content
  fields ← present (library.fields content) (plain "JSON-RPC parameter must be an object")
  ok tt

-- writeFrame, on a writer that is not nil; a turn for each byte is enough.
unfoldable pub write_frame :
    {W : Type 0} → JsonLibrary → Writer W → W → Bytes → ℕ → Option (W × Bytes × Check GoError)
unfolding write_loop validate_envelope validate_object
write_frame library writer w content maximum =
    elim (validate_envelope content maximum
      >> or_else (validate_object library content) (sdk_error invalid_argument)) [
        | err e ↦ some (w, [], err e)
        | ok _ ↦ write_loop (suc (length content)) writer w [] (content ++ (10 ∷ []))
      ]
