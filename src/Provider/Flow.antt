-- ===== src/Provider/Flow.antt =====
-- The flow control of a terminal stream at both ends: `terminalFlow` of provider/subscription.go
-- and `clientTerminalFlow` of provider/client.go. A mutex makes each attempt and each credit one
-- step. The server's `consume` may wait for credit: the credits that arrive meanwhile, and the end
-- of the context, are a list of events. Counters are uint64.
pub mod Agreement
pub mod Window
pub mod Waiting
pub mod Delivery
pub mod Stall
mod Samples
use mission_control_edge.Common.{
  ℕ, ◌+◌, ◌-◌, ◌%◌, ◌^◌, Bool, true, false, ◌&&◌, ◌||◌, not, Option, none, some, List, [], ◌∷◌, ltb,
  leb, eqb, if◌then◌else◌, length, ◌==◌, bytes_eq, Bytes, Outcome, ok, err, Check, ◌>>=◌, ◌>>◌,
  reject_if, or_else, is_ok,
}
use mission_control_edge.Protocol.Error.{
  GoError, structured, invalid_argument, message_too_large, sequence_conflict, conflict, cancelled,
}
use mission_control_edge.Provider.RpcError.{sdk_error, normalize_protocol_error}
use mission_control_edge.Protocol.Terminal.{
  TerminalChunk, TerminalCredit, TerminalSubscribeRequest, encoding_utf8, encoding_base64,
  base64_length, validate_chunk, validate_credit,
}

pub record TerminalFlow : Type 0 where
  pub native_session : Bytes
  pub stream_id : Bytes
  pub window : ℕ
  pub remaining : ℕ
  pub through_offset : ℕ
  pub sequence : ℕ
  pub replay_allowed : Bool

-- `beginTerminalSubscription` builds this flow.
abbrev pub new_terminal_flow : TerminalSubscribeRequest → Bool → TerminalFlow
new_terminal_flow r can_replay = record {
  native_session = r.native_session_id;
  stream_id = r.stream_id;
  window = r.window_bytes;
  remaining = r.window_bytes;
  through_offset = r.after_offset;
  sequence = 0;
  replay_allowed = can_replay;
}

-- terminalDataSize, `none` for an error: text is not checked here.
pub terminal_data_size : Bytes → Bytes → Option ℕ
terminal_data_size encoding content =
    if encoding == encoding_utf8
    then some (length content)
    else if encoding == encoding_base64
    then base64_length content
    else none

-- terminalChunkSize
abbrev pub chunk_size : TerminalChunk → Option ℕ
chunk_size c = terminal_data_size c.encoding c.content

-- A size, or the error that its callers answer.
abbrev pub size_or_refuse : Option ℕ → Outcome GoError ℕ
size_or_refuse none = err (sdk_error invalid_argument)
size_or_refuse (some n) = ok n

-- validateTerminalChunkLimit
pub validate_chunk_limit : TerminalChunk → ℕ → Check GoError
validate_chunk_limit c maximum = do
  or_else (validate_chunk c) (sdk_error invalid_argument)
  size ← size_or_refuse (chunk_size c)
  reject_if (ltb maximum size) (sdk_error message_too_large)

-- What one pass of the loop in `consume` ends with.
pub data Attempt : Type 0 where
  finished : Check GoError → Attempt
  waiting : Attempt

-- The chunk does not follow the offset: `chunk.Offset != f.throughOffset` and no forward gap.
abbrev pub misplaced : ℕ → TerminalChunk → Bool
misplaced through c = not (eqb c.offset through) && (not c.truncated || ltb c.offset through)

-- `f.sequence != 0 && chunk.Sequence != f.sequence+1 && !chunk.Truncated`
abbrev pub out_of_sequence : ℕ → TerminalChunk → Bool
out_of_sequence sequence c =
    not (eqb sequence 0) && not (eqb c.sequence ((sequence + 1) % 2 ^ 64)) && not c.truncated

-- One pass of the loop, under the mutex. The offset moves over a gap before the credit is tested.
pub attempt : TerminalFlow → TerminalChunk → ℕ → TerminalFlow × Attempt
attempt f c size =
    if misplaced f.through_offset c
    then (f, finished (err (sdk_error sequence_conflict)))
    else (let g = record f { through_offset = c.offset } in
        if out_of_sequence f.sequence c
        then (g, finished (err (sdk_error sequence_conflict)))
        else if leb size f.remaining
        then (
          record g {
            remaining = f.remaining - size;
            through_offset = (c.offset + size) % 2 ^ 64;
            sequence = c.sequence;
          },
          finished (
              reject_if (not (eqb c.credit_remaining (f.remaining - size)))
                (sdk_error invalid_argument)),
        )
        else (g, waiting))

-- addCredit. Its success wakes a waiting `consume`.
pub add_credit : TerminalFlow → TerminalCredit → TerminalFlow × Check GoError
add_credit f credit =
    if not (is_ok (validate_credit credit))
      || not (credit.native_session_id == f.native_session)
      || not (credit.stream_id == f.stream_id)
    then (f, err (sdk_error invalid_argument))
    else if not (eqb credit.through_offset f.through_offset)
        || ltb (f.window - f.remaining) credit.bytes
    then (f, err (sdk_error invalid_argument))
    else (record f { remaining = f.remaining + credit.bytes }, ok tt)

-- What can happen to a waiting `consume`.
pub data Event : Type 0 where
  credits : TerminalCredit → Event
  context_done : GoError → Event

-- The loop: `none` when the events end and the chunk still waits.
pub resume :
    TerminalFlow → TerminalChunk → ℕ → Attempt → List Event → TerminalFlow × Option (Check GoError)
unfolding add_credit attempt
resume f c size (finished r) events = (f, some r)
resume f c size waiting [] = (f, none)
resume f c size waiting (context_done e ∷ events) = (f, some (err e))
resume f c size waiting (credits credit ∷ events) =
    let (g, answer) = add_credit f credit in
    elim answer [
      | ok _ ↦ let (h, next) = attempt g c size in resume h c size next events
      | err _ ↦ resume g c size waiting events
    ]

-- The checks of `consume` before its loop, with the size of the chunk.
pub admit : TerminalFlow → TerminalChunk → ℕ → Outcome GoError ℕ
admit f c maximum = do
  reject_if (not (c.native_session_id == f.native_session) || not (c.stream_id == f.stream_id))
      (sdk_error invalid_argument)
  validate_chunk_limit c maximum
  reject_if (c.replayed && not f.replay_allowed) (sdk_error invalid_argument)
  size_or_refuse (chunk_size c)

-- The method `consume` of `terminalFlow`.
pub consume : TerminalFlow → TerminalChunk → ℕ → List Event → TerminalFlow × Option (Check GoError)
consume f c maximum events = elim (admit f c maximum) [
  | err e ↦ (f, some (err e))
  | ok size ↦ let (g, next) = attempt f c size in resume g c size next events
]

-- The client's end, less the fields that belong to the life of the subscription.
pub record ClientTerminalFlow : Type 0 where
  pub native_session : Bytes
  pub stream_id : Bytes
  pub closed : Bool
  pub window : ℕ
  pub remaining : ℕ
  pub through_offset : ℕ
  pub sequence : ℕ

-- newClientTerminalFlow
abbrev pub new_client_terminal_flow : TerminalSubscribeRequest → ClientTerminalFlow
new_client_terminal_flow r = record {
  native_session = r.native_session_id;
  stream_id = r.stream_id;
  closed = false;
  window = r.window_bytes;
  remaining = r.window_bytes;
  through_offset = r.after_offset;
  sequence = 0;
}

-- The method `consume` of `clientTerminalFlow`; `active` is the answer of the callback.
pub client_consume : ClientTerminalFlow → TerminalChunk → Bool → ClientTerminalFlow × Check GoError
client_consume f c active =
    if not (c.native_session_id == f.native_session) || not (c.stream_id == f.stream_id)
    then (f, err (sdk_error invalid_argument))
    else elim (chunk_size c) [
      | none ↦ (f, err (sdk_error invalid_argument))
      | some size ↦
          if f.closed || not active
          then (f, err (sdk_error conflict))
          else if misplaced f.through_offset c
          then (f, err (sdk_error sequence_conflict))
          else if out_of_sequence f.sequence c
          then (f, err (sdk_error sequence_conflict))
          else if ltb f.remaining size
          then (f, err (sdk_error invalid_argument))
          else if not (eqb c.credit_remaining (f.remaining - size))
          then (f, err (sdk_error invalid_argument))
          else (
            record f {
              remaining = f.remaining - size;
              through_offset = (c.offset + size) % 2 ^ 64;
              sequence = c.sequence;
            },
            ok tt,
          )
    ]

-- sendTerminalCredit, from the point where the frame is built: `active` as above, `written` the
-- outcome of the write.
pub send_credit :
    ClientTerminalFlow → TerminalCredit → Bool → Check GoError → ClientTerminalFlow × Check GoError
send_credit f credit active written =
    if f.closed || not active
    then (f, err (sdk_error conflict))
    else if not (eqb credit.through_offset f.through_offset)
        || ltb (f.window - f.remaining) credit.bytes
    then (f, err (sdk_error invalid_argument))
    else elim written [
      | err e ↦ (f, err (structured (normalize_protocol_error e)))
      | ok _ ↦ (record f { remaining = f.remaining + credit.bytes }, ok tt)
    ]
