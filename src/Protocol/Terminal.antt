-- ===== src/Protocol/Terminal.antt =====
-- protocol/runtime.go, lines 335 to 443 and 575 to 600: terminal chunks and credits. Offsets and
-- sizes are uint64; the sum of an offset and a length wraps.
pub mod Sizes
use mission_control_edge.Common.{
  ℕ, suc, ◌+◌, ◌-◌, ◌*◌, ◌%◌, ◌^◌, Bool, true, false, ◌&&◌, ◌||◌, not, Option, none, some, List, [],
  ◌∷◌, ltb, leb, eqb, if◌then◌else◌, length, ◌==◌, bytes_eq, Bytes, bytes, Outcome, ok, err, Check,
  ◌>>=◌, ◌>>◌, reject_if,
}
use mission_control_edge.Protocol.Error.{GoError, plain}
use mission_control_edge.Protocol.Text.{
  Time, between, is_upper, is_lower, is_digit, utf8_valid, validate_id, validate_token,
  validate_time,
}
use mission_control_edge.Protocol.Identity.{validate_native_id}

-- protocol/doc.go: 4 << 20.
abbrev pub max_message_bytes : ℕ
max_message_bytes = 4 * 2 ^ 20

abbrev pub max_terminal_chunk_bytes : ℕ
max_terminal_chunk_bytes = 262144

abbrev pub max_terminal_window_bytes : ℕ
max_terminal_window_bytes = 8388608

-- The range that a redaction hides, as offsets into the stream.
pub record TerminalRedaction : Type 0 where
  pub start : ℕ
  pub end : ℕ
  pub reason : Bytes

pub record TerminalChunk : Type 0 where
  pub native_session_id : Bytes
  pub stream_id : Bytes
  pub encoding : Bytes
  pub sequence : ℕ
  pub offset : ℕ
  pub observed_at : Time
  pub content : Bytes
  pub replayed : Bool
  pub truncated : Bool
  pub redactions : List TerminalRedaction
  pub credit_remaining : ℕ

pub record TerminalCredit : Type 0 where
  pub native_session_id : Bytes
  pub stream_id : Bytes
  pub bytes : ℕ
  pub through_offset : ℕ

abbrev pub encoding_utf8 : Bytes
encoding_utf8 = bytes "utf-8"

abbrev pub encoding_base64 : Bytes
encoding_base64 = bytes "base64"

-- The value of a character of the standard base64 alphabet.
base64_digit : ℕ → Option ℕ
base64_digit b =
    if is_upper b
    then some (b - b'A')
    else if is_lower b
    then some (b - b'a' + 26)
    else if is_digit b
    then some (b - b'0' + 52)
    else if eqb b b'+'
    then some 62
    else if eqb b b'/'
    then some 63
    else none

is_base64 : ℕ → Bool
is_base64 b = elim (base64_digit b) [ none ↦ false | some v ↦ true ]

-- The bits of the last digit that are left over are zero.
no_rest : ℕ → ℕ → Bool
no_rest b unit = elim (base64_digit b) [ none ↦ false | some v ↦ eqb (v % unit) 0 ]

add_three : Option ℕ → Option ℕ
add_three none = none
add_three (some n) = some (n + 3)

-- The number of bytes that groups of four characters stand for; padding only in the last group.
base64_groups : Bytes → Option ℕ
unfolding is_base64 no_rest add_three base64_digit
base64_groups [] = some 0
base64_groups (a ∷ b ∷ c ∷ d ∷ []) =
    if is_base64 a && no_rest b 16 && eqb c b'=' && eqb d b'='
    then some 1
    else if is_base64 a && is_base64 b && no_rest c 4 && eqb d b'='
    then some 2
    else if is_base64 a && is_base64 b && is_base64 c && is_base64 d
    then some 3
    else none
base64_groups (a ∷ b ∷ c ∷ d ∷ rest) =
    let n = base64_groups rest in
    if is_base64 a && is_base64 b && is_base64 c && is_base64 d then add_three n else none
base64_groups _ = none

without_breaks : Bytes → Bytes
without_breaks [] = []
without_breaks (b ∷ bs) =
    let rest = without_breaks bs in if eqb b 13 || eqb b 10 then rest else b ∷ rest

-- The length of `base64.StdEncoding.Strict().DecodeString(data)`, and `none` for its error. The
-- decoder passes over carriage returns and line feeds.
unfoldable pub base64_length : Bytes → Option ℕ
unfolding base64_groups without_breaks
base64_length content = base64_groups (without_breaks content)

-- terminalDataLength
unfoldable pub terminal_data_length : Bytes → Bytes → Option ℕ
terminal_data_length encoding content =
    if encoding == encoding_utf8
    then (if utf8_valid content then some (length content) else none)
    else if encoding == encoding_base64
    then base64_length content
    else none

-- The method `Validate` of `TerminalEncoding`.
unfoldable pub validate_encoding : Bytes → Check GoError
validate_encoding e =
    reject_if (not (e == encoding_utf8) && not (e == encoding_base64))
      (plain "terminal encoding is unsupported")

-- The method `validate` of `TerminalRedaction`.
validate_redaction : ℕ → ℕ → TerminalRedaction → Check GoError
validate_redaction chunk_start chunk_end r = do
  reject_if (ltb r.start chunk_start || leb r.end r.start || ltb chunk_end r.end)
      (plain "terminal redaction range is invalid")
  validate_token r.reason

-- The loop over the redactions, from the end of the one before.
unfoldable pub validate_redactions : ℕ → ℕ → ℕ → List TerminalRedaction → Check GoError
unfolding validate_redaction
validate_redactions chunk_start chunk_end previous_end [] = ok tt
validate_redactions chunk_start chunk_end previous_end (r ∷ rest) = do
  validate_redaction chunk_start chunk_end r
  reject_if (ltb r.start previous_end) (plain "terminal redactions overlap or are out of order")
  validate_redactions chunk_start chunk_end r.end rest

-- `err != nil || length == 0 || length > MaxTerminalChunkBytes`
abbrev pub bad_length : Option ℕ → Bool
bad_length none = true
bad_length (some n) = eqb n 0 || ltb max_terminal_chunk_bytes n

abbrev pub length_or_zero : Option ℕ → ℕ
length_or_zero none = 0
length_or_zero (some n) = n

-- The method `Validate` of `TerminalChunk`.
unfoldable pub validate_chunk : TerminalChunk → Check GoError
validate_chunk c = do
  validate_native_id c.native_session_id
  validate_id c.stream_id
  validate_encoding c.encoding
  reject_if (eqb c.sequence 0) (plain "terminal chunk sequence is invalid")
  let decoded = terminal_data_length c.encoding c.content
  reject_if (bad_length decoded) (plain "terminal chunk data is invalid")
  reject_if (ltb max_terminal_window_bytes c.credit_remaining)
      (plain "terminal window credit is invalid")
  let chunk_end = (c.offset + length_or_zero decoded) % 2 ^ 64
  reject_if (ltb chunk_end c.offset) (plain "terminal chunk offset overflows")
  reject_if (ltb 1024 (length c.redactions)) (plain "too many terminal redactions")
  validate_redactions c.offset chunk_end c.offset c.redactions
  validate_time c.observed_at

-- The method `Validate` of `TerminalCredit`.
unfoldable pub validate_credit : TerminalCredit → Check GoError
validate_credit c = do
  validate_native_id c.native_session_id
  validate_id c.stream_id
  reject_if (eqb c.bytes 0 || ltb max_terminal_window_bytes c.bytes)
      (plain "terminal credit is invalid")

pub record TerminalSubscribeRequest : Type 0 where
  pub native_session_id : Bytes
  pub stream_id : Bytes
  pub after_offset : ℕ
  pub window_bytes : ℕ

-- The method `Validate` of `TerminalSubscribeRequest`.
pub validate_subscribe : TerminalSubscribeRequest → Check GoError
validate_subscribe r = do
  validate_native_id r.native_session_id
  validate_id r.stream_id
  reject_if (eqb r.window_bytes 0 || ltb max_terminal_window_bytes r.window_bytes)
      (plain "terminal window is invalid")
