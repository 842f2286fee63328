-- ===== src/Provider/Flow/Samples.antt =====
-- A subscription with a window of four bytes, and chunks of a terminal.
use mission_control_edge.Common.{
  ℕ, ◌+◌, ◌≤◌, ◌≡◌, refl, Bool, true, false, none, some, List, [], ◌∷◌, map, arith, Bytes, bytes,
  ok, err, bytes_eq,
}
use mission_control_edge.Common.Int.{pos}
use mission_control_edge.Protocol.Error.{invalid_argument}
use mission_control_edge.Protocol.Text.{validate_id, validate_time}
use mission_control_edge.Protocol.Identity.{validate_native_id}
use mission_control_edge.Provider.RpcError.{sdk_error}
use mission_control_edge.Protocol.Terminal.{
  TerminalChunk, TerminalCredit, TerminalSubscribeRequest, validate_chunk, validate_credit,
  validate_encoding, validate_redactions, terminal_data_length, encoding_utf8,
}
use mission_control_edge.Provider.Flow.{
  TerminalFlow, finished, attempt, add_credit, admit, consume, resume, Event, credits,
  validate_chunk_limit, terminal_data_size, new_terminal_flow, ClientTerminalFlow,
  new_client_terminal_flow, send_credit,
}
use mission_control_edge.Provider.Flow.Window.{Steps-InWindow, stay, passes, InWindow}
use mission_control_edge.Provider.Flow.Delivery.{consume-Delivered, Delivered}
use mission_control_edge.Provider.Flow.Agreement.{Reaches-accepted, Agree, AllTaken, starts, sends}
use mission_control_edge.Provider.Flow.Stall.{stale_credit_refused, gap_stalls}

abbrev request : TerminalSubscribeRequest
request = record {
  native_session_id = bytes "n";
  stream_id = bytes "s";
  after_offset = 10;
  window_bytes = 4;
}

abbrev server : TerminalFlow
server = new_terminal_flow request false

abbrev client : ClientTerminalFlow
client = new_client_terminal_flow request

abbrev chunk : ℕ → ℕ → Bytes → ℕ → Bool → TerminalChunk
chunk sequence offset content left truncated = record {
  native_session_id = bytes "n";
  stream_id = bytes "s";
  encoding = encoding_utf8;
  sequence = sequence;
  offset = offset;
  observed_at = record { instant = pos 1; is_utc = true };
  content = content;
  replayed = false;
  truncated = truncated;
  redactions = [];
  credit_remaining = left;
}

abbrev credit : ℕ → ℕ → TerminalCredit
credit n through = record {
  native_session_id = bytes "n";
  stream_id = bytes "s";
  bytes = n;
  through_offset = through;
}

abbrev first : TerminalChunk
first = chunk 1 10 (bytes "abc") 1 false

abbrev second : TerminalChunk
second = chunk 2 13 (bytes "de") 1 false

first_admitted : admit server first 100 ≡ ok 3
unfolding admit validate_chunk_limit validate_chunk validate_native_id validate_id validate_time
    validate_encoding validate_redactions terminal_data_length terminal_data_size
first_admitted = refl

abbrev one : TerminalFlow
one = (attempt server first 3).0

first_passes : attempt server first 3 ≡ (one, finished (ok tt))
unfolding attempt
first_passes = refl

Steps-InWindow_example : InWindow one × (one.window ≡ 4) × (3 + 0 + one.remaining ≤ 4 + 0)
Steps-InWindow_example = Steps-InWindow (passes first 3 first_passes (stay one)) (omega arith)

-- A credit at a wrong size is refused, the next one lets the second chunk pass.
abbrev two_credits : List Event
two_credits = credits (credit 9 13) ∷ credits (credit 2 13) ∷ []

second_passes : (consume one second 100 two_credits).1 ≡ some (ok tt)
unfolding consume resume add_credit attempt admit validate_chunk_limit validate_chunk
    validate_native_id validate_id validate_time validate_encoding validate_redactions
    terminal_data_length terminal_data_size validate_credit
second_passes = refl

consume-Delivered_example : Delivered one (consume one second 100 two_credits).0 second 100
consume-Delivered_example = consume-Delivered one second 100 two_credits (omega arith) second_passes

Reaches-accepted_example : AllTaken (first ∷ []) client × (first ∷ [] ≡ [] → Agree one client)
Reaches-accepted_example =
    Reaches-accepted {r = request} {can_replay = false}
      (sends first 100 3 starts (omega arith) first_admitted first_passes)

-- The window is full at the start; a client of which a byte is due may send credit for it.
abbrev server_short : TerminalFlow
server_short = record server { remaining = 3 }

abbrev client_short : ClientTerminalFlow
client_short = record client { remaining = 3 }

short_agreed : Agree server_short client_short
short_agreed = record {
  native_session = refl;
  stream_id = refl;
  window = refl;
  remaining = refl;
  through_offset = refl;
  sequence = refl;
  is_open = refl;
}

abbrev last_bytes : TerminalChunk
last_bytes = chunk 1 10 (bytes "abc") 0 false

stale_credit_refused_example :
    add_credit (attempt server_short last_bytes 3).0 (credit 1 10)
    ≡ ((attempt server_short last_bytes 3).0, err (sdk_error invalid_argument))
unfolding admit validate_chunk_limit validate_chunk validate_native_id validate_id validate_time
    validate_encoding validate_redactions terminal_data_length terminal_data_size attempt
    send_credit
stale_credit_refused_example =
    stale_credit_refused server_short _ client_short (record client_short { remaining = 4 })
      last_bytes 100 3 (credit 1 10) short_agreed (omega arith) refl refl refl

abbrev skipping : TerminalChunk
skipping = chunk 2 20 (bytes "de") 0 true

gap_stalls_example :
    consume one skipping 100 (map credits (credit 1 13 ∷ credit 2 13 ∷ []))
    ≡ (record one { through_offset = 20 }, none)
unfolding admit validate_chunk_limit validate_chunk validate_native_id validate_id validate_time
    validate_encoding validate_redactions terminal_data_length terminal_data_size attempt
gap_stalls_example =
    gap_stalls one skipping 100 2 (credit 1 13 ∷ credit 2 13 ∷ []) refl refl (omega arith)
      (omega arith) (refl, (refl, tt))
