-- ===== src/Protocol/Terminal/Sizes.antt =====
-- What the validation of a chunk gives on the number of its bytes and on its place.
use mission_control_edge.Common.{
  ℕ, ◌+◌, ◌%◌, ◌^◌, ◌≤◌, ◌<◌, ◌≡◌, refl, subst, Bool, false, Option, none, some, arith, ltb, eqb,
  bytes_eq, ok, check-bind-ok, reject_if-bind-ok,
}
use mission_control_edge.Protocol.Terminal.{
  TerminalChunk, validate_chunk, terminal_data_length, length_or_zero, bad_length,
  max_terminal_chunk_bytes, max_terminal_window_bytes, validate_encoding,
}
use mission_control_edge.Protocol.Text.{validate_id}
use mission_control_edge.Protocol.Identity.{validate_native_id}

length-Some :
    (o : Option ℕ)
    → bad_length o ≡ false
    → (n : ℕ) × (o ≡ some n) × (0 < n) × (n ≤ max_terminal_chunk_bytes)
length-Some none h = cc
length-Some (some n) h = (n, refl, ground arith, ground arith)

-- What the validation of a chunk gives on its bytes and its place.
pub record Sized (c : TerminalChunk) (size : ℕ) : Type 0 where
  pub decoded : terminal_data_length c.encoding c.content ≡ some size
  pub positive : 0 < size
  pub capped : size ≤ max_terminal_chunk_bytes
  pub no_wrap : c.offset < 2 ^ 64 → c.offset + size < 2 ^ 64

no_wrap_of :
    (a n : ℕ)
    → n ≤ max_terminal_chunk_bytes
    → ltb ((a + n) % 2 ^ 64) a ≡ false
    → a < 2 ^ 64
    → a + n < 2 ^ 64
no_wrap_of a n h k p = ground arith

-- The test of the end of a chunk.
abbrev overflows : TerminalChunk → Bool
overflows c =
    ltb ((c.offset + length_or_zero (terminal_data_length c.encoding c.content)) % 2 ^ 64) c.offset

pub validate_chunk-Sized :
    (c : TerminalChunk) → validate_chunk c ≡ ok tt → (size : ℕ) × Sized c size
unfolding validate_chunk
validate_chunk-Sized c h =
    let (_, h1) = check-bind-ok (validate_native_id c.native_session_id) _ h in
    let (_, h2) = check-bind-ok (validate_id c.stream_id) _ h1 in
    let (_, h3) = check-bind-ok (validate_encoding c.encoding) _ h2 in
    let (_, h4) = reject_if-bind-ok (eqb c.sequence 0) _ _ h3 in
    let (good, h5) =
      reject_if-bind-ok (bad_length (terminal_data_length c.encoding c.content)) _ _ h4 in
    let (_, h6) = reject_if-bind-ok (ltb max_terminal_window_bytes c.credit_remaining) _ _ h5 in
    let (room, _) = reject_if-bind-ok (overflows c) _ _ h6 in
    let (n, e, p, q) = length-Some (terminal_data_length c.encoding c.content) good in
    (
      n,
      record {
        decoded = e;
        positive = p;
        capped = q;
        no_wrap =
            no_wrap_of c.offset n q
              (subst (λ o. ltb ((c.offset + length_or_zero o) % 2 ^ 64) c.offset ≡ false) e room);
      },
    )
