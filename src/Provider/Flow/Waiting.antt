-- ===== src/Provider/Flow/Waiting.antt =====
-- provider/subscription.go, the loop of `consume`: how it ends, by the chunk and the credits that it
-- meets, told without its repeated attempts.
pub mod Ends
use mission_control_edge.Common.{
  ℕ, ◌+◌, ◌-◌, ◌%◌, ◌^◌, ◌≤◌, ◌<◌, ◌≡◌, refl, Bool, true, false, ◌&&◌, ◌||◌, not, Option, none,
  some, List, [], ◌∷◌, ◌++◌, map, arith, ltb, leb, eqb, if◌then◌else◌, Bool-cases, inl, inr, ap,
  sym, subst, ◌∙◌, ◌==◌, bytes_eq, ok, err, Check, is_ok, reject_if,
}
use mission_control_edge.Protocol.Error.{GoError, sequence_conflict, invalid_argument}
use mission_control_edge.Protocol.Terminal.{TerminalChunk, TerminalCredit, validate_credit}
use mission_control_edge.Provider.RpcError.{sdk_error}
use mission_control_edge.Provider.Flow.Window.{resume-received, resume-refused}
use mission_control_edge.Provider.Flow.{
  TerminalFlow, Attempt, finished, waiting, attempt, add_credit, misplaced, out_of_sequence, Event,
  credits, context_done, resume, admit, consume,
}

-- The flow at the offset of the chunk, with so much credit.
abbrev pub at_chunk : TerminalFlow → TerminalChunk → ℕ → TerminalFlow
at_chunk f c credit = record f { through_offset = c.offset; remaining = credit }

-- The flow behind the chunk, when there was so much credit for it.
abbrev pub behind_chunk : TerminalFlow → TerminalChunk → ℕ → ℕ → TerminalFlow
behind_chunk f c size credit = record f {
  remaining = credit - size;
  through_offset = (c.offset + size) % 2 ^ 64;
  sequence = c.sequence;
}

-- The answer for a chunk that passed: it must state the credit that is left.
abbrev pub stated : TerminalChunk → ℕ → Check GoError
stated c left = reject_if (not (eqb c.credit_remaining left)) (sdk_error invalid_argument)

-- A credit is for this stream, at the offset of the chunk, and fits in the window.
abbrev pub is_for : TerminalFlow → TerminalChunk → ℕ → TerminalCredit → Bool
is_for f c credit k =
    is_ok (validate_credit k)
    && k.native_session_id == f.native_session
    && k.stream_id == f.stream_id
    && eqb k.through_offset c.offset
    && leb k.bytes (f.window - credit)

abbrev pub credited : TerminalFlow → TerminalChunk → ℕ → TerminalCredit → ℕ
credited f c credit k = if is_for f c credit k then credit + k.bytes else credit

-- What is there after all of these credits.
unfoldable pub balance : TerminalFlow → TerminalChunk → ℕ → List TerminalCredit → ℕ
balance f c credit [] = credit
balance f c credit (k ∷ later) = balance f c (credited f c credit k) later

-- How a wait ends: with the first credit that makes up the size of the chunk; with the end of the
-- context, if that comes before; or not yet.
pub data Waited (f : TerminalFlow) (c : TerminalChunk) (size credit : ℕ) (events : List Event)
    : TerminalFlow × Option (Check GoError) → Type 0 where
  released :
      (met : List TerminalCredit) (last : TerminalCredit) (rest : List Event)
      → events ≡ map credits met ++ (credits last ∷ rest)
      → balance f c credit met < size
      → size ≤ credited f c (balance f c credit met) last
      → Waited f c size credit events (
        behind_chunk f c size (credited f c (balance f c credit met) last),
        some (stated c (credited f c (balance f c credit met) last - size)),
      )
  interrupted :
      (met : List TerminalCredit) (e : GoError) (rest : List Event)
      → events ≡ map credits met ++ (context_done e ∷ rest)
      → balance f c credit met < size
      → Waited f c size credit events (at_chunk f c (balance f c credit met), some (err e))
  still :
      (met : List TerminalCredit)
      → events ≡ map credits met
      → balance f c credit met < size
      → Waited f c size credit events (at_chunk f c (balance f c credit met), none)

-- How `consume` ends for an admitted chunk.
pub data Ending (f : TerminalFlow) (c : TerminalChunk) (size : ℕ) (events : List Event)
    : TerminalFlow × Option (Check GoError) → Type 0 where
  off_place :
      misplaced f.through_offset c ≡ true
      → Ending f c size events (f, some (err (sdk_error sequence_conflict)))
  off_sequence :
      misplaced f.through_offset c ≡ false
      → out_of_sequence f.sequence c ≡ true
      → Ending f c size events (at_chunk f c f.remaining, some (err (sdk_error sequence_conflict)))
  immediate :
      misplaced f.through_offset c ≡ false
      → out_of_sequence f.sequence c ≡ false
      → size ≤ f.remaining
      → Ending f c size events
          (behind_chunk f c size f.remaining, some (stated c (f.remaining - size)))
  later :
      {result : TerminalFlow × Option (Check GoError)}
      → misplaced f.through_offset c ≡ false
      → out_of_sequence f.sequence c ≡ false
      → f.remaining < size
      → Waited f c size f.remaining events result
      → Ending f c size events result
