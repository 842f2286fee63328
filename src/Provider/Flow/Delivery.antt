-- ===== src/Provider/Flow/Delivery.antt =====
-- What a successful `consume` of the server's flow has established.
use mission_control_edge.Common.{
  ℕ, ◌+◌, ◌%◌, ◌^◌, ◌≤◌, ◌<◌, ◌≡◌, refl, true, ◌||◌, ◌&&◌, not, some, List, [], ◌∷◌, arith, ◌==◌,
  bytes_eq, Bytes, ok, err, Check, or_else, check-bind-ok, reject_if-bind-ok, or_else-eq-ok,
  outcome-cases, inl, inr, subst,
}
use mission_control_edge.Protocol.Error.{GoError, invalid_argument}
use mission_control_edge.Provider.RpcError.{sdk_error}
use mission_control_edge.Protocol.Terminal.{
  TerminalChunk, TerminalCredit, validate_chunk, terminal_data_length, max_terminal_chunk_bytes,
}
use mission_control_edge.Provider.Flow.Window.{resume-received, resume-refused}
use mission_control_edge.Protocol.Terminal.Sizes.{Sized, validate_chunk-Sized}
use mission_control_edge.Provider.Flow.{
  TerminalFlow, Attempt, finished, waiting, attempt, add_credit, Event, credits, context_done,
  resume, admit, consume, chunk_size, size_or_refuse, validate_chunk_limit, terminal_data_size,
}

-- The length that validation takes is the size that the flow takes, where the text is valid.
pub size_of_length :
    (encoding content : Bytes) (n : ℕ)
    → terminal_data_length encoding content ≡ some n
    → terminal_data_size encoding content ≡ some n
unfolding terminal_data_length terminal_data_size
size_of_length encoding content n h = ground arith

-- A chunk that passed: it starts at or after the old offset, and the flow stands behind it.
pub record Placed (f g : TerminalFlow) (c : TerminalChunk) (size : ℕ) : Type 0 where
  pub forward : f.through_offset ≤ c.offset
  pub through : g.through_offset ≡ (c.offset + size) % 2 ^ 64
  pub sequence : g.sequence ≡ c.sequence
  pub remaining : g.remaining ≡ c.credit_remaining

attempt-Placed :
    (f g : TerminalFlow) (c : TerminalChunk) (size : ℕ)
    → attempt f c size ≡ (g, finished (ok tt))
    → Placed f g c size
unfolding attempt
attempt-Placed f g c size h = record {
  forward = ground arith;
  through = ground arith;
  sequence = ground arith;
  remaining = ground arith;
}

attempt-waiting :
    (f g : TerminalFlow) (c : TerminalChunk) (size : ℕ)
    → attempt f c size ≡ (g, waiting)
    → (f.through_offset ≤ c.offset) × (g.through_offset ≡ c.offset)
unfolding attempt
attempt-waiting f g c size h = ground arith

add_credit-through :
    (f : TerminalFlow) (credit : TerminalCredit)
    → (add_credit f credit).0.through_offset ≡ f.through_offset
unfolding add_credit
add_credit-through f credit = ground arith

-- Whatever a flow waits through, the chunk that passes in the end is placed after its offset.
resume-Placed :
    (f g : TerminalFlow) (c : TerminalChunk) (size : ℕ) (next : Attempt) (events : List Event)
    → ((k : TerminalFlow)
        → (k.through_offset ≡ c.offset)
        → (resume k c size waiting events).1 ≡ some (ok tt)
        → Placed k (resume k c size waiting events).0 c size)
    → attempt f c size ≡ (g, next)
    → (resume g c size next events).1 ≡ some (ok tt)
    → Placed f (resume g c size next events).0 c size
unfolding resume
resume-Placed f g c size (finished r) events ih e h = attempt-Placed f g c size (ground arith)
resume-Placed f g c size waiting events ih e h =
    let p = ih g (attempt-waiting f g c size e).1 h in
    record {
      forward = (attempt-waiting f g c size e).0;
      through = p.through;
      sequence = p.sequence;
      remaining = p.remaining;
    }

-- The same flow, seen before a credit came in.
Placed-earlier :
    (k h g : TerminalFlow) (c : TerminalChunk) (size : ℕ)
    → h.through_offset ≡ k.through_offset
    → Placed h g c size
    → Placed k g c size
Placed-earlier k h g c size e p = record {
  forward = ground (arith, p.forward);
  through = p.through;
  sequence = p.sequence;
  remaining = p.remaining;
}

module _ (c : TerminalChunk) (size : ℕ) where
  after_credit-Placed :
      (k h : TerminalFlow) (credit : TerminalCredit) (answer : Check GoError) (events : List Event)
      → ((k : TerminalFlow)
          → (k.through_offset ≡ c.offset)
          → (resume k c size waiting events).1 ≡ some (ok tt)
          → Placed k (resume k c size waiting events).0 c size)
      → add_credit k credit ≡ (h, answer)
      → (k.through_offset ≡ c.offset)
      → (resume k c size waiting (credits credit ∷ events)).1 ≡ some (ok tt)
      → Placed k (resume k c size waiting (credits credit ∷ events)).0 c size
  after_credit-Placed k h credit (ok tt) events ih e at =
      rw (resume-received k h c size credit events e) (λ passed.
        Placed-earlier k h _ c size (ground (arith, add_credit-through k credit))
          (resume-Placed h (attempt h c size).0 c size (attempt h c size).1 events ih refl passed))
  after_credit-Placed k h credit (err x) events ih e at =
      rw (resume-refused k h c size credit x events e) (ih k at)

  waiting-Placed :
      (k : TerminalFlow) (events : List Event)
      → (k.through_offset ≡ c.offset)
      → (resume k c size waiting events).1 ≡ some (ok tt)
      → Placed k (resume k c size waiting events).0 c size
  unfolding resume
  waiting-Placed k [] at h = cc
  waiting-Placed k (context_done x ∷ events) at h = cc
  waiting-Placed k (credits credit ∷ events) at h =
      after_credit-Placed k (add_credit k credit).0 credit (add_credit k credit).1 events
        (λ k. waiting-Placed k events) refl at h

-- The tests that accept a chunk's size, on the chunk alone.
size_checked :
    (c : TerminalChunk) (maximum size : ℕ)
    → validate_chunk_limit c maximum ≡ ok tt
    → size_or_refuse (chunk_size c) ≡ ok size
    → Sized c size × (size ≤ maximum)
unfolding validate_chunk_limit
size_checked c maximum size h k =
    let (valid, h1) = check-bind-ok (or_else (validate_chunk c) (sdk_error invalid_argument)) _ h in
    let (n, sized) = validate_chunk-Sized c (or_else-eq-ok (validate_chunk c) _ valid) in
    let same = size_of_length c.encoding c.content n sized.decoded in
    let equal : n ≡ size = ground (arith, same) in
    (subst (Sized c) equal sized, ground (arith, same))

pub admit-Sized :
    (f : TerminalFlow) (c : TerminalChunk) (maximum size : ℕ)
    → admit f c maximum ≡ ok size
    → Sized c size
      × (size ≤ maximum)
      × ((c.native_session_id == f.native_session) ≡ true)
      × ((c.stream_id == f.stream_id) ≡ true)
      × (chunk_size c ≡ some size)
unfolding admit
admit-Sized f c maximum size h =
    let (ids, h1) =
      reject_if-bind-ok
        (not (c.native_session_id == f.native_session) || not (c.stream_id == f.stream_id)) _ _ h in
    let (limit, h2) = check-bind-ok (validate_chunk_limit c maximum) _ h1 in
    let (_, h3) = reject_if-bind-ok (c.replayed && not f.replay_allowed) _ _ h2 in
    let (sized, room) = size_checked c maximum size limit h3 in
    (sized, room, ground arith, ground arith, ground arith)

consume-Placed :
    (f : TerminalFlow) (c : TerminalChunk) (maximum : ℕ) (events : List Event) (size : ℕ)
    → admit f c maximum ≡ ok size
    → (consume f c maximum events).1 ≡ some (ok tt)
    → Placed f (consume f c maximum events).0 c size
unfolding consume
consume-Placed f c maximum events size a =
    rw (consume, a)
      (resume-Placed f (attempt f c size).0 c size (attempt f c size).1 events
        (λ k. waiting-Placed c size k events) refl)

consume-admitted :
    (f : TerminalFlow) (c : TerminalChunk) (maximum : ℕ) (events : List Event)
    → (consume f c maximum events).1 ≡ some (ok tt)
    → (size : ℕ) × (admit f c maximum ≡ ok size)
unfolding consume
consume-admitted f c maximum events = elim (outcome-cases (admit f c maximum)) [
  | inl found ↦ λ h. found
  | inr (e, a) ↦ rw (consume, a) (λ h. cc)
]

-- What the answer nil of `consume` says, in terms of the flow after it.
pub record Delivered (f g : TerminalFlow) (c : TerminalChunk) (maximum : ℕ) : Type 0 where
  pub size : ℕ
  pub sized : terminal_data_length c.encoding c.content ≡ some size
  pub positive : 0 < size
  pub capped : size ≤ max_terminal_chunk_bytes
  pub negotiated : size ≤ maximum
  pub forward : f.through_offset ≤ c.offset
  pub through : g.through_offset ≡ c.offset + size
  pub no_wrap : c.offset + size < 2 ^ 64
  pub sequence : g.sequence ≡ c.sequence
  pub remaining : g.remaining ≡ c.credit_remaining

-- A chunk for which `consume` answers without an error, whatever credits it waited for, holds between
-- one byte and both the fixed and the negotiated maximum, starts at or after the offset of the flow,
-- and states the credit that is left; the flow then stands at the end of the chunk, which does not
-- wrap, and at its sequence number.
pub consume-Delivered :
    (f : TerminalFlow) (c : TerminalChunk) (maximum : ℕ) (events : List Event)
    → c.offset < 2 ^ 64
    → (consume f c maximum events).1 ≡ some (ok tt)
    → Delivered f (consume f c maximum events).0 c maximum
consume-Delivered f c maximum events small h =
    let (size, a) = consume-admitted f c maximum events h in
    let (sized, room, _, _, _) = admit-Sized f c maximum size a in
    let p = consume-Placed f c maximum events size a h in
    let no_wrap = sized.no_wrap small in
    record {
      size = size;
      sized = sized.decoded;
      positive = sized.positive;
      capped = sized.capped;
      negotiated = room;
      forward = p.forward;
      through = ground (arith, p.through);
      no_wrap = no_wrap;
      sequence = p.sequence;
      remaining = p.remaining;
    }
