-- ===== src/Provider/Flow/Agreement.antt =====
-- The flow of the server and the flow of the client keep the same account: a system of both ends with
-- the chunks in flight between them. A credit is applied at the server when the client sends it, and
-- a wait is on a chunk that leaves no gap; the module Stall is about the other orders.
use mission_control_edge.Common.{
  ℕ, ◌+◌, ◌-◌, ◌%◌, ◌^◌, ◌≤◌, ◌<◌, ◌≡◌, ◌∙◌, sym, ap, refl, Bool, true, false, List, [], ◌∷◌, ◌++◌,
  arith, bytes_eq, ok, subst,
}
use mission_control_edge.Protocol.Terminal.{TerminalChunk, TerminalCredit, TerminalSubscribeRequest}
use mission_control_edge.Provider.Flow.Delivery.{admit-Sized}
use mission_control_edge.Provider.Flow.{
  TerminalFlow, finished, waiting, attempt, add_credit, admit, new_terminal_flow,
  ClientTerminalFlow, new_client_terminal_flow, client_consume, send_credit,
}

-- Both ends have the same account of one stream.
pub record Agree (s : TerminalFlow) (k : ClientTerminalFlow) : Type 0 where
  pub native_session : k.native_session ≡ s.native_session
  pub stream_id : k.stream_id ≡ s.stream_id
  pub window : k.window ≡ s.window
  pub remaining : k.remaining ≡ s.remaining
  pub through_offset : k.through_offset ≡ s.through_offset
  pub sequence : k.sequence ≡ s.sequence
  pub is_open : k.closed ≡ false

-- The client's account after a chunk of the size that it takes.
abbrev received : ClientTerminalFlow → TerminalChunk → ℕ → ClientTerminalFlow
received k c size = record k {
  remaining = k.remaining - size;
  through_offset = (c.offset + size) % 2 ^ 64;
  sequence = c.sequence;
}

-- A chunk that the server passes is accepted by a client that agrees, and they agree again.
attempt-Agree :
    (s s' : TerminalFlow) (k : ClientTerminalFlow) (c : TerminalChunk) (maximum size : ℕ)
    → Agree s k
    → admit s c maximum ≡ ok size
    → attempt s c size ≡ (s', finished (ok tt))
    → (client_consume k c true ≡ (received k c size, ok tt)) × Agree s' (received k c size)
unfolding attempt client_consume
attempt-Agree s s' k c maximum size a admitted e =
    let (sized, room, session, stream, counted) = admit-Sized s c maximum size admitted in
    (
      ground (
        arith, a.native_session, a.stream_id, a.window, a.remaining, a.through_offset, a.sequence,
        a.is_open,
      ),
      record {
        native_session = ground (arith, a.native_session);
        stream_id = ground (arith, a.stream_id);
        window = ground (arith, a.window);
        remaining = ground (arith, a.remaining);
        through_offset = ground arith;
        sequence = ground arith;
        is_open = a.is_open;
      },
    )

-- A credit that both ends apply.
credit-Agree :
    (s s' : TerminalFlow) (k k' : ClientTerminalFlow) (credit : TerminalCredit)
    → Agree s k
    → send_credit k credit true (ok tt) ≡ (k', ok tt)
    → add_credit s credit ≡ (s', ok tt)
    → Agree s' k'
unfolding send_credit add_credit
credit-Agree s s' k k' credit a sent applied = record {
  native_session = ground (arith, a.native_session);
  stream_id = ground (arith, a.stream_id);
  window = ground (arith, a.window);
  remaining = ground (arith, a.remaining);
  through_offset = ground (arith, a.through_offset);
  sequence = ground (arith, a.sequence);
  is_open = ground (arith, a.is_open);
}

-- The chunks in flight, taken by the client in their order, bring it to the server's account.
pub data CatchesUp (s : TerminalFlow) : List TerminalChunk → ClientTerminalFlow → Type 0 where
  level : {k : ClientTerminalFlow} → Agree s k → CatchesUp s [] k
  takes :
      {k k' : ClientTerminalFlow} {c : TerminalChunk} {rest : List TerminalChunk}
      → client_consume k c true ≡ (k', ok tt)
      → k.through_offset < k'.through_offset
      → CatchesUp s rest k'
      → CatchesUp s (c ∷ rest) k

CatchesUp-through :
    {s : TerminalFlow} {q : List TerminalChunk} {k : ClientTerminalFlow}
    → CatchesUp s q k
    → k.through_offset ≤ s.through_offset
CatchesUp-through (level a) = ground (arith, a.through_offset)
CatchesUp-through (takes e grows rest) = ground (arith, CatchesUp-through rest)

attempt-forward :
    (s s' : TerminalFlow) (c : TerminalChunk) (size : ℕ)
    → attempt s c size ≡ (s', finished (ok tt))
    → s.through_offset ≤ c.offset
unfolding attempt
attempt-forward s s' c size e = ground arith

-- A wait without a gap changes nothing.
attempt-wait :
    (s s' : TerminalFlow) (c : TerminalChunk) (size : ℕ)
    → c.offset ≡ s.through_offset
    → attempt s c size ≡ (s', waiting)
    → s' ≡ s
unfolding attempt
attempt-wait s s' c size at e = ground arith

apart :
    (s s' : TerminalFlow) (k k' : ClientTerminalFlow) (credit : TerminalCredit)
    → k.through_offset < s.through_offset
    → send_credit k credit true (ok tt) ≡ (k', ok tt)
    → ¬ (add_credit s credit ≡ (s', ok tt))
unfolding send_credit add_credit
apart s s' k k' credit behind sent applied = ground arith

-- The server sends one chunk more.
CatchesUp-send :
    {s s' : TerminalFlow} {q : List TerminalChunk} {k : ClientTerminalFlow} (c : TerminalChunk)
    (maximum size : ℕ)
    → CatchesUp s q k
    → c.offset < 2 ^ 64
    → admit s c maximum ≡ ok size
    → attempt s c size ≡ (s', finished (ok tt))
    → CatchesUp s' (q ++ c ∷ []) k
CatchesUp-send {s = s} {s' = s'} {k = k} c maximum size (level a) small admitted e =
    let (accepts, agree) = attempt-Agree s s' k c maximum size a admitted e in
    let (sized, _, _, _, _) = admit-Sized s c maximum size admitted in
    takes accepts
      (ground (
        arith,
        sized.no_wrap small,
        sized.positive,
        a.through_offset,
        attempt-forward s s' c size e,
      ))
      (level agree)
CatchesUp-send c maximum size (takes first grows rest) small admitted e =
    takes first grows (CatchesUp-send c maximum size rest small admitted e)

CatchesUp-rest :
    {s : TerminalFlow} {q : List TerminalChunk} {k k' : ClientTerminalFlow} {c : TerminalChunk}
    → CatchesUp s (c ∷ q) k
    → client_consume k c true ≡ (k', ok tt)
    → CatchesUp s q k'
CatchesUp-rest {s = s} {q = q} (takes e grows rest) e' =
    subst (λ k. CatchesUp s q k) (ap (λ p. p.0) (sym e ∙ e')) rest

-- A credit that both ends accept finds no chunk in flight.
CatchesUp-credit :
    {s s' : TerminalFlow} {q : List TerminalChunk} {k k' : ClientTerminalFlow}
    (credit : TerminalCredit)
    → CatchesUp s q k
    → send_credit k credit true (ok tt) ≡ (k', ok tt)
    → add_credit s credit ≡ (s', ok tt)
    → CatchesUp s' q k'
CatchesUp-credit {s = s} {s' = s'} {k = k} {k' = k'} credit (level a) sent applied =
    level (credit-Agree s s' k k' credit a sent applied)
CatchesUp-credit {s = s} {s' = s'} {k = k} {k' = k'} credit (takes e grows rest) sent applied =
    absurd (apart s s' k k' credit (ground (arith, CatchesUp-through rest)) sent applied)

-- The client accepts the chunks of the queue, one after the other.
abbrev pub AllTaken : List TerminalChunk → ClientTerminalFlow → Type 0
AllTaken [] k = Unit {0}
AllTaken (c ∷ q) k = ((client_consume k c true).1 ≡ ok tt) × AllTaken q (client_consume k c true).0

CatchesUp-AllTaken :
    {s : TerminalFlow} {q : List TerminalChunk} {k : ClientTerminalFlow}
    → CatchesUp s q k
    → AllTaken q k
CatchesUp-AllTaken (level a) = tt
CatchesUp-AllTaken {s = s} (takes {k = k} {k' = k'} {c = c} {rest = q} e grows rest) =
    (ap (λ p. p.1) e, subst (AllTaken q) (ap (λ p. p.0) (sym e)) (CatchesUp-AllTaken rest))

CatchesUp-Agree :
    {s : TerminalFlow} {q : List TerminalChunk} {k : ClientTerminalFlow}
    → CatchesUp s q k
    → q ≡ []
    → Agree s k
CatchesUp-Agree (level a) e = a
CatchesUp-Agree (takes _ _ _) e = cc

-- What both ends and the queue between them can reach.
pub data Reaches (r : TerminalSubscribeRequest) (can_replay : Bool)
    : TerminalFlow → List TerminalChunk → ClientTerminalFlow → Type 0 where
  starts : Reaches r can_replay (new_terminal_flow r can_replay) [] (new_client_terminal_flow r)
  sends :
      {s s' : TerminalFlow} {q : List TerminalChunk} {k : ClientTerminalFlow} (c : TerminalChunk)
      (maximum size : ℕ)
      → Reaches r can_replay s q k
      → c.offset < 2 ^ 64
      → admit s c maximum ≡ ok size
      → attempt s c size ≡ (s', finished (ok tt))
      → Reaches r can_replay s' (q ++ c ∷ []) k
  waits :
      {s s' : TerminalFlow} {q : List TerminalChunk} {k : ClientTerminalFlow} (c : TerminalChunk)
      (size : ℕ)
      → Reaches r can_replay s q k
      → c.offset ≡ s.through_offset
      → attempt s c size ≡ (s', waiting)
      → Reaches r can_replay s' q k
  arrives :
      {s : TerminalFlow} {q : List TerminalChunk} {k k' : ClientTerminalFlow} {c : TerminalChunk}
      → Reaches r can_replay s (c ∷ q) k
      → client_consume k c true ≡ (k', ok tt)
      → Reaches r can_replay s q k'
  credited :
      {s s' : TerminalFlow} {q : List TerminalChunk} {k k' : ClientTerminalFlow}
      (credit : TerminalCredit)
      → Reaches r can_replay s q k
      → send_credit k credit true (ok tt) ≡ (k', ok tt)
      → add_credit s credit ≡ (s', ok tt)
      → Reaches r can_replay s' q k'

Reaches-CatchesUp :
    {r : TerminalSubscribeRequest} {can_replay : Bool} {s : TerminalFlow} {q : List TerminalChunk}
    {k : ClientTerminalFlow}
    → Reaches r can_replay s q k
    → CatchesUp s q k
Reaches-CatchesUp starts = level (record {
  native_session = refl;
  stream_id = refl;
  window = refl;
  remaining = refl;
  through_offset = refl;
  sequence = refl;
  is_open = refl;
})
Reaches-CatchesUp (sends c maximum size past small admitted e) =
    CatchesUp-send c maximum size (Reaches-CatchesUp past) small admitted e
Reaches-CatchesUp {q = q} {k = k} (waits c size past at e) =
    subst (λ s. CatchesUp s q k) (sym (attempt-wait _ _ c size at e)) (Reaches-CatchesUp past)
Reaches-CatchesUp (arrives past e) = CatchesUp-rest (Reaches-CatchesUp past) e
Reaches-CatchesUp (credited credit past sent applied) =
    CatchesUp-credit credit (Reaches-CatchesUp past) sent applied

-- In every state that a subscription reaches by chunks that the server passes, waits without a gap,
-- arrivals and credits that both ends apply: the client accepts all the chunks in flight, in their
-- order, while its subscription is active, and with none in flight both ends have the same window,
-- remaining credit, offset and sequence number.
pub Reaches-accepted :
    {r : TerminalSubscribeRequest} {can_replay : Bool} {s : TerminalFlow} {q : List TerminalChunk}
    {k : ClientTerminalFlow}
    → Reaches r can_replay s q k
    → AllTaken q k × (q ≡ [] → Agree s k)
Reaches-accepted past =
    (CatchesUp-AllTaken (Reaches-CatchesUp past), CatchesUp-Agree (Reaches-CatchesUp past))
