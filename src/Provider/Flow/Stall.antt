-- ===== src/Provider/Flow/Stall.antt =====
-- Credits and chunks that cross: the offset that a credit names is compared for equality with the
-- offset of the server, which may have moved on.
use mission_control_edge.Common.{
  ℕ, ◌+◌, ◌%◌, ◌^◌, ◌≤◌, ◌<◌, ◌≡◌, refl, true, false, none, List, [], ◌∷◌, map, arith, eqb,
  bytes_eq, ok, err, All,
}
use mission_control_edge.Protocol.Error.{invalid_argument}
use mission_control_edge.Provider.RpcError.{sdk_error}
use mission_control_edge.Protocol.Terminal.{TerminalChunk, TerminalCredit}
use mission_control_edge.Provider.Flow.Window.{resume-refused}
use mission_control_edge.Provider.Flow.Delivery.{admit-Sized}
use mission_control_edge.Provider.Flow.Agreement.{Agree}
use mission_control_edge.Provider.Flow.{
  TerminalFlow, finished, waiting, attempt, add_credit, admit, consume, resume, credits,
  ClientTerminalFlow, send_credit,
}

-- A credit with another offset is refused, and changes nothing.
credit_elsewhere :
    (f : TerminalFlow) (credit : TerminalCredit)
    → (eqb credit.through_offset f.through_offset ≡ false)
    → add_credit f credit ≡ (f, err (sdk_error invalid_argument))
unfolding add_credit
credit_elsewhere f credit h = ground arith

attempt-through :
    (f g : TerminalFlow) (c : TerminalChunk) (size : ℕ)
    → attempt f c size ≡ (g, finished (ok tt))
    → (f.through_offset ≤ c.offset) × (g.through_offset ≡ (c.offset + size) % 2 ^ 64)
unfolding attempt
attempt-through f g c size h = ground arith

send_credit-through :
    (k k' : ClientTerminalFlow) (credit : TerminalCredit)
    → send_credit k credit true (ok tt) ≡ (k', ok tt)
    → credit.through_offset ≡ k.through_offset
unfolding send_credit
send_credit-through k k' credit h = ground arith

-- When both ends agree, a credit that the client sends is refused by the server, with
-- invalid_argument and without effect, if the server has passed a chunk in between: the client is
-- right about what it has seen, and the credit is lost all the same.
pub stale_credit_refused :
    (s s' : TerminalFlow) (k k' : ClientTerminalFlow) (c : TerminalChunk) (maximum size : ℕ)
    (credit : TerminalCredit)
    → Agree s k
    → c.offset < 2 ^ 64
    → admit s c maximum ≡ ok size
    → attempt s c size ≡ (s', finished (ok tt))
    → send_credit k credit true (ok tt) ≡ (k', ok tt)
    → add_credit s' credit ≡ (s', err (sdk_error invalid_argument))
stale_credit_refused s s' k k' c maximum size credit a small admitted e sent =
    let (sized, _, _, _, _) = admit-Sized s c maximum size admitted in
    credit_elsewhere s' credit (
      ground (
        arith,
        attempt-through s s' c size e,
        sized.no_wrap small,
        sized.positive,
        send_credit-through k k' credit sent,
        a.through_offset,
      ))

-- A wait behind a gap moves the offset past it.
attempt-gap :
    (f : TerminalFlow) (c : TerminalChunk) (size : ℕ)
    → c.truncated ≡ true
    → f.through_offset < c.offset
    → f.remaining < size
    → attempt f c size ≡ (record f { through_offset = c.offset }, waiting)
unfolding attempt
attempt-gap f c size t gap more = ground arith

resume-stalls :
    (f : TerminalFlow) (c : TerminalChunk) (size seen : ℕ) (sent : List TerminalCredit)
    → seen < f.through_offset
    → All (λ m. m.through_offset ≡ seen) sent
    → resume f c size waiting (map credits sent) ≡ (f, none)
unfolding resume
resume-stalls f c size seen [] behind h = refl
resume-stalls f c size seen (m ∷ sent) behind h =
    rw
      (resume-refused f f c size m _ (map credits sent)
        (credit_elsewhere f m (ground (arith, h.0))))
      (resume-stalls f c size seen sent behind h.1)

-- A chunk that the server admits, that skips bytes (it is marked truncated and starts after the
-- flow's offset) and that is larger than the credit left waits for ever: no sequence of credits at
-- the offset that the client has seen makes it pass, or even changes the credit.
pub gap_stalls :
    (f : TerminalFlow) (c : TerminalChunk) (maximum size : ℕ) (sent : List TerminalCredit)
    → admit f c maximum ≡ ok size
    → c.truncated ≡ true
    → f.through_offset < c.offset
    → f.remaining < size
    → All (λ m. m.through_offset ≡ f.through_offset) sent
    → consume f c maximum (map credits sent) ≡ (record f { through_offset = c.offset }, none)
unfolding consume
gap_stalls f c maximum size sent admitted t gap more h =
    rw (consume, admitted, attempt-gap f c size t gap more)
      (resume-stalls (record f { through_offset = c.offset }) c size f.through_offset sent gap h)
