-- ===== src/Provider/Flow/Window.antt =====
-- What one attempt and one credit do to the window, and the account of bytes over any sequence of
-- them. An attempt that waits and an attempt that fails count as steps too.
use mission_control_edge.Common.{ℕ, ◌+◌, ◌-◌, ◌≤◌, ◌<◌, ◌≡◌, List, ◌∷◌, arith, bytes_eq, ok, err}
use mission_control_edge.Protocol.Error.{GoError}
use mission_control_edge.Protocol.Terminal.{TerminalChunk, TerminalCredit}
use mission_control_edge.Provider.Flow.{
  TerminalFlow, finished, waiting, attempt, add_credit, Event, credits, resume,
}

abbrev pub InWindow : TerminalFlow → Type 0
InWindow f = f.remaining ≤ f.window

-- The steps of a flow under its mutex, with the bytes that pass and the bytes that are credited.
pub data Steps : TerminalFlow → ℕ → ℕ → TerminalFlow → Type 0 where
  stay : (f : TerminalFlow) → Steps f 0 0 f
  passes :
      {f g h : TerminalFlow} {sent granted : ℕ} (c : TerminalChunk) (size : ℕ)
      → attempt f c size ≡ (g, finished (ok tt))
      → Steps g sent granted h
      → Steps f (size + sent) granted h
  fails :
      {f g h : TerminalFlow} {sent granted : ℕ} (c : TerminalChunk) (size : ℕ) (e : GoError)
      → attempt f c size ≡ (g, finished (err e))
      → Steps g sent granted h
      → Steps f sent granted h
  waits :
      {f g h : TerminalFlow} {sent granted : ℕ} (c : TerminalChunk) (size : ℕ)
      → attempt f c size ≡ (g, waiting)
      → Steps g sent granted h
      → Steps f sent granted h
  receives :
      {f g h : TerminalFlow} {sent granted : ℕ} (credit : TerminalCredit)
      → add_credit f credit ≡ (g, ok tt)
      → Steps g sent granted h
      → Steps f sent (credit.bytes + granted) h
  refuses :
      {f g h : TerminalFlow} {sent granted : ℕ} (credit : TerminalCredit) (e : GoError)
      → add_credit f credit ≡ (g, err e)
      → Steps g sent granted h
      → Steps f sent granted h

attempt-passes :
    (f g : TerminalFlow) (c : TerminalChunk) (size : ℕ)
    → attempt f c size ≡ (g, finished (ok tt))
    → (g.remaining + size ≡ f.remaining) × (g.window ≡ f.window)
unfolding attempt
attempt-passes f g c size h = ground arith

attempt-fails :
    (f g : TerminalFlow) (c : TerminalChunk) (size : ℕ) (e : GoError)
    → attempt f c size ≡ (g, finished (err e))
    → (g.remaining ≤ f.remaining) × (g.window ≡ f.window)
unfolding attempt
attempt-fails f g c size e h = ground arith

attempt-waits :
    (f g : TerminalFlow) (c : TerminalChunk) (size : ℕ)
    → attempt f c size ≡ (g, waiting)
    → (g.remaining ≡ f.remaining) × (g.window ≡ f.window) × (f.remaining < size)
unfolding attempt
attempt-waits f g c size h = ground arith

add_credit-receives :
    (f g : TerminalFlow) (credit : TerminalCredit)
    → add_credit f credit ≡ (g, ok tt)
    → (g.remaining ≡ f.remaining + credit.bytes)
      × (g.window ≡ f.window)
      × (credit.bytes ≤ f.window - f.remaining)
unfolding add_credit
add_credit-receives f g credit h = ground arith

pub add_credit-refuses :
    (f g : TerminalFlow) (credit : TerminalCredit) (e : GoError)
    → add_credit f credit ≡ (g, err e)
    → g ≡ f
unfolding add_credit
add_credit-refuses f g credit e h = ground arith

-- Over any steps of a flow that starts in its window: the flow stays in its window, which does not
-- change, and the bytes that pass are at most the credit at the start and the bytes granted, less
-- what is left.
pub Steps-InWindow :
    {f g : TerminalFlow} {sent granted : ℕ}
    → Steps f sent granted g
    → InWindow f
    → InWindow g × (g.window ≡ f.window) × (sent + g.remaining ≤ f.remaining + granted)
Steps-InWindow (stay f) w = ground arith
Steps-InWindow (passes c size e rest) w = ground (
  arith,
  attempt-passes _ _ c size e,
  Steps-InWindow rest (ground (arith, attempt-passes _ _ c size e)),
)
Steps-InWindow (fails c size x e rest) w = ground (
  arith,
  attempt-fails _ _ c size x e,
  Steps-InWindow rest (ground (arith, attempt-fails _ _ c size x e)),
)
Steps-InWindow (waits c size e rest) w = ground (
  arith,
  attempt-waits _ _ c size e,
  Steps-InWindow rest (ground (arith, attempt-waits _ _ c size e)),
)
Steps-InWindow (receives credit e rest) w = ground (
  arith,
  add_credit-receives _ _ credit e,
  Steps-InWindow rest (ground (arith, add_credit-receives _ _ credit e)),
)
Steps-InWindow (refuses credit x e rest) w = ground (
  arith,
  Steps-InWindow rest (rw (add_credit-refuses _ _ credit x e) w),
  add_credit-refuses _ _ credit x e,
)

pub resume-received :
    (g h : TerminalFlow) (c : TerminalChunk) (size : ℕ) (credit : TerminalCredit)
    (events : List Event)
    → add_credit g credit ≡ (h, ok tt)
    → resume g c size waiting (credits credit ∷ events)
      ≡ resume (attempt h c size).0 c size (attempt h c size).1 events
unfolding resume
resume-received g h c size credit events e = ground arith

pub resume-refused :
    (g h : TerminalFlow) (c : TerminalChunk) (size : ℕ) (credit : TerminalCredit) (x : GoError)
    (events : List Event)
    → add_credit g credit ≡ (h, err x)
    → resume g c size waiting (credits credit ∷ events) ≡ resume g c size waiting events
unfolding resume
resume-refused g h c size credit x events e = ground (arith, add_credit-refuses g h credit x e)
