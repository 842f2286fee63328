-- ===== src/Provider/Flow/Waiting/Ends.antt =====
-- provider/subscription.go: the loop of `consume` ends as the module above tells.
use mission_control_edge.Common.{
  ℕ, ◌-◌, ◌≡◌, false, Option, some, List, leb, if◌then◌else◌, bytes_eq, Check,
}
use mission_control_edge.Protocol.Error.{GoError}
use mission_control_edge.Protocol.Terminal.{TerminalChunk}
use mission_control_edge.Provider.Flow.{TerminalFlow, waiting, out_of_sequence, Event, resume}
use mission_control_edge.Provider.Flow.Waiting.{at_chunk, behind_chunk, stated}

module _ (f : TerminalFlow) (c : TerminalChunk) (size : ℕ)
    (in_sequence : out_of_sequence f.sequence c ≡ false) where
  -- An attempt, and the later turns of the loop.
  attempted : (credit : ℕ) (rest : List Event) → TerminalFlow × Option (Check GoError)
  attempted credit rest =
      if leb size credit
      then (behind_chunk f c size credit, some (stated c (credit - size)))
      else resume (at_chunk f c credit) c size waiting rest
