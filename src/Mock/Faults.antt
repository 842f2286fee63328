-- ===== src/Mock/Faults.antt =====
-- mock/faults.go: a script of faults, each of which is taken once, at a numbered occurrence of its point.
-- A frame is a byte string. The section under the mutex that selects the faults is a function of the
-- state; what the waits for a timer or a gate end with is a function of the fault.
pub mod Conservation
pub mod Script
mod Samples
use mission_control_edge.Common.{
  ℕ, suc, ◌+◌, ◌-◌, ◌*◌, ◌/◌, ◌^◌, Bool, true, false, ◌&&◌, ◌||◌, not, Option, none, some, List, [],
  ◌∷◌, ◌++◌, map, ltb, leb, eqb, if◌then◌else◌, length, replicate, drop, is_empty, ◌==◌, bytes_eq,
  Bytes, bytes, Outcome, ok, err, Check, ◌>>=◌, ◌>>◌, reject_if,
}
use mission_control_edge.Common.Int.{ℤ, pos, pos_part, ltb_ℤ, leb_ℤ}
use mission_control_edge.Common.Assoc.{Assoc, lookup, insert, remove}
use mission_control_edge.Protocol.Error.{GoError, plain, disconnected, crashed}
use mission_control_edge.Provider.Limits.{max_message_bytes}

-- The constants of `FaultPoint`, a Go string.
abbrev pub gateway_to_provider : Bytes
gateway_to_provider = bytes "gateway.provider"

abbrev pub provider_to_gateway : Bytes
provider_to_gateway = bytes "provider.gateway"

abbrev pub control_plane_ingest : Bytes
control_plane_ingest = bytes "control-plane.ingest"

abbrev pub control_plane_replay : Bytes
control_plane_replay = bytes "control-plane.replay"

-- `FaultAction`; `unlisted` stands for every string but the nine constants.
pub data FaultAction : Type 0 where
  disconnect crash delay duplicate out_of_order replay_gap backpressure oversize redact :
      FaultAction
  unlisted : Bytes → FaultAction

abbrev pub max_fault_output_frames : ℕ
max_fault_output_frames = 1024

-- `gated` tells whether `Gate` is not nil.
pub record Fault : Type 0 where
  pub point : Bytes
  pub occurrence : ℕ
  pub action : FaultAction
  pub contains : Bytes
  pub delay_time : ℤ
  pub copies : ℤ
  pub size : ℤ
  pub pattern : Bytes
  pub replacement : Bytes
  pub gated : Bool

pub record FaultStep : Type 0 where
  pub fault : Fault
  pub seen : ℕ
  pub used : Bool

pub record Faults : Type 0 where
  pub steps : List FaultStep
  pub pending : Assoc Bytes (List Bytes)

-- The second switch of `validate`.
validate_action : Fault → Check GoError
validate_action f = elim f.action [
  | delay ↦ reject_if (leb_ℤ f.delay_time (pos 0)) (plain "mock delay must be positive")
  | duplicate ↦
      reject_if (ltb_ℤ f.copies (pos 2) || ltb_ℤ (pos 16) f.copies)
        (plain "mock duplicate copies must be between 2 and 16")
  | backpressure ↦ reject_if (not f.gated) (plain "mock backpressure gate is required")
  | oversize ↦
      reject_if (leb_ℤ f.size (pos 0) || ltb_ℤ (pos (max_message_bytes + 1)) f.size)
        (plain "mock oversize target is invalid")
  | redact ↦ reject_if (is_empty f.pattern) (plain "mock redaction match is required")
  | unlisted name ↦ err (plain "mock fault action is invalid")
  | _ ↦ ok tt
]

-- The method `validate` of `Fault`.
pub validate_fault : Fault → Check GoError
unfolding validate_action
validate_fault f = do
  reject_if
      (not (
        f.point == gateway_to_provider
        || f.point == provider_to_gateway
        || f.point == control_plane_ingest
        || f.point == control_plane_replay))
      (plain "mock fault point is invalid")
  reject_if (eqb f.occurrence 0) (plain "mock fault occurrence must be positive")
  validate_action f

-- The loop of `NewFaults`.
script_of : List Fault → Outcome GoError (List FaultStep)
script_of [] = ok []
script_of (f ∷ rest) = do
  validate_fault f
  others ← script_of rest
  ok (record { fault = f; seen = 0; used = false } ∷ others)

-- NewFaults
unfoldable pub new_faults : List Fault → Outcome GoError Faults
unfolding script_of
new_faults values = do steps ← script_of values; ok (record { steps = steps; pending = [] })

is_prefix : Bytes → Bytes → Bool
is_prefix [] text = true
is_prefix (x ∷ xs) [] = false
is_prefix (x ∷ xs) (y ∷ ys) = eqb x y && is_prefix xs ys

-- bytes.Contains
contains_bytes : Bytes → Bytes → Bool
unfolding is_prefix
contains_bytes part [] = is_empty part
contains_bytes part (b ∷ rest) = is_prefix part (b ∷ rest) || contains_bytes part rest

-- The step does not take part: it is used, at another point, or its text is not in the payload.
passes_by : Bytes → Bytes → FaultStep → Bool
unfolding contains_bytes
passes_by point payload s =
    s.used
    || not (s.fault.point == point)
    || (not (is_empty s.fault.contains) && not (contains_bytes s.fault.contains payload))

-- One step of the first loop of `Apply`: the step afterwards, and the fault if it is taken now.
pub advance : Bytes → Bytes → FaultStep → FaultStep × List Fault
unfolding passes_by
advance point payload s =
    if passes_by point payload s
    then (s, [])
    else if eqb (s.seen + 1) s.fault.occurrence
    then (record s { seen = s.seen + 1; used = true }, s.fault ∷ [])
    else (record s { seen = s.seen + 1 }, [])

-- The first loop of `Apply`. A count of occurrences does not reach 2^64.
unfoldable pub select_faults : Bytes → Bytes → List FaultStep → List FaultStep × List Fault
unfolding advance
select_faults point payload [] = ([], [])
select_faults point payload (s ∷ rest) =
    let (others, later) = select_faults point payload rest in
    let (after_step, now) = advance point payload s in (after_step ∷ others, now ++ later)

-- f.pending[point]
abbrev pub held : Bytes → Assoc Bytes (List Bytes) → List Bytes
held point pending = elim (lookup point pending) [ none ↦ [] | some frames ↦ frames ]

-- Each frame so many times, one after the other.
pub duplicated : ℕ → List Bytes → List Bytes
duplicated copies [] = []
duplicated copies (frame ∷ rest) = replicate copies frame ++ duplicated copies rest

-- Padded with spaces up to the size.
abbrev pub oversized : ℤ → Bytes → Bytes
oversized size frame = frame ++ replicate (pos_part size - length frame) 32

-- bytes.ReplaceAll, for a pattern that is not empty: `skip` bytes belong to the last match.
replace_from : ℕ → Bytes → Bytes → Bytes → Bytes
unfolding is_prefix
replace_from skip pattern replacement [] = []
replace_from skip pattern replacement (b ∷ rest) =
    let skipped = replace_from (skip - 1) pattern replacement rest in
    let after_match = replace_from (length pattern - 1) pattern replacement rest in
    let unmatched = replace_from 0 pattern replacement rest in
    if ltb 0 skip
    then skipped
    else if is_prefix pattern (b ∷ rest)
    then replacement ++ after_match
    else b ∷ unmatched

-- The second loop of `Apply`: `interrupted` gives the error of the context when it ends a wait.
unfoldable pub run_faults :
    (Fault → Option GoError)
    → Assoc Bytes (List Bytes)
    → Bytes
    → List Bytes
    → List Fault
    → Assoc Bytes (List Bytes) × Outcome GoError (List Bytes)
unfolding duplicated replace_from
run_faults interrupted pending point frames [] = (pending, ok frames)
run_faults interrupted pending point frames (f ∷ rest) =
    let same = run_faults interrupted pending point frames rest in
    let none_left = run_faults interrupted pending point [] rest in
    let kept =
      run_faults interrupted (insert point (held point pending ++ frames) pending) point [] rest in
    let copied =
      run_faults interrupted pending point (duplicated (pos_part f.copies) frames) rest in
    let grown = run_faults interrupted pending point (map (oversized f.size) frames) rest in
    let cleaned =
      run_faults interrupted pending point (map (replace_from 0 f.pattern f.replacement) frames)
        rest in
    elim f.action [
      | delay ↦ (elim (interrupted f) [ some e ↦ (pending, err e) | none ↦ same ])
      | backpressure ↦ (elim (interrupted f) [ some e ↦ (pending, err e) | none ↦ same ])
      | duplicate ↦
          if ltb_ℤ f.copies (pos 2)
            || ltb_ℤ (pos 16) f.copies
            || ltb (max_fault_output_frames / pos_part f.copies) (length frames)
          then (pending, err (plain "mock duplicate output exceeds frame limit"))
          else copied
      | out_of_order ↦ kept
      | replay_gap ↦ none_left
      | oversize ↦ grown
      | redact ↦ cleaned
      | disconnect ↦ (pending, err disconnected)
      | crash ↦ (pending, err crashed)
      | unlisted name ↦ same
    ]

-- Apply, of a plan that is not nil and with a context.
unfoldable pub apply :
    (Fault → Option GoError) → Faults → Bytes → Bytes → Faults × Outcome GoError (List Bytes)
unfolding select_faults run_faults
apply interrupted f point payload =
    let (steps, now) = select_faults point payload f.steps in
    let (pending, answer) =
      run_faults interrupted (remove point f.pending) point (payload ∷ held point f.pending) now in
    (record { steps = steps; pending = pending }, answer)

-- Flush
unfoldable pub flush : Faults → Bytes → Faults × List Bytes
flush f point = (record f { pending = remove point f.pending }, held point f.pending)

unused : List FaultStep → ℕ
unused [] = 0
unused (s ∷ rest) = if s.used then unused rest else suc (unused rest)

-- Remaining
unfoldable pub remaining : Faults → ℕ
unfolding unused
remaining f = unused f.steps
