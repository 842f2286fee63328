-- ===== src/Mock/Faults/Samples.antt =====
-- A script that holds the first frame back and doubles the third.
use mathlib.Core.List.{Perm}
use mission_control_edge.Common.{
  ◌++◌, ℕ, ◌+◌, ◌≡◌, refl, false, Option, none, List, [], ◌∷◌, Bytes, bytes, bytes_eq, ok, length,
}
use mission_control_edge.Common.Int.{pos}
use mission_control_edge.Common.Assoc.{lookup, insert, remove}
use mission_control_edge.Common.Multiset.{count}
use mission_control_edge.Protocol.Error.{GoError}
use mission_control_edge.Mock.Faults.{
  validate_fault, Fault, FaultAction, Faults, out_of_order, duplicate, gateway_to_provider,
  new_faults, apply, flush, remaining, select_faults,
}
use mission_control_edge.Mock.Faults.Conservation.{apply-count}
use mission_control_edge.Mock.Faults.Script.{apply_all, apply_all-new_faults, unused_faults}

abbrev fault : ℕ → FaultAction → Fault
fault occurrence action = record {
  point = gateway_to_provider;
  occurrence = occurrence;
  action = action;
  contains = [];
  delay_time = pos 0;
  copies = pos 2;
  size = pos 0;
  pattern = [];
  replacement = [];
  gated = false;
}

abbrev script : List Fault
script = fault 1 out_of_order ∷ fault 3 duplicate ∷ []

abbrev uninterrupted : Fault → Option GoError
uninterrupted f = none

abbrev start : Faults
start = record {
  steps =
      record { fault = fault 1 out_of_order; seen = 0; used = false }
      ∷ record { fault = fault 3 duplicate; seen = 0; used = false }
      ∷ [];
  pending = [];
}

accepted : new_faults script ≡ ok start
unfolding new_faults validate_fault
accepted = refl

abbrev after_first : Faults
after_first = (apply uninterrupted start gateway_to_provider (bytes "a")).0

abbrev after_second : Faults
after_second = (apply uninterrupted after_first gateway_to_provider (bytes "b")).0

-- The first frame comes after the second; the third comes twice.
outputs :
    ((apply uninterrupted start gateway_to_provider (bytes "a")).1 ≡ ok [])
    × ((apply uninterrupted after_first gateway_to_provider (bytes "b")).1
        ≡ ok (bytes "b" ∷ bytes "a" ∷ []))
    × ((apply uninterrupted after_second gateway_to_provider (bytes "c")).1
        ≡ ok (bytes "c" ∷ bytes "c" ∷ []))
unfolding apply lookup insert remove
outputs = (refl, refl, refl)

apply-count_example :
    count (bytes "a") [] + count (bytes "a") (flush after_first gateway_to_provider).1
    ≡ count (bytes "a") (bytes "a" ∷ (flush start gateway_to_provider).1)
unfolding select_faults
apply-count_example =
    apply-count uninterrupted gateway_to_provider start (bytes "a") (bytes "a") (refl, tt) outputs.0

abbrev three_frames : List (Bytes × Bytes)
three_frames =
    (gateway_to_provider, bytes "a")
    ∷ (gateway_to_provider, bytes "b")
    ∷ (gateway_to_provider, bytes "c")
    ∷ []

apply_all-new_faults_example :
    Perm
      ((apply_all uninterrupted start three_frames).1
        ++ unused_faults (apply_all uninterrupted start three_frames).0.steps)
      script
    × (remaining (apply_all uninterrupted start three_frames).0
        ≡ length (unused_faults (apply_all uninterrupted start three_frames).0.steps))
apply_all-new_faults_example = apply_all-new_faults uninterrupted script three_frames accepted
