-- ===== src/Protocol/Capability.antt =====
-- protocol/capability.go: capability names, their descriptors, and the lookup in the catalog.
pub mod Catalog
pub mod Entries
mod Samples
use Prim.Native.String.{String}
use mission_control_edge.Common.{
  ℕ, suc, Bool, true, false, ◌&&◌, ◌||◌, not, Option, none, some, List, [], ◌∷◌, ltb, leb, eqb,
  if◌then◌else◌, length, all_of, is_empty, ◌==◌, bytes_eq, Bytes, bytes, Outcome, ok, err, Check,
  ◌>>=◌, ◌>>◌, reject_if,
}
use mission_control_edge.Protocol.Error.{GoError, plain}
use mission_control_edge.Protocol.Text.{is_lower, is_digit, is_joint}
use mission_control_edge.Protocol.Identity.{validate_role, role_provider}

-- The constants of `DeliveryClass`, a Go string.
abbrev pub provider_idempotent : Bytes
provider_idempotent = bytes "provider_idempotent"

abbrev pub state_reconciled : Bytes
state_reconciled = bytes "state_reconciled"

abbrev pub at_most_once : Bytes
at_most_once = bytes "at_most_once"

pub record CapabilityDescriptor : Type 0 where
  pub name : Bytes
  pub role : Bytes
  pub mutating : Bool
  pub delivery_class : Bytes
  pub required : Bool

-- The two forms of the entries of the catalog.
abbrev pub observes : String → Bytes → CapabilityDescriptor
observes name role = record {
  name = bytes name;
  role = role;
  mutating = false;
  delivery_class = [];
  required = false;
}

abbrev pub changes : String → Bytes → Bytes → CapabilityDescriptor
changes name role class = record {
  name = bytes name;
  role = role;
  mutating = true;
  delivery_class = class;
  required = false;
}

-- `[a-z0-9]`
abbrev pub label_end : ℕ → Bool
label_end b = is_lower b || is_digit b

-- The rest of a label `[a-z0-9](?:[a-z0-9-]{0,61}[a-z0-9])?` and what follows it, up to the slash:
-- the number of bytes of the label so far, whether its last byte may end it, and the labels closed.
unfoldable pub namespace_from : ℕ → Bool → ℕ → Bytes → Option Bytes
namespace_from n ends labels [] = none
namespace_from n ends labels (b ∷ bs) =
    let inside = namespace_from (suc n) (label_end b) labels bs in
    let next = namespace_from 0 false (suc labels) bs in
    if eqb b b'/'
    then (if ends && leb n 63 && leb 1 labels then some bs else none)
    else if eqb b b'.'
    then (if ends && leb n 63 then next else none)
    else if label_end b || (eqb b b'-' && leb 1 n)
    then inside
    else none

-- `[a-z][a-z0-9._-]{0,127}`
method_name : Bytes → Bool
method_name [] = false
method_name (b ∷ bs) =
    is_lower b && all_of (λ c. label_end c || is_joint c) bs && leb (length bs) 127

-- extensionCapabilityPattern
pub extension_capability_pattern : Bytes → Bool
unfolding namespace_from method_name
extension_capability_pattern value = elim (namespace_from 0 false 0 value) [
  | none ↦ false
  | some rest ↦ method_name rest
]

-- The loop of `Capability` over the catalog.
find_capability : List CapabilityDescriptor → Bytes → Option CapabilityDescriptor
find_capability [] name = none
find_capability (known ∷ rest) name =
    let found = find_capability rest name in if known.name == name then some known else found
