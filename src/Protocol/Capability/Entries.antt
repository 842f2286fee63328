-- ===== src/Protocol/Capability/Entries.antt =====
-- What every lookup in the catalog gives.
use mission_control_edge.Common.{
  ◌≡◌, refl, subst, is_ok-eq-ok, Bool, true, false, ◌&&◌, not, some, List, [], ◌∷◌, arith, all_of,
  is_ok, ◌==◌, bytes_eq, bytes_beq_iff, Bytes, ok, Bool-cases, inl, inr, and-eq-true,
}
use mission_control_edge.Protocol.Identity.{validate_role}
use mission_control_edge.Protocol.Capability.{
  CapabilityDescriptor, find_capability, extension_capability_pattern,
}
use mission_control_edge.Protocol.Capability.Catalog.{
  capability_catalog, capability, valid_capability_name, validate_descriptor, valid_delivery_class,
}

-- What is found is an entry of the list, of the name that was asked for.
found_entry :
    (p : CapabilityDescriptor → Bool) (l : List CapabilityDescriptor) (name : Bytes)
    (d : CapabilityDescriptor)
    → all_of p l ≡ true
    → find_capability l name ≡ some d
    → (d.name ≡ name) × (p d ≡ true)
unfolding find_capability
found_entry p [] name d h e = cc
found_entry p (known ∷ rest) name d h e = elim (Bool-cases (known.name == name)) [
  | inl same ↦ ground (arith, bytes_beq_iff known.name name)
  | inr other ↦ found_entry p rest name d (and-eq-true (p known) (all_of p rest) h).1 (ground arith)
]

sound_entry : CapabilityDescriptor → Bool
sound_entry d = is_ok (validate_descriptor d) && not (extension_capability_pattern d.name)

catalog_sound : all_of sound_entry capability_catalog ≡ true
unfolding sound_entry validate_descriptor valid_capability_name valid_delivery_class
    extension_capability_pattern capability validate_role
catalog_sound = refl

-- A capability that the lookup finds has the name asked for, is a valid descriptor, and its name
-- cannot be the name of an extension.
pub capability-Valid :
    (name : Bytes) {d : CapabilityDescriptor}
    → capability name ≡ some d
    → (d.name ≡ name)
      × (validate_descriptor d ≡ ok tt)
      × (extension_capability_pattern name ≡ false)
unfolding capability sound_entry
capability-Valid name {d = d} h =
    let (named, sound) = found_entry sound_entry capability_catalog name d catalog_sound h in
    let (valid, other) = and-eq-true (is_ok (validate_descriptor d)) _ sound in
    (
      named,
      is_ok-eq-ok (validate_descriptor d) valid,
      subst (λ n. extension_capability_pattern n ≡ false) named (ground arith),
    )
