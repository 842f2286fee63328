-- ===== src/Protocol/Error/Validity.antt =====
-- protocol/error.go, the methods `Validate`: an error's message is the one of its code.
use text.Mathlib.Text.{◌==◌ as ◌same◌}
use mission_control_edge.Common.{
  Bool, true, false, ◌||◌, not, none, some, List, [], ◌∷◌, ltb, length, any_of, is_empty, bytes_eq,
  Bytes, ok, err, Check, if◌then◌else◌, ◌>>◌, reject_if, ◌==◌,
}
use mission_control_edge.Protocol.Error.{
  ErrorCode, Error, GoError, plain, canonical_message, not_supported,
}
use mission_control_edge.Protocol.Capability.Catalog.{valid_capability_name}

is_not_supported : ErrorCode → Bool
is_not_supported not_supported = true
is_not_supported _ = false

-- The method `Validate` of `ErrorCode`.
pub validate_code : ErrorCode → Check GoError
unfolding canonical_message
validate_code c = elim (canonical_message c) [
  | none ↦ err (plain "protocol error code is unsupported")
  | some m ↦ ok tt
]

-- The test of the message, where the map has no entry for the code: Go's zero value "".
is_canonical : Error → Bool
unfolding canonical_message
is_canonical e = elim (canonical_message e.code) [
  | none ↦ e.message same ""
  | some m ↦ e.message same m
]

-- The loop over the advertised capabilities, with the names seen so far.
validate_advertised : List Bytes → List Bytes → Check GoError
validate_advertised seen [] = ok tt
validate_advertised seen (name ∷ rest) = do
  reject_if (not (valid_capability_name name)) (plain "advertised capability is invalid")
  reject_if (any_of (λ s. s == name) seen) (plain "advertised capability is duplicated")
  validate_advertised (name ∷ seen) rest

-- The checks on the capabilities.
validate_capabilities : Error → Check GoError
unfolding is_not_supported validate_advertised
validate_capabilities e =
    if not (is_not_supported e.code)
    then reject_if
        (not (is_empty e.required_capability) || not (is_empty e.advertised_capabilities))
        (plain "capability details are valid only for not_supported")
    else (do
      reject_if (not (valid_capability_name e.required_capability))
          (plain "required capability is invalid")
      reject_if (ltb 256 (length e.advertised_capabilities))
          (plain "too many advertised capabilities")
      validate_advertised [] e.advertised_capabilities)

-- The method `Validate` of `Error`.
unfoldable pub validate_error : Error → Check GoError
unfolding validate_code is_canonical validate_capabilities
validate_error e = do
  validate_code e.code
  reject_if (not (is_canonical e)) (plain "protocol error message is not canonical")
  validate_capabilities e
