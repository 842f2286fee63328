-- ===== src/Protocol/Signed.antt =====
-- Values inside signed statements: protocol/custody.go lines 228 to 238 and 307 to 336, the artifact
-- identity of protocol/identity.go, and lines 400 to 426 and 483 to 507 of protocol/validate.go.
use mission_control_edge.Common.{
  ℕ, Bool, true, false, ◌&&◌, ◌||◌, not, List, [], ◌∷◌, ltb, eqb, length, all_of, any_of, is_empty,
  ◌==◌, bytes_eq, Bytes, bytes, ok, Check, ◌>>◌, reject_if,
}
use mission_control_edge.Protocol.Error.{GoError, plain}
use mission_control_edge.Protocol.Text.{between, is_alphanumeric, validate_id, has_breaks}
use mission_control_edge.Protocol.Identity.{validate_digest}

abbrev pub protocol_version : Bytes
protocol_version = bytes "mission-control.provider.v1alpha1"

unfoldable pub validate_protocol : Bytes → Check GoError
validate_protocol version =
    reject_if (not (version == protocol_version)) (plain "protocol_version must be current")

-- A white space of Unicode in UTF-8 at the start; `strings.TrimSpace` cuts these.
starts_with_space : Bytes → Bool
starts_with_space [] = false
starts_with_space (a ∷ []) = between 9 13 a || eqb a 32
starts_with_space (a ∷ b ∷ []) =
    between 9 13 a || eqb a 32 || (eqb a 0xc2 && (eqb b 0x85 || eqb b 0xa0))
starts_with_space (a ∷ b ∷ c ∷ rest) =
    between 9 13 a
    || eqb a 32
    || (eqb a 0xc2 && (eqb b 0x85 || eqb b 0xa0))
    || (eqb a 0xe1 && eqb b 0x9a && eqb c 0x80)
    || (eqb a 0xe2 && eqb b 0x80 && (between 0x80 0x8a c || eqb c 0xa8 || eqb c 0xa9 || eqb c 0xaf))
    || (eqb a 0xe2 && eqb b 0x81 && eqb c 0x9f)
    || (eqb a 0xe3 && eqb b 0x80 && eqb c 0x80)

-- The same at the end.
ends_with_space : Bytes → Bool
unfolding starts_with_space
ends_with_space [] = false
ends_with_space (a ∷ []) = starts_with_space (a ∷ [])
ends_with_space (a ∷ b ∷ []) =
    starts_with_space (a ∷ b ∷ []) && eqb a 0xc2 || starts_with_space (b ∷ [])
ends_with_space (a ∷ b ∷ c ∷ []) =
    (starts_with_space (a ∷ b ∷ c ∷ []) && between 0xe1 0xe3 a)
    || (starts_with_space (b ∷ c ∷ []) && eqb b 0xc2)
    || starts_with_space (c ∷ [])
ends_with_space (a ∷ rest) = ends_with_space rest

-- validateVersion
unfoldable pub validate_version : Bytes → Check GoError
unfolding starts_with_space ends_with_space
validate_version value =
    reject_if
      (is_empty value
        || ltb 128 (length value)
        || starts_with_space value
        || ends_with_space value
        || any_of (λ b. eqb b 0 || eqb b 13 || eqb b 10 || eqb b 9 || eqb b 32) value)
      (plain "version is invalid")

pub record ArtifactIdentity : Type 0 where
  pub id : Bytes
  pub version : Bytes
  pub digest : Bytes

-- The method `Validate` of `ArtifactIdentity`.
unfoldable pub validate_artifact : ArtifactIdentity → Check GoError
validate_artifact a = do validate_id a.id; validate_version a.version; validate_digest a.digest

-- `.`, `_`, `-`, `:`, `/`, `@`, `+`, `=` and `~`
abbrev pub is_safe_sign : ℕ → Bool
is_safe_sign b =
    eqb b b'.'
    || eqb b b'_'
    || eqb b b'-'
    || eqb b b':'
    || eqb b b'/'
    || eqb b b'@'
    || eqb b b'+'
    || eqb b b'='
    || eqb b b'~'

-- validateSafeASCII
unfoldable pub validate_safe_ascii : ℕ → ℕ → Bytes → Check GoError
validate_safe_ascii minimum maximum value = do
  reject_if (ltb (length value) minimum || ltb maximum (length value)) (plain "value is invalid")
  reject_if (not (all_of (λ b. is_alphanumeric b || is_safe_sign b) value))
      (plain "value is invalid")

-- validateSignedArtifact
unfoldable pub validate_signed_artifact : ArtifactIdentity → Check GoError
unfolding validate_artifact validate_safe_ascii
validate_signed_artifact a = do
  validate_artifact a
  validate_safe_ascii 1 128 a.id
  validate_safe_ascii 1 128 a.version
  validate_safe_ascii 71 71 a.digest

-- validateNonce
unfoldable pub validate_nonce : Bytes → Check GoError
validate_nonce value = do
  reject_if (ltb (length value) 22 || ltb 256 (length value)) (plain "nonce is invalid")
  reject_if (not (all_of (λ b. is_alphanumeric b || eqb b b'_' || eqb b b'-') value))
      (plain "nonce is invalid")

-- The loop of `validateUniqueStrings`, with the values seen so far.
unique_from : List Bytes → List Bytes → Check GoError
unique_from seen [] = ok tt
unique_from seen (value ∷ rest) = do
  reject_if (is_empty value || has_breaks value) (plain "list contains an invalid value")
  reject_if (any_of (λ s. s == value) seen) (plain "list contains a duplicate")
  unique_from (value ∷ seen) rest

-- validateUniqueStrings
unfoldable pub validate_unique_strings : List Bytes → Check GoError
unfolding unique_from
validate_unique_strings values = unique_from [] values

-- equalStrings
unfoldable pub equal_strings : List Bytes → List Bytes → Bool
equal_strings [] [] = true
equal_strings (x ∷ xs) (y ∷ ys) = x == y && equal_strings xs ys
equal_strings _ _ = false
