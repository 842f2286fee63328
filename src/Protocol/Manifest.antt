-- ===== src/Protocol/Manifest.antt =====
-- protocol/manifest.go: what a provider is and can do, and its answer to the gateway's offer; with
-- lines 439 to 474 of protocol/validate.go, the platform of protocol/identity.go, and lines 30 to
-- 35 and 190 to 192 of protocol/capability.go. Maps are lists in the order of one iteration.
pub mod Negotiation
pub mod Samples
pub mod Compatible
use Prim.Native.String.{String}
use mission_control_edge.Common.{
  ◌≡◌, refl, ℕ, suc, ◌+◌, ◌*◌, ◌^◌, Bool, true, false, ◌&&◌, ◌||◌, not, Option, none, some, List,
  [], ◌∷◌, ltb, leb, eqb, if◌then◌else◌, length, all_of, any_of, is_empty, Comparable, ◌==◌,
  bytes_eq, Bytes, bytes, Outcome, ok, err, Check, ◌>>=◌, ◌>>◌, reject_if, if_present, arith,
  bytes_beq, bytes_beq_iff, ◌↔◌,
}
use mission_control_edge.Protocol.Error.{GoError, plain}
use mission_control_edge.Protocol.Text.{
  is_lower, is_digit, is_joint, is_alphanumeric, validate_id, validate_token, validate_text,
}
use mission_control_edge.Protocol.Identity.{validate_role, role_provider}
use mission_control_edge.Protocol.Signed.{
  validate_protocol, validate_version, validate_unique_strings,
}
use mission_control_edge.Protocol.Capability.{CapabilityDescriptor, namespace_from, label_end}
use mission_control_edge.Protocol.Capability.Catalog.{
  capability, valid_capability_name, validate_descriptor,
}
use mission_control_edge.Protocol.Content.{JsonLibrary, reject_reserved_extensions}
use mission_control_edge.Protocol.Distinct.{holds, distinct_from}
use mission_control_edge.Protocol.Terminal.{max_message_bytes, max_terminal_chunk_bytes}

pub record Platform : Type 0 where
  pub os : Bytes
  pub architecture : Bytes

-- The method `Validate` of `Platform`.
unfoldable pub validate_platform : Platform → Check GoError
validate_platform p = do validate_token p.os; validate_token p.architecture

abbrev pub platform_equal : Platform → Platform → Bool
platform_equal p q = p.os == q.os && p.architecture == q.architecture

pub platform_equal_iff : (p q : Platform) → (platform_equal p q ≡ true) ↔ (p ≡ q)
platform_equal_iff p q =
    ground (arith, bytes_beq_iff p.os q.os, bytes_beq_iff p.architecture q.architecture)

instance abbrev pub platform_eq : Comparable Platform
platform_eq = record { equal = platform_equal; equal_iff = platform_equal_iff }

-- The method `validateConcern` of `ProviderRole`.
unfoldable pub validate_concern : Bytes → Check GoError
validate_concern role = do
  reject_if (role == role_provider)
      (plain "provider is a neutral capability role, not a provider concern")
  validate_role role

-- validateExecutable
unfoldable pub validate_executable : Bytes → Check GoError
validate_executable value = do
  validate_text 256 value
  reject_if
      (any_of (λ b. eqb b b'/' || eqb b 92) value || (value == bytes ".") || (value == bytes ".."))
      (plain "executable must be a name, not a path")

-- strings.Contains(value, "..")
unfoldable pub has_dots : Bytes → Bool
has_dots [] = false
has_dots (a ∷ []) = false
has_dots (a ∷ b ∷ rest) = eqb a b'.' && eqb b b'.' || has_dots (b ∷ rest)

-- localSchemaRefPattern
abbrev pub local_schema_ref_pattern : Bytes → Bool
local_schema_ref_pattern [] = false
local_schema_ref_pattern (b ∷ bs) =
    is_alphanumeric b && all_of (λ c. is_alphanumeric c || is_joint c || eqb c b'/') bs

-- validateLocalSchemaRef
unfoldable pub validate_local_schema_ref : Bytes → Check GoError
unfolding has_dots
validate_local_schema_ref value =
    reject_if (ltb 512 (length value) || not (local_schema_ref_pattern value) || has_dots value)
      (plain "configuration_schema is invalid")

-- `[a-z][a-z0-9._-]{0,63}`
extension_name : Bytes → Bool
extension_name [] = false
extension_name (b ∷ bs) =
    is_lower b && all_of (λ c. label_end c || is_joint c) bs && leb (length bs) 63

-- extensionPattern
unfoldable pub extension_pattern : Bytes → Bool
unfolding namespace_from extension_name
extension_pattern value = elim (namespace_from 0 false 0 value) [
  | none ↦ false
  | some rest ↦ extension_name rest
]

-- The loop of `validateExtensions`: the sum of the sizes.
unfoldable pub extensions_size : JsonLibrary → ℕ → List (Bytes × Bytes) → Outcome GoError ℕ
extensions_size library total [] = ok total
extensions_size library total ((key, value) ∷ rest) = do
  reject_if (not (extension_pattern key)) (plain "extension key is invalid")
  reject_if (not (library.valid value)) (plain "extension value is invalid JSON")
  extensions_size library (total + (length key + length value)) rest

-- validateExtensions
unfoldable pub validate_extensions : JsonLibrary → List (Bytes × Bytes) → Check GoError
unfolding extensions_size
validate_extensions library values = do
  reject_if (ltb 64 (length values)) (plain "too many extensions")
  total ← extensions_size library 0 values
  reject_if (ltb (256 * 2 ^ 10) total) (plain "extensions exceed size limit")

-- validateTokenSet
unfoldable pub validate_token_set : ℕ → List Bytes → Check GoError
validate_token_set maximum values = do
  reject_if (ltb maximum (length values)) (plain "list contains too many values")
  distinct_from (λ v. v) validate_token "list contains a duplicate" [] values

-- equalCapabilityDefinition
unfoldable pub equal_capability_definition : CapabilityDescriptor → CapabilityDescriptor → Bool
equal_capability_definition a b =
    (a.name == b.name)
    && (a.role == b.role)
    && (if a.mutating then b.mutating else not b.mutating)
    && (a.delivery_class == b.delivery_class)

-- The tests of one capability, against the roles of the provider and the catalog.
unfoldable pub validate_provided : List Bytes → CapabilityDescriptor → Check GoError
validate_provided roles c = do
  validate_descriptor c
  reject_if (not (c.role == role_provider) && not (holds roles c.role))
      (plain "capability role is not one of the provider roles")
  if_present (capability c.name) λ known.
      reject_if (not (equal_capability_definition c known))
        (plain "known capability metadata does not match the protocol definition")

-- The roles and the capabilities, which a manifest and an answer about capabilities both hold.
unfoldable pub validate_roles : List Bytes → Check GoError
validate_roles roles = do
  reject_if (is_empty roles || ltb 4 (length roles)) (plain "provider roles are required")
  distinct_from (λ r. r) validate_concern "provider role is duplicated" [] roles

unfoldable pub validate_manifest_capabilities :
    String → List Bytes → List CapabilityDescriptor → Check GoError
validate_manifest_capabilities required roles capabilities = do
  reject_if (is_empty capabilities || ltb 256 (length capabilities)) (plain required)
  distinct_from (λ (c : CapabilityDescriptor). c.name) (validate_provided roles)
      "capability is duplicated" [] capabilities

pub record ProviderManifest : Type 0 where
  pub version_of_protocol : Bytes
  pub id : Bytes
  pub roles : List Bytes
  pub name : Bytes
  pub version : Bytes
  pub executable : Bytes
  pub platforms : List Platform
  pub capabilities : List CapabilityDescriptor
  pub interaction_modes : List Bytes
  pub permissions : List Bytes
  pub configuration_schema : Bytes
  pub extensions : List (Bytes × Bytes)

-- The method `Validate` of `ProviderManifest`.
unfoldable pub validate_manifest : JsonLibrary → ProviderManifest → Check GoError
unfolding validate_roles validate_manifest_capabilities
validate_manifest library m = do
  validate_protocol m.version_of_protocol
  validate_id m.id
  validate_roles m.roles
  validate_text 256 m.name
  validate_version m.version
  validate_executable m.executable
  reject_if (is_empty m.platforms || ltb 32 (length m.platforms)) (plain "platforms are required")
  distinct_from (λ p. p) validate_platform "platform is duplicated" [] m.platforms
  validate_manifest_capabilities "capabilities are required" m.roles m.capabilities
  reject_if (is_empty m.interaction_modes || ltb 32 (length m.interaction_modes))
      (plain "interaction modes are required")
  validate_token_set 32 m.interaction_modes
  reject_if (ltb 64 (length m.permissions)) (plain "too many permissions")
  validate_token_set 64 m.permissions
  validate_local_schema_ref m.configuration_schema
  reject_reserved_extensions library m.extensions
  validate_extensions library m.extensions

-- The method `Capability` of `ProviderManifest`: `none` for the answer with `false`.
unfoldable pub find_provided : List CapabilityDescriptor → Bytes → Option CapabilityDescriptor
find_provided [] name = none
find_provided (c ∷ rest) name =
    let found = find_provided rest name in if c.name == name then some c else found

-- The method `Supports` of `ProviderManifest`.
unfoldable pub supports : ProviderManifest → Bytes → Bool
supports m name = any_of (λ (c : CapabilityDescriptor). c.name == name) m.capabilities
