-- ===== src/Protocol/Content/Authority.antt =====
-- protocol/validate.go, lines 253 to 317: the authority that a document of a provider may not claim.
use mission_control_edge.Common.{
  ◌≡◌, Bool, true, false, ◌||◌, none, some, List, [], ◌∷◌, if◌then◌else◌, arith, ◌==◌, bytes_eq,
  Bytes, bytes, All, ok, Check, ◌>>◌, reject_if, check-bind-ok, reject_if-bind-ok, or_else,
  or_else-eq-ok, present, if_present, IfPresent, present-eq-ok, if_present-ok, bind-eq-ok, ◌>>=◌,
}
use mission_control_edge.Common.Assoc.{lookup}
use mission_control_edge.Protocol.Error.{
  GoError, protocol_error, invalid_argument, permission_denied,
}
use mission_control_edge.Protocol.Content.{
  Json, JsonLibrary, is_in, provider_canonical_authority_keys, provider_review_authority_keys,
  reject_reserved_content, reject_reserved_extensions, reject_duplicate_keys,
}
use mission_control_edge.Protocol.Content.Reserved.{clean, search_reserved-clean}

-- The type of `dst`, as far as the code tells the types apart.
pub data Destination : Type 0 where
  provider_manifest provider_event provider_artifact_report canonical_event : Destination
  any_other : Destination

-- Some key of the list is a key of the object.
unfoldable pub claims : List Bytes → List (Bytes × Bytes) → Bool
claims keys [] = false
claims keys ((key, value) ∷ rest) = is_in keys key || claims keys rest

-- The keys that the payload of an event may have in its root.
unfoldable pub allowed_payload_keys : JsonLibrary → List (Bytes × Bytes) → List Bytes
allowed_payload_keys library object = elim (lookup (bytes "type") object) [
  | none ↦ []
  | some raw ↦ elim (library.string raw) [
    | none ↦ []
    | some event_type ↦
        if event_type == bytes "session.state_changed" then bytes "authority" ∷ [] else []
  ]
]

unfoldable pub check_review : Destination → List (Bytes × Bytes) → Check GoError
unfolding claims
check_review provider_artifact_report object =
    reject_if (claims provider_review_authority_keys object) (protocol_error permission_denied)
check_review _ object = ok tt

unfoldable pub check_payload : JsonLibrary → Destination → List (Bytes × Bytes) → Check GoError
check_payload library provider_event object =
    if_present (lookup (bytes "payload") object)
      λ payload. reject_reserved_content library payload (allowed_payload_keys library object)
check_payload library _ object = ok tt

unfoldable pub check_extensions : JsonLibrary → List (Bytes × Bytes) → Check GoError
check_extensions library object = if_present (lookup (bytes "extensions") object) λ raw. do
  extensions ← present (library.fields raw) (protocol_error invalid_argument)
  reject_reserved_extensions library extensions

-- rejectReservedProviderObject
unfoldable pub reject_reserved_provider_object : JsonLibrary → Bytes → Destination → Check GoError
reject_reserved_provider_object library content destination = do
  object ← present (library.fields content) (protocol_error invalid_argument)
  reject_if (claims provider_canonical_authority_keys object) (protocol_error permission_denied)
  check_review destination object
  check_payload library destination object
  check_extensions library object

-- rejectReservedAuthorityFields
unfoldable pub reject_reserved_authority_fields : JsonLibrary → Bytes → Destination → Check GoError
unfolding reject_reserved_provider_object
reject_reserved_authority_fields library content provider_manifest =
    reject_reserved_provider_object library content provider_manifest
reject_reserved_authority_fields library content provider_event =
    reject_reserved_provider_object library content provider_event
reject_reserved_authority_fields library content provider_artifact_report =
    reject_reserved_provider_object library content provider_artifact_report
reject_reserved_authority_fields library content canonical_event = do
  object ← present (library.fields content) (protocol_error invalid_argument)
  if_present (lookup (bytes "provider_event") object)
      λ nested. reject_reserved_provider_object library nested provider_event
reject_reserved_authority_fields library content any_other = ok tt

-- A text that is one document without repeated or reserved keys.
pub CleanContent : JsonLibrary → List Bytes → Bytes → Type 0
CleanContent library allowed content =
    (reject_duplicate_keys library content ≡ ok tt)
    × ((value : Json) × (library.decode content ≡ some value) × (clean allowed true value ≡ true))

pub reject_reserved_content-Clean :
    (library : JsonLibrary) (content : Bytes) (allowed : List Bytes)
    → reject_reserved_content library content allowed ≡ ok tt
    → CleanContent library allowed content
unfolding reject_reserved_content CleanContent
reject_reserved_content-Clean library content allowed h =
    let (single, rest) =
      check-bind-ok
        (or_else (reject_duplicate_keys library content) (protocol_error invalid_argument)) _ h in
    let (value, decoded, found) =
      bind-eq-ok (present (library.decode content) (protocol_error invalid_argument)) _ rest in
    (
      or_else-eq-ok (reject_duplicate_keys library content) _ single,
      (
        value,
        present-eq-ok (library.decode content) _ decoded,
        ground (arith, search_reserved-clean allowed value),
      ),
    )

pub reject_reserved_extensions-Clean :
    (library : JsonLibrary) (extensions : List (Bytes × Bytes))
    → reject_reserved_extensions library extensions ≡ ok tt
    → All (λ e. CleanContent library [] e.1) extensions
unfolding reject_reserved_extensions
reject_reserved_extensions-Clean library [] h = tt
reject_reserved_extensions-Clean library ((key, value) ∷ rest) h =
    let (first, others) = check-bind-ok (reject_reserved_content library value []) _ h in
    (
      reject_reserved_content-Clean library value [] first,
      reject_reserved_extensions-Clean library rest others,
    )

-- The text of a set of extensions that are clean.
pub CleanExtensions : JsonLibrary → Bytes → Type 0
CleanExtensions library raw =
    (extensions : List (Bytes × Bytes)) × (library.fields raw ≡ some extensions)
    × All (λ e. CleanContent library [] e.1) extensions

-- What an event of a provider that is let through has not claimed.
pub Unclaimed : JsonLibrary → List (Bytes × Bytes) → Type 0
Unclaimed library object =
    (claims provider_canonical_authority_keys object ≡ false)
    × IfPresent (lookup (bytes "payload") object)
        (CleanContent library (allowed_payload_keys library object))
    × IfPresent (lookup (bytes "extensions") object) (CleanExtensions library)

check_extensions-Clean :
    (library : JsonLibrary) (raw : Bytes)
    → (present (library.fields raw) (protocol_error invalid_argument)
        >>= reject_reserved_extensions library)
      ≡ ok tt
    → CleanExtensions library raw
unfolding CleanExtensions
check_extensions-Clean library raw h =
    let (extensions, found, each) =
      bind-eq-ok (present (library.fields raw) (protocol_error invalid_argument)) _ h in
    (
      extensions,
      present-eq-ok (library.fields raw) _ found,
      reject_reserved_extensions-Clean library extensions each,
    )

-- An event of a provider that is let through is an object that claims no canonical authority: not
-- in its keys, not at any depth of its payload (but for the key `authority` in the root of the
-- payload of a change of state) and not at any depth of an extension; payload and extensions have
-- no repeated key.
pub reject_reserved_authority_fields-Unclaimed :
    (library : JsonLibrary) (content : Bytes)
    → reject_reserved_authority_fields library content provider_event ≡ ok tt
    → (object : List (Bytes × Bytes)) × (library.fields content ≡ some object)
      × Unclaimed library object
unfolding reject_reserved_authority_fields reject_reserved_provider_object check_review
    check_payload check_extensions Unclaimed
reject_reserved_authority_fields-Unclaimed library content h =
    let (object, found, rest) =
      bind-eq-ok (present (library.fields content) (protocol_error invalid_argument)) _ h in
    let (canonical, rest) =
      reject_if-bind-ok (claims provider_canonical_authority_keys object) _ _ rest in
    let (payload, extensions) =
      check-bind-ok (check_payload library provider_event object) _ rest in
    (
      object,
      present-eq-ok (library.fields content) _ found,
      (
        canonical,
        if_present-ok (lookup (bytes "payload") object) _
            (λ content. reject_reserved_content-Clean library content _) payload,
        if_present-ok (lookup (bytes "extensions") object) _ (check_extensions-Clean library)
            extensions,
      ),
    )
