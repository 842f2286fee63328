-- ===== src/Protocol/Content/Samples.antt =====
-- Documents with keys that are reserved or repeated.
use mission_control_edge.Common.{
  ◌≡◌, refl, some, true, List, [], ◌∷◌, Bytes, bytes, ok, err, if◌then◌else◌, ◌==◌, bytes_eq,
}
use mission_control_edge.Common.Assoc.{lookup}
use mission_control_edge.Protocol.Error.{plain, protocol_error, permission_denied}
use mission_control_edge.Protocol.Content.{
  Json, null, boolean, number, text, array, object, no_items, item, no_members, member, JsonLibrary,
  consume_value, reject_duplicate_keys, walk, push_members, push_items, push_value, size, is_in,
  search_reserved, reject_reserved_content, reject_reserved_extensions,
}
use mission_control_edge.Protocol.Content.Keys.{emit, distinct, reject_duplicate_keys-distinct}
use mission_control_edge.Protocol.Content.Reserved.{clean, search_reserved-clean}
use mission_control_edge.Protocol.Content.Authority.{
  provider_event, reject_reserved_authority_fields, reject_reserved_provider_object, claims,
  check_review, check_payload, check_extensions, allowed_payload_keys, Unclaimed,
  reject_reserved_authority_fields-Unclaimed,
}

-- {"authority": [true, {"tier": 1}]}
abbrev deep : Json
deep = object (
    member (bytes "authority")
      (array (
        item (boolean true)
          (item (object (member (bytes "tier") (number (bytes "1")) no_members)) no_items)))
      no_members)

-- {"authority": "a"}
abbrev shallow : Json
shallow = object (member (bytes "authority") (text (bytes "a")) no_members)

deep_refused :
    search_reserved (bytes "authority" ∷ []) deep ≡ err (protocol_error permission_denied)
unfolding search_reserved walk push_value push_members push_items size is_in
deep_refused = refl

shallow_accepted : search_reserved (bytes "authority" ∷ []) shallow ≡ ok tt
unfolding search_reserved walk push_value push_members push_items size is_in
shallow_accepted = refl

search_reserved-clean_example : search_reserved (bytes "authority" ∷ []) deep ≡ (
    if clean (bytes "authority" ∷ []) true deep
    then ok tt
    else err (protocol_error permission_denied))
search_reserved-clean_example = search_reserved-clean (bytes "authority" ∷ []) deep

-- A library that knows the texts of one event, named by letters.
abbrev known_document : Bytes → Json
known_document content = if content == bytes "p" then shallow else null

abbrev library : JsonLibrary
library = record {
  scan = λ content. record { tokens = emit (known_document content) []; clean = true };
  decode = λ content. some (known_document content);
  valid = λ content. true;
  fields = λ content.
      if content == bytes "e"
      then some (
          (bytes "type", bytes "t")
          ∷ (bytes "payload", bytes "p")
          ∷ (bytes "extensions", bytes "x")
          ∷ [])
      else some ((bytes "a.b/c", bytes "n") ∷ []);
  string = λ content. some (bytes "session.state_changed");
}

reject_duplicate_keys-distinct_example :
    reject_duplicate_keys library (bytes "p")
    ≡ (if distinct shallow then ok tt else err (plain "duplicate object key"))
reject_duplicate_keys-distinct_example =
    reject_duplicate_keys-distinct library (bytes "p") shallow refl

event_accepted : reject_reserved_authority_fields library (bytes "e") provider_event ≡ ok tt
unfolding reject_reserved_authority_fields reject_reserved_provider_object claims check_review
    check_payload check_extensions allowed_payload_keys reject_reserved_content
    reject_reserved_extensions reject_duplicate_keys consume_value emit search_reserved walk
    push_value push_members push_items size is_in lookup
event_accepted = refl

reject_reserved_authority_fields-Unclaimed_example :
    (found : List (Bytes × Bytes)) × (library.fields (bytes "e") ≡ some found)
    × Unclaimed library found
reject_reserved_authority_fields-Unclaimed_example =
    reject_reserved_authority_fields-Unclaimed library (bytes "e") event_accepted
