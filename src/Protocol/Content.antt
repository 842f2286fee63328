-- ===== src/Protocol/Content.antt =====
-- protocol/validate.go, lines 23 to 33, 208 to 257 and 341 to 398: content that a provider supplies.
-- The decoder of `encoding/json` is a parameter: `scan` is what its method `Token` gives on a text
-- until the end (`clean`) or the first error, `decode` what `Decode` gives with numbers kept, `valid`
-- the function `Valid`, and `fields` and `string` are `Unmarshal` into a map of raw messages and
-- into a string.
pub mod Authority
pub mod Keys
pub mod Reserved
mod Samples
use mission_control_edge.Common.{
  ℕ, zero, suc, ◌+◌, Bool, true, false, ◌&&◌, ◌||◌, not, Option, none, some, List, [], ◌∷◌, any_of,
  if◌then◌else◌, length, ltb, ◌==◌, bytes_eq, Bytes, bytes, Outcome, ok, err, Check, ◌>>=◌, ◌>>◌,
  reject_if, or_else, present,
}
use mission_control_edge.Protocol.Error.{
  GoError, plain, protocol_error, invalid_argument, permission_denied, message_too_large,
}
use mission_control_edge.Protocol.Terminal.{max_message_bytes}

-- A decoded value. The order of the members of an object is that of one iteration over the map.
mutual
  pub data Json : Type 0 where
    null : Json
    boolean : Bool → Json
    number text : Bytes → Json
    array : Items → Json
    object : Members → Json

  pub data Items : Type 0 where
    no_items : Items
    item : Json → Items → Items

  pub data Members : Type 0 where
    no_members : Members
    member : Bytes → Json → Members → Members

-- `json.Token`: a delimiter, a string, or another value.
pub data Token : Type 0 where
  open_object close_object open_array close_array other : Token
  word : Bytes → Token

pub record Scan : Type 0 where
  pub tokens : List Token
  pub clean : Bool

-- What the code uses of `encoding/json`.
pub record JsonLibrary : Type 0 where
  pub scan : Bytes → Scan
  pub decode : Bytes → Option Json
  pub valid : Bytes → Bool
  pub fields : Bytes → Option (List (Bytes × Bytes))
  pub string : Bytes → Option Bytes

-- `decoder.More()`; at an error there is no more, and the token after it is the error.
abbrev pub more : List Token → Bool
more [] = false
more (close_object ∷ rest) = false
more (close_array ∷ rest) = false
more (token ∷ rest) = true

-- The closing token, whatever it is: the decoder gives no other.
abbrev pub close : List Token → Outcome GoError (List Token)
close [] = err (plain "unexpected end of JSON")
close (token ∷ rest) = ok rest

abbrev pub out_of_fuel : Outcome GoError (List Token)
out_of_fuel = err (plain "out of fuel")

-- The function `consume` in `rejectDuplicateKeys` and its two loops: the tokens that are left. The
-- first argument bounds the calls; the number of tokens is enough.
unfoldable mutual
  pub consume_value : ℕ → List Token → Outcome GoError (List Token)
  consume_value zero tokens = out_of_fuel
  consume_value (suc n) [] = err (plain "unexpected end of JSON")
  consume_value (suc n) (open_object ∷ rest) = consume_members n [] rest
  consume_value (suc n) (open_array ∷ rest) = consume_items n rest
  consume_value (suc n) (close_object ∷ rest) = err (plain "unexpected delimiter")
  consume_value (suc n) (close_array ∷ rest) = err (plain "unexpected delimiter")
  consume_value (suc n) (other ∷ rest) = ok rest
  consume_value (suc n) (word w ∷ rest) = ok rest

  pub consume_members : ℕ → List Bytes → List Token → Outcome GoError (List Token)
  consume_members zero seen tokens = out_of_fuel
  consume_members (suc n) seen (word key ∷ rest) =
      let next = consume_value n rest >>= consume_members n (key ∷ seen) in
      if any_of (λ s. s == key) seen then err (plain "duplicate object key") else next
  consume_members (suc n) seen tokens =
      if more tokens then err (plain "object key is not a string") else close tokens

  pub consume_items : ℕ → List Token → Outcome GoError (List Token)
  consume_items zero tokens = out_of_fuel
  consume_items (suc n) tokens =
      let next = consume_value n tokens >>= consume_items n in
      if more tokens then next else close tokens

-- One JSON value, and nothing after it.
abbrev pub only : Bool → List Token → Check GoError
only true [] = ok tt
only _ _ = err (plain "multiple JSON values")

-- rejectDuplicateKeys
unfoldable pub reject_duplicate_keys : JsonLibrary → Bytes → Check GoError
unfolding consume_value
reject_duplicate_keys library content =
    let found = library.scan content in
    consume_value (length found.tokens) found.tokens >>= only found.clean

-- providerCanonicalAuthorityKeys
abbrev pub provider_canonical_authority_keys : List Bytes
provider_canonical_authority_keys =
    bytes "tenant_id"
    ∷ bytes "project_id"
    ∷ bytes "initiative_id"
    ∷ bytes "work_item_id"
    ∷ bytes "gateway_id"
    ∷ bytes "session_id"
    ∷ bytes "canonical_session_id"
    ∷ bytes "correlation_id"
    ∷ bytes "causation_id"
    ∷ bytes "sensitivity"
    ∷ bytes "authority"
    ∷ bytes "verification_tier"
    ∷ bytes "tier"
    ∷ bytes "verified"
    ∷ []

-- providerReviewAuthorityKeys
abbrev pub provider_review_authority_keys : List Bytes
provider_review_authority_keys =
    bytes "artifact_id"
    ∷ bytes "creator_type"
    ∷ bytes "creator_id"
    ∷ bytes "review_state"
    ∷ bytes "classification"
    ∷ bytes "approval_id"
    ∷ bytes "approved"
    ∷ bytes "decision_revision"
    ∷ []

unfoldable pub is_in : List Bytes → Bytes → Bool
is_in keys key = any_of (λ k. k == key) keys

pub record Node : Type 0 where
  pub value : Json
  pub root : Bool

-- The loop over an object: its children go onto the stack, unless a key is reserved.
unfoldable pub push_members : List Bytes → Bool → Members → List Node → Outcome GoError (List Node)
push_members allowed root no_members stack = ok stack
push_members allowed root (member key child rest) stack =
    let next = push_members allowed root rest (record { value = child; root = false } ∷ stack) in
    if not root || not (is_in allowed key)
    then (if is_in provider_canonical_authority_keys key
        then err (protocol_error permission_denied)
        else if is_in provider_review_authority_keys key
        then err (protocol_error permission_denied)
        else next)
    else next

-- The loop over an array.
unfoldable pub push_items : Items → List Node → List Node
push_items no_items stack = stack
push_items (item child rest) stack =
    push_items rest (record { value = child; root = false } ∷ stack)

-- What goes onto the stack for one value.
unfoldable pub push_value : List Bytes → Bool → Json → List Node → Outcome GoError (List Node)
unfolding push_members push_items
push_value allowed root (object members) stack = push_members allowed root members stack
push_value allowed root (array items) stack = ok (push_items items stack)
push_value allowed root leaf stack = ok stack

-- The loop over the stack, for at most so many turns; `none` if that is not enough.
unfoldable pub walk : ℕ → List Bytes → List Node → Option (Check GoError)
unfolding push_value
walk n allowed [] = some (ok tt)
walk zero allowed (current ∷ stack) = none
walk (suc n) allowed (current ∷ stack) =
    elim (push_value allowed current.root current.value stack) [
      | ok next ↦ walk n allowed next
      | err e ↦ some (err e)
    ]

-- The number of the values in a document, each of which is once on the stack.
unfoldable mutual
  pub size : Json → ℕ
  size (array items) = suc (items_size items)
  size (object members) = suc (members_size members)
  size leaf = 1

  pub items_size : Items → ℕ
  items_size no_items = 0
  items_size (item child rest) = size child + items_size rest

  pub members_size : Members → ℕ
  members_size no_members = 0
  members_size (member key child rest) = size child + members_size rest

abbrev pub root_node : Json → Node
root_node value = record { value = value; root = true }

-- The bound on the turns is not reached: `Reserved.walk-root`.
unfoldable pub search_reserved : List Bytes → Json → Check GoError
unfolding walk size
search_reserved allowed value = elim (walk (size value) allowed (root_node value ∷ [])) [
  | some result ↦ result
  | none ↦ err (plain "out of fuel")
]

-- rejectReservedProviderContent
unfoldable pub reject_reserved_content : JsonLibrary → Bytes → List Bytes → Check GoError
unfolding reject_duplicate_keys search_reserved
reject_reserved_content library content allowed = do
  or_else (reject_duplicate_keys library content) (protocol_error invalid_argument)
  value ← present (library.decode content) (protocol_error invalid_argument)
  search_reserved allowed value

-- rejectReservedExtensions, over the values of one iteration over the map.
unfoldable pub reject_reserved_extensions : JsonLibrary → List (Bytes × Bytes) → Check GoError
unfolding reject_reserved_content
reject_reserved_extensions library [] = ok tt
reject_reserved_extensions library ((key, value) ∷ rest) = do
  reject_reserved_content library value []
  reject_reserved_extensions library rest

-- The function `Decode` into a variable of type `any`, whose value is the one that is decoded. Unlike
-- `rejectReservedProviderContent` this call reads numbers as float64; the one decoder of the library
-- stands for both, and the refusal of numbers beyond float64 is left to it.
unfoldable pub decode_any : JsonLibrary → Bytes → Outcome GoError Json
unfolding reject_duplicate_keys
decode_any library content = do
  reject_if (ltb max_message_bytes (length content)) (protocol_error message_too_large)
  or_else (reject_duplicate_keys library content) (protocol_error invalid_argument)
  present (library.decode content) (protocol_error invalid_argument)
