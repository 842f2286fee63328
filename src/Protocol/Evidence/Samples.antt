-- ===== src/Protocol/Evidence/Samples.antt =====
-- Evidence of custody of one gateway, checked with a cryptography of numbers for keys.
use mission_control_edge.Common.{
  ◌≡◌, refl, ℕ, ◌^◌, ◌-◌, ◌≤◌, ◌↔◌, true, false, some, List, [], ◌∷◌, ◌++◌, Bytes, bytes, ok,
  replicate, eqb, any_of, ◌==◌, bytes_eq, if◌then◌else◌, All,
}
use mission_control_edge.Common.Int.{pos}
use mission_control_edge.Protocol.Text.{Time, validate_id, validate_time}
use mission_control_edge.Protocol.Identity.{validate_digest, validate_native_id}
use mission_control_edge.Protocol.Signed.{
  protocol_version, validate_protocol, validate_signed_artifact, validate_nonce,
  validate_unique_strings, validate_version, validate_safe_ascii, equal_strings,
}
use mission_control_edge.Protocol.Approval.{
  Consume, equal_string_sets, sort_strings, validate_scopes,
}
use mission_control_edge.Protocol.Evidence.{
  Cryptography, validate_metadata, validate_signature, validate_evidence_times, validate_data_mode,
  allocation_from, checked_allocation_size, signing_preimage, verify_evidence_signature,
  purpose_custody_evidence,
}
use mission_control_edge.Protocol.Evidence.Custody.{
  EvidenceBinding, Evidence, Verifier, validate_evidence_binding, validate_evidence_fields,
  validate_evidence, equal_evidence_binding, unsigned, signing_bytes, check_evidence, after_checks,
  verify_custody,
}
use mission_control_edge.Protocol.Evidence.Preimage.{
  sum_of, NonNegative, checked_allocation_size-exact, signing_preimage-injective,
}
use mission_control_edge.Protocol.Evidence.Attested.{Attests, verify_custody-Attests}

abbrev digest : Bytes
digest = bytes "sha256:" ++ replicate 64 b'0'

abbrev binding : List Bytes → EvidenceBinding
binding controls = record {
  session_id = bytes "s";
  policy_revision = 3;
  gateway_id = bytes "g";
  gateway_key_id = bytes "k";
  provider = record { id = bytes "p"; version = bytes "1"; digest = digest };
  native_environment_id = bytes "env-1";
  configuration_digest = digest;
  image_digest = digest;
  controls = controls;
  data_mode = bytes "full";
}

abbrev evidence : Evidence
evidence = record {
  version = protocol_version;
  evidence_id = bytes "e";
  nonce = replicate 22 b'n';
  binding = binding (bytes "net" ∷ bytes "disk" ∷ []);
  issued_at = record { instant = pos 10; is_utc = true };
  expires_at = record { instant = pos 90; is_utc = true };
  signature = record {
    algorithm = bytes "ed25519";
    purpose = purpose_custody_evidence;
    issuer = bytes "g";
    key_id = bytes "k";
    value = replicate 64 b'x';
  };
}

-- The controls in another order.
abbrev expected : EvidenceBinding
expected = binding (bytes "disk" ∷ bytes "net" ∷ [])

-- Keys are numbers, and a signature is a value of the right length under the key 7.
abbrev crypto : Cryptography
crypto = record {
  Key = ℕ;
  key_size = λ key. 32;
  decode_base64 = λ value. some value;
  verify = λ key payload value. eqb key 7;
}

abbrev verifier : Verifier
verifier = record {
  max_int = 2 ^ 63 - 1;
  crypto = crypto;
  marshal = λ e. some (bytes "{}");
  trust = some (λ issuer key_id purpose. some 7);
}

abbrev remember : Consume (List Bytes)
remember s n = if any_of (λ m. m == n) s then (s, false) else (n ∷ s, true)

abbrev now : Time
now = record { instant = pos 50; is_utc = true }

accepted : (verify_custody remember verifier [] evidence expected now).1 ≡ ok tt
unfolding verify_custody after_checks check_evidence validate_evidence validate_evidence_fields
    validate_evidence_binding equal_evidence_binding unsigned signing_bytes signing_preimage
    checked_allocation_size allocation_from verify_evidence_signature validate_signature
    validate_metadata validate_evidence_times validate_data_mode validate_scopes equal_string_sets
    sort_strings equal_strings validate_protocol validate_signed_artifact validate_nonce
    validate_unique_strings validate_version validate_safe_ascii validate_digest validate_native_id
    validate_id validate_time
accepted = refl

verify_custody-Attests_example :
    Attests verifier purpose_custody_evidence evidence expected now
    × ((remember [] evidence.nonce).1 ≡ true)
verify_custody-Attests_example =
    verify_custody-Attests remember verifier [] evidence expected now accepted

checked_allocation_size-exact_example :
    (checked_allocation_size 127 (pos 100 ∷ pos 28 ∷ []) ≡ ok 128) ↔ (
      All NonNegative (pos 100 ∷ pos 28 ∷ [])
      × (sum_of (pos 100 ∷ pos 28 ∷ []) ≡ 128)
      × (128 ≤ 127))
checked_allocation_size-exact_example =
    checked_allocation_size-exact 127 128 (pos 100 ∷ pos 28 ∷ [])

abbrev signed : Bytes
signed = protocol_version ++ (0 ∷ (bytes "custody-evidence" ++ (0 ∷ bytes "{}")))

signed_bytes : signing_preimage 1000 purpose_custody_evidence (some (bytes "{}")) ≡ ok signed
unfolding signing_preimage checked_allocation_size allocation_from validate_safe_ascii
signed_bytes = refl

signing_preimage-injective_example :
    (purpose_custody_evidence ≡ purpose_custody_evidence) × (bytes "{}" ≡ bytes "{}")
signing_preimage-injective_example =
    signing_preimage-injective 1000 purpose_custody_evidence purpose_custody_evidence (bytes "{}")
      (bytes "{}") signed signed_bytes signed_bytes
