-- ===== src/Protocol/Evidence/Attested.antt =====
-- What evidence of custody or of isolation that was accepted has established.
use Prim.Native.String.{String}
use mission_control_edge.Common.{
  ℕ, ◌≡◌, refl, true, false, ◌||◌, not, Option, some, arith, ◌==◌, bytes_eq, bytes_beq_iff, Bytes,
  ok, err, bytes, Check, or_else, present, check-bind-ok, bind-eq-ok, reject_if-bind-ok,
  reject_if-eq-ok, or_else-eq-ok, present-eq-ok, not-eq-false, or-eq-false, ap₂, sym, ◌∙◌, subst,
}
use mission_control_edge.Common.Multiset.{count}
use mission_control_edge.Protocol.Error.{
  GoError, protocol_error, invalid_argument, unauthenticated, replay,
}
use mission_control_edge.Protocol.Text.{Time, before}
use mission_control_edge.Protocol.Approval.{Consume}
use mission_control_edge.Protocol.Approval.Scopes.{equal_string_sets_iff}
use mission_control_edge.Protocol.Approval.Decision.{equal_artifact_iff}
use mission_control_edge.Protocol.Evidence.{
  Signature, Cryptography, Trust, signing_preimage, verify_evidence_signature, validate_metadata,
  purpose_custody_evidence, purpose_isolation_evidence,
}
use mission_control_edge.Protocol.Evidence.Custody.{
  EvidenceBinding, Evidence, Verifier, validate_evidence_binding, validate_evidence,
  validate_evidence_fields, equal_evidence_binding, unsigned, signing_bytes, check_evidence,
  after_checks, verify_custody,
}
use mission_control_edge.Protocol.Evidence.Isolation.{verify_isolation}

-- Two bindings that agree in everything but the order of the controls.
pub record SameScope (a b : EvidenceBinding) : Type 0 where
  pub session_id : a.session_id ≡ b.session_id
  pub policy_revision : a.policy_revision ≡ b.policy_revision
  pub gateway_id : a.gateway_id ≡ b.gateway_id
  pub gateway_key_id : a.gateway_key_id ≡ b.gateway_key_id
  pub provider : a.provider ≡ b.provider
  pub native_environment_id : a.native_environment_id ≡ b.native_environment_id
  pub configuration_digest : a.configuration_digest ≡ b.configuration_digest
  pub image_digest : a.image_digest ≡ b.image_digest
  pub data_mode : a.data_mode ≡ b.data_mode
  pub controls : (z : Bytes) → count z a.controls ≡ count z b.controls

equal_evidence_binding-SameScope :
    (a b : EvidenceBinding) → equal_evidence_binding a b ≡ true → SameScope a b
unfolding equal_evidence_binding
equal_evidence_binding-SameScope a b h = record {
  session_id = ground (arith, bytes_beq_iff a.session_id b.session_id);
  policy_revision = ground arith;
  gateway_id = ground (arith, bytes_beq_iff a.gateway_id b.gateway_id);
  gateway_key_id = ground (arith, bytes_beq_iff a.gateway_key_id b.gateway_key_id);
  provider = equal_artifact_iff a.provider b.provider (ground arith);
  native_environment_id =
      ground (arith, bytes_beq_iff a.native_environment_id b.native_environment_id);
  configuration_digest =
      ground (arith, bytes_beq_iff a.configuration_digest b.configuration_digest);
  image_digest = ground (arith, bytes_beq_iff a.image_digest b.image_digest);
  data_mode = ground (arith, bytes_beq_iff a.data_mode b.data_mode);
  controls = (equal_string_sets_iff a.controls b.controls).0 (ground arith);
}

-- A signature that a trusted key made over the preimage for the purpose.
pub Signed : Verifier → Bytes → Evidence → Type 0
Signed verifier purpose e =
    (keys : Trust verifier.crypto.Key) × (key : verifier.crypto.Key) × (payload value : Bytes)
    × (verifier.trust ≡ some keys)
    × (keys e.binding.gateway_id e.binding.gateway_key_id purpose ≡ some key)
    × (signing_preimage verifier.max_int purpose (verifier.marshal (unsigned e)) ≡ ok payload)
    × (verifier.crypto.decode_base64 e.signature.value ≡ some value)
    × (verifier.crypto.verify key payload value ≡ true)

-- What evidence for a purpose establishes at a time.
pub record Attests (verifier : Verifier) (purpose : Bytes) (e : Evidence)
    (expected : EvidenceBinding) (now : Time) : Type 0 where
  pub same : SameScope e.binding expected
  pub issued : before now e.issued_at ≡ false
  pub current : before now e.expires_at ≡ true
  pub signed : Signed verifier purpose e

verified-signature :
    (crypto : Cryptography) (s : Signature) (issuer key_id : Bytes)
    (trust : Option (Trust crypto.Key)) (payload : Bytes) (now issued_at expires_at : Time)
    → verify_evidence_signature crypto s issuer key_id trust payload now issued_at expires_at
      ≡ ok tt
    → (before now issued_at ≡ false)
      × (before now expires_at ≡ true)
      × ((keys : Trust crypto.Key) × (key : crypto.Key) × (value : Bytes) × (trust ≡ some keys)
          × (keys issuer key_id s.purpose ≡ some key)
          × (crypto.decode_base64 s.value ≡ some value)
          × (crypto.verify key payload value ≡ true))
unfolding verify_evidence_signature
verified-signature crypto s issuer key_id trust payload now issued_at expires_at h =
    let (issued, h) = reject_if-bind-ok (before now issued_at) _ _ h in
    let (current, h) = reject_if-bind-ok (not (before now expires_at)) _ _ h in
    let (signer, h) =
      reject_if-bind-ok (not (s.issuer == issuer) || not (s.key_id == key_id)) _ _ h in
    let (not_issuer, not_key) =
      or-eq-false (not (s.issuer == issuer)) (not (s.key_id == key_id)) signer in
    let same_issuer = (bytes_beq_iff s.issuer issuer).0 (not-eq-false _ not_issuer) in
    let same_key = (bytes_beq_iff s.key_id key_id).0 (not-eq-false _ not_key) in
    let (keys, trusted, h) = bind-eq-ok (present trust (protocol_error unauthenticated)) _ h in
    let (key, known, h) =
      bind-eq-ok (present (keys s.issuer s.key_id s.purpose) (protocol_error unauthenticated)) _
        h in
    let (value, decoded, h) =
      bind-eq-ok (present (crypto.decode_base64 s.value) (protocol_error unauthenticated)) _ h in
    let genuine = reject_if-eq-ok (not (crypto.verify key payload value)) _ h in
    (
      issued,
      not-eq-false _ current,
      (
        keys,
        key,
        value,
        present-eq-ok trust _ trusted,
        ap₂ (λ i k. keys i k s.purpose) (sym same_issuer) (sym same_key)
            ∙ present-eq-ok (keys s.issuer s.key_id s.purpose) _ known,
        present-eq-ok (crypto.decode_base64 s.value) _ decoded,
        not-eq-false _ genuine,
      ),
    )

-- What `SigningBytes` checks on the way.
signing_bytes-parts :
    (max_int : ℕ) (marshal : Evidence → Option Bytes) (required : String) (purpose : Bytes)
    (e : Evidence) (payload : Bytes)
    → signing_bytes max_int marshal required purpose e ≡ ok payload
    → (e.signature.purpose ≡ purpose)
      × (signing_preimage max_int purpose (marshal (unsigned e)) ≡ ok payload)
unfolding signing_bytes validate_metadata
signing_bytes-parts max_int marshal required purpose e payload h =
    let (_, h) = check-bind-ok (validate_evidence_fields required e) _ h in
    let (metadata, h) = check-bind-ok (validate_metadata e.signature purpose) _ h in
    let (same, _) =
      reject_if-bind-ok
        (not (e.signature.algorithm == bytes "ed25519") || not (e.signature.purpose == purpose)) _ _
        metadata in
    let (_, other_purpose) = or-eq-false (not (e.signature.algorithm == bytes "ed25519")) _ same in
    ((bytes_beq_iff e.signature.purpose purpose).0 (not-eq-false _ other_purpose), h)

pub check_evidence-Attests :
    (required : String) (purpose : Bytes) (verifier : Verifier) (e : Evidence)
    (expected : EvidenceBinding) (now : Time)
    → check_evidence required purpose verifier e expected now ≡ ok tt
    → Attests verifier purpose e expected now
unfolding check_evidence Signed
check_evidence-Attests required purpose verifier e expected now h =
    let (_, h) =
      check-bind-ok
        (or_else (validate_evidence verifier.crypto required purpose e)
          (protocol_error invalid_argument))
        _ h in
    let (_, h) =
      check-bind-ok
        (or_else (validate_evidence_binding required expected) (protocol_error invalid_argument)) _
        h in
    let (same, h) = reject_if-bind-ok (not (equal_evidence_binding e.binding expected)) _ _ h in
    let (payload, encoded, h) =
      bind-eq-ok
        (or_else (signing_bytes verifier.max_int verifier.marshal required purpose e)
          (protocol_error invalid_argument))
        _ h in
    let (for_purpose, preimage) =
      signing_bytes-parts verifier.max_int verifier.marshal required purpose e payload (
        or_else-eq-ok (signing_bytes verifier.max_int verifier.marshal required purpose e) _
          encoded) in
    let (issued, current, found) =
      verified-signature verifier.crypto e.signature e.binding.gateway_id e.binding.gateway_key_id
        verifier.trust payload now e.issued_at e.expires_at h in
    let (keys, key, value, trusted, known, decoded, genuine) = found in
    record {
      same = equal_evidence_binding-SameScope e.binding expected (not-eq-false _ same);
      issued = issued;
      current = current;
      signed = (
        keys,
        key,
        payload,
        value,
        trusted,
        subst (λ p. keys e.binding.gateway_id e.binding.gateway_key_id p ≡ some key) for_purpose
            known,
        preimage,
        decoded,
        genuine,
      );
    }

module _ {Nonces : Type 0} (consume : Consume Nonces) where
  after_checks-ok :
      (s : Nonces) (nonce : Bytes) (m : Check GoError)
      → (after_checks consume s nonce m).1 ≡ ok tt
      → (m ≡ ok tt) × ((consume s nonce).1 ≡ true)
  unfolding after_checks
  after_checks-ok s nonce (ok tt) h =
      (refl, not-eq-false _ (reject_if-eq-ok (not (consume s nonce).1) (protocol_error replay) h))
  after_checks-ok s nonce (err e) h = cc

  -- Evidence of custody that is accepted agrees with the expected binding in everything, the controls
  -- in some order; now is in its time; the gateway's trusted key has signed the bytes for evidence of
  -- custody; and its nonce was consumed by this very call.
  pub verify_custody-Attests :
      (verifier : Verifier) (s : Nonces) (e : Evidence) (expected : EvidenceBinding) (now : Time)
      → (verify_custody consume verifier s e expected now).1 ≡ ok tt
      → Attests verifier purpose_custody_evidence e expected now × ((consume s e.nonce).1 ≡ true)
  unfolding verify_custody
  verify_custody-Attests verifier s e expected now h =
      let (checked, fresh) = after_checks-ok s e.nonce _ h in
      (check_evidence-Attests _ purpose_custody_evidence verifier e expected now checked, fresh)

  -- The same for evidence of isolation, whose bytes are for that purpose.
  pub verify_isolation-Attests :
      (verifier : Verifier) (s : Nonces) (e : Evidence) (expected : EvidenceBinding) (now : Time)
      → (verify_isolation consume verifier s e expected now).1 ≡ ok tt
      → Attests verifier purpose_isolation_evidence e expected now × ((consume s e.nonce).1 ≡ true)
  unfolding verify_isolation
  verify_isolation-Attests verifier s e expected now h =
      let (checked, fresh) = after_checks-ok s e.nonce _ h in
      (check_evidence-Attests _ purpose_isolation_evidence verifier e expected now checked, fresh)
