-- ===== src/Protocol/Verification/Samples.antt =====
-- One live run: its authorization, its receipt, and the evidence of it, evaluated twice.
use mission_control_edge.Common.{
  ◌≡◌, refl, ℕ, ◌^◌, ◌-◌, true, none, some, [], ◌∷◌, ◌++◌, Bytes, bytes, replicate, eqb, Option,
  ◌==◌, bytes_eq, bytes_beq_iff, Bool-cases, inl, inr, sym, ap, ◌∙◌, Bool,
}
use mission_control_edge.Common.Assoc.{
  Assoc, lookup, insert, remove, lookup-insert, lookup-insert_self,
}
use mission_control_edge.Common.Int.{pos}
use mission_control_edge.Protocol.Text.{Time, validate_id, validate_time, validate_token}
use mission_control_edge.Protocol.Identity.{validate_digest}
use mission_control_edge.Protocol.Signed.{
  protocol_version, validate_protocol, validate_signed_artifact, validate_nonce,
  validate_unique_strings, validate_version, validate_safe_ascii, equal_strings, ArtifactIdentity,
}
use mission_control_edge.Protocol.Capability.Catalog.{valid_capability_name}
use mission_control_edge.Protocol.Distinct.{distinct_from, holds}
use mission_control_edge.Protocol.Manifest.{validate_platform}
use mission_control_edge.Protocol.Approval.{sort_strings, validate_scopes}
use mission_control_edge.Protocol.Evidence.{
  Signature, Cryptography, validate_metadata, validate_signature, validate_evidence_times,
  validate_data_mode, allocation_from, checked_allocation_size, signing_preimage,
}
use mission_control_edge.Protocol.Verification.{
  VerificationSubject, validate_subject, canonical_subject, equal_subject, opaque_from,
  validate_opaque_reference, validate_signed_reference, tier_live_verified, verification_passed,
  purpose_live_run_authorization, purpose_live_run_receipt,
}
use mission_control_edge.Protocol.Verification.Live.{
  LiveVerificationAuthorization, LiveVerificationReceipt, validate_authorization_fields,
  validate_authorization, authorization_bytes, validate_receipt_fields, validate_receipt,
  receipt_bytes,
}
use mission_control_edge.Protocol.Verification.Record.{
  VerificationEvidence, receipt_matches, live_components_match, validate_live, validate_tier,
  validate_verification_fields, validate_verification, canonical_evidence, verification_bytes,
  purpose_live_verification,
}
use mission_control_edge.Protocol.Verification.Policy.{
  VerificationExpectation, VerificationPolicy, Accept, has_live_scope, validate_live_scope,
  validate_expectation, verify_trusted_signature, purpose_for_tier, authorization_matches,
  generally_applies, live_applies, admit_live, verification_applies, promote, evaluate_from,
  evaluate_verification,
}
use mission_control_edge.Protocol.Verification.Replay.{Backed, evaluate_verification-Backed}
use mission_control_edge.Protocol.Verification.Once.{
  AcceptsOnce, Evaluation, evaluate, run_evaluations, live_once,
}

abbrev digest : Bytes
digest = bytes "sha256:" ++ replicate 64 b'0'

abbrev artifact : Bytes → ArtifactIdentity
artifact id = record { id = id; version = bytes "1"; digest = digest }

abbrev subject : VerificationSubject
subject = record {
  provider = artifact (bytes "p");
  native_artifact = artifact (bytes "n");
  platform = record { os = bytes "linux"; architecture = bytes "amd64" };
  capabilities = bytes "pane.list" ∷ bytes "pane.get" ∷ [];
  cases = bytes "c1" ∷ [];
  suite_version = bytes "1";
  suite_digest = digest;
  configuration_digest = digest;
  data_modes = bytes "full" ∷ [];
}

abbrev signature : Bytes → Bytes → Bytes → Signature
signature purpose issuer key_id = record {
  algorithm = bytes "ed25519";
  purpose = purpose;
  issuer = issuer;
  key_id = key_id;
  value = replicate 64 b'x';
}

abbrev at : ℕ → Time
at n = record { instant = pos n; is_utc = true }

abbrev authorization : LiveVerificationAuthorization
authorization = record {
  version = protocol_version;
  authorization_id = bytes "a";
  subject = subject;
  tenant_id = bytes "t";
  gateway_id = bytes "g";
  gateway_key_id = bytes "k";
  correlation_id = bytes "c";
  run_nonce = replicate 22 b'n';
  budget_reference = bytes "b:1";
  credential_reference = bytes "v:1";
  issued_at = at 10;
  expires_at = at 90;
  trust_epoch = 2;
  signature = signature purpose_live_run_authorization (bytes "m") (bytes "k0");
}

abbrev receipt : LiveVerificationReceipt
receipt = record {
  version = protocol_version;
  receipt_id = bytes "r";
  authorization_id = bytes "a";
  subject = subject;
  tenant_id = bytes "t";
  gateway_id = bytes "g";
  correlation_id = bytes "c";
  run_nonce = replicate 22 b'n';
  budget_reference = bytes "b:1";
  credential_reference = bytes "v:1";
  result = verification_passed;
  usage = some (record { input_tokens = 1; output_tokens = 2; cost_microunits = 3 });
  audit_event_id = bytes "e";
  issued_at = at 20;
  signature = signature purpose_live_run_receipt (bytes "g") (bytes "k");
}

abbrev evidence : VerificationEvidence
evidence = record {
  version = protocol_version;
  evidence_id = bytes "ev";
  tier = tier_live_verified;
  subject = subject;
  result = verification_passed;
  reference = bytes "run:7";
  issued_at = at 30;
  expires_at = at 80;
  trust_epoch = 2;
  live_authorization = some authorization;
  live_receipt = some receipt;
  signature = signature purpose_live_verification (bytes "m") (bytes "k0");
}

abbrev expected : VerificationExpectation
expected = record {
  subject = subject;
  tenant_id = bytes "t";
  gateway_id = bytes "g";
  gateway_key_id = bytes "k";
  correlation_id = bytes "c";
  authorization_id = bytes "a";
  run_nonce = replicate 22 b'n';
  budget_reference = bytes "b:1";
  credential_reference = bytes "v:1";
}

abbrev crypto : Cryptography
crypto = record {
  Key = ℕ;
  key_size = λ key. 32;
  decode_base64 = λ value. some value;
  verify = λ key payload value. eqb key 7;
}

abbrev policy : VerificationPolicy
policy = record {
  max_int = 2 ^ 63 - 1;
  crypto = crypto;
  marshal_evidence = λ e. some (bytes "{}");
  marshal_authorization = λ a. some (bytes "{}");
  marshal_receipt = λ r. some (bytes "{}");
  trust = λ issuer key_id purpose. some 7;
  current_trust_epoch = 2;
  revoked_evidence_ids = [];
  superseded_evidence_ids = bytes "old" ∷ [];
}

none-not-some : {a : Bytes} → ¬ (none ≡ some a)
none-not-some h = cc

-- A guard that keeps the evidence of each nonce.
abbrev answer : Assoc Bytes Bytes → Bytes → Bytes → Option Bytes → Assoc Bytes Bytes × Bool
answer s n i none = (insert n i s, true)
answer s n i (some j) = (s, j == i)

abbrev remember : Accept (Assoc Bytes Bytes)
remember s n i = answer s n i (lookup n s)

answer-binds :
    (s : Assoc Bytes Bytes) (n i : Bytes) (o : Option Bytes)
    → lookup n s ≡ o
    → (answer s n i o).1 ≡ true
    → lookup n (answer s n i o).0 ≡ some i
answer-binds s n i none e h = lookup-insert_self n i s
answer-binds s n i (some j) e h = e ∙ ap some ((bytes_beq_iff j i).0 h)

answer-keeps :
    (s : Assoc Bytes Bytes) (n m i j : Bytes) (o : Option Bytes)
    → lookup m s ≡ o
    → lookup n s ≡ some i
    → lookup n (answer s m j o).0 ≡ some i
answer-keeps s n m i j (some k) e h = h
answer-keeps s n m i j none e h = elim (Bool-cases (m == n)) [
  | inl same ↦
      absurd (none-not-some (sym e ∙ ap (λ k. lookup k s) ((bytes_beq_iff m n).0 same) ∙ h))
  | inr differs ↦ lookup-insert m n j s ∙ rw differs h
]

remember-AcceptsOnce : AcceptsOnce remember
remember-AcceptsOnce = record {
  bound = λ s n. lookup n s;
  binds = λ s n i. answer-binds s n i (lookup n s) refl;
  keeps = λ s n m i j. answer-keeps s n m i j (lookup m s) refl;
}

abbrev evaluation : Evaluation
evaluation = record { policy = policy; expected = expected; now = at 50; evidence = evidence ∷ [] }

projected :
    (evaluate_verification remember policy expected (at 50) [] (evidence ∷ [])).1
    ≡ record { tier = tier_live_verified; evidence_id = bytes "ev" }
unfolding evaluate_verification evaluate_from promote verification_applies admit_live live_applies
    generally_applies authorization_matches purpose_for_tier verify_trusted_signature
    validate_expectation validate_live_scope has_live_scope verification_bytes canonical_evidence
    validate_verification validate_verification_fields validate_tier validate_live
    live_components_match receipt_matches receipt_bytes validate_receipt validate_receipt_fields
    authorization_bytes validate_authorization validate_authorization_fields validate_subject
    canonical_subject equal_subject opaque_from validate_opaque_reference validate_signed_reference
    validate_metadata validate_signature validate_evidence_times validate_data_mode allocation_from
    checked_allocation_size signing_preimage sort_strings validate_scopes validate_platform
    distinct_from holds valid_capability_name validate_protocol validate_signed_artifact
    validate_nonce validate_unique_strings validate_version validate_safe_ascii equal_strings
    validate_digest validate_id validate_time validate_token lookup insert
projected = refl

evaluate_verification-Backed_example :
    Backed policy expected
      (at 50)
      (evidence ∷ [])
      (evaluate_verification remember policy expected (at 50) [] (evidence ∷ [])).1
evaluate_verification-Backed_example =
    evaluate_verification-Backed remember policy expected (at 50) [] (evidence ∷ [])

first_live : (evaluate remember remember-AcceptsOnce [] evaluation).1.tier ≡ tier_live_verified
unfolding evaluate_verification evaluate_from promote verification_applies admit_live live_applies
    generally_applies authorization_matches purpose_for_tier verify_trusted_signature
    validate_expectation validate_live_scope has_live_scope verification_bytes canonical_evidence
    validate_verification validate_verification_fields validate_tier validate_live
    live_components_match receipt_matches receipt_bytes validate_receipt validate_receipt_fields
    authorization_bytes validate_authorization validate_authorization_fields validate_subject
    canonical_subject equal_subject opaque_from validate_opaque_reference validate_signed_reference
    validate_metadata validate_signature validate_evidence_times validate_data_mode allocation_from
    checked_allocation_size signing_preimage sort_strings validate_scopes validate_platform
    distinct_from holds valid_capability_name validate_protocol validate_signed_artifact
    validate_nonce validate_unique_strings validate_version validate_safe_ascii equal_strings
    validate_digest validate_id validate_time validate_token lookup insert
first_live = refl

later_live :
    (evaluate remember remember-AcceptsOnce
      (run_evaluations remember remember-AcceptsOnce
        (evaluate remember remember-AcceptsOnce [] evaluation).0
        [])
      evaluation).1.tier
    ≡ tier_live_verified
unfolding evaluate_verification evaluate_from promote verification_applies admit_live live_applies
    generally_applies authorization_matches purpose_for_tier verify_trusted_signature
    validate_expectation validate_live_scope has_live_scope verification_bytes canonical_evidence
    validate_verification validate_verification_fields validate_tier validate_live
    live_components_match receipt_matches receipt_bytes validate_receipt validate_receipt_fields
    authorization_bytes validate_authorization validate_authorization_fields validate_subject
    canonical_subject equal_subject opaque_from validate_opaque_reference validate_signed_reference
    validate_metadata validate_signature validate_evidence_times validate_data_mode allocation_from
    checked_allocation_size signing_preimage sort_strings validate_scopes validate_platform
    distinct_from holds valid_capability_name validate_protocol validate_signed_artifact
    validate_nonce validate_unique_strings validate_version validate_safe_ascii equal_strings
    validate_digest validate_id validate_time validate_token lookup insert remove run_evaluations
later_live = refl

live_once_example :
    (evaluate remember remember-AcceptsOnce
      (run_evaluations remember remember-AcceptsOnce
        (evaluate remember remember-AcceptsOnce [] evaluation).0
        [])
      evaluation).1.evidence_id
    ≡ (evaluate remember remember-AcceptsOnce [] evaluation).1.evidence_id
live_once_example =
    live_once remember remember-AcceptsOnce [] evaluation evaluation [] first_live later_live refl
