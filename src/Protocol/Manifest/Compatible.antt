-- ===== src/Protocol/Manifest/Compatible.antt =====
-- What an accepted negotiation settles between the gateway and the provider.
use mission_control_edge.Common.{
  ◌≡◌, refl, inl, inr, ℕ, ◌≤◌, Bool-cases, and-eq-true, not-eq-false, Bool, true, false, ◌&&◌, ◌||◌,
  not, some, List, [], ◌∷◌, ltb, eqb, length, all_of, any_of, is_empty, ◌==◌, bytes_eq,
  bytes_beq_iff, Bytes, ok, or_else, IfPresent, arith, subst, check-bind-ok, reject_if-bind-ok,
  reject_if-eq-ok, or_else-eq-ok, if_present-ok, All,
}
use mission_control_edge.Protocol.Error.{plain}
use mission_control_edge.Protocol.Text.{validate_id, validate_text}
use mission_control_edge.Protocol.Signed.{protocol_version, validate_protocol, validate_version}
use mission_control_edge.Protocol.Identity.{role_provider}
use mission_control_edge.Protocol.Capability.{CapabilityDescriptor}
use mission_control_edge.Protocol.Capability.Catalog.{capability, validate_descriptor}
use mission_control_edge.Protocol.Content.{JsonLibrary}
use mission_control_edge.Protocol.Distinct.{holds, distinct_from, distinct_from-Fresh}
use mission_control_edge.Protocol.Terminal.{max_message_bytes, max_terminal_chunk_bytes}
use mission_control_edge.Protocol.Manifest.{
  ProviderManifest, platform_eq, validate_platform, validate_manifest, validate_roles,
  validate_executable, validate_manifest_capabilities, validate_provided,
  equal_capability_definition, supports, find_provided,
}
use mission_control_edge.Protocol.Manifest.Negotiation.{
  ProviderInitializeRequest, ProviderInitializeResult, validate_request, validate_result,
  validate_sizes, validate_native_version, supports_all, validate_provider_negotiation,
}

-- The provider lists the capability; if the protocol knows it, then with the protocol's metadata.
pub Provided : ProviderManifest → Bytes → Type 0
Provided m name =
    (c : CapabilityDescriptor) × (find_provided m.capabilities name ≡ some c)
    × (validate_descriptor c ≡ ok tt)
    × IfPresent (capability name) (λ known. equal_capability_definition c known ≡ true)

pub record Compatible (request : ProviderInitializeRequest) (result : ProviderInitializeResult)
    : Type 0 where
  pub version : result.version ≡ protocol_version
  pub offered : holds request.supported_protocol_versions protocol_version ≡ true
  pub platform : holds result.manifest.platforms request.platform ≡ true
  pub provided : All (Provided result.manifest) request.required_capabilities
  pub messages : result.maximum_message_bytes ≤ request.maximum_message_bytes
  pub chunks : result.maximum_chunk_bytes ≤ request.maximum_chunk_bytes
  pub chunk_fits : result.maximum_chunk_bytes ≤ result.maximum_message_bytes
  pub replay : (result.replay_supported && not request.replay_supported) ≡ false
  pub mode : holds request.authentication_modes result.authentication_mode ≡ true
  pub features :
      All (λ f. holds request.experimental_features f ≡ true) result.experimental_features

pub all_of-All :
    {A : Type 0} (p : A → Bool) (l : List A) → all_of p l ≡ true → All (λ a. p a ≡ true) l
all_of-All p [] h = tt
all_of-All p (a ∷ l) h = ground (arith, all_of-All p l)

-- What the tests of one capability settle.
provided-known :
    (roles : List Bytes) (c : CapabilityDescriptor)
    → validate_provided roles c ≡ ok tt
    → (validate_descriptor c ≡ ok tt)
      × IfPresent (capability c.name) (λ known. equal_capability_definition c known ≡ true)
unfolding validate_provided
provided-known roles c h =
    let (valid, h) = check-bind-ok (validate_descriptor c) _ h in
    let (_, h) =
      reject_if-bind-ok (not (c.role == role_provider) && not (holds roles c.role)) _ _ h in
    (
      valid,
      if_present-ok (capability c.name) _
          (λ known same.
            not-eq-false _ (reject_if-eq-ok (not (equal_capability_definition c known)) _ same))
          h,
    )

-- Capabilities that were all checked, and one of their names.
checked-Provided :
    (roles : List Bytes) (l : List CapabilityDescriptor) (name : Bytes)
    → All (λ c. validate_provided roles c ≡ ok tt) l
    → any_of (λ (c : CapabilityDescriptor). c.name == name) l ≡ true
    → (c : CapabilityDescriptor) × (find_provided l name ≡ some c)
      × (validate_descriptor c ≡ ok tt)
      × IfPresent (capability name) (λ known. equal_capability_definition c known ≡ true)
unfolding find_provided
checked-Provided roles [] name a h = absurd (ground arith)
checked-Provided roles (c ∷ rest) name a h = elim (Bool-cases (c.name == name)) [
  | inl e ↦
      let (valid, known) = provided-known roles c a.0 in
      (
        c,
        rw e refl,
        valid,
        subst (λ n. IfPresent (capability n) (λ known. equal_capability_definition c known ≡ true))
            ((bytes_beq_iff c.name name).0 e) known,
      )
  | inr e ↦
      let (x, found, valid, known) = checked-Provided roles rest name a.1 (ground arith) in
      (x, rw e found, valid, known)
]

-- The capabilities of a manifest that was checked.
manifest-checked :
    (library : JsonLibrary) (m : ProviderManifest)
    → validate_manifest library m ≡ ok tt
    → All (λ c. validate_provided m.roles c ≡ ok tt) m.capabilities
unfolding validate_manifest validate_manifest_capabilities
manifest-checked library m h =
    let (_, h) = check-bind-ok (validate_protocol m.version_of_protocol) _ h in
    let (_, h) = check-bind-ok (validate_id m.id) _ h in
    let (_, h) = check-bind-ok (validate_roles m.roles) _ h in
    let (_, h) = check-bind-ok (validate_text 256 m.name) _ h in
    let (_, h) = check-bind-ok (validate_version m.version) _ h in
    let (_, h) = check-bind-ok (validate_executable m.executable) _ h in
    let (_, h) = reject_if-bind-ok (is_empty m.platforms || ltb 32 (length m.platforms)) _ _ h in
    let (_, h) =
      check-bind-ok
        (distinct_from (λ p. p) validate_platform "platform is duplicated" [] m.platforms) _ h in
    let (h, _) =
      check-bind-ok
        (validate_manifest_capabilities "capabilities are required" m.roles m.capabilities) _ h in
    let (_, h) =
      reject_if-bind-ok (is_empty m.capabilities || ltb 256 (length m.capabilities)) _ _ h in
    (distinct_from-Fresh (λ (c : CapabilityDescriptor). c.name) (validate_provided m.roles) _ []
      m.capabilities h).0

supported-Provided :
    (m : ProviderManifest) (names : List Bytes)
    → All (λ c. validate_provided m.roles c ≡ ok tt) m.capabilities
    → supports_all m names ≡ true
    → All (Provided m) names
unfolding supports Provided
supported-Provided m [] a h = tt
supported-Provided m (name ∷ rest) a h =
    let (first, others) = and-eq-true (supports m name) (all_of (supports m) rest) h in
    (checked-Provided m.roles m.capabilities name a first, supported-Provided m rest a others)

sizes-fit : (message chunk : ℕ) → validate_sizes message chunk ≡ ok tt → chunk ≤ message
unfolding validate_sizes
sizes-fit message chunk h =
    let (_, h) = reject_if-bind-ok (eqb message 0 || ltb max_message_bytes message) _ _ h in
    let (_, h) = reject_if-bind-ok (eqb chunk 0 || ltb max_terminal_chunk_bytes chunk) _ _ h in
    let fits = reject_if-eq-ok (ltb message chunk) _ h in ground arith

-- What is read off the answer alone.
result-checked :
    (library : JsonLibrary) (r : ProviderInitializeResult)
    → validate_result library r ≡ ok tt
    → (r.version ≡ protocol_version)
      × All (λ c. validate_provided r.manifest.roles c ≡ ok tt) r.manifest.capabilities
      × (r.maximum_chunk_bytes ≤ r.maximum_message_bytes)
unfolding validate_result validate_sizes validate_protocol
result-checked library r h =
    let (version, h) = check-bind-ok (validate_protocol r.version) _ h in
    let (checked, h) = check-bind-ok (validate_manifest library r.manifest) _ h in
    let (_, h) = check-bind-ok (validate_native_version r.native_runtime_version) _ h in
    let (sizes, _) =
      check-bind-ok (validate_sizes r.maximum_message_bytes r.maximum_chunk_bytes) _ h in
    (
      (bytes_beq_iff r.version protocol_version).0
          (not-eq-false _ (reject_if-eq-ok (not (r.version == protocol_version)) _ version)),
      manifest-checked library r.manifest checked,
      sizes-fit r.maximum_message_bytes r.maximum_chunk_bytes sizes,
    )

-- An accepted negotiation: the answer is in the one version of the protocol and the gateway offered
-- it, the provider runs on the gateway's platform, every required capability is listed and, if the
-- protocol knows it, with the protocol's metadata; neither size is above the offer and a chunk fits
-- a message, and replay, the mode of authentication and every feature were offered.
pub validate_provider_negotiation-Compatible :
    (library : JsonLibrary) (request : ProviderInitializeRequest)
    (result : ProviderInitializeResult)
    → validate_provider_negotiation library request result ≡ ok tt
    → Compatible request result
unfolding validate_provider_negotiation
validate_provider_negotiation-Compatible library request result h =
    let (_, h) =
      check-bind-ok
        (or_else (validate_request request) (plain "provider initialization request is invalid")) _
        h in
    let (valid, h) =
      check-bind-ok
        (or_else (validate_result library result)
          (plain "provider initialization result is invalid"))
        _ h in
    let (version, checked, fits) =
      result-checked library result (or_else-eq-ok (validate_result library result) _ valid) in
    let (offered, h) =
      reject_if-bind-ok (not (holds request.supported_protocol_versions result.version)) _ _ h in
    let (platform, h) =
      reject_if-bind-ok (not (holds result.manifest.platforms request.platform)) _ _ h in
    let (supported, h) =
      reject_if-bind-ok (not (supports_all result.manifest request.required_capabilities)) _ _ h in
    let (limits, h) =
      reject_if-bind-ok
        (ltb request.maximum_message_bytes result.maximum_message_bytes
          || ltb request.maximum_chunk_bytes result.maximum_chunk_bytes)
        _ _ h in
    let (replay, h) =
      reject_if-bind-ok (result.replay_supported && not request.replay_supported) _ _ h in
    let (mode, h) =
      reject_if-bind-ok (not (holds request.authentication_modes result.authentication_mode)) _ _
        h in
    let features =
      reject_if-eq-ok
        (not (all_of (holds request.experimental_features) result.experimental_features)) _ h in
    record {
      version = version;
      offered =
          subst (λ v. holds request.supported_protocol_versions v ≡ true) version
            (not-eq-false _ offered);
      platform = not-eq-false _ platform;
      provided =
          supported-Provided result.manifest request.required_capabilities checked
            (not-eq-false _ supported);
      messages = ground arith;
      chunks = ground arith;
      chunk_fits = fits;
      replay = replay;
      mode = not-eq-false _ mode;
      features =
          all_of-All (holds request.experimental_features) result.experimental_features
            (not-eq-false _ features);
    }
