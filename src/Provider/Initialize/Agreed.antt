-- ===== src/Provider/Initialize/Agreed.antt =====
-- An answer to an initialization keeps to the offer of the gateway and to the server's configuration.
use mission_control_edge.Common.{
  ◌≤◌, ◌≡◌, ◌⊎◌, ap, refl, sym, subst, inl, inr, true, false, ◌&&◌, ◌||◌, not, Option, none, some,
  List, [], ◌∷◌, ltb, all_of, arith, Bool-cases, not-eq-false, true-not-false, ◌==◌, bytes_eq,
  bytes_beq_iff, Bytes, All, Outcome, ok, err, or_else, check-bind-ok, bind-eq-ok,
  reject_if-bind-ok, reject_if-eq-ok, or_else-eq-ok, is_ok, ◌∙◌,
}
use mission_control_edge.Protocol.Error.{GoError, invalid_argument, conflict}
use mission_control_edge.Protocol.Signed.{protocol_version}
use mission_control_edge.Protocol.Distinct.{holds}
use mission_control_edge.Protocol.Terminal.{max_terminal_chunk_bytes}
use mission_control_edge.Protocol.Manifest.{ProviderManifest}
use mission_control_edge.Protocol.Manifest.Negotiation.{
  ProviderInitializeRequest, ProviderInitializeResult, validate_request,
  validate_provider_negotiation,
}
use mission_control_edge.Protocol.Manifest.Compatible.{
  Compatible, all_of-All, validate_provider_negotiation-Compatible,
}
use mission_control_edge.Provider.RpcError.{sdk_error}
use mission_control_edge.Provider.Initialize.{
  ServerConfig, Initializer, manifest_capabilities, require_all, choose_authentication,
  choose_features, same_encoding, validate_custom_negotiation, built_in_result, finish_custom,
  finish_built_in, finish_initialize, initialize, Negotiated, begin_initialization,
  prepare_initialization, execute_initialize,
}

-- The manifest of the answer is the one of the configuration, or at least has the same encoding, where
-- both have one.
abbrev pub SameManifest : (ProviderManifest → Option Bytes) → (a b : ProviderManifest) → Type 0
SameManifest marshal a b = (a ≡ b) ⊎ ((e : Bytes) × (marshal a ≡ some e) × (marshal b ≡ some e))

-- What the server is configured to announce and to allow.
pub record Within (i : Initializer) (config : ServerConfig) (result : ProviderInitializeResult)
    : Type 0 where
  pub manifest : SameManifest i.marshal result.manifest config.manifest
  pub messages : result.maximum_message_bytes ≤ config.max_envelope_bytes
  pub chunks : result.maximum_chunk_bytes ≤ max_terminal_chunk_bytes
  pub mode : holds config.authentication_modes result.authentication_mode ≡ true
  pub replay : (result.replay_supported && not config.replay_supported) ≡ false
  pub features : All (λ f. holds config.experimental_features f ≡ true) result.experimental_features

ok-injective :
    {a b : ProviderInitializeResult}
    → ◌≡◌ {A = Outcome GoError ProviderInitializeResult} (ok a) (ok b)
    → a ≡ b
ok-injective h = cc

same_encoding-some :
    (a b : Option Bytes) → same_encoding a b ≡ true → (e : Bytes) × (a ≡ some e) × (b ≡ some e)
same_encoding-some none b h = absurd (true-not-false (sym h))
same_encoding-some (some a) none h = absurd (true-not-false (sym h))
same_encoding-some (some a) (some b) h = (a, refl, ap some (sym ((bytes_beq_iff a b).0 h)))

holds-head : (m : Bytes) (rest : List Bytes) → holds (m ∷ rest) m ≡ true
unfolding holds
holds-head m rest = ground (arith, bytes_beq_iff m m)

holds-tail : (m x : Bytes) (rest : List Bytes) → holds rest x ≡ true → holds (m ∷ rest) x ≡ true
unfolding holds
holds-tail m x rest h = ground arith

choose-first :
    (offered : List Bytes) (m : Bytes) (rest : List Bytes)
    → holds offered m ≡ true
    → choose_authentication offered (m ∷ rest) ≡ m
unfolding choose_authentication
choose-first offered m rest h = rw h refl

choose-later :
    (offered : List Bytes) (m : Bytes) (rest : List Bytes)
    → holds offered m ≡ false
    → choose_authentication offered (m ∷ rest) ≡ choose_authentication offered rest
unfolding choose_authentication
choose-later offered m rest h = rw h refl

choose_authentication-holds :
    (offered modes : List Bytes)
    → (choose_authentication offered modes == []) ≡ false
    → holds modes (choose_authentication offered modes) ≡ true
unfolding choose_authentication holds
choose_authentication-holds offered [] h = absurd (true-not-false h)
choose_authentication-holds offered (m ∷ rest) h = elim (Bool-cases (holds offered m)) [
  | inl e ↦
      subst (λ x. holds (m ∷ rest) x ≡ true) (sym (choose-first offered m rest e))
        (holds-head m rest)
  | inr e ↦
      let later = choose-later offered m rest e in
      subst (λ x. holds (m ∷ rest) x ≡ true) (sym later)
        (holds-tail m _ rest
          (choose_authentication-holds offered rest (subst (λ x. (x == []) ≡ false) later h)))
]

choose_features-All :
    (offered features known : List Bytes)
    → ((f : Bytes) → holds features f ≡ true → holds known f ≡ true)
    → All (λ f. holds known f ≡ true) (choose_features offered features)
unfolding choose_features
choose_features-All offered [] known h = tt
choose_features-All offered (f ∷ rest) known h =
    let later = choose_features-All offered rest known (λ g k. h g (holds-tail f g rest k)) in
    elim (Bool-cases (holds offered f)) [
      | inl e ↦ rw e (h f (holds-head f rest), later)
      | inr e ↦ rw e later
    ]

custom-Within :
    (i : Initializer) (config : ServerConfig) (request : ProviderInitializeRequest)
    (dispatched : Outcome GoError ProviderInitializeResult) (result : ProviderInitializeResult)
    → finish_custom i config request dispatched ≡ ok result
    → (validate_provider_negotiation i.library request result ≡ ok tt) × Within i config result
unfolding finish_custom validate_custom_negotiation
custom-Within i config request dispatched result h =
    let (r, same, h) = bind-eq-ok dispatched _ h in
    let (valid, h) =
      check-bind-ok
        (or_else (validate_provider_negotiation i.library request r) (sdk_error invalid_argument)) _
        h in
    let (custom, h) = check-bind-ok (validate_custom_negotiation i.marshal config r) _ h in
    let (manifests, custom) =
      reject_if-bind-ok (not (same_encoding (i.marshal r.manifest) (i.marshal config.manifest))) _ _
        custom in
    let (sizes, custom) =
      reject_if-bind-ok
        (ltb config.max_envelope_bytes r.maximum_message_bytes
          || ltb max_terminal_chunk_bytes r.maximum_chunk_bytes)
        _ _ custom in
    let (mode, custom) =
      reject_if-bind-ok (not (holds config.authentication_modes r.authentication_mode)) _ _
        custom in
    let (replay, custom) =
      reject_if-bind-ok (r.replay_supported && not config.replay_supported) _ _ custom in
    let features =
      reject_if-eq-ok (not (all_of (holds config.experimental_features) r.experimental_features)) _
        custom in
    let within : Within i config r = record {
      manifest = inr (
          same_encoding-some (i.marshal r.manifest) (i.marshal config.manifest)
            (not-eq-false _ manifests));
      messages = ground arith;
      chunks = ground arith;
      mode = not-eq-false _ mode;
      replay = replay;
      features =
          all_of-All (holds config.experimental_features) r.experimental_features
            (not-eq-false _ features);
    } in
    let same_result = ok-injective h in
    subst (λ x. (validate_provider_negotiation i.library request x ≡ ok tt) × Within i config x)
      same_result
      (or_else-eq-ok (validate_provider_negotiation i.library request r) _ valid, within)

built_in-Within :
    (i : Initializer) (config : ServerConfig) (request : ProviderInitializeRequest)
    (result : ProviderInitializeResult)
    → finish_built_in i config request ≡ ok result
    → (validate_provider_negotiation i.library request result ≡ ok tt) × Within i config result
unfolding finish_built_in built_in_result
built_in-Within i config request result h =
    let mode = choose_authentication request.authentication_modes config.authentication_modes in
    let (chosen, h) = reject_if-bind-ok (mode == []) _ _ h in
    let (valid, h) =
      check-bind-ok
        (or_else
          (validate_provider_negotiation i.library request (built_in_result config request mode))
          (sdk_error invalid_argument))
        _ h in
    let within : Within i config (built_in_result config request mode) = record {
      manifest = inl refl;
      messages = omega arith;
      chunks = omega arith;
      mode =
          choose_authentication-holds request.authentication_modes config.authentication_modes
            chosen;
      replay = ground arith;
      features =
          choose_features-All request.experimental_features config.experimental_features
            config.experimental_features (λ f k. k);
    } in
    subst (λ x. (validate_provider_negotiation i.library request x ≡ ok tt) × Within i config x)
      (ok-injective h)
      (
        or_else-eq-ok
            (validate_provider_negotiation i.library request (built_in_result config request mode))
            _ valid,
        within,
      )

finish_initialize-Within :
    (i : Initializer) (config : ServerConfig) (request : ProviderInitializeRequest)
    (custom : Option (Outcome GoError ProviderInitializeResult)) (result : ProviderInitializeResult)
    → finish_initialize i config request custom ≡ ok result
    → (validate_provider_negotiation i.library request result ≡ ok tt) × Within i config result
unfolding finish_initialize
finish_initialize-Within i config request none result h = built_in-Within i config request result h
finish_initialize-Within i config request (some d) result h =
    custom-Within i config request d result h

initialize-Within :
    (i : Initializer) (config : ServerConfig) (request : ProviderInitializeRequest)
    (result : ProviderInitializeResult)
    → initialize i config request ≡ ok result
    → (validate_provider_negotiation i.library request result ≡ ok tt) × Within i config result
unfolding initialize
initialize-Within i config request result h =
    let (_, h) =
      check-bind-ok (or_else (validate_request request) (sdk_error invalid_argument)) _ h in
    let (_, h) =
      reject_if-bind-ok (not (holds request.supported_protocol_versions protocol_version)) _ _ h in
    let (_, h) =
      check-bind-ok
        (require_all config.manifest (manifest_capabilities config.manifest)
          request.required_capabilities)
        _ h in
    finish_initialize-Within i config request i.custom result h

err-not-ok :
    {e : GoError} {a : ProviderInitializeResult}
    → ¬ (◌≡◌ {A = Outcome GoError ProviderInitializeResult} (err e) (ok a))
err-not-ok h = cc

execute-busy :
    (i : Initializer) (config : ServerConfig) (c : Negotiated) (request : ProviderInitializeRequest)
    → (c.initialized || c.initializing) ≡ true
    → (execute_initialize i config c request).1 ≡ err (sdk_error conflict)
unfolding execute_initialize begin_initialization
execute-busy i config c request busy = rw (execute_initialize, begin_initialization, busy) refl

execute-idle :
    (i : Initializer) (config : ServerConfig) (c : Negotiated) (request : ProviderInitializeRequest)
    → (c.initialized || c.initializing) ≡ false
    → (execute_initialize i config c request).1 ≡ initialize i config request
unfolding execute_initialize begin_initialization
execute-idle i config c request idle = elim (Bool-cases (is_ok (initialize i config request))) [
  | inl good ↦ rw (execute_initialize, begin_initialization, idle, good) refl
  | inr bad ↦ rw (execute_initialize, begin_initialization, idle, bad) refl
]

execute-parts :
    (i : Initializer) (config : ServerConfig) (c : Negotiated) (request : ProviderInitializeRequest)
    (result : ProviderInitializeResult)
    → (execute_initialize i config c request).1 ≡ ok result
    → ((c.initialized || c.initializing) ≡ false) × (initialize i config request ≡ ok result)
unfolding execute_initialize begin_initialization
execute-parts i config c request result h = elim (Bool-cases (c.initialized || c.initializing)) [
  | inl busy ↦ absurd (err-not-ok (sym (execute-busy i config c request busy) ∙ h))
  | inr idle ↦ (idle, sym (execute-idle i config c request idle) ∙ h)
]

-- Whatever the connection's state: an initialization is answered without error only if none was done
-- or begun; the answer then passes the gateway's own check of the negotiation, is compatible with its
-- offer, announces the configured manifest, or one with the same encoding, and keeps to the sizes,
-- modes, replay and features of the server's configuration; and the sizes that the connection works with are
-- within both the offer and the configuration, whether the caller has a handler of its own or not.
pub execute_initialize-Agreed :
    (i : Initializer) (config : ServerConfig) (c : Negotiated) (request : ProviderInitializeRequest)
    (result : ProviderInitializeResult)
    → (execute_initialize i config c request).1 ≡ ok result
    → ((c.initialized || c.initializing) ≡ false)
      × (validate_provider_negotiation i.library request result ≡ ok tt)
      × Compatible request result
      × Within i config result
      × ((prepare_initialization config result).maximum ≤ config.max_envelope_bytes)
      × ((prepare_initialization config result).maximum ≤ request.maximum_message_bytes)
      × ((prepare_initialization config result).maximum_chunk ≤ request.maximum_chunk_bytes)
unfolding prepare_initialization
execute_initialize-Agreed i config c request result h =
    let (idle, answered) = execute-parts i config c request result h in
    let (valid, within) = initialize-Within i config request result answered in
    let compatible = validate_provider_negotiation-Compatible i.library request result valid in
    (
      idle,
      valid,
      compatible,
      within,
      omega arith,
      omega (arith, compatible.messages),
      compatible.chunks,
    )
