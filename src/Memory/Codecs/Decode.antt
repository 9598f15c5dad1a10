-- ===== src/Memory/Codecs/Decode.antt =====
-- What `RecordCodecRegistry.decode` of src/arema/memory/codecs.py does after any registrations.
use arema.Prelude.{
  ℕ, ◌-◌, ◌<◌, String, true, ◌≡◌, sym, ap, ◌∙◌, inl, inr, Option, none, some, List, [], ◌∷◌,
  eq_refl, arith, ltb, drop, length, Bool-cases, if◌then◌else◌,
}
use arema.Prelude.Json.{Fields}
use arema.Memory.Models.{MemoryEnvelope, err, codec_registration}
use arema.Memory.Codecs.{
  RecordCodec, Chain, ChainKey, RecordCodecRegistry, no_codecs, key_eq, chain_of, put_chain,
  version_of, max_version, or_empty, registration_allowed, register, raw, empty_chain, validated,
  finish, decode, decode_chain,
}
use arema.Memory.Codecs.Chains.{
  register_all, register_all-AllNumbered, no_codecs-AllNumbered, chain_of-Numbered,
  max_version-length, upgrade_all, walk-eq, entry,
}

key_refl : (k : ChainKey) → key_eq k k ≡ true
key_refl k = simp eq_refl

chain_of-put_chain :
    (k : ChainKey) (chain : Chain) (cs : List (ChainKey × Chain))
    → chain_of k (put_chain k chain cs) ≡ some chain
unfolding chain_of put_chain
chain_of-put_chain k chain [] = rw (key_refl k)
chain_of-put_chain k chain ((j, old) ∷ cs) = elim (Bool-cases (key_eq j k)) [
  | inl e ↦ rw e (rw e)
  | inr e ↦ rw e (rw e (chain_of-put_chain k chain cs))
]

register_refused :
    (codec : RecordCodec) (reg : RecordCodecRegistry)
    → (register codec reg).0 ≡ err codec_registration
    → (register codec reg).1.chains
      ≡ put_chain
          (codec.namespace, codec.kind)
          (or_empty (chain_of (codec.namespace, codec.kind) reg.chains))
          reg.chains
unfolding register
register_refused codec reg h =
    elim (Bool-cases (
      registration_allowed reg (or_empty (chain_of (codec.namespace, codec.kind) reg.chains))
        codec)) [ inl e ↦ cc (rw e at h) | inr e ↦ rw e ]

module _ {Model : Type 0} (model_validate : String → Fields → Option Model) where
  -- After any registrations, refused ones included, an envelope of a chain that has a codec decodes
  -- without a missing version or upgrade: one newer than the chain comes back raw, and any other is
  -- put through the upgrades above its version, in order, and validated by the newest codec.
  pub decode_upgrades :
      (codecs : List RecordCodec) (envelope : MemoryEnvelope) (c : ℕ × RecordCodec) (cs : Chain)
      → chain_of (envelope.namespace, envelope.kind) (register_all codecs no_codecs).chains
        ≡ some (c ∷ cs)
      → 0 < envelope.schema_version
      → (newest : RecordCodec) × (version_of (max_version (c ∷ cs)) (c ∷ cs) ≡ some newest)
        × (decode model_validate (register_all codecs no_codecs) envelope ≡ (
            if ltb (max_version (c ∷ cs)) envelope.schema_version
            then raw envelope
            else validated (
                model_validate newest.payload_type
                  (upgrade_all (drop envelope.schema_version (c ∷ cs)) envelope.payload))))
  unfolding decode
  decode_upgrades codecs envelope c cs h p =
      let reg = register_all codecs no_codecs in
      let chain = c ∷ cs in
      let numbered =
        chain_of-Numbered (envelope.namespace, envelope.kind) reg.chains chain
          (register_all-AllNumbered codecs no_codecs no_codecs-AllNumbered) h in
      let top = max_version-length chain numbered in
      let x = entry 1 (length cs) chain numbered (omega arith) in
      let newest : version_of (max_version chain) chain ≡ some x.codec =
        ap (λ k. version_of k chain) (top ∙ omega arith) ∙ x.found in
      (
        x.codec,
        newest,
        rw h (elim (Bool-cases (ltb (max_version chain) envelope.schema_version)) [
          | inl e ↦ rw e
          | inr e ↦ rw e (
              walk-eq model_validate (max_version chain - envelope.schema_version)
                envelope.schema_version chain envelope.payload numbered p (ground (arith, top))
              ∙ ap
                  (λ o.
                    finish model_validate o
                      (upgrade_all (drop envelope.schema_version chain) envelope.payload))
                  (ap (λ k. version_of k chain) (sym top) ∙ newest))
        ]),
      )

  -- A codec that is refused under a fresh (namespace, kind) turns the envelopes of that pair, which
  -- passed through raw before, into a failing decode: `max` of an empty chain.
  pub refused_codec_breaks_decode :
      (reg : RecordCodecRegistry) (codec : RecordCodec) (envelope : MemoryEnvelope)
      → chain_of (codec.namespace, codec.kind) reg.chains ≡ none
      → envelope.namespace ≡ codec.namespace
      → envelope.kind ≡ codec.kind
      → (register codec reg).0 ≡ err codec_registration
      → (decode model_validate reg envelope ≡ raw envelope)
        × (decode model_validate (register codec reg).1 envelope ≡ empty_chain)
  unfolding decode
  refused_codec_breaks_decode reg codec envelope fresh n k refused =
      let key : ChainKey = (codec.namespace, codec.kind) in
      let same : ◌≡◌ {A = ChainKey} (envelope.namespace, envelope.kind) key = λ i. (n i, k i) in
      let left : chain_of key (register codec reg).1.chains ≡ some [] =
        ap (chain_of key) (register_refused codec reg refused)
        ∙ chain_of-put_chain key (or_empty (chain_of key reg.chains)) reg.chains
        ∙ ap (λ o. some (or_empty o)) fresh in
      (
        ap (λ o. decode_chain model_validate o envelope)
            (ap (λ j. chain_of j reg.chains) same ∙ fresh),
        ap (λ o. decode_chain model_validate o envelope)
            (ap (λ j. chain_of j (register codec reg).1.chains) same ∙ left),
      )
