-- ===== src/Memory/Codecs.antt =====
-- src/arema/memory/codecs.py: `RecordCodecRegistry`. A Pydantic class is named by its `__name__`, and a
-- payload is a value with its class and what `model_dump(mode="json")` makes of it.
pub mod Chains
pub mod Decode
use arema.Prelude.{
  ℕ, zero, suc, ◌+◌, ◌-◌, ◌<◌, String, Bool, true, false, ◌&&◌, not, Option, none, some, List, [],
  ◌∷◌, ◌++◌, ◌==◌, leb, ltb, eqb, max, if◌then◌else◌,
}
use arema.Prelude.Dict.{Dict, lookup, insert, has, is_some}
use arema.Prelude.Json.{Fields}
use arema.Memory.Models.{
  Instant, MemoryEnvelope, MemoryError, store_error, codec_registration, Result, ok, err, ◌>>=◌,
}

pub record RecordCodec : Type 0 where
  pub namespace : String
  pub kind : String
  pub schema_version : ℕ
  pub payload_type : String
  pub upgrade_from_previous : Option (Fields → Fields)

-- One `(namespace, kind)` chain: versions in the order in which they were registered.
abbrev pub Chain : Type 0
Chain = List (ℕ × RecordCodec)

abbrev pub ChainKey : Type 0
ChainKey = String × String

pub record RecordCodecRegistry : Type 0 where
  pub chains : List (ChainKey × Chain)
  pub by_payload_type : Dict RecordCodec

unfoldable pub no_codecs : RecordCodecRegistry
no_codecs = record { chains = []; by_payload_type = [] }

abbrev pub key_eq : ChainKey → ChainKey → Bool
key_eq a b = a.0 == b.0 && a.1 == b.1

unfoldable pub chain_of : ChainKey → List (ChainKey × Chain) → Option Chain
chain_of k [] = none
chain_of k ((j, chain) ∷ rest) = if key_eq j k then some chain else chain_of k rest

unfoldable pub put_chain : ChainKey → Chain → List (ChainKey × Chain) → List (ChainKey × Chain)
put_chain k chain [] = (k, chain) ∷ []
put_chain k chain ((j, old) ∷ rest) =
    if key_eq j k then (j, chain) ∷ rest else (j, old) ∷ put_chain k chain rest

unfoldable pub version_of : ℕ → Chain → Option RecordCodec
version_of v [] = none
version_of v ((w, codec) ∷ chain) = if eqb w v then some codec else version_of v chain

-- `max(chain)` where the chain is not empty
unfoldable pub max_version : Chain → ℕ
max_version [] = 0
max_version ((w, codec) ∷ chain) = max w (max_version chain)

abbrev pub or_empty : Option Chain → Chain
or_empty none = []
or_empty (some chain) = chain

-- The checks of `register`, in order; `chain` is what `setdefault` returned.
unfoldable pub registration_allowed : RecordCodecRegistry → Chain → RecordCodec → Bool
registration_allowed reg chain codec =
    not (is_some (version_of codec.schema_version chain))
    && (eqb codec.schema_version (max_version chain + 1)
        && (not (eqb codec.schema_version 1 && is_some codec.upgrade_from_previous)
            && (not (ltb 1 codec.schema_version && not (is_some codec.upgrade_from_previous))
                && not (has codec.payload_type reg.by_payload_type))))

-- `setdefault` runs before the checks, so a refused codec can leave an empty chain behind.
unfoldable pub register :
    RecordCodec → RecordCodecRegistry → Result (Unit {0}) × RecordCodecRegistry
unfolding registration_allowed
register codec reg =
    let key : ChainKey = (codec.namespace, codec.kind) in
    let chain = or_empty (chain_of key reg.chains) in
    let reg' : RecordCodecRegistry = record reg { chains = put_chain key chain reg.chains } in
    if registration_allowed reg chain codec
    then (
      ok tt,
      record {
        chains = put_chain key (chain ++ (codec.schema_version, codec) ∷ []) reg'.chains;
        by_payload_type = insert codec.payload_type codec reg.by_payload_type;
      },
    )
    else (err codec_registration, reg')

pub record Payload : Type 0 where
  pub payload_type : String
  pub dumped : Fields

-- What the interpreter and its libraries supply to a new envelope.
pub record Minting : Type 0 where
  pub id : String
  pub now : Instant
  pub content_hash : Fields → String

encode_with :
    Option RecordCodec → Minting → Payload → String → String → Fields → Result MemoryEnvelope
encode_with none m payload scope_id source metadata = err codec_registration
encode_with (some codec) m payload scope_id source metadata = ok (record {
  id = m.id;
  scope_id = scope_id;
  namespace = codec.namespace;
  kind = codec.kind;
  schema_version = codec.schema_version;
  revision = 1;
  source = source;
  payload = payload.dumped;
  metadata = metadata;
  content_hash = m.content_hash payload.dumped;
  created_at = m.now;
  updated_at = m.now;
  expires_at = none;
})

unfoldable pub encode :
    RecordCodecRegistry → Minting → Payload → String → String → Fields → Result MemoryEnvelope
unfolding encode_with
encode reg m payload scope_id source metadata =
    encode_with (lookup payload.payload_type reg.by_payload_type) m payload scope_id source metadata

-- How a decode can end. `empty_chain` is the ValueError of `max({})`, `missing` the KeyError of
-- `chain[version]`, and `invalid` the ValidationError of the model.
pub data Decoded (Model : Type 0) : Type 0 where
  model : Model → Decoded Model
  raw : MemoryEnvelope → Decoded Model
  empty_chain missing no_upgrade invalid : Decoded Model

unfoldable pub validated : {Model : Type 0} → Option Model → Decoded Model
validated none = invalid
validated (some m) = model m

module _ {Model : Type 0} (model_validate : String → Fields → Option Model) where
  unfoldable pub finish : Option RecordCodec → Fields → Decoded Model
  unfolding validated
  finish none payload = missing
  finish (some codec) payload = validated (model_validate codec.payload_type payload)

  apply_upgrade : Option (Fields → Fields) → Fields → (Fields → Decoded Model) → Decoded Model
  apply_upgrade none payload more = no_upgrade
  apply_upgrade (some upgrade) payload more = more (upgrade payload)

  upgrade_step : Option RecordCodec → Fields → (Fields → Decoded Model) → Decoded Model
  unfolding apply_upgrade
  upgrade_step none payload more = missing
  upgrade_step (some codec) payload more = apply_upgrade codec.upgrade_from_previous payload more

  -- The `while version < current_version` loop, over the versions that are left.
  unfoldable pub walk : ℕ → ℕ → Chain → Fields → Decoded Model
  unfolding upgrade_step finish
  walk zero version chain payload = finish (version_of version chain) payload
  walk (suc left) version chain payload =
      upgrade_step (version_of (suc version) chain) payload (λ p. walk left (suc version) chain p)

  decode_chain : Option Chain → MemoryEnvelope → Decoded Model
  unfolding walk
  decode_chain none envelope = raw envelope
  decode_chain (some []) envelope = empty_chain
  decode_chain (some (c ∷ cs)) envelope =
      let chain = c ∷ cs in
      let current_version = max_version chain in
      if ltb current_version envelope.schema_version
      then raw envelope
      else walk (current_version - envelope.schema_version) envelope.schema_version chain
          envelope.payload

  unfoldable pub decode : RecordCodecRegistry → MemoryEnvelope → Decoded Model
  unfolding decode_chain
  decode reg envelope =
      decode_chain (chain_of (envelope.namespace, envelope.kind) reg.chains) envelope
