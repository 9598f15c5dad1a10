-- ===== src/Memory/Codecs/Chains.antt =====
-- The version chains of src/arema/memory/codecs.py, and what a decode makes of them.
use arema.Prelude.{
  ℕ, zero, suc, ◌+◌, ◌≤◌, ◌<◌, String, true, false, ◌≡◌, refl, sym, ap, ◌∙◌, subst, inl, inr,
  Option, none, some, List, [], ◌∷◌, ◌++◌, arith, ltb, eqb, max, drop, length, Bool-cases,
  Option-cases,
}
use arema.Prelude.Dict.{is_some}
use arema.Prelude.Json.{Fields}
use arema.Memory.Codecs.{
  RecordCodec, Chain, ChainKey, RecordCodecRegistry, no_codecs, key_eq, chain_of, put_chain,
  version_of, max_version, or_empty, registration_allowed, register, Decoded, finish, walk,
  upgrade_step,
}

-- Versions n, n + 1, … in order; exactly those above 1 have an upgrade function.
abbrev pub Numbered : ℕ → Chain → Type 0
Numbered n [] = Unit
Numbered n ((v, codec) ∷ rest) =
    (v ≡ n)
    × (codec.schema_version ≡ n)
    × (is_some codec.upgrade_from_previous ≡ ltb 1 n)
    × Numbered (suc n) rest

abbrev pub AllNumbered : List (ChainKey × Chain) → Type 0
AllNumbered [] = Unit
AllNumbered ((k, chain) ∷ rest) = Numbered 1 chain × AllNumbered rest

Numbered-append :
    (n : ℕ) (chain : Chain) (codec : RecordCodec)
    → Numbered n chain
    → codec.schema_version ≡ n + length chain
    → is_some codec.upgrade_from_previous ≡ ltb 1 (n + length chain)
    → Numbered n (chain ++ (codec.schema_version, codec) ∷ [])
Numbered-append n [] codec h e u = ground arith
Numbered-append n ((v, c) ∷ chain) codec h e u = (
  h.0,
  h.1,
  h.2,
  Numbered-append (suc n) chain codec h.3 (omega arith) (u ∙ ap (ltb 1) (omega arith)),
)

max_version-Numbered :
    (n : ℕ) (chain : Chain) → Numbered (suc n) chain → max n (max_version chain) ≡ n + length chain
unfolding max_version
max_version-Numbered n [] h = omega arith
max_version-Numbered n ((v, c) ∷ chain) h = omega (arith, max_version-Numbered (suc n) chain h.3)

pub max_version-length : (chain : Chain) → Numbered 1 chain → max_version chain ≡ length chain
max_version-length chain h = omega (arith, max_version-Numbered 0 chain h)

AllNumbered-put_chain :
    (k : ChainKey) (chain : Chain) (cs : List (ChainKey × Chain))
    → Numbered 1 chain
    → AllNumbered cs
    → AllNumbered (put_chain k chain cs)
unfolding put_chain
AllNumbered-put_chain k chain [] h all = (h, tt)
AllNumbered-put_chain k chain ((j, old) ∷ cs) h all = elim (Bool-cases (key_eq j k)) [
  | inl e ↦ rw e (h, all.1)
  | inr e ↦ rw e (all.0, AllNumbered-put_chain k chain cs h all.1)
]

the : {a b : Chain} → some a ≡ some b → a ≡ b
the h = ground arith

pub chain_of-Numbered :
    (k : ChainKey) (cs : List (ChainKey × Chain)) (chain : Chain)
    → AllNumbered cs
    → chain_of k cs ≡ some chain
    → Numbered 1 chain
unfolding chain_of
chain_of-Numbered k [] chain all e = cc
chain_of-Numbered k ((j, c) ∷ cs) chain all e = elim (Bool-cases (key_eq j k)) [
  | inl p ↦ subst (Numbered 1) (the (rw p at e)) all.0
  | inr p ↦ chain_of-Numbered k cs chain all.1 (rw p at e)
]

or_empty-Numbered :
    (k : ChainKey) (cs : List (ChainKey × Chain))
    → AllNumbered cs
    → Numbered 1 (or_empty (chain_of k cs))
or_empty-Numbered k cs all = elim (Option-cases (chain_of k cs)) [
  | inl e ↦ rw e tt
  | inr (chain, e) ↦ rw e (chain_of-Numbered k cs chain all e)
]

allowed-facts :
    (reg : RecordCodecRegistry) (chain : Chain) (codec : RecordCodec)
    → registration_allowed reg chain codec ≡ true
    → (codec.schema_version ≡ max_version chain + 1)
      × (is_some codec.upgrade_from_previous ≡ ltb 1 codec.schema_version)
unfolding registration_allowed
allowed-facts reg chain codec h = ground arith

-- A registration, refused or not, keeps every chain numbered 1, 2, … with an upgrade function on
-- exactly the versions above 1.
pub register-AllNumbered :
    (codec : RecordCodec) (reg : RecordCodecRegistry)
    → AllNumbered reg.chains
    → AllNumbered (register codec reg).1.chains
unfolding register
register-AllNumbered codec reg h =
    let key : ChainKey = (codec.namespace, codec.kind) in
    let chain = or_empty (chain_of key reg.chains) in
    let old = or_empty-Numbered key reg.chains h in
    let set = AllNumbered-put_chain key chain reg.chains old h in
    let version : registration_allowed reg chain codec ≡ true
        → codec.schema_version ≡ 1 + length chain =
      λ e. omega (arith, (allowed-facts reg chain codec e).0, max_version-length chain old) in
    let upgrade : registration_allowed reg chain codec ≡ true
        → is_some codec.upgrade_from_previous ≡ ltb 1 (1 + length chain) =
      λ e. (allowed-facts reg chain codec e).1 ∙ ap (ltb 1) (version e) in
    elim (Bool-cases (registration_allowed reg chain codec)) [
      | inr e ↦ rw e set
      | inl e ↦ rw e (
          AllNumbered-put_chain key (chain ++ (codec.schema_version, codec) ∷ [])
            (put_chain key chain reg.chains)
            (Numbered-append 1 chain codec old (version e) (upgrade e)) set)
    ]

pub no_codecs-AllNumbered : AllNumbered no_codecs.chains
unfolding no_codecs
no_codecs-AllNumbered = tt

-- All registrations of a start-up, of which some may be refused.
abbrev pub register_all : List RecordCodec → RecordCodecRegistry → RecordCodecRegistry
register_all [] reg = reg
register_all (codec ∷ codecs) reg = register_all codecs (register codec reg).1

pub register_all-AllNumbered :
    (codecs : List RecordCodec) (reg : RecordCodecRegistry)
    → AllNumbered reg.chains
    → AllNumbered (register_all codecs reg).chains
register_all-AllNumbered [] reg h = h
register_all-AllNumbered (codec ∷ codecs) reg h =
    register_all-AllNumbered codecs (register codec reg).1 (register-AllNumbered codec reg h)

-- The entry of version n + i.
pub record Entry (n i : ℕ) (chain : Chain) : Type 0 where
  pub codec : RecordCodec
  pub found : version_of (n + i) chain ≡ some codec
  pub upgrades : is_some codec.upgrade_from_previous ≡ ltb 1 (n + i)
  pub suffix : drop i chain ≡ (n + i, codec) ∷ drop (suc i) chain

pub entry : (n i : ℕ) (chain : Chain) → Numbered n chain → i < length chain → Entry n i chain
unfolding version_of
entry n i [] h l = elim l [ ]
entry n zero ((v, c) ∷ chain) h l = record {
  codec = c;
  found = ground arith;
  upgrades = h.2 ∙ ap (ltb 1) (omega arith);
  suffix = ground arith;
}
entry n (suc i) ((v, c) ∷ chain) h l =
    let rest = entry (suc n) i chain h.3 (omega arith) in
    let shift : suc n + i ≡ n + suc i = omega arith in
    let miss : eqb v (n + suc i) ≡ false = ground arith in
    record {
      codec = rest.codec;
      found = rw miss (ap (λ k. version_of k chain) (sym shift) ∙ rest.found);
      upgrades = rest.upgrades ∙ ap (ltb 1) shift;
      suffix = rest.suffix ∙ ap (λ k. (k, rest.codec) ∷ drop (suc i) chain) shift;
    }

abbrev pub upgraded : Option (Fields → Fields) → Fields → Fields
upgraded none payload = payload
upgraded (some f) payload = f payload

-- The upgrades of the given versions, one after another.
abbrev pub upgrade_all : Chain → Fields → Fields
upgrade_all [] payload = payload
upgrade_all ((v, codec) ∷ chain) payload =
    upgrade_all chain (upgraded codec.upgrade_from_previous payload)

drop_all : (n : ℕ) (chain : Chain) → length chain ≤ n → drop n chain ≡ []
drop_all zero [] h = refl
drop_all (suc n) [] h = refl
drop_all zero (c ∷ chain) h = absurd (omega arith)
drop_all (suc n) (c ∷ chain) h = drop_all n chain (omega arith)

no_upgrade_above :
    (version : ℕ) (codec : RecordCodec)
    → 0 < version
    → codec.upgrade_from_previous ≡ none
    → is_some codec.upgrade_from_previous ≡ ltb 1 (1 + version)
    → ⊥
no_upgrade_above version codec p u e = ground arith

module _ {Model : Type 0} (model_validate : String → Fields → Option Model) where
  upgrade_step-eq :
      (o : Option RecordCodec) (c : RecordCodec) (f : Fields → Fields) (payload : Fields)
      (more : Fields → Decoded Model)
      → o ≡ some c
      → c.upgrade_from_previous ≡ some f
      → upgrade_step model_validate o payload more ≡ more (f payload)
  unfolding upgrade_step
  upgrade_step-eq o c f payload more h k = rw h (rw k)

  pub walk-eq :
      (left version : ℕ) (chain : Chain) (payload : Fields)
      → Numbered 1 chain
      → 0 < version
      → length chain ≡ version + left
      → walk model_validate left version chain payload
        ≡ finish model_validate
            (version_of (length chain) chain)
            (upgrade_all (drop version chain) payload)
  unfolding walk
  walk-eq zero version chain payload h p e =
      rw (drop_all version chain (omega arith))
        (ap (λ k. finish model_validate (version_of k chain) payload) (omega arith))
  walk-eq (suc left) version chain payload h p e =
      let x = entry 1 version chain h (omega arith) in
      let found : version_of (suc version) chain ≡ some x.codec =
        ap (λ k. version_of k chain) (omega arith) ∙ x.found in
      elim (Option-cases x.codec.upgrade_from_previous) [
        | inl u ↦ absurd (no_upgrade_above version x.codec p u x.upgrades)
        | inr (f, u) ↦
            upgrade_step-eq (version_of (suc version) chain) x.codec f payload
              (λ q. walk model_validate left (suc version) chain q) found u
            ∙ walk-eq left (suc version) chain (f payload) h (omega arith) (omega arith)
            ∙ ap (finish model_validate (version_of (length chain) chain)) (
                sym (
                  ap (λ l. upgrade_all l payload) x.suffix
                  ∙ ap (λ o. upgrade_all (drop (suc version) chain) (upgraded o payload)) u))
      ]
