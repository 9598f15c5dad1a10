-- ===== src/Registry/ToolChecks/Accepted.antt =====
-- What `_validate_tool` of src/arema/registry/catalog.py accepts.
use arema.Prelude.{
  Bool, true, false, ◌≡◌, ◌⊎◌, refl, inl, inr, Option, none, some, List, [], every, if◌then◌else◌,
}
use arema.Prelude.Int.{ℤ, pos, leb_ℤ}
use arema.Registry.Descriptors.{CatalogError, invalid_tool_descriptor, Checked, ok, err}
use arema.Registry.AgentChecks.{require_non_empty, validate_string_tuple, validate_metadata}
use arema.Registry.AgentChecks.Shape.{passed, IsDistinct, tuple-IsDistinct}
use arema.Registry.ToolChecks.{
  ToolDescriptor, raising, require_positive_integer, validate_callbacks, validate_output_policy,
  validate_tool_callbacks, validate_source, validate_tool,
}

raising-ok : (e : CatalogError) (r : Checked (Unit {0})) → raising e r ≡ ok tt → r ≡ ok tt
raising-ok e (ok _) h = refl
raising-ok e (err _) h = cc

positive :
    (e : CatalogError) (n : ℤ) → require_positive_integer e n ≡ ok tt → leb_ℤ n (pos 0) ≡ false
positive e n h = by (leb_ℤ n (pos 0)) h
  where
    by : (b : Bool) → (if b then err e else ok tt) ≡ ok tt → b ≡ false
    by true h = cc
    by false h = refl

all_callable :
    (e : CatalogError) (l : List Bool) → validate_callbacks e l ≡ ok tt → every (λ c. c) l ≡ true
all_callable e l h = by (every (λ c. c) l) h
  where
    by : (b : Bool) → (if b then ok tt else err e) ≡ ok tt → b ≡ true
    by true h = refl
    by false h = cc

one_source :
    (tool factory : Option Bool)
    → validate_source tool factory ≡ ok tt
    → ((tool ≡ some true) × (factory ≡ none)) ⊎ ((tool ≡ none) × (factory ≡ some true))
one_source none none h = cc
one_source (some t) (some f) h = cc
one_source (some true) none h = inl (refl, refl)
one_source (some false) none h = cc
one_source none (some true) h = inr (refl, refl)
one_source none (some false) h = cc

-- A tool that is accepted has exactly one of a concrete tool and a factory, and it is usable; its
-- output bounds are positive; its field and codec lists have no blank entry and none twice; and every
-- callback can be called.
pub validate_tool-accepted :
    (t : ToolDescriptor)
    → validate_tool t ≡ ok tt
    → (((t.tool ≡ some true) × (t.factory ≡ none)) ⊎ ((t.tool ≡ none) × (t.factory ≡ some true)))
      × (leb_ℤ t.output_policy.max_chars (pos 0) ≡ false)
      × (leb_ℤ t.output_policy.max_list_items (pos 0) ≡ false)
      × IsDistinct t.output_policy.drop_fields
      × IsDistinct t.output_policy.preserve_fields
      × IsDistinct t.memory_codec_ids
      × (every (λ c. c) t.callbacks.before ≡ true)
      × (every (λ c. c) t.callbacks.after ≡ true)
      × (every (λ c. c) t.callbacks.on_error ≡ true)
      × (every (λ c. c) t.callbacks.memory ≡ true)
unfolding validate_tool
validate_tool-accepted t h =
    let e = invalid_tool_descriptor in
    let (_, h1) = passed (raising e (require_non_empty t.id)) _ h in
    let (_, h2) = passed (raising e (require_non_empty t.description)) _ h1 in
    let (_, h3) = passed (raising e (require_non_empty t.version)) _ h2 in
    let (source, h4) = passed (validate_source t.tool t.factory) _ h3 in
    let (policy, h5) = passed (validate_output_policy t.output_policy) _ h4 in
    let (codecs, h6) = passed (raising e (validate_string_tuple t.memory_codec_ids [])) _ h5 in
    let (callbacks, _) =
      passed (validate_tool_callbacks t.callbacks) (raising e (validate_metadata t.metadata)) h6 in
    let (chars, p1) = passed (require_positive_integer e t.output_policy.max_chars) _ policy in
    let (items, p2) = passed (require_positive_integer e t.output_policy.max_list_items) _ p1 in
    let (dropped, preserved) =
      passed (raising e (validate_string_tuple t.output_policy.drop_fields [])) _ p2 in
    let (before, c1) = passed (validate_callbacks e t.callbacks.before) _ callbacks in
    let (after, c2) = passed (validate_callbacks e t.callbacks.after) _ c1 in
    let (on_error, memory) = passed (validate_callbacks e t.callbacks.on_error) _ c2 in
    (
      one_source _ _ source,
      positive e t.output_policy.max_chars chars,
      positive e t.output_policy.max_list_items items,
      tuple-IsDistinct _ [] (raising-ok e _ dropped),
      tuple-IsDistinct _ [] (raising-ok e _ preserved),
      tuple-IsDistinct _ [] (raising-ok e _ codecs),
      all_callable e t.callbacks.before before,
      all_callable e t.callbacks.after after,
      all_callable e t.callbacks.on_error on_error,
      all_callable e t.callbacks.memory memory,
    )
