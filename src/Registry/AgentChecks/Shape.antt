-- ===== src/Registry/AgentChecks/Shape.antt =====
-- What `_validate_agent` of src/arema/registry/catalog.py accepts.
use arema.Prelude.{
  String, Bool, true, false, ◌≡◌, ◌≢◌, refl, ap, sym, ◌∙◌, inl, inr, Option, none, some, List, [],
  ◌∷◌, ◌==◌, eq_iff, arith, contains, Bool-cases, if◌then◌else◌,
}
use arema.Prelude.{is_blank}
use arema.Registry.Descriptors.{
  AgentKind, auto, llm, composite, deterministic, AgentDescriptor, Checked, ok, err, ◌>>=◌,
}
use arema.Registry.AgentChecks.{
  refuse, refuse_if, require_non_empty, validate_string_tuple, is_set, is_filled,
  effective_agent_kind, require_prompt, validate_kind, validate_agent, require_if_set,
  validate_metadata,
}

-- A check that passes before another is one of two that pass.
pub passed : (r t : Checked (Unit {0})) → (r >>= λ _. t) ≡ ok tt → (r ≡ ok tt) × (t ≡ ok tt)
passed (ok _) t h = (refl, h)
passed (err e) t h = absurd (clash h)
  where
    clash : err e ≡ ok tt → ⊥
    clash x = cc

refuse_if-false : (b : Bool) → refuse_if b ≡ ok tt → b ≡ false
refuse_if-false true h = cc
refuse_if-false false h = refl

is_filled-nil : (xs : List String) → refuse_if (is_filled xs) ≡ ok tt → xs ≡ []
is_filled-nil [] h = refl
is_filled-nil (x ∷ xs) h = cc

is_set-none : (o : Option String) → refuse_if (is_set o) ≡ ok tt → o ≡ none
is_set-none none h = refl
is_set-none (some s) h = cc

-- No id is listed twice, and none is blank.
abbrev pub IsDistinct : List String → Type 0
IsDistinct [] = Unit
IsDistinct (x ∷ xs) = (is_blank x ≡ false) × (contains xs x ≡ false) × IsDistinct xs

-- What each kind of agent looks like.
abbrev pub HasShape : AgentKind → AgentDescriptor → Type 0
HasShape auto agent = ⊥
HasShape llm agent = (prompt : String) × (agent.prompt_id ≡ some prompt) × (is_blank prompt ≡ false)
HasShape composite agent =
    (agent.prompt_id ≡ none)
    × (agent.tool_ids ≡ [])
    × (agent.mcp_server_ids ≡ [])
    × (agent.output_key ≡ none)
    × (agent.sub_agent_ids ≢ [])
HasShape deterministic agent =
    (agent.prompt_id ≡ none)
    × (agent.has_prompt_loader ≡ false)
    × (agent.tool_ids ≡ [])
    × (agent.mcp_server_ids ≡ [])
    × (agent.output_key ≡ none)
    × (agent.sub_agent_ids ≡ [])

-- The three checks of the first id of a list that is accepted.
module _ (x : String) (values seen : List String)
    (h : validate_string_tuple (x ∷ values) seen ≡ ok tt) where
  later : (refuse_if (contains seen x) >>= λ _. validate_string_tuple values (x ∷ seen)) ≡ ok tt
  unfolding validate_string_tuple
  later =
      (passed (require_non_empty x)
        (refuse_if (contains seen x) >>= λ _. validate_string_tuple values (x ∷ seen)) h).1

  first_filled : is_blank x ≡ false
  unfolding validate_string_tuple
  first_filled =
      refuse_if-false (is_blank x)
        (passed (require_non_empty x)
          (refuse_if (contains seen x) >>= λ _. validate_string_tuple values (x ∷ seen)) h).0

  first_new : contains seen x ≡ false
  first_new =
      refuse_if-false (contains seen x)
        (passed (refuse_if (contains seen x)) (validate_string_tuple values (x ∷ seen)) later).0

  others : validate_string_tuple values (x ∷ seen) ≡ ok tt
  others = (passed (refuse_if (contains seen x)) (validate_string_tuple values (x ∷ seen)) later).1

tuple-apart :
    (values seen : List String) (v : String)
    → validate_string_tuple values seen ≡ ok tt
    → contains values v ≡ true
    → contains seen v ≡ false
tuple-apart [] seen v h m = cc
tuple-apart (x ∷ values) seen v h m = elim (Bool-cases (x == v)) [
  | inl q ↦ ap (contains seen) (sym ((eq_iff x v).0 q)) ∙ first_new x values seen h
  | inr q ↦ ground (arith, tuple-apart values (x ∷ seen) v (others x values seen h) (rw q at m))
]

pub tuple-IsDistinct :
    (values seen : List String) → validate_string_tuple values seen ≡ ok tt → IsDistinct values
tuple-IsDistinct [] seen h = tt
tuple-IsDistinct (x ∷ values) seen h = (
  first_filled x values seen h,
  once,
  tuple-IsDistinct values (x ∷ seen) (others x values seen h),
)
  where
    once : contains values x ≡ false
    once = elim (Bool-cases (contains values x)) [
      | inl q ↦
          absurd (clash (sym itself ∙ tuple-apart values (x ∷ seen) x (others x values seen h) q))
      | inr q ↦ q
    ]
      where
        clash : true ≡ false → ⊥
        clash y = cc

        itself : contains (x ∷ seen) x ≡ true
        itself = ground (arith, eq_iff x x)

kind-HasShape :
    (kind : AgentKind) (agent : AgentDescriptor)
    → validate_kind kind agent ≡ ok tt
    → HasShape kind agent
kind-HasShape auto agent h = cc
kind-HasShape llm agent h = by_prompt agent.prompt_id h
  where
    by_prompt :
        (o : Option String)
        → require_prompt o ≡ ok tt
        → (p : String) × (o ≡ some p) × (is_blank p ≡ false)
    by_prompt none h = cc
    by_prompt (some p) h = (p, refl, refuse_if-false (is_blank p) h)
kind-HasShape composite agent h =
    let (prompt, h1) = passed _ _ h in
    let (tools, h2) = passed _ _ h1 in
    let (servers, h3) = passed _ _ h2 in
    let (output, subs) = passed _ _ h3 in
    (
      is_set-none _ prompt,
      is_filled-nil _ tools,
      is_filled-nil _ servers,
      is_set-none _ output,
      filled _ subs,
    )
  where
    filled : (xs : List String) → (if is_filled xs then ok tt else refuse) ≡ ok tt → xs ≢ []
    filled [] h x = cc
    filled (y ∷ ys) h x = cc
kind-HasShape deterministic agent h =
    let (prompt, h1) = passed _ _ h in
    let (loader, h2) = passed _ _ h1 in
    let (tools, h3) = passed _ _ h2 in
    let (servers, h4) = passed _ _ h3 in
    let (output, subs) = passed _ _ h4 in
    (
      is_set-none _ prompt,
      refuse_if-false _ loader,
      is_filled-nil _ tools,
      is_filled-nil _ servers,
      is_set-none _ output,
      is_filled-nil _ subs,
    )

-- An agent that is accepted has the shape of its kind: a model agent a prompt that is not blank, a
-- composite one sub-agents and no prompt, tool, server or output, a deterministic one none of these
-- and no prompt loader; and none of its three lists has a blank id or one id twice.
pub validate_agent-HasShape :
    (agent : AgentDescriptor)
    → validate_agent agent ≡ ok tt
    → HasShape (effective_agent_kind agent.kind agent.prompt_id) agent
      × IsDistinct agent.tool_ids
      × IsDistinct agent.mcp_server_ids
      × IsDistinct agent.sub_agent_ids
unfolding validate_agent
validate_agent-HasShape agent h =
    let (_, h1) = passed (require_non_empty agent.id) _ h in
    let (_, h2) = passed (require_non_empty agent.name) _ h1 in
    let (_, h3) = passed (require_non_empty agent.description) _ h2 in
    let (_, h4) = passed (require_non_empty agent.runtime_profile_id) _ h3 in
    let (_, h5) = passed (require_non_empty agent.version) _ h4 in
    let (kind, h6) =
      passed (validate_kind (effective_agent_kind agent.kind agent.prompt_id) agent) _ h5 in
    let (_, h7) = passed (if agent.factory_callable then ok tt else refuse) _ h6 in
    let (_, h8) = passed (require_if_set agent.output_key) _ h7 in
    let (tools, h9) = passed (validate_string_tuple agent.tool_ids []) _ h8 in
    let (servers, h10) = passed (validate_string_tuple agent.mcp_server_ids []) _ h9 in
    let (subs, _) =
      passed (validate_string_tuple agent.sub_agent_ids []) (validate_metadata agent.metadata)
        h10 in
    (
      kind-HasShape _ agent kind,
      tuple-IsDistinct _ [] tools,
      tuple-IsDistinct _ [] servers,
      tuple-IsDistinct _ [] subs,
    )
