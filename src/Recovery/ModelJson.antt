-- ===== src/Recovery/ModelJson.antt =====
-- src/reverse_engineering/model_json.py. A `ValueError` is `none`.
use arema.Prelude.{
  ℕ, String, Bool, true, false, ◌||◌, Option, none, some, ◌==◌, ltb, strip, text_length,
  if◌then◌else◌,
}
use arema.Prelude.Json.{Json, str}

infixl 10 ◌>>=◌
abbrev pub ◌>>=◌ {ℓ κ} : {A : Type ℓ} {B : Type κ} → Option A → (A → Option B) → Option B
none >>= f = none
some a >>= f = f a

-- What is made, if anything is, satisfies a predicate.
abbrev pub Given {ℓ κ} : {A : Type ℓ} → (A → Type κ) → Option A → Type κ
Given P none = Unit
Given P (some a) = P a

pub bind-Given {ℓ κ μ ν} :
    {A : Type ℓ} {B : Type κ} (Q : A → Type μ) (P : B → Type ν) (o : Option A) (f : A → Option B)
    → Given Q o
    → ((a : A) → Q a → Given P (f a))
    → Given P (o >>= f)
bind-Given Q P none f g h = tt
bind-Given Q P (some a) f g h = h a g

pub made {ℓ} : {A : Type ℓ} (o : Option A) → Given (λ _. Unit {0}) o
made none = tt
made (some a) = tt

-- `raise ValueError` unless the test holds
abbrev pub require : Bool → Option (Unit {0})
require true = some tt
require false = none

-- The body that `_FENCE_RE` matches, `json.loads` with `_reject_json_constant`, `json_repair` and
-- `json.dumps`.
pub record JsonTools : Type 0 where
  pub fence_body : String → Option String
  pub loads : String → Option Json
  pub repair_json : String → String
  pub dumps : Json → String

abbrev pub max_model_json_chars : ℕ
max_model_json_chars = 67780116

module _ (tools : JsonTools) where
  abbrev pub unfenced : Option String → String → String
  unfenced none text = strip text
  unfenced (some body) text = strip body

  abbrev pub strip_code_fence : String → String
  strip_code_fence text = unfenced (tools.fence_body text) text

  abbrev pub repaired : Option Json → String → Option Json
  repaired (some v) text = some v
  repaired none text = if text == "" || text == "\"\"" then none else tools.loads text

  -- A text: its length is bounded, then it is decoded, strictly or after a repair.
  abbrev pub loads_text : ℕ → String → Option Json
  loads_text max_chars raw =
      if ltb max_chars (text_length raw)
      then none
      else repaired (tools.loads (strip_code_fence raw)) (tools.repair_json (strip_code_fence raw))

  unfoldable pub loads_model_json : ℕ → Json → Option Json
  loads_model_json max_chars (str raw) = loads_text max_chars raw
  loads_model_json max_chars v = some v
