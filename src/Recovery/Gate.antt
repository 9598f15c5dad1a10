-- ===== src/Recovery/Gate.antt =====
-- src/reverse_engineering/agents/deobf_gate.py: the rule that ends the deobfuscation loop. An exception is
-- `none`.
pub mod Outcomes
pub mod Evidence
pub mod Summary
pub mod Targets
pub mod Facts
pub mod Decide
pub mod Kept
pub mod Turn
pub mod Undecided
pub mod Decided
pub mod Loop
pub mod Reread
pub mod Raises
use arema.Prelude.{
  append_one, ℕ, String, Bool, true, false, Option, none, some, List, [], ◌∷◌, ◌++◌, ltb, length,
  contains, if◌then◌else◌,
}
use arema.Prelude.Json.{Json, Fields}
use arema.Evidence.Envelope.Parse.{Readers}

-- What the gate calls: the readers of an envelope, `json.dumps` with sorted keys and without, `str` of
-- a value, and the SHA-256 of a record's JSON.
pub record GateTools : Type 0 where
  pub readers : Readers
  pub sorted_dumps : Json → String
  pub compact_dumps : Json → String
  pub py_str : Json → String
  pub fingerprint : Json → String

pub data ToolStatus : Type 0 where
  success non_applicable degraded : ToolStatus

pub record ToolOutcome : Type 0 where
  pub status : ToolStatus
  pub error_code : String
  pub changed : Bool
  pub new_count : ℕ
  pub records : List Fields

abbrev pub skipped : ToolOutcome
skipped = record {
  status = non_applicable;
  error_code = "";
  changed = false;
  new_count = 0;
  records = [];
}

abbrev pub degraded_with : String → ToolOutcome
degraded_with reason = record skipped { status = degraded; error_code = reason }

abbrev pub status_name : ToolStatus → String
status_name success = "success"
status_name non_applicable = "non_applicable"
status_name degraded = "degraded"

abbrev pub is_degraded : ToolStatus → Bool
is_degraded degraded = true
is_degraded status = false

abbrev pub is_success : ToolStatus → Bool
is_success success = true
is_success status = false

-- `_stable_append`
abbrev pub stable_append : List String → String → ℕ → List String
stable_append items value maximum =
    if contains items value
    then items
    else if ltb (length items) maximum
    then items ++ (value ∷ [])
    else items

-- One after the other.
abbrev pub stable_extend : List String → List String → ℕ → List String
stable_extend items [] maximum = items
stable_extend items (v ∷ values) maximum =
    stable_extend (stable_append items v maximum) values maximum
