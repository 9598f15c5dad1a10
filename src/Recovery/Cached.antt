-- ===== src/Recovery/Cached.antt =====
-- The validation of a cached tool result (`_valid_cached_result`) in src/reverse_engineering/tools/deobfuscation:
-- what upx.py, floss.py and dotnet.py share.
pub mod Upx
pub mod Floss
pub mod De4dot
use arema.Prelude.{
  ℕ, String, Bool, true, false, not, ◌&&◌, ◌||◌, Option, none, some, List, [], ◌∷◌, ◌++◌, ◌==◌,
  every, contains, if◌then◌else◌,
}
use arema.Prelude.Dict.{lookup, is_some}
use arema.Prelude.Json.{
  Json, null, bool, str, Fields, field_names, get_field, get_or_null, as_nat, as_bool, as_str,
}
use arema.Recovery.Plan.{is_artifact_id}

-- `raw[k] is True`, `raw[k] is False` and `isinstance(raw[k], bool)`
abbrev pub is_true : Json → Bool
is_true (bool b) = b
is_true v = false

abbrev pub is_false : Json → Bool
is_false (bool b) = not b
is_false v = false

abbrev pub is_bool : Json → Bool
is_bool v = is_some (as_bool v)

-- `_artifact_id`, `_nonempty_string` and `_nonnegative_int`
abbrev pub is_id : Json → Bool
is_id (str s) = is_artifact_id s
is_id v = false

abbrev pub is_nonempty_string : Json → Bool
is_nonempty_string (str s) = not (s == "")
is_nonempty_string v = false

abbrev pub is_nonnegative_int : Json → Bool
is_nonnegative_int v = is_some (as_nat v)

-- `raw.get(k) == text`
abbrev pub is_text : String → Json → Bool
is_text text (str s) = s == text
is_text text v = false

abbrev pub is_one_of : List String → Json → Bool
is_one_of texts (str s) = contains texts s
is_one_of texts v = false

-- `k not in raw or p(raw[k])`
abbrev pub absent_or : (Json → Bool) → Option Json → Bool
absent_or p none = true
absent_or p (some v) = p v

-- required <= set(raw) <= required | optional
abbrev pub has_between : List String → List String → Fields → Bool
has_between required optional raw =
    every (contains (field_names raw)) required
    && every (contains (required ++ optional)) (field_names raw)

-- An error code with its message.
abbrev pub is_error : List (String × String) → Json → Json → Bool
is_error messages (str reason) message = is_message (lookup reason messages)
  where
    is_message : Option String → Bool
    is_message none = false
    is_message (some expected) = is_text expected message
is_error messages v message = false
