-- ===== src/Workbench/Thrash.antt =====
-- src/reverse_engineering/tools/workbench/thrash.py: the monitor that runs after every tool call and
-- the advisor that runs before every model call.
pub mod Streak
pub mod Advice
use Prim.Native.String.{◌++◌}
use arema.Prelude.{
  ℕ, zero, suc, String, Bool, true, false, Option, none, some, List, [], ◌∷◌, ◌==◌, if◌then◌else◌,
}
use arema.Prelude.Int.{ℤ, pos, negsuc, ◌+ℤ◌, ltb_ℤ}
use arema.Prelude.Dict.{lookup, insert}
use arema.Prelude.Json.{Json, int, str, as_int, as_str, Fields, get_field}
use arema.Workbench.State.{
  State, run_python_tool_name, thrash_signature_key, thrash_repeat_count_key, thrash_artifact_key,
  thrash_strike_threshold, current_artifact_key,
}

-- Python's `re`, `hashlib` and text methods: re.search, the matches of `_EXCEPTION_RE`, the first
-- line that is not blank (`""` where there is none), and blake2s with four bytes in hexadecimal.
pub record TextTools : Type 0 where
  pub search : String → String → Bool
  pub exceptions : String → List String
  pub first_line : String → String
  pub digest : String → String

abbrev pub approach_patterns : List (String × String)
approach_patterns =
    ("de4dot", "\\bde4dot\\b")
    ∷ ("ilspycmd", "\\bilspycmd\\b")
    ∷ ("dotnet-script", "\\bdotnet[-_ ]script\\b")
    ∷ ("mono", "\\bmono\\b")
    ∷ ("radare2", "\\b(?:radare2|r2pipe|r2)\\b")
    ∷ []

abbrev pub last_of : List String → Option String
last_of [] = none
last_of (m ∷ []) = some m
last_of (m ∷ n ∷ ms) = last_of (n ∷ ms)

-- `_int` and `_str`
abbrev pub int_or_zero : Option Json → ℤ
int_or_zero none = pos 0
int_or_zero (some v) = nonnegative (as_int v)
  where
    nonnegative : Option ℤ → ℤ
    nonnegative none = pos 0
    nonnegative (some (pos n)) = pos n
    nonnegative (some (negsuc n)) = pos 0

abbrev pub str_or_empty : Option Json → String
str_or_empty none = ""
str_or_empty (some v) = or_empty (as_str v)
  where
    or_empty : Option String → String
    or_empty none = ""
    or_empty (some s) = s

-- exit_code if it is an int and no bool, else 1
abbrev pub exit_of : Option Json → ℤ
exit_of none = pos 1
exit_of (some v) = or_one (as_int v)
  where
    or_one : Option ℤ → ℤ
    or_one none = pos 1
    or_one (some n) = n

-- A new artifact clears the streak.
unfoldable pub sync_artifact : State → State
sync_artifact state =
    let current = str_or_empty (lookup current_artifact_key state) in
    if current == str_or_empty (lookup thrash_artifact_key state)
    then state
    else insert thrash_repeat_count_key (int (pos 0))
        (insert thrash_signature_key (str "") (insert thrash_artifact_key (str current) state))

unfoldable pub count_signature : String → State → State
count_signature signature state =
    if signature == ""
    then insert thrash_repeat_count_key (int (pos 0)) (insert thrash_signature_key (str "") state)
    else if signature == str_or_empty (lookup thrash_signature_key state)
    then insert thrash_repeat_count_key
        (int (int_or_zero (lookup thrash_repeat_count_key state) +ℤ pos 1)) state
    else insert thrash_repeat_count_key (int (pos 1))
        (insert thrash_signature_key (str signature) state)

module _ (tools : TextTools) where
  unfoldable pub approach_of : List (String × String) → String → String
  approach_of [] code = "python"
  approach_of ((label, pattern) ∷ rest) code =
      let other = approach_of rest code in if tools.search pattern code then label else other

  unfoldable pub classify_approach : String → String
  classify_approach code = approach_of approach_patterns code

  abbrev pub failure_of_line : String → String
  failure_of_line line = if line == "" then "nonzero_exit" else "err:" ++ tools.digest line

  abbrev pub failure_of : Option String → String → String
  failure_of (some m) stderr = m
  failure_of none stderr = failure_of_line (tools.first_line stderr)

  abbrev pub failure_at : ℤ → String → String
  failure_at (pos zero) stderr = ""
  failure_at (pos (suc n)) stderr = failure_of (last_of (tools.exceptions stderr)) stderr
  failure_at (negsuc n) stderr = failure_of (last_of (tools.exceptions stderr)) stderr

  unfoldable pub classify_failure : Option Json → String → String
  classify_failure exit_code stderr = failure_at (exit_of exit_code) stderr

  unfoldable pub thrash_signature : String → Option Json → String → String
  thrash_signature code exit_code stderr =
      let failure = classify_failure exit_code stderr in
      if failure == "" then "" else classify_approach code ++ "|" ++ failure

  -- The state after the monitor, which always answers None.
  unfoldable pub record_run_python_thrash : String → Fields → Fields → State → State
  record_run_python_thrash tool_name args response state =
      if tool_name == run_python_tool_name
      then count_signature
          (thrash_signature (str_or_empty (get_field "code" args)) (get_field "exit_code" response)
            (str_or_empty (get_field "stderr" response)))
          (sync_artifact state)
      else state

-- Whether the advisor adds its directive to the request.
unfoldable pub advise_on_thrash : State → Bool
advise_on_thrash state =
    if ltb_ℤ (int_or_zero (lookup thrash_repeat_count_key state)) thrash_strike_threshold
    then false
    else true
