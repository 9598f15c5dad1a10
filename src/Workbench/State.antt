-- ===== src/Workbench/State.antt =====
-- src/reverse_engineering/tools/workbench/state.py, and the keys of src/arema/runtime/sessions.py and
-- src/reverse_engineering/tools/deobfuscation/state.py that the workbench reads.
use arema.Prelude.{String}
use arema.Prelude.Int.{ℤ, pos}
use arema.Prelude.Dict.{Dict}
use arema.Prelude.Json.{Json}

-- ADK's session state, read with `get` and written with `__setitem__`.
abbrev pub State : Type 0
State = Dict Json

abbrev pub workbench_exec_count_key : String
workbench_exec_count_key = "workbench:exec_count"

abbrev pub workbench_max_executions : ℤ
workbench_max_executions = pos 100

abbrev pub workbench_token_baseline_key : String
workbench_token_baseline_key = "workbench:token_baseline"

abbrev pub workbench_max_tokens : ℤ
workbench_max_tokens = pos 16000000

abbrev pub run_python_tool_name : String
run_python_tool_name = "run_python"

abbrev pub model_usage_key : String
model_usage_key = "_runtime:model_usage"

abbrev pub thrash_signature_key : String
thrash_signature_key = "workbench:thrash_signature"

abbrev pub thrash_repeat_count_key : String
thrash_repeat_count_key = "workbench:thrash_repeats"

abbrev pub thrash_artifact_key : String
thrash_artifact_key = "workbench:thrash_artifact"

abbrev pub thrash_strike_threshold : ℤ
thrash_strike_threshold = pos 3

abbrev pub current_artifact_key : String
current_artifact_key = "deobf:current_artifact_id"
