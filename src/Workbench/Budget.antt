-- ===== src/Workbench/Budget.antt =====
-- src/reverse_engineering/tools/workbench/budget.py: the guard that runs before every tool call.
pub mod Bounds
pub mod Case
use arema.Prelude.{ℕ, String, Bool, true, false, Option, none, some, ◌==◌, if◌then◌else◌}
use Prim.Native.String.{◌++◌}
use arema.Prelude.Int.{ℤ, pos, ◌+ℤ◌, ◌-ℤ◌, leb_ℤ}
use arema.Prelude.Dict.{lookup, insert}
use arema.Prelude.Json.{
  Json, int, str, bool, obj, arr, null, float, Fields, end, field, as_int, get_field,
}
use arema.Workbench.State.{
  State, workbench_exec_count_key, workbench_max_executions, workbench_token_baseline_key,
  workbench_max_tokens, run_python_tool_name, model_usage_key,
}

-- v if isinstance(v, int) and not isinstance(v, bool)
abbrev pub or_zero : Option ℤ → ℤ
or_zero none = pos 0
or_zero (some n) = n

unfoldable pub sum_row : Fields → ℤ
sum_row end = pos 0
sum_row (field k v row) = or_zero (as_int v) +ℤ sum_row row

abbrev pub row_total : Json → ℤ
row_total (obj row) = sum_row row
row_total null = pos 0
row_total (bool b) = pos 0
row_total (int n) = pos 0
row_total (float s) = pos 0
row_total (str s) = pos 0
row_total (arr l) = pos 0

unfoldable pub sum_rows : Fields → ℤ
sum_rows end = pos 0
sum_rows (field k v rows) = row_total v +ℤ sum_rows rows

-- The rows when the value is a dict.
abbrev pub rows_of : Option Json → Fields
rows_of (some (obj rows)) = rows
rows_of none = end
rows_of (some null) = end
rows_of (some (bool b)) = end
rows_of (some (int n)) = end
rows_of (some (float s)) = end
rows_of (some (str s)) = end
rows_of (some (arr l)) = end

unfoldable pub tokens_spent : State → ℤ
tokens_spent state =
    sum_rows (rows_of (get_field "by_model" (rows_of (lookup model_usage_key state))))

abbrev pub exhausted_result : String → Json
exhausted_result reason = obj (
    field "exit_code" (int (pos 1)) (
      field "stdout" (str "") (
        field "stderr"
          (str (
            "run_python budget exhausted (" ++ reason
            ++ "); finalize the best artifact you have and report."))
          (field "truncated" (bool false) (field "spilled_artifact_id" (str "") end)))))

abbrev pub int_at : String → State → Option ℤ
int_at key state = int_of (lookup key state)
  where
    int_of : Option Json → Option ℤ
    int_of none = none
    int_of (some v) = as_int v

abbrev pub charge : ℤ → State → State
charge used state = insert workbench_exec_count_key (int (used +ℤ pos 1)) state

-- From `raw_baseline` on.
abbrev pub check_tokens : Option ℤ → ℤ → ℤ → State → Option Json × State
check_tokens none spent used state =
    (none, charge used (insert workbench_token_baseline_key (int spent) state))
check_tokens (some baseline) spent used state =
    if leb_ℤ workbench_max_tokens (spent -ℤ baseline)
    then (some (exhausted_result "16,000,000 tokens"), state)
    else (none, charge used state)

-- From `raw_used` on.
abbrev pub check_budget : State → Option Json × State
check_budget state =
    let used = or_zero (int_at workbench_exec_count_key state) in
    if leb_ℤ workbench_max_executions used
    then (some (exhausted_result "100 executions"), state)
    else check_tokens (int_at workbench_token_baseline_key state) (tokens_spent state) used state

-- `none` lets the tool run.
unfoldable pub run_python_budget_guard : String → State → Option Json × State
run_python_budget_guard tool_name state =
    if tool_name == run_python_tool_name then check_budget state else (none, state)
