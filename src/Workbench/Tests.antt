-- ===== src/Workbench/Tests.antt =====
-- The guard of src/reverse_engineering/tools/workbench/budget.py on a short case.
use arema.Prelude.{String, true, false, leb, ◌≡◌, refl, List, [], ◌∷◌}
use arema.Prelude.Int.{ℤ, pos, ◌+ℤ◌, ◌-ℤ◌}
use arema.Prelude.Dict.{lookup, insert}
use arema.Prelude.Json.{Json, int, str, obj, end, field, get_field}
use arema.Workbench.State.{State, current_artifact_key, model_usage_key}
use arema.Workbench.Budget.{run_python_budget_guard, tokens_spent, sum_rows, sum_row}
use arema.Workbench.Budget.Bounds.{Event, call, write, spends}
use arema.Workbench.Budget.Case.{Bounded, spends-Bounded}
use arema.Workbench.Thrash.{
  TextTools, str_or_empty, approach_of, classify_approach, classify_failure, thrash_signature,
  sync_artifact, count_signature, record_run_python_thrash, advise_on_thrash,
}
use arema.Workbench.Thrash.Advice.{Outcome, ran, wrote, after, runs, streak, advise_exact}

abbrev usage : ℤ → Json
usage n = obj (field "by_model" (obj (field "model" (obj (field "input" (int n) end)) end)) end)

-- A script, a cheap tool, a script, and one after the tokens have run out.
abbrev case_events : List Event
case_events =
    write model_usage_key (usage (pos 500))
    ∷ call "run_python"
    ∷ call "radare2"
    ∷ write model_usage_key (usage (pos 16000499))
    ∷ call "run_python"
    ∷ write model_usage_key (usage (pos 16000500))
    ∷ call "run_python"
    ∷ []

case_spends : spends case_events [] ≡ pos 500 ∷ pos 16000499 ∷ []
unfolding spends run_python_budget_guard tokens_spent sum_rows sum_row lookup insert get_field ◌+ℤ◌
    ◌-ℤ◌
case_spends = refl

spends-Bounded_example : Bounded (spends case_events [])
unfolding lookup
spends-Bounded_example = spends-Bounded case_events [] refl refl refl

-- Text tools that see no pattern, find no exception and take a line as it is.
abbrev plain_tools : TextTools
plain_tools = record {
  search = λ pattern code. false;
  exceptions = λ stderr. [];
  first_line = λ stderr. stderr;
  digest = λ line. line;
}

abbrev failed : String → Outcome
failed stderr =
    ran "run_python" (field "code" (str "go()") end)
      (field "exit_code" (int (pos 1)) (field "stderr" (str stderr) end))

-- Two failures alike, a move to a new artifact, and three failures alike.
abbrev runs_of_case : List Outcome
runs_of_case =
    failed "x"
    ∷ failed "x"
    ∷ wrote current_artifact_key (str "layer2")
    ∷ failed "x"
    ∷ failed "x"
    ∷ ran "radare2" end end
    ∷ failed "x"
    ∷ []

abbrev started : State
started = (current_artifact_key, str "layer1") ∷ []

advice_given : advise_on_thrash (after plain_tools runs_of_case started) ≡ true
unfolding after record_run_python_thrash sync_artifact count_signature thrash_signature
    classify_failure classify_approach approach_of lookup insert get_field ◌+ℤ◌ advise_on_thrash
advice_given = refl

advise_exact_example :
    advise_on_thrash (after plain_tools runs_of_case started)
    ≡ leb 3 (
        streak
          (runs plain_tools runs_of_case (str_or_empty (lookup current_artifact_key started)) []))
unfolding lookup
advise_exact_example = advise_exact plain_tools runs_of_case started refl refl refl refl
