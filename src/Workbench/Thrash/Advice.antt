-- ===== src/Workbench/Thrash/Advice.antt =====
-- When the advisor of src/reverse_engineering/tools/workbench/thrash.py speaks, over a whole case.
use arema.Prelude.{
  ℕ, suc, String, Bool, true, false, not, ◌&&◌, ◌||◌, ◌≡◌, refl, ap, sym, ◌∙◌, subst, inl, inr,
  none, some, List, [], ◌∷◌, ◌==◌, eq_iff, arith, Bool-cases, every, leb, if◌then◌else◌,
}
use arema.Prelude.Dict.{lookup, insert, lookup-insert}
use arema.Prelude.Json.{Json, Fields, get_field}
use arema.Workbench.State.{
  State, run_python_tool_name, thrash_signature_key, thrash_repeat_count_key, thrash_artifact_key,
  current_artifact_key,
}
use arema.Workbench.Thrash.{
  TextTools, int_or_zero, str_or_empty, thrash_signature, sync_artifact, count_signature,
  record_run_python_thrash, advise_on_thrash,
}
use arema.Workbench.Thrash.Streak.{
  Reads, sync_artifact-Reads, count_signature-Reads, sync_artifact-current, count_signature-current,
  insert-Reads,
}

-- A tool has run with its arguments and response, or other code has written a key of the state.
pub data Outcome : Type 0 where
  ran : String → Fields → Fields → Outcome
  wrote : String → Json → Outcome

-- Other code leaves the three keys of the detector alone.
abbrev pub is_foreign : Outcome → Bool
is_foreign (ran name args response) = true
is_foreign (wrote key v) =
    not (
      key == thrash_artifact_key || (key == thrash_signature_key || key == thrash_repeat_count_key))

-- A run of `run_python`: the artifact it worked on and its signature, `""` where it succeeded.
abbrev pub Run : Type 0
Run = String × String

-- How many of the runs, the newest first, failed on one artifact with one signature in a row.
unfoldable pub alike : String → String → List Run → ℕ
alike artifact signature [] = 0
alike artifact signature ((b, t) ∷ past) =
    let older = alike artifact signature past in
    if artifact == b && signature == t then suc older else 0

abbrev pub streak : List Run → ℕ
streak [] = 0
streak ((artifact, signature) ∷ past) =
    if signature == "" then 0 else suc (alike artifact signature past)

abbrev pub last_artifact : List Run → String
last_artifact [] = ""
last_artifact ((artifact, signature) ∷ past) = artifact

abbrev pub last_signature : List Run → String
last_signature [] = ""
last_signature ((artifact, signature) ∷ past) = signature

-- The count that the monitor keeps is the streak.
next_streak :
    (past : List Run) (c g : String)
    → (if g == ""
        then 0
        else if g == (if c == last_artifact past then last_signature past else "")
        then suc (if c == last_artifact past then streak past else 0)
        else 1)
      ≡ streak ((c, g) ∷ past)
unfolding alike
next_streak [] c g = ground arith
next_streak ((a, s) ∷ past) c g = elim (Bool-cases (c == a)) [
  | inr q ↦ ground arith
  | inl q ↦ elim (Bool-cases (g == s)) [
    | inr p ↦ ground arith
    | inl p ↦
        rw (q, p)
          (ground (
            arith,
            ap (λ x. x == "") ((eq_iff g s).0 p),
            ap (λ x. alike x g past) ((eq_iff c a).0 q),
            ap (λ x. alike a x past) ((eq_iff g s).0 p),
          ))
  ]
]

module _ (tools : TextTools) where
  abbrev pub step : Outcome → State → State
  step (ran name args response) state = record_run_python_thrash tools name args response state
  step (wrote key v) state = insert key v state

  unfoldable pub after : List Outcome → State → State
  after [] state = state
  after (e ∷ events) state = after events (step e state)

  abbrev pub signature_of : Fields → Fields → String
  signature_of args response =
      thrash_signature tools (str_or_empty (get_field "code" args)) (get_field "exit_code" response)
        (str_or_empty (get_field "stderr" response))

  -- The runs of `run_python`, the newest first, and the artifact that is current.
  unfoldable pub runs : List Outcome → String → List Run → List Run
  runs [] current past = past
  runs (ran name args response ∷ events) current past =
      runs events current (
        if name == run_python_tool_name then (current, signature_of args response) ∷ past else past)
  runs (wrote key v ∷ events) current past =
      runs events (if key == current_artifact_key then str_or_empty (some v) else current) past

  -- The state reads as the runs so far and the current artifact.
  abbrev Tracks : State → String → List Run → Type 0
  Tracks state current past =
      (str_or_empty (lookup current_artifact_key state) ≡ current)
      × Reads state (last_artifact past) (last_signature past) (streak past)

  record-Tracks :
      (name : String) (args response : Fields) (state : State) (current : String) (past : List Run)
      → (name == run_python_tool_name) ≡ true
      → Tracks state current past
      → Tracks
          (record_run_python_thrash tools name args response state)
          current
          ((current, signature_of args response) ∷ past)
  unfolding record_run_python_thrash
  record-Tracks name args response state c past q (e, h) = rw q (
    ap str_or_empty (count_signature-current g (sync_artifact state) ∙ sync_artifact-current state)
        ∙ e,
    subst (λ n. Reads (count_signature g (sync_artifact state)) c g n) (next_streak past c g)
        (count_signature-Reads (sync_artifact state) _ c _ g
          (sync_artifact-Reads state _ _ _ c h e)),
  )
    where
      g : String
      g = signature_of args response

  record-other :
      (name : String) (args response : Fields) (state : State)
      → (name == run_python_tool_name) ≡ false
      → record_run_python_thrash tools name args response state ≡ state
  unfolding record_run_python_thrash
  record-other name args response state q = rw q refl

  -- From a state that reads as the runs so far.
  advise-streak :
      (events : List Outcome) (state : State) (current : String) (past : List Run)
      → Tracks state current past
      → every is_foreign events ≡ true
      → advise_on_thrash (after events state) ≡ leb 3 (streak (runs events current past))
  unfolding after runs advise_on_thrash
  advise-streak [] state current past (e, h) f = rw h.2 (ground arith)
  advise-streak (wrote key v ∷ events) state current past (e, h) f =
      advise-streak events (insert key v state) _ past
        (moved, insert-Reads state key v _ _ _ first h) rest
    where
      first : is_foreign (wrote key v) ≡ true
      first = ground arith

      rest : every is_foreign events ≡ true
      rest = ground arith

      moved :
          str_or_empty (lookup current_artifact_key (insert key v state))
          ≡ (if key == current_artifact_key then str_or_empty (some v) else current)
      moved = elim (Bool-cases (key == current_artifact_key)) [
        | inl q ↦ rw (lookup-insert key current_artifact_key v state, q) refl
        | inr q ↦ rw (lookup-insert key current_artifact_key v state, q) e
      ]
  advise-streak (ran name args response ∷ events) state current past h f =
      elim (Bool-cases (name == run_python_tool_name)) [
        | inl q ↦ rw q (
            advise-streak events (record_run_python_thrash tools name args response state) current
              ((current, signature_of args response) ∷ past)
              (record-Tracks name args response state current past q h) f)
        | inr q ↦ rw q (
            subst
              (λ t. advise_on_thrash (after events t) ≡ leb 3 (streak (runs events current past)))
              (sym (record-other name args response state q))
              (advise-streak events state current past h f))
      ]

  -- In a case that starts without the keys of the detector and in which other code does not write them,
  -- whatever tools run and whatever the current artifact becomes: the advisor speaks exactly when the
  -- newest runs of `run_python`, at least three of them, all failed with one signature on one artifact.
  pub advise_exact :
      (events : List Outcome) (state : State)
      → lookup thrash_artifact_key state ≡ none
      → lookup thrash_signature_key state ≡ none
      → lookup thrash_repeat_count_key state ≡ none
      → every is_foreign events ≡ true
      → advise_on_thrash (after events state)
        ≡ leb 3 (streak (runs events (str_or_empty (lookup current_artifact_key state)) []))
  advise_exact events state x y z f =
      advise-streak events state _ []
        (refl, (ap str_or_empty x, ap str_or_empty y, ap int_or_zero z)) f
