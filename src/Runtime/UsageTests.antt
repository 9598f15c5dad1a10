-- ===== src/Runtime/UsageTests.antt =====
-- Three calls of a run after another run's (src/arema/runtime/token_usage.py).
use arema.Prelude.{ℕ, ◌+◌, max, String, ◌≡◌, ◌≢◌, ◌⊎◌, refl, Option, none, some, List, [], ◌∷◌}
use arema.Prelude.Dict.{lookup, insert}
use arema.Runtime.TokenUsage.{
  UsageMetadata, UsageSample, Accumulator, usage_sample_from_metadata, sample_total, parts_total,
  accumulate_usage, accumulate_all, tokens_of, tokens_in, usage_sample-total, accumulate_all-tokens,
}

abbrev counted_for : String → Option Accumulator → ℕ
counted_for model none = 0
counted_for model (some acc) = tokens_of model acc

-- A reasoning model, which reports its reasoning in the total only.
abbrev reasoning : UsageMetadata
reasoning = record { prompt = 100; cached = 40; candidates = 20; thoughts = 0; total = 150 }

abbrev sample : UsageSample
sample = record { input = 60; cached = 40; output = 20; thinking = 30 }

sampled : usage_sample_from_metadata (some reasoning) ≡ some sample
unfolding usage_sample_from_metadata
sampled = refl

usage_sample-total_example :
    (s : UsageSample) × (usage_sample_from_metadata (some reasoning) ≡ some s)
    × (sample_total s ≡ max 150 (parts_total reasoning))
usage_sample-total_example = usage_sample-total reasoning

abbrev last_run : Option Accumulator
last_run = some (record { run_id = some "run-1"; by_model = ("grok-4", sample) ∷ [] })

abbrev calls : List (String × UsageSample)
calls = ("grok-4", sample) ∷ ("gemini", sample) ∷ ("grok-4", sample) ∷ []

counted_again : counted_for "grok-4" (accumulate_all last_run (some "run-2") calls) ≡ 300
unfolding accumulate_usage lookup insert
counted_again = refl

accumulate_all-tokens_example :
    (next : Accumulator) × (accumulate_all last_run (some "run-2") calls ≡ some next)
    × (next.run_id ≡ some "run-2")
    × (((old : Accumulator) × (last_run ≡ some old)
          × (old.run_id ≡ some "run-2")
          × (tokens_of "grok-4" next ≡ tokens_of "grok-4" old + tokens_in "grok-4" calls))
        ⊎ (((last_run ≡ none)
              ⊎ ((old : Accumulator) × (last_run ≡ some old) × (old.run_id ≢ some "run-2")))
            × (tokens_of "grok-4" next ≡ tokens_in "grok-4" calls)))
accumulate_all-tokens_example =
    accumulate_all-tokens last_run (some "run-2") "grok-4" sample
      (("gemini", sample) ∷ ("grok-4", sample) ∷ []) "grok-4"
