-- ===== src/Runtime/TokenUsage.antt =====
-- src/arema/runtime/token_usage.py: the sample of a model call and the accumulator in session state, which only
-- this code writes and which is a record here. The counts of a provider are natural numbers.
use arema.Prelude.{
  ℕ, ◌+◌, ◌-◌, max, String, Bool, true, false, ◌≡◌, ◌≢◌, refl, ap, ◌∙◌, ◌⊎◌, arith, inl, inr,
  Bool-cases, Option, none, some, List, [], ◌∷◌, ◌==◌, eq_iff, eq_refl, if◌then◌else◌,
}
use arema.Prelude.Dict.{Dict, lookup, insert, lookup-insert}

pub record UsageMetadata : Type 0 where
  pub prompt : ℕ
  pub cached : ℕ
  pub candidates : ℕ
  pub thoughts : ℕ
  pub total : ℕ

-- Also a row of the accumulator.
pub record UsageSample : Type 0 where
  pub input : ℕ
  pub cached : ℕ
  pub output : ℕ
  pub thinking : ℕ

-- `total` and `_row_total`
abbrev pub sample_total : UsageSample → ℕ
sample_total s = ((s.input + s.cached) + s.output) + s.thinking

-- What the provider's parts come to; the uncached prompt is 0 at least.
abbrev pub parts_total : UsageMetadata → ℕ
parts_total m = (((m.prompt - m.cached) + m.cached) + m.candidates) + m.thoughts

unfoldable pub usage_sample_from_metadata : Option UsageMetadata → Option UsageSample
usage_sample_from_metadata none = none
usage_sample_from_metadata (some m) = some (record {
  input = m.prompt - m.cached;
  cached = m.cached;
  output = m.candidates;
  thinking = m.thoughts + (m.total - parts_total m);
})

pub record Accumulator : Type 0 where
  pub run_id : Option String
  pub by_model : Dict UsageSample

abbrev pub same_run : Option String → Option String → Bool
same_run none none = true
same_run (some a) (some b) = a == b
same_run a b = false

abbrev pub fresh : Option String → Accumulator
fresh run_id = record { run_id = run_id; by_model = [] }

-- The accumulator that a call of a run goes on with: one of another run is started again.
abbrev pub resumed : Option Accumulator → Option String → Accumulator
resumed none run_id = fresh run_id
resumed (some acc) run_id = if same_run acc.run_id run_id then acc else fresh run_id

abbrev pub zeros : UsageSample
zeros = record { input = 0; cached = 0; output = 0; thinking = 0 }

abbrev pub row_or_zeros : Option UsageSample → UsageSample
row_or_zeros none = zeros
row_or_zeros (some row) = row

abbrev pub add_sample : UsageSample → UsageSample → UsageSample
add_sample row s = record {
  input = row.input + s.input;
  cached = row.cached + s.cached;
  output = row.output + s.output;
  thinking = row.thinking + s.thinking;
}

unfoldable pub accumulate_usage :
    Option Accumulator → Option String → String → UsageSample → Accumulator
accumulate_usage acc run_id model s =
    let current = resumed acc run_id in
    record current {
      by_model =
          insert model (add_sample (row_or_zeros (lookup model current.by_model)) s)
            current.by_model;
    }

-- The calls of a run, one after the other.
abbrev pub accumulate_all :
    Option Accumulator → Option String → List (String × UsageSample) → Option Accumulator
accumulate_all acc run_id [] = acc
accumulate_all acc run_id ((model, s) ∷ calls) =
    accumulate_all (some (accumulate_usage acc run_id model s)) run_id calls

-- The tokens of a model.
abbrev pub tokens_of : String → Accumulator → ℕ
tokens_of model acc = sample_total (row_or_zeros (lookup model acc.by_model))

-- The tokens of a model in calls.
abbrev pub tokens_in : String → List (String × UsageSample) → ℕ
tokens_in model [] = 0
tokens_in model ((m, s) ∷ calls) =
    (if m == model then sample_total s else 0) + tokens_in model calls

-- A sample comes to the provider's total, or to its parts where these are more.
pub usage_sample-total :
    (m : UsageMetadata)
    → (s : UsageSample) × (usage_sample_from_metadata (some m) ≡ some s)
      × (sample_total s ≡ max m.total (parts_total m))
unfolding usage_sample_from_metadata
usage_sample-total m = (
  record {
    input = m.prompt - m.cached;
    cached = m.cached;
    output = m.candidates;
    thinking = m.thoughts + (m.total - parts_total m);
  },
  refl,
  omega arith,
)

same_run_refl : (run_id : Option String) → same_run run_id run_id ≡ true
same_run_refl none = refl
same_run_refl (some a) = eq_refl a

same_run_eq : (a b : Option String) → same_run a b ≡ true → a ≡ b
same_run_eq none none h = refl
same_run_eq (some a) (some b) h = ap some ((eq_iff a b).0 h)
same_run_eq none (some b) h = cc
same_run_eq (some a) none h = cc

accumulate_usage-run_id :
    (acc : Option Accumulator) (run_id : Option String) (model : String) (s : UsageSample)
    → (accumulate_usage acc run_id model s).run_id ≡ run_id
unfolding accumulate_usage
accumulate_usage-run_id none run_id model s = refl
accumulate_usage-run_id (some acc) run_id model s = elim (Bool-cases (same_run acc.run_id run_id)) [
  | inl q ↦ rw q (same_run_eq acc.run_id run_id q)
  | inr q ↦ rw q refl
]

tokens_of-accumulate :
    (acc : Option Accumulator) (run_id : Option String) (model other : String) (s : UsageSample)
    → tokens_of model (accumulate_usage acc run_id other s)
      ≡ tokens_of model (resumed acc run_id) + (if other == model then sample_total s else 0)
unfolding accumulate_usage
tokens_of-accumulate acc run_id model other s =
    ap (λ o. sample_total (row_or_zeros o)) (lookup-insert other model (add_sample row s) by_model)
    ∙ by_model_test (Bool-cases (other == model))
  where
    by_model : Dict UsageSample
    by_model = (resumed acc run_id).by_model

    row : UsageSample
    row = row_or_zeros (lookup other by_model)

    by_model_test :
        (other == model) ≡ true ⊎ (other == model) ≡ false
        → sample_total (
            row_or_zeros
              (if other == model then some (add_sample row s) else lookup model by_model))
          ≡ tokens_of model (resumed acc run_id) + (if other == model then sample_total s else 0)
    by_model_test (inl q) = rw (q) (
        added
        ∙ ap (λ m. sample_total (row_or_zeros (lookup m by_model)) + sample_total s)
            ((eq_iff other model).0 q))
      where
        added : sample_total (add_sample row s) ≡ sample_total row + sample_total s
        added = omega arith
    by_model_test (inr q) = rw q (omega arith)

-- The accumulator after calls of a run.
accumulate_all-some :
    (acc : Accumulator) (run_id : Option String) (calls : List (String × UsageSample))
    (model : String)
    → acc.run_id ≡ run_id
    → (next : Accumulator) × (accumulate_all (some acc) run_id calls ≡ some next)
      × (next.run_id ≡ run_id)
      × (tokens_of model next ≡ tokens_of model acc + tokens_in model calls)
accumulate_all-some acc run_id [] model h = (acc, refl, h, omega arith)
accumulate_all-some acc run_id ((other, s) ∷ calls) model h =
    let same : same_run acc.run_id run_id ≡ true =
      ap (λ r. same_run r run_id) h ∙ same_run_refl run_id in
    let kept : resumed (some acc) run_id ≡ acc = ap (λ b. if b then acc else fresh run_id) same in
    let first = accumulate_usage (some acc) run_id other s in
    let (next, e, r, t) =
      accumulate_all-some first run_id calls model
        (accumulate_usage-run_id (some acc) run_id other s) in
    (
      next,
      e,
      r,
      omega (
        arith,
        t,
        tokens_of-accumulate (some acc) run_id model other s,
        ap (tokens_of model) kept,
      ),
    )

-- After one call or more of a run, the accumulator is that run's. What it counts for a model is the total of
-- every sample of the model in these calls, added to what was counted before where the accumulator was that
-- run's already, and to nothing where there was none or it was another run's.
pub accumulate_all-tokens :
    (acc : Option Accumulator) (run_id : Option String) (other : String) (s : UsageSample)
    (calls : List (String × UsageSample)) (model : String)
    → (next : Accumulator) × (accumulate_all acc run_id ((other, s) ∷ calls) ≡ some next)
      × (next.run_id ≡ run_id)
      × (((old : Accumulator) × (acc ≡ some old)
            × (old.run_id ≡ run_id)
            × (tokens_of model next ≡ tokens_of model old + tokens_in model ((other, s) ∷ calls)))
          ⊎ (((acc ≡ none) ⊎ ((old : Accumulator) × (acc ≡ some old) × (old.run_id ≢ run_id)))
              × (tokens_of model next ≡ tokens_in model ((other, s) ∷ calls))))
unfolding lookup
accumulate_all-tokens acc run_id other s calls model =
    let first = accumulate_usage acc run_id other s in
    let (next, e, r, t) =
      accumulate_all-some first run_id calls model (accumulate_usage-run_id acc run_id other s) in
    (next, e, r, counted acc (omega (arith, t, tokens_of-accumulate acc run_id model other s)))
  where
    nothing :
        tokens_of model (fresh run_id) + tokens_in model ((other, s) ∷ calls)
        ≡ tokens_in model ((other, s) ∷ calls)
    nothing = omega arith

    counted :
        {total : ℕ} (acc : Option Accumulator)
        → total ≡ tokens_of model (resumed acc run_id) + tokens_in model ((other, s) ∷ calls)
        → ((old : Accumulator) × (acc ≡ some old)
            × (old.run_id ≡ run_id)
            × (total ≡ tokens_of model old + tokens_in model ((other, s) ∷ calls)))
          ⊎ (((acc ≡ none) ⊎ ((old : Accumulator) × (acc ≡ some old) × (old.run_id ≢ run_id)))
              × (total ≡ tokens_in model ((other, s) ∷ calls)))
    counted none h = inr (inl refl, h ∙ nothing)
    counted (some old) h = elim (Bool-cases (same_run old.run_id run_id)) [
      | inl q ↦ inl (
        old,
        refl,
        same_run_eq old.run_id run_id q,
        h
            ∙ ap
                (λ b.
                  tokens_of model (if b then old else fresh run_id)
                  + tokens_in model ((other, s) ∷ calls))
                q,
      )
      | inr q ↦ inr (
        inr (old, refl, λ same. cc (ap (λ r. same_run r run_id) same ∙ same_run_refl run_id, q)),
        h
            ∙ ap
                (λ b.
                  tokens_of model (if b then old else fresh run_id)
                  + tokens_in model ((other, s) ∷ calls))
                q
            ∙ nothing,
      )
    ]
