-- ===== src/Evidence/Verdict.antt =====
-- src/reverse_engineering/verdict.py.
use arema.Prelude.{ℕ, String, Option, none, some, ◌==◌, leb, strip, text_length, if◌then◌else◌}
use arema.Prelude.Json.{Json, as_obj, as_str, get_or_null}
use arema.Evidence.CleanText.{clean, unsafe_in_rationale}
use arema.Recovery.ModelJson.{◌>>=◌}

pub data VerdictClass : Type 0 where
  benign grayware malicious undetermined : VerdictClass

pub record SampleVerdict : Type 0 where
  pub classification : VerdictClass
  pub rationale : String

abbrev pub max_rationale_chars : ℕ
max_rationale_chars = 400

-- The enum by its value; the undetermined verdict is refused.
abbrev pub declared_class : String → Option VerdictClass
declared_class s =
    if s == "benign"
    then some benign
    else if s == "grayware"
    then some grayware
    else if s == "malicious"
    then some malicious
    else none

-- The constructor bounds the rationale, which the cleaning has bounded already.
abbrev pub with_rationale : VerdictClass → String → Option SampleVerdict
with_rationale parsed rationale =
    if rationale == ""
    then none
    else if leb (text_length rationale) max_rationale_chars
    then some (record { classification = parsed; rationale = rationale })
    else none

-- `lower` is `str.lower`.
unfoldable pub sanitize_verdict : (String → String) → Json → Option SampleVerdict
sanitize_verdict lower raw = do
  fields ← as_obj raw
  classification ← as_str (get_or_null "classification" fields)
  parsed ← declared_class (lower (strip classification))
  with_rationale parsed
      (clean unsafe_in_rationale max_rationale_chars (get_or_null "rationale" fields))

-- verdict_label
abbrev pub verdict_label : Option SampleVerdict → String
verdict_label none = "UNDETERMINED"
verdict_label (some v) = label_of v.classification
  where
    label_of : VerdictClass → String
    label_of benign = "BENIGN"
    label_of grayware = "GRAYWARE"
    label_of malicious = "MALICIOUS"
    label_of undetermined = "UNDETERMINED"
