-- ===== src/Recovery/Tests.antt =====
-- A classification that is advanced to an unpacked artifact
-- (src/reverse_engineering/tools/deobfuscation/state.py).
use arema.Prelude.{
  String, true, false, ◌≡◌, refl, none, some, [], ◌==◌, every_char, lstrip, rstrip, is_blank,
  if◌then◌else◌,
}
use arema.Workbench.State.{State}
use arema.Recovery.ModelJson.{JsonTools, loads_model_json}
use arema.Recovery.Plan.{
  DeobfPlan, classification_json, parse_classification, advance_classification_artifact,
}
use arema.Recovery.Plan.RoundTrip.{advance-parse}

abbrev pub id_a : String
id_a = "aaaaaaaaaaaaaaaaaaaaaaaaaaaaaaaaaaaaaaaaaaaaaaaaaaaaaaaaaaaaaaaa"

abbrev id_b : String
id_b = "bbbbbbbbbbbbbbbbbbbbbbbbbbbbbbbbbbbbbbbbbbbbbbbbbbbbbbbbbbbbbbbb"

abbrev pub upx_plan : DeobfPlan
upx_plan = record {
  artifact_id = id_a;
  upx = true;
  floss = false;
  pcode_preferred = false;
  obf_class = "upx";
  pre_snapshot = record {
    size = 4096;
    function_count = 3;
    import_count = 2;
    string_count = 10;
    section_count = 3;
  };
}

-- Tools that read no text.
abbrev pub plain_json : JsonTools
plain_json = record {
  fence_body = λ s. none;
  loads = λ s. none;
  repair_json = λ s. "";
  dumps = λ v. "";
}

-- Tools that know one text.
abbrev one_text : JsonTools
one_text = record {
  fence_body = λ s. none;
  loads = λ s. if s == "written" then some (classification_json upx_plan id_b) else none;
  repair_json = λ s. "";
  dumps = λ v. "written";
}

advance-parse_example :
    (next : State) × (advance_classification_artifact one_text [] upx_plan id_b ≡ some next)
    × (parse_classification one_text next ≡ some (record upx_plan { artifact_id = id_b }))
unfolding loads_model_json every_char lstrip rstrip is_blank
advance-parse_example = advance-parse one_text [] upx_plan id_b refl refl refl
