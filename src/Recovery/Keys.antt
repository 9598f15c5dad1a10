-- ===== src/Recovery/Keys.antt =====
-- The session keys of src/reverse_engineering/tools/deobfuscation/state.py and the limits of the
-- deobfuscation loop.
use arema.Prelude.{ℕ, String, List, [], ◌∷◌}

abbrev pub classification_key : String
classification_key = "deobf:classification"

abbrev pub current_artifact_prompt_key : String
current_artifact_prompt_key = "deobf_current_artifact_id"

abbrev pub deobf_baseline_prompt_key : String
deobf_baseline_prompt_key = "deobf_previous_snapshot_json"

abbrev pub pcode_preferred_prompt_key : String
pcode_preferred_prompt_key = "deobf_pcode_preferred"

abbrev pub upx_provenance_prompt_key : String
upx_provenance_prompt_key = "deobf_upx_provenance"

abbrev pub deep_decompile_targets_prompt_key : String
deep_decompile_targets_prompt_key = "deep_decompile_targets"

abbrev pub upx_changed_key : String
upx_changed_key = "deobf:upx_changed"

abbrev pub upx_degraded_key : String
upx_degraded_key = "deobf:upx_degraded"

abbrev pub upx_called_key : String
upx_called_key = "deobf:upx_called"

abbrev pub upx_result_key : String
upx_result_key = "deobf:upx_result"

abbrev pub de4dot_called_key : String
de4dot_called_key = "deobf:de4dot_called"

abbrev pub de4dot_result_key : String
de4dot_result_key = "deobf:de4dot_result"

abbrev pub dnlib_roundtrip_called_key : String
dnlib_roundtrip_called_key = "deobf:dnlib_roundtrip_called"

abbrev pub dnlib_roundtrip_result_key : String
dnlib_roundtrip_result_key = "deobf:dnlib_roundtrip_result"

abbrev pub dotnet_deep_attempted_key : String
dotnet_deep_attempted_key = "deobf:dotnet_deep_attempted"

abbrev pub floss_count_key : String
floss_count_key = "deobf:floss_count"

abbrev pub floss_degraded_key : String
floss_degraded_key = "deobf:floss_degraded"

abbrev pub floss_called_key : String
floss_called_key = "deobf:floss_called"

abbrev pub floss_result_key : String
floss_result_key = "deobf:floss_result"

abbrev pub floss_seen_fingerprints_key : String
floss_seen_fingerprints_key = "deobf:floss_seen_fingerprints"

abbrev pub retriage_snapshot_key : String
retriage_snapshot_key = "deobf:retriage_snapshot"

abbrev pub previous_snapshot_key : String
previous_snapshot_key = "deobf:previous_snapshot"

abbrev pub recovery_summary_key : String
recovery_summary_key = "recovery_summary_json"

abbrev pub recovery_evidence_key : String
recovery_evidence_key = "recovery_evidence_json"

abbrev pub deobf_iteration_key : String
deobf_iteration_key = "deobf:iteration"

abbrev pub scripted_result_key : String
scripted_result_key = "deobf:scripted_result"

abbrev pub scripted_attempted_key : String
scripted_attempted_key = "deobf:scripted_attempted"

abbrev pub gate_error_key : String
gate_error_key = "deobf:gate_error"

abbrev pub deobf_max_iterations : ℕ
deobf_max_iterations = 6

abbrev pub obf_classes : List String
obf_classes = "none" ∷ "upx" ∷ "packed-other" ∷ "cff" ∷ "vm" ∷ "opaque-predicate" ∷ "unknown" ∷ []
