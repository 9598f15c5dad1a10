-- ===== src/Memory/Tests.antt =====
-- The theorems of src/arema/memory at concrete inputs.
pub mod Marks
use mathlib.Core.List.{Perm}
use arema.Memory.Tests.Marks.{marks, marks-IsRoundTrip}
use arema.Prelude.{
  ◌==◌, ℕ, zero, suc, ◌<◌, ◌≤◌, String, Bool, true, false, ◌≡◌, ◌≢◌, ◌⊎◌, refl, ap, Option, none,
  some, List, [], ◌∷◌, arith, eqb, keep, str_lt, map, drop, length, ltb, if◌then◌else◌,
}
use arema.Prelude.Dict.{values, has, lookup, insert}
use arema.Prelude.Json.{Json, Fields, str, obj, end, field, get_field}
use arema.Prelude.Sort.{Ascending, sort_by}
use arema.Memory.Models.{
  Instant, MemoryEnvelope, MemoryRelation, MemoryQuery, MemoryPage, MemoryError, Result, ok, err,
  backend_unavailable, codec_registration, record_not_found, revision_conflict,
}
use arema.Memory.Store.{
  InMemoryStore, empty, get_record, update_record, insert_record, bumped, transaction,
  create_relation,
}
use arema.Memory.Cursor.{TextCodec, IsRoundTrip, key_lt, sort_key, decode_cursor, encode_cursor}
use arema.Memory.Query.{matches, before, ordered, query_records}
use arema.Memory.Paging.{collect, collect_complete}
use arema.Memory.Program.{
  Call, Calls, new_scope, insert as insert_call, update, relate, atomic, done, next, attempt, run,
  run_call,
}
use arema.Memory.Integrity.{IsConsistent, run-IsConsistent, empty-IsConsistent}
use arema.Memory.Locking.{updated_row, update_record_outcomes, no_lost_update, transaction_atomic}
use arema.Memory.Codecs.{
  RecordCodec, Chain, RecordCodecRegistry, no_codecs, register, chain_of, put_chain, version_of,
  max_version, Decoded, raw, model, empty_chain, validated, decode, Minting, Payload,
}
use arema.Memory.Codecs.Chains.{register_all, upgrade_all}
use arema.Memory.Codecs.Decode.{decode_upgrades, refused_codec_breaks_decode}
use arema.Memory.Service.{
  BoundedRetrieval, retrieve_bounded, bound, admit, StorePort, MemoryService, ToolEvent,
  append_event, safe_append_event, record_tool_event, event_record, health,
}
use arema.Memory.Service.Bounds.{total, retrieve_bounded_bounds, retrieve_bounded_exact}
use arema.Memory.Service.Degrade.{
  default_core_codec_registry, failed_write_stays_unhealthy, serve_all, serve, memory_port,
  record_tool_event_stored,
}

abbrev pub row : String → Instant → MemoryEnvelope
row id t = record {
  id = id;
  scope_id = "run";
  namespace = "arema.core";
  kind = "note";
  schema_version = 1;
  revision = 1;
  source = "cli";
  payload = end;
  metadata = end;
  content_hash = "00";
  created_at = t;
  updated_at = t;
  expires_at = none;
}

abbrev pub link : String → String → MemoryRelation
link a b = record {
  id = "link";
  scope_id = none;
  source_id = a;
  target_id = b;
  relation_type = "about";
  metadata = end;
  created_at = 9;
}

-- The relation to a row that is missing fails, and rolls the transaction back with its row.
abbrev pub failing : Calls
failing = next (insert_call (row "d" 7)) (next (relate (link "d" "missing")) done)

abbrev pub script : Calls
script = next (insert_call (row "b" 5)) (
    next (insert_call (row "a" 5)) (
      next (insert_call (row "c" 3))
        (attempt (atomic failing) (next (relate (link "a" "b")) done))))

unfoldable pub filled : InMemoryStore
unfolding run transaction create_relation insert_record insert lookup empty
filled = (run script empty).1

run-IsConsistent_example : IsConsistent (run script empty).1
run-IsConsistent_example = run-IsConsistent script empty empty-IsConsistent

filled-IsConsistent : IsConsistent filled
unfolding filled
filled-IsConsistent = run-IsConsistent script empty empty-IsConsistent

unfoldable pub everything : MemoryQuery
unfolding query_records ordered matches sort_by key_lt sort_key str_lt decode_cursor encode_cursor
    get_field
everything = record {
  scope_id = none;
  namespace = none;
  kind = some "note";
  source = none;
  tags = [];
  limit = 2;
  cursor = none;
  include_expired = false;
}

collect_complete_example :
    (rows : List MemoryEnvelope) × (collect marks everything 10 filled 9 none ≡ ok rows)
    × Perm rows (keep (matches everything 10) (values filled.records))
    × Ascending before rows
unfolding everything filled
collect_complete_example =
    collect_complete marks marks-IsRoundTrip everything 10 filled filled-IsConsistent 9
      (omega arith) (omega arith)

paged_in_order :
    collect marks everything 10 filled 9 none ≡ ok (row "c" 3 ∷ row "a" 5 ∷ row "b" 5 ∷ [])
unfolding collect everything filled
paged_in_order = refl

update_record_outcomes_example :
    ((get_record "a" filled ≡ none)
      × (update_record 11 (row "a" 5) 1 filled ≡ (err record_not_found, filled)))
    ⊎ ((old : MemoryEnvelope) × (get_record "a" filled ≡ some old)
        × (old.revision ≢ 1)
        × (update_record 11 (row "a" 5) 1 filled ≡ (err revision_conflict, filled)))
    ⊎ ((old : MemoryEnvelope) × (get_record "a" filled ≡ some old)
        × (old.revision ≡ 1)
        × ((update_record 11 (row "a" 5) 1 filled).0 ≡ ok (updated_row 11 1 old (row "a" 5)))
        × (get_record "b" (update_record 11 (row "a" 5) 1 filled).1 ≡ (
            if "a" == "b" then some (updated_row 11 1 old (row "a" 5)) else get_record "b" filled))
        × ((update_record 11 (row "a" 5) 1 filled).1.scopes ≡ filled.scopes)
        × ((update_record 11 (row "a" 5) 1 filled).1.relations ≡ filled.relations))
update_record_outcomes_example = update_record_outcomes 11 (row "a" 5) 1 filled "b"

updated_once : (update_record 11 (row "a" 5) 1 filled).0 ≡ ok (bumped 11 (row "a" 5) (row "a" 5))
unfolding update_record filled
updated_once = refl

no_lost_update_example :
    update_record 12 (row "a" 5) 1 (update_record 11 (row "a" 5) 1 filled).1
    ≡ (err revision_conflict, (update_record 11 (row "a" 5) 1 filled).1)
no_lost_update_example =
    no_lost_update 11 12 (row "a" 5) (row "a" 5) 1 filled (bumped 11 (row "a" 5) (row "a" 5)) refl
      updated_once

transaction_atomic_example :
    ((e : MemoryError) × ((run failing filled).0 ≡ err e)
      × ((run_call (atomic failing) filled).0 ≡ err e)
      × ((run_call (atomic failing) filled).1.scopes ≡ filled.scopes)
      × ((run_call (atomic failing) filled).1.records ≡ filled.records)
      × ((run_call (atomic failing) filled).1.relations ≡ filled.relations))
    ⊎ (((run failing filled).0 ≡ ok tt) × (run_call (atomic failing) filled ≡ run failing filled))
transaction_atomic_example = transaction_atomic failing filled

abbrev note_codec : ℕ → Option (Fields → Fields) → String → RecordCodec
note_codec version upgrade payload_type = record {
  namespace = "arema.core";
  kind = "note";
  schema_version = version;
  payload_type = payload_type;
  upgrade_from_previous = upgrade;
}

abbrev add_author : Fields → Fields
add_author fs = field "author" (str "unknown") fs

-- The second codec is refused: it skips a version.
abbrev codecs : List RecordCodec
codecs =
    note_codec 1 none "Note"
    ∷ note_codec 3 (some add_author) "NoteC"
    ∷ note_codec 2 (some add_author) "NoteB"
    ∷ []

abbrev accept : String → Fields → Option (String × Fields)
accept payload_type payload = some (payload_type, payload)

abbrev note_chain : Chain
note_chain = (1, note_codec 1 none "Note") ∷ (2, note_codec 2 (some add_author) "NoteB") ∷ []

decode_upgrades_example :
    (newest : RecordCodec) × (version_of (max_version note_chain) note_chain ≡ some newest)
    × (decode accept (register_all codecs no_codecs) (row "a" 5)
        ≡ validated (accept newest.payload_type (upgrade_all (drop 1 note_chain) end)))
unfolding register no_codecs chain_of put_chain version_of max_version lookup insert
decode_upgrades_example =
    decode_upgrades accept codecs (row "a" 5) (1, note_codec 1 none "Note")
      ((2, note_codec 2 (some add_author) "NoteB") ∷ []) refl (omega arith)

refused_codec_breaks_decode_example :
    (decode accept no_codecs (row "a" 5) ≡ raw (row "a" 5))
    × (decode accept (register (note_codec 2 (some add_author) "NoteB") no_codecs).1 (row "a" 5)
        ≡ empty_chain)
unfolding register no_codecs chain_of version_of max_version
refused_codec_breaks_decode_example =
    refused_codec_breaks_decode accept no_codecs (note_codec 2 (some add_author) "NoteB")
      (row "a" 5) refl refl refl refl
