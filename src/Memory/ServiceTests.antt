-- ===== src/Memory/ServiceTests.antt =====
-- The theorems of src/arema/memory/service.py at concrete inputs.
use arema.Prelude.{
  ℕ, ◌++◌, List, take, every, not, ◌==◌, if◌then◌else◌, ◌<◌, ◌≤◌, true, false, ◌≡◌, ◌⊎◌, refl, none,
  some, [], ◌∷◌, map, length,
}
use arema.Prelude.Int.{pos}
use arema.Prelude.Json.{end}
use arema.Memory.Models.{MemoryEnvelope, MemoryPage, ok, err, backend_unavailable}
use arema.Memory.Store.{get_record}
use arema.Memory.Query.{ordered, query_records}
use arema.Memory.Codecs.{Decoded, raw, invalid, Minting, Payload, encode}
use arema.Memory.Service.{
  BoundedRetrieval, retrieved, undecoded, is_raised, first_raised, bound, retrieve_bounded, admit,
  StorePort, MemoryService, ToolEvent, append_event, safe_append_event, record_tool_event,
  event_record, health,
}
use arema.Memory.Service.Bounds.{total, retrieve_bounded_bounds, retrieve_bounded_exact}
use arema.Memory.Service.Degrade.{
  default_core_codec_registry, failed_write_stays_unhealthy, serve_all, checkpoint, memory_port,
  record_tool_event_stored,
}
use arema.Memory.Tests.{row, everything, filled}
use arema.Memory.Tests.Marks.{marks}

abbrev keep_raw : MemoryEnvelope → Decoded ℕ
keep_raw r = raw r

abbrev three_tokens : MemoryEnvelope → ℕ
three_tokens r = 3

abbrev two_rows : MemoryPage
two_rows = record { items = row "a" 1 ∷ row "b" 2 ∷ []; next_cursor = none }

abbrev one_row : BoundedRetrieval ℕ
one_row = record {
  records = raw (row "a" 1) ∷ [];
  envelopes = row "a" 1 ∷ [];
  estimated_tokens = 3;
  truncated = true;
}

retrieve_bounded_bounds_example :
    (length one_row.envelopes ≤ 5)
    × (one_row.estimated_tokens ≡ total three_tokens one_row.envelopes)
    × (one_row.estimated_tokens ≤ 4)
    × (one_row.records ≡ map keep_raw one_row.envelopes)
    × (every (λ r. not (is_raised (keep_raw r))) one_row.envelopes ≡ true)
unfolding retrieve_bounded bound admit first_raised
retrieve_bounded_bounds_example =
    retrieve_bounded_bounds keep_raw three_tokens (λ q. ok two_rows) everything (pos 5) (pos 4)
      one_row refl

-- The second row has a payload that its model refuses.
abbrev second_invalid : MemoryEnvelope → Decoded ℕ
second_invalid r = if r.id == "b" then invalid else raw r

aborted :
    retrieve_bounded second_invalid three_tokens (λ q. ok two_rows) everything (pos 5) (pos 100)
    ≡ undecoded invalid
unfolding retrieve_bounded bound admit first_raised
aborted = refl

retrieve_bounded_exact_example :
    (b : BoundedRetrieval ℕ) × (take (length b.envelopes) (ordered everything 10 filled)
      ≡ b.envelopes)
    × (((b.truncated ≡ false) × (b.envelopes ≡ ordered everything 10 filled))
        ⊎ ((b.truncated ≡ true) × (length b.envelopes < length (ordered everything 10 filled))))
    × (((every (λ r. not (is_raised (second_invalid r))) b.envelopes ≡ true)
          × (retrieve_bounded second_invalid three_tokens
                (λ r. query_records marks r 10 filled)
                everything
                (pos 2)
                (pos 100)
              ≡ retrieved b))
        ⊎ ((before : List MemoryEnvelope) × (r : MemoryEnvelope) × (after : List MemoryEnvelope)
            × (b.envelopes ≡ before ++ (r ∷ after))
            × (every (λ x. not (is_raised (second_invalid x))) before ≡ true)
            × (is_raised (second_invalid r) ≡ true)
            × (retrieve_bounded second_invalid three_tokens
                  (λ x. query_records marks x 10 filled)
                  everything
                  (pos 2)
                  (pos 100)
                ≡ undecoded (second_invalid r))))
unfolding everything
retrieve_bounded_exact_example =
    retrieve_bounded_exact second_invalid three_tokens marks everything 10 filled (pos 2) (pos 100)
      refl

-- A backend that has gone away.
abbrev lost : StorePort
lost = record {
  State = ℕ;
  insert_record = λ r n. (err backend_unavailable, n);
  query_records = λ q n. err backend_unavailable;
  healthy = λ n. true;
}

abbrev minted : Minting
minted = record { id = "e1"; now = 20; content_hash = λ fs. "hash" }

abbrev an_event : Payload
an_event = record { payload_type = "EventRecord"; dumped = end }

abbrev over_lost : MemoryService lost
over_lost = record { store = 0; codecs = default_core_codec_registry; degraded = false }

failed_write_stays_unhealthy_example :
    health lost (
      serve_all lost
        (checkpoint minted "run" an_event "cli" ∷ [])
        (safe_append_event lost minted "run" an_event "cli" over_lost).1)
    ≡ false
unfolding safe_append_event append_event default_core_codec_registry encode
failed_write_stays_unhealthy_example =
    failed_write_stays_unhealthy lost minted "run" an_event "cli" over_lost
      (checkpoint minted "run" an_event "cli" ∷ []) refl

abbrev called : ToolEvent (memory_port marks 10)
called = record {
  tool_id = "run_python";
  success = true;
  elapsed_seconds = "0.5";
  output_size = 12;
  run_id = none;
  scope_id = some "run";
}

record_tool_event_stored_example :
    let svc =
      record_tool_event
        (memory_port marks 10)
        minted
        called
        "t"
        (record { store = filled; codecs = default_core_codec_registry; degraded = false }) in
    (svc.degraded ≡ false)
    × (r : MemoryEnvelope) × (get_record "e1" svc.store ≡ some r)
    × (r.namespace ≡ "arema.core")
    × (r.kind ≡ "event")
    × (r.scope_id ≡ "run")
    × (r.source ≡ "run_python")
    × (r.payload ≡ (event_record (memory_port marks 10) called "t").dumped)
    × (r.content_hash ≡ "hash")
record_tool_event_stored_example =
    record_tool_event_stored marks 10 minted called "t" filled "run" refl
