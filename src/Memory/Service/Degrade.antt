-- ===== src/Memory/Service/Degrade.antt =====
-- How `MemoryService` of src/arema/memory/service.py degrades, and where a tool event ends up.
use arema.Prelude.{
  String, true, false, ◌≡◌, refl, ap, ◌∙◌, ◌⊎◌, inl, inr, Option, none, some, List, [], ◌∷◌,
  eq_refl, arith,
}
use arema.Prelude.Dict.{lookup, insert, lookup-insert}
use arema.Prelude.Json.{Fields, end}
use arema.Memory.Models.{Instant, MemoryEnvelope, MemoryError, Result, ok, err}
use arema.Memory.Store.{InMemoryStore, insert_record, get_record}
use arema.Memory.Cursor.{TextCodec}
use arema.Memory.Query.{query_records}
use arema.Memory.Codecs.{
  RecordCodec, RecordCodecRegistry, no_codecs, register, chain_of, put_chain, version_of,
  max_version, Payload, Minting, encode,
}
use arema.Memory.Service.{
  StorePort, MemoryService, append, append_event, safe_append_event, append_checkpoint, ToolEvent,
  event_record, record_tool_event, record_scoped, health, noted, append_encoded, core_namespace,
}

core_codec : String → String → RecordCodec
core_codec kind payload_type = record {
  namespace = core_namespace;
  kind = kind;
  schema_version = 1;
  payload_type = payload_type;
  upgrade_from_previous = none;
}

-- `default_core_codec_registry`: none of its four registrations is refused.
unfoldable pub default_core_codec_registry : RecordCodecRegistry
unfolding core_codec register no_codecs chain_of put_chain version_of max_version lookup insert
default_core_codec_registry =
    let r1 = (register (core_codec "event" "EventRecord") no_codecs).1 in
    let r2 = (register (core_codec "checkpoint" "CheckpointRecord") r1).1 in
    let r3 = (register (core_codec "note" "NoteRecord") r2).1 in
    (register (core_codec "artifact" "ArtifactRecord") r3).1

module _ (port : StorePort) where
  noted-cases :
      (o : Result MemoryEnvelope × MemoryService port)
      → ((r : MemoryEnvelope) × (o.0 ≡ ok r) × (noted port o ≡ (true, o.1)))
        ⊎ ((e : MemoryError) × (o.0 ≡ err e)
            × (noted port o ≡ (false, record o.1 { degraded = true })))
  unfolding noted
  noted-cases (ok r, svc) = inl (r, refl, refl)
  noted-cases (err e, svc) = inr (e, refl, refl)

  -- The fail-open write by what the strict write does.
  safe_append_event_outcomes :
      (m : Minting) (scope_id : String) (event : Payload) (source : String)
      (svc : MemoryService port)
      → let strict = append_event port m scope_id event source svc in
        ((r : MemoryEnvelope) × (strict.0 ≡ ok r)
          × (safe_append_event port m scope_id event source svc ≡ (true, strict.1)))
        ⊎ ((e : MemoryError) × (strict.0 ≡ err e)
            × (safe_append_event port m scope_id event source svc
                ≡ (false, record strict.1 { degraded = true })))
  unfolding safe_append_event
  safe_append_event_outcomes m scope_id event source svc =
      noted-cases (append_event port m scope_id event source svc)

  -- The calls that a run can make of the service.
  pub data ServiceCall : Type 0 where
    appended : Minting → String → Payload → String → String → String → Fields → ServiceCall
    event : Minting → String → Payload → String → ServiceCall
    checkpoint : Minting → String → Payload → String → ServiceCall
    tool_event : Minting → ToolEvent port → String → ServiceCall

  unfoldable pub serve : ServiceCall → MemoryService port → MemoryService port
  serve (appended m scope_id payload namespace kind source metadata) svc =
      (append port m scope_id payload namespace kind source metadata svc).1
  serve (event m scope_id payload source) svc =
      (safe_append_event port m scope_id payload source svc).1
  serve (checkpoint m scope_id payload source) svc =
      (append_checkpoint port m scope_id payload source svc).1
  serve (tool_event m e t) svc = record_tool_event port m e t svc

  unfoldable pub serve_all : List ServiceCall → MemoryService port → MemoryService port
  serve_all [] svc = svc
  serve_all (call ∷ calls) svc = serve_all calls (serve call svc)

  append-degraded :
      (m : Minting) (scope_id : String) (payload : Payload) (namespace kind source : String)
      (metadata : Fields) (svc : MemoryService port)
      → (append port m scope_id payload namespace kind source metadata svc).1.degraded
        ≡ svc.degraded
  unfolding append
  append-degraded m scope_id payload namespace kind source metadata svc = ground arith

  safe-degraded :
      (m : Minting) (scope_id : String) (e : Payload) (source : String) (svc : MemoryService port)
      → svc.degraded ≡ true
      → (safe_append_event port m scope_id e source svc).1.degraded ≡ true
  unfolding append_event
  safe-degraded m scope_id e source svc d = ground (
    arith,
    safe_append_event_outcomes m scope_id e source svc,
    append-degraded m scope_id e core_namespace "event" source end svc,
  )

  record_scoped-degraded :
      (o : Option String) (m : Minting) (e : ToolEvent port) (t : String) (svc : MemoryService port)
      → svc.degraded ≡ true
      → (record_scoped port o m e t svc).degraded ≡ true
  unfolding record_scoped
  record_scoped-degraded none m e t svc d = d
  record_scoped-degraded (some k) m e t svc d =
      safe-degraded m k (event_record port e t) e.tool_id svc d

  serve-degraded :
      (call : ServiceCall) (svc : MemoryService port)
      → svc.degraded ≡ true
      → (serve call svc).degraded ≡ true
  unfolding serve append_checkpoint record_tool_event
  serve-degraded (appended m k p n i s md) svc d = append-degraded m k p n i s md svc ∙ d
  serve-degraded (event m k p s) svc d = safe-degraded m k p s svc d
  serve-degraded (checkpoint m k p s) svc d =
      append-degraded m k p core_namespace "checkpoint" s end svc ∙ d
  serve-degraded (tool_event m e t) svc d = record_scoped-degraded e.scope_id m e t svc d

  serve_all-degraded :
      (calls : List ServiceCall) (svc : MemoryService port)
      → svc.degraded ≡ true
      → (serve_all calls svc).degraded ≡ true
  unfolding serve_all
  serve_all-degraded [] svc d = d
  serve_all-degraded (call ∷ calls) svc d =
      serve_all-degraded calls (serve call svc) (serve-degraded call svc d)

  -- After a fail-open write that failed, the service reports itself unhealthy, whatever it is called
  -- with afterwards and whatever the store says.
  pub failed_write_stays_unhealthy :
      (m : Minting) (scope_id : String) (e : Payload) (source : String) (svc : MemoryService port)
      (calls : List ServiceCall)
      → (safe_append_event port m scope_id e source svc).0 ≡ false
      → health port (serve_all calls (safe_append_event port m scope_id e source svc).1) ≡ false
  unfolding health
  failed_write_stays_unhealthy m scope_id e source svc calls failed =
      let svc' = (safe_append_event port m scope_id e source svc).1 in
      let down : svc'.degraded ≡ true =
        ground (arith, safe_append_event_outcomes m scope_id e source svc) in
      rw (serve_all-degraded calls svc' down)

-- The in-memory store behind the port.
abbrev pub memory_port : TextCodec → Instant → StorePort
memory_port c now = record {
  State = InMemoryStore;
  insert_record = insert_record;
  query_records = λ q s. query_records c q now s;
  healthy = λ s. s.initialized;
}

-- The row of a tool event.
event_row :
    (c : TextCodec) (now : Instant) (m : Minting) (e : ToolEvent (memory_port c now))
    (t scope : String)
    → MemoryEnvelope
event_row c now m e t scope = record {
  id = m.id;
  scope_id = scope;
  namespace = "arema.core";
  kind = "event";
  schema_version = 1;
  revision = 1;
  source = e.tool_id;
  payload = (event_record (memory_port c now) e t).dumped;
  metadata = end;
  content_hash = m.content_hash (event_record (memory_port c now) e t).dumped;
  created_at = m.now;
  updated_at = m.now;
  expires_at = none;
}

encode-event :
    (c : TextCodec) (now : Instant) (m : Minting) (e : ToolEvent (memory_port c now))
    (t scope : String)
    → encode default_core_codec_registry m
        (event_record (memory_port c now) e t)
        scope
        e.tool_id
        end
      ≡ ok (event_row c now m e t scope)
unfolding encode default_core_codec_registry event_record event_row
encode-event c now m e t scope = refl

scoped_stored :
    (c : TextCodec) (now : Instant) (m : Minting) (e : ToolEvent (memory_port c now)) (t : String)
    (s : InMemoryStore) (scope : String)
    → record_scoped
        (memory_port c now)
        (some scope)
        m
        e
        t
        (record { store = s; codecs = default_core_codec_registry; degraded = false })
      ≡ record {
        store = (insert_record (event_row c now m e t scope) s).1;
        codecs = default_core_codec_registry;
        degraded = false;
      }
unfolding record_scoped safe_append_event append_event insert_record event_row
scoped_stored c now m e t s scope =
    let port = memory_port c now in
    let svc : MemoryService port = record {
      store = s;
      codecs = default_core_codec_registry;
      degraded = false;
    } in
    ap (λ r. (noted port (append_encoded port r core_namespace "event" svc)).1)
      (encode-event c now m e t scope)

-- With the core codecs, a tool event that has a scope is stored as an `arema.core/event` row of that
-- scope, with the tool as its source and the hash of its payload, and the service is not degraded.
pub record_tool_event_stored :
    (c : TextCodec) (now : Instant) (m : Minting) (e : ToolEvent (memory_port c now)) (t : String)
    (s : InMemoryStore) (scope : String)
    → e.scope_id ≡ some scope
    → let svc =
        record_tool_event
          (memory_port c now)
          m
          e
          t
          (record { store = s; codecs = default_core_codec_registry; degraded = false }) in
      (svc.degraded ≡ false)
      × (r : MemoryEnvelope) × (get_record m.id svc.store ≡ some r)
      × (r.namespace ≡ "arema.core")
      × (r.kind ≡ "event")
      × (r.scope_id ≡ scope)
      × (r.source ≡ e.tool_id)
      × (r.payload ≡ (event_record (memory_port c now) e t).dumped)
      × (r.content_hash ≡ m.content_hash r.payload)
unfolding record_tool_event get_record insert_record event_row
record_tool_event_stored c now m e t s scope h =
    let stored =
      ap
        (λ o.
          record_scoped (memory_port c now) o m e t
            (record { store = s; codecs = default_core_codec_registry; degraded = false }))
        h
      ∙ scoped_stored c now m e t s scope in
    rw stored (
      refl,
      event_row c now m e t scope,
      rw (lookup-insert, eq_refl),
      refl,
      refl,
      refl,
      refl,
      refl,
      refl,
    )
