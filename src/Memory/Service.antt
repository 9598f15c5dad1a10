-- ===== src/Memory/Service.antt =====
-- src/arema/memory/service.py: `MemoryService` over the store's port (src/arema/memory/store.py).
pub mod Bounds
pub mod Degrade
use arema.Prelude.{
  ℕ, ◌+◌, ◌/◌, ◌≤◌, ◌<◌, String, Bool, true, false, ◌&&◌, ◌||◌, not, ◌≡◌, Option, none, some, List,
  [], ◌∷◌, ◌==◌, arith, ltb, leb, min, max, map, length, if◌then◌else◌,
}
use arema.Prelude.Dict.{is_some}
use arema.Prelude.Json.{Json, Fields, str, bool, int, float, null, end, field, obj}
use arema.Prelude.Int.{ℤ, pos, negsuc, leb_ℤ, ltb_ℤ}
use arema.Memory.Models.{
  Instant, MemoryEnvelope, MemoryQuery, MemoryPage, MemoryError, store_error, Result, ok, err,
  ◌>>=◌,
}
use arema.Memory.Codecs.{RecordCodecRegistry, Payload, Minting, encode, Decoded, decode}

-- The part of the `MemoryStore` protocol that the service calls; a backend may refuse any of it.
pub record StorePort : Type 1 where
  pub State : Type 0
  pub insert_record : MemoryEnvelope → State → Result MemoryEnvelope × State
  pub query_records : MemoryQuery → State → Result MemoryPage
  pub healthy : State → Bool

abbrev pub core_namespace : String
core_namespace = "arema.core"

module _ (port : StorePort) where
  pub record MemoryService : Type 0 where
    pub store : port.State
    pub codecs : RecordCodecRegistry
    pub degraded : Bool

  abbrev pub Method : Type 0 → Type 0
  Method A = MemoryService → Result A × MemoryService

  insert_into :
      MemoryService → Result MemoryEnvelope × port.State → Result MemoryEnvelope × MemoryService
  insert_into svc (r, store) = (r, record svc { store = store })

  append_encoded : Result MemoryEnvelope → String → String → Method MemoryEnvelope
  append_encoded (err e) namespace kind svc = (err e, svc)
  append_encoded (ok envelope) namespace kind svc =
      if envelope.namespace == namespace && envelope.kind == kind
      then insert_into svc (port.insert_record envelope svc.store)
      else (err store_error, svc)

  unfoldable pub append :
      Minting → String → Payload → String → String → String → Fields → Method MemoryEnvelope
  unfolding append_encoded insert_into
  append m scope_id payload namespace kind source metadata svc =
      append_encoded (encode svc.codecs m payload scope_id source metadata) namespace kind svc

  -- An event is a payload whose class is `EventRecord`.
  unfoldable pub append_event : Minting → String → Payload → String → Method MemoryEnvelope
  unfolding append
  append_event m scope_id event source svc =
      append m scope_id event core_namespace "event" source end svc

  noted : Result MemoryEnvelope × MemoryService → Bool × MemoryService
  noted (ok envelope, svc) = (true, svc)
  noted (err e, svc) = (false, record svc { degraded = true })

  -- The handler catches `MemoryStoreError`, the base of every error that a store raises.
  unfoldable pub safe_append_event :
      Minting → String → Payload → String → MemoryService → Bool × MemoryService
  unfolding noted
  safe_append_event m scope_id event source svc = noted (append_event m scope_id event source svc)

  unfoldable pub append_checkpoint : Minting → String → Payload → String → Method MemoryEnvelope
  unfolding append
  append_checkpoint m scope_id checkpoint source svc =
      append m scope_id checkpoint core_namespace "checkpoint" source end svc

  -- A completed tool call, as the runtime reports it.
  pub record ToolEvent : Type 0 where
    pub tool_id : String
    pub success : Bool
    pub elapsed_seconds : String
    pub output_size : ℕ
    pub run_id : Option String
    pub scope_id : Option String

  abbrev pub or_null : Option String → Json
  or_null none = null
  or_null (some s) = str s

  -- `EventRecord(name="tool_call", attributes={…})`, dumped at the instant `occurred_at`.
  unfoldable pub event_record : ToolEvent → String → Payload
  event_record event occurred_at = record {
    payload_type = "EventRecord";
    dumped = field "name" (str "tool_call") (
        field "attributes"
          (obj (
            field "tool_id" (str event.tool_id) (
              field "success" (bool event.success) (
                field "elapsed_seconds" (float event.elapsed_seconds) (
                  field "output_size" (int (pos event.output_size))
                    (field "run_id" (or_null event.run_id) end))))))
          (field "occurred_at" (str occurred_at) end));
  }

  record_scoped : Option String → Minting → ToolEvent → String → MemoryService → MemoryService
  record_scoped none m event t svc = svc
  record_scoped (some scope_id) m event t svc =
      (safe_append_event m scope_id (event_record event t) event.tool_id svc).1

  unfoldable pub record_tool_event : Minting → ToolEvent → String → MemoryService → MemoryService
  unfolding record_scoped
  record_tool_event m event t svc = record_scoped event.scope_id m event t svc

  -- `health`: the store is asked only while no write has failed.
  unfoldable pub health : MemoryService → Bool
  health svc = if svc.degraded then false else port.healthy svc.store

pub record BoundedRetrieval (Model : Type 0) : Type 0 where
  pub records : List (Decoded Model)
  pub envelopes : List MemoryEnvelope
  pub estimated_tokens : ℕ
  pub truncated : Bool

-- How a bounded retrieval ends: with its result, with the error of the store, or with the exception of the
-- first row that does not decode.
pub data Retrieval (Model : Type 0) : Type 0 where
  retrieved : BoundedRetrieval Model → Retrieval Model
  refused : MemoryError → Retrieval Model
  undecoded : Decoded Model → Retrieval Model

-- `decode` raised.
abbrev pub is_raised : {Model : Type 0} → Decoded Model → Bool
is_raised (Decoded.model m) = false
is_raised (Decoded.raw envelope) = false
is_raised Decoded.empty_chain = true
is_raised Decoded.missing = true
is_raised Decoded.no_upgrade = true
is_raised Decoded.invalid = true

unfoldable pub first_raised : {Model : Type 0} → List (Decoded Model) → Option (Decoded Model)
first_raised [] = none
first_raised (d ∷ ds) = let rest = first_raised ds in if is_raised d then some d else rest

-- `_estimate_tokens`, where `dumped_length` is the length of the compact JSON of a payload.
unfoldable pub estimate_tokens : (Fields → ℕ) → MemoryEnvelope → ℕ
estimate_tokens dumped_length envelope = max 1 (dumped_length envelope.payload / 4)

pub record Admitted : Type 0 where
  pub taken : List MemoryEnvelope
  pub used : ℕ
  pub exceeded : Bool

-- The loop of `retrieve_bounded`, from `count` rows and `used` tokens; both breaks end it.
unfoldable pub admit : (MemoryEnvelope → ℕ) → ℤ → ℤ → ℕ → ℕ → List MemoryEnvelope → Admitted
admit cost record_cap token_cap count used [] = record { taken = []; used = used; exceeded = false }
admit cost record_cap token_cap count used (x ∷ xs) =
    let rest = admit cost record_cap token_cap (count + 1) (used + cost x) xs in
    if leb_ℤ record_cap (pos count)
    then record { taken = []; used = used; exceeded = false }
    else if ltb_ℤ token_cap (pos (used + cost x))
    then record { taken = []; used = used; exceeded = true }
    else record rest { taken = x ∷ rest.taken }

-- What is returned for the rows of a page, where they decode.
abbrev pub bounded :
    {Model : Type 0}
    → (MemoryEnvelope → Decoded Model)
    → Admitted
    → MemoryPage
    → BoundedRetrieval Model
bounded decode_row a page = record {
  records = map decode_row a.taken;
  envelopes = a.taken;
  estimated_tokens = a.used;
  truncated = a.exceeded || (is_some page.next_cursor || ltb (length a.taken) (length page.items));
}

unfoldable pub bound :
    {Model : Type 0}
    → (MemoryEnvelope → Decoded Model)
    → (MemoryEnvelope → ℕ)
    → ℤ
    → ℤ
    → MemoryPage
    → Retrieval Model
bound decode_row cost record_cap token_cap page =
    let a = admit cost record_cap token_cap 0 0 page.items in
    elim (first_raised (map decode_row a.taken)) [
      | some d ↦ undecoded d
      | none ↦ retrieved (bounded decode_row a page)
    ]

-- max(1, min(record_cap, 1000))
abbrev pub effective_limit : ℤ → ℕ
effective_limit (pos n) = max 1 (min n 1000)
effective_limit (negsuc n) = 1

unfoldable pub retrieve_bounded :
    {Model : Type 0}
    → (MemoryEnvelope → Decoded Model)
    → (MemoryEnvelope → ℕ)
    → (MemoryQuery → Result MemoryPage)
    → MemoryQuery
    → ℤ
    → ℤ
    → Retrieval Model
retrieve_bounded decode_row cost query_records q record_cap token_cap =
    elim (query_records (record q { limit = effective_limit record_cap })) [
      | err e ↦ refused e
      | ok page ↦ bound decode_row cost record_cap token_cap page
    ]
