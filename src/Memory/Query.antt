-- ===== src/Memory/Query.antt =====
-- `query_records` and `list_relations` of src/arema/memory/backends/memory.py.
use arema.Prelude.{
  ℕ, String, Bool, true, false, ◌&&◌, ◌||◌, Option, none, some, List, [], ◌∷◌, ◌==◌, ltb, every,
  keep, take, length,
}
use arema.Prelude.Dict.{values}
use arema.Prelude.Json.{Json, arr, str, Items, nil, item, get_field}
use arema.Prelude.Sort.{sort_by}
use arema.Memory.Models.{
  Instant, MemoryEnvelope, MemoryRelation, MemoryQuery, MemoryPage, Result, ok, ◌>>=◌,
}
use arema.Memory.Store.{InMemoryStore}
use arema.Memory.Cursor.{sort_key, key_lt, TextCodec, encode_cursor, decode_cursor}

-- A filter that is `None` admits everything.
abbrev pub admits : Option String → String → Bool
admits none s = true
admits (some t) s = s == t

-- `tag in items`: a text equals only a text.
unfoldable pub tag_in : String → Items → Bool
tag_in tag nil = false
tag_in tag (item (str s) rest) = s == tag || tag_in tag rest
tag_in tag (item v rest) = tag_in tag rest

abbrev pub items_of : Option Json → Items
items_of (some (arr items)) = items
items_of v = nil

unfoldable pub is_live : Bool → Option Instant → Instant → Bool
is_live true expires_at now = true
is_live false none now = true
is_live false (some t) now = ltb now t

unfoldable pub matches : MemoryQuery → Instant → MemoryEnvelope → Bool
unfolding is_live tag_in
matches q now r =
    admits q.scope_id r.scope_id
    && (admits q.namespace r.namespace
        && (admits q.kind r.kind
            && (admits q.source r.source
                && (is_live q.include_expired r.expires_at now
                    && every (λ tag. tag_in tag (items_of (get_field "tags" r.metadata))) q.tags))))

abbrev pub before : MemoryEnvelope → MemoryEnvelope → Bool
before a b = key_lt (sort_key a) (sort_key b)

-- The rows that match, in the canonical order.
unfoldable pub ordered : MemoryQuery → Instant → InMemoryStore → List MemoryEnvelope
ordered q now s = sort_by before (keep (matches q now) (values s.records))

abbrev pub last? : List MemoryEnvelope → Option MemoryEnvelope
last? [] = none
last? (x ∷ []) = some x
last? (x ∷ y ∷ ys) = last? (y ∷ ys)

module _ (c : TextCodec) where
  abbrev pub next_of : Bool → Option MemoryEnvelope → Option String
  next_of true (some r) = some (encode_cursor c r)
  next_of _ _ = none

  unfoldable pub page_of : ℕ → List MemoryEnvelope → MemoryPage
  page_of limit ms =
      let page_items = take limit ms in
      record {
        items = page_items;
        next_cursor = next_of (ltb limit (length ms)) (last? page_items);
      }

  unfoldable pub resume : Option String → List MemoryEnvelope → Result (List MemoryEnvelope)
  resume none ms = ok ms
  resume (some cursor) ms = do
    after ← decode_cursor c cursor
    ok (keep (λ r. key_lt after (sort_key r)) ms)

  unfoldable pub query_records : MemoryQuery → Instant → InMemoryStore → Result MemoryPage
  unfolding resume page_of
  query_records q now s = do rest ← resume q.cursor (ordered q now s); ok (page_of q.limit rest)

-- `list_relations`
abbrev pub relation_before : MemoryRelation → MemoryRelation → Bool
relation_before a b =
    key_lt (record { created_at = a.created_at; id = a.id })
      (record { created_at = b.created_at; id = b.id })

unfoldable pub list_relations : String → InMemoryStore → List MemoryRelation
list_relations record_id s =
    sort_by relation_before
      (keep (λ rel. rel.source_id == record_id || rel.target_id == record_id) (values s.relations))
