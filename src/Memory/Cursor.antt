-- ===== src/Memory/Cursor.antt =====
-- The cursors of src/arema/memory/backends/memory.py: `_sort_key`, `_encode_cursor` and
-- `_decode_cursor`. `json`, `base64` and `datetime` are not the program's own: they are a parameter.
use arema.Prelude.{
  String, Bool, true, false, ◌≡◌, ◌⊎◌, Option, none, some, arith, ltb, eqb, str_lt, str_lt_irrefl,
  str_lt_trans, str_lt_total, if◌then◌else◌,
}
use arema.Prelude.Json.{Json, Fields, str, obj, end, field, get_field}
use arema.Memory.Models.{Instant, MemoryEnvelope, Result, ok, err, invalid_cursor}

pub record SortKey : Type 0 where
  pub created_at : Instant
  pub id : String

unfoldable pub sort_key : MemoryEnvelope → SortKey
sort_key r = record { created_at = r.created_at; id = r.id }

-- The order of Python's tuples `(created_at, id)`.
unfoldable pub key_lt : SortKey → SortKey → Bool
key_lt a b =
    if ltb a.created_at b.created_at
    then true
    else if eqb a.created_at b.created_at
    then str_lt a.id b.id
    else false

-- The standard library's functions; `none` is a ValueError or a TypeError.
pub record TextCodec : Type 0 where
  pub isoformat : Instant → String
  pub fromisoformat : Json → Option Instant
  pub dumps : Fields → String
  pub loads : String → Option Json
  pub b64encode : String → String
  pub b64decode : String → Option String

module _ (c : TextCodec) where
  abbrev pub cursor_fields : Instant → String → Fields
  cursor_fields created_at id =
      field "created_at" (str (c.isoformat created_at)) (field "id" (str id) end)

  unfoldable pub encode_cursor : MemoryEnvelope → String
  encode_cursor r = c.b64encode (c.dumps (cursor_fields r.created_at r.id))

  created_at_of : Option Json → Option Instant
  created_at_of none = none
  created_at_of (some v) = c.fromisoformat v

  id_of : Option Json → Instant → Result SortKey
  id_of (some (str record_id)) t = ok (record { created_at = t; id = record_id })
  id_of v t = err invalid_cursor

  with_instant : Option Instant → Fields → Result SortKey
  unfolding id_of
  with_instant none fs = err invalid_cursor
  with_instant (some t) fs = id_of (get_field "id" fs) t

  of_payload : Option Json → Result SortKey
  unfolding with_instant created_at_of
  of_payload (some (obj fs)) = with_instant (created_at_of (get_field "created_at" fs)) fs
  of_payload v = err invalid_cursor

  of_raw : Option String → Result SortKey
  unfolding of_payload
  of_raw none = err invalid_cursor
  of_raw (some raw) = of_payload (c.loads raw)

  unfoldable pub decode_cursor : String → Result SortKey
  unfolding of_raw
  decode_cursor cursor = of_raw (c.b64decode cursor)

  -- What the documentation of the three modules promises of a written cursor.
  pub record IsRoundTrip : Type 0 where
    pub iso : (t : Instant) → c.fromisoformat (str (c.isoformat t)) ≡ some t
    pub json :
        (t : Instant) (id : String)
        → c.loads (c.dumps (cursor_fields t id)) ≡ some (obj (cursor_fields t id))
    pub base64 : (s : String) → c.b64decode (c.b64encode s) ≡ some s

  -- A cursor that the store wrote is read back as the key of its row.
  pub decode_cursor-encode_cursor :
      IsRoundTrip → (r : MemoryEnvelope) → decode_cursor (encode_cursor r) ≡ ok (sort_key r)
  unfolding decode_cursor encode_cursor get_field sort_key
  decode_cursor-encode_cursor h r =
      rw (h.base64 _) (rw (h.json r.created_at r.id) (rw (h.iso r.created_at)))

pub key_lt_irrefl : (a : SortKey) → key_lt a a ≡ false
unfolding key_lt
key_lt_irrefl a = ground (arith, str_lt_irrefl a.id)

pub key_lt_trans : (a b c : SortKey) → key_lt a b ≡ true → key_lt b c ≡ true → key_lt a c ≡ true
unfolding key_lt
key_lt_trans a b c h k = ground (arith, str_lt_trans a.id b.id c.id)

pub key_lt_asym : (a b : SortKey) → key_lt a b ≡ true → key_lt b a ≡ false
key_lt_asym a b h = ground (arith, key_lt_trans a b a h, key_lt_irrefl a)

-- Rows with different ids have different keys.
pub key_lt_apart : (a b : SortKey) → (a.id ≡ b.id → ⊥) → (key_lt a b ≡ true) ⊎ (key_lt b a ≡ true)
unfolding key_lt
key_lt_apart a b h = ground (arith, str_lt_total a.id b.id)
