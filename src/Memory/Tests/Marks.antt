-- ===== src/Memory/Tests/Marks.antt =====
-- The text functions that the cursors of src/arema/memory/backends/memory.py need, made concrete.
use Prim.Native.String.{[], ◌∷◌}
use Prim.Native.Char.{code}
use arema.Prelude.{ℕ, zero, suc, String, ◌≡◌, refl, ap, Option, none, some, eqb, if◌then◌else◌}
use arema.Prelude.Json.{Json, Fields, str, obj, end, field}
use arema.Memory.Models.{Instant}
use arema.Memory.Cursor.{TextCodec, IsRoundTrip}

-- A text codec that can be run: an instant is a row of marks, and a cursor is the marks, a stop and
-- the id.
abbrev pub ticks : Instant → String
ticks zero = []
ticks (suc n) = "1" ∷ ticks n

abbrev pub count_ticks : String → Instant
count_ticks [] = 0
count_ticks (c ∷ s) = suc (count_ticks s)

abbrev pub join : String → String → String
join [] b = "0" ∷ b
join (c ∷ a) b = c ∷ join a b

abbrev pub push_front : String → Option (String × String) → Option (String × String)
push_front s none = none
push_front [] (some p) = some p
push_front (c ∷ s) (some (a, b)) = some (c ∷ a, b)

abbrev pub split : String → Option (String × String)
split [] = none
split (c ∷ s) =
    let rest = split s in if eqb (code c) 48 then some ([], s) else push_front (c ∷ []) rest

abbrev pub read_cursor : Option (String × String) → Option Json
read_cursor none = none
read_cursor (some (a, b)) = some (obj (field "created_at" (str a) (field "id" (str b) end)))

abbrev pub write_fields : Fields → String
write_fields (field k (str a) (field j (str b) end)) = join a b
write_fields fs = []

abbrev pub read_instant : Json → Option Instant
read_instant (str s) = some (count_ticks s)
read_instant v = none

abbrev pub marks : TextCodec
marks = record {
  isoformat = ticks;
  fromisoformat = read_instant;
  dumps = write_fields;
  loads = λ s. read_cursor (split s);
  b64encode = λ s. s;
  b64decode = λ s. some s;
}

count_ticks-ticks : (n : ℕ) → count_ticks (ticks n) ≡ n
count_ticks-ticks zero = refl
count_ticks-ticks (suc n) = ap suc (count_ticks-ticks n)

split-join : (n : ℕ) (id : String) → split (join (ticks n) id) ≡ some (ticks n, id)
split-join zero id = refl
split-join (suc n) id = rw (split-join n id)

pub marks-IsRoundTrip : IsRoundTrip marks
marks-IsRoundTrip = record {
  iso = λ t. ap some (count_ticks-ticks t);
  json = λ t id. ap read_cursor (split-join t id);
  base64 = λ s. refl;
}
