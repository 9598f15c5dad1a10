-- ===== src/Prelude/Json.antt =====
-- The values that a Python `object` from JSON or session state can be. A float is carried by its
-- text: the code that is modelled never computes with one.
use mathlib.Core.Bool.{Bool, ◌&&◌}
use mathlib.Core.List.{List, [], ◌∷◌}
use Prim.Native.Nat.{ℕ}
use mathlib.Core.Option.{Option, none, some}
use Prim.Native.String.{String}
use text.Mathlib.Text.{◌==◌}
use arema.Prelude.Tests.{if◌then◌else◌}
use arema.Prelude.Lists.{every, contains}
use arema.Prelude.Int.{ℤ, pos}

mutual
  pub data Json : Type 0 where
    null : Json
    bool : Bool → Json
    int : ℤ → Json
    float : String → Json
    str : String → Json
    arr : Items → Json
    obj : Fields → Json

  pub data Items : Type 0 where
    nil : Items
    item : Json → Items → Items

  pub data Fields : Type 0 where
    end : Fields
    field : String → Json → Fields → Fields

-- `isinstance(v, int) and not isinstance(v, bool)`
abbrev pub as_int : Json → Option ℤ
as_int (int n) = some n
as_int v = none

abbrev pub as_str : Json → Option String
as_str (str s) = some s
as_str v = none

abbrev pub as_obj : Json → Option Fields
as_obj (obj fs) = some fs
as_obj v = none

-- `fs.get(k)`
unfoldable pub get_field : String → Fields → Option Json
get_field k end = none
get_field k (field j v fs) = if j == k then some v else get_field k fs

abbrev pub as_bool : Json → Option Bool
as_bool (bool b) = some b
as_bool v = none

-- `isinstance(v, int) and not isinstance(v, bool) and v >= 0`
abbrev pub as_nat : Json → Option ℕ
as_nat (int (pos n)) = some n
as_nat v = none

-- list(fs)
abbrev pub field_names : Fields → List String
field_names end = []
field_names (field k v fs) = k ∷ field_names fs

-- fs.get(k), which is None where the key is missing
abbrev pub get_or_null : String → Fields → Json
get_or_null k fs = or_null (get_field k fs)
  where
    or_null : Option Json → Json
    or_null none = null
    or_null (some v) = v

-- set(fs) == set(names)
abbrev pub has_exactly : List String → Fields → Bool
has_exactly names fs =
    every (contains (field_names fs)) names && every (contains names) (field_names fs)

-- The elements of a JSON array.
abbrev pub items_list : Items → List Json
items_list nil = []
items_list (item v rest) = v ∷ items_list rest

abbrev pub list_items : List Json → Items
list_items [] = nil
list_items (v ∷ vs) = item v (list_items vs)

-- `xs if isinstance(xs, list) else []`
abbrev pub list_or_empty : Json → List Json
list_or_empty (arr items) = items_list items
list_or_empty v = []
