-- ===== src/Recovery/Gate/Targets.antt =====
-- `_floss_decompile_targets` of src/reverse_engineering/agents/deobf_gate.py.
use Prim.Native.String.{◌++◌}
use arema.Prelude.{
  ℕ, ◌+◌, String, Bool, false, ◌&&◌, ◌||◌, not, Option, none, some, List, [], ◌∷◌, ltb, eqb, take,
  map, if◌then◌else◌,
}
use arema.Prelude.Dict.{Dict, lookup, insert}
use arema.Prelude.Sort.{sort_by}
use arema.Prelude.Json.{Json, str, Fields, get_or_null}
use arema.Recovery.Hex.{hex_value}
use arema.Recovery.Gate.{ToolOutcome, is_success}

abbrev pub max_decompile_targets : ℕ
max_decompile_targets = 8

-- An address that is counted: hexadecimal and not zero.
abbrev pub is_target : String → Bool
is_target address = is_nonzero (hex_value address)
  where
    is_nonzero : Option ℕ → Bool
    is_nonzero none = false
    is_nonzero (some n) = not (eqb n 0)

abbrev pub count_of : Option ℕ → ℕ
count_of none = 0
count_of (some n) = n

abbrev pub count_address : Json → Dict ℕ → Dict ℕ
count_address (str address) counts =
    if is_target address
    then insert address (count_of (lookup address counts) + 1) counts
    else counts
count_address v counts = counts

unfoldable pub count_addresses : List Fields → Dict ℕ → Dict ℕ
count_addresses [] counts = counts
count_addresses (r ∷ rs) counts =
    count_addresses rs (count_address (get_or_null "function" r) counts)

-- More strings first, then the lower address.
abbrev pub is_before : (String × ℕ) → (String × ℕ) → Bool
is_before (a, m) (b, n) =
    ltb n m || eqb m n && ltb (count_of (hex_value a)) (count_of (hex_value b))

-- ",".join(texts)
abbrev pub join_commas : List String → String
join_commas [] = ""
join_commas (t ∷ []) = t
join_commas (t ∷ (u ∷ ts)) = t ++ ("," ++ join_commas (u ∷ ts))

unfoldable pub floss_decompile_targets : ToolOutcome → String
floss_decompile_targets floss =
    if is_success floss.status
    then join_commas (
        take max_decompile_targets
          (map (λ t. t.0) (sort_by is_before (count_addresses floss.records []))))
    else ""
