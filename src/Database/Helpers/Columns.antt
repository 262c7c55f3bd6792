-- ===== src/Database/Helpers/Columns.antt =====
-- The numbered fields of internal/database/helpers.go beside the columns of the batch inserts of
-- internal/database/database.go.
use ztelem.Prelude.{
  ℕ, zero, suc, Bool, true, not, ◌&&◌, beq, map, take, Bytes, List, [], ◌∷◌, Option, none, some,
  drop, ◌≡◌, refl,
}
use ztelem.Models.Values.{Value, Float64}
use ztelem.Models.{
  PlatformMetric, CommonState, CpuData, MemData, TempData, FanData, PowerData, OpticalData,
  InterfaceMetric, SubinterfaceMetric,
}
use ztelem.Database.Cells.{safe_string}
use ztelem.Database.Platform.{platform_row}
use ztelem.Database.Interface.{interface_row, interface_columns}
use ztelem.Models.Tags.Interface.{interface_fields}
use ztelem.Database.Subinterface.{subinterface_row}
use ztelem.Database.Alignment.{Stores, as_is, stores}
use ztelem.Database.Helpers.{string_or_nil}
use ztelem.Database.Helpers.Platform.{platform_cases, get_field_value}
use ztelem.Database.Helpers.Interface.{interface_cases, get_interface_field_value}
use ztelem.Database.Helpers.Subinterface.{subinterface_cases, get_subinterface_field_value}

-- Cell number `n` of a row, counted from 1, and the cells after it store the fields of these numbers.
abbrev pub Numbered : (Bytes → Option Float64) → (ℕ → Option Value) → ℕ → List Value → Type 0
Numbered parse_float value n [] = Unit
Numbered parse_float value n (cell ∷ cells) =
    Stores parse_float (value n) cell × Numbered parse_float value (suc n) cells

subinterface-Numbered :
    (parse_float : Bytes → Option Float64) (m : SubinterfaceMetric)
    → Numbered parse_float
        (λ n. some (get_subinterface_field_value m n))
        5
        (drop 4 (subinterface_row parse_float m))
unfolding subinterface_row get_subinterface_field_value subinterface_cases
subinterface-Numbered parse_float m = search stores

interface-Numbered :
    (parse_float : Bytes → Option Float64) (m : InterfaceMetric)
    → Numbered parse_float
        (λ n. some (get_interface_field_value m n))
        33
        (drop 32 (interface_row parse_float m))
unfolding interface_row get_interface_field_value interface_cases
interface-Numbered parse_float m = search stores

-- The record with all of its parts.
abbrev pub whole :
    PlatformMetric
    → CommonState
    → CpuData
    → MemData
    → TempData
    → FanData
    → PowerData
    → OpticalData
    → PlatformMetric
whole m common cpu mem temp fan power optical = record m {
  common_state = some common;
  cpu_data = some cpu;
  mem_data = some mem;
  temp_data = some temp;
  fan_data = some fan;
  power_data = some power;
  optical_data = some optical;
}

read-Stores :
    (parse_float : Bytes → Option Float64) (p : Option Bytes)
    → Stores parse_float (some (string_or_nil p)) (safe_string p)
unfolding safe_string
read-Stores parse_float none = as_is _
read-Stores parse_float (some s) = as_is _

ruleset cells = (stores, read-Stores)

platform-Numbered :
    (parse_float : Bytes → Option Float64) (m : PlatformMetric) (common : CommonState)
    (cpu : CpuData) (mem : MemData) (temp : TempData) (fan : FanData) (power : PowerData)
    (optical : OpticalData)
    → let w = whole m common cpu mem temp fan power optical in
      Numbered parse_float (get_field_value w) 4 (drop 3 (platform_row w))
unfolding platform_row get_field_value platform_cases
platform-Numbered parse_float m common cpu mem temp fan power optical = search cells

-- `count` numbers from `n` on.
abbrev pub numbers : ℕ → ℕ → List ℕ
numbers n zero = []
numbers n (suc count) = n ∷ numbers (suc n) count

-- Two lists differ at every place of both.
abbrev pub apart : List Bytes → List Bytes → Bool
apart [] ys = true
apart (x ∷ xs) [] = true
apart (x ∷ xs) (y ∷ ys) = not (beq x y) && apart xs ys

-- The numbers of getFieldValue, for a record that has all its parts, and of getSubinterfaceFieldValue are
-- those of the columns that the batch inserts write, from 4 and 5 on. Those of
-- getInterfaceFieldValue are so from 33 on; its numbers 4 to 66 are the places of the fields in the
-- struct, and at each of the places 4 to 32 the column has another name than the field.
pub columns_by_index :
    (parse_float : Bytes → Option Float64) (m : PlatformMetric) (common : CommonState)
    (cpu : CpuData) (mem : MemData) (temp : TempData) (fan : FanData) (power : PowerData)
    (optical : OpticalData) (i : InterfaceMetric) (s : SubinterfaceMetric)
    → let w = whole m common cpu mem temp fan power optical in
      Numbered parse_float (get_field_value w) 4 (drop 3 (platform_row w))
      × Numbered parse_float
          (λ n. some (get_subinterface_field_value s n))
          5
          (drop 4 (subinterface_row parse_float s))
      × Numbered parse_float
          (λ n. some (get_interface_field_value i n))
          33
          (drop 32 (interface_row parse_float i))
      × (map (get_interface_field_value i) (numbers 4 63)
          ≡ map (λ f. f.1) (drop 3 (interface_fields i)))
      × (apart
            (take 29 (drop 3 interface_columns))
            (take 29 (drop 3 (map (λ f. f.0) (interface_fields i))))
          ≡ true)
unfolding get_interface_field_value interface_cases interface_columns interface_fields beq
columns_by_index parse_float m common cpu mem temp fan power optical i s = (
  platform-Numbered parse_float m common cpu mem temp fan power optical,
  subinterface-Numbered parse_float s,
  interface-Numbered parse_float i,
  refl,
  refl,
)
