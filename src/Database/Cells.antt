-- ===== src/Database/Cells.antt =====
-- The conversions of internal/database/database.go from the fields of a record to the cells of a row.
use ztelem.Prelude.{ℕ, Bool, Bytes, [], ◌∷◌, Option, none, some, if◌then◌else◌}
use ztelem.Models.Values.{
  Value, Time, Float64, is_zero, to_int32, to_int64, or_empty, nil_value, string_value, int32_value,
  int64_value, float64_value, bool_value, time_value,
}
use ztelem.Models.Platform.{
  PlatformMetric, CommonState, CpuData, MemData, TempData, FanData, PowerData, OpticalData,
  empty_common_state, empty_cpu_data, empty_mem_data, empty_temp_data, empty_fan_data,
  empty_power_data, empty_optical_data,
}

unfoldable pub safe_string : Option Bytes → Value
safe_string none = nil_value
safe_string (some s) = string_value s

-- A PostgreSQL integer has 32 bits and a sign.
unfoldable pub safe_uint32 : Option ℕ → Value
safe_uint32 none = nil_value
safe_uint32 (some u) = int32_value (to_int32 u)

-- A PostgreSQL bigint has 64 bits and a sign.
unfoldable pub safe_uint64 : Option ℕ → Value
safe_uint64 none = nil_value
safe_uint64 (some u) = int64_value (to_int64 u)

unfoldable pub safe_float64 : Option Float64 → Value
safe_float64 none = nil_value
safe_float64 (some f) = float64_value f

unfoldable pub safe_bool : Option Bool → Value
safe_bool none = nil_value
safe_bool (some b) = bool_value b

unfoldable pub safe_time : Option Time → Value
safe_time none = nil_value
safe_time (some t) = if is_zero t then nil_value else time_value t

number_or_nil : Option Float64 → Value
number_or_nil none = nil_value
number_or_nil (some val) = float64_value val

-- `strconv.ParseFloat(_, 64)` is not part of the repository: it is the argument `parse_float`.
unfoldable pub safe_numeric_string : (Bytes → Option Float64) → Option Bytes → Value
unfolding number_or_nil
safe_numeric_string parse_float none = nil_value
safe_numeric_string parse_float (some []) = nil_value
safe_numeric_string parse_float (some (b ∷ s)) = number_or_nil (parse_float (b ∷ s))

abbrev pub safe_common : PlatformMetric → CommonState
safe_common m = or_empty empty_common_state m.common_state

abbrev pub safe_cpu : PlatformMetric → CpuData
safe_cpu m = or_empty empty_cpu_data m.cpu_data

abbrev pub safe_mem : PlatformMetric → MemData
safe_mem m = or_empty empty_mem_data m.mem_data

abbrev pub safe_temp : PlatformMetric → TempData
safe_temp m = or_empty empty_temp_data m.temp_data

abbrev pub safe_fan : PlatformMetric → FanData
safe_fan m = or_empty empty_fan_data m.fan_data

abbrev pub safe_power : PlatformMetric → PowerData
safe_power m = or_empty empty_power_data m.power_data

abbrev pub safe_optical : PlatformMetric → OpticalData
safe_optical m = or_empty empty_optical_data m.optical_data
