-- ===== src/Parser/Helpers.antt =====
-- The conversions of internal/parser from protocol fields to the fields of a record. Protocol fields
-- that a device does not set read as 0.
use ztelem.Prelude.{
  ℕ, ◌+◌, ◌*◌, ◌/◌, ◌%◌, Bool, Bytes, [], ◌∷◌, ◌==◌, ◌||◌, not, Option, none, some, pos,
  if◌then◌else◌,
}
use ztelem.Models.Floats.{float64_of_float32}
use ztelem.Models.{Time, Float32, Float64, second, is_zero, float64_is_zero}

unfoldable pub string_ptr : Bytes → Option Bytes
string_ptr [] = none
string_ptr (b ∷ s) = some (b ∷ s)

unfoldable pub uint32_ptr : ℕ → Option ℕ
uint32_ptr v = if v == 0 then none else some v

unfoldable pub uint64_ptr : ℕ → Option ℕ
uint64_ptr v = if v == 0 then none else some v

unfoldable pub float64_ptr : Float64 → Option Float64
float64_ptr v = if float64_is_zero v then none else some v

-- The bits of -60.0.
abbrev pub no_light : Float64
no_light = 0xC04E000000000000

unfoldable pub optical_power_ptr : Float64 → Bool → Option Float64
optical_power_ptr v is_valid = if not is_valid || float64_is_zero v then some no_light else some v

-- `time.Unix(seconds, nanosRemainder)`
unfoldable pub nanos_to_timestamp : ℕ → Time
nanos_to_timestamp nanos = pos (nanos / second * second + nanos % second)

unfoldable pub time_ptr : Time → Option Time
time_ptr t = if is_zero t then none else some t

-- In internal/parser/alarm_parser.go.
unfoldable pub convert_unix_timestamp : ℕ → Option Time
convert_unix_timestamp timestamp = if timestamp == 0 then none else some (pos (timestamp * second))

unfoldable pub bool_ptr : Bool → Option Bool
bool_ptr v = some v

unfoldable pub bytes_to_mb : ℕ → ℕ
bytes_to_mb bytes = bytes / (1024 * 1024)

unfoldable pub nanos_to_seconds : ℕ → ℕ
nanos_to_seconds nanos = nanos / 1_000_000_000

-- What the parser takes from Go's floats beside exact conversions: the product of two float64s, and
-- `fmt.Sprintf("%.2f", x)` for a float64 and for a float32. There are no floats here, so these are
-- arguments.
pub record FloatFormat : Type 0 where
  pub times : Float64 → Float64 → Float64
  pub fixed2 : Float64 → Bytes
  pub fixed2_32 : Float32 → Bytes

-- The bits of 100.0.
abbrev pub hundred : Float64
hundred = 0x4059000000000000

unfoldable pub utilization_to_numeric : FloatFormat → Float32 → Float64
utilization_to_numeric f utilization = f.times (float64_of_float32 utilization) hundred
