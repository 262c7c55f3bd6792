-- ===== src/Models/Values.antt =====
-- `time.Time` and `float64` as internal/models/models.go uses them.
use ztelem.Prelude.{
  ℕ, ◌+◌, Bytes, Option, none, some, ◌*◌, ◌^◌, ◌%◌, ◌-◌, Bool, false, ◌==◌, ltb, if◌then◌else◌, ℤ,
  pos, negsuc, ltb_ℤ, floor_div,
}

-- An instant, in nanoseconds since the Unix epoch.
abbrev pub Time : Type 0
Time = ℤ

-- The bits of an IEEE 754 double.
abbrev pub Float64 : Type 0
Float64 = ℕ

-- The bits of an IEEE 754 single.
abbrev pub Float32 : Type 0
Float32 = ℕ

abbrev pub second : ℕ
second = 1_000_000_000

-- `t.After(u)`
abbrev pub after : Time → Time → Bool
after t u = ltb_ℤ u t

-- `t.Truncate(time.Second).Unix()`. The zero time is a whole number of seconds from the epoch, so
-- `Truncate` rounds down to a second of the epoch too.
abbrev pub unix_second : Time → ℤ
unix_second t = floor_div t second

-- The zero time, 1 January of the year 1: -62135596800 seconds.
abbrev pub zero_time : Time
zero_time = negsuc (62135596800 * second - 1)

-- `t.IsZero()`
abbrev pub is_zero : Time → Bool
is_zero (pos n) = false
is_zero (negsuc n) = n == 62135596800 * second - 1

-- `int64(x)` for an `x` of 64 bits.
abbrev pub to_int64 : ℕ → ℤ
to_int64 n = if ltb n (2 ^ 63) then pos n else negsuc (2 ^ 64 - 1 - n)

-- `int32(x)` for an `x` of 32 bits.
abbrev pub to_int32 : ℕ → ℤ
to_int32 n = if ltb n (2 ^ 31) then pos n else negsuc (2 ^ 32 - 1 - n)

-- `x == 0.0`: plus or minus zero.
abbrev pub float64_is_zero : Float64 → Bool
float64_is_zero v = v % 2 ^ 63 == 0

-- A Go value of type `interface{}`, for the dynamic types that a row holds.
pub data Value : Type 0 where
  nil_value : Value
  string_value : Bytes → Value
  uint32_value : ℕ → Value
  int32_value : ℤ → Value
  int64_value : ℤ → Value
  float64_value : Float64 → Value
  bool_value : Bool → Value
  time_value : Time → Value
  string_ptr : Option Bytes → Value
  uint32_ptr : Option ℕ → Value
  uint64_ptr : Option ℕ → Value
  float64_ptr : Option Float64 → Value
  bool_ptr : Option Bool → Value
  time_ptr : Option Time → Value

-- `if p == nil { p = &T{} }`
abbrev pub or_empty {ℓ} : {A : Type ℓ} → A → Option A → A
or_empty empty none = empty
or_empty empty (some x) = x

-- `value == k`, for a constant that is not negative.
abbrev pub is : ℕ → ℤ → Bool
is k (pos n) = n == k
is k (negsuc n) = false

-- `time.UnixMilli(ms)`
unfoldable pub unix_milli : ℤ → Time
unix_milli (pos n) = pos (n * 1_000_000)
unix_milli (negsuc n) = negsuc ((n + 1) * 1_000_000 - 1)
