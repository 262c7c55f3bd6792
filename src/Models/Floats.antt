-- ===== src/Models/Floats.antt =====
-- Conversions to float64 in Go, on the bits of the numbers.
use ztelem.Prelude.{ℕ, zero, suc, ◌+◌, ◌-◌, ◌*◌, ◌/◌, ◌%◌, ◌^◌, ◌==◌, leb, if◌then◌else◌}
use ztelem.Models.Values.{Float32, Float64}

-- The greatest `k ≤ most` with 2^k ≤ n, or 0.
unfoldable pub log2 : ℕ → ℕ → ℕ
log2 zero n = 0
log2 (suc k) n = if leb (2 ^ suc k) n then suc k else log2 k n

-- The bits of n * 2^(e - 1075) with the leading bit of `n` at place 52, for 0 < n.
unfoldable pub pack_float64 : ℕ → ℕ → ℕ → Float64
pack_float64 sign e fraction = sign * 2 ^ 63 + e * 2 ^ 52 + fraction

-- `float64(n)` for an `n` of 32 bits, which is exact.
unfoldable pub float64_of_uint32 : ℕ → Float64
unfolding log2 pack_float64
float64_of_uint32 n =
    let k = log2 31 n in
    if n == 0 then 0 else pack_float64 0 (k + 1023) ((n - 2 ^ k) * 2 ^ (52 - k))

-- `float64(x)` for a float32, which is exact: zeros, subnormal numbers, infinities and NaNs, and the
-- other numbers. A signalling NaN keeps its bits here, which hardware may quiet.
unfoldable pub float64_of_float32 : Float32 → Float64
unfolding log2 pack_float64
float64_of_float32 x =
    let sign = x / 2 ^ 31 in
    let e = x / 2 ^ 23 % 2 ^ 8 in
    let m = x % 2 ^ 23 in
    let k = log2 22 m in
    if e == 0
    then (if m == 0
        then pack_float64 sign 0 0
        else pack_float64 sign (k + 874) ((m - 2 ^ k) * 2 ^ (52 - k)))
    else (if e == 255
        then pack_float64 sign 2047 (m * 2 ^ 29)
        else pack_float64 sign (e + 896) (m * 2 ^ 29))
