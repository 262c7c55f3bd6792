-- ===== src/Database/Integers.antt =====
-- Unsigned integers in the signed columns of PostgreSQL.
use ztelem.Prelude.{ℕ, ◌<◌, ◌^◌, some, ◌≡◌, ◌↔◌, arith, pos}
use ztelem.Models.Values.{int32_value, int64_value}
use ztelem.Database.Cells.{safe_uint32, safe_uint64}

-- Two 32-bit numbers that are stored as the same cell are equal, and the cell shows the number itself
-- exactly if it is below 2^31; the same holds for 64-bit numbers and 2^63.
pub stored_integers :
    (u v x y : ℕ)
    → u < 2 ^ 32
    → v < 2 ^ 32
    → x < 2 ^ 64
    → y < 2 ^ 64
    → (safe_uint32 (some u) ≡ safe_uint32 (some v) → u ≡ v)
      × ((safe_uint32 (some u) ≡ int32_value (pos u)) ↔ (u < 2 ^ 31))
      × (safe_uint64 (some x) ≡ safe_uint64 (some y) → x ≡ y)
      × ((safe_uint64 (some x) ≡ int64_value (pos x)) ↔ (x < 2 ^ 63))
unfolding safe_uint32 safe_uint64
stored_integers u v x y hu hv hx hy =
    (λ e. ground arith, ground arith, λ e. ground arith, ground arith)
