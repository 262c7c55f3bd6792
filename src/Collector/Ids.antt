-- ===== src/Collector/Ids.antt =====
-- The IDs of connections.
use ztelem.Prelude.{
  ℕ, Bytes, ◌≡◌, ap, arith, pos, pos_part, format_int, format_uint-Lacks, format_int_injective,
  Lacks, cut_last,
}
use ztelem.Collector.Connections.{conn_id}

nanos-Lacks : (n : ℕ) → Lacks b'-' (format_int (pos n))
unfolding format_int
nanos-Lacks n = format_uint-Lacks b'-' n (λ d. omega (arith, d.0))

-- Two connections from the epoch on have the same ID only if they have the same remote address and
-- were registered in the same nanosecond, whatever bytes the addresses hold.
conn_id_injective :
    (s t : Bytes) (m n : ℕ) → conn_id s (pos m) ≡ conn_id t (pos n) → (s ≡ t) × (m ≡ n)
unfolding conn_id
conn_id_injective s t m n e =
    let r = cut_last b'-' _ _ _ _ (nanos-Lacks m) (nanos-Lacks n) e in
    (r.0, ap pos_part (format_int_injective _ _ r.1))
