-- ===== src/Buffer/Sharded/Flat.antt =====
-- The entries of all shards as one map.
use ztelem.Prelude.{
  ℕ, zero, suc, ◌+◌, ◌<◌, Bytes, List, [], ◌∷◌, ◌++◌, ◌≡◌, ◌≢◌, refl, sym, ap, arith, ◌∙◌, beq_ne,
  length, length-append,
}
use ztelem.GoMap
use ztelem.GoMap.{GoMap, Absent, UniqueKeys}
use ztelem.Buffer.Sharded.{ShardedMap, shard_index, nth_shard, get_shard, get, len_loop, len}
use ztelem.Buffer.Sharded.Index.{HasHome, Placed, IsSharded}

module _ {ℓ} {V : Type ℓ} where
  abbrev pub flatten_shards : List (GoMap V) → GoMap V
  flatten_shards [] = []
  flatten_shards (s ∷ ss) = s ++ flatten_shards ss

  abbrev pub flat : ShardedMap V → GoMap V
  flat m = flatten_shards m.shards

  Absent-append : (k : Bytes) (s t : GoMap V) → Absent k s → Absent k t → Absent k (s ++ t)
  Absent-append k [] t hs ht = ht
  Absent-append k ((j, v) ∷ s) t hs ht = (hs.0, Absent-append k s t hs.1 ht)

  away-Absent :
      (mask i : ℕ) (k : Bytes) (s : GoMap V)
      → shard_index mask k ≢ i
      → HasHome mask i s
      → Absent k s
  away-Absent mask i k [] ne h = tt
  away-Absent mask i k ((j, v) ∷ s) ne h =
      (beq_ne j k (λ e. ne (sym (ap (shard_index mask) e) ∙ h.0)), away-Absent mask i k s ne h.1)

  before-Absent :
      (mask i : ℕ) (k : Bytes) (ss : List (GoMap V))
      → shard_index mask k < i
      → Placed mask i ss
      → Absent k (flatten_shards ss)
  before-Absent mask i k [] lt p = tt
  before-Absent mask i k (s ∷ ss) lt p =
      Absent-append k s (flatten_shards ss) (away-Absent mask i k s (λ e. omega arith) p.0)
        (before-Absent mask (suc i) k ss (omega arith) p.2)

  lookup-flatten :
      (mask i n : ℕ) (k : Bytes) (ss : List (GoMap V))
      → shard_index mask k ≡ i + n
      → Placed mask i ss
      → GoMap.lookup k (flatten_shards ss) ≡ GoMap.lookup k (nth_shard n ss)
  unfolding nth_shard
  lookup-flatten mask i n k [] e p = refl
  lookup-flatten mask i zero k (s ∷ ss) e p =
      let rest = before-Absent mask (suc i) k ss (omega arith) p.2 in
      ground (
        arith,
        GoMap.lookup-append k s (flatten_shards ss),
        GoMap.lookup-Absent k (flatten_shards ss) rest,
      )
  lookup-flatten mask i (suc n) k (s ∷ ss) e p =
      let gone = away-Absent mask i k s (λ q. omega arith) p.0 in
      ground (
        arith,
        GoMap.lookup-append k s (flatten_shards ss),
        GoMap.lookup-Absent k s gone,
        lookup-flatten mask (suc i) n k ss (omega arith) p.2,
      )

  append-UniqueKeys :
      (mask i : ℕ) (s : GoMap V) (ss : List (GoMap V))
      → HasHome mask i s
      → UniqueKeys s
      → Placed mask (suc i) ss
      → UniqueKeys (flatten_shards ss)
      → UniqueKeys (s ++ flatten_shards ss)
  append-UniqueKeys mask i [] ss h u p us = us
  append-UniqueKeys mask i ((k, v) ∷ s) ss h u p us = (
    Absent-append k s (flatten_shards ss) u.0
        (before-Absent mask (suc i) k ss (omega (arith, h.0)) p),
    append-UniqueKeys mask i s ss h.1 u.1 p us,
  )

  flatten-UniqueKeys :
      (mask i : ℕ) (ss : List (GoMap V)) → Placed mask i ss → UniqueKeys (flatten_shards ss)
  flatten-UniqueKeys mask i [] p = tt
  flatten-UniqueKeys mask i (s ∷ ss) p =
      append-UniqueKeys mask i s ss p.0 p.1 p.2 (flatten-UniqueKeys mask (suc i) ss p.2)

  pub get_eq_lookup-flat :
      (m : ShardedMap V) (k : Bytes) → IsSharded m → get m k ≡ GoMap.lookup k (flat m)
  unfolding get get_shard
  get_eq_lookup-flat m k h = sym (lookup-flatten m.shard_mask 0 _ k m.shards (omega arith) h.placed)

  pub flat-UniqueKeys : (m : ShardedMap V) → IsSharded m → UniqueKeys (flat m)
  flat-UniqueKeys m h = flatten-UniqueKeys m.shard_mask 0 m.shards h.placed

  len_loop-flatten :
      (total : ℕ) (ss : List (GoMap V)) → len_loop total ss ≡ total + length (flatten_shards ss)
  unfolding len_loop
  len_loop-flatten total [] = omega arith
  len_loop-flatten total (s ∷ ss) =
      omega (arith, len_loop-flatten (total + length s) ss, length-append s (flatten_shards ss))

  pub len_eq_length-flat : (m : ShardedMap V) → len m ≡ length (flat m)
  unfolding len
  len_eq_length-flat m = omega (arith, len_loop-flatten 0 m.shards)
