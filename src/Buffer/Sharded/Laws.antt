-- ===== src/Buffer/Sharded/Laws.antt =====
-- The methods of a sharded map seen through its keys.
use native.Mathlib.Decide.{ℕ_discrete}
use ztelem.Prelude.{
  ℕ, zero, suc, ◌+◌, ◌<◌, Bytes, List, [], ◌∷◌, none, some, ◌≡◌, refl, ap, arith, ◌∙◌, beq, beq_ne,
  if◌then◌else◌, is_some, length, replicate,
}
use ztelem.GoMap
use ztelem.GoMap.{GoMap}
use ztelem.Buffer.Sharded.{
  ShardedMap, shard_index, nth_shard, update_shard, get_shard, get, set, swap, len_loop, len,
  new_sharded_map,
}
use ztelem.Buffer.Sharded.Index.{
  IsSharded, shard_in_range, nth_shard-update_self, nth_shard-update_ne, nth-UniqueKeys,
}

module _ {ℓ} {V : Type ℓ} where
  -- A write to the shard of `k` is seen by the keys of that shard alone.
  get_shard-update_self :
      (m : ShardedMap V) (f : GoMap V → GoMap V) (k j : Bytes)
      → IsSharded m
      → shard_index m.shard_mask k ≡ shard_index m.shard_mask j
      → nth_shard
          (shard_index m.shard_mask j)
          (update_shard (shard_index m.shard_mask k) f m.shards)
        ≡ f (nth_shard (shard_index m.shard_mask j) m.shards)
  get_shard-update_self m f k j h e =
      rw e (nth_shard-update_self _ f m.shards (shard_in_range m j h))

  -- Reading key `j` after writing key `k` gives the written value if the keys are equal, and what was
  -- there before otherwise, also when the two keys share a shard.
  pub get-set :
      (m : ShardedMap V) (k j : Bytes) (v : V)
      → IsSharded m
      → get (set m k v) j ≡ (if beq k j then some v else get m j)
  unfolding get set get_shard
  get-set m k j v h = elim (ℕ_discrete (shard_index m.shard_mask k) (shard_index m.shard_mask j)) [
    | yes e ↦
        ap (GoMap.lookup j) (get_shard-update_self m (GoMap.insert k v) k j h e)
        ∙ GoMap.lookup-insert k j v _
    | no ne ↦
        ap (GoMap.lookup j) (nth_shard-update_ne _ _ (GoMap.insert k v) m.shards ne)
        ∙ rw (beq_ne k j (λ e. ne (ap (shard_index m.shard_mask) e))) refl
  ]

  -- Reading key `j` after taking key `k` out gives nothing if the keys are equal, and what was there
  -- before otherwise.
  pub get-swap :
      (m : ShardedMap V) (k j : Bytes)
      → IsSharded m
      → get (swap m k).1 j ≡ (if beq k j then none else get m j)
  unfolding get swap get_shard
  get-swap m k j h = elim (ℕ_discrete (shard_index m.shard_mask k) (shard_index m.shard_mask j)) [
    | yes e ↦
        ap (GoMap.lookup j) (get_shard-update_self m (GoMap.delete k) k j h e)
        ∙ GoMap.lookup-delete k j _ (nth-UniqueKeys m.shard_mask 0 _ m.shards h.placed)
    | no ne ↦
        ap (GoMap.lookup j) (nth_shard-update_ne _ _ (GoMap.delete k) m.shards ne)
        ∙ rw (beq_ne k j (λ e. ne (ap (shard_index m.shard_mask) e))) refl
  ]

  len_loop-add : (total : ℕ) (ss : List (GoMap V)) → len_loop total ss ≡ total + len_loop 0 ss
  unfolding len_loop
  len_loop-add total [] = omega arith
  len_loop-add total (s ∷ ss) =
      omega (arith, len_loop-add (total + length s) ss, len_loop-add (0 + length s) ss)

  len_loop-update :
      (i total : ℕ) (f : GoMap V → GoMap V) (ss : List (GoMap V))
      → i < length ss
      → len_loop total (update_shard i f ss) + length (nth_shard i ss)
        ≡ len_loop total ss + length (f (nth_shard i ss))
  unfolding len_loop update_shard nth_shard
  len_loop-update i total f [] h = absurd (omega arith)
  len_loop-update zero total f (s ∷ ss) h =
      omega (arith, len_loop-add (total + length (f s)) ss, len_loop-add (total + length s) ss)
  len_loop-update (suc i) total f (s ∷ ss) h =
      len_loop-update i (total + length s) f ss (omega arith)

  -- A write adds one entry if the key was missing, and none if it was there.
  pub len-set :
      (m : ShardedMap V) (k : Bytes) (v : V)
      → IsSharded m
      → len (set m k v) ≡ (if is_some (get m k) then len m else len m + 1)
  unfolding len set get get_shard
  len-set m k v h =
      let i = shard_index m.shard_mask k in
      let s = nth_shard i m.shards in
      ground (
        arith,
        len_loop-update i 0 (GoMap.insert k v) m.shards (shard_in_range m k h),
        GoMap.length-insert k v s,
      )

  -- Taking a key out removes one entry if it was there.
  pub len-swap :
      (m : ShardedMap V) (k : Bytes)
      → IsSharded m
      → len m ≡ len (swap m k).1 + (if is_some (swap m k).0 then 1 else 0)
  unfolding len swap get_shard
  len-swap m k h =
      let i = shard_index m.shard_mask k in
      let s = nth_shard i m.shards in
      ground (
        arith,
        len_loop-update i 0 (GoMap.delete k) m.shards (shard_in_range m k h),
        GoMap.length-delete k s,
      )

nth_shard-replicate {ℓ} : (V : Type ℓ) (i n : ℕ) → nth_shard {V = V} i (replicate n []) ≡ []
unfolding nth_shard
nth_shard-replicate V i zero = refl
nth_shard-replicate V zero (suc n) = refl
nth_shard-replicate V (suc i) (suc n) = nth_shard-replicate V i n

-- A new map has no key.
pub get-new {ℓ} : (V : Type ℓ) (k : Bytes) → get (new_sharded_map {V = V}) k ≡ none
unfolding get get_shard new_sharded_map GoMap.lookup
get-new V k = ap (GoMap.lookup k) (nth_shard-replicate V (shard_index 15 k) 16)

pub len-new {ℓ} : (V : Type ℓ) → len (new_sharded_map {V = V}) ≡ 0
unfolding len len_loop new_sharded_map
len-new V = refl
