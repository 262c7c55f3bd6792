-- ===== src/Buffer/Sharded.antt =====
-- internal/buffer/sharded_map.go. The file has the same map for five record types; `ShardedMap V` is
-- that map for any record type. Each method holds the lock of one shard at a time, so it is a sequence
-- of atomic steps on shards.
pub mod Index
pub mod Laws
pub mod Flat
pub mod Drain
use Prim.Native.Nat.{bit_and, bit_xor}
use ztelem.Prelude.{
  ℕ, zero, suc, ◌+◌, ◌-◌, ◌*◌, ◌%◌, ◌^◌, Bool, Bytes, List, [], ◌∷◌, ◌++◌, Option, none, some, ltb,
  if◌then◌else◌, length, replicate,
}
use ztelem.GoMap
use ztelem.GoMap.{GoMap}

abbrev pub default_shard_count : ℕ
default_shard_count = 16

-- `shardMask` is a uint32.
pub record ShardedMap {ℓ} (V : Type ℓ) : Type ℓ where
  pub shards : List (GoMap V)
  pub shard_mask : ℕ

-- `hash/fnv`'s 32-bit FNV-1a: for each byte, xor it in and multiply by the FNV prime.
fnv32_from : ℕ → Bytes → ℕ
fnv32_from h [] = h
fnv32_from h (b ∷ s) = fnv32_from (bit_xor h b * 16777619 % 2 ^ 32) s

fnv32 : Bytes → ℕ
unfolding fnv32_from
fnv32 s = fnv32_from 2166136261 s

-- `fnv32(key) & m.shardMask`
pub shard_index : ℕ → Bytes → ℕ
unfolding fnv32
shard_index mask key = bit_and (fnv32 key) mask

module _ {ℓ} {V : Type ℓ} where
  pub new_sharded_map : ShardedMap V
  new_sharded_map = record {
    shards = replicate default_shard_count [];
    shard_mask = default_shard_count - 1;
  }

  -- `m.shards[i]`. The index of a key is in range (Index), so the first clause is not reached.
  pub nth_shard : ℕ → List (GoMap V) → GoMap V
  nth_shard i [] = []
  nth_shard zero (s ∷ ss) = s
  nth_shard (suc i) (s ∷ ss) = nth_shard i ss

  -- A method changes the map of one shard in place.
  pub update_shard : ℕ → (GoMap V → GoMap V) → List (GoMap V) → List (GoMap V)
  update_shard i f [] = []
  update_shard zero f (s ∷ ss) = f s ∷ ss
  update_shard (suc i) f (s ∷ ss) = s ∷ update_shard i f ss

  get_shard : ShardedMap V → Bytes → GoMap V
  unfolding nth_shard shard_index
  get_shard m key = nth_shard (shard_index m.shard_mask key) m.shards

  pub get : ShardedMap V → Bytes → Option V
  unfolding get_shard
  get m key = GoMap.lookup key (get_shard m key)

  pub set : ShardedMap V → Bytes → V → ShardedMap V
  unfolding update_shard shard_index
  set m key val = record m {
    shards = update_shard (shard_index m.shard_mask key) (GoMap.insert key val) m.shards;
  }

  -- The deleted value, which is nil for a missing key.
  pub swap : ShardedMap V → Bytes → Option V × ShardedMap V
  unfolding get_shard update_shard shard_index
  swap m key = (
    GoMap.lookup key (get_shard m key),
    record m { shards = update_shard (shard_index m.shard_mask key) (GoMap.delete key) m.shards },
  )

  pub len_loop : ℕ → List (GoMap V) → ℕ
  len_loop total [] = total
  len_loop total (s ∷ ss) = len_loop (total + length s) ss

  pub len : ShardedMap V → ℕ
  unfolding len_loop
  len m = len_loop 0 m.shards

  -- `for _, v := range shard.items { result = append(result, *v) }`
  append_items : List V → GoMap V → List V
  append_items result [] = result
  append_items result ((k, v) ∷ items) = append_items (result ++ v ∷ []) items

  -- One round of `SwapAll`: a shard with entries is copied out and replaced by an empty map.
  swap_shard : List V → GoMap V → List V × GoMap V
  unfolding append_items
  swap_shard result items =
      if ltb 0 (length items) then (append_items result items, []) else (result, items)

  swap_all_loop : List V → List (GoMap V) → List V × List (GoMap V)
  unfolding swap_shard
  swap_all_loop result [] = (result, [])
  swap_all_loop result (s ∷ ss) =
      let (result', s') = swap_shard result s in
      let (final, ss') = swap_all_loop result' ss in (final, s' ∷ ss')

  pub swap_all : ShardedMap V → List V × ShardedMap V
  unfolding swap_all_loop
  swap_all m =
      let (result, shards') = swap_all_loop [] m.shards in (result, record m { shards = shards' })
