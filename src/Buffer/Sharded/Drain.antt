-- ===== src/Buffer/Sharded/Drain.antt =====
-- `SwapAll` beside the entries of the map.
use ztelem.Prelude.{
  suc, Bytes, List, [], ◌∷◌, ◌++◌, ◌≡◌, refl, sym, ap, arith, ◌∙◌, length, replicate, append_assoc,
  append-nil,
}
use ztelem.GoMap
use ztelem.GoMap.{GoMap, UniqueKeys}
use ztelem.Buffer.Sharded.{
  ShardedMap, new_sharded_map, get, len, append_items, swap_shard, swap_all_loop, swap_all,
}
use ztelem.Buffer.Sharded.Index.{IsSharded, new-IsSharded}
use ztelem.Buffer.Sharded.Flat.{
  flatten_shards, flat, get_eq_lookup-flat, flat-UniqueKeys, len_eq_length-flat,
}

module _ {ℓ} {V : Type ℓ} where
  abbrev pub values : GoMap V → List V
  values [] = []
  values ((k, v) ∷ m) = v ∷ values m

  values-append : (s t : GoMap V) → values (s ++ t) ≡ values s ++ values t
  values-append [] t = refl
  values-append ((k, v) ∷ s) t = ap (◌∷◌ v) (values-append s t)

  pub length-values : (m : GoMap V) → length (values m) ≡ length m
  length-values [] = refl
  length-values ((k, v) ∷ m) = ap suc (length-values m)

  append_items-values : (result : List V) (s : GoMap V) → append_items result s ≡ result ++ values s
  unfolding append_items
  append_items-values result [] = sym (append-nil result)
  append_items-values result ((k, v) ∷ s) =
      append_items-values (result ++ v ∷ []) s ∙ append_assoc result (v ∷ []) (values s)

  swap_shard_lem : (result : List V) (s : GoMap V) → swap_shard result s ≡ (result ++ values s, [])
  unfolding swap_shard
  swap_shard_lem result [] = rw append-nil
  swap_shard_lem result ((k, v) ∷ s) = ground (arith, append_items-values result ((k, v) ∷ s))

  swap_all_loop_lem :
      (result : List V) (ss : List (GoMap V))
      → swap_all_loop result ss ≡ (result ++ values (flatten_shards ss), replicate (length ss) [])
  unfolding swap_all_loop
  swap_all_loop_lem result [] = rw append-nil
  swap_all_loop_lem result (s ∷ ss) =
      simp (swap_shard_lem, swap_all_loop_lem (result ++ values s) ss, values-append, append_assoc)

  pub swap_all_lem :
      (m : ShardedMap V) → IsSharded m → swap_all m ≡ (values (flat m), new_sharded_map)
  unfolding swap_all new_sharded_map
  swap_all_lem m h =
      rw (swap_all_loop_lem [] m.shards) (λ i.
        (values (flat m), record { shards = replicate (h.count i) []; shard_mask = h.mask i }))

  -- The entries of a sharded map stand in one map with unique keys that every `Get` reads; `SwapAll`
  -- returns the value of each of its entries once, as many as `Len` counted, and leaves the map that
  -- `newSharded…Map` makes.
  pub swap_all_drains :
      (m : ShardedMap V)
      → IsSharded m
      → (entries : GoMap V) × UniqueKeys entries
        × ((k : Bytes) → get m k ≡ GoMap.lookup k entries)
        × ((swap_all m).0 ≡ values entries)
        × (length (swap_all m).0 ≡ len m)
        × ((swap_all m).1 ≡ new_sharded_map)
  swap_all_drains m h =
      let e = swap_all_lem m h in
      (
        flat m,
        flat-UniqueKeys m h,
        λ k. get_eq_lookup-flat m k h,
        ap (λ r. r.0) e,
        ap (λ r. length r.0) e ∙ length-values (flat m) ∙ sym (len_eq_length-flat m),
        ap (λ r. r.1) e,
      )

  pub swap_all-IsSharded : (m : ShardedMap V) → IsSharded m → IsSharded (swap_all m).1
  swap_all-IsSharded m h = rw (swap_all_lem m h) new-IsSharded

  -- An emptied map holds no entry.
  pub len-swap_all : (m : ShardedMap V) → IsSharded m → len (swap_all m).1 ≡ 0
  unfolding len new_sharded_map
  len-swap_all m h = rw (swap_all_lem m h)

  pub swap_all_empties : (m : ShardedMap V) → IsSharded m → (swap_all m).1 ≡ new_sharded_map
  swap_all_empties m h = ap (λ r. r.1) (swap_all_lem m h)
