-- ===== src/Buffer/Sharded/Index.antt =====
-- The shard of a key, and writes to one shard.
use Prim.Native.Nat.{bit_and, digits, bit_and-bitwise, min}
use ztelem.Prelude.{
  ℕ, zero, suc, ◌+◌, ◌/◌, ◌≤◌, ◌<◌, Bytes, List, [], ◌∷◌, ◌≡◌, ◌≢◌, refl, arith, length, ap, sym,
  subst, ◌∙◌, replicate,
}
use ztelem.GoMap
use ztelem.GoMap.{GoMap, UniqueKeys, Absent}
use ztelem.Buffer.Sharded.{
  ShardedMap, fnv32, shard_index, nth_shard, update_shard, new_sharded_map, set, swap,
}

-- A conjunction of bits is at most its second operand, digit by digit.
masked-le : (fuel a mask : ℕ) → digits (λ b. zero) min fuel a mask ≤ mask
masked-le zero zero mask = omega arith
masked-le zero (suc a) mask = omega arith
masked-le (suc fuel) zero mask = omega arith
masked-le (suc fuel) (suc a) mask = omega (arith, masked-le fuel (suc a / 2) (mask / 2))

pub bit_and-le : (a mask : ℕ) → bit_and a mask ≤ mask
bit_and-le a mask = omega (arith, bit_and-bitwise a mask, masked-le a a mask)

module _ {ℓ} {V : Type ℓ} where
  pub nth_shard-update_self :
      (i : ℕ) (f : GoMap V → GoMap V) (ss : List (GoMap V))
      → i < length ss
      → nth_shard i (update_shard i f ss) ≡ f (nth_shard i ss)
  unfolding nth_shard update_shard
  nth_shard-update_self i f [] h = absurd (omega arith)
  nth_shard-update_self zero f (s ∷ ss) h = refl
  nth_shard-update_self (suc i) f (s ∷ ss) h = nth_shard-update_self i f ss (omega arith)

  pub nth_shard-update_ne :
      (i j : ℕ) (f : GoMap V → GoMap V) (ss : List (GoMap V))
      → i ≢ j
      → nth_shard j (update_shard i f ss) ≡ nth_shard j ss
  unfolding nth_shard update_shard
  nth_shard-update_ne i j f [] h = refl
  nth_shard-update_ne zero zero f (s ∷ ss) h = absurd (h refl)
  nth_shard-update_ne zero (suc j) f (s ∷ ss) h = refl
  nth_shard-update_ne (suc i) zero f (s ∷ ss) h = refl
  nth_shard-update_ne (suc i) (suc j) f (s ∷ ss) h =
      nth_shard-update_ne i j f ss (λ e. h (ap suc e))

  pub length-update_shard :
      (i : ℕ) (f : GoMap V → GoMap V) (ss : List (GoMap V))
      → length (update_shard i f ss) ≡ length ss
  unfolding update_shard
  length-update_shard i f [] = refl
  length-update_shard zero f (s ∷ ss) = refl
  length-update_shard (suc i) f (s ∷ ss) = ap suc (length-update_shard i f ss)

-- The keys of one shard all have the shard's index.
abbrev pub HasHome {ℓ} : {V : Type ℓ} → ℕ → ℕ → GoMap V → Type 0
HasHome mask i [] = Unit
HasHome mask i ((k, v) ∷ s) = (shard_index mask k ≡ i) × HasHome mask i s

-- The shards from index `i` on hold the keys of their index, each key once.
abbrev pub Placed {ℓ} : {V : Type ℓ} → ℕ → ℕ → List (GoMap V) → Type 0
Placed mask i [] = Unit
Placed mask i (s ∷ ss) = HasHome mask i s × UniqueKeys s × Placed mask (suc i) ss

-- Sixteen shards under the mask 15, every entry in the shard of its key, every key once.
pub record IsSharded {ℓ} {V : Type ℓ} (m : ShardedMap V) : Type 0 where
  pub mask : m.shard_mask ≡ 15
  pub count : length m.shards ≡ 16
  pub placed : Placed m.shard_mask 0 m.shards

replicate-Placed {ℓ} : (V : Type ℓ) (mask i n : ℕ) → Placed {V = V} mask i (replicate n [])
replicate-Placed V mask i zero = tt
replicate-Placed V mask i (suc n) = (tt, tt, replicate-Placed V mask (suc i) n)

module _ {ℓ} {V : Type ℓ} where
  pub shard_in_range :
      (m : ShardedMap V) (key : Bytes)
      → IsSharded m
      → shard_index m.shard_mask key < length m.shards
  unfolding shard_index
  shard_in_range m key h = omega (arith, h.mask, h.count, bit_and-le (fnv32 key) m.shard_mask)

  pub insert-HasHome :
      (mask i : ℕ) (k : Bytes) (v : V) (s : GoMap V)
      → shard_index mask k ≡ i
      → HasHome mask i s
      → HasHome mask i (GoMap.insert k v s)
  unfolding GoMap.insert
  insert-HasHome mask i k v [] e h = (e, tt)
  insert-HasHome mask i k v ((j, w) ∷ s) e h = ground (arith, insert-HasHome mask i k v s)

  delete-HasHome :
      (mask i : ℕ) (k : Bytes) (s : GoMap V) → HasHome mask i s → HasHome mask i (GoMap.delete k s)
  unfolding GoMap.delete
  delete-HasHome mask i k [] h = tt
  delete-HasHome mask i k ((j, w) ∷ s) h = ground (arith, delete-HasHome mask i k s)

  update-Placed :
      (mask i n : ℕ) (f : GoMap V → GoMap V) (ss : List (GoMap V))
      → ((s : GoMap V) → HasHome mask (i + n) s → HasHome mask (i + n) (f s))
      → ((s : GoMap V) → UniqueKeys s → UniqueKeys (f s))
      → Placed mask i ss
      → Placed mask i (update_shard n f ss)
  unfolding update_shard
  update-Placed mask i n f [] home unique p = tt
  update-Placed mask i zero f (s ∷ ss) home unique p =
      let e : i + 0 ≡ i = omega arith in
      (
        subst (λ j. HasHome mask j (f s)) e (home s (subst (λ j. HasHome mask j s) (sym e) p.0)),
        unique s p.1,
        p.2,
      )
  update-Placed mask i (suc n) f (s ∷ ss) home unique p =
      let e : i + suc n ≡ suc i + n = omega arith in
      (
        p.0,
        p.1,
        update-Placed mask (suc i) n f ss
            (subst (λ j. (t : GoMap V) → HasHome mask j t → HasHome mask j (f t)) e home) unique
            p.2,
      )

  pub new-IsSharded : IsSharded (new_sharded_map {V = V})
  unfolding new_sharded_map
  new-IsSharded = record { mask = refl; count = refl; placed = replicate-Placed V 15 0 16 }

  pub set-IsSharded : (m : ShardedMap V) (k : Bytes) (v : V) → IsSharded m → IsSharded (set m k v)
  unfolding set
  set-IsSharded m k v h = record {
    mask = h.mask;
    count = length-update_shard _ _ m.shards ∙ h.count;
    placed =
        update-Placed m.shard_mask 0 (shard_index m.shard_mask k) (GoMap.insert k v) m.shards
          (λ s p. insert-HasHome m.shard_mask _ k v s (omega arith) p)
          (λ s u. GoMap.insert-UniqueKeys k v s u) h.placed;
  }

  pub swap-IsSharded : (m : ShardedMap V) (k : Bytes) → IsSharded m → IsSharded (swap m k).1
  unfolding swap
  swap-IsSharded m k h = record {
    mask = h.mask;
    count = length-update_shard _ _ m.shards ∙ h.count;
    placed =
        update-Placed m.shard_mask 0 (shard_index m.shard_mask k) (GoMap.delete k) m.shards
          (λ s p. delete-HasHome m.shard_mask _ k s p) (λ s u. GoMap.delete-UniqueKeys k s u)
          h.placed;
  }

  pub nth-UniqueKeys :
      (mask i n : ℕ) (ss : List (GoMap V)) → Placed mask i ss → UniqueKeys (nth_shard n ss)
  unfolding nth_shard
  nth-UniqueKeys mask i n [] p = tt
  nth-UniqueKeys mask i zero (s ∷ ss) p = p.1
  nth-UniqueKeys mask i (suc n) (s ∷ ss) p = nth-UniqueKeys mask (suc i) n ss p.2
