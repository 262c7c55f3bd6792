-- ===== src/Buffer/Lane/Folding.antt =====
-- The loops of `Add…` seen at one key.
use ztelem.Prelude.{
  ℕ, suc, Bytes, List, [], ◌∷◌, Option, none, some, ◌≡◌, refl, sym, ap, ◌∙◌, beq, beq_iff,
  if◌then◌else◌, Bool-cases, Option-cases, inl, inr,
}
use ztelem.Buffer.Sharded
use ztelem.Buffer.Sharded.{ShardedMap}
use ztelem.Buffer.Sharded.Index.{IsSharded, set-IsSharded}
use ztelem.Buffer.Sharded.Laws.{get-set}
use ztelem.Buffer.Lane.{add_merging, add_replacing}

-- What the records `xs`, in their order, make of the buffered record of the key `k`.
module _ {ℓ} {V : Type ℓ} (key : V → Bytes) (k : Bytes) where
  abbrev pub combine : (V → V → V) → V → Option V → Option V
  combine merge x none = some x
  combine merge x (some e) = some (merge e x)

  abbrev pub fold_key : (V → V → V) → List V → Option V → Option V
  fold_key merge [] o = o
  fold_key merge (x ∷ xs) o = fold_key merge xs (if beq (key x) k then combine merge x o else o)

module _ {ℓ} {V : Type ℓ} (key : V → Bytes) where
  same_slot :
      (b : ShardedMap V) (k : Bytes) (x v : V) (o : Option V)
      → IsSharded b
      → o ≡ some v
      → Sharded.get (Sharded.set b (key x) v) k ≡ (if beq (key x) k then o else Sharded.get b k)
  same_slot b k x v o h e =
      get-set b (key x) k v h ∙ ap (λ p. if beq (key x) k then p else Sharded.get b k) (sym e)

  combine_here :
      (b : ShardedMap V) (k : Bytes) (merge : V → V → V) (x : V)
      → (if beq (key x) k then combine key k merge x (Sharded.get b (key x)) else Sharded.get b k)
        ≡ (if beq (key x) k then combine key k merge x (Sharded.get b k) else Sharded.get b k)
  combine_here b k merge x = elim (Bool-cases (beq (key x) k)) [
    | inl e ↦
        ap (λ j. if beq (key x) k then combine key k merge x (Sharded.get b j) else Sharded.get b k)
          ((beq_iff (key x) k).0 e)
    | inr e ↦ rw e refl
  ]

  -- Adding records to a buffer makes of each key's entry what folding the records of that key into it
  -- makes: those of other keys, also of the same shard, have no part in it.
  pub get-add_merging :
      (merge : V → V → V) (k : Bytes) (xs : List V) (b : ShardedMap V) (c : ℕ)
      → IsSharded b
      → Sharded.get (add_merging key merge xs b c).added_buffer k
        ≡ fold_key key k merge xs (Sharded.get b k)
  unfolding add_merging
  get-add_merging merge k [] b c h = refl
  get-add_merging merge k (x ∷ xs) b c h =
      let o = Sharded.get b (key x) in
      elim (Option-cases (Sharded.get b (key x))) [
        | inl q ↦
            rw (q, add_merging)
              (get-add_merging merge k xs (Sharded.set b (key x) x) c (set-IsSharded b (key x) x h)
                ∙ ap (fold_key key k merge xs) (
                    same_slot b k x x (combine key k merge x o) h (ap (combine key k merge x) q)
                    ∙ combine_here b k merge x))
        | inr (e, q) ↦
            rw (q, add_merging)
              (get-add_merging merge k xs (Sharded.set b (key x) (merge e x)) (suc c)
                  (set-IsSharded b (key x) (merge e x) h)
                ∙ ap (fold_key key k merge xs) (
                    same_slot b k x (merge e x) (combine key k merge x o) h
                      (ap (combine key k merge x) q)
                    ∙ combine_here b k merge x))
      ]

  replaced : (k : Bytes) (x : V) (o : Option V) → some x ≡ combine key k (λ old new. new) x o
  replaced k x none = refl
  replaced k x (some e) = refl

  -- Adding reports leaves under each key the last report given with that key.
  pub get-add_replacing :
      (k : Bytes) (xs : List V) (b : ShardedMap V)
      → IsSharded b
      → Sharded.get (add_replacing key xs b) k
        ≡ fold_key key k (λ old new. new) xs (Sharded.get b k)
  unfolding add_replacing
  get-add_replacing k [] b h = refl
  get-add_replacing k (x ∷ xs) b h =
      get-add_replacing k xs (Sharded.set b (key x) x) (set-IsSharded b (key x) x h)
      ∙ ap (fold_key key k (λ old new. new) xs) (
          get-set b (key x) k x h
          ∙ ap (λ o. if beq (key x) k then o else Sharded.get b k) (replaced k x (Sharded.get b k)))
