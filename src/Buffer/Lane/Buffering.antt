-- ===== src/Buffer/Lane/Buffering.antt =====
-- The loops of `Add…`: how many entries they leave, which keys these have, and under which invariant.
use ztelem.Prelude.{
  ℕ, suc, ◌+◌, Bytes, List, [], ◌∷◌, some, ◌≡◌, refl, ap, ◌∙◌, arith, beq_iff, if◌then◌else◌,
  is_some, length, Option-cases, inl, inr,
}
use ztelem.Buffer.Sharded
use ztelem.Buffer.Sharded.{ShardedMap}
use ztelem.Buffer.Sharded.Index.{IsSharded, set-IsSharded}
use ztelem.Buffer.Sharded.Laws.{get-set, len-set}
use ztelem.Buffer.Lane.{add_merging, add_replacing}

-- Each buffered record stands under its own key.
pub record IsKeyed {ℓ} {V : Type ℓ} (key : V → Bytes) (b : ShardedMap V) : Type ℓ where
  pub sharded : IsSharded b
  pub own_key : (k : Bytes) (v : V) → Sharded.get b k ≡ some v → key v ≡ k

module _ {ℓ} {V : Type ℓ} (key : V → Bytes) where
  set-IsKeyed :
      (b : ShardedMap V) (v : V) (k : Bytes)
      → key v ≡ k
      → IsKeyed key b
      → IsKeyed key (Sharded.set b k v)
  set-IsKeyed b v k e h = record {
    sharded = set-IsSharded b k v h.sharded;
    own_key = λ j w q. ground (arith, get-set b k j v h.sharded, h.own_key j w, beq_iff k j);
  }

  module _ (merge : V → V → V)
      (same_key : (e n : V) → key e ≡ key n → key (merge e n) ≡ key e) where
    merged-IsKeyed :
        (b : ShardedMap V) (e x : V)
        → Sharded.get b (key x) ≡ some e
        → IsKeyed key b
        → IsKeyed key (Sharded.set b (key x) (merge e x))
    merged-IsKeyed b e x q h =
        let k = h.own_key (key x) e q in set-IsKeyed b (merge e x) (key x) (same_key e x k ∙ k) h

    pub add_merging-IsKeyed :
        (xs : List V) (b : ShardedMap V) (c : ℕ)
        → IsKeyed key b
        → IsKeyed key (add_merging key merge xs b c).added_buffer
    unfolding add_merging
    add_merging-IsKeyed [] b c h = h
    add_merging-IsKeyed (x ∷ xs) b c h = elim (Option-cases (Sharded.get b (key x))) [
      | inl q ↦
          rw (q, add_merging)
            (add_merging-IsKeyed xs (Sharded.set b (key x) x) c (set-IsKeyed b x (key x) refl h))
      | inr (e, q) ↦
          rw (q, add_merging)
            (add_merging-IsKeyed xs (Sharded.set b (key x) (merge e x)) (suc c)
              (merged-IsKeyed b e x q h))
    ]

    -- Every record given is either a new entry or counted as a collision.
    pub add_merging_accounts :
        (xs : List V) (b : ShardedMap V) (c : ℕ)
        → IsKeyed key b
        → let r = add_merging key merge xs b c in
          Sharded.len r.added_buffer + r.collisions ≡ Sharded.len b + c + length xs
    unfolding add_merging
    add_merging_accounts [] b c h = omega arith
    add_merging_accounts (x ∷ xs) b c h = elim (Option-cases (Sharded.get b (key x))) [
      | inl q ↦
          let b' = Sharded.set b (key x) x in
          let grown : Sharded.len b' ≡ Sharded.len b + 1 =
            len-set b (key x) x h.sharded
            ∙ ap (λ o. if is_some o then Sharded.len b else Sharded.len b + 1) q in
          rw (q, add_merging)
            (omega (arith, grown, add_merging_accounts xs b' c (set-IsKeyed b x (key x) refl h)))
      | inr (e, q) ↦
          let b' = Sharded.set b (key x) (merge e x) in
          let same : Sharded.len b' ≡ Sharded.len b =
            len-set b (key x) (merge e x) h.sharded
            ∙ ap (λ o. if is_some o then Sharded.len b else Sharded.len b + 1) q in
          rw (q, add_merging)
            (omega (arith, same, add_merging_accounts xs b' (suc c) (merged-IsKeyed b e x q h)))
    ]

  pub add_replacing-IsKeyed :
      (xs : List V) (b : ShardedMap V) → IsKeyed key b → IsKeyed key (add_replacing key xs b)
  unfolding add_replacing
  add_replacing-IsKeyed [] b h = h
  add_replacing-IsKeyed (x ∷ xs) b h =
      add_replacing-IsKeyed xs (Sharded.set b (key x) x) (set-IsKeyed b x (key x) refl h)
