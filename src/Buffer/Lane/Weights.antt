-- ===== src/Buffer/Lane/Weights.antt =====
-- Records and batches of records counted with weights.
use ztelem.Prelude.{
  ℕ, zero, suc, ◌+◌, ◌≤◌, List, [], ◌∷◌, ◌++◌, some, ◌≡◌, refl, arith, take, drop, replicate,
  get_elem?,
}
use ztelem.Buffer.Lane.{Lane}

module _ {ℓ} {V : Type ℓ} where
  -- Records counted by a weight for each: by 1 for one record and 0 for the others, how often it occurs.
  abbrev pub weight : (V → ℕ) → List V → ℕ
  weight w [] = 0
  weight w (x ∷ xs) = w x + weight w xs

  abbrev pub weights : (V → ℕ) → List (List V) → ℕ
  weights w [] = 0
  weights w (b ∷ bs) = weight w b + weights w bs

  -- What has left the buffer and is not lost: held by a writer, queued, or stored, every copy.
  abbrev pub held : (V → ℕ) → Lane V → ℕ
  held w lane = weights w lane.in_flight + weights w lane.channel + weights w lane.stored

  pub weight-append : (w : V → ℕ) (xs ys : List V) → weight w (xs ++ ys) ≡ weight w xs + weight w ys
  weight-append w [] ys = omega arith
  weight-append w (x ∷ xs) ys = omega (arith, weight-append w xs ys)

  pub weights-append :
      (w : V → ℕ) (xs ys : List (List V)) → weights w (xs ++ ys) ≡ weights w xs + weights w ys
  weights-append w [] ys = omega arith
  weights-append w (x ∷ xs) ys = omega (arith, weights-append w xs ys)

  pub weights-split :
      (w : V → ℕ) (n : ℕ) (bs : List (List V))
      → weights w (take n bs) + weights w (drop n bs) ≡ weights w bs
  weights-split w zero bs = omega arith
  weights-split w (suc n) [] = omega arith
  weights-split w (suc n) (b ∷ bs) = omega (arith, weights-split w n bs)

  pub weights-get_elem :
      (w : V → ℕ) (n : ℕ) (bs : List (List V)) (b : List V)
      → get_elem? bs n ≡ some b
      → weights w (take n bs ++ drop (suc n) bs) + weight w b ≡ weights w bs
  weights-get_elem w n [] b e = absurd (cc e)
  weights-get_elem w zero (c ∷ bs) b e = let q : c ≡ b = cc e in rw (← q) (omega arith)
  weights-get_elem w (suc n) (c ∷ bs) b e = omega (arith, weights-get_elem w n bs b e)

  pub weights-copies :
      (w : V → ℕ) (n : ℕ) (b : List V)
      → (1 ≤ n → weight w b ≤ weights w (replicate n b))
        × (n ≡ 1 → weights w (replicate n b) ≡ weight w b)
        × (n ≡ 0 → weights w (replicate n b) ≡ 0)
  weights-copies w zero b = (λ h. absurd (omega arith), λ h. absurd (omega arith), λ h. refl)
  weights-copies w (suc zero) b = (λ h. omega arith, λ h. omega arith, λ h. absurd (omega arith))
  weights-copies w (suc (suc n)) b =
      (λ h. omega arith, λ h. absurd (omega arith), λ h. absurd (omega arith))
