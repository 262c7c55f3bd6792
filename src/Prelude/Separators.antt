-- ===== src/Prelude/Separators.antt =====
-- A byte string cut at a separator that one of its parts does not hold.
use Prim.Native.Nat.{ℕ}
use mathlib.Core.Path.{◌≡◌, refl}
use mathlib.Core.Logic.{◌≢◌}
use mathlib.Core.List.{[], ◌∷◌, ◌++◌}
use ztelem.Prelude.Tests.{Bytes}
use ztelem.Prelude.Decimal.{Lacks}

module _ (s : ℕ) where
  -- The first separator ends a part that lacks it.
  pub cut_first :
      (x y a b : Bytes) → Lacks s x → Lacks s y → x ++ s ∷ a ≡ y ++ s ∷ b → (x ≡ y) × (a ≡ b)
  cut_first [] [] a b hx hy e = (refl, cc)
  cut_first [] (d ∷ y) a b hx hy e = absurd (hy.0 (cc))
  cut_first (c ∷ x) [] a b hx hy e = absurd (hx.0 (cc))
  cut_first (c ∷ x) (d ∷ y) a b hx hy e = let r = cut_first x y a b hx.1 hy.1 (cc) in (cc r.0, r.1)

  Lacks-absurd : (x a b : Bytes) → Lacks s b → b ≢ x ++ s ∷ a
  Lacks-absurd [] a [] h e = cc
  Lacks-absurd [] a (d ∷ b) h e = h.0 (cc)
  Lacks-absurd (c ∷ x) a [] h e = cc
  Lacks-absurd (c ∷ x) a (d ∷ b) h e = Lacks-absurd x a b h.1 (cc)

  -- The last separator begins a part that lacks it.
  pub cut_last :
      (x y a b : Bytes) → Lacks s a → Lacks s b → x ++ s ∷ a ≡ y ++ s ∷ b → (x ≡ y) × (a ≡ b)
  cut_last [] [] a b ha hb e = (refl, cc)
  cut_last [] (d ∷ y) a b ha hb e = absurd (Lacks-absurd y b a ha (cc))
  cut_last (c ∷ x) [] a b ha hb e = absurd (Lacks-absurd x a b hb (cc))
  cut_last (c ∷ x) (d ∷ y) a b ha hb e = let r = cut_last x y a b ha hb (cc) in (cc r.0, r.1)
