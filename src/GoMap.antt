-- ===== src/GoMap.antt =====
-- A Go map with string keys, as the list of its entries. The order of the entries stands for the
-- order of an iteration, which Go leaves open.
use Prim.Native.Nat.{◌+◌}
use mathlib.Core.Path.{◌≡◌, refl}
use mathlib.Core.Logic.{inl, inr}
use mathlib.Core.Bool.{false}
use mathlib.Core.List.{List, [], ◌∷◌, ◌++◌}
use mathlib.Core.Option.{Option, none, some}
use native.Mathlib.Omega.{arith}
use ztelem.Prelude.{Bytes, beq, beq_iff, if◌then◌else◌, is_some, length, Bool-cases}

abbrev pub GoMap {ℓ} : Type ℓ → Type ℓ
GoMap V = List (Bytes × V)

module _ {ℓ} {V : Type ℓ} where
  -- `v, ok := m[k]`
  unfoldable pub lookup : Bytes → GoMap V → Option V
  lookup k [] = none
  lookup k ((j, v) ∷ m) = if beq j k then some v else lookup k m

  -- `m[k] = v`
  unfoldable pub insert : Bytes → V → GoMap V → GoMap V
  insert k v [] = (k, v) ∷ []
  insert k v ((j, w) ∷ m) = if beq j k then (j, v) ∷ m else (j, w) ∷ insert k v m

  -- `delete(m, k)`
  unfoldable pub delete : Bytes → GoMap V → GoMap V
  delete k [] = []
  delete k ((j, w) ∷ m) = if beq j k then m else (j, w) ∷ delete k m

  -- Every entry has another key than `k`.
  abbrev pub Absent : Bytes → GoMap V → Type 0
  Absent k [] = Unit
  Absent k ((j, w) ∷ m) = (beq j k ≡ false) × Absent k m

  -- No two entries have the same key.
  abbrev pub UniqueKeys : GoMap V → Type 0
  UniqueKeys [] = Unit
  UniqueKeys ((j, w) ∷ m) = Absent j m × UniqueKeys m

  pub lookup-insert :
      (k j : Bytes) (v : V) (m : GoMap V)
      → lookup j (insert k v m) ≡ (if beq k j then some v else lookup j m)
  unfolding lookup insert
  lookup-insert k j v [] = refl
  lookup-insert k j v ((i, w) ∷ m) =
      ground (arith, beq_iff k j, beq_iff i k, beq_iff i j, lookup-insert k j v m)

  pub length-insert :
      (k : Bytes) (v : V) (m : GoMap V)
      → length (insert k v m) ≡ (if is_some (lookup k m) then length m else length m + 1)
  unfolding lookup insert
  length-insert k v [] = omega arith
  length-insert k v ((j, w) ∷ m) = elim (Bool-cases (beq j k)) [
    | inl e ↦ rw e (omega arith)
    | inr e ↦ rw e (ground (arith, length-insert k v m))
  ]

  pub Absent-of_lookup : (k : Bytes) (m : GoMap V) → lookup k m ≡ none → Absent k m
  unfolding lookup
  Absent-of_lookup k [] h = tt
  Absent-of_lookup k ((j, w) ∷ m) h = ground (arith, Absent-of_lookup k m)

  pub lookup-Absent : (k : Bytes) (m : GoMap V) → Absent k m → lookup k m ≡ none
  unfolding lookup
  lookup-Absent k [] h = refl
  lookup-Absent k ((j, w) ∷ m) h = rw h.0 (lookup-Absent k m h.1)

  pub insert-Absent :
      (k j : Bytes) (v : V) (m : GoMap V) → beq k j ≡ false → Absent j m → Absent j (insert k v m)
  unfolding insert
  insert-Absent k j v [] e h = (e, tt)
  insert-Absent k j v ((i, w) ∷ m) e h = ground (arith, insert-Absent k j v m)

  pub insert-UniqueKeys :
      (k : Bytes) (v : V) (m : GoMap V) → UniqueKeys m → UniqueKeys (insert k v m)
  unfolding insert
  insert-UniqueKeys k v [] u = (tt, tt)
  insert-UniqueKeys k v ((i, w) ∷ m) u =
      ground (arith, insert-UniqueKeys k v m, insert-Absent k i v m, beq_iff i k, beq_iff k i)

  pub delete-Absent : (k j : Bytes) (m : GoMap V) → Absent j m → Absent j (delete k m)
  unfolding delete
  delete-Absent k j [] h = tt
  delete-Absent k j ((i, w) ∷ m) h = ground (arith, delete-Absent k j m)

  pub delete-UniqueKeys : (k : Bytes) (m : GoMap V) → UniqueKeys m → UniqueKeys (delete k m)
  unfolding delete
  delete-UniqueKeys k [] u = tt
  delete-UniqueKeys k ((i, w) ∷ m) u = ground (arith, delete-UniqueKeys k m, delete-Absent k i m)

  pub lookup-delete :
      (k j : Bytes) (m : GoMap V)
      → UniqueKeys m
      → lookup j (delete k m) ≡ (if beq k j then none else lookup j m)
  unfolding lookup delete
  lookup-delete k j [] u = ground arith
  lookup-delete k j ((i, w) ∷ m) u = ground (
    arith,
    beq_iff k j,
    beq_iff i k,
    beq_iff i j,
    lookup-delete k j m u.1,
    lookup-Absent j m,
    lookup-Absent i m u.0,
  )

  pub length-delete :
      (k : Bytes) (m : GoMap V)
      → length m ≡ length (delete k m) + (if is_some (lookup k m) then 1 else 0)
  unfolding lookup delete
  length-delete k [] = omega arith
  length-delete k ((i, w) ∷ m) = elim (Bool-cases (beq i k)) [
    | inl e ↦ rw e (omega arith)
    | inr e ↦ rw e (omega (arith, length-delete k m))
  ]

  pub lookup-append :
      (k : Bytes) (m n : GoMap V)
      → lookup k (m ++ n) ≡ (if is_some (lookup k m) then lookup k m else lookup k n)
  unfolding lookup
  lookup-append k [] n = refl
  lookup-append k ((j, w) ∷ m) n = ground (arith, lookup-append k m n)
