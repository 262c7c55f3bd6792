-- ===== src/Parser/Longest.antt =====
-- The order of the route table.
use ztelem.Prelude.{
  ℕ, ◌≤◌, Bool, true, false, not, ◌&&◌, Bytes, List, [], ◌∷◌, ltb, none, some, ◌≡◌, ◌↔◌, refl, ap,
  subst, arith, length, beq, beq_iff, All, Bool-cases, inl, inr,
}
use ztelem.Parser.Routes.{Route, has_prefix, matches, find_route, routes}

-- An earlier entry takes every path of a later one.
unfoldable shadows : Route → Route → Bool
shadows r s = not r.exact && has_prefix s.path r.path

unfoldable shadows_none : Route → List Route → Bool
shadows_none r [] = true
shadows_none r (s ∷ ss) = not (shadows r s) && shadows_none r ss

unfoldable unshadowed : List Route → Bool
unshadowed [] = true
unshadowed (r ∷ rs) = shadows_none r rs && unshadowed rs

has_prefix_refl : (s : Bytes) → has_prefix s s ≡ true
unfolding has_prefix
has_prefix_refl [] = refl
has_prefix_refl (b ∷ s) = ground (arith, has_prefix_refl s)

has_prefix_parts :
    (a b : ℕ) (s p : Bytes)
    → (has_prefix (a ∷ s) (b ∷ p) ≡ true) ↔ ((a ≡ b) × (has_prefix s p ≡ true))
unfolding has_prefix
has_prefix_parts a b s p = ground arith

-- Of two prefixes of one text the shorter is a prefix of the longer.
has_prefix_nest :
    (s p q : Bytes)
    → has_prefix s p ≡ true
    → has_prefix s q ≡ true
    → length p ≤ length q
    → has_prefix q p ≡ true
unfolding has_prefix
has_prefix_nest s [] q hp hq l = refl
has_prefix_nest [] (b ∷ p) q hp hq l = ground (arith, hp)
has_prefix_nest (a ∷ s) (b ∷ p) [] hp hq l = ground arith
has_prefix_nest (a ∷ s) (b ∷ p) (c ∷ q) hp hq l =
    let i = (has_prefix_parts a b s p).0 hp in
    let j = (has_prefix_parts a c s q).0 hq in
    (has_prefix_parts c b q p).1
      (omega (arith, i.0, j.0), has_prefix_nest s p q i.1 j.1 (omega (arith, l)))

length-has_prefix : (s p : Bytes) → has_prefix s p ≡ true → length p ≤ length s
unfolding has_prefix
length-has_prefix s [] h = omega arith
length-has_prefix [] (b ∷ p) h = ground (arith, h)
length-has_prefix (a ∷ s) (b ∷ p) h =
    omega (arith, length-has_prefix s p ((has_prefix_parts a b s p).0 h).1)

matches-has_prefix :
    (r : Route) (path : Bytes) → matches r path ≡ true → has_prefix path r.path ≡ true
unfolding matches
matches-has_prefix r path h = elim (Bool-cases r.exact) [
  | inl e ↦
      let q : beq path r.path ≡ true = ground (arith, h, e) in
      subst (λ p. has_prefix path p ≡ true) ((beq_iff path r.path).0 q) (has_prefix_refl path)
  | inr e ↦ ground (arith, h, e)
]

-- An entry that does not shadow another is the longer of the two wherever both match.
longer_of :
    (r s : Route) (path : Bytes)
    → shadows r s ≡ false
    → matches r path ≡ true
    → (matches s path && ltb (length r.path) (length s.path)) ≡ false
unfolding shadows matches
longer_of r s path f h = elim (Bool-cases (matches s path)) [
  | inr m ↦ ground (arith, m)
  | inl m ↦
      let hr = matches-has_prefix r path h in
      let hs = matches-has_prefix s path m in
      elim (Bool-cases (ltb (length r.path) (length s.path))) [
        | inr l ↦ ground (arith, l)
        | inl l ↦
            let nested = has_prefix_nest path r.path s.path hr hs (ground (arith, l)) in
            elim (Bool-cases r.exact) [
              | inr e ↦ ground (arith, nested, e, f)
              | inl e ↦
                  let q : beq path r.path ≡ true = ground (arith, h, e) in
                  let same = ap length ((beq_iff path r.path).0 q) in
                  let short = length-has_prefix path s.path hs in ground (arith, l, same, short)
            ]
      ]
]

-- No other entry that matches the path is longer.
abbrev pub Longest : Bytes → List Route → Route → Type 0
Longest path table r =
    All (λ (s : Route). (matches s path && ltb (length r.path) (length s.path)) ≡ false) table

shadows_none-Longest :
    (r : Route) (path : Bytes) (rs : List Route)
    → shadows_none r rs ≡ true
    → matches r path ≡ true
    → Longest path rs r
unfolding shadows_none
shadows_none-Longest r path [] u h = tt
shadows_none-Longest r path (s ∷ rs) u h =
    (longer_of r s path (ground (arith, u)) h, shadows_none-Longest r path rs (ground (arith, u)) h)

find_route-Longest :
    (path : Bytes) (r : Route) (rs : List Route)
    → unshadowed rs ≡ true
    → find_route path rs ≡ some r
    → (matches r path ≡ true) × Longest path rs r
unfolding unshadowed find_route
find_route-Longest path r [] u e = ground (arith, e)
find_route-Longest path r (s ∷ rs) u e = elim (Bool-cases (matches s path)) [
  | inl m ↦
      let here : s ≡ r = ground (arith, e, m) in
      subst (λ t. (matches t path ≡ true) × Longest path (s ∷ rs) t) here
        (m, (ground (arith, m), shadows_none-Longest s path rs (ground (arith, u)) m))
  | inr m ↦
      let rest = find_route-Longest path r rs (ground (arith, u)) (ground (arith, e, m)) in
      (rest.0, (ground (arith, m), rest.1))
]

-- The entry that handles a sensor path matches it, and no other entry of the table that matches it is
-- longer, so the table's order is that of a longest-prefix match.
pub route-Longest :
    (path : Bytes) (r : Route)
    → find_route path routes ≡ some r
    → (matches r path ≡ true) × Longest path routes r
unfolding routes unshadowed shadows_none shadows has_prefix
route-Longest path r e = find_route-Longest path r routes refl e

-- A sensor path has no handler exactly if no entry of the table matches it.
pub unrouted :
    (path : Bytes) (table : List Route)
    → (find_route path table ≡ none) ↔ All (λ (r : Route). matches r path ≡ false) table
unfolding find_route
unrouted path [] = (λ e. tt, λ a. refl)
unrouted path (r ∷ table) = ground (arith, unrouted path table)
