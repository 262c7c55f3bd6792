-- ===== src/Parser/Names.antt =====
-- The names that internal/parser/telemetry_parser.go gives to the numbers of enums.
use ztelem.Prelude.{
  ℕ, suc, ◌==◌, Bool, true, false, not, ◌&&◌, Bytes, List, [], ◌∷◌, ◌++◌, codes, map, beq, beq_iff,
  format_int, format_int_injective, ℤ, pos, negsuc, ◌≡◌, ◌≢◌, ◌↔◌, refl, sym, ap, ◌∙◌, arith,
  if◌then◌else◌, Bool-cases, inl, inr,
}
use ztelem.Models.Values.{is}
use ztelem.Parser.Enums.{
  convert_alarm_status, convert_admin_status, convert_oper_status, convert_ipv4_oper_status,
  convert_ipv6_oper_status, convert_phy_status,
}

abbrev starts : Bytes → Bytes → Bool
starts [] s = true
starts (b ∷ p) [] = false
starts (b ∷ p) (c ∷ s) = (b == c) && starts p s

abbrev differs : Bytes → List Bytes → Bool
differs name [] = true
differs name (other ∷ others) = not (beq name other) && differs name others

-- No name begins with the prefix, and no two are equal.
abbrev clear : Bytes → List Bytes → Bool
clear prefix [] = true
clear prefix (name ∷ names) = not (starts prefix name) && differs name names && clear prefix names

-- The names of the numbers from `k` on; another number is printed behind the prefix.
abbrev name_from : Bytes → ℕ → List Bytes → ℤ → Bytes
name_from prefix k [] v = prefix ++ format_int v
name_from prefix k (name ∷ names) v = if is k v then name else name_from prefix (suc k) names v

is_lem : (k : ℕ) (v : ℤ) → is k v ≡ true → v ≡ pos k
is_lem k (pos n) h = ap pos (ground arith)
is_lem k (negsuc n) h = absurd (ground arith)

starts-append : (p s : Bytes) → starts p (p ++ s) ≡ true
starts-append [] s = refl
starts-append (b ∷ p) s = ground (arith, starts-append p s)

append_cancel : (p s t : Bytes) → p ++ s ≡ p ++ t → s ≡ t
append_cancel [] s t e = e
append_cancel (b ∷ p) s t e = append_cancel p s t (cc e)

module _ (prefix : Bytes) where
  unused :
      (name : Bytes) (k : ℕ) (names : List Bytes) (v : ℤ)
      → starts prefix name ≡ false
      → differs name names ≡ true
      → name ≢ name_from prefix k names v
  unused name k [] v hp hd e = cc (starts-append prefix (format_int v), hp, e)
  unused name k (other ∷ others) v hp hd e = elim (Bool-cases (is k v)) [
    | inl i ↦ ground (arith, beq_iff name other)
    | inr i ↦ unused name (suc k) others v hp (ground arith) (ground arith)
  ]

  name_from_injective :
      (k : ℕ) (names : List Bytes) (v w : ℤ)
      → clear prefix names ≡ true
      → name_from prefix k names v ≡ name_from prefix k names w
      → v ≡ w
  name_from_injective k [] v w h e = format_int_injective v w (append_cancel prefix _ _ e)
  name_from_injective k (name ∷ names) v w h e =
      let fresh : (u : ℤ) → name ≢ name_from prefix (suc k) names u =
        λ u. unused name (suc k) names u (ground arith) (ground arith) in
      elim (Bool-cases (is k v)) [
        | inl i ↦ elim (Bool-cases (is k w)) [
          | inl j ↦ is_lem k v i ∙ sym (is_lem k w j)
          | inr j ↦ absurd (fresh w (ground arith))
        ]
        | inr i ↦ elim (Bool-cases (is k w)) [
          | inl j ↦ absurd (fresh v (ground arith))
          | inr j ↦ name_from_injective (suc k) names v w (ground arith) (ground arith)
        ]
      ]

alarm_lem : (v w : ℤ) → convert_alarm_status v ≡ convert_alarm_status w → v ≡ w
unfolding convert_alarm_status beq
alarm_lem v w e =
    name_from_injective (codes "UNKNOWN_") 0 (map codes ("INVALID" ∷ "NORMAL" ∷ "ALARM" ∷ [])) v w
      refl e

admin_lem : (v w : ℤ) → convert_admin_status v ≡ convert_admin_status w → v ≡ w
unfolding convert_admin_status beq
admin_lem v w e =
    name_from_injective (codes "ADMIN_STATUS_UNKNOWN_") 0
      (map codes (
        "ADMIN_STATUS_INVALID" ∷ "ADMIN_STATUS_UP" ∷ "ADMIN_STATUS_DOWN" ∷ "ADMIN_STATUS_TESTING"
        ∷ []))
      v w refl e

oper_lem : (v w : ℤ) → convert_oper_status v ≡ convert_oper_status w → v ≡ w
unfolding convert_oper_status beq
oper_lem v w e =
    name_from_injective (codes "OPER_STATUS_UNKNOWN_") 0
      (map codes (
        "OPER_STATUS_INVALID" ∷ "OPER_STATUS_UP" ∷ "OPER_STATUS_DOWN" ∷ "OPER_STATUS_TESTING"
        ∷ "OPER_STATUS_UNKNOWN" ∷ "OPER_STATUS_DORMANT" ∷ "OPER_STATUS_NOT_PRESENT"
        ∷ "OPER_STATUS_LOWER_LAYER_DOWN" ∷ []))
      v w refl e

ipv4_oper_lem : (v w : ℤ) → convert_ipv4_oper_status v ≡ convert_ipv4_oper_status w → v ≡ w
unfolding convert_ipv4_oper_status beq
ipv4_oper_lem v w e =
    name_from_injective (codes "IPV4OPERSTATUS_STATUS_UNKNOWN_") 0
      (map codes (
        "IPV4OPERSTATUS_STATUS_INVALID" ∷ "IPV4OPERSTATUS_STATUS_UP" ∷ "IPV4OPERSTATUS_STATUS_DOWN"
        ∷ []))
      v w refl e

ipv6_oper_lem : (v w : ℤ) → convert_ipv6_oper_status v ≡ convert_ipv6_oper_status w → v ≡ w
unfolding convert_ipv6_oper_status beq
ipv6_oper_lem v w e =
    name_from_injective (codes "IPV6OPERSTATUS_STATUS_UNKNOWN_") 0
      (map codes (
        "IPV6OPERSTATUS_STATUS_INVALID" ∷ "IPV6OPERSTATUS_STATUS_UP" ∷ "IPV6OPERSTATUS_STATUS_DOWN"
        ∷ []))
      v w refl e

phy_lem : (v w : ℤ) → convert_phy_status v ≡ convert_phy_status w → v ≡ w
unfolding convert_phy_status beq
phy_lem v w e =
    name_from_injective (codes "PHY_STATUS_UNKNOWN_") 0
      (map codes ("PHY_STATUS_INVALID" ∷ "PHY_STATUS_UP" ∷ "PHY_STATUS_DOWN" ∷ [])) v w refl e

-- The names that the parser stores for two numbers of an alarm, admin, operational, IPv4, IPv6 or physical
-- status are equal only if the numbers are, also for numbers that the protocol does not define.
pub status_names :
    (v w : ℤ)
    → ((convert_alarm_status v ≡ convert_alarm_status w) ↔ (v ≡ w))
      × ((convert_admin_status v ≡ convert_admin_status w) ↔ (v ≡ w))
      × ((convert_oper_status v ≡ convert_oper_status w) ↔ (v ≡ w))
      × ((convert_ipv4_oper_status v ≡ convert_ipv4_oper_status w) ↔ (v ≡ w))
      × ((convert_ipv6_oper_status v ≡ convert_ipv6_oper_status w) ↔ (v ≡ w))
      × ((convert_phy_status v ≡ convert_phy_status w) ↔ (v ≡ w))
status_names v w = (
  (alarm_lem v w, ap convert_alarm_status),
  (admin_lem v w, ap convert_admin_status),
  (oper_lem v w, ap convert_oper_status),
  (ipv4_oper_lem v w, ap convert_ipv4_oper_status),
  (ipv6_oper_lem v w, ap convert_ipv6_oper_status),
  (phy_lem v w, ap convert_phy_status),
)
