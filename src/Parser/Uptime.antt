-- ===== src/Parser/Uptime.antt =====
-- `formatUptime` of internal/parser/helpers.go.
use ztelem.Prelude.{
  ℕ, zero, suc, ◌/◌, ◌%◌, ◌==◌, Bytes, ◌∷◌, ◌++◌, ◌≡◌, refl, sym, ap, ◌∙◌, arith, codes, ltb,
  if◌then◌else◌, Bool-cases, inl, inr, format_uint, Lacks, value, value-format_uint, value-zero,
  format_uint-Lacks, cut_first,
}

-- `%02d`
unfoldable pub two_digits : ℕ → Bytes
two_digits n = if ltb n 10 then b'0' ∷ format_uint n else format_uint n

unfoldable pub format_uptime : ℕ → Bytes
format_uptime seconds =
    if seconds == 0
    then codes "00:00:00:00"
    else two_digits (seconds / 86400)
      ++ b':'
        ∷ (two_digits (seconds % 86400 / 3600)
            ++ b':' ∷ (two_digits (seconds % 3600 / 60) ++ b':' ∷ two_digits (seconds % 60)))

value-two_digits : (n : ℕ) → value 0 (two_digits n) ≡ n
unfolding two_digits
value-two_digits n = elim (Bool-cases (ltb n 10)) [
  | inl e ↦ rw e (value-zero (format_uint n) ∙ value-format_uint n)
  | inr e ↦ rw e (value-format_uint n)
]

two_digits_injective : (m n : ℕ) → two_digits m ≡ two_digits n → m ≡ n
two_digits_injective m n e = sym (value-two_digits m) ∙ ap (value 0) e ∙ value-two_digits n

two_digits-Lacks : (n : ℕ) → Lacks b':' (two_digits n)
unfolding two_digits
two_digits-Lacks n =
    let l : Lacks b':' (format_uint n) = format_uint-Lacks b':' n (λ d. omega (arith, d.1)) in
    elim (Bool-cases (ltb n 10)) [ inl e ↦ rw e (λ z. omega (arith, z), l) | inr e ↦ rw e l ]

-- The text for 0 is the one that the general case prints.
format_uptime_parts :
    (seconds : ℕ)
    → format_uptime seconds
      ≡ two_digits (seconds / 86400)
        ++ b':'
          ∷ (two_digits (seconds % 86400 / 3600)
              ++ b':' ∷ (two_digits (seconds % 3600 / 60) ++ b':' ∷ two_digits (seconds % 60)))
unfolding format_uptime two_digits format_uint
format_uptime_parts zero = refl
format_uptime_parts (suc n) = ground arith

-- Two uptimes in seconds with the same dd:hh:mm:ss text are equal, so the text loses nothing.
pub format_uptime_injective : (s t : ℕ) → format_uptime s ≡ format_uptime t → s ≡ t
format_uptime_injective s t e =
    let lacks = two_digits-Lacks in
    let e' = sym (format_uptime_parts s) ∙ e ∙ format_uptime_parts t in
    let a = cut_first b':' _ _ _ _ (lacks _) (lacks _) e' in
    let b = cut_first b':' _ _ _ _ (lacks _) (lacks _) a.1 in
    let c = cut_first b':' _ _ _ _ (lacks _) (lacks _) b.1 in
    let days = two_digits_injective _ _ a.0 in
    let hours = two_digits_injective _ _ b.0 in
    let minutes = two_digits_injective _ _ c.0 in
    let secs = two_digits_injective _ _ c.1 in omega (arith, days, hours, minutes, secs)
