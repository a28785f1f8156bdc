-- ===== src/Json/Decimals.antt =====
-- A number in decimal digits.
use go_conflux_sdk.Base.{
  ℕ, zero, suc, ◌+◌, ◌-◌, ◌*◌, ◌/◌, ◌%◌, ◌≤◌, ◌≡◌, refl, ◌&&◌, ◌==◌, true, ==_iff, Option, none,
  some, [], ◌∷◌, Text, leb, if◌then◌else◌, arith, Bool-cases, inl, inr, ap, ◌∙◌,
}

unfoldable pub digits : ℕ → Text → Option ℕ
digits n [] = some n
digits n (c ∷ s) =
    let rest = digits (n * 10 + (c - b'0')) s in if leb b'0' c && leb c b'9' then rest else none

-- The digits of a number before a text. A number has fewer digits than its size.
decimal_from : ℕ → ℕ → Text → Text
decimal_from zero n out = out
decimal_from (suc fuel) n out =
    let rest = decimal_from fuel (n / 10) ((b'0' + n % 10) ∷ out) in if n == 0 then out else rest

unfoldable pub decimal : ℕ → Text
unfolding decimal_from
decimal n = decimal_from n (n / 10) ((b'0' + n % 10) ∷ [])

digits_step : (n : ℕ) (out : Text) → digits (n / 10) ((b'0' + n % 10) ∷ out) ≡ digits n out
unfolding digits
digits_step n out =
    let low : leb b'0' (b'0' + n % 10) && leb (b'0' + n % 10) b'9' ≡ true = ground arith in
    let sum : n / 10 * 10 + (b'0' + n % 10 - b'0') ≡ n = omega arith in rw (low, sum) refl

digits-decimal_from :
    (fuel n : ℕ) (out : Text) → n ≤ fuel → digits 0 (decimal_from fuel n out) ≡ digits n out
unfolding decimal_from
digits-decimal_from zero n out h = ap (λ (m : ℕ). digits m out) (omega arith)
digits-decimal_from (suc fuel) n out h = elim (Bool-cases (n == 0)) [
  | inl e ↦ rw e (ap (λ (m : ℕ). digits m out) (omega (arith, (==_iff n 0).0 e)))
  | inr e ↦
      rw e (
        digits-decimal_from fuel (n / 10) ((b'0' + n % 10) ∷ out) (omega arith) ∙ digits_step n out)
]

-- A text that is not empty.
abbrev pub IsFilled : Text → Type 0
IsFilled t = (c : ℕ) × (s : Text) × (t ≡ c ∷ s)

decimal_from-IsFilled : (fuel n c : ℕ) (s : Text) → IsFilled (decimal_from fuel n (c ∷ s))
unfolding decimal_from
decimal_from-IsFilled zero n c s = (c, s, refl)
decimal_from-IsFilled (suc fuel) n c s = elim (Bool-cases (n == 0)) [
  | inl e ↦ (c, s, rw e refl)
  | inr e ↦
      let rest : IsFilled (decimal_from fuel (n / 10) ((b'0' + n % 10) ∷ c ∷ s)) =
        decimal_from-IsFilled fuel (n / 10) (b'0' + n % 10) (c ∷ s) in
      (rest.0, rest.1, rw e rest.2)
]

pub digits-decimal : (n : ℕ) → digits 0 (decimal n) ≡ some n
unfolding decimal digits
digits-decimal n =
    digits-decimal_from n (n / 10) ((b'0' + n % 10) ∷ []) (omega arith) ∙ digits_step n []

pub decimal-IsFilled : (n : ℕ) → IsFilled (decimal n)
unfolding decimal
decimal-IsFilled n = decimal_from-IsFilled n (n / 10) (b'0' + n % 10) []
