-- ===== src/Json/Numbers/Narrow.antt =====
-- A number that is too long for an unsigned type of at most 53 bits is too long as a float64 too.
use go_conflux_sdk.Base.{
  ℕ, ◌+◌, ◌*◌, ◌-◌, ◌^◌, ◌≤◌, ◌≡◌, ◌∙◌, refl, sym, ap, ◌&&◌, Bool, true, false, Bool-cases, inl,
  inr, Option, none, some, [], ◌∷◌, ◌++◌, Text, length, ltb, leb, if◌then◌else◌, arith,
}
use go_conflux_sdk.Result.{err}
use go_conflux_sdk.Json.{type_error}
use go_conflux_sdk.Json.Decimals.{digits, decimal, digits-decimal, IsFilled, decimal-IsFilled}
use go_conflux_sdk.Json.Float64.{
  nearest, shortest, fraction, trim_zeros, scientific, spelled, rounded, float_text,
}
use go_conflux_sdk.Json.Float64.Narrow.{nearest_long, shortest_long}
use go_conflux_sdk.Json.Numbers.{below, uint, uint_filled}

if_none : (b : Bool) → ◌≡◌ {A = Option ℕ} (if b then none else none) none
if_none true = refl
if_none false = refl

digits-exponent : (s u : Text) (n : ℕ) → digits n (s ++ (b'e' ∷ u)) ≡ none
unfolding digits
digits-exponent [] u n = refl
digits-exponent (c ∷ s) u n =
    ap (λ (o : Option ℕ). if leb b'0' c && leb c b'9' then o else none)
      (digits-exponent s u (n * 10 + (c - b'0')))
    ∙ if_none (leb b'0' c && leb c b'9')

module _ (bits : ℕ) (short : 2 ^ bits ≤ 2 ^ 53) where
  below_wide : (n : ℕ) → 2 ^ 53 ≤ n → below bits (some n) ≡ err type_error
  unfolding below
  below_wide n h =
      rw (let large : ltb n (2 ^ bits) ≡ false = ground (arith, short, h) in large) refl

  uint_wide :
      (n : ℕ) (t : Text)
      → digits 0 t ≡ some n
      → IsFilled t
      → 2 ^ 53 ≤ n
      → uint bits t ≡ err type_error
  uint_wide n t e filled h = uint_filled bits t filled ∙ ap (below bits) e ∙ below_wide n h

  uint-scientific : (t : Text) → IsFilled t → uint bits (scientific t) ≡ err type_error
  unfolding scientific uint below
  uint-scientific [] (c, s, e) = absurd (cc e)
  uint-scientific (c ∷ s) filled =
      ap (below bits) (digits-exponent (c ∷ fraction (trim_zeros s)) (b'+' ∷ decimal (length s)) 0)

  uint-spelled : (n : ℕ) → 2 ^ 53 ≤ n → uint bits (spelled n) ≡ err type_error
  unfolding spelled
  uint-spelled n h = elim (Bool-cases (ltb n (10 ^ 21))) [
    | inl e ↦ rw e (uint_wide n (decimal n) (digits-decimal n) (decimal-IsFilled n) h)
    | inr e ↦ rw e (uint-scientific (decimal n) (decimal-IsFilled n))
  ]

  uint_float :
      (n : ℕ) → 2 ^ 53 ≤ n → uint bits (spelled (shortest 309 (nearest n))) ≡ err type_error
  uint_float n h =
      uint-spelled (shortest 309 (nearest n)) (shortest_long 309 (nearest n) (nearest_long n h))

  wide_IsFilled : (t : Text) (n : ℕ) → digits 0 t ≡ some n → 2 ^ 53 ≤ n → IsFilled t
  unfolding digits
  wide_IsFilled [] n e h = let none_left : n ≡ 0 = cc e in absurd (omega (arith, none_left, h))
  wide_IsFilled (c ∷ s) n e h = (c, s, refl)

  uint-rounded : (t : Text) (o : Option ℕ) → digits 0 t ≡ o → uint bits (rounded t o) ≡ uint bits t
  unfolding rounded
  uint-rounded t none e = refl
  uint-rounded t (some n) e = elim (Bool-cases (ltb n (2 ^ 53))) [
    | inl small ↦ rw small refl
    | inr large ↦
        let h : 2 ^ 53 ≤ n = ground (arith, large) in
        rw large (uint_float n h ∙ sym (uint_wide n t e (wide_IsFilled t n e h) h))
  ]

  pub uint-float_text : (t : Text) → uint bits (float_text t) ≡ uint bits t
  unfolding float_text
  uint-float_text t = uint-rounded t (digits 0 t) refl
