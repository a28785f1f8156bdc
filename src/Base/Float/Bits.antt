-- ===== src/Base/Float/Bits.antt =====
-- The number of bits, and powers of two.
use native.Mathlib.Nat.{zero-add, suc-add, mul_assoc, pow-succ', pow-le-pow_right}
use native.Mathlib.Decide.{dec_lt}
use go_conflux_sdk.Base.{
  ℕ, zero, suc, ◌+◌, ◌*◌, ◌/◌, ◌^◌, ◌≤◌, ◌<◌, ◌≡◌, refl, sym, ap, ◌==◌, Bool-cases, ==_iff, inl,
  inr, arith,
}
use go_conflux_sdk.Base.Float.{bit_len_from, bit_len}

pub pow-add : (a b : ℕ) → 2 ^ (a + b) ≡ 2 ^ a * 2 ^ b
pow-add zero b = rw zero-add (omega arith)
pow-add (suc a) b =
    rw (suc-add a b, pow-succ' 2 (a + b), pow-succ' 2 a, pow-add a b)
      (sym (mul_assoc 2 (2 ^ a) (2 ^ b)))

bit_len_from_zero : (fuel : ℕ) → bit_len_from fuel 0 ≡ 0
unfolding bit_len_from
bit_len_from_zero zero = refl
bit_len_from_zero (suc fuel) = refl

bit_len_from_bounds :
    (fuel n : ℕ)
    → n < suc fuel
    → 0 < n
    → (n < 2 ^ bit_len_from fuel n) × (2 ^ bit_len_from fuel n ≤ 2 * n)
unfolding bit_len_from
bit_len_from_bounds zero n h p = absurd (omega arith)
bit_len_from_bounds (suc fuel) n h p = elim (Bool-cases (n == 0)) [
  | inl e ↦ absurd (ground arith)
  | inr e ↦
      rw (e, pow-succ' 2 (bit_len_from fuel (n / 2)))
        (elim (Bool-cases (n / 2 == 0)) [
          | inl one ↦ ground (
            arith,
            (==_iff (n / 2) 0).0 one,
            ap (bit_len_from fuel) ((==_iff (n / 2) 0).0 one),
            bit_len_from_zero fuel,
          )
          | inr more ↦ ground (arith, bit_len_from_bounds fuel (n / 2))
        ])
]

-- A number that is not 0 has the bits that it needs, and no more.
pub bit_len_bounds : (n : ℕ) → 0 < n → (n < 2 ^ bit_len n) × (2 ^ bit_len n ≤ 2 * n)
unfolding bit_len
bit_len_bounds n p = bit_len_from_bounds n n (omega arith) p

-- A number below a power of two has at most as many bits.
pub bit_len-le : (n k : ℕ) → n < 2 ^ k → bit_len n ≤ k
bit_len-le zero k h = unfold bit_len in omega arith
bit_len-le (suc n) k h = elim (dec_lt k (bit_len (suc n))) [
  | yes more ↦ absurd (
      omega (
        arith,
        bit_len_bounds (suc n) (omega arith),
        pow-le-pow_right {n = 2} (omega arith) more,
        pow-succ' 2 k,
      ))
  | no fits ↦ omega arith
]
