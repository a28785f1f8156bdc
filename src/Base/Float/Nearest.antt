-- ===== src/Base/Float/Nearest.antt =====
-- Quo of math/big rounds to the nearest float.
use native.Mathlib.Nat.{
  mul_assoc, add-mul, pow-succ', div-add-mod', mod-lt, le-div_iff_mul-le, div-lt_iff_lt-mul,
  one-le-pow, mul_left_comm, le_of_lt, mul-le-mul_left, mul-le-mul_right,
}
use go_conflux_sdk.Base.{
  ℕ, zero, suc, ◌+◌, ◌-◌, ◌*◌, ◌/◌, ◌%◌, ◌^◌, ◌≤◌, ◌<◌, ◌≡◌, sym, ap, ◌∙◌, ltb, ◌==◌, ==_iff,
  Bool-cases, inl, inr, arith, Bool, if◌then◌else◌,
}
use go_conflux_sdk.Base.Float.{bit_len, Float, scale_for, round_even, rounded, normal}
use go_conflux_sdk.Base.Float.Bits.{pow-add, bit_len_bounds}

-- f is the float of q + 1 bits that is nearest to n / d; below a power of two, floats are half as far
-- from one another.
pub record Nearest (q n d : ℕ) (f : Float) : Type 0 where
  pub least : 2 ^ q ≤ f.mant
  pub greatest : f.mant < 2 ^ suc q
  pub above : 2 * (f.mant * d) ≤ 2 * (n * 2 ^ f.scale) + d
  pub below : 2 * (n * 2 ^ f.scale) ≤ 2 * (f.mant * d) + d
  pub at_power : f.mant ≡ 2 ^ q → 4 * (f.mant * d) ≤ 4 * (n * 2 ^ f.scale) + d

-- m is a whole number nearest to N / d, whose whole part is w.
record IsRounding (N d w m : ℕ) : Type 0 where
  near_above : 2 * (m * d) ≤ 2 * N + d
  near_below : 2 * N ≤ 2 * (m * d) + d
  not_less : w ≤ m
  exact : m ≡ w → m * d ≤ N
  one_more : m ≤ w + 1

round_even-IsRounding : (N d w r : ℕ) → w * d + r ≡ N → r < d → IsRounding N d w (round_even w r d)
round_even-IsRounding N d w r whole rest = elim (Bool-cases (w % 2 == 0)) [
  | inl even ↦ ground (arith, (==_iff (w % 2) 0).0 even, add-mul w 1 d)
  | inr odd ↦ ground (arith, add-mul w 1 d)
]

product_bounds :
    (n d B K Q C : ℕ)
    → B * K ≡ 2 * Q * C
    → 0 < K
    → n < B
    → B ≤ 2 * n
    → d < C
    → C ≤ 2 * d
    → (Q * d ≤ n * K) × (n * K < 2 * (2 * Q * d))
product_bounds n d B K Q C e K_pos n_lt n_ge d_lt d_ge = omega (
  arith,
  mul-le-mul_right K n_lt,
  mul-le-mul_right K n_ge,
  mul-le-mul_left Q d_ge,
  mul-le-mul_left Q (le_of_lt d_lt),
  add-mul n 1 K,
  mul_assoc 2 n K,
  mul_assoc 2 Q C,
  mul_assoc 2 Q d,
  mul_left_comm Q 2 d,
)

long_divisor : (d c : ℕ) → 1 < d → d < 2 ^ c → 2 ≤ c
long_divisor d zero p h = absurd (omega arith)
long_divisor d (suc zero) p h = absurd (omega arith)
long_divisor d (suc (suc c)) p h = omega arith

twice : (n k : ℕ) → n * 2 ^ suc k ≡ 2 * (n * 2 ^ k)
twice n k = rw (pow-succ' 2 k) (mul_left_comm n 2 (2 ^ k))

twice_left : (k d : ℕ) → 2 ^ suc k * d ≡ 2 * (2 ^ k * d)
twice_left k d = rw (pow-succ' 2 k) (mul_assoc 2 (2 ^ k) d)

suc_sub : (k : ℕ) → suc k - 1 ≡ k
suc_sub k = omega arith

module _ (q n d : ℕ) (hn : 0 < n) (hd : 1 < d) where
  scale_bits :
      (b c k : ℕ)
      → b + k ≡ suc q + c
      → n < 2 ^ b
      → 2 ^ b ≤ 2 * n
      → d < 2 ^ c
      → 2 ^ c ≤ 2 * d
      → (2 ^ q * d ≤ n * 2 ^ k) × (n * 2 ^ k < 2 * (2 ^ suc q * d))
  scale_bits b c k e = rw (pow-succ' 2 q) (
      product_bounds n d (2 ^ b) (2 ^ k) (2 ^ q) (2 ^ c)
        (sym (pow-add b k)
          ∙ ap (λ (i : ℕ). 2 ^ i) e
          ∙ pow-add (suc q) c
          ∙ ap (λ (i : ℕ). i * 2 ^ c) (pow-succ' 2 q))
        (one-le-pow k 2 (omega arith)))

  -- The whole part of the quotient at the scale k has q + 1 bits.
  abbrev HasBits : ℕ → Type 0
  HasBits k = (2 ^ q * d ≤ n * 2 ^ k) × (n * 2 ^ k < 2 ^ suc q * d) × (1 ≤ k)

  chosen-HasBits :
      (k : ℕ)
      → 2 ≤ k
      → 2 ^ q * d ≤ n * 2 ^ k
      → n * 2 ^ k < 2 * (2 ^ suc q * d)
      → HasBits (if ltb (n * 2 ^ k / d) (2 ^ suc q) then k else k - 1)
  chosen-HasBits zero h low high = absurd (omega arith)
  chosen-HasBits (suc k) h low high = elim (Bool-cases (ltb (n * 2 ^ suc k / d) (2 ^ suc q))) [
    | inl fits ↦ rw fits (low, (div-lt_iff_lt-mul d_pos).0 (ground arith), omega arith)
    | inr long ↦
        let at_least =
          (le-div_iff_mul-le {x = 2 ^ suc q} {y = n * 2 ^ suc k} d_pos).0 (ground arith) in
        rw (long, suc_sub k) (omega (arith, twice n k, twice_left q d))
  ]
    where
      d_pos : 0 < d
      d_pos = omega arith

  scale_for-HasBits : bit_len n ≤ suc q → HasBits (scale_for (suc q) n d)
  unfolding scale_for
  scale_for-HasBits fits =
      let c = bit_len_bounds d (omega arith) in
      let b = bit_len_bounds n hn in
      let long = long_divisor d (bit_len d) hd c.0 in
      let bits =
        scale_bits (bit_len n) (bit_len d) (suc q + bit_len d - bit_len n) (omega arith) b.0 b.1 c.0
          c.1 in
      chosen-HasBits (suc q + bit_len d - bit_len n) (omega arith) bits.0 bits.1

  normal-Nearest :
      (k m : ℕ) (s : Bool)
      → HasBits k
      → IsRounding (n * 2 ^ k) d (n * 2 ^ k / d) m
      → Nearest q n d (normal (suc q) s m k)
  unfolding normal
  normal-Nearest zero m s bits r = absurd (omega arith)
  normal-Nearest (suc k) m s bits r = elim (Bool-cases (m == 2 ^ suc q)) [
    | inl carry ↦
        let product = ap (λ (i : ℕ). i * d) ((==_iff m (2 ^ suc q)).0 carry) in
        rw (carry, suc_sub q, suc_sub k)
          (ground (
            arith,
            product,
            twice n k,
            twice_left q d,
            pow-succ' 2 q,
            one-le-pow q 2 (omega arith),
          ))
    | inr fits ↦
        let low =
          (le-div_iff_mul-le {k = d} {x = 2 ^ q} {y = n * 2 ^ suc k} (omega arith)).1 bits.0 in
        let high =
          (div-lt_iff_lt-mul {k = d} {x = n * 2 ^ suc k} {y = 2 ^ suc q} (omega arith)).1 bits.1 in
        rw fits (ground arith)
  ]

  -- The quotient of two whole numbers at q + 1 bits, which the dividend does not exceed.
  pub quotient-Nearest :
      (s : Bool)
      → bit_len n ≤ suc q
      → Nearest q n d
          (normal (suc q) s (rounded n d (scale_for (suc q) n d)) (scale_for (suc q) n d))
  unfolding rounded
  quotient-Nearest s fits =
      let k = scale_for (suc q) n d in
      normal-Nearest k (rounded n d k) s (scale_for-HasBits fits) (
        round_even-IsRounding (n * 2 ^ k) d (n * 2 ^ k / d) (n * 2 ^ k % d)
          (div-add-mod' (n * 2 ^ k) d) (mod-lt (n * 2 ^ k) (omega arith)))
