-- ===== src/Base/Float/Order.antt =====
-- The order of the nearest floats.
use native.Mathlib.Nat.{
  mul_assoc, mul_comm, add-mul, pow-succ', mul-le-mul_left, mul-le-mul_right, mul_left_comm,
  le_of_lt, one-le-pow, le_trans, le_of_lt, pow-le-pow_right,
}
use native.Mathlib.Decide.{dec_lt}
use go_conflux_sdk.Base.{ℕ, ◌+◌, ◌*◌, ◌^◌, ◌≤◌, ◌<◌, ◌≡◌, ap, arith}
use go_conflux_sdk.Base.Float.{Float}
use go_conflux_sdk.Base.Float.Nearest.{Nearest}

-- The magnitude of f is not above that of g.
abbrev pub AtMost : Float → Float → Type 0
AtMost f g = f.mant * 2 ^ g.scale ≤ g.mant * 2 ^ f.scale

-- Less than a unit does not separate two whole numbers.
le_of_less_apart : (a b d : ℕ) → a * d < b * d + d → a ≤ b
le_of_less_apart a b d h = elim (dec_lt b a) [
  | yes less ↦ absurd (omega (arith, mul-le-mul_right d less, add-mul b 1 d))
  | no other ↦ omega arith
]

-- A quotient of at most 1 has a float of at most 1.
pub Nearest-le-one :
    (q n d : ℕ) (f : Float) → 0 < d → n ≤ d → Nearest q n d f → f.mant ≤ 2 ^ f.scale
Nearest-le-one q n d f p le h =
    le_of_less_apart f.mant (2 ^ f.scale) d
      (omega (arith, h.above, mul-le-mul_right (2 ^ f.scale) le, mul_comm d (2 ^ f.scale)))

module _ (q d n n' : ℕ) (d_pos : 0 < d) (less : n < n') (f g : Float) (hf : Nearest q n d f)
    (hg : Nearest q n' d g) where
  same_scale : f.scale ≡ g.scale → AtMost f g
  same_scale e =
      let below : 2 * (n' * 2 ^ f.scale) ≤ 2 * (g.mant * d) + d = rw e hg.below in
      let m_le : f.mant ≤ g.mant = le_of_less_apart f.mant g.mant d (
        omega (
          arith,
          hf.above,
          below,
          mul-le-mul_right (2 ^ f.scale) less,
          add-mul n 1 (2 ^ f.scale),
          one-le-pow f.scale 2 (omega arith),
        )) in
      rw e (mul-le-mul_right (2 ^ g.scale) m_le)

  -- The float with the smaller scale is the greater one.
  smaller_scale : g.scale < f.scale → AtMost f g
  smaller_scale h = le_trans (mul-le-mul_right (2 ^ g.scale) (le_of_lt hf.greatest)) (
      le_trans
        (omega (
          arith,
          ap (λ (i : ℕ). i * 2 ^ g.scale) (pow-succ' 2 q),
          ap (λ (i : ℕ). 2 ^ q * i) (pow-succ' 2 g.scale),
          mul_assoc 2 (2 ^ q) (2 ^ g.scale),
          mul_left_comm (2 ^ q) 2 (2 ^ g.scale),
          mul-le-mul_left (2 ^ q) (pow-le-pow_right {n = 2} (omega arith) h),
        ))
        (mul-le-mul_right (2 ^ f.scale) hg.least))

  below_power : 4 * (2 ^ q * d) ≤ 4 * (n * 2 ^ f.scale) + d
  below_power = elim (dec_lt (2 ^ q) f.mant) [
    | yes more ↦ omega (arith, hf.above, mul-le-mul_right d more, add-mul (2 ^ q) 1 d)
    | no same ↦
        let e : f.mant ≡ 2 ^ q = omega (arith, hf.least) in
        omega (arith, hf.at_power e, ap (λ (i : ℕ). i * d) e)
  ]

  -- The greater quotient has no greater scale.
  greater_scale : f.scale < g.scale → AtMost f g
  greater_scale h = absurd (
      omega (
        arith,
        below_power,
        hg.below,
        mul-le-mul_right d hg.greatest,
        add-mul g.mant 1 d,
        ap (λ (i : ℕ). i * d) (pow-succ' 2 q),
        mul_assoc 2 (2 ^ q) d,
        mul-le-mul_left n (pow-le-pow_right {n = 2} (omega arith) h),
        ap (λ (i : ℕ). n * i) (pow-succ' 2 f.scale),
        mul_left_comm n 2 (2 ^ f.scale),
        mul-le-mul_right (2 ^ g.scale) less,
        add-mul n 1 (2 ^ g.scale),
        one-le-pow g.scale 2 (omega arith),
      ))

  pub Nearest-AtMost : AtMost f g
  Nearest-AtMost = elim (dec_lt f.scale g.scale) [
    | yes h ↦ greater_scale h
    | no h ↦ elim (dec_lt g.scale f.scale) [
      | yes h' ↦ smaller_scale h'
      | no h' ↦ same_scale (omega arith)
    ]
  ]
