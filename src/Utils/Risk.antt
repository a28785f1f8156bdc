-- ===== src/Utils/Risk.antt =====
-- CalcBlockConfirmationRisk of utils/utils.go.
use native.Mathlib.Decide.{dec_lt}
use native.Mathlib.Nat.{le_refl}
use go_conflux_sdk.Base.{
  ℕ, zero, suc, ◌-◌, ◌^◌, ◌≤◌, ◌<◌, ◌≡◌, refl, subst, Bool, true, false, Option, none, some, arith,
}
use go_conflux_sdk.Base.Int.{ℤ, pos, negsuc}
use go_conflux_sdk.Base.Float.{bit_len, Float, prec_of, greater, set_int, quo}
use go_conflux_sdk.Base.Float.Bits.{bit_len-le}
use go_conflux_sdk.Base.Float.Nearest.{Nearest}
use go_conflux_sdk.Base.Float.Whole.{magnitude, quo-Nearest, quo_zero, quo_is_neg}
use go_conflux_sdk.Base.Float.Order.{AtMost, Nearest-AtMost, Nearest-le-one}
use go_conflux_sdk.Result.{Result, ok, panic}
use go_conflux_sdk.Types.Address.{max_uint256}

-- A risk is a fraction of the greatest number of 256 bits.
unfoldable pub risk_rate : ℤ → Float
risk_rate risk = quo (set_int risk) (set_int (pos max_uint256))

-- SetInt reads through a nil pointer.
unfoldable pub calc_block_confirmation_risk : Option ℤ → Result Float
unfolding risk_rate
calc_block_confirmation_risk none = panic
calc_block_confirmation_risk (some risk) = ok (risk_rate risk)

abbrev pub is_negative : ℤ → Bool
is_negative (pos n) = false
is_negative (negsuc n) = true

-- The bits of the rate: those of the risk, and at least 256.
abbrev pub rate_prec : ℤ → ℕ
rate_prec risk = greater (prec_of (magnitude risk)) 256

max_prec : prec_of max_uint256 ≡ 256
unfolding bit_len
max_prec = refl

risk_rate-Nearest :
    (risk : ℤ)
    → 0 < magnitude risk
    → Nearest (rate_prec risk - 1) (magnitude risk) max_uint256 (risk_rate risk)
unfolding risk_rate
risk_rate-Nearest risk h =
    subst
      (λ (p : ℕ).
        Nearest (greater (prec_of (magnitude risk)) p - 1) (magnitude risk) max_uint256
          (risk_rate risk))
      max_prec (quo-Nearest risk max_uint256 h (omega arith))

rate_prec_256 : (risk : ℕ) → risk ≤ max_uint256 → rate_prec (pos risk) ≡ 256
rate_prec_256 risk h = let bits = bit_len-le risk 256 (omega arith) in ground arith

-- Within 256 bits all rates have 256 bits.
rate_of_256 :
    (risk : ℕ) → 0 < risk → risk ≤ max_uint256 → Nearest 255 risk max_uint256 (risk_rate (pos risk))
rate_of_256 risk h le =
    subst (λ (p : ℕ). Nearest (p - 1) risk max_uint256 (risk_rate (pos risk)))
      (rate_prec_256 risk le) (risk_rate-Nearest (pos risk) h)

zero_rate : (risk_rate (pos 0)).mant ≡ 0
unfolding risk_rate
zero_rate = quo_zero max_uint256

-- A rate that is 0 is not above another.
zero-AtMost : (g : Float) → AtMost (risk_rate (pos 0)) g
zero-AtMost g = rw zero_rate (omega arith)

risk_rate-AtMost :
    (r s : ℕ) → r ≤ s → s ≤ max_uint256 → AtMost (risk_rate (pos r)) (risk_rate (pos s))
risk_rate-AtMost zero s le small = zero-AtMost (risk_rate (pos s))
risk_rate-AtMost (suc r) s le small = elim (dec_lt (suc r) s) [
  | yes less ↦
      Nearest-AtMost 255 max_uint256 (suc r) s (omega arith) less (risk_rate (pos (suc r)))
        (risk_rate (pos s)) (rate_of_256 (suc r) (omega arith) (omega arith))
        (rate_of_256 s (omega arith) small)
  | no same ↦
      subst (λ (t : ℕ). AtMost (risk_rate (pos (suc r))) (risk_rate (pos t))) (omega arith)
        (le_refl _)
]

risk_rate-le-one :
    (s : ℕ) → s ≤ max_uint256 → (risk_rate (pos s)).mant ≤ 2 ^ (risk_rate (pos s)).scale
risk_rate-le-one zero small = rw zero_rate (omega arith)
risk_rate-le-one (suc s) small =
    Nearest-le-one 255 (suc s) max_uint256 (risk_rate (pos (suc s))) (omega arith) small
      (rate_of_256 (suc s) (omega arith) small)

sign_of_rate : (risk : ℤ) → (risk_rate risk).is_neg ≡ is_negative risk
unfolding risk_rate set_int
sign_of_rate (pos n) = quo_is_neg (set_int (pos n)) (set_int (pos max_uint256))
sign_of_rate (negsuc n) = quo_is_neg (set_int (negsuc n)) (set_int (pos max_uint256))

-- The rate of a risk that is not 0 has its sign and is the float nearest to the quotient of its
-- magnitude by 2^256 - 1, with 256 bits or as many as the risk has.
pub calc_block_confirmation_risk-Nearest :
    (risk : ℤ)
    → 0 < magnitude risk
    → (f : Float) × (calc_block_confirmation_risk (some risk) ≡ ok f)
      × (f.is_neg ≡ is_negative risk)
      × Nearest (rate_prec risk - 1) (magnitude risk) max_uint256 f
unfolding calc_block_confirmation_risk
calc_block_confirmation_risk-Nearest risk h =
    (risk_rate risk, refl, sign_of_rate risk, risk_rate-Nearest risk h)

-- The rates of two risks of at most 2^256 - 1, neither below 0, are not negative, in the order of the
-- risks, and at most 1.
pub calc_block_confirmation_risk-AtMost :
    (r s : ℕ)
    → r ≤ s
    → s ≤ max_uint256
    → (f : Float) × (g : Float) × (calc_block_confirmation_risk (some (pos r)) ≡ ok f)
      × (calc_block_confirmation_risk (some (pos s)) ≡ ok g)
      × (f.is_neg ≡ false)
      × (g.is_neg ≡ false)
      × AtMost f g
      × (g.mant ≤ 2 ^ g.scale)
unfolding calc_block_confirmation_risk
calc_block_confirmation_risk-AtMost r s le small = (
  risk_rate (pos r),
  risk_rate (pos s),
  refl,
  refl,
  sign_of_rate (pos r),
  sign_of_rate (pos s),
  risk_rate-AtMost r s le small,
  risk_rate-le-one s small,
)
