-- ===== src/Tests/Rates.antt =====
-- Confirmation risks as floats.
use go_conflux_sdk.Base.{◌≡◌, refl, ◌+◌, ◌-◌, ◌^◌, ◌≤◌, true, false, some, arith}
use go_conflux_sdk.Base.Int.{pos, negsuc}
use go_conflux_sdk.Base.Float.{Float, quo, set_int}
use go_conflux_sdk.Base.Float.Nearest.{Nearest}
use go_conflux_sdk.Base.Float.Order.{AtMost}
use go_conflux_sdk.Result.{ok}
use go_conflux_sdk.Types.Address.{max_uint256}
use go_conflux_sdk.Utils.Risk.{
  risk_rate, rate_prec, calc_block_confirmation_risk, calc_block_confirmation_risk-Nearest,
  calc_block_confirmation_risk-AtMost,
}

-- The greatest risk is exactly 1.
greatest_rate :
    risk_rate (pos max_uint256) ≡ record { prec = 256; is_neg = false; mant = 2 ^ 255; scale = 255 }
unfolding risk_rate quo set_int
greatest_rate = refl

-- The least risk is a little more than half a unit above 2^-256, and is rounded up.
least_rate :
    risk_rate (pos 1) ≡ record { prec = 256; is_neg = false; mant = 2 ^ 255 + 1; scale = 511 }
unfolding risk_rate quo set_int
least_rate = refl

-- A quotient that needs no rounding.
carried :
    quo (set_int (pos (2 ^ 128 - 1))) (set_int (pos (2 ^ 64)))
    ≡ record { prec = 128; is_neg = false; mant = 2 ^ 128 - 1; scale = 64 }
unfolding quo set_int
carried = refl

calc_block_confirmation_risk-Nearest_example :
    (f : Float) × (calc_block_confirmation_risk (some (negsuc 6)) ≡ ok f)
    × (f.is_neg ≡ true)
    × Nearest (rate_prec (negsuc 6) - 1) 7 max_uint256 f
calc_block_confirmation_risk-Nearest_example =
    calc_block_confirmation_risk-Nearest (negsuc 6) (omega arith)

calc_block_confirmation_risk-AtMost_example :
    (f : Float) × (g : Float) × (calc_block_confirmation_risk (some (pos 5)) ≡ ok f)
    × (calc_block_confirmation_risk (some (pos (2 ^ 255))) ≡ ok g)
    × (f.is_neg ≡ false)
    × (g.is_neg ≡ false)
    × AtMost f g
    × (g.mant ≤ 2 ^ g.scale)
calc_block_confirmation_risk-AtMost_example =
    calc_block_confirmation_risk-AtMost 5 (2 ^ 255) (omega arith) (omega arith)
