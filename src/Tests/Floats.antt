-- ===== src/Tests/Floats.antt =====
-- Numbers that an interface{} holds, written again.
use go_conflux_sdk.Base.{◌≡◌, refl, codes}
use go_conflux_sdk.Json.Decimals.{digits, decimal}
use go_conflux_sdk.Json.Float64.{
  half_even, nearest_above, nearest, multiple, shortest, keep_digit, trim_zeros, fraction,
  scientific, spelled, rounded, float_text,
}

narrow : float_text (codes "9007199254740991") ≡ codes "9007199254740991"
unfolding float_text rounded digits
narrow = refl

-- 2^53 + 1.
odd : float_text (codes "9007199254740993") ≡ codes "9007199254740992"
unfolding float_text rounded digits nearest nearest_above half_even shortest multiple spelled
    decimal
odd = refl

-- 2^64 - 1.
longest : float_text (codes "18446744073709551615") ≡ codes "18446744073709552000"
unfolding float_text rounded digits nearest nearest_above half_even shortest multiple spelled
    decimal
longest = refl

-- 1234 * 10^18 + 1.
exponent : float_text (codes "1234000000000000000001") ≡ codes "1.234e+21"
unfolding float_text rounded digits nearest nearest_above half_even shortest multiple spelled
    decimal scientific fraction trim_zeros keep_digit
exponent = refl
