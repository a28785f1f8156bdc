-- ===== src/Json/Float64.antt =====
-- The numbers of an interface{} that encoding/json has filled are float64. An integer is rounded to the
-- nearest one, to even half way, and encoding/json writes a float64 by the shortest digits that are
-- rounded to it, from 10^21 on with an exponent. A number with a fraction or an exponent is the text of
-- its float64 already; a
-- number beyond the range of float64 makes the call fail before it gets there.
pub mod Narrow
use go_conflux_sdk.Base.{
  ℕ, zero, suc, ◌+◌, ◌*◌, ◌/◌, ◌%◌, ◌^◌, Bool, true, false, ◌&&◌, ◌||◌, ◌==◌, Option, none, some,
  [], ◌∷◌, ◌++◌, Text, length, ltb, if◌then◌else◌,
}
use go_conflux_sdk.Json.{
  Value, null, bool, num, str, arr, obj, Items, nil, cons, Fields, end, field,
}
use go_conflux_sdk.Json.Decimals.{digits, decimal}

-- Half a number, rounded to even half way. `cut` says that digits were cut off before.
unfoldable pub half_even : ℕ → Bool → ℕ
half_even n cut = if n % 2 == 1 && (if cut then true else n / 2 % 2 == 1) then n / 2 + 1 else n / 2

-- A number of more than 53 bits. A float64 has no more than 1024.
unfoldable pub nearest_above : ℕ → ℕ → Bool → ℕ
nearest_above zero n cut = n
nearest_above (suc fuel) n cut =
    let rest = nearest_above fuel (n / 2) (if cut then true else n % 2 == 1) in
    if ltb n (2 ^ 54) then 2 * half_even n cut else 2 * rest

-- The float64 nearest to a number.
unfoldable pub nearest : ℕ → ℕ
nearest n = if ltb n (2 ^ 53) then n else nearest_above 1024 n false

-- The multiple of a power of ten at a float64 that is rounded to it, where there is one: the nearer one
-- of the two beside it, if both are.
unfoldable pub multiple : ℕ → ℕ → ℕ
multiple x unit =
    let low = x / unit * unit in
    let is_low = ltb (2 * (x % unit)) unit || (2 * (x % unit) == unit && x / unit % 2 == 0) in
    if nearest low == x && (if nearest (low + unit) == x then is_low else true)
    then low
    else low + unit

unfoldable pub shortest : ℕ → ℕ → ℕ
shortest zero x = x
shortest (suc k) x =
    let rest = shortest k x in let m = multiple x (10 ^ k) in if nearest m == x then m else rest

unfoldable pub keep_digit : ℕ → Text → Text
keep_digit c [] = if c == b'0' then [] else c ∷ []
keep_digit c (d ∷ s) = c ∷ d ∷ s

unfoldable pub trim_zeros : Text → Text
trim_zeros [] = []
trim_zeros (c ∷ s) = keep_digit c (trim_zeros s)

unfoldable pub fraction : Text → Text
fraction [] = []
fraction (c ∷ s) = b'.' ∷ c ∷ s

-- The digits of a number, as a number from 1 up to 10 and an exponent.
unfoldable pub scientific : Text → Text
scientific [] = []
scientific (c ∷ s) = c ∷ (fraction (trim_zeros s) ++ (b'e' ∷ b'+' ∷ decimal (length s)))

unfoldable pub spelled : ℕ → Text
spelled n = if ltb n (10 ^ 21) then decimal n else scientific (decimal n)

-- What the float64 of a number becomes. The greatest float64 has 309 digits.
unfoldable pub rounded : Text → Option ℕ → Text
rounded t none = t
rounded t (some n) = if ltb n (2 ^ 53) then t else spelled (shortest 309 (nearest n))

unfoldable pub float_text : Text → Text
float_text t = rounded t (digits 0 t)

-- What an interface{} that was filled with a value is written as.
unfoldable mutual
  pub in_interface : Value → Value
  in_interface null = null
  in_interface (bool b) = bool b
  in_interface (num t) = num (float_text t)
  in_interface (str t) = str t
  in_interface (arr vs) = arr (in_items vs)
  in_interface (obj fs) = obj (in_fields fs)

  pub in_items : Items → Items
  in_items nil = nil
  in_items (cons v vs) = cons (in_interface v) (in_items vs)

  pub in_fields : Fields → Fields
  in_fields end = end
  in_fields (field key v fs) = field key (in_interface v) (in_fields fs)
