-- ===== src/Base/Float.antt =====
-- What the program uses of the floats of math/big: SetInt, which is exact, and Quo. A float is
-- mant / 2^scale with a sign; its precision is the greatest number of bits of mant.
pub mod Bits
pub mod Nearest
pub mod Whole
pub mod Order
use go_conflux_sdk.Base.{
  ℕ, zero, suc, ◌+◌, ◌-◌, ◌*◌, ◌/◌, ◌%◌, ◌^◌, Bool, true, false, not, ltb, ◌==◌, if◌then◌else◌,
}
use go_conflux_sdk.Base.Int.{ℤ, pos, negsuc}

-- x.BitLen(); n halvings are enough for n.
pub bit_len_from : ℕ → ℕ → ℕ
bit_len_from zero n = 0
bit_len_from (suc fuel) n = let more = suc (bit_len_from fuel (n / 2)) in if n == 0 then 0 else more

unfoldable pub bit_len : ℕ → ℕ
unfolding bit_len_from
bit_len n = bit_len_from n n

pub record Float : Type 0 where
  pub prec : ℕ
  pub is_neg : Bool
  pub mant : ℕ
  pub scale : ℕ

-- A new float has at least 64 bits, and as many as the number.
abbrev pub prec_of : ℕ → ℕ
prec_of n = if ltb (bit_len n) 64 then 64 else bit_len n

-- new(big.Float).SetInt(x)
unfoldable pub set_int : ℤ → Float
unfolding bit_len
set_int (pos n) = record { prec = prec_of n; is_neg = false; mant = n; scale = 0 }
set_int (negsuc n) = record { prec = prec_of (suc n); is_neg = true; mant = suc n; scale = 0 }

-- The scale at which the whole part of the quotient has p bits, for a dividend of at most p bits.
unfoldable pub scale_for : ℕ → ℕ → ℕ → ℕ
unfolding bit_len
scale_for p n d =
    let k = p + bit_len d - bit_len n in if ltb (n * 2 ^ k / d) (2 ^ p) then k else k - 1

-- A quotient q with the remainder r, rounded to the nearest whole number, a tie to the even one.
abbrev pub round_even : ℕ → ℕ → ℕ → ℕ
round_even q r d = if ltb (2 * r) d then q else if ltb d (2 * r) then q + 1 else q + q % 2

unfoldable pub rounded : ℕ → ℕ → ℕ → ℕ
rounded n d k = round_even (n * 2 ^ k / d) (n * 2 ^ k % d) d

-- The mantissa that was rounded up to p + 1 bits is halved.
unfoldable pub normal : ℕ → Bool → ℕ → ℕ → Float
normal p s m k =
    if m == 2 ^ p
    then (record { prec = p; is_neg = s; mant = 2 ^ (p - 1); scale = k - 1 })
    else (record { prec = p; is_neg = s; mant = m; scale = k })

-- The precision of the result is the greater one of the operands.
abbrev pub greater : ℕ → ℕ → ℕ
greater a b = if ltb a b then b else a

abbrev pub differ : Bool → Bool → Bool
differ true s = not s
differ false s = s

-- n / d at p bits; 0 has no bits.
unfoldable pub quotient : ℕ → Bool → ℕ → ℕ → Float
unfolding scale_for rounded normal
quotient p s n d =
    if n == 0
    then (record { prec = p; is_neg = s; mant = 0; scale = 0 })
    else normal p s (rounded n d (scale_for p n d)) (scale_for p n d)

-- new(big.Float).Quo(x, y), for a divisor that is not 0 and a dividend that is a whole number.
unfoldable pub quo : Float → Float → Float
unfolding quotient
quo x y =
    quotient (greater x.prec y.prec) (differ x.is_neg y.is_neg) (x.mant * 2 ^ y.scale)
      (y.mant * 2 ^ x.scale)
