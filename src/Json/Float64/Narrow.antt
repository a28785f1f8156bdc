-- ===== src/Json/Float64/Narrow.antt =====
-- The numbers of at most 53 bits, which a float64 holds as they are.
use go_conflux_sdk.Base.{
  ℕ, zero, suc, ◌*◌, ◌/◌, ◌%◌, ◌^◌, ◌<◌, ◌≤◌, ◌≡◌, refl, Bool, true, false, ==_iff, ◌==◌,
  Bool-cases, inl, inr, some, Text, ltb, if◌then◌else◌, arith,
}
use go_conflux_sdk.Json.Decimals.{digits, decimal, digits-decimal}
use go_conflux_sdk.Json.Float64.{
  half_even, nearest_above, nearest, multiple, shortest, rounded, float_text,
}

pub float_text-narrow : (n : ℕ) (t : Text) → digits 0 t ≡ some n → n < 2 ^ 53 → float_text t ≡ t
unfolding float_text rounded
float_text-narrow n t e h =
    rw e (let small : ltb n (2 ^ 53) ≡ true = ground (arith, h) in rw small refl)

pub float_text-decimal : (n : ℕ) → n < 2 ^ 53 → float_text (decimal n) ≡ decimal n
float_text-decimal n = float_text-narrow n (decimal n) (digits-decimal n)

-- A longer number stays longer.
half_even_long : (n : ℕ) (cut : Bool) → 2 ^ 53 ≤ n → 2 ^ 53 ≤ 2 * half_even n cut
unfolding half_even
half_even_long n cut h = ground (arith, h)

nearest_above_long : (fuel n : ℕ) (cut : Bool) → 2 ^ 53 ≤ n → 2 ^ 53 ≤ nearest_above fuel n cut
unfolding nearest_above
nearest_above_long zero n cut h = h
nearest_above_long (suc fuel) n cut h = elim (Bool-cases (ltb n (2 ^ 54))) [
  | inl e ↦ rw e (half_even_long n cut h)
  | inr e ↦
      let big : 2 ^ 53 ≤ n / 2 = ground (arith, e) in
      let rest : 2 ^ 53 ≤ nearest_above fuel (n / 2) (if cut then true else n % 2 == 1) =
        nearest_above_long fuel (n / 2) (if cut then true else n % 2 == 1) big in
      rw e (omega (arith, rest))
]

pub nearest_long : (n : ℕ) → 2 ^ 53 ≤ n → 2 ^ 53 ≤ nearest n
unfolding nearest
nearest_long n h =
    rw (let e : ltb n (2 ^ 53) ≡ false = ground (arith, h) in e) (nearest_above_long 1024 n false h)

nearest_narrow : (n : ℕ) → n < 2 ^ 53 → nearest n ≡ n
unfolding nearest
nearest_narrow n h = let small : ltb n (2 ^ 53) ≡ true = ground (arith, h) in rw small refl

-- A number whose float64 is long is long.
from_nearest : (n x : ℕ) → nearest n ≡ x → 2 ^ 53 ≤ x → 2 ^ 53 ≤ n
from_nearest n x e h = elim (Bool-cases (ltb n (2 ^ 53))) [
  | inl small ↦ omega (arith, nearest_narrow n (ground (arith, small)), e, h)
  | inr large ↦ ground (arith, large)
]

if_rounded :
    (m rest x : ℕ) → 2 ^ 53 ≤ x → 2 ^ 53 ≤ rest → 2 ^ 53 ≤ (if nearest m == x then m else rest)
if_rounded m rest x h hr = elim (Bool-cases (nearest m == x)) [
  | inl e ↦ rw e (from_nearest m x ((==_iff (nearest m) x).0 e) h)
  | inr e ↦ rw e hr
]

pub shortest_long : (k x : ℕ) → 2 ^ 53 ≤ x → 2 ^ 53 ≤ shortest k x
unfolding shortest
shortest_long zero x h = h
shortest_long (suc k) x h =
    if_rounded (multiple x (10 ^ k)) (shortest k x) x h (shortest_long k x h)
