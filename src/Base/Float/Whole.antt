-- ===== src/Base/Float/Whole.antt =====
-- Quo of math/big on two whole numbers.
use native.Mathlib.Nat.{mul-one}
use go_conflux_sdk.Base.{
  ℕ, zero, suc, ◌-◌, ◌*◌, ◌^◌, ◌≤◌, ◌<◌, ◌≡◌, refl, sym, subst, Bool, true, false, ◌==◌, Bool-cases,
  inl, inr, arith,
}
use go_conflux_sdk.Base.Int.{ℤ, pos, negsuc}
use go_conflux_sdk.Base.Float.{
  bit_len, Float, prec_of, greater, differ, set_int, quo, quotient, normal, rounded, scale_for,
}
use go_conflux_sdk.Base.Float.Nearest.{Nearest, quotient-Nearest}

abbrev pub magnitude : ℤ → ℕ
magnitude (pos n) = n
magnitude (negsuc n) = suc n

suc_sub : (k : ℕ) → suc k - 1 ≡ k
suc_sub k = omega arith

quotient_at_bits :
    (p n d : ℕ) (s : Bool)
    → 0 < n
    → 1 < d
    → 1 ≤ p
    → bit_len n ≤ p
    → Nearest (p - 1) n d (quotient p s n d)
unfolding quotient
quotient_at_bits zero n d s hn hd hp fits = absurd (omega arith)
quotient_at_bits (suc q) n d s hn hd hp fits = elim (Bool-cases (n == 0)) [
  | inl e ↦ absurd (ground arith)
  | inr e ↦ rw e (
      subst
        (λ (i : ℕ).
          Nearest i n d
            (normal (suc q) s (rounded n d (scale_for (suc q) n d)) (scale_for (suc q) n d)))
        (sym (suc_sub q)) (quotient-Nearest q n d hn hd s fits))
]

-- The precision is enough for the dividend, and not 0.
greater_prec :
    (n d : ℕ)
    → (1 ≤ greater (prec_of n) (prec_of d)) × (bit_len n ≤ greater (prec_of n) (prec_of d))
greater_prec n d = ground arith

-- The rounding of a quotient of whole numbers is to the nearest.
pub quo-Nearest :
    (x : ℤ) (d : ℕ)
    → 0 < magnitude x
    → 1 < d
    → Nearest
        (greater (prec_of (magnitude x)) (prec_of d) - 1)
        (magnitude x)
        d
        (quo (set_int x) (set_int (pos d)))
unfolding quo set_int
quo-Nearest (pos n) d h hd =
    let p = greater_prec n d in
    rw (mul-one n, mul-one d) (quotient_at_bits _ n d false h hd p.0 p.1)
quo-Nearest (negsuc n) d h hd =
    let p = greater_prec (suc n) d in
    rw (mul-one (suc n), mul-one d) (quotient_at_bits _ (suc n) d true h hd p.0 p.1)

-- 0 divided is 0.
pub quo_zero : (d : ℕ) → (quo (set_int (pos 0)) (set_int (pos d))).mant ≡ 0
unfolding quo quotient set_int
quo_zero d = refl

quotient_is_neg : (p n d : ℕ) (s : Bool) → (quotient p s n d).is_neg ≡ s
unfolding quotient
quotient_is_neg p n d s = ground arith

pub quo_is_neg : (x y : Float) → (quo x y).is_neg ≡ differ x.is_neg y.is_neg
unfolding quo
quo_is_neg x y =
    quotient_is_neg (greater x.prec y.prec) (x.mant * 2 ^ y.scale) (y.mant * 2 ^ x.scale)
      (differ x.is_neg y.is_neg)
