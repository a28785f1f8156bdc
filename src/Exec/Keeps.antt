-- ===== src/Exec/Keeps.antt =====
-- Invariants of code with effects: one rule for each way in which a block is built.
use go_conflux_sdk.Base.{String}
use go_conflux_sdk.Errors.{Error}
use go_conflux_sdk.Result.{Result, ok, err, panic}
use go_conflux_sdk.Exec.{Exec, continue, ◌>>=◌, pure, lift, fail, wrapping}

-- The code leaves a state with the invariant, however it ends.
pub record Keeps {S A : Type 0} (P : S → Type 0) (m : Exec S A) : Type 0 where
  pub at : (s : S) → P s → P (m s).1

module _ {S A : Type 0} {P : S → Type 0} where
  pub Keeps-lift : (outcome : Result A) → Keeps P (lift {S = S} outcome)
  Keeps-lift outcome = record { at = λ s h. h }

  pub Keeps-pure : (value : A) → Keeps P (pure {S = S} value)
  Keeps-pure value = Keeps-lift (ok value)

  pub Keeps-fail : (e : Error) → Keeps P (fail {S = S} {A = A} e)
  Keeps-fail e = record { at = λ s h. h }

  pub Keeps-wrapping : (msg : String) (m : Exec S A) → Keeps P m → Keeps P (wrapping msg m)
  Keeps-wrapping msg m k = record { at = λ s h. k.at s h }

module _ {S A B : Type 0} {P : S → Type 0} where
  continue-keeps :
      (r : Result A) (s : S) (f : A → Exec S B)
      → P s
      → ((a : A) → Keeps P (f a))
      → P (continue (r, s) f).1
  continue-keeps (ok a) s f h k = (k a).at s h
  continue-keeps (err e) s f h k = h
  continue-keeps panic s f h k = h

  pub Keeps-bind :
      (m : Exec S A) (f : A → Exec S B) → Keeps P m → ((a : A) → Keeps P (f a)) → Keeps P (m >>= f)
  Keeps-bind m f km kf = record { at = λ s h. continue-keeps (m s).0 (m s).1 f (km.at s h) kf }

pub ruleset keeps_rules = (Keeps-pure, Keeps-lift, Keeps-fail, Keeps-wrapping, Keeps-bind)
