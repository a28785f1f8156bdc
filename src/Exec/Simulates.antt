-- ===== src/Exec/Simulates.antt =====
-- Refinement of code with effects: one rule for each way in which a block is built.
use go_conflux_sdk.Base.{◌≡◌, refl, ap, subst, String}
use go_conflux_sdk.Result.{Result, ok, err, panic, wrap}
use go_conflux_sdk.Exec.{Exec, continue, ◌>>=◌, lift, wrapping}

-- On the view of a state, n has the outcome that m has on the state, and ends in the view of its end.
pub record Simulates {S T A : Type 0} (view : S → T) (m : Exec S A) (n : Exec T A) : Type 0 where
  pub outcome : (s : S) → (m s).0 ≡ (n (view s)).0
  pub end : (s : S) → view (m s).1 ≡ (n (view s)).1

module _ {S T A : Type 0} {view : S → T} where
  pub Simulates-lift : (r : Result A) → Simulates view (lift {S = S} r) (lift {S = T} r)
  Simulates-lift r = record { outcome = λ s. refl; end = λ s. refl }

  pub Simulates-wrapping :
      (msg : String) (m : Exec S A) (n : Exec T A)
      → Simulates view m n
      → Simulates view (wrapping msg m) (wrapping msg n)
  Simulates-wrapping msg m n h = record {
    outcome = λ s. ap (wrap msg) (h.outcome s);
    end = λ s. h.end s;
  }

module _ {S T A B : Type 0} {view : S → T} where
  continue_both :
      (r : Result A) (s : S) (f : A → Exec S B) (g : A → Exec T B)
      → ((a : A) → Simulates view (f a) (g a))
      → ((continue (r, s) f).0 ≡ (continue (r, view s) g).0)
        × (view (continue (r, s) f).1 ≡ (continue (r, view s) g).1)
  continue_both (ok a) s f g k = ((k a).outcome s, (k a).end s)
  continue_both (err e) s f g k = (refl, refl)
  continue_both panic s f g k = (refl, refl)

  Simulates-step :
      (m : Exec S A) (n : Exec T A) (f : A → Exec S B) (g : A → Exec T B) (s : S)
      → (m s).0 ≡ (n (view s)).0
      → view (m s).1 ≡ (n (view s)).1
      → ((a : A) → Simulates view (f a) (g a))
      → (((m >>= f) s).0 ≡ ((n >>= g) (view s)).0) × (view ((m >>= f) s).1 ≡ ((n >>= g) (view s)).1)
  Simulates-step m n f g s p q k =
      subst
        (λ (o : Result A × T).
          (((m >>= f) s).0 ≡ (continue o g).0) × (view ((m >>= f) s).1 ≡ (continue o g).1))
        (λ i. (p i, q i)) (continue_both (m s).0 (m s).1 f g k)

  pub Simulates-bind :
      (m : Exec S A) (n : Exec T A) (f : A → Exec S B) (g : A → Exec T B)
      → Simulates view m n
      → ((a : A) → Simulates view (f a) (g a))
      → Simulates view (m >>= f) (n >>= g)
  Simulates-bind m n f g h k = record {
    outcome = λ s. (Simulates-step m n f g s (h.outcome s) (h.end s) k).0;
    end = λ s. (Simulates-step m n f g s (h.outcome s) (h.end s) k).1;
  }

pub ruleset simulates_rules = (Simulates-lift, Simulates-wrapping, Simulates-bind)
