-- ===== src/Exec/Gives.antt =====
-- What holds after code with effects when it succeeds: a rule for each way in which a block is built.
use go_conflux_sdk.Base.{String, ◌≡◌, refl}
use go_conflux_sdk.Result.{Result, ok, err, panic, wrap}
use go_conflux_sdk.Exec.{Exec, continue, ◌>>=◌}
use go_conflux_sdk.Exec.Keeps.{Keeps}

pub record Gives {S A : Type 0} (Q : S → Type 0) (m : Exec S A) : Type 0 where
  pub after : (s : S) (a : A) → (m s).0 ≡ ok a → Q (m s).1

-- The first part of a block that succeeds has succeeded.
pub continue_ok :
    {S A B : Type 0} (r : Result A) (s : S) (f : A → Exec S B) (b : B)
    → (continue (r, s) f).0 ≡ ok b
    → (a : A) × (r ≡ ok a) × ((f a s).0 ≡ ok b)
continue_ok (ok a) s f b e = (a, refl, e)
continue_ok (err x) s f b e = absurd (cc e)
continue_ok panic s f b e = absurd (cc e)

pub wrap_ok : {A : Type 0} (msg : String) (r : Result A) (a : A) → wrap msg r ≡ ok a → r ≡ ok a
wrap_ok msg (ok b) a e = e
wrap_ok msg (err x) a e = absurd (cc e)
wrap_ok msg panic a e = absurd (cc e)

module _ {S A B : Type 0} {Q : S → Type 0} where
  continue-gives :
      (r : Result A) (s : S) (f : A → Exec S B) (b : B)
      → ((a : A) → Gives Q (f a))
      → (continue (r, s) f).0 ≡ ok b
      → Q (continue (r, s) f).1
  continue-gives (ok a) s f b k e = (k a).after s b e
  continue-gives (err x) s f b k e = absurd (cc e)
  continue-gives panic s f b k e = absurd (cc e)

  -- The rest of the block gives it.
  pub Gives-bind : (m : Exec S A) (f : A → Exec S B) → ((a : A) → Gives Q (f a)) → Gives Q (m >>= f)
  Gives-bind m f k = record { after = λ s b e. continue-gives (m s).0 (m s).1 f b k e }

  continue-kept :
      (r : Result A) (s : S) (f : A → Exec S B) (b : B)
      → ((a : A) → r ≡ ok a → Q s)
      → ((a : A) → Keeps Q (f a))
      → (continue (r, s) f).0 ≡ ok b
      → Q (continue (r, s) f).1
  continue-kept (ok a) s f b h k e = (k a).at s (h a refl)
  continue-kept (err x) s f b h k e = absurd (cc e)
  continue-kept panic s f b h k e = absurd (cc e)

  -- The first part gives it, and the rest keeps it.
  pub Gives-kept :
      (m : Exec S A) (f : A → Exec S B) → Gives Q m → ((a : A) → Keeps Q (f a)) → Gives Q (m >>= f)
  Gives-kept m f g k = record {
    after = λ s b e. continue-kept (m s).0 (m s).1 f b (λ a h. g.after s a h) k e;
  }
