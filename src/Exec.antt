-- ===== src/Exec.antt =====
-- Code with effects: a function of a state that gives an outcome and the state after it. An error
-- or a panic keeps the effects that came before it.
pub mod Keeps
pub mod Gives
pub mod Simulates
use go_conflux_sdk.Base.{String, Option, none, some}
use go_conflux_sdk.Errors.{Error}
use go_conflux_sdk.Result.{Result, ok, err, panic, wrap}

abbrev pub Exec : Type 0 → Type 0 → Type 0
Exec S A = S → Result A × S

abbrev pub continue : {S A B : Type 0} → Result A × S → (A → Exec S B) → Result B × S
continue (ok a, s) f = f a s
continue (err e, s) f = (err e, s)
continue (panic, s) f = (panic, s)

infixl 5 ◌>>=◌ ◌>>◌
abbrev pub ◌>>=◌ : {S A B : Type 0} → Exec S A → (A → Exec S B) → Exec S B
◌>>=◌ m f s = continue (m s) f

abbrev pub ◌>>◌ : {S B : Type 0} → Exec S (Unit {0}) → Exec S B → Exec S B
m >> k = m >>= λ _. k

abbrev pub pure : {S A : Type 0} → A → Exec S A
pure a s = (ok a, s)

abbrev pub lift : {S A : Type 0} → Result A → Exec S A
lift r s = (r, s)

abbrev pub fail : {S A : Type 0} → Error → Exec S A
fail e s = (err e, s)

-- A read of the state.
abbrev pub gets : {S A : Type 0} → (S → A) → Exec S A
gets f s = (ok (f s), s)

-- `if err != nil { return WrapError(err, msg) }`
abbrev pub wrapping : {S A : Type 0} → String → Exec S A → Exec S A
wrapping msg m s = (wrap msg (m s).0, (m s).1)

-- `if err == nil { return }`, and what is done with an error.
abbrev pub on_error : {S A : Type 0} → Result A × S → (Error → Exec S A) → Result A × S
on_error (ok a, s) f = (ok a, s)
on_error (err e, s) f = f e s
on_error (panic, s) f = (panic, s)
