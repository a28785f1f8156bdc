-- ===== src/Errors/Chain.antt =====
-- What a chain of types/wrapped_error.go shows and keeps.
use go_conflux_sdk.Base.{
  ℕ, zero, suc, ◌≡◌, refl, ◌∙◌, String, List, [], ◌∷◌, ◌++◌, Option, none, some, Text, codes,
  append_assoc, length,
}
use go_conflux_sdk.Errors.{Error, json_rpc, wrapped, wrap_error, unwrap, error_text}

-- Messages put round an error, the outermost first.
pub wrap_all : List String → Error → Error
wrap_all [] err = err
wrap_all (m ∷ ms) err = wrap_error (some (wrap_all ms err)) m

-- Each message, with the mark of the next line behind it.
pub trail : List String → Text
trail [] = []
trail (m ∷ ms) = codes m ++ (codes "\n> " ++ trail ms)

-- What the innermost line shows: the text of the error, and the data of a JSON-RPC error.
pub cause_text : Error → Text
cause_text (json_rpc t d) = t ++ (codes ", Data: " ++ d)
cause_text err = error_text err

-- errors.Unwrap, so many times.
pub unwrap_times : ℕ → Error → Option Error
unwrap_times zero err = some err
unwrap_times (suc n) err = elim (unwrap err) [ none ↦ none | some inner ↦ unwrap_times n inner ]

error_text-wrapped :
    (m : String) (e : Error) → error_text (wrapped m e) ≡ codes m ++ (codes "\n> " ++ cause_text e)
unfolding error_text cause_text
error_text-wrapped m (json_rpc t d) = refl
error_text-wrapped m _ = refl

cause_text-wrapped : (m : String) (e : Error) → cause_text (wrapped m e) ≡ error_text (wrapped m e)
unfolding cause_text
cause_text-wrapped m e = refl

cause_text-wrap_all :
    (ms : List String) (e : Error) → cause_text (wrap_all ms e) ≡ trail ms ++ cause_text e
unfolding wrap_all trail wrap_error
cause_text-wrap_all [] e = refl
cause_text-wrap_all (m ∷ ms) e =
    cause_text-wrapped m (wrap_all ms e)
    ∙ error_text-wrapped m (wrap_all ms e)
    ∙ rw (cause_text-wrap_all ms e, append_assoc)

-- An error that is wrapped one or more times prints every message, the last added first, each on its
-- own line behind "> ", and ends in the text of the cause, with the Data of a JSON-RPC error.
pub error_text-wrap_all :
    (m : String) (ms : List String) (e : Error)
    → error_text (wrap_all (m ∷ ms) e) ≡ trail (m ∷ ms) ++ cause_text e
unfolding wrap_all wrap_error
error_text-wrap_all m ms e = unfold cause_text in cause_text-wrap_all (m ∷ ms) e

-- As many calls of errors.Unwrap as there are messages give the cause itself, whatever was wrapped.
pub unwrap_times-wrap_all :
    (ms : List String) (e : Error) → unwrap_times (length ms) (wrap_all ms e) ≡ some e
unfolding unwrap_times wrap_all wrap_error unwrap
unwrap_times-wrap_all [] e = refl
unwrap_times-wrap_all (m ∷ ms) e = unwrap_times-wrap_all ms e
