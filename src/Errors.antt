-- ===== src/Errors.antt =====
-- types/wrapped_error.go and types/errors.go: the errors that the program makes and wraps.
-- A message is its format string; what fmt.Sprintf puts into it is not kept.
pub mod Chain
use go_conflux_sdk.Base.{String, ◌++◌, Option, none, some, Text, codes}

pub data Error : Type 0 where
  -- errors.New, fmt.Errorf
  message : String → Error
  -- *AccountNotFoundError
  account_not_found : Text → Error
  -- an error of other code, by its Error()
  foreign : Text → Error
  -- *rpc.jsonError: its Error(), and its Data as printed
  json_rpc : Text → Text → Error
  -- WrappedError, with an error inside and with nil
  wrapped : String → Error → Error
  wrapped_nil : String → Error

pub wrap_error : Option Error → String → Error
wrap_error none msg = wrapped_nil msg
wrap_error (some err) msg = wrapped msg err

-- WrapErrorf: the values are not kept.
pub wrap_errorf : Option Error → String → Error
wrap_errorf none pattern_text = wrapped_nil pattern_text
wrap_errorf (some err) pattern_text = wrapped pattern_text err

pub new_account_not_found_error : Text → Error
new_account_not_found_error address = account_not_found address

-- Error of AccountNotFoundError
abbrev pub not_found_text : Text → Text
not_found_text account = codes "Not found account " ++ account

-- The result of Unwrap; errors.Unwrap gives nil for the errors that have no such method.
pub unwrap : Error → Option Error
unwrap (wrapped msg err) = some err
unwrap _ = none

-- Error(). An error inside is printed by its own Error; a *rpc.jsonError shows its Data too.
pub error_text : Error → Text
error_text (message m) = codes m
error_text (account_not_found a) = not_found_text a
error_text (foreign t) = t
error_text (json_rpc t d) = t
error_text (wrapped msg (json_rpc t d)) =
    codes msg ++ (codes "\n> " ++ (t ++ (codes ", Data: " ++ d)))
error_text (wrapped msg err) = codes msg ++ (codes "\n> " ++ error_text err)
error_text (wrapped_nil msg) = codes msg ++ codes "\n> "
