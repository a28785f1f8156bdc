-- ===== src/Json.antt =====
-- JSON values, and how encoding/json fills the result structs of the package types from them: object
-- keys in order, each matched to a field without regard to case, and null leaves a text as it is and
-- makes a pointer nil. Which of several faults encoding/json reports is not kept.
pub mod Decimals
pub mod Float64
pub mod Codec
pub mod Numbers
pub mod Pointers
pub mod Decode
pub mod Struct
pub mod Narrow
pub mod Logs
pub mod Transactions
pub mod Blocks
pub mod Requests
use go_conflux_sdk.Base.{ℕ, Bool, Text, List, String, map, lower, codes, text_eq}
use go_conflux_sdk.Errors.{Error, message}
use go_conflux_sdk.Result.{Result, ok, err, panic}

mutual
  pub data Value : Type 0 where
    null : Value
    bool : Bool → Value
    num : Text → Value
    str : Text → Value
    arr : Items → Value
    obj : Fields → Value

  pub data Items : Type 0 where
    nil : Items
    cons : Value → Items → Items

  pub data Fields : Type 0 where
    end : Fields
    field : Text → Value → Fields → Fields

abbrev pub type_error : Error
type_error = message "json: cannot unmarshal"

-- `result.(string)`
unfoldable pub as_string : Value → Result Text
as_string (str t) = ok t
as_string _ = panic

unfoldable pub key_eq : Text → String → Bool
key_eq key name = text_eq (map lower key) (map lower (codes name))
