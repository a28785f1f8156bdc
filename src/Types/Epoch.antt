-- ===== src/Types/Epoch.antt =====
-- types/epoch.go
use go_conflux_sdk.Base.{Option, none, some, [], ◌∷◌, Text, codes}
use go_conflux_sdk.Base.Int.{ℤ}
use go_conflux_sdk.Result.{Result, ok, panic}
use go_conflux_sdk.Ethereum.{Ethereum}
use go_conflux_sdk.Types.Address.{Hash}

pub record Epoch : Type 0 where
  pub name : Text
  pub number : Option ℤ

abbrev pub earliest : Epoch
earliest = record { name = codes "earliest"; number = none }

abbrev pub latest_state : Epoch
latest_state = record { name = codes "latest_state"; number = none }

abbrev pub latest_mined : Epoch
latest_mined = record { name = codes "latest_mined"; number = none }

unfoldable pub new_epoch_number : Option ℤ → Epoch
new_epoch_number n = record { name = []; number = n }

unfoldable pub new_epoch_with_block_hash : Hash → Epoch
new_epoch_with_block_hash h = record { name = h; number = none }

module _ (E : Ethereum) where
  -- EncodeBig reads through its pointer.
  number_text : Option ℤ → Result Text
  number_text none = panic
  number_text (some n) = ok (E.encode_big n)

  name_or_number : Text → Option ℤ → Result Text
  unfolding number_text
  name_or_number [] number = number_text number
  name_or_number (c ∷ cs) number = ok (c ∷ cs)

  -- String
  unfoldable pub epoch_text : Epoch → Result Text
  unfolding name_or_number
  epoch_text e = name_or_number e.name e.number

  -- MarshalText; the JSON encoder writes null for a nil pointer and does not call it.
  unfoldable pub marshal_text : Epoch → Result Text
  unfolding epoch_text
  marshal_text e = epoch_text e
