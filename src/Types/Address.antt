-- ===== src/Types/Address.antt =====
-- types/types.go and constants/constants.go. An Address or a Hash is its text.
use go_conflux_sdk.Base.{ℕ, ◌^◌, ◌-◌, Bool, Option, none, some, [], ◌∷◌, ◌++◌, Bytes, Text, text_eq}
use go_conflux_sdk.Base.Int.{ℤ}
use go_conflux_sdk.Ethereum.{Ethereum}

abbrev pub Address : Type 0
Address = Text

abbrev pub Hash : Type 0
Hash = Text

-- NewAddress, and String of an Address and of a Hash
unfoldable pub new_address : Text → Address
new_address hex_address = hex_address

unfoldable pub address_text : Address → Text
address_text address = address

unfoldable pub hash_text : Hash → Text
hash_text hash = hash

abbrev pub min_gasprice : ℕ
min_gasprice = 1_000_000_000

abbrev pub max_uint256 : ℕ
max_uint256 = 2 ^ 256 - 1

five_zeros : Bytes
five_zeros = 0 ∷ 0 ∷ 0 ∷ 0 ∷ 0 ∷ []

unfoldable pub zero_address : Bytes
unfolding five_zeros
zero_address = five_zeros ++ (five_zeros ++ (five_zeros ++ five_zeros))

-- NewBigInt, NewBigIntByRaw
unfoldable pub new_big_int : ℤ → Option ℤ
new_big_int x = some x

unfoldable pub new_big_int_by_raw : Option ℤ → Option ℤ
new_big_int_by_raw none = none
new_big_int_by_raw (some x) = new_big_int x

module _ (E : Ethereum) where
  unfoldable pub to_common_address : Address → Bytes
  to_common_address a = E.hex_to_address a

  unfoldable pub to_common_hash : Hash → Bytes
  to_common_hash h = E.hex_to_hash h

  -- Go's == on two arrays of 20 bytes.
  unfoldable pub is_zero : Address → Bool
  unfolding to_common_address
  is_zero a = text_eq (to_common_address a) zero_address
