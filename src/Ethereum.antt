-- ===== src/Ethereum.antt =====
-- The functions of go-ethereum that the program calls. Their code is not in this repository: they are
-- a parameter of the model, and their documented behaviour is stated as laws where it is needed.
use go_conflux_sdk.Base.{ℕ, ◌≡◌, Bytes, Text, AllBytes, length, map, lower}
use go_conflux_sdk.Base.Int.{ℤ}
use go_conflux_sdk.Result.{Result}

pub record Ethereum : Type 0 where
  -- common.HexToAddress, 20 bytes, and common.HexToHash, 32 bytes
  pub hex_to_address : Text → Bytes
  pub hex_to_hash : Text → Bytes
  -- common.Address.Hex: "0x" and 40 digits, some in upper case for a checksum
  pub address_hex : Bytes → Text
  -- hexutil.Encode, hexutil.EncodeBig, hexutil.DecodeBig
  pub hex_encode : Bytes → Text
  pub encode_big : ℤ → Text
  pub decode_big : Text → Result ℤ
  -- UnmarshalText of a hexutil.Big, on the contents of a JSON string
  pub unmarshal_big : Text → Result ℤ
  -- the same of a hexutil.Uint64
  pub unmarshal_uint64 : Text → Result ℕ
  -- crypto.Keccak256, 32 bytes
  pub keccak256 : Bytes → Bytes
  -- crypto.FromECDSAPub of the secp256k1 base point times a private key
  pub public_key : Bytes → Bytes

-- An address of go-ethereum is an array of 20 bytes.
pub record IsAddress (a : Bytes) : Type 0 where
  pub length_eq : length a ≡ 20
  pub all_bytes : AllBytes a

-- An address survives being printed, in either form, and read.
pub record HexLaws (E : Ethereum) : Type 0 where
  pub address-encode : (a : Bytes) → IsAddress a → E.hex_to_address (E.hex_encode a) ≡ a
  pub address-lower : (a : Bytes) → IsAddress a → E.hex_to_address (map lower (E.address_hex a)) ≡ a
  pub IsAddress-hex : (s : Text) → IsAddress (E.hex_to_address s)
