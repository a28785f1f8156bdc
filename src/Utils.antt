-- ===== src/Utils.antt =====
-- utils/crypto.go: the general address and the hash of a hex string.
pub mod General
pub mod Keys
pub mod Risk
use Prim.Native.Nat.{bit_and, bit_or}
use go_conflux_sdk.Base.{
  ℕ, zero, suc, ◌+◌, ◌%◌, ◌≤◌, ◌<◌, ◌≡◌, refl, ap, Bool, true, ◌&&◌, [], ◌∷◌, ◌++◌, arith, Bytes,
  Text, codes, length, take, drop, text_eq, text_eq_refl, ltb, ◌==◌, ==_iff, if◌then◌else◌,
  AllBytes,
}
use go_conflux_sdk.Errors.{message}
use go_conflux_sdk.Result.{Result, ok, err, panic, ◌>>=◌, ◌>>◌, wrap, guard}
use go_conflux_sdk.Hex.{encode_to_string, decode_string, decode_string-encode}
use go_conflux_sdk.Ethereum.{Ethereum, IsAddress}
use go_conflux_sdk.Types.Address.{Address}

-- `val[0] = (val[0] & 0x0f) | 0x10`
unfoldable pub general_bytes : Bytes → Bytes
general_bytes [] = []
general_bytes (b ∷ bs) = bit_or (bit_and b 0x0f) 0x10 ∷ bs

-- `s[0:2]` is out of range for a shorter text.
check_length : Text → Result (Unit {0})
check_length [] = panic
check_length (a ∷ []) = panic
check_length (a ∷ b ∷ s) = ok tt

module _ (E : Ethereum) where
  unfoldable pub to_cfx_general_address : Bytes → Address
  unfolding general_bytes
  to_cfx_general_address a = E.hex_encode (general_bytes a)

  -- Keccak256
  unfoldable pub keccak256_hex : Text → Result Text
  unfolding check_length
  keccak256_hex s = do
    check_length s
    guard (text_eq (take 2 s) (codes "0x")) (message "input must start with 0x")
    raw ← wrap "decode hex string {%+v} to bytes error" (decode_string (drop 2 s))
    ok (codes "0x" ++ encode_to_string (E.keccak256 raw))

-- The byte's value written as arithmetic, for the number n and for all that are smaller.
general_up_to : ℕ → Bool
general_up_to zero = bit_or (bit_and 0 0x0f) 0x10 == 16
general_up_to (suc n) = (bit_or (bit_and (suc n) 0x0f) 0x10 == 16 + suc n % 16) && general_up_to n

general_up_to_lem :
    (n b : ℕ) → general_up_to n ≡ true → b ≤ n → bit_or (bit_and b 0x0f) 0x10 ≡ 16 + b % 16
unfolding general_up_to
general_up_to_lem zero zero h le = refl
general_up_to_lem zero (suc b) h le = absurd (omega arith)
general_up_to_lem (suc n) b h le =
    ground
      (arith, ==_iff (bit_or (bit_and (suc n) 0x0f) 0x10) (16 + suc n % 16), general_up_to_lem n b)

every_byte : general_up_to 255 ≡ true
unfolding general_up_to
every_byte = refl

-- The high half of the first byte becomes 1, the rest stays.
pub general_byte : (b : ℕ) → b < 256 → bit_or (bit_and b 0x0f) 0x10 ≡ 16 + b % 16
general_byte b h = general_up_to_lem 255 b every_byte (omega arith)
