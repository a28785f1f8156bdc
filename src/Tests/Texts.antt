-- ===== src/Tests/Texts.antt =====
-- Addresses, hashes of texts and chains of errors.
use go_conflux_sdk.Base.{◌≡◌, refl, ◌↔◌, ◌++◌, drop, Text, [], ◌∷◌, Bytes, codes, arith}
use go_conflux_sdk.Errors.{Error, json_rpc, error_text}
use go_conflux_sdk.Errors.Chain.{wrap_all, trail, cause_text, error_text-wrap_all}
use go_conflux_sdk.Result.{ok}
use go_conflux_sdk.Hex.{encode_to_string}
use go_conflux_sdk.Ethereum.{IsAddress}
use go_conflux_sdk.Utils.{to_cfx_general_address}
use go_conflux_sdk.Utils.General.{SameTail, general_address-eq_iff}
use go_conflux_sdk.Utils.Keys.{
  public_key_to_address, private_key_to_public_key, public_key_to_address-private,
}
use go_conflux_sdk.Base.BigBytes.{trim}
use go_conflux_sdk.Tests.Instances.{eth, eth-HexLaws, fit, fit-AllBytes}

abbrev tail : Bytes
tail = 2 ∷ 3 ∷ 4 ∷ 5 ∷ 6 ∷ 7 ∷ 8 ∷ 9 ∷ 10 ∷ 11 ∷ 12 ∷ 13 ∷ 14 ∷ 15 ∷ 16 ∷ 17 ∷ 18 ∷ 19 ∷ 20 ∷ []

sample_a : IsAddress (0x31 ∷ tail)
sample_a = record { length_eq = refl; all_bytes = omega arith }

sample_b : IsAddress (0x81 ∷ tail)
sample_b = record { length_eq = refl; all_bytes = omega arith }

general_address-eq_iff_example :
    (to_cfx_general_address eth (0x31 ∷ tail) ≡ to_cfx_general_address eth (0x81 ∷ tail))
    ↔ SameTail (0x31 ∷ tail) (0x81 ∷ tail)
general_address-eq_iff_example =
    general_address-eq_iff eth eth-HexLaws (0x31 ∷ tail) (0x81 ∷ tail) sample_a sample_b

abbrev cause : Error
cause = json_rpc (codes "reverted") (codes "0x12")

error_text-wrap_all_example :
    error_text (wrap_all ("outer" ∷ "inner" ∷ []) cause)
    ≡ trail ("outer" ∷ "inner" ∷ []) ++ cause_text cause
error_text-wrap_all_example = error_text-wrap_all "outer" ("inner" ∷ []) cause

sample_key : eth.public_key (trim (5 ∷ 6 ∷ 7 ∷ [])) ≡ 5 ∷ 6 ∷ 7 ∷ fit 61 []
unfolding fit
sample_key = refl

public_key_to_address-private_example :
    (t : Text) × (private_key_to_public_key eth (codes "0x" ++ encode_to_string (5 ∷ 6 ∷ 7 ∷ []))
      ≡ ok t)
    × (public_key_to_address eth t
        ≡ ok (to_cfx_general_address eth (drop 12 (eth.keccak256 (trim (6 ∷ 7 ∷ fit 61 []))))))
public_key_to_address-private_example =
    public_key_to_address-private eth 5 (6 ∷ 7 ∷ []) 5 6 (7 ∷ fit 61 []) (omega arith) sample_key
      (omega arith, (omega arith, fit-AllBytes 61 [])) (λ xs h. refl)
