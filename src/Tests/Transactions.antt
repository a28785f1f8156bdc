-- ===== src/Tests/Transactions.antt =====
-- Encodings of a transaction, over a codec on lists of numbers.
use go_conflux_sdk.Base.{
  ℕ, zero, suc, ◌≡◌, refl, none, [], ◌∷◌, Bytes, Text, codes, AllBytes, arith,
}
use go_conflux_sdk.Base.BigBytes.{trim}
use go_conflux_sdk.Result.{Result, ok, panic}
use go_conflux_sdk.Types.Rlp.{
  Complete, complete_tx, encode_unsigned_tx, decode_unsigned_tx, encode_with_signature,
  decode_signed_tx, unsigned_to_struct, to_unsigned_transaction, encode_signed_tx, signed_to_struct,
}
use go_conflux_sdk.Types.Rlp.RoundTrip.{
  respelled, decode-encode, decode-encode_signed, decode-encode_v_zero,
}
use go_conflux_sdk.Client.Send.{sign_transaction_and_send, sign_encoded_transaction_and_send}
use go_conflux_sdk.Client.Requester.{Client}
use go_conflux_sdk.Client.Queries.{
  query, send_raw_transaction, get_transaction_by_hash, unless_null,
}
use go_conflux_sdk.Hex.{decode_partial, digit_value}
use go_conflux_sdk.Json.{Value, null, str, as_string}
use go_conflux_sdk.Client.Send.Encoded.{SentEncoded, sign_encoded_transaction_and_send-SentEncoded}
use go_conflux_sdk.Tests.Instances.{
  eth, eth-HexLaws, codec, codec-RlpLaws, fit, natural, encode_struct, decode_struct,
  encode_with_vrs,
}
use go_conflux_sdk.Tests.Node.{node}

abbrev sample : Complete
sample = record {
  nonce = 3;
  gas_price = 1_000_000_000;
  gas = 21000;
  value = 7;
  storage_limit = 0;
  epoch_height = 100;
  chain_id = 1;
  tx_data = 1 ∷ 2 ∷ [];
}

sample-AllBytes : AllBytes sample.tx_data
sample-AllBytes = omega arith

abbrev recipient : Text
recipient = codes "0x0123456789abcdef0123456789abcdef01234567"

decode-encode_example :
    (raw : Bytes) × (encode_unsigned_tx eth codec (complete_tx sample none recipient) ≡ ok raw)
    × (decode_unsigned_tx eth codec raw ≡ ok (complete_tx sample none (respelled eth recipient)))
decode-encode_example =
    decode-encode eth codec eth-HexLaws codec-RlpLaws sample none recipient sample-AllBytes

decode-encode_signed_example :
    (raw : Bytes) × (encode_with_signature eth codec
        (complete_tx sample none recipient)
        1
        (0 ∷ 5 ∷ [])
        (6 ∷ [])
      ≡ ok raw)
    × (decode_signed_tx eth codec raw
        ≡ ok (record {
          unsigned = complete_tx sample none (respelled eth recipient);
          v = 1;
          r = trim (0 ∷ 5 ∷ []);
          s = trim (6 ∷ []);
        }))
decode-encode_signed_example =
    decode-encode_signed eth codec eth-HexLaws codec-RlpLaws sample none recipient 1 (0 ∷ 5 ∷ [])
      (6 ∷ []) sample-AllBytes (omega arith) (omega arith) (omega arith) (omega arith)

decode-encode_v_zero_example :
    (raw : Bytes) × (encode_with_signature eth codec
        (complete_tx sample none recipient)
        0
        (5 ∷ [])
        (6 ∷ [])
      ≡ ok raw)
    × (decode_signed_tx eth codec raw ≡ panic)
decode-encode_v_zero_example =
    decode-encode_v_zero eth codec eth-HexLaws codec-RlpLaws sample none recipient (5 ∷ []) (6 ∷ [])
      sample-AllBytes

five-AllBytes : AllBytes (5 ∷ [])
five-AllBytes = omega arith

six-AllBytes : AllBytes (6 ∷ [])
six-AllBytes = omega arith

-- A node that answers "0x7" to the first call and null later.
abbrev short_answer : ℕ → Value
short_answer zero = str (codes "0x7")
short_answer (suc n) = null

abbrev short_client : Client ℕ
short_client = record {
  node_url = codes "node";
  rpc_requester = record node { call = λ method args w. (ok (short_answer w), suc w) };
  account_manager = none;
}

abbrev bytes_in : Result Bytes → Bytes
bytes_in (ok raw) = raw
bytes_in _ = []

abbrev encoded : Bytes
encoded = bytes_in (encode_unsigned_tx eth codec (complete_tx sample none recipient))

encoded_ok : encode_unsigned_tx eth codec (complete_tx sample none recipient) ≡ ok encoded
unfolding encode_unsigned_tx unsigned_to_struct encode_struct natural fit decode_partial digit_value
encoded_ok = refl

encoded_sent :
    (sign_encoded_transaction_and_send eth short_client codec encoded 1 (5 ∷ []) (6 ∷ []) 0).0
    ≡ ok none
unfolding sign_encoded_transaction_and_send sign_transaction_and_send encode_unsigned_tx
    unsigned_to_struct encode_struct natural fit decode_partial digit_value decode_unsigned_tx
    decode_struct to_unsigned_transaction encode_with_signature encode_signed_tx signed_to_struct
    encode_with_vrs send_raw_transaction query as_string get_transaction_by_hash unless_null
encoded_sent = refl

sign_encoded_transaction_and_send-SentEncoded_example :
    SentEncoded eth codec eth-HexLaws codec-RlpLaws short_client sample recipient 1
      (5 ∷ [])
      (6 ∷ [])
      0
      none
sign_encoded_transaction_and_send-SentEncoded_example =
    sign_encoded_transaction_and_send-SentEncoded eth codec eth-HexLaws codec-RlpLaws short_client
      sample none recipient 1 (5 ∷ []) (6 ∷ []) 0 encoded none sample-AllBytes (omega arith)
      five-AllBytes six-AllBytes encoded_ok encoded_sent
