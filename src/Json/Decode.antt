-- ===== src/Json/Decode.antt =====
-- unmarshalRPCResult of client.go, at a string and at a slice of hashes.
use go_conflux_sdk.Base.{List, [], Text}
use go_conflux_sdk.Result.{Result, wrap}
use go_conflux_sdk.Types.Address.{Hash}
use go_conflux_sdk.Json.{Value}
use go_conflux_sdk.Json.Float64.{in_interface}
use go_conflux_sdk.Json.Codec.{text_codec, slice}

unfoldable pub decode_text : Value → Result Text
decode_text = text_codec.read text_codec.zero_value

unfoldable pub decode_hashes : Value → Result (List Hash)
decode_hashes = (slice text_codec).read []

-- unmarshalRPCResult: a value that came out of encoding/json goes back in without an error, but its
-- numbers have become float64 on the way.
unfoldable pub unmarshal_rpc_result {ℓ} : {A : Type ℓ} → (Value → Result A) → Value → Result A
unfolding in_interface
unmarshal_rpc_result decode v = wrap "json unmarshal %v error" (decode (in_interface v))
