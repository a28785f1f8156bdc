-- ===== src/Tests/Contracts.antt =====
-- A contract whose ABI packs bytes as they are, on the node that answers "0x7".
use go_conflux_sdk.Base.{ℕ, ◌≡◌, ◌++◌, some, [], ◌∷◌, Bytes, codes, AllBytes, arith}
use go_conflux_sdk.Result.{ok}
use go_conflux_sdk.Hex.{encode_to_string}
use go_conflux_sdk.Contract.{Abi, Contract, decode_event}
use go_conflux_sdk.Contract.Event.{decode_event-encode}
use go_conflux_sdk.Tests.Instances.{eth}
use go_conflux_sdk.Tests.Node.{client_with, manager}

abbrev pub abi : Abi (Unit {0}) Bytes Bytes
abi = record {
  unmarshal_json = λ json. ok tt;
  pack = λ a method args. ok args;
  unpack = λ a method raw. ok raw;
  unpack_log = λ address a event log. ok log.log_data;
}

abbrev two_bytes : Bytes
two_bytes = 1 ∷ 0xff ∷ []

two_bytes-AllBytes : AllBytes two_bytes
two_bytes-AllBytes = omega arith

abbrev write_contract : Contract ℕ (Unit {0})
write_contract = record {
  abi = tt;
  client = some (client_with (some manager));
  address = some (codes "0x88");
}

decode_event-encode_example :
    (decode_event eth abi write_contract (codes "Transfer") (record {
      address = codes "0x88";
      topics = codes "0x12" ∷ [];
      log_data = codes "0x" ++ encode_to_string two_bytes;
    })
      ≡ ok two_bytes)
    × (decode_event eth abi write_contract (codes "Transfer") (record {
      address = codes "0x88";
      topics = codes "0x12" ∷ [];
      log_data = encode_to_string two_bytes;
    })
        ≡ ok two_bytes)
decode_event-encode_example =
    decode_event-encode eth abi write_contract (codes "Transfer") (codes "0x88") (codes "0x12" ∷ [])
      two_bytes two_bytes-AllBytes
