-- ===== src/Tests/Deployments.antt =====
-- A deployment on a node that knows the transaction "0x7".
use go_conflux_sdk.Base.{
  ℕ, suc, ◌≡◌, refl, Option, none, some, List, [], ◌∷◌, codes, text_eq, if◌then◌else◌,
}
use go_conflux_sdk.Base.Int.{pos}
use go_conflux_sdk.Errors.{message}
use go_conflux_sdk.Result.{ok, err}
use go_conflux_sdk.Hex.{encode_to_string, digit}
use go_conflux_sdk.Json.{Value, str, obj, field, end, as_string, key_eq}
use go_conflux_sdk.Json.Codec.{pointer_value, text_value}
use go_conflux_sdk.Json.Numbers.{big_value}
use go_conflux_sdk.Json.Struct.{read_struct, set_fields, set_field}
use go_conflux_sdk.Json.Transactions.{decode_transaction, transaction_table}
use go_conflux_sdk.Json.Decode.{unmarshal_rpc_result}
use go_conflux_sdk.Types.Address.{new_big_int}
use go_conflux_sdk.Types.Transaction.{empty_base, apply_default}
use go_conflux_sdk.Types.Request.{ContractDeployOption}
use go_conflux_sdk.Client.Requester.{Arg, text, Client, Requester}
use go_conflux_sdk.Client.Queries.{
  variadic, if_set, unless_null, query, as_big, get_gas_price, get_next_nonce, get_status,
  get_epoch_number, send_raw_transaction, get_transaction_by_hash,
}
use go_conflux_sdk.Client.Defaults.{
  on_world, change_tx, at_least_min, when_nil, account_or_error, from_manager, default_from,
  default_nonce, chain_of, default_chain_id, default_gas_price, default_epoch_height,
  default_estimate, at_tx, apply_defaults, apply_unsigned_transaction_default,
}
use go_conflux_sdk.Client.Send.{sign_current, sign_and_send, send_transaction}
use go_conflux_sdk.Contract.Deploy.{
  Event, timeout, tick, ContractDeployResult, deploy_contract, await, on_transaction, on_status,
  verdict, uint64, deployed_at, base_of_deploy, with_params, send_creation,
}
use go_conflux_sdk.Tests.Instances.{eth}
use go_conflux_sdk.Tests.Node.{manager}
use go_conflux_sdk.Tests.Contracts.{abi}

abbrev mined : Value
mined = obj (
    field (codes "status") (str (codes "0x0"))
      (field (codes "contractCreated") (str (codes "0x99")) end))

abbrev pub answer : List Arg → Value
answer (text h ∷ []) = if text_eq h (codes "0x7") then mined else str (codes "0x7")
answer _ = str (codes "0x7")

abbrev answering : (List Arg → Value) → Requester ℕ
answering f = record {
  call = λ method args w. (ok (f args), suc w);
  call_status = λ method args w. (err (message "no status"), suc w);
  batch = λ elems w. (ok [], suc w);
  close = λ w. w;
}

abbrev pub client_of : (List Arg → Value) → Client ℕ
client_of f = record {
  node_url = codes "node";
  rpc_requester = answering f;
  account_manager = some manager;
}

abbrev pub option : Option ContractDeployOption
option = some (record {
  base = record empty_base { gas = some (pos 21000); storage_limit = some (pos 0) };
  timeout = pos 0;
})

abbrev pub events : List Event
events = tick ∷ timeout ∷ []

abbrev settled : ContractDeployResult ℕ (Unit {0})
settled = record {
  transaction_hash = some (codes "0x7");
  error = none;
  deployed_contract =
      some (record { abi = tt; client = some (client_of answer); address = some (codes "0x99") });
}

deploy_ok :
    (deploy_contract eth abi (client_of answer) option [] (1 ∷ 2 ∷ []) (some (3 ∷ [])) events 0).0
    ≡ ok (some settled)
unfolding deploy_contract await on_transaction on_status verdict uint64 deployed_at base_of_deploy
    with_params send_creation send_transaction sign_and_send sign_current send_raw_transaction
    apply_unsigned_transaction_default apply_defaults at_tx default_from default_nonce
    default_chain_id default_gas_price default_epoch_height default_estimate change_tx apply_default
    when_nil from_manager account_or_error on_world chain_of at_least_min get_next_nonce get_status
    get_gas_price get_epoch_number query as_big if_set variadic as_string new_big_int text_eq
    encode_to_string digit get_transaction_by_hash unless_null unmarshal_rpc_result
    decode_transaction transaction_table read_struct set_fields set_field pointer_value text_value
    big_value key_eq
deploy_ok = refl
