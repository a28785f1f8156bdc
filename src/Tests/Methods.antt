-- ===== src/Tests/Methods.antt =====
-- A contract on a client whose world is an account manager with one account.
use go_conflux_sdk.Base.{◌≡◌, refl, some, [], ◌∷◌, AllBytes, arith, codes, text_eq}
use go_conflux_sdk.Base.Int.{pos}
use go_conflux_sdk.Base.Dict.{lookup}
use go_conflux_sdk.Result.{ok}
use go_conflux_sdk.Hex.{decode_partial, digit_value}
use go_conflux_sdk.Json.{as_string}
use go_conflux_sdk.Types.Address.{new_big_int}
use go_conflux_sdk.Types.Transaction.{empty_base, apply_default}
use go_conflux_sdk.Types.Rlp.{
  Complete, complete_tx, unsigned_to_struct, signed_to_struct, encode_unsigned_tx, transaction_hash,
  encode_signed_tx, encode_with_signature,
}
use go_conflux_sdk.Account.{read_ks, split_signature, account, found, sender, sign_transaction}
use go_conflux_sdk.Account.Operator.{on_manager, operator}
use go_conflux_sdk.Client.Queries.{
  variadic, if_set, query, as_big, get_gas_price, get_next_nonce, get_status, get_epoch_number,
  send_raw_transaction,
}
use go_conflux_sdk.Client.Defaults.{
  TxState, on_world, change_tx, at_least_min, when_nil, account_or_error, from_manager,
  default_from, default_nonce, chain_of, default_chain_id, default_gas_price, default_epoch_height,
  default_estimate, at_tx, apply_defaults, apply_unsigned_transaction_default,
}
use go_conflux_sdk.Client.Send.{sign_current, sign_and_send, send_transaction}
use go_conflux_sdk.Client.Send.Delivered.{Delivered}
use go_conflux_sdk.Tests.Instances.{
  eth, eth-HexLaws, codec, codec-RlpLaws, keystore, fit, natural, encode_struct, encode_with_vrs,
}
use go_conflux_sdk.Tests.Accounts.{one_manager}
use go_conflux_sdk.Base.{Option}
use go_conflux_sdk.Types.Request.{ContractMethodSendOption}
use go_conflux_sdk.Client.Defaults.Kept.{Extends}
use go_conflux_sdk.Contract.{
  Contract, get_data, method_tx, send_by, send_filled, forget_tx, send_method,
}
use go_conflux_sdk.Contract.Delivered.{tx_to, filled, send_method-Delivered}
use go_conflux_sdk.Tests.Contracts.{abi}
use go_conflux_sdk.Tests.Managed.{World, itself, managed_client, keystore-SignsBytes}

abbrev managed_contract : Contract World (Unit {0})
managed_contract = record { abi = tt; client = some managed_client; address = some (codes "0x34") }

abbrev from_first : Option ContractMethodSendOption
from_first = some (record empty_base {
  from = some (codes "0x1");
  gas = some (pos 21000);
  storage_limit = some (pos 0);
})

method_sent :
    (send_method eth abi managed_contract from_first (codes "set") (5 ∷ []) one_manager).0
    ≡ ok (codes "0x7")
unfolding send_method forget_tx send_filled send_by method_tx get_data send_transaction
    sign_and_send sign_current send_raw_transaction apply_unsigned_transaction_default
    apply_defaults at_tx default_from default_nonce default_chain_id default_gas_price
    default_epoch_height default_estimate change_tx apply_default when_nil from_manager
    account_or_error on_world chain_of at_least_min get_next_nonce get_status get_gas_price
    get_epoch_number query as_big if_set variadic as_string new_big_int operator on_manager
    sign_transaction sender found account lookup text_eq read_ks split_signature transaction_hash
    encode_unsigned_tx unsigned_to_struct encode_struct natural fit decode_partial digit_value
    encode_with_signature encode_signed_tx signed_to_struct encode_with_vrs
method_sent = refl

abbrev method_numbers : Complete
method_numbers = record {
  nonce = 7;
  gas_price = 1_000_000_000;
  gas = 21000;
  value = 0;
  storage_limit = 0;
  epoch_height = 7;
  chain_id = 0;
  tx_data = 5 ∷ [];
}

abbrev method_state : TxState World
method_state = record { world = one_manager; tx = tx_to managed_contract from_first (5 ∷ []) }

method_filled :
    (filled eth managed_client method_state).tx
    ≡ complete_tx method_numbers (some (codes "0x1")) (codes "0x34")
unfolding apply_unsigned_transaction_default apply_defaults at_tx default_from default_nonce
    default_chain_id default_gas_price default_epoch_height default_estimate change_tx apply_default
    when_nil from_manager account_or_error on_world chain_of at_least_min get_next_nonce get_status
    get_gas_price get_epoch_number query as_big if_set variadic as_string new_big_int
method_filled = refl

five-AllBytes : AllBytes (5 ∷ [])
five-AllBytes = omega arith

send_method-Delivered_example :
    Extends
      (tx_to managed_contract from_first (5 ∷ []))
      (complete_tx method_numbers (some (codes "0x1")) (codes "0x34"))
    × Delivered eth codec eth-HexLaws codec-RlpLaws keystore itself managed_client
        (filled eth managed_client method_state)
        (codes "0x7")
        method_numbers
        (some (codes "0x1"))
        (codes "0x34")
send_method-Delivered_example =
    send_method-Delivered eth codec eth-HexLaws codec-RlpLaws keystore itself abi managed_contract
      managed_client from_first (codes "set") (5 ∷ []) (5 ∷ []) one_manager (codes "0x7")
      method_numbers (codes "0x1") (codes "0x34") refl refl refl method_sent method_filled
      five-AllBytes keystore-SignsBytes
