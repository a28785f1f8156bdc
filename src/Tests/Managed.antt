-- ===== src/Tests/Managed.antt =====
-- A client whose world is an account manager with one account.
use go_conflux_sdk.Base.{
  ◌≡◌, refl, subst, ◌<◌, some, List, [], ◌∷◌, Bytes, AllBytes, All-append, arith, codes, text_eq,
}
use go_conflux_sdk.Base.Int.{pos}
use go_conflux_sdk.Base.Dict.{lookup}
use go_conflux_sdk.Errors.{message}
use go_conflux_sdk.Result.{ok_injective, Result, ok, err}
use go_conflux_sdk.Hex.{decode_partial, digit_value}
use go_conflux_sdk.Json.{str, as_string}
use go_conflux_sdk.Types.Address.{new_big_int}
use go_conflux_sdk.Types.Transaction.{UnsignedTransaction, empty_base, apply_default}
use go_conflux_sdk.Types.Rlp.{
  Complete, complete_tx, unsigned_to_struct, signed_to_struct, encode_unsigned_tx, transaction_hash,
  encode_signed_tx, encode_with_signature,
}
use go_conflux_sdk.Account.Keys.{Account}
use go_conflux_sdk.Account.{
  AccountManager, read_ks, split_signature, account, found, sender, sign_transaction,
}
use go_conflux_sdk.Account.Operator.{Holds, on_manager, operator}
use go_conflux_sdk.Client.Requester.{Client, Requester}
use go_conflux_sdk.Client.Queries.{
  variadic, if_set, query, as_big, get_gas_price, get_next_nonce, get_status, get_epoch_number,
  send_raw_transaction,
}
use go_conflux_sdk.Client.Defaults.{
  TxState, on_world, change_tx, at_least_min, when_nil, account_or_error, from_manager,
  default_from, default_nonce, chain_of, default_chain_id, default_gas_price, default_epoch_height,
  default_estimate, at_tx, apply_defaults, apply_unsigned_transaction_default,
}
use go_conflux_sdk.Client.Send.{sign_current, sign_and_send, send_transaction}
use go_conflux_sdk.Client.Send.Managed.{SentSigned, send_transaction-SentSigned}
use go_conflux_sdk.Client.Send.Delivered.{SignsBytes, Delivered, send_transaction-Delivered}
use go_conflux_sdk.Tests.Instances.{
  eth, eth-HexLaws, codec, codec-RlpLaws, keystore, fit, fit-AllBytes, natural, encode_struct,
  encode_with_vrs,
}
use go_conflux_sdk.Tests.Accounts.{one_manager}

abbrev pub World : Type 0
World = AccountManager (List Account)

abbrev pub itself : Holds (List Account) World
itself = record { get = λ w. w; put = λ m w. m }

abbrev answering : Requester World
answering = record {
  call = λ method args w. (ok (str (codes "0x7")), w);
  call_status = λ method args w. (err (message "no status"), w);
  batch = λ elems w. (ok [], w);
  close = λ w. w;
}

abbrev pub managed_client : Client World
managed_client = record {
  node_url = codes "node";
  rpc_requester = answering;
  account_manager = some (operator eth codec keystore itself);
}

abbrev own_tx : UnsignedTransaction
own_tx = record {
  base = record empty_base {
    from = some (codes "0x1");
    gas = some (pos 21000);
    storage_limit = some (pos 0);
  };
  to = some (codes "0x34");
  tx_data = [];
}

abbrev own_state : TxState World
own_state = record { world = one_manager; tx = own_tx }

managed_ok : (send_transaction eth managed_client own_state).0 ≡ ok (codes "0x7")
unfolding send_transaction sign_and_send sign_current send_raw_transaction
    apply_unsigned_transaction_default apply_defaults at_tx default_from default_nonce
    default_chain_id default_gas_price default_epoch_height default_estimate change_tx apply_default
    when_nil from_manager account_or_error on_world chain_of at_least_min get_next_nonce get_status
    get_gas_price get_epoch_number query as_big if_set variadic as_string new_big_int operator
    on_manager sign_transaction sender found account lookup text_eq read_ks split_signature
    transaction_hash encode_unsigned_tx unsigned_to_struct encode_struct natural fit decode_partial
    digit_value encode_with_signature encode_signed_tx signed_to_struct encode_with_vrs
managed_ok = refl

send_transaction-SentSigned_example :
    SentSigned eth codec keystore itself managed_client own_state (codes "0x7")
send_transaction-SentSigned_example =
    send_transaction-SentSigned eth codec keystore itself managed_client own_state (codes "0x7")
      refl managed_ok

abbrev own_numbers : Complete
own_numbers = record {
  nonce = 7;
  gas_price = 1_000_000_000;
  gas = 21000;
  value = 0;
  storage_limit = 0;
  epoch_height = 7;
  chain_id = 0;
  tx_data = [];
}

own_filled :
    (apply_unsigned_transaction_default eth (some managed_client) own_state).1.tx
    ≡ complete_tx own_numbers (some (codes "0x1")) (codes "0x34")
unfolding apply_unsigned_transaction_default apply_defaults at_tx default_from default_nonce
    default_chain_id default_gas_price default_epoch_height default_estimate change_tx apply_default
    when_nil from_manager account_or_error on_world chain_of at_least_min get_next_nonce get_status
    get_gas_price get_epoch_number query as_big if_set variadic as_string new_big_int
own_filled = refl

pub keystore-SignsBytes : SignsBytes keystore
keystore-SignsBytes k a hash sig e =
    subst AllBytes (ok_injective e)
      (All-append (λ b. b < 256) (fit 64 hash) (1 ∷ []) (fit-AllBytes 64 hash) (omega arith, tt))

send_transaction-Delivered_example :
    Delivered eth codec eth-HexLaws codec-RlpLaws keystore itself managed_client own_state
      (codes "0x7")
      own_numbers
      (some (codes "0x1"))
      (codes "0x34")
send_transaction-Delivered_example =
    send_transaction-Delivered eth codec eth-HexLaws codec-RlpLaws keystore itself managed_client
      own_state (codes "0x7") own_numbers (some (codes "0x1")) (codes "0x34") refl managed_ok
      own_filled tt keystore-SignsBytes

-- A transaction that is complete already.
abbrev ready_tx : UnsignedTransaction
ready_tx = record own_tx {
  base = record (own_tx.base) {
    nonce = some (pos 1);
    gas_price = some (pos 2);
    value = some (pos 5);
    epoch_height = some (pos 9);
    chain_id = some (pos 1);
  };
}

abbrev bytes_in : Result Bytes → Bytes
bytes_in (ok raw) = raw
bytes_in _ = []

abbrev ready_raw : Bytes
ready_raw = bytes_in (sign_transaction eth codec keystore ready_tx one_manager).0

ready_ok : (sign_transaction eth codec keystore ready_tx one_manager).0 ≡ ok ready_raw
unfolding sign_transaction sender found account lookup text_eq read_ks split_signature
    transaction_hash encode_unsigned_tx unsigned_to_struct encode_struct natural fit decode_partial
    digit_value encode_with_signature encode_signed_tx signed_to_struct encode_with_vrs
ready_ok = refl
