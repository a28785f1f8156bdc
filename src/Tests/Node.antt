-- ===== src/Tests/Node.antt =====
-- A node that answers "0x7" to every query, and clients of it. The world counts the calls.
use go_conflux_sdk.Base.{ℕ, zero, suc, ◌≡◌, refl, Option, none, some, [], ◌∷◌, codes}
use go_conflux_sdk.Base.Int.{pos}
use go_conflux_sdk.Errors.{message}
use go_conflux_sdk.Result.{ok, err}
use go_conflux_sdk.Exec.{Exec}
use go_conflux_sdk.Json.{str, as_string}
use go_conflux_sdk.Types.Address.{new_big_int}
use go_conflux_sdk.Types.Transaction.{UnsignedTransaction, empty_base, apply_default}
use go_conflux_sdk.Client.Requester.{Client, Requester, AccountManagerOperator}
use go_conflux_sdk.Client.Queries.{
  variadic, if_set, query, as_big, get_gas_price, get_next_nonce, get_status, get_epoch_number,
  send_raw_transaction,
}
use go_conflux_sdk.Client.Retry.{retry_batch_call}
use go_conflux_sdk.Client.Retry.Bounds.{Ended, retry_batch_call-Ended}
use go_conflux_sdk.Client.Defaults.{
  TxState, on_world, change_tx, at_least_min, when_nil, account_or_error, from_manager,
  default_from, default_nonce, chain_of, default_chain_id, default_gas_price, default_epoch_height,
  default_estimate, at_tx, apply_defaults, apply_unsigned_transaction_default,
}
use go_conflux_sdk.Client.Defaults.Kept.{Extends, apply_unsigned_transaction_default-Extends}
use go_conflux_sdk.Client.Defaults.Filled.{Present}
use go_conflux_sdk.Client.Defaults.Price.{FloorPrice, apply_unsigned_transaction_default-FloorPrice}
use go_conflux_sdk.Client.Send.{sign_current, sign_and_send, send_transaction}
use go_conflux_sdk.Tests.Instances.{eth}

abbrev pub node : Requester ℕ
node = record {
  call = λ method args w. (ok (str (codes "0x7")), suc w);
  call_status = λ method args w. (err (message "no status"), suc w);
  batch = λ elems w. (ok [], suc w);
  close = λ w. w;
}

abbrev pub manager : AccountManagerOperator ℕ
manager = record {
  get_default = λ w. (ok (some (codes "0x12")), w);
  sign_transaction = λ tx w. (ok (1 ∷ 2 ∷ 3 ∷ []), w);
}

abbrev pub client_with : Option (AccountManagerOperator ℕ) → Client ℕ
client_with am = record { node_url = codes "node"; rpc_requester = node; account_manager = am }

-- No field is set but the gas and the storage limit.
abbrev sparse_tx : UnsignedTransaction
sparse_tx = record {
  base = record empty_base { gas = some (pos 21000); storage_limit = some (pos 0) };
  to = some (codes "0x34");
  tx_data = [];
}

-- The same, with a sender.
abbrev from_tx : UnsignedTransaction
from_tx = record sparse_tx { base = record (sparse_tx.base) { from = some (codes "0x12") } }

abbrev at_start : UnsignedTransaction → TxState ℕ
at_start tx = record { world = 0; tx = tx }

sparse_ok :
    (apply_unsigned_transaction_default eth
      (some (client_with (some manager)))
      (at_start sparse_tx)).0
    ≡ ok tt
unfolding apply_unsigned_transaction_default apply_defaults at_tx default_from default_nonce
    default_chain_id default_gas_price default_epoch_height default_estimate change_tx apply_default
    when_nil from_manager account_or_error on_world chain_of at_least_min get_next_nonce get_status
    get_gas_price get_epoch_number query as_big if_set variadic as_string new_big_int
sparse_ok = refl

apply_unsigned_transaction_default-Extends_example :
    Extends sparse_tx
      (apply_unsigned_transaction_default eth
        (some (client_with (some manager)))
        (at_start sparse_tx)).1.tx
apply_unsigned_transaction_default-Extends_example =
    apply_unsigned_transaction_default-Extends eth (some (client_with (some manager)))
      (at_start sparse_tx)

apply_unsigned_transaction_default-FloorPrice_example :
    let p =
      (apply_unsigned_transaction_default eth
        (some (client_with (some manager)))
        (at_start sparse_tx)).1.tx.gas_price in
    Present p × FloorPrice p
apply_unsigned_transaction_default-FloorPrice_example =
    apply_unsigned_transaction_default-FloorPrice eth (client_with (some manager))
      (at_start sparse_tx) tt sparse_ok

send_ok :
    (send_transaction eth (client_with (some manager)) (at_start sparse_tx)).0 ≡ ok (codes "0x7")
unfolding send_transaction sign_and_send sign_current send_raw_transaction
    apply_unsigned_transaction_default apply_defaults at_tx default_from default_nonce
    default_chain_id default_gas_price default_epoch_height default_estimate change_tx apply_default
    when_nil from_manager account_or_error on_world chain_of at_least_min get_next_nonce get_status
    get_gas_price get_epoch_number query as_big if_set variadic as_string new_big_int
send_ok = refl

from_ok :
    (apply_unsigned_transaction_default eth (some (client_with none)) (at_start from_tx)).0 ≡ ok tt
unfolding apply_unsigned_transaction_default apply_defaults at_tx default_from default_nonce
    default_chain_id default_gas_price default_epoch_height default_estimate change_tx apply_default
    when_nil from_manager account_or_error on_world chain_of at_least_min get_next_nonce get_status
    get_gas_price get_epoch_number query as_big if_set variadic as_string new_big_int
from_ok = refl

-- An attempt that fails until the world's count is 2.
abbrev attempt : Exec ℕ ℕ
attempt w = elim w [
  | zero ↦ (err (message "timeout"), 1)
  | suc zero ↦ (err (message "timeout"), 2)
  | suc (suc n) ↦ (ok 5, suc (suc (suc n)))
]

retry_batch_call-Ended_example :
    Ended
      (λ i w. w)
      (pos 1)
      attempt
      4
      "timeout when batch call %+v"
      0
      (retry_batch_call (λ i w. w) (pos 1) attempt (pos 3) 0)
retry_batch_call-Ended_example = retry_batch_call-Ended (λ i w. w) (pos 1) attempt (pos 3) 0
