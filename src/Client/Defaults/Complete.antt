-- ===== src/Client/Defaults/Complete.antt =====
-- ApplyUnsignedTransactionDefault of client.go where nothing is missing.
use go_conflux_sdk.Base.{◌≡◌, refl, Option, some, Bytes}
use go_conflux_sdk.Base.Int.{ℤ}
use go_conflux_sdk.Result.{ok}
use go_conflux_sdk.Ethereum.{Ethereum}
use go_conflux_sdk.Types.Address.{Address}
use go_conflux_sdk.Types.Transaction.{UnsignedTransaction, apply_default}
use go_conflux_sdk.Client.Requester.{Client}
use go_conflux_sdk.Client.Defaults.{
  TxState, change_tx, when_nil, default_from, default_nonce, default_chain_id, default_gas_price,
  default_epoch_height, default_estimate, at_tx, apply_defaults, apply_unsigned_transaction_default,
}

-- A transaction in which every field with a default is set.
pub record Full : Type 0 where
  pub from : Address
  pub nonce : ℤ
  pub gas_price : ℤ
  pub gas : ℤ
  pub value : ℤ
  pub storage_limit : ℤ
  pub epoch_height : ℤ
  pub chain_id : ℤ
  pub to : Option Address
  pub tx_data : Bytes

abbrev pub full_tx : Full → UnsignedTransaction
full_tx x = record {
  base = record {
    from = some x.from;
    nonce = some x.nonce;
    gas_price = some x.gas_price;
    gas = some x.gas;
    value = some x.value;
    storage_limit = some x.storage_limit;
    epoch_height = some x.epoch_height;
    chain_id = some x.chain_id;
  };
  to = x.to;
  tx_data = x.tx_data;
}

-- On a transaction in which every field with a default is set, the call succeeds without a call of
-- the node or of the account manager, and changes nothing.
pub apply_unsigned_transaction_default_full :
    {W : Type 0} (E : Ethereum) (c : Client W) (x : Full) (w : W)
    → let st : TxState W = record { world = w; tx = full_tx x } in
      apply_unsigned_transaction_default E (some c) st ≡ (ok tt, st)
unfolding apply_unsigned_transaction_default apply_defaults at_tx default_from default_nonce
    default_chain_id default_gas_price default_epoch_height default_estimate change_tx apply_default
    when_nil
apply_unsigned_transaction_default_full E c x w = refl
