-- ===== src/Types/Request.antt =====
-- types/option.go: the options of a contract call, and the call requests that are filled from them.
use go_conflux_sdk.Base.{Option, none, some, [], ◌++◌, Text, codes}
use go_conflux_sdk.Base.Int.{ℤ}
use go_conflux_sdk.Hex.{encode_to_string}
use go_conflux_sdk.Types.Address.{Address}
use go_conflux_sdk.Types.Epoch.{Epoch}
use go_conflux_sdk.Types.Transaction.{UnsignedTransaction, UnsignedTransactionBase, fill}

-- The time.Duration is in nanoseconds.
pub record ContractDeployOption : Type 0 where
  pub base : UnsignedTransactionBase
  pub timeout : ℤ

pub record ContractMethodCallOption : Type 0 where
  pub from : Option Address
  pub nonce : Option ℤ
  pub gas_price : Option ℤ
  pub gas : Option ℤ
  pub value : Option ℤ
  pub storage_limit : Option ℤ
  pub chain_id : Option ℤ
  pub epoch : Option Epoch

abbrev pub ContractMethodSendOption : Type 0
ContractMethodSendOption = UnsignedTransactionBase

pub record CallRequest : Type 0 where
  pub from : Option Address
  pub to : Option Address
  pub gas_price : Option ℤ
  pub gas : Option ℤ
  pub value : Option ℤ
  pub call_data : Text
  pub nonce : Option ℤ
  pub storage_limit : Option ℤ

-- new(CallRequest)
abbrev pub empty_request : CallRequest
empty_request = record {
  from = none;
  to = none;
  gas_price = none;
  gas = none;
  value = none;
  call_data = [];
  nonce = none;
  storage_limit = none;
}

-- FillByUnsignedTx, on a transaction that is there; a nil one leaves the request as it is.
fill_from_transaction : CallRequest → UnsignedTransaction → CallRequest
fill_from_transaction request tx = record {
  from = tx.from;
  to = tx.to;
  gas_price = tx.gas_price;
  gas = fill tx.gas request.gas;
  value = tx.value;
  call_data = codes "0x" ++ encode_to_string tx.tx_data;
  nonce = fill tx.nonce request.nonce;
  storage_limit = tx.storage_limit;
}

unfoldable pub fill_by_unsigned_tx : CallRequest → Option UnsignedTransaction → CallRequest
unfolding fill_from_transaction
fill_by_unsigned_tx request none = request
fill_by_unsigned_tx request (some tx) = fill_from_transaction request tx

-- FillByCallOption: To and Data stay.
unfoldable pub fill_by_call_option : CallRequest → Option ContractMethodCallOption → CallRequest
fill_by_call_option request none = request
fill_by_call_option request (some option) = record request {
  from = option.from;
  gas_price = option.gas_price;
  gas = option.gas;
  value = option.value;
  nonce = option.nonce;
  storage_limit = option.storage_limit;
}
