-- ===== src/Types/Response.antt =====
-- The structs that a node answers with: types/estimate.go, types/status.go, types/transaction.go.
use go_conflux_sdk.Base.{Option, none, List, [], Text}
use go_conflux_sdk.Base.Int.{ℤ}
use go_conflux_sdk.Types.Address.{Address, Hash}

pub record Estimate : Type 0 where
  pub gas_used : Option ℤ
  pub storage_collateralized : Option ℤ

abbrev pub empty_estimate : Estimate
empty_estimate = record { gas_used = none; storage_collateralized = none }

pub record Status : Type 0 where
  pub best_hash : Option Hash
  pub block_number : Option ℤ
  pub chain_id : Option ℤ
  pub epoch_number : Option ℤ
  pub pending_tx_number : ℤ

pub record Transaction : Type 0 where
  pub hash : Hash
  pub nonce : Option ℤ
  pub block_hash : Option Hash
  pub transaction_index : Option ℤ
  pub from : Address
  pub to : Option Address
  pub value : Option ℤ
  pub gas_price : Option ℤ
  pub gas : Option ℤ
  pub contract_created : Option Address
  pub tx_data : Text
  pub status : Option ℤ
  pub chain_id : Option ℤ
  pub epoch_height : Option ℤ
  pub storage_limit : Option ℤ
  pub v : Option ℤ
  pub r : Option ℤ
  pub s : Option ℤ

-- types.Transaction{}
abbrev pub empty_transaction : Transaction
empty_transaction = record {
  hash = [];
  nonce = none;
  block_hash = none;
  transaction_index = none;
  from = [];
  to = none;
  value = none;
  gas_price = none;
  gas = none;
  contract_created = none;
  tx_data = [];
  status = none;
  chain_id = none;
  epoch_height = none;
  storage_limit = none;
  v = none;
  r = none;
  s = none;
}

-- types/log.go
pub record LogEntry : Type 0 where
  pub address : Address
  pub topics : List Hash
  pub log_data : Text

abbrev pub empty_log_entry : LogEntry
empty_log_entry = record { address = []; topics = []; log_data = [] }
