-- ===== src/Types/Block.antt =====
-- The structs of types/block.go and types/log.go and the receipt of types/transaction.go.
use go_conflux_sdk.Base.{ℕ, Bool, false, Option, none, List, [], Text}
use go_conflux_sdk.Base.Int.{ℤ}
use go_conflux_sdk.Types.Address.{Address, Hash}
use go_conflux_sdk.Types.Epoch.{Epoch}
use go_conflux_sdk.Types.Response.{Transaction, LogEntry, empty_log_entry}

pub record BlockHeader : Type 0 where
  pub hash : Hash
  pub parent_hash : Hash
  pub height : Option ℤ
  pub miner : Address
  pub deferred_state_root : Hash
  pub deferred_receipts_root : Hash
  pub deferred_logs_bloom_hash : Hash
  pub blame : ℕ
  pub transactions_root : Hash
  pub epoch_number : Option ℤ
  pub gas_limit : Option ℤ
  pub timestamp : Option ℕ
  pub difficulty : Option ℤ
  pub referee_hashes : List Hash
  pub stable : Option Bool
  pub adaptive : Bool
  pub nonce : Option ℤ
  pub size : Option ℤ

abbrev empty_header : BlockHeader
empty_header = record {
  hash = [];
  parent_hash = [];
  height = none;
  miner = [];
  deferred_state_root = [];
  deferred_receipts_root = [];
  deferred_logs_bloom_hash = [];
  blame = 0;
  transactions_root = [];
  epoch_number = none;
  gas_limit = none;
  timestamp = none;
  difficulty = none;
  referee_hashes = [];
  stable = none;
  adaptive = false;
  nonce = none;
  size = none;
}

pub record BlockSummary : Type 0 where
  pub header : BlockHeader
  pub transactions : List Hash

pub record Block : Type 0 where
  pub header : BlockHeader
  pub transactions : List Transaction

-- types.BlockSummary{}, types.Block{}
abbrev pub empty_summary : BlockSummary
empty_summary = record { header = empty_header; transactions = [] }

abbrev pub empty_block : Block
empty_block = record { header = empty_header; transactions = [] }

pub record LogFilter : Type 0 where
  pub from_epoch : Option Epoch
  pub to_epoch : Option Epoch
  pub block_hashes : List Hash
  pub address : List Address
  pub topics : List (List Hash)
  pub limit : Option ℕ

pub record Log : Type 0 where
  pub entry : LogEntry
  pub block_hash : Option Hash
  pub epoch_number : Option ℤ
  pub transaction_hash : Option Hash
  pub transaction_index : Option ℤ
  pub log_index : Option ℤ
  pub transaction_log_index : Option ℤ
  pub removed : Bool

abbrev pub empty_log : Log
empty_log = record {
  entry = empty_log_entry;
  block_hash = none;
  epoch_number = none;
  transaction_hash = none;
  transaction_index = none;
  log_index = none;
  transaction_log_index = none;
  removed = false;
}

pub record TransactionReceipt : Type 0 where
  pub transaction_hash : Hash
  pub index : ℕ
  pub block_hash : Hash
  pub epoch_number : Option ℕ
  pub from : Address
  pub to : Option Address
  pub gas_used : Option ℤ
  pub contract_created : Option Address
  pub logs : List LogEntry
  pub logs_bloom : Text
  pub state_root : Hash
  pub outcome_status : ℕ

abbrev pub empty_receipt : TransactionReceipt
empty_receipt = record {
  transaction_hash = [];
  index = 0;
  block_hash = [];
  epoch_number = none;
  from = [];
  to = none;
  gas_used = none;
  contract_created = none;
  logs = [];
  logs_bloom = [];
  state_root = [];
  outcome_status = 0;
}
