-- ===== src/Tests/Answers.antt =====
-- A node with one log, one block and one transaction in it.
use go_conflux_sdk.Base.{
  ℕ, ◌≡◌, refl, ap, true, false, some, none, List, [], ◌∷◌, codes, arith, ◌==◌, ◌+◌, if◌then◌else◌,
}
use go_conflux_sdk.Base.Int.{pos}
use go_conflux_sdk.Result.{ok}
use go_conflux_sdk.Json.{Value}
use go_conflux_sdk.Json.Numbers.{QuantityLaws}
use go_conflux_sdk.Json.Struct.{IsWritableStruct}
use go_conflux_sdk.Json.Logs.{logs_codec, log_table, entry_table}
use go_conflux_sdk.Json.Transactions.{
  transaction_codec, receipt_codec, transaction_table, receipt_table,
}
use go_conflux_sdk.Json.Blocks.{
  block_codec, block_table, header_table, summary_codec, summary_table,
}
use go_conflux_sdk.Types.Response.{Transaction}
use go_conflux_sdk.Types.Block.{Log, LogFilter, Block, BlockSummary, TransactionReceipt}
use go_conflux_sdk.Client.Requester.{Requester, Arg, flag}
use go_conflux_sdk.Client.Queries.{get_transaction_by_hash}
use go_conflux_sdk.Client.Blocks.{
  get_block_by_hash, get_block_by_epoch, get_block_summary_by_hash, get_block_summary_by_epoch,
  get_transaction_receipt,
}
use go_conflux_sdk.Client.Blocks.Answers.{get_block-write, get_transaction-write}
use go_conflux_sdk.Tests.Instances.{eth}
use go_conflux_sdk.Tests.Node.{node}

pub eth-QuantityLaws : QuantityLaws eth
eth-QuantityLaws = record {
  big = λ n h. ap (λ (m : ℕ). ok (pos m)) (omega arith);
  uint64 = λ n h. ap (λ (m : ℕ). ok m) (omega arith);
}

abbrev pub sample_log : Log
sample_log = record {
  entry = record {
    address = codes "0x8a";
    topics = codes "0x1" ∷ codes "0x2" ∷ [];
    log_data = codes "0x";
  };
  block_hash = some (codes "0xb");
  epoch_number = some (pos 7);
  transaction_hash = none;
  transaction_index = none;
  log_index = some (pos 2);
  transaction_log_index = some (pos 0);
  removed = false;
}

abbrev pub every_log : LogFilter
every_log = record {
  from_epoch = none;
  to_epoch = none;
  block_hashes = [];
  address = [];
  topics = [];
  limit = none;
}

pub sample_log-IsWritable : (logs_codec eth).IsWritable (sample_log ∷ [])
unfolding IsWritableStruct log_table
sample_log-IsWritable = ground arith

abbrev sample_transaction : Transaction
sample_transaction = record {
  hash = codes "0xa1";
  nonce = some (pos 3);
  block_hash = some (codes "0xb");
  transaction_index = some (pos 0);
  from = codes "0x1a";
  to = none;
  value = some (pos 9);
  gas_price = some (pos 1);
  gas = some (pos 4);
  contract_created = some (codes "0x8c");
  tx_data = codes "0x60";
  status = some (pos 0);
  chain_id = none;
  epoch_height = some (pos 7);
  storage_limit = some (pos 5);
  v = some (pos 1);
  r = some (pos 2);
  s = some (pos 3);
}

sample_transaction-IsWritable : (transaction_codec eth).IsWritable sample_transaction
unfolding IsWritableStruct transaction_table
sample_transaction-IsWritable = ground arith

abbrev sample_block : Block
sample_block = record {
  header = record {
    hash = codes "0xb";
    parent_hash = codes "0xc";
    height = some (pos 6);
    miner = codes "0x1d";
    deferred_state_root = codes "0x1";
    deferred_receipts_root = codes "0x2";
    deferred_logs_bloom_hash = codes "0x3";
    blame = 40;
    transactions_root = codes "0x4";
    epoch_number = some (pos 7);
    gas_limit = some (pos 8);
    timestamp = some 9;
    difficulty = some (pos 2);
    referee_hashes = codes "0xd" ∷ codes "0xe" ∷ [];
    stable = some true;
    adaptive = false;
    nonce = some (pos 5);
    size = none;
  };
  transactions = sample_transaction ∷ [];
}

sample_block-IsWritable : (block_codec eth).IsWritable sample_block
unfolding IsWritableStruct block_table header_table
sample_block-IsWritable = ground (arith, sample_transaction-IsWritable)

abbrev sample_summary : BlockSummary
sample_summary = record { header = sample_block.header; transactions = codes "0xa1" ∷ [] }

sample_summary-IsWritable : (summary_codec eth).IsWritable sample_summary
unfolding IsWritableStruct summary_table header_table
sample_summary-IsWritable = ground arith

-- A node whose answer has the transactions if they are asked for.
abbrev block_answer : List Arg → Value
block_answer (a ∷ flag true ∷ []) = (block_codec eth).write sample_block
block_answer _ = (summary_codec eth).write sample_summary

abbrev block_node : Requester ℕ
block_node = record node { call = λ method args w. (ok (block_answer args), w) }

get_block-write_example :
    (get_block_by_hash eth block_node (codes "0xb") 0 ≡ (ok (some sample_block), 0))
    × (get_block_by_epoch eth block_node none 0 ≡ (ok sample_block, 0))
    × (get_block_summary_by_hash eth block_node (codes "0xb") 0 ≡ (ok (some sample_summary), 0))
    × (get_block_summary_by_epoch eth block_node none 0 ≡ (ok sample_summary, 0))
get_block-write_example =
    get_block-write eth eth-QuantityLaws block_node (codes "0xb") none sample_block sample_summary 0
      0 sample_block-IsWritable sample_summary-IsWritable refl refl refl refl

abbrev sample_receipt : TransactionReceipt
sample_receipt = record {
  transaction_hash = codes "0xa1";
  index = 10;
  block_hash = codes "0xb";
  epoch_number = some 123;
  from = codes "0x1a";
  to = none;
  gas_used = some (pos 4);
  contract_created = some (codes "0x8c");
  logs = sample_log.entry ∷ [];
  logs_bloom = codes "0x0";
  state_root = codes "0x5";
  outcome_status = 0;
}

sample_receipt-IsWritable : (receipt_codec eth).IsWritable sample_receipt
unfolding IsWritableStruct receipt_table entry_table
sample_receipt-IsWritable = ground arith

-- A node that is asked for the transaction first.
abbrev transaction_node : Requester ℕ
transaction_node = record node {
  call = λ method args w. (
    if w == 0
        then ok ((transaction_codec eth).write sample_transaction)
        else ok ((receipt_codec eth).write sample_receipt),
    w + 1,
  );
}

get_transaction-write_example :
    (get_transaction_by_hash eth transaction_node (codes "0xa1") 0
      ≡ (ok (some sample_transaction), 1))
    × (get_transaction_receipt eth transaction_node (codes "0xa1") 1
        ≡ (ok (some sample_receipt), 2))
get_transaction-write_example =
    get_transaction-write eth eth-QuantityLaws transaction_node (codes "0xa1") sample_transaction
      sample_receipt 0 1 2 sample_transaction-IsWritable sample_receipt-IsWritable refl refl
