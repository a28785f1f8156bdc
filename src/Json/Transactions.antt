-- ===== src/Json/Transactions.antt =====
-- The struct tags of types/estimate.go and types/transaction.go, and the decoding by them.
pub mod RoundTrip
use go_conflux_sdk.Base.{[], ◌∷◌}
use go_conflux_sdk.Result.{Result}
use go_conflux_sdk.Ethereum.{Ethereum}
use go_conflux_sdk.Types.Response.{
  Estimate, empty_estimate, Transaction, empty_transaction, empty_log_entry,
}
use go_conflux_sdk.Types.Block.{TransactionReceipt, empty_receipt}
use go_conflux_sdk.Json.{Value}
use go_conflux_sdk.Json.Logs.{entry_table}
use go_conflux_sdk.Json.Codec.{Codec, text_codec, pointer, slice}
use go_conflux_sdk.Json.Numbers.{uint_codec, big_codec}
use go_conflux_sdk.Json.Struct.{Table, tag, tag_omitempty, struct}

module _ (E : Ethereum) where
  unfoldable pub estimate_table : Table Estimate
  estimate_table =
      tag "gasUsed" (pointer (big_codec E)) (λ e. e.gas_used) (λ x e. record e { gas_used = x })
      ∷ tag "storageCollateralized" (pointer (big_codec E)) (λ e. e.storage_collateralized)
          (λ x e. record e { storage_collateralized = x })
      ∷ []

  unfoldable pub transaction_table : Table Transaction
  transaction_table =
      tag "hash" text_codec (λ t. t.hash) (λ x t. record t { hash = x })
      ∷ tag "nonce" (pointer (big_codec E)) (λ t. t.nonce) (λ x t. record t { nonce = x })
      ∷ tag_omitempty "blockHash" (pointer text_codec) (λ t. t.block_hash)
          (λ x t. record t { block_hash = x })
      ∷ tag_omitempty "transactionIndex" (pointer (big_codec E)) (λ t. t.transaction_index)
          (λ x t. record t { transaction_index = x })
      ∷ tag "from" text_codec (λ t. t.from) (λ x t. record t { from = x })
      ∷ tag_omitempty "to" (pointer text_codec) (λ t. t.to) (λ x t. record t { to = x })
      ∷ tag "value" (pointer (big_codec E)) (λ t. t.value) (λ x t. record t { value = x })
      ∷ tag "gasPrice" (pointer (big_codec E)) (λ t. t.gas_price)
          (λ x t. record t { gas_price = x })
      ∷ tag "gas" (pointer (big_codec E)) (λ t. t.gas) (λ x t. record t { gas = x })
      ∷ tag_omitempty "contractCreated" (pointer text_codec) (λ t. t.contract_created)
          (λ x t. record t { contract_created = x })
      ∷ tag "data" text_codec (λ t. t.tx_data) (λ x t. record t { tx_data = x })
      ∷ tag_omitempty "status" (pointer (big_codec E)) (λ t. t.status)
          (λ x t. record t { status = x })
      ∷ tag_omitempty "chainId" (pointer (big_codec E)) (λ t. t.chain_id)
          (λ x t. record t { chain_id = x })
      ∷ tag_omitempty "epochHeight" (pointer (big_codec E)) (λ t. t.epoch_height)
          (λ x t. record t { epoch_height = x })
      ∷ tag_omitempty "storageLimit" (pointer (big_codec E)) (λ t. t.storage_limit)
          (λ x t. record t { storage_limit = x })
      ∷ tag "v" (pointer (big_codec E)) (λ t. t.v) (λ x t. record t { v = x })
      ∷ tag "r" (pointer (big_codec E)) (λ t. t.r) (λ x t. record t { r = x })
      ∷ tag "s" (pointer (big_codec E)) (λ t. t.s) (λ x t. record t { s = x })
      ∷ []

  unfoldable pub receipt_table : Table TransactionReceipt
  receipt_table =
      tag "transactionHash" text_codec (λ t. t.transaction_hash)
        (λ x t. record t { transaction_hash = x })
      ∷ tag "index" (uint_codec 64) (λ t. t.index) (λ x t. record t { index = x })
      ∷ tag "blockHash" text_codec (λ t. t.block_hash) (λ x t. record t { block_hash = x })
      ∷ tag_omitempty "epochNumber" (pointer (uint_codec 64)) (λ t. t.epoch_number)
          (λ x t. record t { epoch_number = x })
      ∷ tag "from" text_codec (λ t. t.from) (λ x t. record t { from = x })
      ∷ tag_omitempty "to" (pointer text_codec) (λ t. t.to) (λ x t. record t { to = x })
      ∷ tag "gasUsed" (pointer (big_codec E)) (λ t. t.gas_used) (λ x t. record t { gas_used = x })
      ∷ tag_omitempty "contractCreated" (pointer text_codec) (λ t. t.contract_created)
          (λ x t. record t { contract_created = x })
      ∷ tag "logs" (slice (struct entry_table empty_log_entry)) (λ t. t.logs)
          (λ x t. record t { logs = x })
      ∷ tag "logsBloom" text_codec (λ t. t.logs_bloom) (λ x t. record t { logs_bloom = x })
      ∷ tag "stateRoot" text_codec (λ t. t.state_root) (λ x t. record t { state_root = x })
      ∷ tag "outcomeStatus" (uint_codec 8) (λ t. t.outcome_status)
          (λ x t. record t { outcome_status = x })
      ∷ []

  abbrev pub estimate_codec : Codec Estimate
  estimate_codec = struct estimate_table empty_estimate

  unfoldable pub decode_estimate : Value → Result Estimate
  unfolding estimate_table
  decode_estimate = estimate_codec.read empty_estimate

  abbrev pub transaction_codec : Codec Transaction
  transaction_codec = struct transaction_table empty_transaction

  unfoldable pub decode_transaction : Value → Result Transaction
  unfolding transaction_table
  decode_transaction = transaction_codec.read empty_transaction

  abbrev pub receipt_codec : Codec TransactionReceipt
  receipt_codec = struct receipt_table empty_receipt

  unfoldable pub decode_receipt : Value → Result TransactionReceipt
  unfolding receipt_table
  decode_receipt = receipt_codec.read empty_receipt
