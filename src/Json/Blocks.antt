-- ===== src/Json/Blocks.antt =====
-- The struct tags of types/block.go, and the decoding by them.
pub mod RoundTrip
use go_conflux_sdk.Base.{[], ◌∷◌}
use go_conflux_sdk.Result.{Result}
use go_conflux_sdk.Ethereum.{Ethereum}
use go_conflux_sdk.Types.Response.{empty_transaction}
use go_conflux_sdk.Types.Block.{BlockHeader, BlockSummary, Block, empty_summary, empty_block}
use go_conflux_sdk.Json.{Value}
use go_conflux_sdk.Json.Struct.Embedded.{embedded}
use go_conflux_sdk.Json.Transactions.{transaction_table}
use go_conflux_sdk.Json.Codec.{Codec, text_codec, bool_codec, pointer, slice}
use go_conflux_sdk.Json.Numbers.{uint_codec, big_codec, hex_uint64_codec}
use go_conflux_sdk.Json.Struct.{Table, tag, tag_omitempty, struct}

module _ (E : Ethereum) where
  unfoldable pub header_table : Table BlockHeader
  header_table =
      tag "hash" text_codec (λ b. b.hash) (λ x b. record b { hash = x })
      ∷ tag "parentHash" text_codec (λ b. b.parent_hash) (λ x b. record b { parent_hash = x })
      ∷ tag "height" (pointer (big_codec E)) (λ b. b.height) (λ x b. record b { height = x })
      ∷ tag "miner" text_codec (λ b. b.miner) (λ x b. record b { miner = x })
      ∷ tag "deferredStateRoot" text_codec (λ b. b.deferred_state_root)
          (λ x b. record b { deferred_state_root = x })
      ∷ tag "deferredReceiptsRoot" text_codec (λ b. b.deferred_receipts_root)
          (λ x b. record b { deferred_receipts_root = x })
      ∷ tag "deferredLogsBloomHash" text_codec (λ b. b.deferred_logs_bloom_hash)
          (λ x b. record b { deferred_logs_bloom_hash = x })
      ∷ tag "blame" (uint_codec 32) (λ b. b.blame) (λ x b. record b { blame = x })
      ∷ tag "transactionsRoot" text_codec (λ b. b.transactions_root)
          (λ x b. record b { transactions_root = x })
      ∷ tag_omitempty "epochNumber" (pointer (big_codec E)) (λ b. b.epoch_number)
          (λ x b. record b { epoch_number = x })
      ∷ tag "gasLimit" (pointer (big_codec E)) (λ b. b.gas_limit)
          (λ x b. record b { gas_limit = x })
      ∷ tag "timestamp" (pointer (hex_uint64_codec E)) (λ b. b.timestamp)
          (λ x b. record b { timestamp = x })
      ∷ tag "difficulty" (pointer (big_codec E)) (λ b. b.difficulty)
          (λ x b. record b { difficulty = x })
      ∷ tag "refereeHashes" (slice text_codec) (λ b. b.referee_hashes)
          (λ x b. record b { referee_hashes = x })
      ∷ tag_omitempty "stable" (pointer bool_codec) (λ b. b.stable) (λ x b. record b { stable = x })
      ∷ tag "adaptive" bool_codec (λ b. b.adaptive) (λ x b. record b { adaptive = x })
      ∷ tag "nonce" (pointer (big_codec E)) (λ b. b.nonce) (λ x b. record b { nonce = x })
      ∷ tag_omitempty "size" (pointer (big_codec E)) (λ b. b.size) (λ x b. record b { size = x })
      ∷ []

  unfoldable pub summary_table : Table BlockSummary
  unfolding header_table
  summary_table =
      tag "transactions" (slice text_codec) (λ b. b.transactions)
        (λ x b. record b { transactions = x })
      ∷ embedded (λ (b : BlockSummary). b.header) (λ h b. record b { header = h }) header_table

  unfoldable pub block_table : Table Block
  unfolding header_table
  block_table =
      tag "transactions" (slice (struct (transaction_table E) empty_transaction))
        (λ b. b.transactions) (λ x b. record b { transactions = x })
      ∷ embedded (λ (b : Block). b.header) (λ h b. record b { header = h }) header_table

  abbrev pub summary_codec : Codec BlockSummary
  summary_codec = struct summary_table empty_summary

  unfoldable pub decode_summary : Value → Result BlockSummary
  unfolding summary_table
  decode_summary = summary_codec.read empty_summary

  abbrev pub block_codec : Codec Block
  block_codec = struct block_table empty_block

  unfoldable pub decode_block : Value → Result Block
  unfolding block_table
  decode_block = block_codec.read empty_block
