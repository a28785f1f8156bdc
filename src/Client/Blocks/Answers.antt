-- ===== src/Client/Blocks/Answers.antt =====
-- The queries of client.go on a node whose answers are what the struct tags of the package types make
-- of blocks, transactions, receipts and logs.
use go_conflux_sdk.Base.{◌≡◌, refl, true, false, Option, some, List, [], ◌∷◌}
use go_conflux_sdk.Result.{ok}
use go_conflux_sdk.Ethereum.{Ethereum}
use go_conflux_sdk.Json.Decode.{unmarshal_rpc_result}
use go_conflux_sdk.Json.Numbers.{QuantityLaws}
use go_conflux_sdk.Json.Logs.{logs_codec, decode_logs}
use go_conflux_sdk.Json.Logs.RoundTrip.{log_laws}
use go_conflux_sdk.Json.Float64.{in_interface}
use go_conflux_sdk.Json.Codec.{Codec, CodecLaws, slice_laws}
use go_conflux_sdk.Json.Transactions.{
  transaction_codec, receipt_codec, estimate_codec, decode_transaction, decode_receipt,
  decode_estimate,
}
use go_conflux_sdk.Json.Transactions.RoundTrip.{transaction_laws, receipt_laws, estimate_laws}
use go_conflux_sdk.Json.Blocks.{block_codec, decode_block, summary_codec, decode_summary}
use go_conflux_sdk.Json.Blocks.RoundTrip.{block_laws, summary_laws}
use go_conflux_sdk.Types.Address.{Hash}
use go_conflux_sdk.Types.Epoch.{Epoch}
use go_conflux_sdk.Types.Response.{Transaction, Estimate}
use go_conflux_sdk.Types.Request.{CallRequest}
use go_conflux_sdk.Types.Block.{Block, BlockSummary, Log, LogFilter, TransactionReceipt}
use go_conflux_sdk.Client.Requester.{text, flag, at_epoch, request, filter, Requester}
use go_conflux_sdk.Client.Queries.{
  query, unless_null, get_transaction_by_hash, estimate_gas_and_collateral,
}
use go_conflux_sdk.Client.Blocks.{
  get_logs, get_block_by_hash, get_block_by_epoch, get_block_summary_by_hash,
  get_block_summary_by_epoch, get_transaction_receipt,
}

-- What a codec writes comes back through an interface{}.
reads_back :
    {A : Type 0} {c : Codec A}
    → CodecLaws c
    → (a : A) → c.IsWritable a
    → c.read c.zero_value (in_interface (c.write a)) ≡ ok a
reads_back laws a h = rw (laws.in_interface-write a h) (laws.read_write a h)

module _ {W : Type 0} (E : Ethereum) (law : QuantityLaws E) (Q : Requester W) where
  -- When the node answers the call of cfx_getLogs with logs as their struct tags write them, nil pointers
  -- left out, and no number of the logs is negative or has more than 256 bits, GetLogs returns these logs.
  -- hexutil.Big is assumed to read what hexutil.EncodeBig writes.
  pub get_logs-write :
      (f : LogFilter) (ls : List Log) (w w' : W)
      → (logs_codec E).IsWritable ls
      → Q.call "cfx_getLogs" (filter f ∷ []) w ≡ (ok ((logs_codec E).write ls), w')
      → get_logs E Q f w ≡ (ok ls, w')
  unfolding get_logs query unmarshal_rpc_result decode_logs
  get_logs-write f ls w w' h e = rw (e, reads_back (slice_laws _ (log_laws E law)) ls h) refl

  -- When the node answers the calls for a block and for its summary, by its hash and by an epoch, with them
  -- as their struct tags write them, a block with its transactions and a summary with their hashes, and
  -- their numbers fit their types, GetBlockByHash, GetBlockByEpoch, GetBlockSummaryByHash and
  -- GetBlockSummaryByEpoch return them. hexutil.Big and hexutil.Uint64 are assumed to read what
  -- hexutil.EncodeBig writes.
  pub get_block-write :
      (hash : Hash) (epoch : Option Epoch) (b : Block) (summary : BlockSummary) (w w' : W)
      → (block_codec E).IsWritable b
      → (summary_codec E).IsWritable summary
      → Q.call "cfx_getBlockByHash" (text hash ∷ flag true ∷ []) w
        ≡ (ok ((block_codec E).write b), w')
      → Q.call "cfx_getBlockByEpochNumber" (at_epoch epoch ∷ flag true ∷ []) w
        ≡ (ok ((block_codec E).write b), w')
      → Q.call "cfx_getBlockByHash" (text hash ∷ flag false ∷ []) w
        ≡ (ok ((summary_codec E).write summary), w')
      → Q.call "cfx_getBlockByEpochNumber" (at_epoch epoch ∷ flag false ∷ []) w
        ≡ (ok ((summary_codec E).write summary), w')
      → (get_block_by_hash E Q hash w ≡ (ok (some b), w'))
        × (get_block_by_epoch E Q epoch w ≡ (ok b, w'))
        × (get_block_summary_by_hash E Q hash w ≡ (ok (some summary), w'))
        × (get_block_summary_by_epoch E Q epoch w ≡ (ok summary, w'))
  unfolding get_block_by_hash get_block_by_epoch get_block_summary_by_hash
      get_block_summary_by_epoch query unless_null unmarshal_rpc_result decode_block decode_summary
  get_block-write hash epoch b summary w w' hb hs by_hash by_epoch short_by_hash short_by_epoch = (
    rw (by_hash, reads_back (block_laws E law) b hb) refl,
    rw (by_epoch, reads_back (block_laws E law) b hb) refl,
    rw (short_by_hash, reads_back (summary_laws E law) summary hs) refl,
    rw (short_by_epoch, reads_back (summary_laws E law) summary hs) refl,
  )

  -- When the node answers the calls for a transaction and for its receipt with them as their struct tags
  -- write them, their numbers fit their types, and the index, the epoch number and the outcome status of
  -- the receipt are below 2^53, as float64 is what they go through, GetTransactionByHash and
  -- GetTransactionReceipt return them. hexutil.Big is assumed to read what hexutil.EncodeBig writes.
  pub get_transaction-write :
      (hash : Hash) (t : Transaction) (receipt : TransactionReceipt) (w w' w'' : W)
      → (transaction_codec E).IsWritable t
      → (receipt_codec E).IsWritable receipt
      → Q.call "cfx_getTransactionByHash" (text hash ∷ []) w
        ≡ (ok ((transaction_codec E).write t), w')
      → Q.call "cfx_getTransactionReceipt" (text hash ∷ []) w'
        ≡ (ok ((receipt_codec E).write receipt), w'')
      → (get_transaction_by_hash E Q hash w ≡ (ok (some t), w'))
        × (get_transaction_receipt E Q hash w' ≡ (ok (some receipt), w''))
  unfolding get_transaction_by_hash get_transaction_receipt query unless_null unmarshal_rpc_result
      decode_transaction decode_receipt
  get_transaction-write hash t receipt w w' w'' ht hr found receipted = (
    rw (found, reads_back (transaction_laws E law) t ht) refl,
    rw (receipted, reads_back (receipt_laws E law) receipt hr) refl,
  )

  pub estimate-write :
      (r : CallRequest) (estimate : Estimate) (w w' : W)
      → (estimate_codec E).IsWritable estimate
      → Q.call "cfx_estimateGasAndCollateral" (request r ∷ []) w
        ≡ (ok ((estimate_codec E).write estimate), w')
      → estimate_gas_and_collateral E Q r w ≡ (ok estimate, w')
  unfolding estimate_gas_and_collateral query unmarshal_rpc_result decode_estimate
  estimate-write r estimate w w' h e = rw (e, reads_back (estimate_laws E law) estimate h) refl
