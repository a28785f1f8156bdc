-- ===== src/Client/Blocks.antt =====
-- The queries of client.go that return blocks, logs, receipts and the confirmation risk.
pub mod Answers
use go_conflux_sdk.Base.{true, false, Option, none, some, List, [], ◌∷◌, String}
use go_conflux_sdk.Base.Int.{ℤ, pos}
use go_conflux_sdk.Base.Float.{Float, set_int, quo}
use go_conflux_sdk.Exec.{Exec, ◌>>=◌, pure, lift, wrapping}
use go_conflux_sdk.Ethereum.{Ethereum}
use go_conflux_sdk.Json.{Value, null}
use go_conflux_sdk.Json.Decode.{unmarshal_rpc_result}
use go_conflux_sdk.Json.Logs.{decode_logs}
use go_conflux_sdk.Json.Transactions.{decode_receipt}
use go_conflux_sdk.Json.Blocks.{decode_summary, decode_block}
use go_conflux_sdk.Types.Address.{Hash, max_uint256}
use go_conflux_sdk.Types.Epoch.{Epoch}
use go_conflux_sdk.Types.Block.{BlockSummary, Block, LogFilter, Log, TransactionReceipt}
use go_conflux_sdk.Client.Requester.{Arg, text, flag, at_epoch, filter, Requester}
use go_conflux_sdk.Client.Queries.{query, as_big, unless_null}

-- The epoch of a block that may be nil, and of a block without an epoch, is nil.
abbrev pub epoch_of_summary : Option BlockSummary → Option ℤ
epoch_of_summary none = none
epoch_of_summary (some block) = block.header.epoch_number

-- The risk of a block that the node gives none for: 0 if it has an epoch, the greatest one otherwise.
unfoldable pub risk_without_answer : Option ℤ → ℤ
risk_without_answer (some epoch) = pos 0
risk_without_answer none = pos max_uint256

module _ {W : Type 0} (E : Ethereum) (Q : Requester W) where
  unfoldable pub get_block_summary_by_hash : Hash → Exec W (Option BlockSummary)
  get_block_summary_by_hash block_hash = do
    v ←
        query E Q "cfx_getBlockByHash" "rpc cfx_getBlockByHash %+v error"
          (text block_hash ∷ flag false ∷ [])
    wrapping "UnmarshalRPCResult %+v error"
        (lift (unless_null (unmarshal_rpc_result (decode_summary E)) v))

  pub get_block_by_hash : Hash → Exec W (Option Block)
  get_block_by_hash block_hash = do
    v ←
        query E Q "cfx_getBlockByHash" "rpc cfx_getBlockByHash %+v error"
          (text block_hash ∷ flag true ∷ [])
    wrapping "UnmarshalRPCResult %+v error"
        (lift (unless_null (unmarshal_rpc_result (decode_block E)) v))

  -- A null answer is decoded like any other.
  pub get_block_summary_by_epoch : Option Epoch → Exec W BlockSummary
  get_block_summary_by_epoch epoch = do
    v ←
        query E Q "cfx_getBlockByEpochNumber" "rpc cfx_getBlockByEpochNumber %+v error"
          (at_epoch epoch ∷ flag false ∷ [])
    wrapping "UnmarshalRPCResult %+v error" (lift (unmarshal_rpc_result (decode_summary E) v))

  pub get_block_by_epoch : Option Epoch → Exec W Block
  get_block_by_epoch epoch = do
    v ←
        query E Q "cfx_getBlockByEpochNumber" "rpc cfx_getBlockByEpochNumber %+v error"
          (at_epoch epoch ∷ flag true ∷ [])
    wrapping "UnmarshalRPCResult %+v error" (lift (unmarshal_rpc_result (decode_block E) v))

  pub get_logs : LogFilter → Exec W (List Log)
  get_logs f = do
    v ← query E Q "cfx_getLogs" "rpc cfx_getLogs of {%+v} error" (filter f ∷ [])
    wrapping "UnmarshalRPCResult %+v error" (lift (unmarshal_rpc_result (decode_logs E) v))

  pub get_transaction_receipt : Hash → Exec W (Option TransactionReceipt)
  get_transaction_receipt tx_hash = do
    v ←
        query E Q "cfx_getTransactionReceipt" "rpc cfx_getTransactionReceipt of {%+v} error"
          (text tx_hash ∷ [])
    wrapping "UnmarshalRPCResult %+v error"
        (lift (unless_null (unmarshal_rpc_result (decode_receipt E)) v))

  -- What is made of the node's answer; the block is asked for if there is none.
  unfoldable pub raw_risk : Hash → Value → Exec W ℤ
  unfolding risk_without_answer
  raw_risk blockhash null = do
    block ← wrapping "get block by hash %+v error" (get_block_summary_by_hash blockhash)
    pure (risk_without_answer (epoch_of_summary block))
  raw_risk blockhash v = lift (as_big E Q v)

  unfoldable pub get_raw_block_confirmation_risk : Hash → Exec W ℤ
  unfolding raw_risk
  get_raw_block_confirmation_risk blockhash = do
    v ←
        query E Q "cfx_getConfirmationRiskByHash" "rpc cfx_getConfirmationRiskByHash %+v error"
          (text blockhash ∷ [])
    raw_risk blockhash v

  -- A nil risk has a nil rate, and no error.
  unfoldable pub rate_of : Option ℤ → Option Float
  rate_of none = none
  rate_of (some risk) = some (quo (set_int risk) (set_int (pos max_uint256)))

  unfoldable pub get_block_confirmation_risk : Hash → Exec W (Option Float)
  unfolding rate_of
  get_block_confirmation_risk blockhash = do
    risk ←
        wrapping "get block confirmation risk by hash %+v error"
          (get_raw_block_confirmation_risk blockhash)
    pure (rate_of (some risk))

  -- Debug
  pub debug : String → List Arg → Exec W Value
  debug method args = query E Q method "rpc call method {%+v} with args {%+v} error" args
