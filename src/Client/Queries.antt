-- ===== src/Client/Queries.antt =====
-- The queries of client.go: each calls one method of the node and reads its answer.
use go_conflux_sdk.Base.{Option, none, some, List, [], ◌∷◌, Bytes, Text, String}
use go_conflux_sdk.Base.Int.{ℤ}
use go_conflux_sdk.Result.{Result, ok, ◌>>=◌ as then}
use go_conflux_sdk.Exec.{Exec, ◌>>=◌, lift, wrapping}
use go_conflux_sdk.Ethereum.{Ethereum}
use go_conflux_sdk.Json.{Value, null, as_string}
use go_conflux_sdk.Json.Decode.{decode_text, decode_hashes, unmarshal_rpc_result}
use go_conflux_sdk.Json.Transactions.{decode_estimate, decode_transaction}
use go_conflux_sdk.Types.Address.{Address, Hash}
use go_conflux_sdk.Types.Epoch.{Epoch}
use go_conflux_sdk.Types.Request.{CallRequest}
use go_conflux_sdk.Types.Response.{Estimate, Status, Transaction}
use go_conflux_sdk.Client.Requester.{Arg, text, at_epoch, request, Requester}

-- An epoch that is left out, or given (and then perhaps nil): a variadic parameter.
unfoldable pub variadic : List (Option Epoch) → List Arg
variadic [] = []
variadic (e ∷ rest) = at_epoch e ∷ []

-- An epoch pointer that is passed on if it is not nil.
unfoldable pub if_set : Option Epoch → List Arg
if_set none = []
if_set (some e) = at_epoch (some e) ∷ []

-- A null result is nil, anything else is decoded.
unfoldable pub unless_null : {A : Type 0} → (Value → Result A) → Value → Result (Option A)
unless_null decode null = ok none
unless_null decode v = then (decode v) (λ a. ok (some a))

module _ {W : Type 0} (E : Ethereum) (Q : Requester W) where
  -- Call, the error under a message
  unfoldable pub query : String → String → List Arg → Exec W Value
  query method msg args = wrapping msg (Q.call method args)

  -- hexutil.DecodeBig(result.(string))
  unfoldable pub as_big : Value → Result ℤ
  as_big v = then (as_string v) E.decode_big

  unfoldable pub get_gas_price : Exec W ℤ
  unfolding query as_big
  get_gas_price = do v ← query "cfx_gasPrice" "rpc request cfx_gasPrice error" []; lift (as_big v)

  unfoldable pub get_next_nonce : Address → Option Epoch → Exec W ℤ
  unfolding query as_big if_set
  get_next_nonce address epoch = do
    v ←
        query "cfx_getNextNonce" "rpc request cfx_getNextNonce %+v error"
          (text address ∷ if_set epoch)
    lift (as_big v)

  unfoldable pub get_status : Exec W Status
  get_status = wrapping "rpc request cfx_getStatus error" (Q.call_status "cfx_getStatus" [])

  unfoldable pub get_epoch_number : List (Option Epoch) → Exec W ℤ
  unfolding query as_big variadic
  get_epoch_number epoch = do
    v ← query "cfx_epochNumber" "rpc cfx_epochNumber %+v error" (variadic epoch)
    lift (as_big v)

  pub get_balance : Address → List (Option Epoch) → Exec W ℤ
  unfolding query as_big variadic
  get_balance address epoch = do
    v ← query "cfx_getBalance" "rpc cfx_getBalance %+v error" (text address ∷ variadic epoch)
    lift (as_big v)

  pub get_code : Address → List (Option Epoch) → Exec W Text
  unfolding query variadic
  get_code address epoch = do
    v ← query "cfx_getCode" "rpc cfx_getCode %+v error" (text address ∷ variadic epoch)
    lift (as_string v)

  pub get_best_block_hash : Exec W Hash
  unfolding query
  get_best_block_hash = do
    v ← query "cfx_getBestBlockHash" "rpc cfx_getBestBlockHash error" []
    lift (as_string v)

  unfoldable pub send_raw_transaction : Bytes → Exec W Hash
  unfolding query
  send_raw_transaction raw = do
    v ←
        query "cfx_sendRawTransaction" "rpc cfx_sendRawTransaction 0x%+x error"
          (text (E.hex_encode raw) ∷ [])
    lift (as_string v)

  -- Call of client.go
  unfoldable pub call_contract : CallRequest → Option Epoch → Exec W Text
  unfolding query if_set
  call_contract req epoch = do
    v ← query "cfx_call" "rpc cfx_call {%+v} error" (request req ∷ if_set epoch)
    wrapping "UnmarshalRPCResult %+v error" (lift (unmarshal_rpc_result decode_text v))

  unfoldable pub estimate_gas_and_collateral : CallRequest → Exec W Estimate
  unfolding query
  estimate_gas_and_collateral req = do
    v ←
        query "cfx_estimateGasAndCollateral" "rpc cfx_estimateGasAndCollateral of {%+v} error"
          (request req ∷ [])
    wrapping "UnmarshalRPCResult %+v error" (lift (unmarshal_rpc_result (decode_estimate E) v))

  pub get_blocks_by_epoch : Option Epoch → Exec W (List Hash)
  unfolding query
  get_blocks_by_epoch epoch = do
    v ← query "cfx_getBlocksByEpoch" "rpc cfx_getBlocksByEpoch {%+v} error" (at_epoch epoch ∷ [])
    wrapping "UnmarshalRPCResult %+v error" (lift (unmarshal_rpc_result decode_hashes v))

  -- nil if the node answers null
  unfoldable pub get_transaction_by_hash : Hash → Exec W (Option Transaction)
  unfolding query unless_null
  get_transaction_by_hash hash = do
    v ← query "cfx_getTransactionByHash" "rpc cfx_getTransactionByHash {%+v} error" (text hash ∷ [])
    wrapping "UnmarshalRPCResult %+v error"
        (lift (unless_null (unmarshal_rpc_result (decode_transaction E)) v))
