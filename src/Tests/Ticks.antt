-- ===== src/Tests/Ticks.antt =====
-- Deployments whose transaction the node knows without a status at first.
use go_conflux_sdk.Base.{ℕ, zero, suc, ◌≡◌, ◌++◌, refl, none, some, [], ◌∷◌, codes}
use go_conflux_sdk.Result.{ok, panic}
use go_conflux_sdk.Json.{Value, null, obj, end}
use go_conflux_sdk.Json.Struct.{read_struct, set_fields}
use go_conflux_sdk.Json.Transactions.{decode_transaction}
use go_conflux_sdk.Json.Decode.{unmarshal_rpc_result}
use go_conflux_sdk.Types.Response.{empty_transaction}
use go_conflux_sdk.Client.Requester.{Client}
use go_conflux_sdk.Client.Queries.{get_transaction_by_hash, query, unless_null}
use go_conflux_sdk.Contract.Deploy.{timeout, tick, await}
use go_conflux_sdk.Contract.Deploy.Ticks.{Pending, now, later, await_unknown}
use go_conflux_sdk.Tests.Instances.{eth}
use go_conflux_sdk.Tests.Node.{node, manager}
use go_conflux_sdk.Tests.Contracts.{abi}

-- The node's later answers.
abbrev answer_then : Value → ℕ → Value
answer_then v zero = obj end
answer_then v (suc n) = v

abbrev client_then : Value → Client ℕ
client_then v = record {
  node_url = codes "node";
  rpc_requester = record node { call = λ method args w. (ok (answer_then v w), suc w) };
  account_manager = some manager;
}

knows_first :
    (v : Value)
    → get_transaction_by_hash eth (client_then v).rpc_requester (codes "0x7") 0
      ≡ (ok (some empty_transaction), 1)
unfolding get_transaction_by_hash query unless_null unmarshal_rpc_result decode_transaction
    read_struct set_fields
knows_first v = refl

waits_once : (v : Value) → Pending eth abi (client_then v) (codes "0x7") (tick ∷ []) 0 1
waits_once v = later empty_transaction (knows_first v) refl now

knows_none :
    get_transaction_by_hash eth (client_then null).rpc_requester (codes "0x7") 1 ≡ (ok none, 2)
unfolding get_transaction_by_hash query unless_null
knows_none = refl

await_unknown_example :
    await eth abi (client_then null) (codes "0x7") tt ((tick ∷ []) ++ tick ∷ timeout ∷ []) 0
    ≡ (panic, 2)
await_unknown_example =
    await_unknown eth abi (client_then null) (codes "0x7") tt (tick ∷ []) (timeout ∷ []) 0 1 2
      (waits_once null) knows_none
