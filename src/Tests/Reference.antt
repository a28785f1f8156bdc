-- ===== src/Tests/Reference.antt =====
-- A node that answers every query of ApplyUnsignedTransactionDefault and is left alone by it.
use go_conflux_sdk.Base.{ℕ, ◌≡◌, refl, some, none, List, [], ◌∷◌, codes, text_eq}
use go_conflux_sdk.Base.Int.{pos}
use go_conflux_sdk.Result.{ok}
use go_conflux_sdk.Json.{Value, str, obj, field, end, as_string, key_eq}
use go_conflux_sdk.Json.Codec.{pointer_value}
use go_conflux_sdk.Json.Numbers.{big_value}
use go_conflux_sdk.Json.Struct.{read_struct, set_fields, set_field}
use go_conflux_sdk.Json.Decode.{unmarshal_rpc_result}
use go_conflux_sdk.Json.Transactions.{decode_estimate, estimate_table}
use go_conflux_sdk.Types.Transaction.{UnsignedTransaction, empty_base}
use go_conflux_sdk.Types.Response.{Status}
use go_conflux_sdk.Client.Requester.{Arg, request, Client}
use go_conflux_sdk.Client.Queries.{
  variadic, if_set, query, as_big, get_gas_price, get_next_nonce, get_status, get_epoch_number,
  estimate_gas_and_collateral,
}
use go_conflux_sdk.Client.Defaults.{apply_unsigned_transaction_default}
use go_conflux_sdk.Client.Defaults.Reference.{
  Answering, IsSender, completed, apply_unsigned_transaction_default_lem,
}
use go_conflux_sdk.Tests.Instances.{eth}
use go_conflux_sdk.Tests.Node.{node, manager}

abbrev steady_answer : List Arg → Value
steady_answer (request r ∷ args) =
    obj (field (codes "storageCollateralized") (str (codes "0x7")) end)
steady_answer _ = str (codes "0x7")

abbrev steady_status : Status
steady_status = record {
  best_hash = none;
  block_number = none;
  chain_id = some (pos 2);
  epoch_number = none;
  pending_tx_number = pos 0;
}

abbrev steady_client : Client ℕ
steady_client = record {
  node_url = codes "node";
  rpc_requester = record node {
    call = λ method args w. (ok (steady_answer args), w);
    call_status = λ method args w. (ok steady_status, w);
  };
  account_manager = some manager;
}

steady_client-Answering : Answering eth steady_client
unfolding get_gas_price get_next_nonce get_status get_epoch_number estimate_gas_and_collateral query
    as_big if_set variadic as_string unmarshal_rpc_result decode_estimate estimate_table read_struct
    set_fields set_field pointer_value big_value key_eq text_eq
steady_client-Answering = record {
  nonce = λ a. pos 7;
  status = steady_status;
  price = pos 7;
  epoch = pos 7;
  estimate = λ r. record { gas_used = none; storage_collateralized = some (pos 7) };
  is_nonce = λ a w. refl;
  is_status = λ w. refl;
  is_price = λ w. refl;
  is_epoch = λ w. refl;
  is_estimate = λ r w. refl;
}

abbrev bare_tx : UnsignedTransaction
bare_tx = record { base = empty_base; to = some (codes "0x34"); tx_data = [] }

bare_tx-IsSender : IsSender eth steady_client (codes "0x12") none
unfolding IsSender
bare_tx-IsSender = (manager, refl, λ w. refl)

apply_unsigned_transaction_default_lem_example :
    apply_unsigned_transaction_default eth (some steady_client) (record { world = 0; tx = bare_tx })
    ≡ (
      ok tt,
      record {
        world = 0;
        tx = completed eth steady_client steady_client-Answering (codes "0x12") bare_tx;
      },
    )
apply_unsigned_transaction_default_lem_example =
    apply_unsigned_transaction_default_lem eth steady_client steady_client-Answering (codes "0x12")
      bare_tx 0 bare_tx-IsSender
