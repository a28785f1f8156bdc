-- ===== src/Tests/Wire.antt =====
-- Nodes that get the arguments of a call as JSON: one that finds a log, one that runs calls.
use go_conflux_sdk.Base.{
  ℕ, ◌≡◌, refl, Option, none, some, List, [], ◌∷◌, ◌++◌, Bytes, String, AllBytes, codes, arith,
}
use go_conflux_sdk.Base.Int.{pos}
use go_conflux_sdk.Result.{Result, ok, err, panic, wrap}
use go_conflux_sdk.Exec.{Exec}
use go_conflux_sdk.Hex.{encode_to_string}
use go_conflux_sdk.Json.{Value, null, str}
use go_conflux_sdk.Json.Logs.{logs_codec}
use go_conflux_sdk.Json.Requests.{FilterTexts, empty_texts, filter_codec, request_codec}
use go_conflux_sdk.Json.Requests.RoundTrip.{Fits}
use go_conflux_sdk.Types.Epoch.{latest_state, epoch_text, marshal_text}
use go_conflux_sdk.Types.Request.{
  CallRequest, empty_request, ContractMethodCallOption, fill_by_call_option,
}
use go_conflux_sdk.Types.Block.{Log, LogFilter}
use go_conflux_sdk.Client.Requester.{Requester, Client}
use go_conflux_sdk.Client.Queries.{if_set}
use go_conflux_sdk.Client.Blocks.{get_logs}
use go_conflux_sdk.Client.Wire.{marshal_args, marshal, marshal_epoch, Wire}
use go_conflux_sdk.Client.Wire.Logs.{FindsLogs, get_logs_served, no_epoch, by_name}
use go_conflux_sdk.Client.Wire.Calls.{RunsCalls}
use go_conflux_sdk.Contract.{Contract, call_method}
use go_conflux_sdk.Contract.Served.{request_to, call_method_served}
use go_conflux_sdk.Tests.Instances.{eth}
use go_conflux_sdk.Tests.Node.{node}
use go_conflux_sdk.Tests.Contracts.{abi}
use go_conflux_sdk.Tests.Answers.{eth-QuantityLaws, sample_log, sample_log-IsWritable, every_log}

abbrev answer_read : {A : Type 0} → Result A → (A → Value) → ℕ → Result Value × ℕ
answer_read (ok a) f w = (ok (f a), w)
answer_read (err e) f w = (err e, w)
answer_read panic f w = (panic, w)

abbrev send : (String → List Value → Exec ℕ Value) → String → Result (List Value) → Exec ℕ Value
send serve method (ok vs) w = serve method vs w
send serve method (err e) w = (err e, w)
send serve method panic w = (panic, w)

abbrev wired : (String → List Value → Exec ℕ Value) → Requester ℕ
wired serve = record node { call = λ method args w. send serve method (marshal_args eth args) w }

wired-Wire : (serve : String → List Value → Exec ℕ Value) → Wire eth (wired serve) serve
wired-Wire serve = record { sends = λ method args vs w e. rw e refl }

-- A node that finds a log for every filter without a first epoch.
abbrev find : FilterTexts → List Log
find f = elim f.from_epoch [ none ↦ sample_log ∷ [] | some t ↦ [] ]

abbrev serve_logs : String → List Value → Exec ℕ Value
serve_logs method [] w = (ok null, w)
serve_logs method (v ∷ vs) w =
    answer_read (filter_codec.read empty_texts v) (λ f. (logs_codec eth).write (find f)) w

serve_logs-FindsLogs : FindsLogs eth serve_logs find
serve_logs-FindsLogs = record { found = λ v f w e. rw e refl }

abbrev recent_logs : LogFilter
recent_logs = record every_log {
  to_epoch = some latest_state;
  topics = (codes "0x1" ∷ []) ∷ [] ∷ [];
  limit = some 5;
}

get_logs_served_example : get_logs eth (wired serve_logs) recent_logs 0 ≡ (ok (sample_log ∷ []), 0)
get_logs_served_example =
    get_logs_served eth eth-QuantityLaws (wired serve_logs) serve_logs (wired-Wire serve_logs) find
      recent_logs none (some (codes "latest_state")) 0 serve_logs-FindsLogs no_epoch
      (by_name _ _ none) (omega arith) sample_log-IsWritable

-- A node on which every call gives two bytes.
abbrev run : CallRequest → List Value → Bytes
run r epoch = 7 ∷ 9 ∷ []

run-AllBytes : AllBytes (7 ∷ 9 ∷ [])
run-AllBytes = omega arith

abbrev serve_calls : String → List Value → Exec ℕ Value
serve_calls method [] w = (ok null, w)
serve_calls method (v ∷ vs) w =
    answer_read ((request_codec eth).read empty_request v)
      (λ r. str (codes "0x" ++ encode_to_string (run r vs))) w

serve_calls-RunsCalls : RunsCalls eth serve_calls run
serve_calls-RunsCalls = record { ran = λ v r epoch w e. rw e refl }

abbrev wired_client : Client ℕ
wired_client = record {
  node_url = codes "node";
  rpc_requester = wired serve_calls;
  account_manager = none;
}

abbrev wired_contract : Contract ℕ (Unit {0})
wired_contract = record { abi = tt; client = some wired_client; address = some (codes "0x88") }

abbrev call_option : Option ContractMethodCallOption
call_option = some (record {
  from = none;
  nonce = none;
  gas_price = none;
  gas = some (pos 21000);
  value = none;
  storage_limit = none;
  chain_id = none;
  epoch = some latest_state;
})

call_epoch : marshal_args eth (if_set (some latest_state)) ≡ ok (str (codes "latest_state") ∷ [])
unfolding marshal_args marshal marshal_epoch if_set marshal_text epoch_text
call_epoch = refl

call-Fits : Fits eth (request_to wired_contract call_option (5 ∷ []))
unfolding fill_by_call_option
call-Fits = record { gas_price = tt; gas = omega arith; value = tt; nonce = tt; storage_limit = tt }

call_method_served_example :
    call_method eth abi wired_contract call_option (codes "get") (5 ∷ []) 0
    ≡ (wrap "unpack bytes {%x} to method %v output on abi %+v error" (ok (7 ∷ 9 ∷ [])), 0)
call_method_served_example =
    call_method_served eth eth-QuantityLaws abi wired_contract wired_client serve_calls run
      call_option (codes "get") (5 ∷ []) (5 ∷ []) (str (codes "latest_state") ∷ []) 0 refl
      (wired-Wire serve_calls) serve_calls-RunsCalls refl call_epoch call-Fits run-AllBytes
