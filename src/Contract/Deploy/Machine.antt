-- ===== src/Contract/Deploy/Machine.antt =====
-- DeployContract of client.go as a machine: the goroutine beside the code that reads its result. The
-- result is shared, and what others see of it between two steps of the goroutine is the field `result`.
pub mod Steps
pub mod Refines
pub mod Closes
use go_conflux_sdk.Base.{
  ◌==◌, Bool, true, false, Option, none, some, List, [], ◌∷◌, Bytes, String, if◌then◌else◌,
}
use go_conflux_sdk.Base.Int.{ℤ}
use go_conflux_sdk.Errors.{Error, message, wrapped}
use go_conflux_sdk.Result.{Result, ok, err, panic}
use go_conflux_sdk.Ethereum.{Ethereum}
use go_conflux_sdk.Types.Address.{Hash}
use go_conflux_sdk.Types.Request.{ContractDeployOption}
use go_conflux_sdk.Types.Response.{Transaction}
use go_conflux_sdk.Client.Requester.{Client}
use go_conflux_sdk.Client.Queries.{get_transaction_by_hash}
use go_conflux_sdk.Contract.{Abi}
use go_conflux_sdk.Contract.Deploy.{
  Event, timeout, tick, ContractDeployResult, uint64, with_params, base_of_deploy, send_creation,
}

-- Where the goroutine is: in the loop, with the hash of its transaction; at the deferred send to
-- DoneChannel, which waits for a receiver, after a return or in a panic; at its end, with the channel
-- closed; or it has taken the program down.
pub data Phase (A : Type 0) : Type 0 where
  waiting : Hash → A → Phase A
  returning : Phase A
  panicking : Phase A
  closed : Phase A
  crashed : Phase A

pub record Deployment (W A : Type 0) : Type 0 where
  pub phase : Phase A
  pub result : ContractDeployResult W A
  pub world : W

-- ContractDeployResult{DoneChannel: doneChan}
abbrev pub empty_result : {W A : Type 0} → ContractDeployResult W A
empty_result = record { transaction_hash = none; error = none; deployed_contract = none }

module _ {W A : Type 0} where
  -- `result.Error = ...` and the return
  abbrev pub return_error : Error → ContractDeployResult W A → W → Deployment W A
  return_error e result w = record {
    phase = returning;
    result = record result { error = some e };
    world = w;
  }

  abbrev pub panics : ContractDeployResult W A → W → Deployment W A
  panics result w = record { phase = panicking; result = result; world = w }

  -- A receiver takes what is sent to DoneChannel; the channel is closed, and a panic goes on.
  unfoldable pub receive : Deployment W A → Deployment W A
  receive s = elim s.phase [
    | waiting hash abi ↦ s
    | returning ↦ record s { phase = closed }
    | panicking ↦ record s { phase = crashed }
    | closed ↦ s
    | crashed ↦ s
  ]

  abbrev pub sent_result : Hash → ContractDeployResult W A
  sent_result hash = record empty_result { transaction_hash = some hash }

  -- `result.TransactionHash = &txhash`, before the loop
  abbrev pub at_loop : Hash → A → W → Deployment W A
  at_loop hash abi w = record { phase = waiting hash abi; result = sent_result hash; world = w }

  -- The next part of the goroutine, on the outcome of a call.
  abbrev pub and_then :
      {B : Type 0}
      → String
      → ContractDeployResult W A
      → Result B × W
      → (B → W → Deployment W A)
      → Deployment W A
  and_then msg result (ok b, w) next = next b w
  and_then msg result (err e, w) next = return_error (wrapped msg e) result w
  and_then msg result (panic, w) next = panics result w

module _ {W A I O : Type 0} (E : Ethereum) (L : Abi A I O) (c : Client W) where
  -- A status that is set decides.
  unfoldable pub decide : Hash → A → Transaction → ℤ → ContractDeployResult W A → W → Deployment W A
  decide hash abi t status result w =
      if uint64 status == 1
      then return_error (message "transaction is packed but it is failed,the txhash is %+v") result
          w
      else record {
        phase = returning;
        result = record result {
          deployed_contract =
              some (record { abi = abi; client = some c; address = t.contract_created });
        };
        world = w;
      }

  unfoldable pub on_set_status :
      Hash → A → Transaction → Option ℤ → ContractDeployResult W A → W → Deployment W A
  unfolding decide
  on_set_status hash abi t none result w = record {
    phase = waiting hash abi;
    result = result;
    world = w;
  }
  on_set_status hash abi t (some status) result w = decide hash abi t status result w

  unfoldable pub on_answer :
      Hash → A → ContractDeployResult W A → Option Transaction → W → Deployment W A
  unfolding on_set_status
  on_answer hash abi result none w = panics result w
  on_answer hash abi result (some t) w = on_set_status hash abi t t.status result w

  -- An event, which is received only in the loop.
  unfoldable pub after : Event → Deployment W A → Deployment W A
  after event s = elim s.phase [
    | waiting hash abi ↦ elim event [
      | timeout ↦
          return_error (message "deploy contract time out after %v, txhash is %+v") s.result s.world
      | tick ↦
          and_then "get transaction receipt of txhash %+v error" s.result
            (get_transaction_by_hash E c.rpc_requester hash s.world) (on_answer hash abi s.result)
    ]
    | returning ↦ s
    | panicking ↦ s
    | closed ↦ s
    | crashed ↦ s
  ]

  -- From the start to the loop.
  unfoldable pub begin : Option ContractDeployOption → Bytes → Bytes → Option I → W → Deployment W A
  begin option abi_json bytecode params w =
      and_then "unmarshal json {%+v} to ABI error" empty_result (L.unmarshal_json abi_json, w)
        λ abi. λ w1.
          and_then "encode constrctor with args %+v error" empty_result
            (with_params E L c abi bytecode params, w1)
            λ code. λ w2.
              and_then "send transaction {%+v} error" empty_result
                (send_creation E L c
                  (record { base = base_of_deploy E L c option; to = none; tx_data = code }) w2)
                λ hash. λ w3. at_loop hash abi w3

  unfoldable pub afters : List Event → Deployment W A → Deployment W A
  unfolding after
  afters [] s = s
  afters (e ∷ events) s = afters events (after e s)
