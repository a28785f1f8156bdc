-- ===== src/Contract/Deploy.antt =====
-- DeployContract of client.go. The goroutine waits on two channels: what comes on them, in which order,
-- is a list of events, and the result is nil while it still waits after these events.
pub mod Settled
pub mod Ends
pub mod Ticks
pub mod Machine
use go_conflux_sdk.Base.{
  ℕ, zero, suc, ◌+◌, ◌%◌, ◌^◌, ◌==◌, Bool, true, false, Option, none, some, List, [], ◌∷◌, ◌++◌,
  Bytes, Text, String, if◌then◌else◌,
}
use go_conflux_sdk.Base.Int.{ℤ, pos, negsuc, pos_part, neg_part}
use go_conflux_sdk.Errors.{Error, message, wrapped}
use go_conflux_sdk.Result.{Result, ok, err, panic}
use go_conflux_sdk.Exec.{Exec}
use go_conflux_sdk.Ethereum.{Ethereum}
use go_conflux_sdk.Types.Address.{Address, Hash}
use go_conflux_sdk.Types.Transaction.{UnsignedTransaction, UnsignedTransactionBase, empty_base}
use go_conflux_sdk.Types.Request.{ContractDeployOption}
use go_conflux_sdk.Types.Response.{Transaction}
use go_conflux_sdk.Client.Requester.{Client}
use go_conflux_sdk.Client.Queries.{get_transaction_by_hash}
use go_conflux_sdk.Client.Send.{send_transaction}
use go_conflux_sdk.Contract.{Abi, Contract}

-- What is received: the timeout, or a tick of two seconds.
pub data Event : Type 0 where
  timeout : Event
  tick : Event

-- ContractDeployResult, without the channel that is closed when it is final.
pub record ContractDeployResult (W A : Type 0) : Type 0 where
  pub transaction_hash : Option Hash
  pub error : Option Error
  pub deployed_contract : Option (Contract W A)

abbrev pub failed : {W A : Type 0} → Option Hash → Error → ContractDeployResult W A
failed hash e = record { transaction_hash = hash; error = some e; deployed_contract = none }

-- Uint64 of a big.Int: the low 64 bits of its absolute value.
unfoldable pub uint64 : ℤ → ℕ
uint64 z = (pos_part z + neg_part z) % 2 ^ 64

-- How long it waits, in nanoseconds: an hour if the option says nothing.
pub deploy_timeout : Option ContractDeployOption → ℤ
deploy_timeout none = pos 3_600_000_000_000
deploy_timeout (some option) = elim option.timeout [
  | pos zero ↦ pos 3_600_000_000_000
  | pos (suc n) ↦ pos (suc n)
  | negsuc n ↦ negsuc n
]

module _ {W A I O : Type 0} (E : Ethereum) (L : Abi A I O) (c : Client W) where
  abbrev pub Deploying : Type 0
  Deploying = Exec W (Option (ContractDeployResult W A))

  -- An error is put into the result, under a message.
  abbrev pub or_failed :
      {B : Type 0}
      → Option Hash
      → String
      → Result B × W
      → (B → Deploying)
      → Result (Option (ContractDeployResult W A)) × W
  or_failed hash msg (ok b, w) f = f b w
  or_failed hash msg (err e, w) f = (ok (some (failed hash (wrapped msg e))), w)
  or_failed hash msg (panic, w) f = (panic, w)

  unfoldable pub deployed_at : Hash → A → Option Address → ContractDeployResult W A
  deployed_at hash abi created = record {
    transaction_hash = some hash;
    error = none;
    deployed_contract = some (record { abi = abi; client = some c; address = created });
  }

  -- A status of 1 means that the transaction failed.
  unfoldable pub verdict : Hash → A → Option Address → ℤ → ContractDeployResult W A
  unfolding deployed_at uint64
  verdict hash abi created status =
      if uint64 status == 1
      then failed (some hash) (message "transaction is packed but it is failed,the txhash is %+v")
      else deployed_at hash abi created

  -- Without a status the wait goes on.
  unfoldable pub on_status : Hash → A → Option Address → Option ℤ → Deploying → Deploying
  unfolding verdict
  on_status hash abi created none rest w = rest w
  on_status hash abi created (some status) rest w = (ok (some (verdict hash abi created status)), w)

  -- `transaction.Status`, where the transaction may be nil
  unfoldable pub on_transaction : Hash → A → Option Transaction → Deploying → Deploying
  unfolding on_status
  on_transaction hash abi none rest w = (panic, w)
  on_transaction hash abi (some t) rest w = on_status hash abi t.contract_created t.status rest w

  -- The loop.
  unfoldable pub await : Hash → A → List Event → Deploying
  unfolding on_transaction
  await hash abi [] w = (ok none, w)
  await hash abi (timeout ∷ events) w = (
    ok (some (failed (some hash) (message "deploy contract time out after %v, txhash is %+v"))),
    w,
  )
  await hash abi (tick ∷ events) w =
      or_failed (some hash) "get transaction receipt of txhash %+v error"
        (get_transaction_by_hash E c.rpc_requester hash w)
        λ t. on_transaction hash abi t (await hash abi events)

  unfoldable pub base_of_deploy : Option ContractDeployOption → UnsignedTransactionBase
  base_of_deploy none = empty_base
  base_of_deploy (some option) = option.base

  -- The bytecode, with the packed parameters behind it if there are any.
  unfoldable pub with_params : A → Bytes → Option I → Result Bytes
  with_params abi bytecode none = ok bytecode
  with_params abi bytecode (some args) = elim (L.pack abi [] args) [
    | ok input ↦ ok (bytecode ++ input)
    | err e ↦ err e
    | panic ↦ panic
  ]

  -- SendTransaction on a transaction of the method's own.
  unfoldable pub send_creation : UnsignedTransaction → Exec W Hash
  send_creation tx w =
      let o = send_transaction E c (record { world = w; tx = tx }) in (o.0, o.1.world)

  unfoldable pub deploy_contract :
      Option ContractDeployOption → Bytes → Bytes → Option I → List Event → Deploying
  unfolding await base_of_deploy with_params send_creation
  deploy_contract option abi_json bytecode params events w =
      or_failed none "unmarshal json {%+v} to ABI error" (L.unmarshal_json abi_json, w)
        λ abi. λ w1.
          or_failed none "encode constrctor with args %+v error"
            (with_params abi bytecode params, w1)
            λ code. λ w2.
              or_failed none "send transaction {%+v} error"
                (send_creation (record { base = base_of_deploy option; to = none; tx_data = code })
                  w2)
                λ hash. await hash abi events
