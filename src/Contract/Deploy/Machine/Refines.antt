-- ===== src/Contract/Deploy/Machine/Refines.antt =====
-- The machine of DeployContract of client.go comes to what the goroutine, taken alone, gives.
use go_conflux_sdk.Base.{
  ◌==◌, ◌≡◌, refl, Option, none, some, List, [], ◌∷◌, Bytes, String, Bool-cases, inl, inr,
}
use go_conflux_sdk.Base.Int.{ℤ}
use go_conflux_sdk.Result.{Result, ok, err, panic}
use go_conflux_sdk.Ethereum.{Ethereum}
use go_conflux_sdk.Types.Address.{Hash}
use go_conflux_sdk.Types.Request.{ContractDeployOption}
use go_conflux_sdk.Types.Response.{Transaction}
use go_conflux_sdk.Client.Requester.{Client}
use go_conflux_sdk.Client.Queries.{get_transaction_by_hash}
use go_conflux_sdk.Contract.{Abi}
use go_conflux_sdk.Contract.Deploy.{
  Event, timeout, tick, ContractDeployResult, uint64, or_failed, verdict, deployed_at, on_status,
  on_transaction, await, with_params, deploy_contract,
}
use go_conflux_sdk.Contract.Deploy.Machine.{
  waiting, returning, panicking, closed, crashed, Deployment, empty_result, panics, sent_result,
  at_loop, and_then, decide, on_set_status, on_answer, after, begin, afters,
}

module _ {W A : Type 0} where
  -- What has come of a deployment.
  unfoldable pub outcome : Deployment W A → Result (Option (ContractDeployResult W A)) × W
  outcome s = elim s.phase [
    | waiting hash abi ↦ (ok none, s.world)
    | returning ↦ (ok (some s.result), s.world)
    | panicking ↦ (panic, s.world)
    | closed ↦ (ok (some s.result), s.world)
    | crashed ↦ (panic, s.world)
  ]

module _ {W A I O : Type 0} (E : Ethereum) (L : Abi A I O) (c : Client W) where
  -- Events no longer count when the goroutine has left the loop.
  afters-returning :
      (events : List Event) (result : ContractDeployResult W A) (w : W)
      → outcome (afters E L c events (record { phase = returning; result = result; world = w }))
        ≡ (ok (some result), w)
  unfolding afters outcome
  afters-returning [] result w = refl
  afters-returning (e ∷ events) result w = afters-returning events result w

  afters-panicking :
      (events : List Event) (result : ContractDeployResult W A) (w : W)
      → outcome (afters E L c events (panics result w)) ≡ (panic, w)
  unfolding afters outcome
  afters-panicking [] result w = refl
  afters-panicking (e ∷ events) result w = afters-panicking events result w

  -- A part that is followed by the same in the machine and alone.
  and_then-or_failed :
      {B : Type 0} (events : List Event) (hash : Option Hash) (msg : String) (o : Result B × W)
      (next : B → W → Deployment W A)
      (alone : B → W → Result (Option (ContractDeployResult W A)) × W)
      → ((b : B) (w : W) → outcome (afters E L c events (next b w)) ≡ alone b w)
      → outcome (
          afters E L c events
            (and_then msg (record empty_result { transaction_hash = hash }) o next))
        ≡ or_failed E L c hash msg o alone
  and_then-or_failed events hash msg (ok b, w) next alone same = same b w
  and_then-or_failed events hash msg (err e, w) next alone same = afters-returning events _ w
  and_then-or_failed events hash msg (panic, w) next alone same = afters-panicking events _ w

  module _ (hash : Hash) (abi : A) (events : List Event)
      (rest : (w : W)
        → outcome (afters E L c events (at_loop hash abi w)) ≡ await E L c hash abi events w) where
    decide-verdict :
        (t : Transaction) (status : ℤ) (w : W)
        → outcome (afters E L c events (decide E L c hash abi t status (sent_result hash) w))
          ≡ (ok (some (verdict E L c hash abi t.contract_created status)), w)
    unfolding decide verdict deployed_at
    decide-verdict t status w = elim (Bool-cases (uint64 status == 1)) [
      | inl e ↦ rw e (afters-returning events _ w)
      | inr e ↦ rw e (afters-returning events _ w)
    ]

    answer-status :
        (t : Transaction) (p : Option ℤ) (w : W)
        → outcome (afters E L c events (on_set_status E L c hash abi t p (sent_result hash) w))
          ≡ on_status E L c hash abi t.contract_created p (await E L c hash abi events) w
    unfolding on_set_status on_status
    answer-status t none w = rest w
    answer-status t (some status) w = decide-verdict t status w

    answer-transaction :
        (p : Option Transaction) (w : W)
        → outcome (afters E L c events (on_answer E L c hash abi (sent_result hash) p w))
          ≡ on_transaction E L c hash abi p (await E L c hash abi events) w
    unfolding on_transaction on_answer
    answer-transaction none w = afters-panicking events (sent_result hash) w
    answer-transaction (some t) w = answer-status t t.status w

  afters-await :
      (hash : Hash) (abi : A) (events : List Event) (w : W)
      → outcome (afters E L c events (at_loop hash abi w)) ≡ await E L c hash abi events w
  unfolding afters await after
  afters-await hash abi [] w = unfold outcome in refl
  afters-await hash abi (timeout ∷ events) w = afters-returning events _ w
  afters-await hash abi (tick ∷ events) w =
      and_then-or_failed events (some hash) "get transaction receipt of txhash %+v error"
        (get_transaction_by_hash E c.rpc_requester hash w) _ _
        λ p w'. answer-transaction hash abi events (afters-await hash abi events) p w'

  -- Whatever the option, the code, the parameters and the events that the goroutine receives, the
  -- machine comes to the result or the panic that the goroutine, taken alone, gives, or waits with it.
  pub afters-deploy_contract :
      (option : Option ContractDeployOption) (abi_json bytecode : Bytes) (params : Option I)
      (events : List Event) (w : W)
      → outcome (afters E L c events (begin E L c option abi_json bytecode params w))
        ≡ deploy_contract E L c option abi_json bytecode params events w
  unfolding begin deploy_contract
  afters-deploy_contract option abi_json bytecode params events w =
      and_then-or_failed events none "unmarshal json {%+v} to ABI error"
        (L.unmarshal_json abi_json, w) _ _
        λ abi w1.
          and_then-or_failed events none "encode constrctor with args %+v error"
            (with_params E L c abi bytecode params, w1) _ _
            λ code w2.
              and_then-or_failed events none "send transaction {%+v} error" _ _ _
                λ hash w3. afters-await hash abi events w3
