-- ===== src/Contract/Deploy/Machine/Closes.antt =====
-- That the machine of DeployContract of client.go comes to an end.
use go_conflux_sdk.Base.{
  ◌≡◌, ◌≢◌, refl, sym, ap, ◌∙◌, true, Option, none, List, [], ◌∷◌, Bytes, ◌⊎◌, inl, inr,
}
use go_conflux_sdk.Result.{Result, ok}
use go_conflux_sdk.Ethereum.{Ethereum}
use go_conflux_sdk.Types.Request.{ContractDeployOption}
use go_conflux_sdk.Client.Requester.{Client}
use go_conflux_sdk.Contract.{Abi}
use go_conflux_sdk.Contract.Deploy.{Event, ContractDeployResult}
use go_conflux_sdk.Contract.Deploy.Ends.{has_timeout, deploy_contract-Ends}
use go_conflux_sdk.Contract.Deploy.Machine.{
  Phase, waiting, returning, panicking, closed, crashed, Deployment, receive, after, begin, afters,
}
use go_conflux_sdk.Contract.Deploy.Machine.Refines.{outcome, afters-deploy_contract}

-- The channel is closed, or the program is down.
abbrev pub IsOver : {A : Type 0} → Phase A → Type 0
IsOver phase = (phase ≡ closed) ⊎ (phase ≡ crashed)

module _ {W A : Type 0} where
  abbrev at_phase : Phase A → ContractDeployResult W A → W → Deployment W A
  at_phase phase result w = record { phase = phase; result = result; world = w }

  receive-IsOver :
      (phase : Phase A) (result : ContractDeployResult W A) (w : W)
      → (outcome (at_phase phase result w)).0 ≢ ok none
      → IsOver (receive (at_phase phase result w)).phase
  unfolding outcome receive
  receive-IsOver (waiting hash abi) result w h = absurd (h refl)
  receive-IsOver returning result w h = inl refl
  receive-IsOver panicking result w h = inr refl
  receive-IsOver closed result w h = inl refl
  receive-IsOver crashed result w h = inr refl

module _ {W A I O : Type 0} (E : Ethereum) (L : Abi A I O) (c : Client W) where
  -- Nothing happens after the end.
  afters_over :
      (events : List Event) (phase : Phase A) (result : ContractDeployResult W A) (w : W)
      → IsOver phase
      → afters E L c events (at_phase phase result w) ≡ at_phase phase result w
  unfolding afters after
  afters_over [] phase result w over = refl
  afters_over (e ∷ events) closed result w over = afters_over events closed result w over
  afters_over (e ∷ events) crashed result w over = afters_over events crashed result w over
  afters_over (e ∷ events) (waiting hash abi) result w (inl e') = absurd (cc e')
  afters_over (e ∷ events) (waiting hash abi) result w (inr e') = absurd (cc e')
  afters_over (e ∷ events) returning result w over = afters_over events returning result w over
  afters_over (e ∷ events) panicking result w over = afters_over events panicking result w over

  -- Whatever the node answers, once the goroutine of DeployContract has received the timeout, who
  -- receives from DoneChannel finds it closed afterwards, or the program is down, and whatever comes
  -- later changes nothing of the deployment.
  pub deploy_contract_closes :
      (option : Option ContractDeployOption) (abi_json bytecode : Bytes) (params : Option I)
      (events later : List Event) (w : W)
      → has_timeout events ≡ true
      → let s = receive (afters E L c events (begin E L c option abi_json bytecode params w)) in
        IsOver s.phase × (afters E L c later s ≡ s)
  deploy_contract_closes option abi_json bytecode params events later w h =
      let s = afters E L c events (begin E L c option abi_json bytecode params w) in
      let ends : (outcome s).0 ≢ ok none = λ e.
        deploy_contract-Ends E L c option abi_json bytecode params events w h (
          ap (λ (o : Result (Option (ContractDeployResult W A)) × W). o.0)
            (sym (afters-deploy_contract E L c option abi_json bytecode params events w))
          ∙ e) in
      let over : IsOver (receive s).phase = receive-IsOver s.phase s.result s.world ends in
      (over, afters_over later (receive s).phase (receive s).result (receive s).world over)
