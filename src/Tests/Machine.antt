-- ===== src/Tests/Machine.antt =====
-- Runs of the machine of a deployment on a node that knows its transaction, and on one that knows none.
use go_conflux_sdk.Base.{ℕ, ◌≡◌, refl, none, some, [], ◌∷◌}
use go_conflux_sdk.Contract.Deploy.{tick}
use go_conflux_sdk.Contract.Deploy.Machine.{Deployment, receive, after, begin, afters}
use go_conflux_sdk.Json.{null}
use go_conflux_sdk.Contract.Deploy.Machine.Closes.{IsOver, deploy_contract_closes}
use go_conflux_sdk.Contract.Deploy.Machine.Steps.{
  Reaches, here, next, event, received, IsConsistent, deploy_contract-IsConsistent,
}
use go_conflux_sdk.Tests.Instances.{eth}
use go_conflux_sdk.Tests.Contracts.{abi}
use go_conflux_sdk.Tests.Deployments.{option, answer, client_of, events}

abbrev begun : Deployment ℕ (Unit {0})
begun = begin eth abi (client_of answer) option [] (1 ∷ 2 ∷ []) (some (3 ∷ [])) 0

abbrev done : Deployment ℕ (Unit {0})
done = receive (after eth abi (client_of answer) tick begun)

run_to_done : Reaches eth abi (client_of answer) begun done
run_to_done = next (next here (event tick _)) (received _)

deploy_contract-IsConsistent_example : IsConsistent eth abi (client_of answer) done
deploy_contract-IsConsistent_example =
    deploy_contract-IsConsistent eth abi (client_of answer) option [] (1 ∷ 2 ∷ []) (some (3 ∷ [])) 0
      done run_to_done

deploy_contract_closes_example :
    let s = receive (
      afters eth abi
        (client_of (λ args. null))
        events
        (begin eth abi (client_of (λ args. null)) option [] (1 ∷ []) none 0)) in
    IsOver s.phase × (afters eth abi (client_of (λ args. null)) (tick ∷ []) s ≡ s)
deploy_contract_closes_example =
    deploy_contract_closes eth abi (client_of (λ args. null)) option [] (1 ∷ []) none events
      (tick ∷ []) 0 refl
