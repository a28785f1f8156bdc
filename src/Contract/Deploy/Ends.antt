-- ===== src/Contract/Deploy/Ends.antt =====
-- That the goroutine of DeployContract in client.go ends, and where it panics.
use go_conflux_sdk.Base.{
  ◌≡◌, ◌≢◌, Bool, true, false, Option, none, some, List, [], ◌∷◌, Bytes, String,
}
use go_conflux_sdk.Base.Int.{ℤ}
use go_conflux_sdk.Result.{Result, ok, err, panic}
use go_conflux_sdk.Ethereum.{Ethereum}
use go_conflux_sdk.Types.Address.{Address, Hash}
use go_conflux_sdk.Types.Request.{ContractDeployOption}
use go_conflux_sdk.Types.Response.{Transaction}
use go_conflux_sdk.Client.Requester.{Client}
use go_conflux_sdk.Client.Queries.{get_transaction_by_hash}
use go_conflux_sdk.Contract.{Abi}
use go_conflux_sdk.Contract.Deploy.{
  Event, timeout, tick, Deploying, or_failed, on_status, on_transaction, await, with_params,
  deploy_contract,
}

-- The timeout comes.
abbrev pub has_timeout : List Event → Bool
has_timeout [] = false
has_timeout (timeout ∷ events) = true
has_timeout (tick ∷ events) = has_timeout events

module _ {W A I O : Type 0} (E : Ethereum) (L : Abi A I O) (c : Client W) where
  -- The code does not wait any more.
  record Ends (m : Deploying E L c) : Type 0 where
    pub at : (w : W) → (m w).0 ≢ ok none

  or_failed-Ends :
      {B : Type 0} (hash : Option Hash) (msg : String) (o : Result B × W) (f : B → Deploying E L c)
      → ((b : B) → Ends (f b))
      → (or_failed E L c hash msg o f).0 ≢ ok none
  or_failed-Ends hash msg (ok b, w) f k = (k b).at w
  or_failed-Ends hash msg (err x, w) f k = λ e. cc
  or_failed-Ends hash msg (panic, w) f k = λ e. cc

  status-Ends :
      (hash : Hash) (abi : A) (created : Option Address) (rest : Deploying E L c)
      → Ends rest
      → (p : Option ℤ) → Ends (on_status E L c hash abi created p rest)
  unfolding on_status
  status-Ends hash abi created rest k none = record { at = λ w. k.at w }
  status-Ends hash abi created rest k (some status) = record { at = λ w e. cc }

  transaction-Ends :
      (hash : Hash) (abi : A) (rest : Deploying E L c)
      → Ends rest
      → (p : Option Transaction) → Ends (on_transaction E L c hash abi p rest)
  unfolding on_transaction
  transaction-Ends hash abi rest k none = record { at = λ w e. cc }
  transaction-Ends hash abi rest k (some t) = record {
    at = λ w. (status-Ends hash abi t.contract_created rest k t.status).at w;
  }

  await-Ends :
      (hash : Hash) (abi : A) (events : List Event)
      → has_timeout events ≡ true
      → Ends (await E L c hash abi events)
  unfolding await
  await-Ends hash abi [] h = absurd (cc h)
  await-Ends hash abi (timeout ∷ events) h = record { at = λ w e. cc }
  await-Ends hash abi (tick ∷ events) h = record {
    at = λ w.
        or_failed-Ends (some hash) "get transaction receipt of txhash %+v error"
          (get_transaction_by_hash E c.rpc_requester hash w)
          (λ p. on_transaction E L c hash abi p (await E L c hash abi events))
          λ p. transaction-Ends hash abi _ (await-Ends hash abi events h) p;
  }

  -- Once the timeout has come, after any ticks and whatever the node has answered, the deployment waits
  -- no longer: it has come to a result, or has panicked.
  pub deploy_contract-Ends :
      (option : Option ContractDeployOption) (abi_json bytecode : Bytes) (params : Option I)
      (events : List Event) (w : W)
      → has_timeout events ≡ true
      → (deploy_contract E L c option abi_json bytecode params events w).0 ≢ ok none
  unfolding deploy_contract
  deploy_contract-Ends option abi_json bytecode params events w h =
      or_failed-Ends none "unmarshal json {%+v} to ABI error" (L.unmarshal_json abi_json, w) _
        λ abi. record {
          at = λ w1.
              or_failed-Ends none "encode constrctor with args %+v error"
                (with_params E L c abi bytecode params, w1) _
                λ code. record {
                  at = λ w2.
                      or_failed-Ends none "send transaction {%+v} error" _ _
                        λ hash. await-Ends hash abi events h;
                };
        }
