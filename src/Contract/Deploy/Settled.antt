-- ===== src/Contract/Deploy/Settled.antt =====
-- How DeployContract of client.go ends.
use go_conflux_sdk.Base.{
  ◌==◌, ◌≡◌, refl, sym, ap, Bool, true, false, Option, none, some, List, [], ◌∷◌, Bytes, String,
  ◌⊎◌, inl, inr, if◌then◌else◌, subst,
}
use go_conflux_sdk.Base.Int.{ℤ}
use go_conflux_sdk.Errors.{Error, message, wrapped}
use go_conflux_sdk.Result.{Result, ok, err, panic}
use go_conflux_sdk.Ethereum.{Ethereum}
use go_conflux_sdk.Types.Address.{Hash}
use go_conflux_sdk.Types.Request.{ContractDeployOption}
use go_conflux_sdk.Types.Response.{Transaction}
use go_conflux_sdk.Client.Requester.{Client}
use go_conflux_sdk.Client.Queries.{get_transaction_by_hash}
use go_conflux_sdk.Contract.{Abi, Contract}
use go_conflux_sdk.Contract.Deploy.{
  Event, timeout, tick, ContractDeployResult, failed, uint64, Deploying, or_failed, deployed_at,
  verdict, on_status, on_transaction, await, with_params, deploy_contract,
}

module _ {W A I O : Type 0} (E : Ethereum) (L : Abi A I O) (c : Client W) where
  -- Deployed: the node gave a transaction for the hash whose status is set and is not 1, there is no
  -- error, and the contract stands at the address that the transaction created.
  pub record Deployed (r : ContractDeployResult W A) : Type 0 where
    pub hash : Hash
    pub t : Transaction
    pub status : ℤ
    pub w : W
    pub deployed : Contract W A
    pub is_hash : r.transaction_hash ≡ some hash
    pub is_answer : (get_transaction_by_hash E c.rpc_requester hash w).0 ≡ ok (some t)
    pub is_status : t.status ≡ some status
    pub not_failed : (uint64 status == 1) ≡ false
    pub no_error : r.error ≡ none
    pub is_deployed : r.deployed_contract ≡ some deployed
    pub is_address : deployed.address ≡ t.contract_created

  -- Failed: there is an error and no contract.
  abbrev pub Failed : ContractDeployResult W A → Type 0
  Failed r = (e : Error) × (r.error ≡ some e) × (r.deployed_contract ≡ none)

  -- What holds of the result if the code has come to one.
  pub record Settles (m : Deploying E L c) : Type 0 where
    pub at : (w : W) (r : ContractDeployResult W A) → (m w).0 ≡ ok (some r) → Deployed r ⊎ Failed r

  some_ok :
      {r s : ContractDeployResult W A}
      → ◌≡◌ {A = Result (Option (ContractDeployResult W A))} (ok (some r)) (ok (some s))
      → r ≡ s
  some_ok e = cc

  failed-Failed :
      (hash : Option Hash) (e : Error) (r : ContractDeployResult W A)
      → failed hash e ≡ r
      → Deployed r ⊎ Failed r
  failed-Failed hash e r same = inr (
    e,
    ap (λ (x : ContractDeployResult W A). x.error) (sym same),
    ap (λ (x : ContractDeployResult W A). x.deployed_contract) (sym same),
  )

  or_failed-Settles :
      {B : Type 0} (hash : Option Hash) (msg : String) (o : Result B × W) (f : B → Deploying E L c)
      → ((b : B) → o.0 ≡ ok b → Settles (f b))
      → (r : ContractDeployResult W A) → (or_failed E L c hash msg o f).0 ≡ ok (some r)
      → Deployed r ⊎ Failed r
  or_failed-Settles hash msg (ok b, w) f k r e = (k b refl).at w r e
  or_failed-Settles hash msg (err x, w) f k r e = failed-Failed hash (wrapped msg x) r (some_ok e)
  or_failed-Settles hash msg (panic, w) f k r e = absurd (cc e)

  deployed_at-Deployed :
      (hash : Hash) (abi : A) (t : Transaction) (status : ℤ) (w : W)
      → (get_transaction_by_hash E c.rpc_requester hash w).0 ≡ ok (some t)
      → t.status ≡ some status
      → (uint64 status == 1) ≡ false
      → Deployed (deployed_at E L c hash abi t.contract_created)
  unfolding deployed_at
  deployed_at-Deployed hash abi t status w answer is_status not_failed = record {
    hash = hash;
    t = t;
    status = status;
    w = w;
    deployed = record { abi = abi; client = some c; address = t.contract_created };
    is_hash = refl;
    is_answer = answer;
    is_status = is_status;
    not_failed = not_failed;
    no_error = refl;
    is_deployed = refl;
    is_address = refl;
  }

  verdict-Settled :
      (hash : Hash) (abi : A) (t : Transaction) (status : ℤ) (w : W)
      → (get_transaction_by_hash E c.rpc_requester hash w).0 ≡ ok (some t)
      → t.status ≡ some status
      → Deployed (verdict E L c hash abi t.contract_created status)
        ⊎ Failed (verdict E L c hash abi t.contract_created status)
  unfolding verdict
  verdict-Settled hash abi t status w answer is_status =
      by_case (uint64 status == 1) (deployed_at-Deployed hash abi t status w answer is_status)
    where
      by_case :
          (b : Bool)
          → (b ≡ false → Deployed (deployed_at E L c hash abi t.contract_created))
          → let r =
              if b
              then failed
                  (some hash)
                  (message "transaction is packed but it is failed,the txhash is %+v")
              else deployed_at E L c hash abi t.contract_created in
            Deployed r ⊎ Failed r
      by_case true k = inr (_, refl, refl)
      by_case false k = inl (k refl)

  settled_eq :
      (r s : ContractDeployResult W A) → Deployed r ⊎ Failed r → r ≡ s → Deployed s ⊎ Failed s
  settled_eq r s h e = subst (λ (x : ContractDeployResult W A). Deployed x ⊎ Failed x) e h

  status-Settles :
      (hash : Hash) (abi : A) (t : Transaction) (rest : Deploying E L c) (w : W)
      → (get_transaction_by_hash E c.rpc_requester hash w).0 ≡ ok (some t)
      → Settles rest
      → (p : Option ℤ) → t.status ≡ p
      → Settles (on_status E L c hash abi t.contract_created p rest)
  unfolding on_status
  status-Settles hash abi t rest w answer k none e = record { at = λ v r h. k.at v r h }
  status-Settles hash abi t rest w answer k (some status) e = record {
    at = λ v r h. settled_eq _ r (verdict-Settled hash abi t status w answer e) (some_ok h);
  }

  transaction-Settles :
      (hash : Hash) (abi : A) (rest : Deploying E L c) (w : W) (p : Option Transaction)
      → (get_transaction_by_hash E c.rpc_requester hash w).0 ≡ ok p
      → Settles rest
      → Settles (on_transaction E L c hash abi p rest)
  unfolding on_transaction
  transaction-Settles hash abi rest w none answer k = record { at = λ v r h. absurd (cc h) }
  transaction-Settles hash abi rest w (some t) answer k = record {
    at = λ v r h. (status-Settles hash abi t rest w answer k t.status refl).at v r h;
  }

  await-Settles :
      (hash : Hash) (abi : A) (events : List Event) → Settles (await E L c hash abi events)
  unfolding await
  await-Settles hash abi [] = record { at = λ w r h. absurd (cc h) }
  await-Settles hash abi (timeout ∷ events) = record {
    at = λ w r h. failed-Failed (some hash) _ r (some_ok h);
  }
  await-Settles hash abi (tick ∷ events) = record {
    at = λ w r h.
        or_failed-Settles (some hash) "get transaction receipt of txhash %+v error"
          (get_transaction_by_hash E c.rpc_requester hash w)
          (λ p. on_transaction E L c hash abi p (await E L c hash abi events))
          (λ p answer. transaction-Settles hash abi _ w p answer (await-Settles hash abi events)) r
          h;
  }

  -- Whatever the answers of the node and the order of timeouts and ticks, a deployment that has come to
  -- a result has either an error and no contract, or no error, and a contract at the address that the
  -- node's transaction for the hash created, whose status is set and is not 1.
  pub deploy_contract-Settled :
      (option : Option ContractDeployOption) (abi_json bytecode : Bytes) (params : Option I)
      (events : List Event) (w : W) (r : ContractDeployResult W A)
      → (deploy_contract E L c option abi_json bytecode params events w).0 ≡ ok (some r)
      → Deployed r ⊎ Failed r
  unfolding deploy_contract
  deploy_contract-Settled option abi_json bytecode params events w r e =
      or_failed-Settles none "unmarshal json {%+v} to ABI error" (L.unmarshal_json abi_json, w) _
        (λ abi _. record {
          at = λ w1 r1.
              or_failed-Settles none "encode constrctor with args %+v error"
                (with_params E L c abi bytecode params, w1) _
                (λ code _. record {
                  at = λ w2 r2.
                      or_failed-Settles none "send transaction {%+v} error" _ _
                        (λ hash _. await-Settles hash abi events) r2;
                })
                r1;
        })
        r e
