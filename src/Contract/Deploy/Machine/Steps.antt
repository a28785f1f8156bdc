-- ===== src/Contract/Deploy/Machine/Steps.antt =====
-- What the code that reads the result of DeployContract of client.go can see, at any moment.
use go_conflux_sdk.Base.{◌==◌, ◌≡◌, refl, Option, none, some, Bytes, ◌⊎◌, inl, inr, Bool-cases}
use go_conflux_sdk.Base.Int.{ℤ}
use go_conflux_sdk.Result.{Result, ok, err, panic}
use go_conflux_sdk.Ethereum.{Ethereum}
use go_conflux_sdk.Types.Address.{Hash}
use go_conflux_sdk.Types.Request.{ContractDeployOption}
use go_conflux_sdk.Types.Response.{Transaction}
use go_conflux_sdk.Client.Requester.{Client}
use go_conflux_sdk.Client.Queries.{get_transaction_by_hash}
use go_conflux_sdk.Contract.{Abi}
use go_conflux_sdk.Contract.Deploy.{
  Event, timeout, tick, ContractDeployResult, uint64, with_params, send_creation, base_of_deploy,
}
use go_conflux_sdk.Contract.Deploy.Settled.{Deployed, Failed}
use go_conflux_sdk.Contract.Deploy.Machine.{
  Phase, waiting, returning, panicking, closed, crashed, Deployment, empty_result, at_loop, receive,
  and_then, decide, on_set_status, on_answer, after, begin,
}

module _ {W A I O : Type 0} (E : Ethereum) (L : Abi A I O) (c : Client W) where
  -- A step: the goroutine receives an event, or another a message from DoneChannel.
  pub data Step : Deployment W A → Deployment W A → Type 0 where
    event : (e : Event) (s : Deployment W A) → Step s (after E L c e s)
    received : (s : Deployment W A) → Step s (receive s)

  pub data Reaches (s : Deployment W A) : Deployment W A → Type 0 where
    here : Reaches s s
    next : {t u : Deployment W A} → Reaches s t → Step t u → Reaches s u

  abbrev Undecided : ContractDeployResult W A → Type 0
  Undecided r = (r.error ≡ none) × (r.deployed_contract ≡ none)

  -- In the loop the result has the hash and is undecided; after a return it is decided; after a panic it
  -- is undecided for ever.
  unfoldable pub IsConsistentAt : Phase A → ContractDeployResult W A → Type 0
  IsConsistentAt (waiting hash abi) r = (r.transaction_hash ≡ some hash) × Undecided r
  IsConsistentAt returning r = Deployed E L c r ⊎ Failed E L c r
  IsConsistentAt panicking r = Undecided r
  IsConsistentAt closed r = Deployed E L c r ⊎ Failed E L c r
  IsConsistentAt crashed r = Undecided r

  abbrev pub IsConsistent : Deployment W A → Type 0
  IsConsistent s = IsConsistentAt s.phase s.result

  -- A part that goes on, or ends in an error or a panic, from an undecided result.
  and_then-IsConsistent :
      {B : Type 0} (msg : _) (r : ContractDeployResult W A) (o : Result B × W)
      (rest : B → W → Deployment W A)
      → Undecided r
      → ((b : B) (w : W) → o.0 ≡ ok b → IsConsistent (rest b w))
      → IsConsistent (and_then msg r o rest)
  unfolding IsConsistentAt
  and_then-IsConsistent msg r (ok b, w) rest h k = k b w refl
  and_then-IsConsistent msg r (err e, w) rest h k = inr (_, refl, h.1)
  and_then-IsConsistent msg r (panic, w) rest h k = h

  decide-IsConsistent :
      (hash : Hash) (abi : A) (t : Transaction) (status : ℤ) (r : ContractDeployResult W A)
      (w v : W)
      → (get_transaction_by_hash E c.rpc_requester hash v).0 ≡ ok (some t)
      → t.status ≡ some status
      → r.transaction_hash ≡ some hash
      → Undecided r
      → IsConsistent (decide E L c hash abi t status r w)
  unfolding IsConsistentAt decide
  decide-IsConsistent hash abi t status r w v answer at is_hash h =
      elim (Bool-cases (uint64 status == 1)) [
        | inl e ↦ rw e (inr (_, refl, h.1))
        | inr e ↦ rw e (
            inl (record {
              hash = hash;
              t = t;
              status = status;
              w = v;
              deployed = record { abi = abi; client = some c; address = t.contract_created };
              is_hash = is_hash;
              is_answer = answer;
              is_status = at;
              not_failed = e;
              no_error = h.0;
              is_deployed = refl;
              is_address = refl;
            }))
      ]

  status-IsConsistent :
      (hash : Hash) (abi : A) (t : Transaction) (r : ContractDeployResult W A) (w v : W)
      (p : Option ℤ)
      → (get_transaction_by_hash E c.rpc_requester hash v).0 ≡ ok (some t)
      → t.status ≡ p
      → r.transaction_hash ≡ some hash
      → Undecided r
      → IsConsistent (on_set_status E L c hash abi t p r w)
  unfolding on_set_status
  status-IsConsistent hash abi t r w v none answer at is_hash h =
      unfold IsConsistentAt in (is_hash, h)
  status-IsConsistent hash abi t r w v (some status) answer at is_hash h =
      decide-IsConsistent hash abi t status r w v answer at is_hash h

  answer-IsConsistent :
      (hash : Hash) (abi : A) (r : ContractDeployResult W A) (p : Option Transaction) (w v : W)
      → (get_transaction_by_hash E c.rpc_requester hash v).0 ≡ ok p
      → r.transaction_hash ≡ some hash
      → Undecided r
      → IsConsistent (on_answer E L c hash abi r p w)
  unfolding on_answer
  answer-IsConsistent hash abi r none w v answer is_hash h = unfold IsConsistentAt in h
  answer-IsConsistent hash abi r (some t) w v answer is_hash h =
      status-IsConsistent hash abi t r w v t.status answer refl is_hash h

  after-IsConsistent :
      (e : Event) (phase : Phase A) (r : ContractDeployResult W A) (w : W)
      → IsConsistentAt phase r
      → IsConsistent (after E L c e (record { phase = phase; result = r; world = w }))
  unfolding after IsConsistentAt
  after-IsConsistent timeout (waiting hash abi) r w h = inr (_, refl, h.1.1)
  after-IsConsistent tick (waiting hash abi) r w h =
      and_then-IsConsistent _ r (get_transaction_by_hash E c.rpc_requester hash w) _ h.1
        λ p w' answer. answer-IsConsistent hash abi r p w' w answer h.0 h.1
  after-IsConsistent e returning r w h = h
  after-IsConsistent e panicking r w h = h
  after-IsConsistent e closed r w h = h
  after-IsConsistent e crashed r w h = h

  receive-IsConsistent :
      (phase : Phase A) (r : ContractDeployResult W A) (w : W)
      → IsConsistentAt phase r
      → IsConsistent (receive (record { phase = phase; result = r; world = w }))
  unfolding receive IsConsistentAt
  receive-IsConsistent (waiting hash abi) r w h = h
  receive-IsConsistent returning r w h = h
  receive-IsConsistent panicking r w h = h
  receive-IsConsistent closed r w h = h
  receive-IsConsistent crashed r w h = h

  Step-IsConsistent : {s t : Deployment W A} → Step s t → IsConsistent s → IsConsistent t
  Step-IsConsistent (event e s) h = after-IsConsistent e s.phase s.result s.world h
  Step-IsConsistent (received s) h = receive-IsConsistent s.phase s.result s.world h

  Reaches-IsConsistent : {s t : Deployment W A} → IsConsistent s → Reaches s t → IsConsistent t
  Reaches-IsConsistent h here = h
  Reaches-IsConsistent h (next reached step) =
      Step-IsConsistent step (Reaches-IsConsistent h reached)

  at_loop-IsConsistent : (hash : Hash) (abi : A) (w : W) → IsConsistent (at_loop hash abi w)
  unfolding IsConsistentAt
  at_loop-IsConsistent hash abi w = (refl, (refl, refl))

  begin-IsConsistent :
      (option : Option ContractDeployOption) (abi_json bytecode : Bytes) (params : Option I) (w : W)
      → IsConsistent (begin E L c option abi_json bytecode params w)
  unfolding begin
  begin-IsConsistent option abi_json bytecode params w =
      and_then-IsConsistent _ empty_result (L.unmarshal_json abi_json, w) _ (refl, refl)
        λ abi w1 _.
          and_then-IsConsistent _ empty_result (with_params E L c abi bytecode params, w1) _
            (refl, refl)
            λ code w2 _.
              and_then-IsConsistent _ empty_result
                (send_creation E L c
                  (record { base = base_of_deploy E L c option; to = none; tx_data = code }) w2)
                _ (refl, refl) λ hash w3 _. at_loop-IsConsistent hash abi w3

  -- Whatever the goroutine of DeployContract receives and whenever others receive from DoneChannel: while
  -- it waits for its transaction, the result has the hash and neither an error nor a contract; once it
  -- has returned, the result has a contract at the address that the node's transaction created, whose
  -- status is set and is not 1, and no error, or an error and no contract; and once it has panicked, the
  -- result has neither, also for the receiver to which DoneChannel says that the deployment is done.
  pub deploy_contract-IsConsistent :
      (option : Option ContractDeployOption) (abi_json bytecode : Bytes) (params : Option I) (w : W)
      (s : Deployment W A)
      → Reaches (begin E L c option abi_json bytecode params w) s
      → IsConsistent s
  deploy_contract-IsConsistent option abi_json bytecode params w s reached =
      Reaches-IsConsistent (begin-IsConsistent option abi_json bytecode params w) reached
