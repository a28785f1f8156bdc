-- ===== src/Contract/Deploy/Ticks.antt =====
-- The ticks of the goroutine of DeployContract in client.go: those at which the node knows the transaction
-- without a status, and the one that decides.
use go_conflux_sdk.Base.{◌≡◌, refl, ◌∙◌, none, some, List, [], ◌∷◌, ◌++◌}
use go_conflux_sdk.Result.{ok, panic}
use go_conflux_sdk.Ethereum.{Ethereum}
use go_conflux_sdk.Types.Address.{Hash}
use go_conflux_sdk.Types.Response.{Transaction}
use go_conflux_sdk.Client.Requester.{Client}
use go_conflux_sdk.Client.Queries.{get_transaction_by_hash}
use go_conflux_sdk.Contract.{Abi}
use go_conflux_sdk.Contract.Deploy.{Event, tick, on_status, on_transaction, await}

module _ {W A I O : Type 0} (E : Ethereum) (L : Abi A I O) (c : Client W) (hash : Hash) where
  -- Ticks at which the node knows the transaction without a status: the world before and after.
  pub data Pending : List Event → W → W → Type 0 where
    now : {w : W} → Pending [] w w
    later :
        {events : List Event} {w w' w'' : W} (t : Transaction)
        → get_transaction_by_hash E c.rpc_requester hash w ≡ (ok (some t), w')
        → t.status ≡ none
        → Pending events w' w''
        → Pending (tick ∷ events) w w''

  await-Pending :
      (abi : A) (rest : List Event) {events : List Event} {w w' : W}
      → Pending events w w'
      → await E L c hash abi (events ++ rest) w ≡ await E L c hash abi rest w'
  unfolding await on_transaction on_status
  await-Pending abi rest now = refl
  await-Pending abi rest (later t known waiting pending) =
      rw (known, waiting) (await-Pending abi rest pending)

  -- After any number of ticks at which the node knows the transaction without a status, a tick at which
  -- it does not know the transaction makes the goroutine of DeployContract panic.
  pub await_unknown :
      (abi : A) (events rest : List Event) (w w' w'' : W)
      → Pending events w w'
      → get_transaction_by_hash E c.rpc_requester hash w' ≡ (ok none, w'')
      → await E L c hash abi (events ++ tick ∷ rest) w ≡ (panic, w'')
  unfolding await on_transaction
  await_unknown abi events rest w w' w'' pending unknown =
      await-Pending abi (tick ∷ rest) pending ∙ rw unknown refl
