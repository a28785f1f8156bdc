-- ===== src/Client/Connect.antt =====
-- The constructors of client.go, and rpcClientWithRetry as a requester. rpc.Dial is a parameter.
use go_conflux_sdk.Base.{zero, [], List, String, Text, Option, none, some}
use go_conflux_sdk.Base.Int.{ℤ, pos}
use go_conflux_sdk.Result.{Result, ok, ◌>>=◌, wrap}
use go_conflux_sdk.Exec.{Exec}
use go_conflux_sdk.Json.{Value}
use go_conflux_sdk.Client.Requester.{Arg, Answer, BatchElem, Requester, Client}
use go_conflux_sdk.Client.Retry.{retry_call, retry_batch_call}

-- time.Second, in nanoseconds
abbrev second : ℤ
second = pos 1_000_000_000

abbrev pub or_second : ℤ → ℤ
or_second (pos zero) = second
or_second interval = interval

-- Close of rpcClientWithRetry, on a client inside that may be nil.
unfoldable pub close_inner : {W : Type 0} → Option (Requester W) → W → W
close_inner none w = w
close_inner (some inner) w = inner.close w

module _ {W : Type 0} (sleep : ℤ → W → W) where
  -- The methods of rpcClientWithRetry over the client inside.
  pub retrying : ℤ → ℤ → Requester W → Requester W
  retrying count interval inner = record {
    call = λ method args. retry_call sleep interval (inner.call method args) count;
    call_status = λ method args. retry_call sleep interval (inner.call_status method args) count;
    batch = λ elems. retry_batch_call sleep interval (inner.batch elems) count;
    close = close_inner (some inner);
  }

  -- A count of 0 means the client itself.
  pub requester_for : ℤ → ℤ → Requester W → Requester W
  unfolding retrying
  requester_for (pos zero) interval inner = inner
  requester_for count interval inner = retrying count (or_second interval) inner

  module _ (dial : Text → Result (Requester W)) where
    pub new_client_with_retry : Text → ℤ → ℤ → Result (Client W)
    unfolding requester_for
    new_client_with_retry node_url retry_count retry_interval = do
      inner ← wrap "dail failed" (dial node_url)
      ok (record {
        node_url = node_url;
        rpc_requester = requester_for retry_count retry_interval inner;
        account_manager = none;
      })

    pub new_client : Text → Result (Client W)
    unfolding new_client_with_retry
    new_client node_url = new_client_with_retry node_url (pos 0) (pos 0)

-- NewClientWithRPCRequester
pub new_client_with_rpc_requester : {W : Type 0} → Requester W → Client W
new_client_with_rpc_requester requester = record {
  node_url = [];
  rpc_requester = requester;
  account_manager = none;
}

module _ {W : Type 0} (c : Client W) where
  -- GetNodeURL
  pub get_node_url : Text
  get_node_url = c.node_url

  -- CallRPC, with a result of type interface{}
  pub call_rpc : String → List Arg → Exec W Value
  call_rpc method args = c.rpc_requester.call method args

  -- BatchCallRPC
  pub batch_call_rpc : List BatchElem → Exec W (List Answer)
  batch_call_rpc elems = c.rpc_requester.batch elems

  -- Close
  pub close_client : W → W
  close_client w = c.rpc_requester.close w
