-- ===== src/Client/Wire.antt =====
-- The arguments that the methods of client.go give to Call of rpcRequester, as encoding/json writes them.
-- The package rpc, which has them written and sent, is a parameter.
pub mod Logs
pub mod Calls
use go_conflux_sdk.Base.{Option, none, some, List, [], ◌∷◌, ◌≡◌, String}
use go_conflux_sdk.Result.{Result, ok, ◌>>=◌}
use go_conflux_sdk.Exec.{Exec}
use go_conflux_sdk.Ethereum.{Ethereum}
use go_conflux_sdk.Json.{Value, null, bool, str}
use go_conflux_sdk.Json.Requests.{filter_codec, filter_texts, request_codec}
use go_conflux_sdk.Types.Epoch.{Epoch, marshal_text}
use go_conflux_sdk.Client.Requester.{Arg, text, flag, at_epoch, request, filter, Requester}

module _ (E : Ethereum) where
  unfoldable pub marshal_epoch : Option Epoch → Result Value
  marshal_epoch none = ok null
  marshal_epoch (some e) = do t ← marshal_text E e; ok (str t)

  unfoldable pub marshal : Arg → Result Value
  unfolding marshal_epoch
  marshal (text t) = ok (str t)
  marshal (flag b) = ok (bool b)
  marshal (at_epoch e) = marshal_epoch e
  marshal (request r) = ok ((request_codec E).write r)
  marshal (filter f) = do t ← filter_texts E f; ok (filter_codec.write t)

  unfoldable pub marshal_args : List Arg → Result (List Value)
  unfolding marshal
  marshal_args [] = ok []
  marshal_args (arg ∷ args) = do v ← marshal arg; vs ← marshal_args args; ok (v ∷ vs)

  -- A requester through which a node gets the arguments as they are written.
  pub record Wire {W : Type 0} (Q : Requester W) (serve : String → List Value → Exec W Value)
      : Type 0 where
    pub sends :
        (method : String) (args : List Arg) (vs : List Value) (w : W)
        → marshal_args args ≡ ok vs
        → Q.call method args w ≡ serve method vs w
