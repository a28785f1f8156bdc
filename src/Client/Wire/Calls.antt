-- ===== src/Client/Wire/Calls.antt =====
-- Call of client.go on a node that gets the request as JSON.
use go_conflux_sdk.Base.{◌≡◌, refl, ◌∙◌, Option, List, ◌∷◌, ◌++◌, Bytes, String, codes}
use go_conflux_sdk.Result.{ok}
use go_conflux_sdk.Exec.{Exec}
use go_conflux_sdk.Ethereum.{Ethereum}
use go_conflux_sdk.Hex.{encode_to_string}
use go_conflux_sdk.Json.{Value, str}
use go_conflux_sdk.Json.Codec.{text_value}
use go_conflux_sdk.Json.Decode.{decode_text, unmarshal_rpc_result}
use go_conflux_sdk.Json.Numbers.{QuantityLaws}
use go_conflux_sdk.Json.Requests.{request_codec}
use go_conflux_sdk.Json.Requests.RoundTrip.{Fits, request-read}
use go_conflux_sdk.Types.Epoch.{Epoch}
use go_conflux_sdk.Types.Request.{CallRequest, empty_request}
use go_conflux_sdk.Client.Requester.{Requester, Arg, request}
use go_conflux_sdk.Client.Queries.{if_set, query, call_contract}
use go_conflux_sdk.Client.Wire.{marshal_args, marshal, Wire}

module _ {W : Type 0} (E : Ethereum) where
  -- A node that reads the request by the tags of CallRequest, runs it at the epoch that follows it, if one
  -- does, and answers the bytes that come out, in hex.
  pub record RunsCalls (serve : String → List Value → Exec W Value)
      (run : CallRequest → List Value → Bytes) : Type 0 where
    pub ran :
        (v : Value) (r : CallRequest) (epoch : List Value) (w : W)
        → (request_codec E).read empty_request v ≡ ok r
        → serve "cfx_call" (v ∷ epoch) w
          ≡ (ok (str (codes "0x" ++ encode_to_string (run r epoch))), w)

  module _ (law : QuantityLaws E) (Q : Requester W) (serve : String → List Value → Exec W Value)
      (wire : Wire E Q serve) where
    request-marshal :
        (r : CallRequest) (args : List Arg) (vs : List Value)
        → marshal_args E args ≡ ok vs
        → marshal_args E (request r ∷ args) ≡ ok ((request_codec E).write r ∷ vs)
    unfolding marshal_args marshal
    request-marshal r args vs e = rw e refl

    pub call_contract_served :
        (run : CallRequest → List Value → Bytes) (r : CallRequest) (epoch : Option Epoch)
        (at : List Value) (w : W)
        → RunsCalls serve run
        → marshal_args E (if_set epoch) ≡ ok at
        → Fits E r
        → call_contract E Q r epoch w ≡ (ok (codes "0x" ++ encode_to_string (run r at)), w)
    unfolding call_contract query unmarshal_rpc_result decode_text text_value
    call_contract_served run r epoch at w node epochs fits =
        let answered : Q.call "cfx_call" (request r ∷ if_set epoch) w
            ≡ (ok (str (codes "0x" ++ encode_to_string (run r at))), w) =
          wire.sends "cfx_call" (request r ∷ if_set epoch) _ w
            (request-marshal r (if_set epoch) at epochs)
          ∙ node.ran _ r at w (request-read E law r fits) in
        rw answered refl
