-- ===== src/Client/Requester.antt =====
-- The interface rpcRequester and the fields of Client. W is the world that a call may change: the
-- node, the connection and the account manager. The package rpc, a copy of go-ethereum's, is behind it.
use go_conflux_sdk.Base.{Bool, Option, List, String, Text, Bytes}
use go_conflux_sdk.Errors.{Error}
use go_conflux_sdk.Exec.{Exec}
use go_conflux_sdk.Json.{Value}
use go_conflux_sdk.Types.Address.{Address}
use go_conflux_sdk.Types.Epoch.{Epoch}
use go_conflux_sdk.Types.Transaction.{UnsignedTransaction}
use go_conflux_sdk.Types.Request.{CallRequest}
use go_conflux_sdk.Types.Response.{Status}
use go_conflux_sdk.Types.Block.{LogFilter}

-- An argument of a call, before it is marshalled. A nil epoch pointer may be passed.
pub data Arg : Type 0 where
  text : Text → Arg
  flag : Bool → Arg
  at_epoch : Option Epoch → Arg
  request : CallRequest → Arg
  filter : LogFilter → Arg

-- rpc.BatchElem without its result: a method and its arguments.
abbrev pub BatchElem : Type 0
BatchElem = String × List Arg

-- What comes back for an element of a batch: its result, or the error that BatchCall puts into its
-- field Error.
pub data Answer : Type 0 where
  answered : Value → Answer
  refused : Error → Answer

-- Call with a result of type interface{}, and with one of type types.Status; BatchCall, with an answer
-- for each element in their order, before the results are read into the result pointers.
pub record Requester (W : Type 0) : Type 0 where
  pub call : String → List Arg → Exec W Value
  pub call_status : String → List Arg → Exec W Status
  pub batch : List BatchElem → Exec W (List Answer)
  pub close : W → W

-- What a client uses of AccountManagerOperator: the address may come back as a nil pointer.
pub record AccountManagerOperator (W : Type 0) : Type 0 where
  pub get_default : Exec W (Option Address)
  pub sign_transaction : UnsignedTransaction → Exec W Bytes

pub record Client (W : Type 0) : Type 0 where
  pub node_url : Text
  pub rpc_requester : Requester W
  pub account_manager : Option (AccountManagerOperator W)

-- SetAccountManager
pub set_account_manager : {W : Type 0} → Client W → Option (AccountManagerOperator W) → Client W
set_account_manager c am = record c { account_manager = am }
