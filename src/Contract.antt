-- ===== src/Contract.antt =====
-- contract.go and GetContract of client.go. The package accounts/abi of go-ethereum is a parameter.
pub mod Called
pub mod Served
pub mod Delivered
pub mod Event
pub mod Deploy
use go_conflux_sdk.Base.{
  ◌==◌, ◌&&◌, Option, none, some, List, [], ◌∷◌, ◌++◌, map, Bytes, Text, codes, length, drop, ltb,
  if◌then◌else◌,
}
use go_conflux_sdk.Errors.{Error, message}
use go_conflux_sdk.Result.{Result, ok, err, panic, wrap, deref, ◌>>=◌ as bind}
use go_conflux_sdk.Exec.{Exec, continue, ◌>>=◌, ◌>>◌, lift, wrapping}
use go_conflux_sdk.Ethereum.{Ethereum}
use go_conflux_sdk.Hex.{encode_to_string, decode_string, decode_partial}
use go_conflux_sdk.Types.Address.{Address, Hash, zero_address, to_common_address, to_common_hash}
use go_conflux_sdk.Types.Epoch.{Epoch}
use go_conflux_sdk.Types.Transaction.{UnsignedTransaction, empty_base}
use go_conflux_sdk.Types.Request.{
  CallRequest, empty_request, fill_by_call_option, ContractMethodCallOption,
  ContractMethodSendOption,
}
use go_conflux_sdk.Types.Response.{LogEntry}
use go_conflux_sdk.Client.Requester.{Client}
use go_conflux_sdk.Client.Queries.{call_contract}
use go_conflux_sdk.Client.Defaults.{TxState, apply_unsigned_transaction_default}
use go_conflux_sdk.Client.Send.{send_transaction}

-- etypes.Log, as far as UnpackLog reads it.
pub record EventLog : Type 0 where
  pub topics : List Bytes
  pub log_data : Bytes

-- A is abi.ABI, I the arguments of a method, O what is unpacked.
pub record Abi (A I O : Type 0) : Type 0 where
  pub unmarshal_json : Bytes → Result A
  pub pack : A → Text → I → Result Bytes
  pub unpack : A → Text → Bytes → Result O
  -- bind.NewBoundContract(address, abi).UnpackLog
  pub unpack_log : Bytes → A → Text → EventLog → Result O

-- The client may be a nil *Client.
pub record Contract (W A : Type 0) : Type 0 where
  pub abi : A
  pub client : Option (Client W)
  pub address : Option Address

-- The option's epoch, nil if there is no option.
abbrev pub epoch_of : Option ContractMethodCallOption → Option Epoch
epoch_of none = none
epoch_of (some option) = option.epoch

abbrev pub base_of : Option ContractMethodSendOption → ContractMethodSendOption
base_of none = empty_base
base_of (some option) = option

-- strings.Replace(s, "0x", "", -1)
pub remove_0x : Text → Text
remove_0x [] = []
remove_0x (a ∷ []) = a ∷ []
remove_0x (a ∷ b ∷ s) =
    let behind = remove_0x s in
    let rest = remove_0x (b ∷ s) in if (a == b'0') && (b == b'x') then behind else a ∷ rest

module _ {W A I O : Type 0} (E : Ethereum) (L : Abi A I O) where
  -- GetContract, on a client that may be nil
  pub get_contract : Option (Client W) → Bytes → Option Address → Result (Contract W A)
  get_contract client abi_json deployed_at =
      bind (wrap "unmarshal json {%+v} to ABI error" (L.unmarshal_json abi_json))
        λ abi. ok (record { abi = abi; client = client; address = deployed_at })

  pub new_contract : Bytes → Option (Client W) → Option Address → Result (Contract W A)
  unfolding get_contract
  new_contract abi_json client address = get_contract client abi_json address

  module _ (contract : Contract W A) where
    unfoldable pub get_data : Text → I → Result Bytes
    get_data method args =
        wrap "encode method %+v with args %+v error" (L.pack contract.abi method args)

    pub method_request : Option ContractMethodCallOption → Bytes → CallRequest
    method_request option packed =
        fill_by_call_option
          (record empty_request {
            to = contract.address;
            call_data = codes "0x" ++ encode_to_string packed;
          })
          option

    -- What Call makes of the node's answer.
    pub read_output : Text → Text → Result O
    read_output method result =
        if ltb (length result) 2
        then err (message "call response string %v length smaller than 2")
        else bind (wrap "decode hex string %s to bytes error" (decode_string (drop 2 result)))
            λ raw.
              wrap "unpack bytes {%x} to method %v output on abi %+v error"
                (L.unpack contract.abi method raw)

    -- Call
    pub call_method : Option ContractMethodCallOption → Text → I → Exec W O
    unfolding get_data method_request read_output
    call_method option method args = do
      packed ← wrapping "get data of method %+v with args %+v error" (lift (get_data method args))
      client ← lift (deref contract.client)
      result ←
          wrapping "call {%+v} at epoch %+v error"
            (call_contract E client.rpc_requester (method_request option packed) (epoch_of option))
      lift (read_output method result)

    unfoldable pub method_tx : Option ContractMethodSendOption → Bytes → UnsignedTransaction
    method_tx option packed = record {
      base = base_of option;
      to = contract.address;
      tx_data = packed;
    }

    -- contract.Client.SendTransaction(tx): a nil client has no account manager to look at.
    unfoldable pub send_by : Option (Client W) → Exec (TxState W) Hash
    send_by none = lift panic
    send_by (some client) = send_transaction E client

    unfoldable pub send_filled : Option (Client W) → Exec (TxState W) Hash
    unfolding send_by
    send_filled client = do
      wrapping "apply default for tx {%+v} error" (apply_unsigned_transaction_default E client)
      wrapping "send transaction {%+v} error" (send_by client)

    -- The world after a call that had a transaction of its own.
    unfoldable pub forget_tx : Result Hash × TxState W → Result Hash × W
    forget_tx o = (o.0, o.1.world)

    -- SendTransaction
    unfoldable pub send_method : Option ContractMethodSendOption → Text → I → Exec W Hash
    unfolding get_data method_tx send_filled forget_tx
    send_method option method args = do
      packed ← wrapping "get data of method %+v with args %+v error" (lift (get_data method args))
      λ w.
          forget_tx
            (send_filled contract.client (record { world = w; tx = method_tx option packed }))

    -- The log that UnpackLog is given. The error of the hex decoder is dropped, and the bytes before the
    -- fault are kept.
    pub event_log : LogEntry → EventLog
    unfolding remove_0x
    event_log log = record {
      topics = map (to_common_hash E) log.topics;
      log_data = (decode_partial (remove_0x log.log_data)).0;
    }

    -- The zero address if the contract has none.
    pub bound_address : Option Address → Bytes
    bound_address none = zero_address
    bound_address (some a) = to_common_address E a

    -- DecodeEvent
    pub decode_event : Text → LogEntry → Result O
    unfolding event_log bound_address
    decode_event event log =
        L.unpack_log (bound_address contract.address) contract.abi event (event_log log)
