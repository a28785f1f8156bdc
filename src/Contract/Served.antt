-- ===== src/Contract/Served.antt =====
-- Call of contract.go on a node that gets the call request as JSON.
use go_conflux_sdk.Base.{
  ◌≡◌, refl, none, Option, some, List, ◌++◌, Bytes, Text, String, AllBytes, codes,
}
use go_conflux_sdk.Result.{ok, wrap}
use go_conflux_sdk.Exec.{Exec}
use go_conflux_sdk.Ethereum.{Ethereum}
use go_conflux_sdk.Hex.{encode_to_string}
use go_conflux_sdk.Json.{Value}
use go_conflux_sdk.Json.Numbers.{QuantityLaws}
use go_conflux_sdk.Json.Requests.RoundTrip.{Fits}
use go_conflux_sdk.Types.Request.{
  CallRequest, empty_request, fill_by_call_option, ContractMethodCallOption,
}
use go_conflux_sdk.Client.Requester.{Client}
use go_conflux_sdk.Client.Queries.{if_set}
use go_conflux_sdk.Client.Wire.{marshal_args, Wire}
use go_conflux_sdk.Client.Wire.Calls.{RunsCalls, call_contract_served}
use go_conflux_sdk.Contract.{Abi, Contract, epoch_of, call_method}
use go_conflux_sdk.Contract.Called.{call_method_lem}

-- The call request of a contract's method: what is packed, in hex, to the contract, with the fields of
-- the option.
abbrev pub request_to :
    {W A : Type 0} → Contract W A → Option ContractMethodCallOption → Bytes → CallRequest
request_to contract none packed = record {
  from = none;
  to = contract.address;
  gas_price = none;
  gas = none;
  value = none;
  call_data = codes "0x" ++ encode_to_string packed;
  nonce = none;
  storage_limit = none;
}
request_to contract (some option) packed = record {
  from = option.from;
  to = contract.address;
  gas_price = option.gas_price;
  gas = option.gas;
  value = option.value;
  call_data = codes "0x" ++ encode_to_string packed;
  nonce = option.nonce;
  storage_limit = option.storage_limit;
}

-- FillByCallOption makes it.
request_filled :
    {W A : Type 0} (contract : Contract W A) (option : Option ContractMethodCallOption)
    (packed : Bytes)
    → fill_by_call_option
        (record empty_request {
          to = contract.address;
          call_data = codes "0x" ++ encode_to_string packed;
        })
        option
      ≡ request_to contract option packed
unfolding fill_by_call_option
request_filled contract none packed = refl
request_filled contract (some option) packed = refl

module _ {W A I O : Type 0} (E : Ethereum) (law : QuantityLaws E) (L : Abi A I O)
    (contract : Contract W A) where
  -- On a node that gets the arguments as encoding/json writes them, reads the request by its struct tags,
  -- runs it at the option's epoch, if there is one, and answers the bytes that come out in hex, Call of a
  -- contract gives what the ABI unpacks from exactly the bytes of the run of the contract's address, the
  -- packed data and the option, when the arguments are packed, the epoch has a text and the numbers of
  -- the option that are set are not negative and have at most 256 bits. hexutil.Big is assumed to read
  -- what hexutil.EncodeBig writes.
  pub call_method_served :
      (c : Client W) (serve : String → List Value → Exec W Value)
      (run : CallRequest → List Value → Bytes) (option : Option ContractMethodCallOption)
      (method : Text) (args : I) (packed : Bytes) (epoch : List Value) (w : W)
      → contract.client ≡ some c
      → Wire E c.rpc_requester serve
      → RunsCalls E serve run
      → L.pack contract.abi method args ≡ ok packed
      → marshal_args E (if_set (epoch_of option)) ≡ ok epoch
      → Fits E (request_to contract option packed)
      → AllBytes (run (request_to contract option packed) epoch)
      → call_method E L contract option method args w ≡ (
        wrap "unpack bytes {%x} to method %v output on abi %+v error"
            (L.unpack contract.abi method (run (request_to contract option packed) epoch)),
        w,
      )
  call_method_served c serve run option method args packed epoch w is_client wire node packs at fits
        all_bytes =
      let answers =
        call_contract_served E law c.rpc_requester serve wire run
          (request_to contract option packed) (epoch_of option) epoch w node at fits in
      call_method_lem E L contract c option method args packed _ w w is_client packs all_bytes
        (rw (request_filled contract option packed) answers)
