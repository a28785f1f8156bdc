-- ===== src/Contract/Called.antt =====
-- What Call and SendTransaction of contract.go have done when they succeed.
use go_conflux_sdk.Base.{
  ◌≡◌, refl, Option, none, some, ◌++◌, Bytes, Text, AllBytes, codes, arith, length, ltb, false,
}
use go_conflux_sdk.Result.{ok, wrap}
use go_conflux_sdk.Exec.{wrapping}
use go_conflux_sdk.Exec.Gives.{continue_ok, wrap_ok}
use go_conflux_sdk.Ethereum.{Ethereum}
use go_conflux_sdk.Hex.{encode_to_string, decode_string-encode}
use go_conflux_sdk.Types.Address.{Hash}
use go_conflux_sdk.Types.Transaction.{UnsignedTransaction}
use go_conflux_sdk.Types.Request.{
  empty_request, fill_by_call_option, ContractMethodCallOption, ContractMethodSendOption,
}
use go_conflux_sdk.Client.Requester.{Client, AccountManagerOperator}
use go_conflux_sdk.Client.Queries.{call_contract, send_raw_transaction}
use go_conflux_sdk.Client.Defaults.{TxState, apply_unsigned_transaction_default}
use go_conflux_sdk.Client.Defaults.Kept.{
  Extends, Extends-trans, apply_unsigned_transaction_default-Extends,
}
use go_conflux_sdk.Client.Send.{send_transaction}
use go_conflux_sdk.Client.Send.Sent.{Sent, send_transaction-Sent}
use go_conflux_sdk.Contract.{
  Abi, Contract, epoch_of, base_of, get_data, method_request, read_output, call_method, method_tx,
  send_by, send_filled, forget_tx, send_method,
}

module _ {W A I O : Type 0} (E : Ethereum) (L : Abi A I O) (contract : Contract W A) where
  read_output-encode :
      (method : Text) (bs : Bytes)
      → AllBytes bs
      → read_output E L contract method (codes "0x" ++ encode_to_string bs)
        ≡ wrap "unpack bytes {%x} to method %v output on abi %+v error"
            (L.unpack contract.abi method bs)
  unfolding read_output
  read_output-encode method bs h = rw (long (encode_to_string bs), decode_string-encode bs h) refl
    where
      long : (t : Text) → ltb (length (codes "0x" ++ t)) 2 ≡ false
      long t = ground arith

  -- When the arguments are packed and the node answers the hex spelling of bytes to the call request
  -- made of the contract's address, the packed data and the option, Call gives what the ABI unpacks
  -- from exactly these bytes.
  pub call_method_lem :
      (c : Client W) (option : Option ContractMethodCallOption) (method : Text) (args : I)
      (packed bs : Bytes) (w w' : W)
      → contract.client ≡ some c
      → L.pack contract.abi method args ≡ ok packed
      → AllBytes bs
      → call_contract E c.rpc_requester
          (fill_by_call_option
            (record empty_request {
              to = contract.address;
              call_data = codes "0x" ++ encode_to_string packed;
            })
            option)
          (epoch_of option)
          w
        ≡ (ok (codes "0x" ++ encode_to_string bs), w')
      → call_method E L contract option method args w ≡ (
        wrap "unpack bytes {%x} to method %v output on abi %+v error"
            (L.unpack contract.abi method bs),
        w',
      )
  unfolding call_method get_data method_request
  call_method_lem c option method args packed bs w w' is_client packs h answers =
      rw (packs, is_client, answers, read_output-encode method bs h) refl

  -- A transaction of the contract that was sent: t is the transaction that was signed, w the world then.
  pub record MethodSent (option : Option ContractMethodSendOption) (method : Text) (args : I)
      (hash : Hash) : Type 0 where
    pub client : Client W
    pub manager : AccountManagerOperator W
    pub packed : Bytes
    pub t : UnsignedTransaction
    pub w : W
    pub raw : Bytes
    pub is_client : contract.client ≡ some client
    pub is_manager : client.account_manager ≡ some manager
    pub packs : L.pack contract.abi method args ≡ ok packed
    pub extends :
        Extends (record { base = base_of option; to = contract.address; tx_data = packed }) t
    pub signed : (manager.sign_transaction t w).0 ≡ ok raw
    pub sent :
        (send_raw_transaction E client.rpc_requester raw (manager.sign_transaction t w).1).0
        ≡ ok hash

  -- Only after the defaults does the client send.
  pub send_filled_sends :
      (client : Option (Client W)) (c : Client W) (st : TxState W) (hash : Hash)
      → client ≡ some c
      → (send_filled E L contract client st).0 ≡ ok hash
      → (send_transaction E c (apply_unsigned_transaction_default E (some c) st).1).0 ≡ ok hash
  unfolding send_filled send_by
  send_filled_sends client c st hash is_client sends =
      let e : (send_filled E L contract (some c) st).0 ≡ ok hash = rw is_client at sends in
      let first = apply_unsigned_transaction_default E (some c) st in
      let (u, applied, rest) =
        continue_ok (wrap "apply default for tx {%+v} error" first.0) first.1
          (λ (u : Unit {0}). wrapping "send transaction {%+v} error" (send_transaction E c)) hash
          e in
      wrap_ok "send transaction {%+v} error" (send_transaction E c first.1).0 hash rest

  send_filled_ok :
      (client : Option (Client W)) (st : TxState W) (hash : Hash)
      → (send_filled E L contract client st).0 ≡ ok hash
      → (c : Client W) × (client ≡ some c)
        × (st' : TxState W) × Extends st.tx st'.tx
        × Sent E c st' hash
  unfolding send_filled apply_unsigned_transaction_default
  send_filled_ok none st hash e = absurd (cc e)
  send_filled_ok (some c) st hash e =
      let first = (apply_unsigned_transaction_default E (some c) st).1 in
      (
        c,
        refl,
        first,
        apply_unsigned_transaction_default-Extends E (some c) st,
        send_transaction-Sent E c first hash (send_filled_sends (some c) c st hash refl e),
      )

  -- What is packed is sent.
  pub send_method_sends :
      (option : Option ContractMethodSendOption) (method : Text) (args : I) (packed : Bytes) (w : W)
      (hash : Hash)
      → L.pack contract.abi method args ≡ ok packed
      → (send_method E L contract option method args w).0 ≡ ok hash
      → (send_filled E L contract contract.client (record {
        world = w;
        tx = record { base = base_of option; to = contract.address; tx_data = packed };
      })).0
        ≡ ok hash
  unfolding send_method forget_tx get_data method_tx
  send_method_sends option method args packed w hash packs e = rw packs at e

  -- When SendTransaction of a contract returns a hash, there are a client and an account manager, the
  -- arguments were packed, the manager signed a transaction to the contract's address with the packed
  -- data that keeps every field set in the option, and the node answered the hash to the signed bytes.
  pub send_method-MethodSent :
      (option : Option ContractMethodSendOption) (method : Text) (args : I) (w : W) (hash : Hash)
      → (send_method E L contract option method args w).0 ≡ ok hash
      → MethodSent option method args hash
  unfolding send_method forget_tx get_data method_tx
  send_method-MethodSent option method args w hash e =
      let (packed, packs, rest) =
        continue_ok
          (wrap "get data of method %+v with args %+v error" (get_data E L contract method args)) w
          _ hash e in
      let (c, is_client, st, ext, s) =
        send_filled_ok contract.client
          (record { world = w; tx = method_tx E L contract option packed }) hash rest in
      let later = apply_unsigned_transaction_default E (some c) st in
      record {
        client = c;
        manager = s.manager;
        packed = packed;
        t = later.1.tx;
        w = later.1.world;
        raw = s.raw;
        is_client = is_client;
        is_manager = s.is_manager;
        packs = wrap_ok _ (L.pack contract.abi method args) packed (wrap_ok _ _ packed packs);
        extends = Extends-trans ext (apply_unsigned_transaction_default-Extends E (some c) st);
        signed = s.signed;
        sent = s.sent;
      }
