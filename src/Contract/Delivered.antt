-- ===== src/Contract/Delivered.antt =====
-- SendTransaction of contract.go on a client with the SDK's own account manager, and what the node can
-- read from the bytes that it was sent.
use go_conflux_sdk.Base.{◌≡◌, sym, ap, subst, Option, some, Bytes, Text, AllBytes}
use go_conflux_sdk.Base.Int.{pos}
use go_conflux_sdk.Result.{Result, ok}
use go_conflux_sdk.Client.Defaults.Complete.{apply_unsigned_transaction_default_full}
use go_conflux_sdk.Ethereum.{Ethereum, HexLaws}
use go_conflux_sdk.Types.Address.{Address, Hash}
use go_conflux_sdk.Types.Transaction.{UnsignedTransaction}
use go_conflux_sdk.Types.Request.{ContractMethodSendOption}
use go_conflux_sdk.Types.Rlp.{Rlp, RlpLaws, Complete, complete_tx}
use go_conflux_sdk.Account.Keys.{KeyStore}
use go_conflux_sdk.Account.Operator.{Holds, operator}
use go_conflux_sdk.Client.Requester.{Client}
use go_conflux_sdk.Client.Defaults.{TxState, apply_unsigned_transaction_default}
use go_conflux_sdk.Client.Defaults.Kept.{Extends, apply_unsigned_transaction_default-Extends}
use go_conflux_sdk.Client.Send.Delivered.{SignsBytes, Delivered, send_transaction-Delivered}
use go_conflux_sdk.Contract.{Abi, Contract, base_of, send_method}
use go_conflux_sdk.Contract.Called.{send_filled_sends, send_method_sends}

-- The transaction of a contract's method, before the defaults.
abbrev pub tx_to :
    {W A : Type 0} → Contract W A → Option ContractMethodSendOption → Bytes → UnsignedTransaction
tx_to contract option packed = record {
  base = base_of option;
  to = contract.address;
  tx_data = packed;
}

-- The state after SendTransaction of a contract has filled in the defaults.
abbrev pub filled : {W : Type 0} → Ethereum → Client W → TxState W → TxState W
filled E c st = (apply_unsigned_transaction_default E (some c) st).1

module _ {K W A I O : Type 0} (E : Ethereum) (R : Rlp) (hex : HexLaws E) (rlp : RlpLaws R)
    (S : KeyStore K) (H : Holds K W) (L : Abi A I O) (contract : Contract W A) (c : Client W) where
  -- The client finds nothing missing when it fills in the defaults again.
  filled_again :
      (st : TxState W) (t : Complete) (from to : Address)
      → st.tx ≡ complete_tx t (some from) to
      → (filled E c st).tx ≡ complete_tx t (some from) to
  filled_again st t from to e =
      let again : apply_unsigned_transaction_default E (some c)
            (record { world = st.world; tx = complete_tx t (some from) to })
          ≡ (ok tt, record { world = st.world; tx = complete_tx t (some from) to }) =
        apply_unsigned_transaction_default_full E c
          (record {
            from = from;
            nonce = pos t.nonce;
            gas_price = pos t.gas_price;
            gas = pos t.gas;
            value = pos t.value;
            storage_limit = pos t.storage_limit;
            epoch_height = pos t.epoch_height;
            chain_id = pos t.chain_id;
            to = some to;
            tx_data = t.tx_data;
          })
          st.world in
      subst
        (λ (u : UnsignedTransaction).
          (filled E c (record { world = st.world; tx = u })).tx ≡ complete_tx t (some from) to)
        (sym e) (ap (λ (o : Result (Unit {0}) × TxState W). o.1.tx) again)

  -- When SendTransaction of a contract on a client with the SDK's own account manager packs the
  -- arguments and returns a hash, and the defaults that the contract fills in left a transaction with a
  -- sender and a recipient and with all numbers set and not negative, then this transaction goes to the
  -- contract's address with the packed data and keeps every field set in the option, and the node
  -- answered the hash to the call cfx_sendRawTransaction on the hex spelling of bytes from which SignedTransaction.Decode makes it, without the
  -- sender and with the recipient respelled, and the keystore's signature, with r and s without their
  -- leading zero bytes; if the v of the signature is 0 it panics on them. The keystore's signatures and
  -- the packed data are assumed to be made of bytes.
  pub send_method-Delivered :
      (option : Option ContractMethodSendOption) (method : Text) (args : I) (packed : Bytes) (w : W)
      (hash : Hash) (t : Complete) (from to : Address)
      → contract.client ≡ some c
      → c.account_manager ≡ some (operator E R S H)
      → L.pack contract.abi method args ≡ ok packed
      → (send_method E L contract option method args w).0 ≡ ok hash
      → let st : TxState W = record { world = w; tx = tx_to contract option packed } in
        (filled E c st).tx ≡ complete_tx t (some from) to
        → AllBytes packed
        → SignsBytes S
        → Extends (tx_to contract option packed) (complete_tx t (some from) to)
          × Delivered E R hex rlp S H c
              (filled E c (record { world = w; tx = tx_to contract option packed }))
              hash
              t
              (some from)
              to
  send_method-Delivered option method args packed w hash t from to is_client managed packs e
        complete bs sig_bytes =
      let st : TxState W = record { world = w; tx = tx_to contract option packed } in
      let kept : Extends (tx_to contract option packed) (complete_tx t (some from) to) =
        subst (Extends st.tx) complete (apply_unsigned_transaction_default-Extends E (some c) st) in
      let sends = send_method_sends E L contract option method args packed w hash packs e in
      (
        kept,
        send_transaction-Delivered E R hex rlp S H c (filled E c st) hash t (some from) to managed
            (send_filled_sends E L contract contract.client c st hash is_client sends)
            (filled_again (filled E c st) t from to complete) (subst AllBytes (sym kept.tx_data) bs)
            sig_bytes,
      )
