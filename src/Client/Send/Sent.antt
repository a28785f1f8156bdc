-- ===== src/Client/Send/Sent.antt =====
-- What SendTransaction of client.go has done when it returns a hash, and what
-- SignEncodedTransactionAndSend sends.
use go_conflux_sdk.Base.{ℕ, ◌≡◌, refl, Option, none, some, Bytes, AllBytes}
use go_conflux_sdk.Errors.{message}
use go_conflux_sdk.Result.{ok, err}
use go_conflux_sdk.Exec.{wrapping}
use go_conflux_sdk.Exec.Gives.{continue_ok, wrap_ok}
use go_conflux_sdk.Ethereum.{Ethereum, HexLaws}
use go_conflux_sdk.Types.Address.{Address, Hash}
use go_conflux_sdk.Types.Rlp.{Rlp, RlpLaws, Complete, complete_tx, encode_unsigned_tx}
use go_conflux_sdk.Types.Rlp.RoundTrip.{respelled, decode-encode}
use go_conflux_sdk.Client.Requester.{Client, AccountManagerOperator}
use go_conflux_sdk.Client.Queries.{send_raw_transaction}
use go_conflux_sdk.Client.Defaults.{TxState, on_world, apply_unsigned_transaction_default}
use go_conflux_sdk.Client.Send.{
  sign_current, sign_and_send, send_transaction, sign_transaction_and_send,
  sign_encoded_transaction_and_send,
}

module _ {W : Type 0} (E : Ethereum) (c : Client W) where
  -- The steps of a call that succeeds: st' is the state after the defaults, w' the world after signing.
  pub record Sent (st : TxState W) (hash : Hash) : Type 0 where
    pub manager : AccountManagerOperator W
    pub raw : Bytes
    pub is_manager : c.account_manager ≡ some manager
    pub defaults : (apply_unsigned_transaction_default E (some c) st).0 ≡ ok tt
    pub signed :
        let st' = (apply_unsigned_transaction_default E (some c) st).1 in
        (manager.sign_transaction st'.tx st'.world).0 ≡ ok raw
    pub sent :
        let st' = (apply_unsigned_transaction_default E (some c) st).1 in
        (send_raw_transaction E c.rpc_requester raw (manager.sign_transaction st'.tx st'.world).1).0
        ≡ ok hash

  sign_and_send_ok :
      (am : Option (AccountManagerOperator W)) (st : TxState W) (hash : Hash)
      → (sign_and_send E c am st).0 ≡ ok hash
      → (manager : AccountManagerOperator W) × (raw : Bytes) × (am ≡ some manager)
        × ((manager.sign_transaction st.tx st.world).0 ≡ ok raw)
        × ((send_raw_transaction E c.rpc_requester raw
              (manager.sign_transaction st.tx st.world).1).0
            ≡ ok hash)
  unfolding sign_and_send sign_current on_world
  sign_and_send_ok none st hash e = absurd (cc e)
  sign_and_send_ok (some am) st hash e =
      let (raw, signed, rest) = continue_ok _ _ _ hash e in
      (am, raw, refl, wrap_ok _ _ raw signed, wrap_ok _ _ hash rest)

-- When the call returns a hash, there is an account manager, the defaults were applied without an
-- error, the manager signed the transaction that they left, and the node answered the hash to the
-- sending of those signed bytes.
pub send_transaction-Sent :
    {W : Type 0} (E : Ethereum) (c : Client W) (st : TxState W) (hash : Hash)
    → (send_transaction E c st).0 ≡ ok hash
    → Sent E c st hash
unfolding send_transaction
send_transaction-Sent E c st hash e =
    let (u, applied, rest) = continue_ok _ _ _ hash e in
    let (am, raw, is_manager, signed, sent) = sign_and_send_ok E c c.account_manager _ hash rest in
    record {
      manager = am;
      raw = raw;
      is_manager = is_manager;
      defaults = wrap_ok _ _ tt applied;
      signed = signed;
      sent = sent;
    }

-- With no account manager, a call whose defaults succeed ends in the error that asks for one, and
-- does nothing after the defaults.
pub send_transaction_unmanaged :
    {W : Type 0} (E : Ethereum) (c : Client W) (st : TxState W)
    → c.account_manager ≡ none
    → (apply_unsigned_transaction_default E (some c) st).0 ≡ ok tt
    → send_transaction E c st ≡ (
      err (
          message
            "sign transaction need account manager, please call SetAccountManager to set it."),
      (apply_unsigned_transaction_default E (some c) st).1,
    )
unfolding send_transaction sign_and_send
send_transaction_unmanaged E c st m e = rw (e, m) refl

module _ {W : Type 0} (E : Ethereum) (R : Rlp) (hex : HexLaws E) (rlp : RlpLaws R)
    (c : Client W) where
  -- On the encoding of a transaction with all numbers set and not negative and with a recipient, the
  -- call is that of signTransactionAndSend on the same transaction, with no sender and with the
  -- recipient's address respelled, its errors under one more message.
  pub sign_encoded_transaction_and_send-encode :
      (t : Complete) (from : Option Address) (to : Address) (v : ℕ) (r s : Bytes)
      → AllBytes t.tx_data
      → (raw : Bytes) × (encode_unsigned_tx E R (complete_tx t from to) ≡ ok raw)
        × (sign_encoded_transaction_and_send E c R raw v r s
            ≡ wrapping "sign transaction and send {tx: %+v, r:%+x, s:%+x, v:%v} error"
                (sign_transaction_and_send E c R (complete_tx t none (respelled E to)) v r s))
  unfolding sign_encoded_transaction_and_send
  sign_encoded_transaction_and_send-encode t from to v r s bs =
      let (raw, enc, dec) = decode-encode E R hex rlp t from to bs in (raw, enc, rw dec refl)
