-- ===== src/Client/Send.antt =====
-- SendTransaction, SignEncodedTransactionAndSend and signTransactionAndSend of client.go.
pub mod Posted
pub mod Sent
pub mod Managed
pub mod Delivered
pub mod Encoded
use go_conflux_sdk.Base.{ℕ, Option, none, some, Bytes}
use go_conflux_sdk.Errors.{message}
use go_conflux_sdk.Result.{Result, ok, err, panic}
use go_conflux_sdk.Exec.{Exec, continue, ◌>>=◌, ◌>>◌, lift, fail, wrapping}
use go_conflux_sdk.Ethereum.{Ethereum}
use go_conflux_sdk.Types.Address.{Hash}
use go_conflux_sdk.Types.Transaction.{UnsignedTransaction}
use go_conflux_sdk.Types.Response.{Transaction}
use go_conflux_sdk.Types.Rlp.{Rlp, decode_unsigned_tx, encode_with_signature}
use go_conflux_sdk.Client.Requester.{Client, AccountManagerOperator}
use go_conflux_sdk.Client.Queries.{send_raw_transaction, get_transaction_by_hash}
use go_conflux_sdk.Client.Defaults.{TxState, on_world, apply_unsigned_transaction_default}

module _ {W : Type 0} (E : Ethereum) (c : Client W) where
  -- accountManager.SignTransaction(*tx), on the transaction as it is then
  unfoldable pub sign_current : AccountManagerOperator W → Exec (TxState W) Bytes
  sign_current am st = on_world (am.sign_transaction st.tx) st

  unfoldable pub sign_and_send : Option (AccountManagerOperator W) → Exec (TxState W) Hash
  unfolding sign_current
  sign_and_send none =
      fail
        (message "sign transaction need account manager, please call SetAccountManager to set it.")
  sign_and_send (some am) = do
    raw ← wrapping "sign transaction {%+v} error" (sign_current am)
    wrapping "send raw transaction 0x%+x error"
        (on_world (send_raw_transaction E c.rpc_requester raw))

  unfoldable pub send_transaction : Exec (TxState W) Hash
  unfolding sign_and_send
  send_transaction = do
    wrapping "apply transaction {%+v} default fields error"
        (apply_unsigned_transaction_default E (some c))
    sign_and_send c.account_manager

  module _ (R : Rlp) where
    unfoldable pub sign_transaction_and_send :
        UnsignedTransaction → ℕ → Bytes → Bytes → Exec W (Option Transaction)
    unfolding encode_with_signature
    sign_transaction_and_send tx v r s = do
      rlp ←
          wrapping "encode tx %+v with signature { v:%+x, r:%+x, s:%v} error"
            (lift (encode_with_signature E R tx v r s))
      hash ← wrapping "send signed tx %+x error" (send_raw_transaction E c.rpc_requester rlp)
      wrapping "get transaction by hash %+v error" (get_transaction_by_hash E c.rpc_requester hash)

    unfoldable pub sign_encoded_transaction_and_send :
        Bytes → ℕ → Bytes → Bytes → Exec W (Option Transaction)
    unfolding sign_transaction_and_send decode_unsigned_tx
    sign_encoded_transaction_and_send encoded v r s = do
      tx ←
          wrapping "Decode rlp encoded data {%+v} to unsignTransction error"
            (lift (decode_unsigned_tx E R encoded))
      wrapping "sign transaction and send {tx: %+v, r:%+x, s:%+x, v:%v} error"
          (sign_transaction_and_send tx v r s)
