-- ===== src/Client/Send/Managed.antt =====
-- SendTransaction of client.go with the AccountManager of account.go.
use go_conflux_sdk.Base.{◌≡◌, refl, sym, ap, ◌∙◌, some, Bytes}
use go_conflux_sdk.Result.{ok}
use go_conflux_sdk.Ethereum.{Ethereum}
use go_conflux_sdk.Types.Address.{Hash}
use go_conflux_sdk.Types.Transaction.{UnsignedTransaction}
use go_conflux_sdk.Types.Rlp.{Rlp}
use go_conflux_sdk.Account.Keys.{KeyStore}
use go_conflux_sdk.Account.{AccountManager}
use go_conflux_sdk.Account.Signed.{Signed, sign_transaction-Signed}
use go_conflux_sdk.Account.Operator.{Holds, on_manager, operator}
use go_conflux_sdk.Client.Requester.{Client, AccountManagerOperator}
use go_conflux_sdk.Client.Send.Posted.{Posted, send_raw_transaction-Posted}
use go_conflux_sdk.Client.Defaults.{TxState, apply_unsigned_transaction_default}
use go_conflux_sdk.Client.Defaults.Kept.{Extends, apply_unsigned_transaction_default-Extends}
use go_conflux_sdk.Client.Send.{send_transaction}
use go_conflux_sdk.Client.Send.Sent.{send_transaction-Sent}

module _ {K W : Type 0} (E : Ethereum) (R : Rlp) (S : KeyStore K) (H : Holds K W)
    (c : Client W) where
  -- tx is the transaction that the defaults left and that was signed, m the manager then, and w the world
  -- after signing, in which raw went to the node.
  pub record SentSigned (st : TxState W) (hash : Hash) : Type 0 where
    pub tx : UnsignedTransaction
    pub m : AccountManager K
    pub w : W
    pub raw : Bytes
    pub filled : tx ≡ (apply_unsigned_transaction_default E (some c) st).1.tx
    pub is_m : m ≡ H.get (apply_unsigned_transaction_default E (some c) st).1.world
    pub is_w :
        w
        ≡ ((operator E R S H).sign_transaction tx
            (apply_unsigned_transaction_default E (some c) st).1.world).1
    pub extends : Extends st.tx tx
    pub signed : Signed E R S m tx raw
    pub sent : Posted E c.rpc_requester raw w hash

  manager-Signed :
      (am : AccountManagerOperator W) (tx : UnsignedTransaction) (w : W) (raw : Bytes)
      → am ≡ operator E R S H
      → (am.sign_transaction tx w).0 ≡ ok raw
      → Signed E R S (H.get w) tx raw
  unfolding operator on_manager
  manager-Signed am tx w raw same e = sign_transaction-Signed E R S tx (H.get w) raw (rw same at e)

  some_injective : {am op : AccountManagerOperator W} → some am ≡ some op → am ≡ op
  some_injective e = cc

  -- When SendTransaction of a client with the SDK's own account manager returns a hash, the node
  -- answered it to the call cfx_sendRawTransaction on the hex spelling of the encoding of the
  -- transaction that the defaults left, which keeps every field that was set, with the keystore's
  -- signature of that transaction's keccak hash by the account found for its sender.
  pub send_transaction-SentSigned :
      (st : TxState W) (hash : Hash)
      → c.account_manager ≡ some (operator E R S H)
      → (send_transaction E c st).0 ≡ ok hash
      → SentSigned st hash
  send_transaction-SentSigned st hash managed e =
      let s = send_transaction-Sent E c st hash e in
      let filled = (apply_unsigned_transaction_default E (some c) st).1 in
      record {
        tx = filled.tx;
        m = H.get filled.world;
        w = (s.manager.sign_transaction filled.tx filled.world).1;
        raw = s.raw;
        filled = refl;
        is_m = refl;
        is_w =
            ap (λ (am : AccountManagerOperator W). (am.sign_transaction filled.tx filled.world).1)
              (some_injective (sym s.is_manager ∙ managed));
        extends = apply_unsigned_transaction_default-Extends E (some c) st;
        signed =
            manager-Signed s.manager filled.tx filled.world s.raw
              (some_injective (sym s.is_manager ∙ managed)) s.signed;
        sent = send_raw_transaction-Posted E c.rpc_requester s.raw _ hash s.sent;
      }
