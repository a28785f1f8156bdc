-- ===== src/Client/Send/Encoded.antt =====
-- SignEncodedTransactionAndSend of client.go: what the node can read from the bytes that it was sent.
use go_conflux_sdk.Base.{ℕ, ◌<◌, ◌≡◌, sym, ◌∙◌, ap, Option, none, Bytes, AllBytes, map, lower}
use go_conflux_sdk.Result.{ok, wrap, ok_injective}
use go_conflux_sdk.Exec.Gives.{continue_ok, wrap_ok}
use go_conflux_sdk.Ethereum.{Ethereum, HexLaws}
use go_conflux_sdk.Types.Address.{Address, Hash}
use go_conflux_sdk.Types.Response.{Transaction}
use go_conflux_sdk.Types.Rlp.{
  Rlp, RlpLaws, Complete, complete_tx, encode_unsigned_tx, encode_with_signature,
}
use go_conflux_sdk.Types.Rlp.RoundTrip.{respelled, respelled_address}
use go_conflux_sdk.Client.Requester.{Client}
use go_conflux_sdk.Client.Queries.{send_raw_transaction, get_transaction_by_hash}
use go_conflux_sdk.Client.Send.{sign_transaction_and_send, sign_encoded_transaction_and_send}
use go_conflux_sdk.Client.Send.Posted.{Posted, send_raw_transaction-Posted}
use go_conflux_sdk.Client.Send.Sent.{sign_encoded_transaction_and_send-encode}
use go_conflux_sdk.Client.Send.Delivered.{DecodesTo, encoded-DecodesTo}

module _ {W : Type 0} (E : Ethereum) (R : Rlp) (hex : HexLaws E) (rlp : RlpLaws R)
    (c : Client W) where
  -- raw was sent in the world w and answered by a hash, which the node knows as the transaction `answer`.
  pub record SentEncoded (t : Complete) (to : Address) (v : ℕ) (r s : Bytes) (w : W)
      (answer : Option Transaction) : Type 0 where
    pub raw : Bytes
    pub hash : Hash
    pub decodes : DecodesTo E R raw t to v r s
    pub sent : Posted E c.rpc_requester raw w hash
    pub answered :
        (get_transaction_by_hash E c.rpc_requester hash
          (send_raw_transaction E c.rpc_requester raw w).1).0
        ≡ ok answer

  respelled_twice : (to : Address) → respelled E (respelled E to) ≡ respelled E to
  respelled_twice to =
      ap (λ (b : Bytes). map lower (E.address_hex b)) (respelled_address E R hex rlp to)

  sign_transaction_and_send-SentEncoded :
      (t : Complete) (to : Address) (v : ℕ) (r s : Bytes) (w : W) (answer : Option Transaction)
      → AllBytes t.tx_data
      → v < 256
      → AllBytes r
      → AllBytes s
      → (sign_transaction_and_send E c R (complete_tx t none (respelled E to)) v r s w).0
        ≡ ok answer
      → SentEncoded t to v r s w answer
  unfolding sign_transaction_and_send
  sign_transaction_and_send-SentEncoded t to v r s w answer bs hv hr hs e =
      let tx = complete_tx t none (respelled E to) in
      let (raw, encoded, rest) =
        continue_ok
          (wrap "encode tx %+v with signature { v:%+x, r:%+x, s:%v} error"
            (encode_with_signature E R tx v r s))
          w _ answer e in
      let (hash, sent, last) = continue_ok _ _ _ answer rest in
      let decodes : DecodesTo E R raw t (respelled E to) v r s =
        encoded-DecodesTo E R hex rlp t none (respelled E to) v r s raw bs hv hr hs
          (wrap_ok _ _ raw encoded) in
      record {
        raw = raw;
        hash = hash;
        decodes = rw (respelled_twice to) at decodes;
        sent = send_raw_transaction-Posted E c.rpc_requester raw w hash (wrap_ok _ _ hash sent);
        answered = wrap_ok _ _ answer last;
      }

  -- On the encoding of a transaction with all numbers set and not negative and with a recipient, and
  -- a signature of bytes, when SignEncodedTransactionAndSend returns without an error, the node
  -- answered a hash to the call cfx_sendRawTransaction on the hex spelling of bytes from which SignedTransaction.Decode makes that transaction,
  -- without the sender and with the recipient respelled, and the signature, with r and s without their
  -- leading zero bytes, or panics if v is 0; and it returns what GetTransactionByHash returns then for
  -- the hash.
  pub sign_encoded_transaction_and_send-SentEncoded :
      (t : Complete) (from : Option Address) (to : Address) (v : ℕ) (r s : Bytes) (w : W)
      (encoded : Bytes) (answer : Option Transaction)
      → AllBytes t.tx_data
      → v < 256
      → AllBytes r
      → AllBytes s
      → encode_unsigned_tx E R (complete_tx t from to) ≡ ok encoded
      → (sign_encoded_transaction_and_send E c R encoded v r s w).0 ≡ ok answer
      → SentEncoded t to v r s w answer
  sign_encoded_transaction_and_send-SentEncoded t from to v r s w encoded answer bs hv hr hs
        is_encoded e =
      let (raw, enc, same) =
        sign_encoded_transaction_and_send-encode E R hex rlp c t from to v r s bs in
      let is_raw : encoded ≡ raw = ok_injective (sym is_encoded ∙ enc) in
      sign_transaction_and_send-SentEncoded t to v r s w answer bs hv hr hs (
        wrap_ok "sign transaction and send {tx: %+v, r:%+x, s:%+x, v:%v} error" _ answer
          (rw (is_raw, same) at e))
