-- ===== src/Client/Send/Delivered.antt =====
-- SendTransaction of client.go and SignedTransaction.Decode of types/transaction_signed.go: what the
-- node can read from the bytes that it was sent.
use go_conflux_sdk.Base.{
  ℕ, zero, suc, ◌<◌, ◌≡◌, refl, sym, ap, ◌∙◌, subst, ◌⊎◌, inl, inr, Option, none, some, Bytes,
  AllBytes, All-take, All-drop, All-get_elem?, drop, arith,
}
use go_conflux_sdk.Base.BigBytes.{trim}
use go_conflux_sdk.Result.{ok, panic, ok_injective}
use go_conflux_sdk.Ethereum.{Ethereum, HexLaws}
use go_conflux_sdk.Types.Address.{Address, Hash}
use go_conflux_sdk.Types.Transaction.{UnsignedTransaction}
use go_conflux_sdk.Types.Rlp.{
  Rlp, RlpLaws, Complete, complete_tx, encode_with_signature, decode_signed_tx,
}
use go_conflux_sdk.Types.Rlp.RoundTrip.{respelled, decode-encode_signed, decode-encode_v_zero}
use go_conflux_sdk.Account.Keys.{Account, KeyStore}
use go_conflux_sdk.Account.{AccountManager}
use go_conflux_sdk.Account.Operator.{Holds, operator}
use go_conflux_sdk.Client.Requester.{Client}
use go_conflux_sdk.Client.Send.Posted.{Posted}
use go_conflux_sdk.Account.Signed.{Signed}
use go_conflux_sdk.Client.Defaults.{TxState, apply_unsigned_transaction_default}
use go_conflux_sdk.Client.Send.{send_transaction}
use go_conflux_sdk.Client.Send.Managed.{send_transaction-SentSigned}

-- A signature of the keystore is made of bytes.
abbrev pub SignsBytes : {K : Type 0} → KeyStore K → Type 0
SignsBytes {K} S =
    (k : K) (a : Account) (hash sig : Bytes) → S.sign_hash k a hash ≡ ok sig → AllBytes sig

module _ (E : Ethereum) (R : Rlp) where
  -- What Decode makes of bytes that carry the transaction t to the recipient with the signature v, r, s:
  -- a panic if v is 0, and otherwise that transaction and signature.
  abbrev pub DecodesTo : Bytes → Complete → Address → ℕ → Bytes → Bytes → Type 0
  DecodesTo raw t to v r s =
      ((v ≡ 0) × (decode_signed_tx E R raw ≡ panic))
      ⊎ ((0 < v)
          × (decode_signed_tx E R raw
              ≡ ok (record {
                unsigned = complete_tx t none (respelled E to);
                v = v;
                r = trim r;
                s = trim s;
              })))

  module _ (hex : HexLaws E) (rlp : RlpLaws R) where
    pub encoded-DecodesTo :
        (t : Complete) (from : Option Address) (to : Address) (v : ℕ) (r s raw : Bytes)
        → AllBytes t.tx_data
        → v < 256
        → AllBytes r
        → AllBytes s
        → encode_with_signature E R (complete_tx t from to) v r s ≡ ok raw
        → DecodesTo raw t to v r s
    encoded-DecodesTo t from to zero r s raw bs hv hr hs e =
        let (raw', enc, dec) = decode-encode_v_zero E R hex rlp t from to r s bs in
        let same : raw' ≡ raw = ok_injective (sym enc ∙ e) in
        inl (refl, subst (λ (b : Bytes). decode_signed_tx E R b ≡ panic) same dec)
    encoded-DecodesTo t from to (suc v) r s raw bs hv hr hs e =
        let (raw', enc, dec) =
          decode-encode_signed E R hex rlp t from to (suc v) r s bs (omega arith) hv hr hs in
        let same : raw' ≡ raw = ok_injective (sym enc ∙ e) in inr (omega arith, rw same at dec)

    module _ {K W : Type 0} (S : KeyStore K) (H : Holds K W) (c : Client W) where
      -- The transaction t from a sender was signed by the manager m as the defaults left it, and the
      -- signed bytes went to the node in the world w after signing.
      pub record Delivered (st : TxState W) (hash : Hash) (t : Complete) (from : Option Address)
          (to : Address) : Type 0 where
        pub m : AccountManager K
        pub raw : Bytes
        pub w : W
        pub is_m : m ≡ H.get (apply_unsigned_transaction_default E (some c) st).1.world
        pub is_w :
            w
            ≡ ((operator E R S H).sign_transaction
                (complete_tx t from to)
                (apply_unsigned_transaction_default E (some c) st).1.world).1
        pub signed : Signed E R S m (complete_tx t from to) raw
        pub sent : Posted E c.rpc_requester raw w hash
        pub decodes : DecodesTo raw t to signed.v signed.r signed.s

      -- When SendTransaction of a client with the SDK's own account manager returns a hash, and the
      -- defaults left a transaction with all numbers set and not negative and with a recipient, the node
      -- answered the hash to the call cfx_sendRawTransaction on the hex spelling of bytes from which
      -- SignedTransaction.Decode makes that transaction, without the sender and with the recipient
      -- respelled, and the keystore's signature of its keccak hash by the account found for its sender,
      -- with r and s without their leading zero bytes; if the v of the signature is 0 it panics on them.
      -- The keystore's signatures are assumed to be made of bytes.
      pub send_transaction-Delivered :
          (st : TxState W) (hash : Hash) (t : Complete) (from : Option Address) (to : Address)
          → c.account_manager ≡ some (operator E R S H)
          → (send_transaction E c st).0 ≡ ok hash
          → (apply_unsigned_transaction_default E (some c) st).1.tx ≡ complete_tx t from to
          → AllBytes t.tx_data
          → SignsBytes S
          → Delivered st hash t from to
      send_transaction-Delivered st hash t from to managed e complete bs sig_bytes =
          let o = send_transaction-SentSigned E R S H c st hash managed e in
          let same = o.filled ∙ complete in
          let g : Signed E R S o.m (complete_tx t from to) o.raw =
            subst (λ (u : UnsignedTransaction). Signed E R S o.m u o.raw) same o.signed in
          let whole = sig_bytes o.m.ks g.signer (E.keccak256 g.rlp) g.sig g.is_sig in
          record {
            m = o.m;
            raw = o.raw;
            w = o.w;
            is_m = o.is_m;
            is_w =
                o.is_w
                ∙ ap
                    (λ (u : UnsignedTransaction).
                      ((operator E R S H).sign_transaction u
                        (apply_unsigned_transaction_default E (some c) st).1.world).1)
                    same;
            signed = g;
            sent = o.sent;
            decodes =
                encoded-DecodesTo t from to g.v g.r g.s o.raw bs
                  (All-get_elem? (λ b. b < 256) 64 g.sig g.v whole g.is_v)
                  (subst AllBytes (sym g.is_r) (All-take (λ b. b < 256) 32 g.sig whole))
                  (subst AllBytes (sym g.is_s) (
                    All-take (λ b. b < 256) 32 (drop 32 g.sig)
                      (All-drop (λ b. b < 256) 32 g.sig whole)))
                  g.encoded;
          }
