-- ===== src/Account/Signing.antt =====
-- The signing methods of account.go against one another.
use go_conflux_sdk.Base.{ℕ, ◌≡◌, Bytes, Text, arith}
use go_conflux_sdk.Result.{ok, wrap}
use go_conflux_sdk.Exec.{continue}
use go_conflux_sdk.Ethereum.{Ethereum}
use go_conflux_sdk.Types.Transaction.{UnsignedTransaction, SignedTransaction}
use go_conflux_sdk.Types.Rlp.{Rlp, encode_signed_tx, encode_with_signature}
use go_conflux_sdk.Account.Keys.{KeyStore}
use go_conflux_sdk.Account.{AccountManager, sign, sign_with_passphrase, sign_and_encode}

module _ {K : Type 0} (E : Ethereum) (R : Rlp) (S : KeyStore K) where
  -- The three methods that sign with a passphrase agree on every outcome: the signed transaction is tx
  -- with the v, r and s of Sign, and the encoded one is the encoding of the signed transaction, with
  -- the same error or panic where signing has one.
  pub signers_agree :
      (tx : UnsignedTransaction) (p : Text) (m : AccountManager K)
      → (sign_with_passphrase E R S tx p m
          ≡ continue (sign E R S tx p m) (λ (vrs : ℕ × Bytes × Bytes) m'.
            (ok (record { unsigned = tx; v = vrs.0; r = vrs.1; s = vrs.2 }), m')))
        × (sign_and_encode E R S tx p m
            ≡ continue (sign_with_passphrase E R S tx p m) (λ (signed : SignedTransaction) m'.
              (wrap "encode tx %+v with signature %+v error" (encode_signed_tx E R signed), m')))
  unfolding sign sign_with_passphrase sign_and_encode encode_with_signature
  signers_agree tx p m = (ground arith, ground arith)
