-- ===== src/Account/Signed.antt =====
-- What SignTransaction of account.go has done when it succeeds.
use go_conflux_sdk.Base.{
  ◌≡◌, refl, sym, ap, ◌∙◌, subst, ℕ, Option, none, some, Bytes, get_elem?, take, drop,
}
use go_conflux_sdk.Result.{Result, ok, err, panic, wrap, ok_injective}
use go_conflux_sdk.Exec.Gives.{continue_ok, wrap_ok}
use go_conflux_sdk.Ethereum.{Ethereum}
use go_conflux_sdk.Types.Address.{Address}
use go_conflux_sdk.Types.Transaction.{UnsignedTransaction}
use go_conflux_sdk.Types.Rlp.{
  Rlp, unsigned_to_struct, encode_unsigned_tx, transaction_hash, encode_with_signature,
}
use go_conflux_sdk.Account.Keys.{Account, KeyStore}
use go_conflux_sdk.Account.{
  AccountManager, found-none, found-some, read_ks, parts_of, split_signature, account, found,
  sender, sign_transaction,
}

module _ {K : Type 0} (E : Ethereum) (R : Rlp) (S : KeyStore K) where
  -- raw is tx with the keystore's signature of the keccak hash of its RLP form by the account of its
  -- sender; r, s and v are bytes 0 to 31, 32 to 63 and 64 of the signature.
  pub record Signed (m : AccountManager K) (tx : UnsignedTransaction) (raw : Bytes) : Type 0 where
    pub from : Address
    pub signer : Account
    pub rlp : Bytes
    pub sig : Bytes
    pub v : ℕ
    pub r : Bytes
    pub s : Bytes
    pub is_from : tx.from ≡ some from
    pub is_signer : account E R S from m ≡ some signer
    pub is_rlp : R.encode_unsigned (unsigned_to_struct E tx) ≡ ok rlp
    pub is_sig : S.sign_hash m.ks signer (E.keccak256 rlp) ≡ ok sig
    pub is_v : get_elem? sig 64 ≡ some v
    pub is_r : r ≡ take 32 sig
    pub is_s : s ≡ take 32 (drop 32 sig)
    pub encoded : encode_with_signature E R tx v r s ≡ ok raw

  -- The parts of a signature that is long enough.
  parts_ok :
      (o : Option ℕ) (sig : Bytes) (vrs : ℕ × Bytes × Bytes)
      → get_elem? sig 64 ≡ o
      → parts_of o sig ≡ ok vrs
      → (get_elem? sig 64 ≡ some vrs.0) × (vrs.1 ≡ take 32 sig) × (vrs.2 ≡ take 32 (drop 32 sig))
  unfolding parts_of
  parts_ok none sig vrs at e = absurd (cc e)
  parts_ok (some b) sig vrs at e =
      subst
        (λ (p : ℕ × Bytes × Bytes).
          (get_elem? sig 64 ≡ some p.0) × (p.1 ≡ take 32 sig) × (p.2 ≡ take 32 (drop 32 sig)))
        (ok_injective e) (at, refl, refl)

  split_ok :
      (sig : Bytes) (vrs : ℕ × Bytes × Bytes)
      → split_signature sig ≡ ok vrs
      → (get_elem? sig 64 ≡ some vrs.0) × (vrs.1 ≡ take 32 sig) × (vrs.2 ≡ take 32 (drop 32 sig))
  unfolding split_signature
  split_ok sig vrs e = parts_ok (get_elem? sig 64) sig vrs refl e

  -- The hash of a transaction is that of its RLP form.
  hash_ok :
      (tx : UnsignedTransaction) (r : Result Bytes) (hash : Bytes)
      → R.encode_unsigned (unsigned_to_struct E tx) ≡ r
      → transaction_hash E R tx ≡ ok hash
      → (rlp : Bytes) × (R.encode_unsigned (unsigned_to_struct E tx) ≡ ok rlp)
        × (E.keccak256 rlp ≡ hash)
  unfolding transaction_hash encode_unsigned_tx
  hash_ok tx (ok rlp) hash at e = (rlp, at, ok_injective (rw at at e))
  hash_ok tx (err x) hash at e = absurd (cc (rw at at e))
  hash_ok tx panic hash at e = absurd (cc (rw at at e))

  sender_ok :
      (tx : UnsignedTransaction) (from : Address)
      → sender E R S tx ≡ ok from
      → (p : Option Address) → tx.from ≡ p
      → tx.from ≡ some from
  unfolding sender
  sender_ok tx from e none f = absurd (cc (rw f at e))
  sender_ok tx from e (some a) f =
      let g : sender E R S tx ≡ ok a = rw f refl in
      let same : a ≡ from = cc (sym g ∙ e) in f ∙ ap (λ (x : Address). some x) same

  found_ok :
      (addr : Address) (m : AccountManager K) (a : Account)
      → (found E R S addr m).0 ≡ ok a
      → (p : Option Account) → account E R S addr m ≡ p
      → (account E R S addr m ≡ some a) × (found E R S addr m ≡ (ok a, m))
  found_ok addr m a e none f =
      let g = ap (λ (o : Result Account × AccountManager K). o.0) (found-none E R S addr m f) in
      absurd (cc (sym g ∙ e))
  found_ok addr m a e (some b) f =
      let g = found-some E R S addr b m f in
      let same : b ≡ a = cc (sym (ap (λ (o : Result Account × AccountManager K). o.0) g) ∙ e) in
      (f ∙ ap (λ (x : Account). some x) same, g ∙ ap (λ (x : Account). (ok x, m)) same)

  -- When SignTransaction returns bytes, they are the encoding of the transaction with the signature that
  -- the keystore made of the transaction's hash with the account found for the sender.
  pub sign_transaction-Signed :
      (tx : UnsignedTransaction) (m : AccountManager K) (raw : Bytes)
      → (sign_transaction E R S tx m).0 ≡ ok raw
      → Signed m tx raw
  unfolding sign_transaction read_ks
  sign_transaction-Signed tx m raw e =
      let (from, is_from, e1) = continue_ok (sender E R S tx) m _ raw e in
      let (a, f, _) = continue_ok (found E R S from m).0 (found E R S from m).1 _ raw e1 in
      let (is_signer, g) = found_ok from m a f (account E R S from m) refl in
      let e2 = rw g at e1 in
      let (hash, h, e3) =
        continue_ok (wrap "calculate tx hash of %+v error" (transaction_hash E R tx)) m _ raw e2 in
      let (sig, k, e4) =
        continue_ok (wrap "sign tx hash {%+x} by account %+v error" (S.sign_hash m.ks a hash)) m _
          raw e3 in
      let (vrs, parts, e5) = continue_ok (split_signature sig) m _ raw e4 in
      let (rlp, is_rlp, is_hash) =
        hash_ok tx (R.encode_unsigned (unsigned_to_struct E tx)) hash refl (wrap_ok _ _ hash h) in
      let (is_v, is_r, is_s) = split_ok sig vrs parts in
      record {
        from = from;
        signer = a;
        rlp = rlp;
        sig = sig;
        v = vrs.0;
        r = vrs.1;
        s = vrs.2;
        is_from = sender_ok tx from is_from tx.from refl;
        is_signer = is_signer;
        is_rlp = is_rlp;
        is_sig =
            subst (λ (b : Bytes). S.sign_hash m.ks a b ≡ ok sig) (sym is_hash) (wrap_ok _ _ sig k);
        is_v = is_v;
        is_r = is_r;
        is_s = is_s;
        encoded = wrap_ok _ _ raw e5;
      }
