-- ===== src/Account.antt =====
-- account.go: the account manager, over a keystore of go-ethereum.
pub mod Keys
pub mod Calls
pub mod Ledger
pub mod Entries
pub mod Invariant
pub mod Faults
pub mod Signing
pub mod Signed
pub mod Operator
use go_conflux_sdk.Base.{
  ◌≡◌, ℕ, Bool, true, false, Option, none, some, List, [], ◌∷◌, Bytes, Text, map, String, get_elem?,
  take, drop, length, ltb, if◌then◌else◌,
}
use go_conflux_sdk.Base.Int.{ℤ}
use go_conflux_sdk.Base.Dict.{Dict, lookup, insert}
use go_conflux_sdk.Errors.{Error, message, account_not_found}
use go_conflux_sdk.Result.{Result, ok, err, panic, deref}
use go_conflux_sdk.Exec.{Exec, continue, ◌>>=◌, ◌>>◌, pure, lift, fail, gets, wrapping}
use go_conflux_sdk.Ethereum.{Ethereum}
use go_conflux_sdk.Utils.{to_cfx_general_address}
use go_conflux_sdk.Types.Address.{Address}
use go_conflux_sdk.Types.Transaction.{UnsignedTransaction, SignedTransaction}
use go_conflux_sdk.Types.Rlp.{Rlp, transaction_hash, encode_with_signature}
use Keys.{Account, KeyStore}

-- K is the state of the keystore.
pub record AccountManager (K : Type 0) : Type 0 where
  pub ks : K
  pub cfx_address_dic : Dict Account

-- A call of the keystore.
pub on_ks : {K A : Type 0} → Exec K A → Exec (AccountManager K) A
on_ks f m = ((f m.ks).0, record m { ks = (f m.ks).1 })

-- A read of the keystore that may fail.
unfoldable pub read_ks : {K A : Type 0} → (K → Result A) → Exec (AccountManager K) A
read_ks f m = (f m.ks, m)

-- sig[64], sig[0:32], sig[32:64]; out of range for a shorter signature
unfoldable pub parts_of : Option ℕ → Bytes → Result (ℕ × Bytes × Bytes)
parts_of none sig = panic
parts_of (some v) sig = ok (v, take 32 sig, take 32 (drop 32 sig))

unfoldable pub split_signature : Bytes → Result (ℕ × Bytes × Bytes)
unfolding parts_of
split_signature sig = parts_of (get_elem? sig 64) sig

abbrev pub from_is_empty : Error
from_is_empty = message "From is empty, it is necessary for sign"

module _ {K : Type 0} (E : Ethereum) (R : Rlp) (S : KeyStore K) where
  pub remember : Account → Dict Account → Dict Account
  remember a dic = insert (to_cfx_general_address E a.address) a dic

  pub remember_all : List Account → Dict Account → Dict Account
  unfolding remember
  remember_all [] dic = dic
  remember_all (a ∷ rest) dic = remember_all rest (remember a dic)

  -- NewAccountManager, on the keystore that stands in the directory
  pub new_account_manager : K → AccountManager K
  unfolding remember_all
  new_account_manager k = record { ks = k; cfx_address_dic = remember_all (S.accounts k) [] }

  pub store : Account → Exec (AccountManager K) Address
  unfolding remember
  store a m = (
    ok (to_cfx_general_address E a.address),
    record m { cfx_address_dic = remember a m.cfx_address_dic },
  )

  pub create : Text → Exec (AccountManager K) Address
  unfolding on_ks store
  create passphrase = do
    a ← wrapping "create account with passphrase %+v error" (on_ks (S.new_account passphrase))
    store a

  unless_known : Bytes → Exec (AccountManager K) (Unit {0})
  unless_known address m =
      if S.has_address m.ks address
      then (err (message "account already exists: %s"), m)
      else (ok tt, m)

  pub import_account : Text → Text → Text → Exec (AccountManager K) Address
  unfolding on_ks store unless_known
  import_account key_file passphrase new_passphrase = do
    key_json ← wrapping "read file %+v error" (lift (S.read_file key_file))
    address ←
        wrapping "decrypt key %+v with passphrase %+v error"
          (lift (S.decrypt_key key_json passphrase))
    unless_known address
    a ←
        wrapping "import account by keystore {%+v}, passphrase %+v, new passphrase %+v error"
          (on_ks (S.import_key key_json passphrase new_passphrase))
    store a

  unfoldable pub account : Address → AccountManager K → Option Account
  account address m = lookup address m.cfx_address_dic

  -- The account of an address, or AccountNotFoundError.
  unfoldable pub found : Address → Exec (AccountManager K) Account
  unfolding account
  found address m = elim (account address m) [
    | none ↦ (err (account_not_found address), m)
    | some a ↦ (ok a, m)
  ]

  pub delete : Address → Text → Exec (AccountManager K) (Unit {0})
  unfolding account on_ks
  delete address passphrase m = elim (account address m) [
    | none ↦ (ok tt, m)
    | some a ↦ on_ks (S.delete a passphrase) m
  ]

  pub update : Address → Text → Text → Exec (AccountManager K) (Unit {0})
  unfolding on_ks
  update address passphrase new_passphrase = do
    a ← found address
    on_ks (S.update a passphrase new_passphrase)

  -- List
  pub list_addresses : AccountManager K → List Address
  list_addresses m = map (λ a. to_cfx_general_address E a.address) (S.accounts m.ks)

  first_address : List Address → Result Address
  first_address [] = err (message "no account exist in keystore directory")
  first_address (a ∷ rest) = ok a

  unfoldable pub get_default : Exec (AccountManager K) Address
  unfolding list_addresses first_address
  get_default m = (first_address (list_addresses m), m)

  pub unlock : Address → Text → Exec (AccountManager K) (Unit {0})
  unfolding on_ks
  unlock address passphrase = do a ← found address; on_ks (S.unlock a passphrase)

  pub unlock_default : Text → Exec (AccountManager K) (Unit {0})
  unfolding get_default unlock
  unlock_default passphrase = do
    address ← wrapping "get default account error" get_default
    unlock address passphrase

  pub timed_unlock : Address → Text → ℤ → Exec (AccountManager K) (Unit {0})
  unfolding on_ks
  timed_unlock address passphrase timeout = do
    a ← found address
    on_ks (S.timed_unlock a passphrase timeout)

  pub timed_unlock_default : Text → ℤ → Exec (AccountManager K) (Unit {0})
  unfolding get_default timed_unlock
  timed_unlock_default passphrase timeout = do
    address ← wrapping "get default account error" get_default
    timed_unlock address passphrase timeout

  pub lock : Address → Exec (AccountManager K) (Unit {0})
  unfolding on_ks
  lock address = on_ks (S.lock (E.hex_to_address address))

  -- tx.From, which is necessary for signing
  unfoldable pub sender : UnsignedTransaction → Result Address
  sender tx = elim tx.from [ none ↦ err from_is_empty | some from ↦ ok from ]

  unfoldable pub sign_transaction : UnsignedTransaction → Exec (AccountManager K) Bytes
  unfolding sender split_signature read_ks
  sign_transaction tx = do
    from ← lift (sender tx)
    a ← found from
    hash ← wrapping "calculate tx hash of %+v error" (lift (transaction_hash E R tx))
    sig ← wrapping "sign tx hash {%+x} by account %+v error" (read_ks (λ k. S.sign_hash k a hash))
    parts ← lift (split_signature sig)
    wrapping "encode tx %+v with signature %+v error"
        (lift (encode_with_signature E R tx parts.0 parts.1 parts.2))

  -- SignAndEcodeTransactionWithPassphrase
  pub sign_and_encode : UnsignedTransaction → Text → Exec (AccountManager K) Bytes
  unfolding sender split_signature read_ks
  sign_and_encode tx passphrase = do
    from ← lift (sender tx)
    a ← found from
    hash ← wrapping "calculate tx hash of %+v error" (lift (transaction_hash E R tx))
    sig ←
        wrapping "sign tx hash {%+x} by account %+v with passphrase %+v error"
          (read_ks (λ k. S.sign_hash_with_passphrase k a passphrase hash))
    parts ← lift (split_signature sig)
    wrapping "encode tx %+v with signature %+v error"
        (lift (encode_with_signature E R tx parts.0 parts.1 parts.2))

  -- SignTransactionWithPassphrase
  pub sign_with_passphrase : UnsignedTransaction → Text → Exec (AccountManager K) SignedTransaction
  unfolding sender split_signature read_ks
  sign_with_passphrase tx passphrase = do
    from ← lift (sender tx)
    a ← found from
    hash ← wrapping "calculate tx hash of %+v error" (lift (transaction_hash E R tx))
    sig ←
        wrapping "sign tx hash {%+x} by account %+v with passphrase %+v error"
          (read_ks (λ k. S.sign_hash_with_passphrase k a passphrase hash))
    parts ← lift (split_signature sig)
    pure (record { unsigned = tx; v = parts.0; r = parts.1; s = parts.2 })

  pub sign : UnsignedTransaction → Text → Exec (AccountManager K) (ℕ × Bytes × Bytes)
  unfolding sender split_signature read_ks
  sign tx passphrase = do
    from ← lift (sender tx)
    a ← found from
    hash ← wrapping "calculate tx hash of %+v error" (lift (transaction_hash E R tx))
    sig ←
        wrapping "sign tx hash {%+x} by account %+v with passphrase %+v error"
          (read_ks (λ k. S.sign_hash_with_passphrase k a passphrase hash))
    lift (split_signature sig)

  pub found-none :
      (addr : Address) (m : AccountManager K)
      → account addr m ≡ none
      → found addr m ≡ (err (account_not_found addr), m)
  unfolding found
  found-none addr m e = rw (e, found)

  pub found-some :
      (addr : Address) (a : Account) (m : AccountManager K)
      → account addr m ≡ some a
      → found addr m ≡ (ok a, m)
  unfolding found
  found-some addr a m e = rw (e, found)
