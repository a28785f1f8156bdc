-- ===== src/Account/Ledger.antt =====
-- What account.go promises: a ledger that knows accounts by their general addresses. A call on an
-- address goes to the keystore with the account known for it, and an account that the keystore adds is
-- known from then on. How the dictionary is stored plays no part.
pub mod Refines
pub mod Traces
use go_conflux_sdk.Base.{
  Bool, Bytes, Option, none, some, List, [], ◌∷◌, Text, map, text_eq, if◌then◌else◌,
}
use go_conflux_sdk.Errors.{message, account_not_found}
use go_conflux_sdk.Result.{Result, ok, err}
use go_conflux_sdk.Exec.{Exec, ◌>>=◌, ◌>>◌, lift, wrapping}
use go_conflux_sdk.Ethereum.{Ethereum}
use go_conflux_sdk.Types.Address.{Address}
use go_conflux_sdk.Account.Keys.{Account, KeyStore}
use go_conflux_sdk.Account.Calls.{
  Op, creates, imports, deletes, updates, unlocks, unlocks_default, unlocks_timed,
  unlocks_default_timed, locks, done,
}
use go_conflux_sdk.Account.Entries.{cfx}

pub record Ledger (K : Type 0) : Type 0 where
  pub ks : K
  pub known : Address → Option Account

-- The account is known by its general address, in place of any other.
unfoldable pub knowing : Ethereum → Account → (Address → Option Account) → Address → Option Account
knowing E a known address = if text_eq (cfx E a) address then some a else known address

pub or_not_found : Address → Option Account → Result Account
or_not_found address none = err (account_not_found address)
or_not_found address (some a) = ok a

module _ {K : Type 0} where
  unfoldable pub keystore_call : {A : Type 0} → Exec K A → Exec (Ledger K) A
  keystore_call f l = ((f l.ks).0, record l { ks = (f l.ks).1 })

  unfoldable pub known_account : Address → Exec (Ledger K) Account
  unfolding or_not_found
  known_account address l = (or_not_found address (l.known address), l)

  -- A call of the keystore on the account of an address.
  unfoldable pub on_account : Address → (Account → Exec K (Unit {0})) → Exec (Ledger K) (Unit {0})
  unfolding known_account keystore_call
  on_account address f = do a ← known_account address; keystore_call (f a)

module _ {K : Type 0} (E : Ethereum) (S : KeyStore K) where
  unfoldable pub learn : Account → Exec (Ledger K) Address
  unfolding knowing
  learn a l = (ok (cfx E a), record l { known = knowing E a l.known })

  unfoldable pub unless_listed : Bytes → Exec (Ledger K) (Unit {0})
  unless_listed address l =
      if S.has_address l.ks address
      then (err (message "account already exists: %s"), l)
      else (ok tt, l)

  -- The key is read and decrypted, its address must be new, and then it is imported.
  unfoldable pub key_account : Text → Text → Text → Exec (Ledger K) Address
  unfolding keystore_call unless_listed learn
  key_account file passphrase new_passphrase = do
    json ← wrapping "read file %+v error" (lift (S.read_file file))
    address ←
        wrapping "decrypt key %+v with passphrase %+v error" (lift (S.decrypt_key json passphrase))
    unless_listed address
    a ←
        wrapping "import account by keystore {%+v}, passphrase %+v, new passphrase %+v error"
          (keystore_call (S.import_key json passphrase new_passphrase))
    learn a

  first_of : List Account → Result Address
  first_of [] = err (message "no account exist in keystore directory")
  first_of (a ∷ as') = ok (cfx E a)

  -- The account that the keystore lists first.
  unfoldable pub default_address : Exec (Ledger K) Address
  unfolding first_of
  default_address l = wrapping "get default account error" (lift (first_of (S.accounts l.ks))) l

  -- An address that is not known is no error for Delete.
  delete_known : Option Account → Text → Exec (Ledger K) (Unit {0})
  unfolding keystore_call
  delete_known none passphrase l = (ok tt, l)
  delete_known (some a) passphrase l = keystore_call (S.delete a passphrase) l

  unfoldable pub serve : Op → Exec (Ledger K) Text
  unfolding learn key_account on_account default_address delete_known keystore_call done
  serve (creates p) = do
    a ← wrapping "create account with passphrase %+v error" (keystore_call (S.new_account p))
    learn a
  serve (imports f p q) = key_account f p q
  serve (deletes address p) = done (λ l. delete_known (l.known address) p l)
  serve (updates address p q) = done (on_account address (λ a. S.update a p q))
  serve (unlocks address p) = done (on_account address (λ a. S.unlock a p))
  serve (unlocks_default p) =
      done (do address ← default_address; on_account address (λ a. S.unlock a p))
  serve (unlocks_timed address p t) = done (on_account address (λ a. S.timed_unlock a p t))
  serve (unlocks_default_timed p t) =
      done (do address ← default_address; on_account address (λ a. S.timed_unlock a p t))
  serve (locks address) = done (keystore_call (S.lock (E.hex_to_address address)))

  -- Of accounts with one general address, the one that stands last is known.
  unfoldable pub known_of : List Account → (Address → Option Account) → Address → Option Account
  unfolding knowing
  known_of [] known = known
  known_of (a ∷ rest) known = known_of rest (knowing E a known)

  -- The ledger of a keystore directory.
  unfoldable pub ledger_of : K → Ledger K
  unfolding known_of
  ledger_of k = record { ks = k; known = known_of (S.accounts k) (λ address. none) }
