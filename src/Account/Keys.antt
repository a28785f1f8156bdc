-- ===== src/Account/Keys.antt =====
-- The package accounts/keystore of go-ethereum and the file system, as account.go uses them: a
-- parameter of the model. K is the state of the keystore, its directory and its unlocked keys.
use go_conflux_sdk.Base.{◌≡◌, Bool, List, Bytes, Text, All}
use go_conflux_sdk.Base.Int.{ℤ}
use go_conflux_sdk.Result.{Result, ok}
use go_conflux_sdk.Exec.{Exec}

-- accounts.Account
pub record Account : Type 0 where
  pub address : Bytes
  pub url : Text

pub record KeyStore (K : Type 0) : Type 0 where
  pub accounts : K → List Account
  pub has_address : K → Bytes → Bool
  pub new_account : Text → Exec K Account
  pub import_key : Bytes → Text → Text → Exec K Account
  pub delete : Account → Text → Exec K (Unit {0})
  pub update : Account → Text → Text → Exec K (Unit {0})
  pub unlock : Account → Text → Exec K (Unit {0})
  pub timed_unlock : Account → Text → ℤ → Exec K (Unit {0})
  pub lock : Bytes → Exec K (Unit {0})
  pub sign_hash : K → Account → Bytes → Result Bytes
  pub sign_hash_with_passphrase : K → Account → Text → Bytes → Result Bytes
  -- keystore.DecryptKey: the address of the key
  pub decrypt_key : Bytes → Text → Result Bytes
  -- ioutil.ReadFile
  pub read_file : Text → Result Bytes

-- What the keystore documents of its list of accounts: only NewAccount and Import add to it, and they
-- add the account that they return; Delete may take one away; the others leave it as it is.
pub record KeyStoreLaws {K : Type 0} (S : KeyStore K) : Type 1 where
  pub new_law :
      (passphrase : Text) (k : K) (P : Account → Type 0)
      → All P (S.accounts k)
      → ((a : Account) → (S.new_account passphrase k).0 ≡ ok a → P a)
      → All P (S.accounts (S.new_account passphrase k).1)
  pub import_law :
      (key_json : Bytes) (passphrase new_passphrase : Text) (k : K) (P : Account → Type 0)
      → All P (S.accounts k)
      → ((a : Account) → (S.import_key key_json passphrase new_passphrase k).0 ≡ ok a → P a)
      → All P (S.accounts (S.import_key key_json passphrase new_passphrase k).1)
  pub delete_law :
      (a : Account) (passphrase : Text) (k : K) (P : Account → Type 0)
      → All P (S.accounts k)
      → All P (S.accounts (S.delete a passphrase k).1)
  pub update_law :
      (a : Account) (passphrase new_passphrase : Text) (k : K)
      → S.accounts (S.update a passphrase new_passphrase k).1 ≡ S.accounts k
  pub unlock_law :
      (a : Account) (passphrase : Text) (k : K)
      → S.accounts (S.unlock a passphrase k).1 ≡ S.accounts k
  pub timed_unlock_law :
      (a : Account) (passphrase : Text) (timeout : ℤ) (k : K)
      → S.accounts (S.timed_unlock a passphrase timeout k).1 ≡ S.accounts k
  pub lock_law : (a : Bytes) (k : K) → S.accounts (S.lock a k).1 ≡ S.accounts k
