-- ===== src/Account/Faults.antt =====
-- Delete and Lock of account.go: what they leave behind.
use go_conflux_sdk.Base.{◌≡◌, ◌↔◌, ap, ◌∙◌, none, some, Bytes, Text, arith}
use go_conflux_sdk.Base.Int.{ℤ}
use go_conflux_sdk.Base.Dict.{lookup}
use go_conflux_sdk.Errors.{account_not_found}
use go_conflux_sdk.Result.{ok, err}
use go_conflux_sdk.Ethereum.{Ethereum, HexLaws, IsAddress}
use go_conflux_sdk.Utils.{to_cfx_general_address, general_bytes}
use go_conflux_sdk.Utils.General.{general_bytes-eq_self_iff, general_bytes-IsAddress, first_nibble}
use go_conflux_sdk.Types.Address.{Address}
use go_conflux_sdk.Types.Rlp.{Rlp}
use go_conflux_sdk.Account.Keys.{Account, KeyStore}
use go_conflux_sdk.Account.{
  AccountManager, on_ks, account, found-none, found-some, delete, update, unlock, timed_unlock,
  lock,
}

module _ {K : Type 0} (E : Ethereum) (R : Rlp) (S : KeyStore K) where
  -- An address that the manager does not know: Update, Unlock and TimedUnlock answer
  -- AccountNotFoundError, Delete answers no error, and each leaves the manager and its keystore alone.
  pub unknown_account :
      (m : AccountManager K) (addr : Address) (p q : Text) (t : ℤ)
      → account E R S addr m ≡ none
      → (update E R S addr p q m ≡ (err (account_not_found addr), m))
        × (unlock E R S addr p m ≡ (err (account_not_found addr), m))
        × (timed_unlock E R S addr p t m ≡ (err (account_not_found addr), m))
        × (delete E R S addr p m ≡ (ok tt, m))
  unfolding update unlock timed_unlock delete
  unknown_account m addr p q t e =
      let miss = found-none E R S addr m e in
      (rw (miss, update), rw (miss, unlock), rw (miss, timed_unlock), rw (e, delete))

  delete_dic :
      (m : AccountManager K) (addr : Address) (p : Text)
      → (delete E R S addr p m).1.cfx_address_dic ≡ m.cfx_address_dic
  unfolding delete on_ks
  delete_dic m addr p = ground arith

  delete_account :
      (m : AccountManager K) (addr other : Address) (p : Text)
      → account E R S other (delete E R S addr p m).1 ≡ account E R S other m
  unfolding account
  delete_account m addr other p = ap (lookup other) (delete_dic m addr p)

  -- Delete forgets no account: after it, whether it failed or not, every address is found as before,
  -- and an Update of the deleted account is passed to the keystore with the account that is gone,
  -- where the code promises AccountNotFoundError.
  pub delete_stale :
      (m : AccountManager K) (addr : Address) (a : Account) (p : Text)
      → account E R S addr m ≡ some a
      → ((other : Address) → account E R S other (delete E R S addr p m).1 ≡ account E R S other m)
        × ((q r : Text)
            → update E R S addr q r (delete E R S addr p m).1
              ≡ on_ks (S.update a q r) (delete E R S addr p m).1)
  unfolding update
  delete_stale m addr a p e = (
    λ other. delete_account m addr other p,
    λ q r.
        let hit =
          found-some E R S addr a (delete E R S addr p m).1 (delete_account m addr addr p ∙ e) in
        rw (hit, update),
  )

  module _ (hex : HexLaws E) where
    -- Lock does not look the account up: of an account known by its general address it locks, in the
    -- keystore, the bytes of the general address, and these are the account's own exactly if its first
    -- hex digit is 1.
    pub lock_general :
        (m : AccountManager K) (a : Account)
        → IsAddress a.address
        → (lock E R S (to_cfx_general_address E a.address) m
            ≡ on_ks (S.lock (general_bytes a.address)) m)
          × ((general_bytes a.address ≡ a.address) ↔ (first_nibble a.address ≡ 1))
    unfolding lock to_cfx_general_address
    lock_general m a h = (
      ap (λ (b : Bytes). on_ks (S.lock b) m)
          (hex.address-encode (general_bytes a.address) (general_bytes-IsAddress a.address h)),
      general_bytes-eq_self_iff a.address h,
    )
