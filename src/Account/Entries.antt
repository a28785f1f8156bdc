-- ===== src/Account/Entries.antt =====
-- The entries of the dictionary of account.go, and what a new one changes.
pub mod Order
pub mod Directory
use go_conflux_sdk.Base.{
  ◌≡◌, some, List, [], ◌∷◌, arith, Text, All, text_eq, text_eq_iff, text_eq_refl, inl, inr,
  Bool-cases,
}
use go_conflux_sdk.Base.Dict.{Dict, lookup, lookup-insert}
use go_conflux_sdk.Result.{Result, ok}
use go_conflux_sdk.Ethereum.{Ethereum}
use go_conflux_sdk.Utils.{to_cfx_general_address}
use go_conflux_sdk.Types.Address.{Address}
use go_conflux_sdk.Types.Rlp.{Rlp}
use go_conflux_sdk.Account.Keys.{Account, KeyStore}
use go_conflux_sdk.Account.{AccountManager, remember, remember_all, new_account_manager}

module _ (E : Ethereum) where
  abbrev pub cfx : Account → Address
  cfx a = to_cfx_general_address E a.address

  -- The dictionary has an account for the address of this one.
  abbrev pub Known : Dict Account → Account → Type 0
  Known dic a = (b : Account) × (lookup (cfx a) dic ≡ some b)

  -- An entry stands under the general address of its account.
  abbrev pub IsKeyed : Dict Account → Type 0
  IsKeyed dic = (k : Text) (a : Account) → lookup k dic ≡ some a → cfx a ≡ k

pub All-mono :
    (P Q : Account → Type 0) (xs : List Account) → ((a : Account) → P a → Q a) → All P xs → All Q xs
All-mono P Q [] f h = tt
All-mono P Q (x ∷ xs) f h = (f x h.0, All-mono P Q xs f h.1)

pub ok_inj : {a b : Account} → ◌≡◌ {A = Result Account} (ok a) (ok b) → a ≡ b
ok_inj e = cc

module _ {K : Type 0} (E : Ethereum) (R : Rlp) (S : KeyStore K) where
  -- Every account of the keystore has an entry, and entries stand under their own addresses.
  pub record IsSound (m : AccountManager K) : Type 0 where
    pub keyed : IsKeyed E m.cfx_address_dic
    pub covers : All (Known E m.cfx_address_dic) (S.accounts m.ks)

  pub remember-IsKeyed :
      (a : Account) (dic : Dict Account) → IsKeyed E dic → IsKeyed E (remember E R S a dic)
  unfolding remember
  remember-IsKeyed a dic h k b e =
      ground (arith, lookup-insert (cfx E a) k a dic, text_eq_iff (cfx E a) k, h k b)

  pub remember-Known :
      (a : Account) (dic : Dict Account) (b : Account)
      → Known E dic b
      → Known E (remember E R S a dic) b
  unfolding remember
  remember-Known a dic b (c, e) = elim (Bool-cases (text_eq (cfx E a) (cfx E b))) [
    | inl same ↦ (a, rw (lookup-insert (cfx E a) (cfx E b) a dic, same))
    | inr other ↦ (c, rw (lookup-insert (cfx E a) (cfx E b) a dic, other) e)
  ]

  pub remember_self : (a : Account) (dic : Dict Account) → Known E (remember E R S a dic) a
  unfolding remember
  remember_self a dic = (a, rw (lookup-insert (cfx E a) (cfx E a) a dic, text_eq_refl (cfx E a)))

  pub remember_all-IsKeyed :
      (xs : List Account) (dic : Dict Account)
      → IsKeyed E dic
      → IsKeyed E (remember_all E R S xs dic)
  unfolding remember_all
  remember_all-IsKeyed [] dic h = h
  remember_all-IsKeyed (x ∷ xs) dic h =
      remember_all-IsKeyed xs (remember E R S x dic) (remember-IsKeyed x dic h)

  pub remember_all-Known :
      (xs : List Account) (dic : Dict Account) (b : Account)
      → Known E dic b
      → Known E (remember_all E R S xs dic) b
  unfolding remember_all
  remember_all-Known [] dic b h = h
  remember_all-Known (x ∷ xs) dic b h =
      remember_all-Known xs (remember E R S x dic) b (remember-Known x dic b h)

  pub remember_all_covers :
      (xs : List Account) (dic : Dict Account) → All (Known E (remember_all E R S xs dic)) xs
  unfolding remember_all
  remember_all_covers [] dic = tt
  remember_all_covers (x ∷ xs) dic = (
    remember_all-Known xs (remember E R S x dic) x (remember_self x dic),
    remember_all_covers xs (remember E R S x dic),
  )

  pub new_account_manager-IsSound : (k : K) → IsSound (new_account_manager E R S k)
  unfolding new_account_manager
  new_account_manager-IsSound k = record {
    keyed = remember_all-IsKeyed (S.accounts k) [] (λ j a e. unfold lookup in cc e);
    covers = remember_all_covers (S.accounts k) [];
  }
