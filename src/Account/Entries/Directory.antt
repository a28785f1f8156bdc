-- ===== src/Account/Entries/Directory.antt =====
-- A keystore directory as a set of accounts, without the order in which the keystore lists them, and
-- what NewAccountManager of account.go makes of it.
use mathlib.Core.Quot.{Setoid, Quotient, Quotient-set}
use mathlib.Core.Quot.Quotient
use go_conflux_sdk.Base.{
  ◌≡◌, refl, sym, ◌∙◌, ap, true, ◌↔◌, inl, inr, Option, none, some, List, [], subst, arith,
}
use go_conflux_sdk.Base.Dict.{lookup}
use go_conflux_sdk.Ethereum.{Ethereum}
use go_conflux_sdk.Types.Address.{Address}
use go_conflux_sdk.Types.Rlp.{Rlp}
use go_conflux_sdk.Account.Keys.{Account, KeyStore}
use go_conflux_sdk.Account.{remember_all, new_account_manager, account}
use go_conflux_sdk.Account.Entries.{cfx}
use go_conflux_sdk.Account.Entries.Order.{
  among, SameAccounts, IsSeparate, remember_all-Lacks, remember_all-among, remember_all-order,
  holder,
}

Account-set : IsSet Account
Account-set = hlevel

pub found_set : IsSet (Option Account)
found_set = hlevel Account-set

some_injective : {a b : Account} → some a ≡ some b → a ≡ b
some_injective e = cc

some-none : {a : Account} → ◌≡◌ {A = Option Account} (some a) none → ⊥
some-none e = cc e

nothing : (address : Address) → ◌≡◌ {A = Option Account} (lookup address []) none
unfolding lookup
nothing address = refl

module _ {K : Type 0} (E : Ethereum) (R : Rlp) (S : KeyStore K) where
  -- The accounts of a directory, each the only one with its general address.
  abbrev Listing : Type 0
  Listing = (xs : List Account) × IsSeparate E R S xs

  abbrev same_accounts : Setoid {0, 0} Listing
  same_accounts = record {
    r = λ x y. SameAccounts x.0 y.0;
    iseqv = record {
      refl = λ x a. refl;
      symm = λ x y h a. sym (h a);
      trans = λ x y z h g a. h a ∙ g a;
    };
  }

  abbrev pub Directory : Type 0
  Directory = Quotient same_accounts

  abbrev pub directory : (k : K) → IsSeparate E R S (S.accounts k) → Directory
  directory k sep = Quotient.mk same_accounts (S.accounts k, sep)

  -- The account that a manager finds.
  abbrev found : Listing → Address → Option Account
  found x address = lookup address (remember_all E R S x.0 [])

  unfoldable pub find : Directory → Address → Option Account
  find d address =
      Quotient.lift same_accounts found_set (λ x. found x address)
        (λ x y h. remember_all-order E R S address x.0 y.0 x.1 h) d

  among-found : (x : Listing) (a : Account) → (among a x.0 ≡ true) ↔ (found x (cfx E a) ≡ some a)
  among-found x a = (
    λ m. remember_all-among E R S a x.0 [] x.1 m,
    λ e. elim (holder E R S (cfx E a) x.0) [
      | inl (b, m, same) ↦
          let b_found : found x (cfx E b) ≡ some b = remember_all-among E R S b x.0 [] x.1 m in
          let b_a : b ≡ a = some_injective (sym b_found ∙ ap (found x) same ∙ e) in
          subst (λ (c : Account). among c x.0 ≡ true) b_a m
      | inr lacks ↦
          absurd (
            some-none (sym e ∙ remember_all-Lacks E R S (cfx E a) x.0 [] lacks ∙ nothing (cfx E a)))
    ],
  )

  -- Lists in which the same accounts are found hold the same accounts.
  found-SameAccounts :
      (x y : Listing)
      → ((address : Address) → found x address ≡ found y address)
      → SameAccounts x.0 y.0
  found-SameAccounts x y h a = ground (arith, among-found x a, among-found y a, h (cfx E a))

  find-injective :
      (d d' : Directory) → ((address : Address) → find d address ≡ find d' address) → d ≡ d'
  unfolding find Quotient.lift
  find-injective d d' =
      Quotient.induction_on₂ same_accounts same_accounts
        {motive = λ d d'. ((address : Address) → find d address ≡ find d' address) → d ≡ d'}
        (λ d d'. hlevel (Quotient-set same_accounts)) d d'
        λ x y h. Quotient.sound same_accounts (found-SameAccounts x y h)

  -- The managers made from two keystore directories, in each of which no two accounts have one general
  -- address, find the same account for every address exactly if the directories are the same, without
  -- the order in which the keystore lists their accounts and how often.
  pub new_account_manager-Directory :
      (k k' : K) (sep : IsSeparate E R S (S.accounts k)) (sep' : IsSeparate E R S (S.accounts k'))
      → ((address : Address)
          → account E R S address (new_account_manager E R S k)
            ≡ account E R S address (new_account_manager E R S k'))
        ↔ (directory k sep ≡ directory k' sep')
  unfolding new_account_manager account find Quotient.lift
  new_account_manager-Directory k k' sep sep' = (
    find-injective (directory k sep) (directory k' sep'),
    λ e address. ap (λ d. find d address) e,
  )
