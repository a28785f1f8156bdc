-- ===== src/Account/Entries/Order.antt =====
-- NewAccountManager of account.go does not depend on the order in which the keystore lists accounts.
use go_conflux_sdk.Base.{
  ◌≡◌, refl, sym, ap, subst, ◌∙◌, Bool, true, false, ◌&&◌, ◌||◌, ◌≢◌, ◌↔◌, ◌⊎◌, inl, inr, some,
  List, [], ◌∷◌, arith, text_eq, text_eq_iff, text_eq_refl, Bool-cases,
}
use go_conflux_sdk.Base.Dict.{Dict, lookup, lookup-insert}
use go_conflux_sdk.Ethereum.{Ethereum}
use go_conflux_sdk.Types.Address.{Address}
use go_conflux_sdk.Types.Rlp.{Rlp}
use go_conflux_sdk.Account.Keys.{Account, KeyStore}
use go_conflux_sdk.Account.{remember, remember_all, new_account_manager, account}
use go_conflux_sdk.Account.Entries.{cfx}

-- Equality of accounts.
abbrev pub same_account : Account → Account → Bool
same_account a b = text_eq a.address b.address && text_eq a.url b.url

pub same_account_iff : (a b : Account) → (same_account a b ≡ true) ↔ (a ≡ b)
same_account_iff a b = (
  λ h. ground (arith, h, text_eq_iff a.address b.address, text_eq_iff a.url b.url),
  λ e. ground (arith, e, text_eq_iff a.address b.address, text_eq_iff a.url b.url),
)

unfoldable pub among : Account → List Account → Bool
among a [] = false
among a (x ∷ xs) = same_account x a || among a xs

-- Two lists of the same accounts, in any order.
abbrev pub SameAccounts : List Account → List Account → Type 0
SameAccounts xs ys = (a : Account) → among a xs ≡ among a ys

pub head_among : (x : Account) (xs : List Account) → among x (x ∷ xs) ≡ true
unfolding among
head_among x xs = ground (arith, text_eq_refl x.address, text_eq_refl x.url)

later : (x b : Account) (xs : List Account) → among b xs ≡ true → among b (x ∷ xs) ≡ true
unfolding among
later x b xs m = ground arith

module _ {K : Type 0} (E : Ethereum) (R : Rlp) (S : KeyStore K) where
  -- No two accounts have the same general address.
  abbrev pub IsSeparate : List Account → Type 0
  IsSeparate xs =
      (a b : Account) → among a xs ≡ true → among b xs ≡ true → cfx E a ≡ cfx E b → a ≡ b

  -- No account has this general address.
  abbrev pub Lacks : Address → List Account → Type 0
  Lacks k xs = (b : Account) → among b xs ≡ true → cfx E b ≢ k

  remember_other :
      (k : Address) (x : Account) (dic : Dict Account)
      → cfx E x ≢ k
      → lookup k (remember E R S x dic) ≡ lookup k dic
  unfolding remember
  remember_other k x dic h =
      ground (arith, lookup-insert (cfx E x) k x dic, text_eq_iff (cfx E x) k)

  pub remember_all-Lacks :
      (k : Address) (xs : List Account) (dic : Dict Account)
      → Lacks k xs
      → lookup k (remember_all E R S xs dic) ≡ lookup k dic
  unfolding remember_all among
  remember_all-Lacks k [] dic h = refl
  remember_all-Lacks k (x ∷ xs) dic h =
      remember_all-Lacks k xs (remember E R S x dic) (λ b m. h b (later x b xs m))
      ∙ remember_other k x dic (h x (head_among x xs))

  remember_found :
      (x : Account) (dic : Dict Account) → lookup (cfx E x) (remember E R S x dic) ≡ some x
  unfolding remember
  remember_found x dic =
      ground (arith, lookup-insert (cfx E x) (cfx E x) x dic, text_eq_refl (cfx E x))

  -- The account with a general address that is only its own is the one that is found.
  pub remember_all-among :
      (a : Account) (xs : List Account) (dic : Dict Account)
      → IsSeparate xs
      → among a xs ≡ true
      → lookup (cfx E a) (remember_all E R S xs dic) ≡ some a
  unfolding remember_all among
  remember_all-among a [] dic sep m = absurd (cc m)
  remember_all-among a (x ∷ xs) dic sep m = elim (Bool-cases (among a xs)) [
    | inl rest ↦
        remember_all-among a xs (remember E R S x dic)
          (λ b c hb hc. sep b c (later x b xs hb) (later x c xs hc)) rest
    | inr not_rest ↦
        let same : x ≡ a = (same_account_iff x a).0 (ground (arith, m, not_rest)) in
        remember_all-Lacks (cfx E a) xs (remember E R S x dic) (λ b hb e.
          let other : b ≡ a = sep b a (later x b xs hb) m e in
          let moved : among a xs ≡ true = subst (λ (c : Account). among c xs ≡ true) other hb in
          cc (sym moved ∙ not_rest))
        ∙ subst (λ (y : Account). lookup (cfx E y) (remember E R S x dic) ≡ some y) same
            (remember_found x dic)
  ]

  -- Some account has this general address, or none.
  pub holder :
      (k : Address) (xs : List Account)
      → ((a : Account) × (among a xs ≡ true) × (cfx E a ≡ k)) ⊎ Lacks k xs
  unfolding among
  holder k [] = inr (λ b m. cc m)
  holder k (x ∷ xs) = elim (Bool-cases (text_eq (cfx E x) k)) [
    | inl e ↦ inl (x, head_among x xs, (text_eq_iff (cfx E x) k).0 e)
    | inr ne ↦ elim (holder k xs) [
      | inl (a, m, e) ↦ inl (a, later x a xs m, e)
      | inr lacks ↦ inr (λ b m e. elim (Bool-cases (among b xs)) [
        | inl rest ↦ lacks b rest e
        | inr not_rest ↦
            let same : x ≡ b = (same_account_iff x b).0 (ground (arith, m, not_rest)) in
            cc (sym ne ∙ (text_eq_iff (cfx E x) k).1 (ap (cfx E) same ∙ e))
      ])
    ]
  ]

  pub remember_all-order :
      (k : Address) (xs ys : List Account)
      → IsSeparate xs
      → SameAccounts xs ys
      → lookup k (remember_all E R S xs []) ≡ lookup k (remember_all E R S ys [])
  remember_all-order k xs ys sep same =
      let sep' : IsSeparate ys = λ a b ha hb. sep a b (same a ∙ ha) (same b ∙ hb) in
      elim (holder k xs) [
        | inl (a, m, e) ↦
            subst
              (λ (j : Address).
                lookup j (remember_all E R S xs []) ≡ lookup j (remember_all E R S ys []))
              e
              (remember_all-among a xs [] sep m
                ∙ sym (remember_all-among a ys [] sep' (sym (same a) ∙ m)))
        | inr lacks ↦
            remember_all-Lacks k xs [] lacks
            ∙ sym (remember_all-Lacks k ys [] (λ b m. lacks b (same b ∙ m)))
      ]

  -- Two keystore directories with the same accounts, each pair of equal general addresses among them
  -- being of one account, give managers that find the same account for every address, in whatever
  -- order and however often the directories list the accounts.
  pub new_account_manager-order :
      (k k' : K)
      → IsSeparate (S.accounts k)
      → SameAccounts (S.accounts k) (S.accounts k')
      → (address : Address)
      → account E R S address (new_account_manager E R S k)
        ≡ account E R S address (new_account_manager E R S k')
  unfolding new_account_manager account
  new_account_manager-order k k' sep same address =
      remember_all-order address (S.accounts k) (S.accounts k') sep same
