-- ===== src/Account/Ledger/Traces.antt =====
-- Sequences of calls of the methods of account.go against the ledger.
use go_conflux_sdk.Base.{◌≡◌, refl, ap, ◌∙◌, Option, none, List, [], ◌∷◌, Text}
use go_conflux_sdk.Base.Dict.{Dict, lookup}
use go_conflux_sdk.Result.{Result}
use go_conflux_sdk.Ethereum.{Ethereum}
use go_conflux_sdk.Types.Address.{Address}
use go_conflux_sdk.Types.Rlp.{Rlp}
use go_conflux_sdk.Account.Keys.{Account, KeyStore}
use go_conflux_sdk.Account.{AccountManager, remember, remember_all, new_account_manager, account}
use go_conflux_sdk.Account.Calls.{Op, answer, trace}
use go_conflux_sdk.Account.Ledger.Refines.{view, remember-view, answer-Simulates}
use go_conflux_sdk.Account.Ledger.{Ledger, serve, known_of, ledger_of}

module _ {K : Type 0} (E : Ethereum) (R : Rlp) (S : KeyStore K) where
  trace-Simulates :
      (os : List Op) (m : AccountManager K)
      → ((trace (answer E R S) os m).0 ≡ (trace (serve E S) os (view E R S m)).0)
        × (view E R S (trace (answer E R S) os m).1 ≡ (trace (serve E S) os (view E R S m)).1)
  unfolding trace
  trace-Simulates [] m = (refl, refl)
  trace-Simulates (o ∷ os) m =
      let first = answer-Simulates E R S o in
      let (outcomes, last) = trace-Simulates os (answer E R S o m).1 in
      let after : trace (serve E S) os (view E R S (answer E R S o m).1)
          ≡ trace (serve E S) os (serve E S o (view E R S m)).1 =
        ap (trace (serve E S) os) (first.end m) in
      (
        λ i.
            first.outcome m i
            ∷ (outcomes ∙ ap (λ (t : List (Result Text) × Ledger K). t.0) after) i,
        last ∙ ap (λ (t : List (Result Text) × Ledger K). t.1) after,
      )

  known_of-view :
      (xs : List Account) (dic : Dict Account)
      → (λ address. lookup address (remember_all E R S xs dic))
        ≡ known_of E S xs (λ address. lookup address dic)
  unfolding remember_all known_of
  known_of-view [] dic = refl
  known_of-view (x ∷ xs) dic =
      known_of-view xs (remember E R S x dic) ∙ ap (known_of E S xs) (remember-view E R S x dic)

  empty_dictionary :
      ◌≡◌ {A = Address → Option Account} (λ address. lookup address []) (λ address. none)
  unfolding lookup
  empty_dictionary = refl

  new_account_manager-view : (k : K) → view E R S (new_account_manager E R S k) ≡ ledger_of E S k
  unfolding new_account_manager ledger_of
  new_account_manager-view k =
      ap (λ (f : Address → Option Account). record { ks = k; known = f })
        (known_of-view (S.accounts k) [] ∙ ap (known_of E S (S.accounts k)) empty_dictionary)

  -- To any sequence of calls of the methods that may change it, a manager made from a keystore directory
  -- gives the answers, errors and panics included, that the ledger of the directory gives; afterwards
  -- the keystore is the same, and every address has the account that the ledger knows.
  pub trace-ledger :
      (k : K) (os : List Op)
      → ((trace (answer E R S) os (new_account_manager E R S k)).0
          ≡ (trace (serve E S) os (ledger_of E S k)).0)
        × ((trace (answer E R S) os (new_account_manager E R S k)).1.ks
            ≡ (trace (serve E S) os (ledger_of E S k)).1.ks)
        × ((address : Address)
            → account E R S address (trace (answer E R S) os (new_account_manager E R S k)).1
              ≡ (trace (serve E S) os (ledger_of E S k)).1.known address)
  unfolding account
  trace-ledger k os =
      let (outcomes, last) = trace-Simulates os (new_account_manager E R S k) in
      let start = ap (trace (serve E S) os) (new_account_manager-view k) in
      let end = last ∙ ap (λ (t : List (Result Text) × Ledger K). t.1) start in
      (
        outcomes ∙ ap (λ (t : List (Result Text) × Ledger K). t.0) start,
        ap (λ (l : Ledger K). l.ks) end,
        λ address. ap (λ (l : Ledger K). l.known address) end,
      )
