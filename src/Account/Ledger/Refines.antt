-- ===== src/Account/Ledger/Refines.antt =====
-- The methods of account.go against the ledger.
use mathlib.Core.Path.{fun_ext}
use go_conflux_sdk.Base.{◌≡◌, refl, ap, Option, none, some, List, [], ◌∷◌, Text, map, Bytes, arith}
use go_conflux_sdk.Base.Int.{ℤ}
use go_conflux_sdk.Base.Dict.{Dict, lookup, lookup-insert}
use go_conflux_sdk.Result.{ok, wrap}
use go_conflux_sdk.Exec.{Exec, ◌>>=◌, wrapping}
use go_conflux_sdk.Exec.Simulates.{Simulates, Simulates-lift, Simulates-wrapping, Simulates-bind}
use go_conflux_sdk.Ethereum.{Ethereum}
use go_conflux_sdk.Types.Address.{Address}
use go_conflux_sdk.Types.Rlp.{Rlp}
use go_conflux_sdk.Account.Keys.{Account, KeyStore}
use go_conflux_sdk.Account.{
  AccountManager, on_ks, unless_known, remember, store, create, import_account, account, found,
  found-none, found-some, delete, update, list_addresses, first_address, get_default, unlock,
  unlock_default, timed_unlock, timed_unlock_default, lock,
}
use go_conflux_sdk.Account.Calls.{
  Op, creates, imports, deletes, updates, unlocks, unlocks_default, unlocks_timed,
  unlocks_default_timed, locks, done, answer,
}
use go_conflux_sdk.Account.Entries.{cfx}
use go_conflux_sdk.Account.Ledger.{
  Ledger, knowing, keystore_call, or_not_found, known_account, on_account, learn, key_account,
  unless_listed, first_of, default_address, delete_known, serve,
}

module _ {K : Type 0} (E : Ethereum) (R : Rlp) (S : KeyStore K) where
  -- What a manager knows.
  abbrev pub view : AccountManager K → Ledger K
  view m = record { ks = m.ks; known = λ address. lookup address m.cfx_address_dic }

  on_ks-Simulates : {A : Type 0} (f : Exec K A) → Simulates view (on_ks f) (keystore_call f)
  unfolding on_ks keystore_call
  on_ks-Simulates f = record { outcome = λ m. refl; end = λ m. refl }

  found_both :
      (address : Address) (m : AccountManager K) (o : Option Account)
      → account E R S address m ≡ o
      → ((found E R S address m).0 ≡ or_not_found address o)
        × (view (found E R S address m).1 ≡ view m)
  unfolding or_not_found
  found_both address m none e = rw (found-none E R S address m e) (refl, refl)
  found_both address m (some a) e = rw (found-some E R S address a m e) (refl, refl)

  found-Simulates :
      (address : Address) → Simulates view (found E R S address) (known_account address)
  unfolding known_account account
  found-Simulates address = record {
    outcome = λ m. (found_both address m (lookup address m.cfx_address_dic) refl).0;
    end = λ m. (found_both address m (lookup address m.cfx_address_dic) refl).1;
  }

  pub remember-view :
      (a : Account) (dic : Dict Account)
      → (λ address. lookup address (remember E R S a dic))
        ≡ knowing E a (λ address. lookup address dic)
  unfolding remember knowing
  remember-view a dic = fun_ext λ address. lookup-insert (cfx E a) address a dic

  store-Simulates : (a : Account) → Simulates view (store E R S a) (learn E S a)
  unfolding store learn
  store-Simulates a = record {
    outcome = λ m. refl;
    end = λ m.
        ap (λ (f : Address → Option Account). record { ks = m.ks; known = f })
          (remember-view a m.cfx_address_dic);
  }

  done-Simulates :
      (m : Exec (AccountManager K) (Unit {0})) (n : Exec (Ledger K) (Unit {0}))
      → Simulates view m n
      → Simulates view (done m) (done n)
  unfolding done
  done-Simulates m n h = Simulates-bind m n _ _ h λ _. Simulates-lift (ok [])

  on_account-Simulates :
      (address : Address) (f : Account → Exec K (Unit {0}))
      → Simulates view (found E R S address >>= λ a. on_ks (f a)) (on_account address f)
  unfolding on_account
  on_account-Simulates address f =
      Simulates-bind _ _ _ _ (found-Simulates address) λ a. on_ks-Simulates (f a)

  first_of_lem : (xs : List Account) → first_address E R S (map (cfx E) xs) ≡ first_of E S xs
  unfolding first_address first_of
  first_of_lem [] = refl
  first_of_lem (x ∷ xs) = refl

  default-Simulates :
      Simulates view
        (wrapping "get default account error" (get_default E R S))
        (default_address E S)
  unfolding get_default default_address list_addresses
  default-Simulates = record {
    outcome = λ m. ap (wrap "get default account error") (first_of_lem (S.accounts m.ks));
    end = λ m. refl;
  }

  unlock-Simulates :
      (address : Address) (p : Text)
      → Simulates view (unlock E R S address p) (on_account address (λ a. S.unlock a p))
  unfolding unlock
  unlock-Simulates address p = on_account-Simulates address (λ a. S.unlock a p)

  timed_unlock-Simulates :
      (address : Address) (p : Text) (t : ℤ)
      → Simulates view
          (timed_unlock E R S address p t)
          (on_account address (λ a. S.timed_unlock a p t))
  unfolding timed_unlock
  timed_unlock-Simulates address p t = on_account-Simulates address (λ a. S.timed_unlock a p t)

  unless_known-Simulates :
      (address : Bytes) → Simulates view (unless_known E R S address) (unless_listed E S address)
  unfolding unless_known unless_listed
  unless_known-Simulates address = record { outcome = λ m. ground arith; end = λ m. ground arith }

  create-Simulates : (p : Text) → Simulates view (create E R S p) (serve E S (creates p))
  unfolding create serve
  create-Simulates p =
      Simulates-bind _ _ _ _ (Simulates-wrapping _ _ _ (on_ks-Simulates (S.new_account p)))
        store-Simulates

  import-Simulates :
      (f p q : Text) → Simulates view (import_account E R S f p q) (serve E S (imports f p q))
  unfolding import_account serve key_account
  import-Simulates f p q =
      Simulates-bind _ _ _ _ (Simulates-wrapping _ _ _ (Simulates-lift (S.read_file f))) λ json.
        Simulates-bind _ _ _ _ (Simulates-wrapping _ _ _ (Simulates-lift (S.decrypt_key json p)))
          λ address. Simulates-bind _ _ _ _ (unless_known-Simulates address) λ _.
            Simulates-bind _ _ _ _
              (Simulates-wrapping _ _ _ (on_ks-Simulates (S.import_key json p q))) store-Simulates

  delete_both :
      (address : Address) (p : Text) (m : AccountManager K) (o : Option Account)
      → lookup address m.cfx_address_dic ≡ o
      → ((delete E R S address p m).0 ≡ (delete_known E S o p (view m)).0)
        × (view (delete E R S address p m).1 ≡ (delete_known E S o p (view m)).1)
  unfolding delete delete_known on_ks keystore_call account
  delete_both address p m none e = rw (e, delete) (refl, refl)
  delete_both address p m (some a) e = rw (e, delete) (refl, refl)

  pub answer-Simulates : (o : Op) → Simulates view (answer E R S o) (serve E S o)
  unfolding answer serve
  answer-Simulates (creates p) = create-Simulates p
  answer-Simulates (imports f p q) = import-Simulates f p q
  answer-Simulates (deletes address p) = done-Simulates _ _ (record {
    outcome = λ m. (delete_both address p m (lookup address m.cfx_address_dic) refl).0;
    end = λ m. (delete_both address p m (lookup address m.cfx_address_dic) refl).1;
  })
  answer-Simulates (updates address p q) =
      done-Simulates _ _ (unfold update in on_account-Simulates address (λ a. S.update a p q))
  answer-Simulates (unlocks address p) = done-Simulates _ _ (unlock-Simulates address p)
  answer-Simulates (unlocks_default p) = done-Simulates _ _ (
      unfold unlock_default in
      Simulates-bind _ _ _ _ default-Simulates λ address. unlock-Simulates address p)
  answer-Simulates (unlocks_timed address p t) =
      done-Simulates _ _ (timed_unlock-Simulates address p t)
  answer-Simulates (unlocks_default_timed p t) = done-Simulates _ _ (
      unfold timed_unlock_default in
      Simulates-bind _ _ _ _ default-Simulates λ address. timed_unlock-Simulates address p t)
  answer-Simulates (locks address) =
      done-Simulates _ _ (unfold lock in on_ks-Simulates (S.lock (E.hex_to_address address)))
