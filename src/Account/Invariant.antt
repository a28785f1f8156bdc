-- ===== src/Account/Invariant.antt =====
-- The dictionary of account.go against the keystore: what List shows can be used, after any calls.
use go_conflux_sdk.Base.{
  ◌≡◌, subst, Option, none, some, List, [], ◌∷◌, arith, Bytes, Text, map, All, inl, inr,
  Option-cases, String,
}
use go_conflux_sdk.Base.Int.{ℤ}
use go_conflux_sdk.Base.Dict.{lookup}
use go_conflux_sdk.Errors.{account_not_found}
use go_conflux_sdk.Result.{Result, ok, err, panic, wrap}
use go_conflux_sdk.Exec.{Exec, continue, ◌>>=◌, wrapping}
use go_conflux_sdk.Exec.Keeps.{Keeps, Keeps-pure, Keeps-bind, Keeps-wrapping, keeps_rules}
use go_conflux_sdk.Ethereum.{Ethereum}
use go_conflux_sdk.Types.Address.{Address}
use go_conflux_sdk.Types.Rlp.{Rlp}
use go_conflux_sdk.Account.Keys.{Account, KeyStore, KeyStoreLaws}
use go_conflux_sdk.Account.{
  AccountManager, on_ks, unless_known, remember, new_account_manager, store, create, import_account,
  account, found, delete, update, list_addresses, get_default, unlock, unlock_default, timed_unlock,
  timed_unlock_default, lock,
}
use go_conflux_sdk.Account.Calls.{
  Op, creates, imports, deletes, updates, unlocks, unlocks_default, unlocks_timed,
  unlocks_default_timed, locks, done, answer, step, run,
}
use go_conflux_sdk.Account.Entries.{
  cfx, Known, IsKeyed, IsSound, All-mono, ok_inj, remember-IsKeyed, remember-Known, remember_self,
  new_account_manager-IsSound,
}

module _ {K : Type 0} (E : Ethereum) (R : Rlp) (S : KeyStore K) where
  -- What a call that adds an account leaves, by what the keystore answered.
  store-IsSound :
      (msg : String) (m : AccountManager K) (k : K) (r : Result Account)
      → IsSound E R S m
      → ((P : Account → Type 0)
          → All P (S.accounts m.ks)
          → ((a : Account) → r ≡ ok a → P a)
          → All P (S.accounts k))
      → IsSound E R S (continue (wrap msg r, record m { ks = k }) (store E R S)).1
  unfolding store
  store-IsSound msg m k (ok a) h law = record {
    keyed = remember-IsKeyed E R S a m.cfx_address_dic h.keyed;
    covers =
        law _ (All-mono _ _ (S.accounts m.ks) (remember-Known E R S a m.cfx_address_dic) h.covers)
          (λ b e.
            subst (Known E (remember E R S a m.cfx_address_dic)) (ok_inj e)
              (remember_self E R S a m.cfx_address_dic));
  }
  store-IsSound msg m k (err e) h law = record {
    keyed = h.keyed;
    covers = law _ h.covers (λ a e. cc e);
  }
  store-IsSound msg m k panic h law = record {
    keyed = h.keyed;
    covers = law _ h.covers (λ a e. cc e);
  }

  on_ks-IsSound :
      {A : Type 0} (f : Exec K A)
      → ((k : K) → S.accounts (f k).1 ≡ S.accounts k)
      → Keeps (IsSound E R S) (on_ks f)
  unfolding on_ks
  on_ks-IsSound f same = record {
    at = λ m h. record { keyed = h.keyed; covers = rw (same m.ks) h.covers };
  }

  found-IsSound : (a : Address) → Keeps (IsSound E R S) (found E R S a)
  unfolding found
  found-IsSound a = record { at = λ m h. found_case m h (account E R S a m) }
    where
      found_case :
          (m : AccountManager K)
          → IsSound E R S m
          → (o : Option Account)
          → IsSound E R S
              (let r : Result Account × AccountManager K = elim o [
                | none ↦ (err (account_not_found a), m)
                | some b ↦ (ok b, m)
              ] in
                r).1
      found_case m h none = h
      found_case m h (some b) = h

  get_default-IsSound : Keeps (IsSound E R S) (get_default E R S)
  unfolding get_default
  get_default-IsSound = record { at = λ m h. h }

  module _ (laws : KeyStoreLaws S) where
    create-IsSound : (p : Text) → Keeps (IsSound E R S) (create E R S p)
    unfolding create on_ks
    create-IsSound p = record {
      at = λ m h. store-IsSound _ m _ (S.new_account p m.ks).0 h (laws.new_law p m.ks);
    }

    added-IsSound :
        (json : Bytes) (p q : Text)
        → Keeps (IsSound E R S) (
            wrapping "import account by keystore {%+v}, passphrase %+v, new passphrase %+v error"
              (on_ks (S.import_key json p q))
            >>= store E R S)
    unfolding on_ks
    added-IsSound json p q = record {
      at = λ m h.
          store-IsSound _ m _ (S.import_key json p q m.ks).0 h (laws.import_law json p q m.ks);
    }

    unless_known-IsSound : (b : Bytes) → Keeps (IsSound E R S) (unless_known E R S b)
    unfolding unless_known
    unless_known-IsSound b = record { at = λ m h. ground arith }

    import-IsSound : (f p q : Text) → Keeps (IsSound E R S) (import_account E R S f p q)
    unfolding import_account
    import-IsSound f p q = search (keeps_rules, added-IsSound, unless_known-IsSound)

    delete-IsSound : (a : Address) (p : Text) → Keeps (IsSound E R S) (delete E R S a p)
    unfolding delete on_ks
    delete-IsSound a p = record {
      at = λ m h. elim (Option-cases (lookup a m.cfx_address_dic)) [
        | inl e ↦ rw (e, delete) h
        | inr (b, e) ↦
            rw (e, delete)
              (record { keyed = h.keyed; covers = laws.delete_law b p m.ks _ h.covers })
      ];
    }

    update-IsSound : (a : Address) (p q : Text) → Keeps (IsSound E R S) (update E R S a p q)
    unfolding update
    update-IsSound a p q =
        Keeps-bind _ _ (found-IsSound a) λ b. on_ks-IsSound _ (laws.update_law b p q)

    unlock-IsSound : (a : Address) (p : Text) → Keeps (IsSound E R S) (unlock E R S a p)
    unfolding unlock
    unlock-IsSound a p = Keeps-bind _ _ (found-IsSound a) λ b. on_ks-IsSound _ (laws.unlock_law b p)

    timed_unlock-IsSound :
        (a : Address) (p : Text) (t : ℤ) → Keeps (IsSound E R S) (timed_unlock E R S a p t)
    unfolding timed_unlock
    timed_unlock-IsSound a p t =
        Keeps-bind _ _ (found-IsSound a) λ b. on_ks-IsSound _ (laws.timed_unlock_law b p t)

    unlock_default-IsSound : (p : Text) → Keeps (IsSound E R S) (unlock_default E R S p)
    unfolding unlock_default
    unlock_default-IsSound p =
        Keeps-bind _ _ (Keeps-wrapping _ _ get_default-IsSound) λ a. unlock-IsSound a p

    timed_unlock_default-IsSound :
        (p : Text) (t : ℤ) → Keeps (IsSound E R S) (timed_unlock_default E R S p t)
    unfolding timed_unlock_default
    timed_unlock_default-IsSound p t =
        Keeps-bind _ _ (Keeps-wrapping _ _ get_default-IsSound) λ a. timed_unlock-IsSound a p t

    lock-IsSound : (a : Address) → Keeps (IsSound E R S) (lock E R S a)
    unfolding lock
    lock-IsSound a = on_ks-IsSound _ (laws.lock_law (E.hex_to_address a))

    done-IsSound :
        (m : Exec (AccountManager K) (Unit {0}))
        → Keeps (IsSound E R S) m
        → Keeps (IsSound E R S) (done m)
    unfolding done
    done-IsSound m k = Keeps-bind m _ k λ _. Keeps-pure []

    answer-IsSound : (o : Op) → Keeps (IsSound E R S) (answer E R S o)
    unfolding answer
    answer-IsSound (creates p) = create-IsSound p
    answer-IsSound (imports f p q) = import-IsSound f p q
    answer-IsSound (deletes a p) = done-IsSound _ (delete-IsSound a p)
    answer-IsSound (updates a p q) = done-IsSound _ (update-IsSound a p q)
    answer-IsSound (unlocks a p) = done-IsSound _ (unlock-IsSound a p)
    answer-IsSound (unlocks_default p) = done-IsSound _ (unlock_default-IsSound p)
    answer-IsSound (unlocks_timed a p t) = done-IsSound _ (timed_unlock-IsSound a p t)
    answer-IsSound (unlocks_default_timed p t) = done-IsSound _ (timed_unlock_default-IsSound p t)
    answer-IsSound (locks a) = done-IsSound _ (lock-IsSound a)

    run-IsSound :
        (os : List Op) (m : AccountManager K) → IsSound E R S m → IsSound E R S (run E R S os m)
    unfolding run step
    run-IsSound [] m h = h
    run-IsSound (o ∷ os) m h = run-IsSound os (answer E R S o m).1 ((answer-IsSound o).at m h)

    -- The manager finds an account for the address, and the account has that general address.
    abbrev pub Finds : AccountManager K → Address → Type 0
    Finds m addr = (a : Account) × (account E R S addr m ≡ some a) × (cfx E a ≡ addr)

    Finds-All :
        (m : AccountManager K) (xs : List Account)
        → IsKeyed E m.cfx_address_dic
        → All (Known E m.cfx_address_dic) xs
        → All (Finds m) (map (cfx E) xs)
    unfolding account
    Finds-All m [] k h = tt
    Finds-All m (x ∷ xs) k ((b, e), h) = ((b, e, k (cfx E x) b e), Finds-All m xs k h)

    -- A manager made from a keystore directory, after any calls of its methods, finds an account for
    -- every address that List returns, and it is an account with that general address.
    pub run-Finds :
        (k : K) (os : List Op)
        → All
            (Finds (run E R S os (new_account_manager E R S k)))
            (list_addresses E R S (run E R S os (new_account_manager E R S k)))
    unfolding list_addresses
    run-Finds k os =
        let m = run E R S os (new_account_manager E R S k) in
        let h =
          run-IsSound os (new_account_manager E R S k) (new_account_manager-IsSound E R S k) in
        Finds-All m (S.accounts m.ks) h.keyed h.covers
