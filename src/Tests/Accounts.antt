-- ===== src/Tests/Accounts.antt =====
-- The account manager over a keystore that is a list of accounts.
use go_conflux_sdk.Base.{
  ℕ, ◌≡◌, refl, ◌↔◌, some, List, [], ◌∷◌, Bytes, Text, codes, All, arith, text_eq_refl, text_eq,
  text_eq_iff, true, false, ◌⊎◌, ◌≢◌, inl, inr, sym, ◌∙◌, ap, Bool-cases,
}
use go_conflux_sdk.Base.Dict.{lookup}
use go_conflux_sdk.Types.Address.{Address}
use go_conflux_sdk.Result.{Result, ok, wrap}
use go_conflux_sdk.Hex.{encode_to_string, digit}
use go_conflux_sdk.Exec.{continue}
use go_conflux_sdk.Ethereum.{IsAddress}
use go_conflux_sdk.Utils.{general_bytes, to_cfx_general_address}
use go_conflux_sdk.Utils.General.{first_nibble}
use go_conflux_sdk.Types.Transaction.{SignedTransaction, empty_transaction}
use go_conflux_sdk.Types.Rlp.{encode_signed_tx}
use go_conflux_sdk.Account.Keys.{Account}
use go_conflux_sdk.Account.{
  AccountManager, on_ks, new_account_manager, account, delete, update, lock, list_addresses, sign,
  sign_with_passphrase, sign_and_encode,
}
use go_conflux_sdk.Account.Entries.{cfx}
use go_conflux_sdk.Account.Entries.Order.{
  same_account, same_account_iff, among, SameAccounts, IsSeparate,
}
use go_conflux_sdk.Account.Entries.Directory.{directory, new_account_manager-Directory}
use go_conflux_sdk.Account.Calls.{Op, creates, imports, deletes, run, trace, answer}
use go_conflux_sdk.Account.Ledger.{Ledger, serve, ledger_of}
use go_conflux_sdk.Account.Ledger.Traces.{trace-ledger}
use go_conflux_sdk.Account.Invariant.{Finds, run-Finds}
use go_conflux_sdk.Account.Faults.{delete_stale, lock_general}
use go_conflux_sdk.Account.Signing.{signers_agree}
use go_conflux_sdk.Tests.Instances.{eth, eth-HexLaws, codec, keystore, keystore-KeyStoreLaws}

-- The manager's account is at 0x31…, which is not a general address.
abbrev pub sample_account : Account
sample_account = record {
  address =
      0x31 ∷ 2 ∷ 3 ∷ 4 ∷ 5 ∷ 6 ∷ 7 ∷ 8 ∷ 9 ∷ 10 ∷ 11 ∷ 12 ∷ 13 ∷ 14 ∷ 15 ∷ 16 ∷ 17 ∷ 18 ∷ 19 ∷ 20
      ∷ [];
  url = codes "file";
}

pub sample-IsAddress : IsAddress sample_account.address
sample-IsAddress = record { length_eq = refl; all_bytes = omega arith }

abbrev two_accounts : List Account
two_accounts = sample_account ∷ sample_account ∷ []

abbrev other_account : Account
other_account = record { address = 0x42 ∷ 2 ∷ 3 ∷ []; url = codes "other" }

abbrev listed : List Account
listed = sample_account ∷ other_account ∷ []

among-listed : (a : Account) → among a listed ≡ true → (a ≡ sample_account) ⊎ (a ≡ other_account)
unfolding among
among-listed a m = elim (Bool-cases (same_account sample_account a)) [
  | inl e ↦ inl (sym ((same_account_iff sample_account a).0 e))
  | inr ne ↦ inr (sym ((same_account_iff other_account a).0 (ground (arith, m, ne))))
]

addresses_differ : text_eq (cfx eth sample_account) (cfx eth other_account) ≡ false
unfolding text_eq to_cfx_general_address general_bytes encode_to_string digit
addresses_differ = refl

distinct_addresses : cfx eth sample_account ≢ cfx eth other_account
distinct_addresses e =
    cc (sym ((text_eq_iff (cfx eth sample_account) (cfx eth other_account)).1 e) ∙ addresses_differ)

listed-IsSeparate : IsSeparate eth codec keystore listed
listed-IsSeparate a b ha hb e = elim (among-listed a ha) [
  | inl p ↦ elim (among-listed b hb) [
    | inl q ↦ p ∙ sym q
    | inr q ↦ absurd (distinct_addresses (ap (cfx eth) (sym p) ∙ e ∙ ap (cfx eth) q))
  ]
  | inr p ↦ elim (among-listed b hb) [
    | inl q ↦ absurd (distinct_addresses (ap (cfx eth) (sym q) ∙ sym e ∙ ap (cfx eth) p))
    | inr q ↦ p ∙ sym q
  ]
]

abbrev relisted : List Account
relisted = other_account ∷ sample_account ∷ other_account ∷ []

listed-SameAccounts : SameAccounts listed relisted
unfolding among
listed-SameAccounts a = elim (Bool-cases (same_account sample_account a)) [
  | inl e ↦ ground (arith, e)
  | inr e ↦ ground (arith, e)
]

relisted-IsSeparate : IsSeparate eth codec keystore relisted
relisted-IsSeparate a b ha hb =
    listed-IsSeparate a b (listed-SameAccounts a ∙ ha) (listed-SameAccounts b ∙ hb)

new_account_manager-Directory_example :
    ((address : Address)
      → account eth codec keystore address (new_account_manager eth codec keystore listed)
        ≡ account eth codec keystore address (new_account_manager eth codec keystore relisted))
    ↔ (directory eth codec keystore listed listed-IsSeparate
        ≡ directory eth codec keystore relisted relisted-IsSeparate)
new_account_manager-Directory_example =
    new_account_manager-Directory eth codec keystore listed relisted listed-IsSeparate
      relisted-IsSeparate

abbrev ops : List Op
ops =
    creates (codes "pass")
    ∷ imports (codes "file") (codes "a") (codes "b")
    ∷ deletes (codes "0x11") (codes "pass")
    ∷ []

run-Finds_example :
    All
      (Finds eth codec keystore keystore-KeyStoreLaws
        (run eth codec keystore ops (new_account_manager eth codec keystore two_accounts)))
      (list_addresses eth codec keystore
        (run eth codec keystore ops (new_account_manager eth codec keystore two_accounts)))
run-Finds_example = run-Finds eth codec keystore keystore-KeyStoreLaws two_accounts ops

abbrev manager_trace : List (Result Text) × AccountManager (List Account)
manager_trace =
    trace (answer eth codec keystore) ops (new_account_manager eth codec keystore two_accounts)

abbrev ledger_trace : List (Result Text) × Ledger (List Account)
ledger_trace = trace (serve eth keystore) ops (ledger_of eth keystore two_accounts)

trace-ledger_example :
    (manager_trace.0 ≡ ledger_trace.0)
    × (manager_trace.1.ks ≡ ledger_trace.1.ks)
    × ((address : Address)
        → account eth codec keystore address manager_trace.1 ≡ ledger_trace.1.known address)
trace-ledger_example = trace-ledger eth codec keystore two_accounts ops

abbrev empty_manager : AccountManager (List Account)
empty_manager = record { ks = []; cfx_address_dic = [] }

abbrev pub one_manager : AccountManager (List Account)
one_manager = record {
  ks = sample_account ∷ [];
  cfx_address_dic = (codes "0x1", sample_account) ∷ [];
}

one_known : account eth codec keystore (codes "0x1") one_manager ≡ some sample_account
unfolding account lookup
one_known = rw (text_eq_refl (codes "0x1")) refl

delete_stale_example :
    let m = (delete eth codec keystore (codes "0x1") (codes "p") one_manager).1 in
    ((other : Text)
      → account eth codec keystore other m ≡ account eth codec keystore other one_manager)
    × ((q r : Text)
        → update eth codec keystore (codes "0x1") q r m
          ≡ on_ks (keystore.update sample_account q r) m)
delete_stale_example =
    delete_stale eth codec keystore one_manager (codes "0x1") sample_account (codes "p") one_known

lock_general_example :
    (lock eth codec keystore (to_cfx_general_address eth sample_account.address) one_manager
      ≡ on_ks (keystore.lock (general_bytes sample_account.address)) one_manager)
    × ((general_bytes sample_account.address ≡ sample_account.address)
        ↔ (first_nibble sample_account.address ≡ 1))
lock_general_example =
    lock_general eth codec keystore eth-HexLaws one_manager sample_account sample-IsAddress

signers_agree_example :
    (sign_with_passphrase eth codec keystore empty_transaction (codes "p") one_manager
      ≡ continue
          (sign eth codec keystore empty_transaction (codes "p") one_manager)
          (λ (vrs : ℕ × Bytes × Bytes) m'.
            (ok (record { unsigned = empty_transaction; v = vrs.0; r = vrs.1; s = vrs.2 }), m')))
    × (sign_and_encode eth codec keystore empty_transaction (codes "p") one_manager
        ≡ continue
            (sign_with_passphrase eth codec keystore empty_transaction (codes "p") one_manager)
            (λ (signed : SignedTransaction) m'. (
              wrap "encode tx %+v with signature %+v error" (encode_signed_tx eth codec signed),
              m',
            )))
signers_agree_example = signers_agree eth codec keystore empty_transaction (codes "p") one_manager
