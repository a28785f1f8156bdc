-- ===== src/Client/Defaults/Fills.antt =====
-- What ApplyUnsignedTransactionDefault of client.go may do to the transaction, step by step.
use go_conflux_sdk.Base.{
  ◌≡◌, refl, sym, subst, Bool, true, false, Option, none, some, ◌||◌, is_none, if◌then◌else◌,
}
use go_conflux_sdk.Base.Int.{ℤ, pos}
use go_conflux_sdk.Result.{Result, ok, err, panic, deref}
use go_conflux_sdk.Exec.{Exec, continue, ◌>>=◌, pure}
use go_conflux_sdk.Exec.Keeps.{Keeps, Keeps-pure, Keeps-lift, Keeps-bind, Keeps-wrapping}
use go_conflux_sdk.Ethereum.{Ethereum}
use go_conflux_sdk.Types.Address.{Address, new_big_int}
use go_conflux_sdk.Types.Transaction.{UnsignedTransaction, apply_default}
use go_conflux_sdk.Types.Response.{Estimate, Status}
use go_conflux_sdk.Client.Requester.{Client, AccountManagerOperator}
use go_conflux_sdk.Client.Queries.{get_status}
use go_conflux_sdk.Client.Defaults.{
  TxState, on_world, change_tx, set_from, set_nonce, set_chain_id, set_gas_price, set_epoch_height,
  fill_estimate, when_nil, from_manager, default_from, default_nonce, chain_of, default_chain_id,
  default_gas_price, default_epoch_height, default_estimate, at_tx, apply_defaults,
  apply_unsigned_transaction_default, at_least_min, account_or_error,
}

-- A step fills one field that is nil, the two fields of an estimate, or those of ApplyDefault.
pub data Fills (t : UnsignedTransaction) : UnsignedTransaction → Type 0 where
  sender : (a : Address) → t.from ≡ none → Fills t (set_from (some a) t)
  next_nonce : (n : ℤ) → t.nonce ≡ none → Fills t (set_nonce (some n) t)
  chain : (id : Option ℤ) → t.chain_id ≡ none → Fills t (set_chain_id id t)
  price : (p : ℤ) → t.gas_price ≡ none → Fills t (set_gas_price (some (at_least_min p)) t)
  height : (n : ℤ) → t.epoch_height ≡ none → Fills t (set_epoch_height (some n) t)
  estimate : (sm : Estimate) → Fills t (fill_estimate sm t)
  constants : Fills t (apply_default t)

pub data Reaches (t : UnsignedTransaction) : UnsignedTransaction → Type 0 where
  here : Reaches t t
  next : {u v : UnsignedTransaction} → Reaches t u → Fills u v → Reaches t v

pub Reaches-trans : {t u v : UnsignedTransaction} → Reaches t u → Reaches u v → Reaches t v
Reaches-trans r here = r
Reaches-trans r (next s f) = next (Reaches-trans r s) f

Reaches-same : (t u : UnsignedTransaction) → u ≡ t → Reaches t u
Reaches-same t u e = subst (Reaches t) (sym e) here

-- From a state with the transaction t the code leads, however it ends, by such steps.
pub record Leads {W A : Type 0} (t : UnsignedTransaction) (m : Exec (TxState W) A) : Type 0 where
  pub at : (st : TxState W) → st.tx ≡ t → Reaches t (m st).1.tx

-- The transaction is still t.
abbrev Still : {W : Type 0} → UnsignedTransaction → TxState W → Type 0
Still t st = st.tx ≡ t

module _ {W : Type 0} (t : UnsignedTransaction) where
  on_world-Still : {A : Type 0} (f : Exec W A) → Keeps (Still t) (on_world f)
  unfolding on_world
  on_world-Still f = record { at = λ st e. e }

  Leads-Still : {A : Type 0} (m : Exec (TxState W) A) → Keeps (Still t) m → Leads t m
  Leads-Still m k = record { at = λ st e. Reaches-same t (m st).1.tx (k.at st e) }

  pub Leads-change :
      (f : UnsignedTransaction → UnsignedTransaction)
      → Fills t (f t)
      → Leads {W = W} t (change_tx f)
  unfolding change_tx
  Leads-change f step = record {
    at = λ st e. subst (λ (u : UnsignedTransaction). Reaches t (f u)) (sym e) (next here step);
  }

  continue-Leads :
      {A B : Type 0} (r : Result A) (st : TxState W) (f : A → Exec (TxState W) B)
      → st.tx ≡ t
      → ((a : A) → Leads t (f a))
      → Reaches t (continue (r, st) f).1.tx
  continue-Leads (ok a) st f e k = (k a).at st e
  continue-Leads (err x) st f e k = Reaches-same t st.tx e
  continue-Leads panic st f e k = Reaches-same t st.tx e

  Leads-bind :
      {A B : Type 0} (m : Exec (TxState W) A) (f : A → Exec (TxState W) B)
      → Keeps (Still t) m
      → ((a : A) → Leads t (f a))
      → Leads t (m >>= f)
  Leads-bind m f k l = record { at = λ st e. continue-Leads (m st).0 (m st).1 f (k.at st e) l }

  Leads-when_nil :
      {A : Type 0} (p : Option A) (m : Exec (TxState W) (Unit {0}))
      → (p ≡ none → Leads t m)
      → Leads t (when_nil p m)
  unfolding when_nil
  Leads-when_nil none m k = k refl
  Leads-when_nil (some a) m k = Leads-Still (pure tt) (Keeps-pure tt)

  Leads-if :
      (b : Bool) (m : Exec (TxState W) (Unit {0})) → Leads t m → Leads t (if b then m else pure tt)
  Leads-if true m k = k
  Leads-if false m k = Leads-Still (pure tt) (Keeps-pure tt)

-- Each block of the method.
module _ {W : Type 0} (E : Ethereum) (c : Client W) (t : UnsignedTransaction) where
  manager-Leads :
      t.from ≡ none → (am : Option (AccountManagerOperator W)) → Leads t (from_manager E c am)
  unfolding from_manager
  manager-Leads e none = Leads-Still t (pure tt) (Keeps-pure tt)
  manager-Leads e (some am) =
      Leads-bind t _ _ (Keeps-wrapping _ _ (on_world-Still t am.get_default)) λ p.
        Leads-bind t _ _ (Keeps-lift (account_or_error p))
          λ a. Leads-change t (set_from (some a)) (sender a e)

  pub from-Leads : Leads t (default_from E c t)
  unfolding default_from
  from-Leads = Leads-when_nil t t.from _ λ e. manager-Leads e c.account_manager

  pub nonce-Leads : Leads t (default_nonce E c t)
  unfolding default_nonce
  nonce-Leads = Leads-when_nil t t.nonce _ λ e. Leads-bind t _ _ (Keeps-lift (deref t.from)) λ from.
      Leads-bind t _ _ (Keeps-wrapping _ _ (on_world-Still t _))
        λ n. Leads-change t (set_nonce (some n)) (next_nonce n e)

  chain_of-Leads : t.chain_id ≡ none → (r : Result Status) → Leads t (chain_of E c r)
  unfolding chain_of
  chain_of-Leads e (ok status) = Leads-change t _ (chain status.chain_id e)
  chain_of-Leads e (err x) = Leads-change t _ (chain (new_big_int (pos 0)) e)
  chain_of-Leads e panic = Leads-Still t _ (Keeps-lift panic)

  pub chain_id-Leads : Leads t (default_chain_id E c t)
  unfolding default_chain_id
  chain_id-Leads = Leads-when_nil t t.chain_id _ λ e. record {
    at = λ st h. (chain_of-Leads e (get_status E c.rpc_requester st.world).0).at _ h;
  }

  pub gas_price-Leads : Leads t (default_gas_price E c t)
  unfolding default_gas_price
  gas_price-Leads = Leads-when_nil t t.gas_price _ λ e.
      Leads-bind t _ _ (Keeps-wrapping _ _ (on_world-Still t _)) λ n. Leads-change t _ (price n e)

  pub epoch_height-Leads : Leads t (default_epoch_height E c t)
  unfolding default_epoch_height
  epoch_height-Leads = Leads-when_nil t t.epoch_height _ λ e.
      Leads-bind t _ _ (Keeps-wrapping _ _ (on_world-Still t _)) λ n. Leads-change t _ (height n e)

  pub estimate-Leads : Leads t (default_estimate E c t)
  unfolding default_estimate
  estimate-Leads = Leads-if t (is_none t.storage_limit || is_none t.gas) _ (
      Leads-bind t _ _ (Keeps-wrapping _ _ (on_world-Still t _))
        λ sm. Leads-change t (fill_estimate sm) (estimate sm))

module _ {W : Type 0} (E : Ethereum) (t : UnsignedTransaction) where
  block-Reaches :
      (c : Client W) (f : UnsignedTransaction → Exec (TxState W) (Unit {0}))
      → ((u : UnsignedTransaction) → Leads u (f u))
      → Keeps (λ (st : TxState W). Reaches t st.tx) (at_tx E c f)
  unfolding at_tx
  block-Reaches c f k = record { at = λ st r. Reaches-trans r ((k st.tx).at st refl) }

  constants-Reaches : Keeps (λ (st : TxState W). Reaches t st.tx) (change_tx apply_default)
  unfolding change_tx
  constants-Reaches = record { at = λ st r. next r constants }

  defaults-Reaches :
      (c : Client W) → Keeps (λ (st : TxState W). Reaches t st.tx) (apply_defaults E c)
  unfolding apply_defaults
  defaults-Reaches c = Keeps-bind _ _ (block-Reaches c _ (from-Leads E c)) λ _.
      Keeps-bind _ _ (block-Reaches c _ (nonce-Leads E c)) λ _.
        Keeps-bind _ _ (block-Reaches c _ (chain_id-Leads E c)) λ _.
          Keeps-bind _ _ (block-Reaches c _ (gas_price-Leads E c)) λ _.
            Keeps-bind _ _ (block-Reaches c _ (epoch_height-Leads E c))
              λ _. Keeps-bind _ _ (block-Reaches c _ (estimate-Leads E c)) λ _. constants-Reaches

-- However the call ends, on a client that is nil or not, the transaction has come by such steps from
-- what it was.
pub apply_unsigned_transaction_default-Reaches :
    {W : Type 0} (E : Ethereum) (c : Option (Client W)) (st : TxState W)
    → Reaches st.tx (apply_unsigned_transaction_default E c st).1.tx
unfolding apply_unsigned_transaction_default
apply_unsigned_transaction_default-Reaches E none st = here
apply_unsigned_transaction_default-Reaches E (some c) st = (defaults-Reaches E st.tx c).at st here
