-- ===== src/Client/Defaults/Filled.antt =====
-- What ApplyUnsignedTransactionDefault of client.go has filled when it succeeds.
use go_conflux_sdk.Base.{◌≡◌, refl, Option, none, some, [], ◌∷◌}
use go_conflux_sdk.Base.Int.{pos}
use go_conflux_sdk.Result.{ok, deref}
use go_conflux_sdk.Exec.{Exec, lift, wrapping}
use go_conflux_sdk.Exec.Keeps.{Keeps, Keeps-bind}
use go_conflux_sdk.Exec.Gives.{Gives, Gives-bind, Gives-kept}
use go_conflux_sdk.Ethereum.{Ethereum}
use go_conflux_sdk.Types.Address.{new_big_int}
use go_conflux_sdk.Types.Transaction.{UnsignedTransaction, apply_default, fill}
use go_conflux_sdk.Types.Epoch.{latest_state}
use go_conflux_sdk.Client.Requester.{Client}
use go_conflux_sdk.Client.Queries.{get_next_nonce, get_epoch_number}
use go_conflux_sdk.Client.Defaults.{
  TxState, on_world, change_tx, set_nonce, set_epoch_height, when_nil, default_from, default_nonce,
  default_chain_id, default_gas_price, default_epoch_height, default_estimate, at_tx,
  apply_defaults, apply_unsigned_transaction_default,
}
use go_conflux_sdk.Client.Defaults.Fills.{
  constants, Leads, chain_id-Leads, gas_price-Leads, epoch_height-Leads, estimate-Leads,
}
use go_conflux_sdk.Client.Defaults.Kept.{Kept, Extends, Fills-Extends, Reaches-Extends}

abbrev pub Present : {A : Type 0} → Option A → Type 0
Present {A} p = (a : A) × (p ≡ some a)

Present-Kept : {A : Type 0} (p q : Option A) → Kept p q → Present p → Present q
Present-Kept none q k (a, e) = absurd (cc e)
Present-Kept (some b) q k (a, e) = (b, k)

module _ {W : Type 0} (E : Ethereum) (c : Client W) where
  -- A field that is set stays set.
  stays_set :
      {A : Type 0} (field : UnsignedTransaction → Option A)
      → ((t u : UnsignedTransaction) → Extends t u → Kept (field t) (field u))
      → (f : UnsignedTransaction → Exec (TxState W) (Unit {0}))
      → ((u : UnsignedTransaction) → Leads u (f u))
      → Keeps (λ (st : TxState W). Present (field st.tx)) (at_tx E c f)
  unfolding at_tx
  stays_set field k f leads = record {
    at = λ st h.
        Present-Kept (field st.tx) _ (k st.tx _ (Reaches-Extends ((leads st.tx).at st refl))) h;
  }

  -- A block that sets the field if it is nil leaves it set.
  when_nil_sets :
      {A : Type 0} (field : UnsignedTransaction → Option A) (p : Option A)
      (m : Exec (TxState W) (Unit {0})) (st : TxState W)
      → field st.tx ≡ p
      → Gives (λ (s : TxState W). Present (field s.tx)) m
      → (a : Unit {0}) → (when_nil p m st).0 ≡ ok a
      → Present (field (when_nil p m st).1.tx)
  unfolding when_nil
  when_nil_sets field none m st e g a h = g.after st a h
  when_nil_sets field (some x) m st e g a h = (x, e)

  change_sets :
      {A : Type 0} (field : UnsignedTransaction → Option A)
      (f : UnsignedTransaction → UnsignedTransaction)
      → ((t : UnsignedTransaction) → Present (field (f t)))
      → Gives (λ (st : TxState W). Present (field st.tx)) (change_tx {W = W} f)
  unfolding change_tx
  change_sets field f k = record { after = λ st a e. k st.tx }

  nonce_set : Gives (λ (st : TxState W). Present st.tx.nonce) (at_tx E c (default_nonce E c))
  unfolding at_tx default_nonce
  nonce_set = record {
    after = λ st.
        when_nil_sets (λ t. t.nonce) st.tx.nonce _ st refl
          (Gives-bind (lift (deref st.tx.from)) _ λ from.
            Gives-bind
              (wrapping "get nonce of {%+v} error"
                (on_world (get_next_nonce E c.rpc_requester from none)))
              _ λ n. change_sets (λ t. t.nonce) (set_nonce (some n)) (λ t. (n, refl)));
  }

  epoch_height_set :
      Gives (λ (st : TxState W). Present st.tx.epoch_height) (at_tx E c (default_epoch_height E c))
  unfolding at_tx default_epoch_height
  epoch_height_set = record {
    after = λ st.
        when_nil_sets (λ t. t.epoch_height) st.tx.epoch_height _ st refl
          (Gives-bind
            (wrapping "get epoch number of {%+v} error"
              (on_world (get_epoch_number E c.rpc_requester (some latest_state ∷ []))))
            _ λ n. change_sets (λ t. t.epoch_height) (set_epoch_height (some n)) (λ t. (n, refl)));
  }

  default-Keeps :
      {A : Type 0} (field : UnsignedTransaction → Option A)
      → ((t u : UnsignedTransaction) → Extends t u → Kept (field t) (field u))
      → Keeps (λ (st : TxState W). Present (field st.tx)) (change_tx {W = W} apply_default)
  unfolding change_tx
  default-Keeps field k = record {
    at = λ st h. Present-Kept (field st.tx) _ (k st.tx _ (Fills-Extends constants)) h;
  }

  fill-Present : {A : Type 0} (p : Option A) (d : A) → Present (fill p (some d))
  fill-Present none d = (d, refl)
  fill-Present (some a) d = (a, refl)

  nonce_filled : Gives (λ (st : TxState W). Present st.tx.nonce) (apply_defaults E c)
  unfolding apply_defaults
  nonce_filled =
      let stay = stays_set (λ t. t.nonce) (λ t u h. h.nonce) in
      Gives-bind (at_tx E c (default_from E c)) _ λ _. Gives-kept _ _ nonce_set λ _.
        Keeps-bind _ _ (stay _ (chain_id-Leads E c)) λ _.
          Keeps-bind _ _ (stay _ (gas_price-Leads E c)) λ _.
            Keeps-bind _ _ (stay _ (epoch_height-Leads E c)) λ _.
              Keeps-bind _ _ (stay _ (estimate-Leads E c))
                λ _. default-Keeps (λ t. t.nonce) (λ t u h. h.nonce)

  epoch_height_filled : Gives (λ (st : TxState W). Present st.tx.epoch_height) (apply_defaults E c)
  unfolding apply_defaults
  epoch_height_filled =
      let stay = stays_set (λ t. t.epoch_height) (λ t u h. h.epoch_height) in
      Gives-bind (at_tx E c (default_from E c)) _ λ _.
        Gives-bind (at_tx E c (default_nonce E c)) _ λ _.
          Gives-bind (at_tx E c (default_chain_id E c)) _ λ _.
            Gives-bind (at_tx E c (default_gas_price E c)) _ λ _.
              Gives-kept _ _ epoch_height_set λ _.
                Keeps-bind _ _ (stay _ (estimate-Leads E c))
                  λ _. default-Keeps (λ t. t.epoch_height) (λ t u h. h.epoch_height)

  -- What ApplyDefault leaves set.
  abbrev Defaulted : TxState W → Type 0
  Defaulted st = Present st.tx.gas_price × Present st.tx.gas × Present st.tx.value

  apply_default_sets :
      (t : UnsignedTransaction)
      → Present (apply_default t).gas_price
        × Present (apply_default t).gas
        × Present (apply_default t).value
  unfolding apply_default new_big_int
  apply_default_sets t = (
    fill-Present t.gas_price (pos 10_000_000_000),
    fill-Present t.gas (pos 21000),
    fill-Present t.value (pos 0),
  )

  change-Defaulted : Gives Defaulted (change_tx {W = W} apply_default)
  unfolding change_tx
  change-Defaulted = record { after = λ st a e. apply_default_sets st.tx }

  defaults_filled : Gives Defaulted (apply_defaults E c)
  unfolding apply_defaults
  defaults_filled = Gives-bind (at_tx E c (default_from E c)) _ λ _.
      Gives-bind (at_tx E c (default_nonce E c)) _ λ _.
        Gives-bind (at_tx E c (default_chain_id E c)) _ λ _.
          Gives-bind (at_tx E c (default_gas_price E c)) _ λ _.
            Gives-bind (at_tx E c (default_epoch_height E c)) _
              λ _. Gives-bind (at_tx E c (default_estimate E c)) _ λ _. change-Defaulted

-- When the call succeeds, the nonce, the epoch height, the gas price, the gas and the value are set.
pub apply_unsigned_transaction_default_fills :
    {W : Type 0} (E : Ethereum) (c : Client W) (st : TxState W)
    → (apply_unsigned_transaction_default E (some c) st).0 ≡ ok tt
    → let t = (apply_unsigned_transaction_default E (some c) st).1.tx in
      Present t.nonce
      × Present t.epoch_height
      × Present t.gas_price
      × Present t.gas
      × Present t.value
unfolding apply_unsigned_transaction_default
apply_unsigned_transaction_default_fills E c st e =
    let (p, g, v) = (defaults_filled E c).after st tt e in
    ((nonce_filled E c).after st tt e, (epoch_height_filled E c).after st tt e, p, g, v)
