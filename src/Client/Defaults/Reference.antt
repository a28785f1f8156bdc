-- ===== src/Client/Defaults/Reference.antt =====
-- ApplyUnsignedTransactionDefault of client.go on a node that answers each of its queries, against what
-- the transaction is then to be.
use go_conflux_sdk.Base.{◌≡◌, refl, ap, ◌∙◌, ◌||◌, Option, none, some, [], ◌∷◌, true, is_none}
use go_conflux_sdk.Base.Int.{ℤ, pos}
use go_conflux_sdk.Result.{Result, ok}
use go_conflux_sdk.Exec.{Exec, continue, wrapping}
use go_conflux_sdk.Ethereum.{Ethereum}
use go_conflux_sdk.Types.Address.{Address, new_big_int}
use go_conflux_sdk.Types.Epoch.{latest_state}
use go_conflux_sdk.Types.Transaction.{
  UnsignedTransaction, apply_default, default_gas_price as price_default, fill,
}
use go_conflux_sdk.Types.Request.{CallRequest, fill_by_unsigned_tx, empty_request}
use go_conflux_sdk.Types.Response.{Estimate, Status}
use go_conflux_sdk.Client.Requester.{Client, AccountManagerOperator}
use go_conflux_sdk.Client.Queries.{
  get_next_nonce, get_status, get_gas_price, get_epoch_number, estimate_gas_and_collateral,
}
use go_conflux_sdk.Client.Defaults.{
  TxState, on_world, change_tx, set_from, set_nonce, set_chain_id, set_gas_price, set_epoch_height,
  fill_estimate, at_least_min, when_nil, account_or_error, from_manager, default_from,
  default_nonce, chain_of, default_chain_id, default_gas_price, default_epoch_height,
  default_estimate, at_tx, apply_defaults, apply_unsigned_transaction_default,
}

module _ {W : Type 0} (E : Ethereum) (c : Client W) where
  -- What the node answers, whatever the world, which the queries leave alone.
  pub record Answering : Type 0 where
    pub nonce : Address → ℤ
    pub status : Status
    pub price : ℤ
    pub epoch : ℤ
    pub estimate : CallRequest → Estimate
    pub is_nonce :
        (a : Address) (w : W) → get_next_nonce E c.rpc_requester a none w ≡ (ok (nonce a), w)
    pub is_status : (w : W) → get_status E c.rpc_requester w ≡ (ok status, w)
    pub is_price : (w : W) → get_gas_price E c.rpc_requester w ≡ (ok price, w)
    pub is_epoch :
        (w : W) → get_epoch_number E c.rpc_requester (some latest_state ∷ []) w ≡ (ok epoch, w)
    pub is_estimate :
        (r : CallRequest) (w : W)
        → estimate_gas_and_collateral E c.rpc_requester r w ≡ (ok (estimate r), w)

  -- The sender is set, or the account manager's default account.
  unfoldable pub IsSender : Address → Option Address → Type 0
  IsSender from (some a) = a ≡ from
  IsSender from none =
      (am : AccountManagerOperator W) × (c.account_manager ≡ some am)
      × ((w : W) → am.get_default w ≡ (ok (some from), w))

  module _ (n : Answering) where
    -- The fields that are set before the estimate.
    abbrev pub before_estimate : Address → UnsignedTransaction → UnsignedTransaction
    before_estimate from t = record t {
      base = record (t.base) {
        from = some from;
        nonce = fill t.nonce (some (n.nonce from));
        chain_id = fill t.chain_id n.status.chain_id;
        gas_price = fill t.gas_price (some (at_least_min n.price));
        epoch_height = fill t.epoch_height (some n.epoch);
      };
    }

    -- With the estimate for these fields.
    abbrev pub completed : Address → UnsignedTransaction → UnsignedTransaction
    completed from t =
        let u = before_estimate from t in
        let sm = n.estimate (fill_by_unsigned_tx empty_request (some u)) in
        record u {
          base = record (u.base) {
            gas = fill (fill t.gas sm.gas_used) (some (pos 21000));
            storage_limit = fill t.storage_limit sm.storage_collateralized;
            value = fill t.value (some (pos 0));
          };
        }

    fill_twice : (p d : Option ℤ) (x : ℤ) → fill (fill p (some x)) d ≡ fill p (some x)
    fill_twice none d x = refl
    fill_twice (some y) d x = refl

    apply_default-completed :
        (from : Address) (t : UnsignedTransaction)
        → let u = before_estimate from t in
          apply_default (fill_estimate (n.estimate (fill_by_unsigned_tx empty_request (some u))) u)
          ≡ completed from t
    unfolding apply_default fill_estimate new_big_int
    apply_default-completed from t =
        rw (fill_twice t.gas_price price_default (at_least_min n.price)) refl

    abbrev at : W → UnsignedTransaction → TxState W
    at w t = record { world = w; tx = t }

    from_step :
        (from : Address) (p : Option Address) (t : UnsignedTransaction) (w : W)
        → IsSender from p
        → t.from ≡ p
        → when_nil p (from_manager E c c.account_manager) (at w t)
          ≡ (ok tt, at w (set_from (some from) t))
    unfolding when_nil from_manager IsSender on_world account_or_error change_tx
    from_step from (some a) t w h e =
        ap (λ (q : Option Address). (ok tt, at w (set_from q t)))
          (e ∙ ap (λ (b : Address). some b) h)
    from_step from none t w (am, managed, gives) e = rw (managed, gives w) refl

    nonce_step :
        (from : Address) (p : Option ℤ) (t : UnsignedTransaction) (w : W)
        → t.from ≡ some from
        → t.nonce ≡ p
        → default_nonce E c t (at w t) ≡ (ok tt, at w (set_nonce (fill p (some (n.nonce from))) t))
    unfolding default_nonce when_nil on_world change_tx
    nonce_step from none t w is_from e = rw (e, is_from, n.is_nonce from w) refl
    nonce_step from (some x) t w is_from e = rw e refl

    chain_step :
        (p : Option ℤ) (t : UnsignedTransaction) (w : W)
        → t.chain_id ≡ p
        → default_chain_id E c t (at w t)
          ≡ (ok tt, at w (set_chain_id (fill p n.status.chain_id) t))
    unfolding default_chain_id when_nil chain_of change_tx
    chain_step none t w e = rw (e, n.is_status w) refl
    chain_step (some x) t w e = rw e refl

    price_step :
        (p : Option ℤ) (t : UnsignedTransaction) (w : W)
        → t.gas_price ≡ p
        → default_gas_price E c t (at w t)
          ≡ (ok tt, at w (set_gas_price (fill p (some (at_least_min n.price))) t))
    unfolding default_gas_price when_nil on_world change_tx
    price_step none t w e = rw (e, n.is_price w) refl
    price_step (some x) t w e = rw e refl

    height_step :
        (p : Option ℤ) (t : UnsignedTransaction) (w : W)
        → t.epoch_height ≡ p
        → default_epoch_height E c t (at w t)
          ≡ (ok tt, at w (set_epoch_height (fill p (some n.epoch)) t))
    unfolding default_epoch_height when_nil on_world change_tx
    height_step none t w e = rw (e, n.is_epoch w) refl
    height_step (some x) t w e = rw e refl

    estimated :
        (t : UnsignedTransaction) (w : W)
        → continue
            (wrapping "get estimate gas and collateral by {%+v} error"
              (on_world (
                estimate_gas_and_collateral E c.rpc_requester
                  (fill_by_unsigned_tx empty_request (some t))))
              (at w t))
            (λ sm. change_tx (fill_estimate sm))
          ≡ (
            ok tt,
            at w (fill_estimate (n.estimate (fill_by_unsigned_tx empty_request (some t))) t),
          )
    unfolding on_world change_tx
    estimated t w = rw (n.is_estimate (fill_by_unsigned_tx empty_request (some t)) w) refl

    estimate_step :
        (p q : Option ℤ) (t : UnsignedTransaction) (w : W)
        → t.storage_limit ≡ p
        → t.gas ≡ q
        → default_estimate E c t (at w t) ≡ (
          ok tt,
          at w (fill_estimate (n.estimate (fill_by_unsigned_tx empty_request (some t))) t),
        )
    unfolding default_estimate on_world change_tx fill_estimate
    estimate_step none q t w e f =
        let missing : (is_none t.storage_limit || is_none t.gas) ≡ true = rw e refl in
        rw missing (estimated t w)
    estimate_step (some x) none t w e f =
        let missing : (is_none t.storage_limit || is_none t.gas) ≡ true = rw (e, f) refl in
        rw missing (estimated t w)
    estimate_step (some x) (some y) t w e f = rw (e, f) refl

    -- A part that succeeds is followed by the next.
    and_then :
        (o : Result (Unit {0}) × TxState W) (t : UnsignedTransaction) (w : W)
        (m : Exec (TxState W) (Unit {0}))
        → o ≡ (ok tt, at w t)
        → continue o (λ (u : Unit {0}). m) ≡ m (at w t)
    and_then o t w m e = rw e refl

    -- When the node answers each query, whatever the world, which the queries leave alone, and the sender
    -- is set or is the default account of the account manager, ApplyUnsignedTransactionDefault succeeds and
    -- leaves the transaction in which each field that was nil has what the node answers for it, the gas
    -- price not below 1 Gdrip, the gas and the storage limit by the estimate for the transaction with all
    -- else filled in, the gas 21000 and the value 0 where nothing else gives them.
    pub apply_unsigned_transaction_default_lem :
        (from : Address) (t : UnsignedTransaction) (w : W)
        → IsSender from t.from
        → apply_unsigned_transaction_default E (some c) (at w t) ≡ (ok tt, at w (completed from t))
    unfolding apply_unsigned_transaction_default apply_defaults at_tx change_tx default_from
    apply_unsigned_transaction_default_lem from t w is_sender =
        let t1 = set_from (some from) t in
        let t2 = set_nonce (fill t.nonce (some (n.nonce from))) t1 in
        let t3 = set_chain_id (fill t.chain_id n.status.chain_id) t2 in
        let t4 = set_gas_price (fill t.gas_price (some (at_least_min n.price))) t3 in
        let t5 = set_epoch_height (fill t.epoch_height (some n.epoch)) t4 in
        and_then _ t1 w _ (from_step from t.from t w is_sender refl)
        ∙ and_then _ t2 w _ (nonce_step from t1.nonce t1 w refl refl)
        ∙ and_then _ t3 w _ (chain_step t2.chain_id t2 w refl)
        ∙ and_then _ t4 w _ (price_step t3.gas_price t3 w refl)
        ∙ and_then _ t5 w _ (height_step t4.epoch_height t4 w refl)
        ∙ and_then _ _ w _ (estimate_step t5.storage_limit t5.gas t5 w refl refl)
        ∙ ap (λ (u : UnsignedTransaction). (ok tt, at w u)) (apply_default-completed from t)
