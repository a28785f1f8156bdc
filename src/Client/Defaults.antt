-- ===== src/Client/Defaults.antt =====
-- ApplyUnsignedTransactionDefault and CreateUnsignedTransaction of client.go. The transaction is
-- changed in place, so it is part of the state: an error leaves in it what was filled before.
pub mod Fills
pub mod Kept
pub mod Filled
pub mod Price
pub mod Complete
pub mod Reference
use go_conflux_sdk.Base.{
  ℕ, Bool, true, false, ◌||◌, Option, none, some, List, [], ◌∷◌, Bytes, Text, String, is_none,
  if◌then◌else◌,
}
use go_conflux_sdk.Base.Int.{ℤ, pos, leb_ℤ}
use go_conflux_sdk.Errors.{Error, message}
use go_conflux_sdk.Result.{Result, ok, err, panic, deref}
use go_conflux_sdk.Exec.{Exec, continue, ◌>>=◌, ◌>>◌, pure, lift, fail, gets, wrapping, on_error}
use go_conflux_sdk.Ethereum.{Ethereum}
use go_conflux_sdk.Types.Address.{Address, min_gasprice, new_big_int}
use go_conflux_sdk.Types.Epoch.{latest_state}
use go_conflux_sdk.Types.Transaction.{
  UnsignedTransaction, UnsignedTransactionBase, empty_transaction, apply_default, fill,
}
use go_conflux_sdk.Types.Request.{fill_by_unsigned_tx, empty_request}
use go_conflux_sdk.Types.Response.{Estimate, Status}
use go_conflux_sdk.Client.Requester.{Client, AccountManagerOperator}
use go_conflux_sdk.Client.Queries.{
  get_next_nonce, get_status, get_gas_price, get_epoch_number, estimate_gas_and_collateral,
}

pub record TxState (W : Type 0) : Type 0 where
  pub world : W
  pub tx : UnsignedTransaction

unfoldable pub on_world : {W A : Type 0} → Exec W A → Exec (TxState W) A
on_world f st = ((f st.world).0, record st { world = (f st.world).1 })

unfoldable pub change_tx :
    {W : Type 0} → (UnsignedTransaction → UnsignedTransaction) → Exec (TxState W) (Unit {0})
change_tx f st = (ok tt, record st { tx = f st.tx })

-- Assignments to the fields of the base.
abbrev pub set_from : Option Address → UnsignedTransaction → UnsignedTransaction
set_from a tx = record tx { base = record (tx.base) { from = a } }

abbrev pub set_nonce : Option ℤ → UnsignedTransaction → UnsignedTransaction
set_nonce n tx = record tx { base = record (tx.base) { nonce = n } }

abbrev pub set_chain_id : Option ℤ → UnsignedTransaction → UnsignedTransaction
set_chain_id n tx = record tx { base = record (tx.base) { chain_id = n } }

abbrev pub set_gas_price : Option ℤ → UnsignedTransaction → UnsignedTransaction
set_gas_price n tx = record tx { base = record (tx.base) { gas_price = n } }

abbrev pub set_epoch_height : Option ℤ → UnsignedTransaction → UnsignedTransaction
set_epoch_height n tx = record tx { base = record (tx.base) { epoch_height = n } }

-- The two fields that an estimate fills, each if it is nil.
pub fill_estimate : Estimate → UnsignedTransaction → UnsignedTransaction
fill_estimate sm tx = record tx {
  base = record (tx.base) {
    gas = fill tx.gas sm.gas_used;
    storage_limit = fill tx.storage_limit sm.storage_collateralized;
  };
}

-- Not below the least price of the chain.
unfoldable pub at_least_min : ℤ → ℤ
at_least_min price = if leb_ℤ price (pos min_gasprice) then pos min_gasprice else price

-- `if p == nil { … }`
unfoldable pub when_nil : {A S : Type 0} → Option A → Exec S (Unit {0}) → Exec S (Unit {0})
when_nil none m = m
when_nil (some a) m = pure tt

-- The default account may come back as a nil pointer.
unfoldable pub account_or_error : Option Address → Result Address
account_or_error none = err (message "no account exist in keystore directory")
account_or_error (some a) = ok a

module _ {W : Type 0} (E : Ethereum) (c : Client W) where
  unfoldable pub from_manager : Option (AccountManagerOperator W) → Exec (TxState W) (Unit {0})
  unfolding on_world change_tx account_or_error
  from_manager none = pure tt
  from_manager (some am) = do
    p ← wrapping "get default account error" (on_world am.get_default)
    a ← lift (account_or_error p)
    change_tx (set_from (some a))

  unfoldable pub default_from : UnsignedTransaction → Exec (TxState W) (Unit {0})
  unfolding from_manager when_nil
  default_from tx = when_nil tx.from (from_manager c.account_manager)

  -- `*tx.From` may be nil.
  unfoldable pub default_nonce : UnsignedTransaction → Exec (TxState W) (Unit {0})
  unfolding on_world change_tx when_nil
  default_nonce tx = when_nil tx.nonce (do
    from ← lift (deref tx.from)
    n ← wrapping "get nonce of {%+v} error" (on_world (get_next_nonce E c.rpc_requester from none))
    change_tx (set_nonce (some n)))

  -- If the status cannot be had, the chain id is 0.
  unfoldable pub chain_of : Result Status → Exec (TxState W) (Unit {0})
  unfolding change_tx
  chain_of (ok status) = change_tx (set_chain_id status.chain_id)
  chain_of (err e) = change_tx (set_chain_id (new_big_int (pos 0)))
  chain_of panic = lift panic

  unfoldable pub default_chain_id : UnsignedTransaction → Exec (TxState W) (Unit {0})
  unfolding on_world chain_of when_nil
  default_chain_id tx = when_nil tx.chain_id λ st.
      let (r, w) = get_status E c.rpc_requester st.world in chain_of r (record st { world = w })

  unfoldable pub default_gas_price : UnsignedTransaction → Exec (TxState W) (Unit {0})
  unfolding on_world change_tx at_least_min when_nil
  default_gas_price tx = when_nil tx.gas_price (do
    price ← wrapping "get gas price error" (on_world (get_gas_price E c.rpc_requester))
    change_tx (set_gas_price (some (at_least_min price))))

  unfoldable pub default_epoch_height : UnsignedTransaction → Exec (TxState W) (Unit {0})
  unfolding on_world change_tx when_nil
  default_epoch_height tx = when_nil tx.epoch_height (do
    epoch ←
        wrapping "get epoch number of {%+v} error"
          (on_world (get_epoch_number E c.rpc_requester (some latest_state ∷ [])))
    change_tx (set_epoch_height (some epoch)))

  -- The gas and the storage limit may depend on all other fields.
  unfoldable pub default_estimate : UnsignedTransaction → Exec (TxState W) (Unit {0})
  unfolding on_world change_tx fill_estimate
  default_estimate tx =
      if is_none tx.storage_limit || is_none tx.gas
      then (do
        sm ← wrapping "get estimate gas and collateral by {%+v} error" (
            on_world (
              estimate_gas_and_collateral E c.rpc_requester
                (fill_by_unsigned_tx empty_request (some tx))))
        change_tx (fill_estimate sm))
      else pure tt

  -- A block of the method, on the transaction as it is then.
  unfoldable pub at_tx :
      (UnsignedTransaction → Exec (TxState W) (Unit {0})) → Exec (TxState W) (Unit {0})
  at_tx f st = f st.tx st

  -- The method on a client that is not nil.
  unfoldable pub apply_defaults : Exec (TxState W) (Unit {0})
  unfolding change_tx at_tx
  apply_defaults = do
    at_tx default_from
    at_tx default_nonce
    at_tx default_chain_id
    at_tx default_gas_price
    at_tx default_epoch_height
    at_tx default_estimate
    change_tx apply_default

-- A nil client leaves the transaction alone.
unfoldable pub apply_unsigned_transaction_default :
    {W : Type 0} → Ethereum → Option (Client W) → Exec (TxState W) (Unit {0})
unfolding apply_defaults
apply_unsigned_transaction_default E none = pure tt
apply_unsigned_transaction_default E (some c) = apply_defaults E c

-- CreateUnsignedTransaction: the result is the transaction, with the world after it.
pub create_unsigned_transaction :
    {W : Type 0}
    → Ethereum
    → Client W
    → Address
    → Address
    → Option ℤ
    → Bytes
    → Exec W UnsignedTransaction
unfolding apply_unsigned_transaction_default
create_unsigned_transaction E c from to amount raw w =
    let (r, st) =
      wrapping "apply default field of transaction {%+v} error"
        (apply_unsigned_transaction_default E (some c)) (record { world = w; tx = created }) in
    continue (r, st.world) (λ _. pure st.tx)
  where
    created : UnsignedTransaction
    created = record empty_transaction {
      base = record (empty_transaction.base) { from = some from; value = amount };
      to = some to;
      tx_data = raw;
    }
